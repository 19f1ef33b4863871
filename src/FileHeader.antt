-- ===== src/FileHeader.antt =====
-- gitdiff/file_header.go: the names in file headers. `strconv.Unquote` is a parameter that gives none
-- for an error; an error of a method here is none, since it differs from another in its text alone.
pub mod Lines
pub mod Bounds
pub mod Names
pub mod Header
use go_gitdiff.Base.{
  ℕ, zero, suc, ◌+◌, ◌-◌, Bool, true, false, not, ◌&&◌, ◌||◌, Option, none, some, List, [], ◌∷◌,
  ◌++◌, Bytes, codes, length, take, drop, get_elem?, ltb, ◌==◌, equal, if◌then◌else◌,
}
use go_gitdiff.Base.Strings.{trim_last}
use go_gitdiff.PatchIdentity.{index_byte}

abbrev pub dev_null : Bytes
dev_null = codes "/dev/null"

-- `isSpace`
unfoldable pub is_space : ℕ → Bool
is_space c = c == b' ' || c == b'\t' || c == b'\n'

-- The loop of `cleanName`, with the bytes built so far.
unfoldable pub clean_loop : Bytes → ℕ → Bytes → Bytes
clean_loop out n [] = out
clean_loop out n (c ∷ []) = if c == b'/' && ltb 0 n then [] else out ++ c ∷ []
clean_loop out n (c ∷ d ∷ s) =
    let skipped = clean_loop out n (d ∷ s) in
    let dropped = clean_loop [] (n - 1) (d ∷ s) in
    let kept = clean_loop (out ++ c ∷ []) n (d ∷ s) in
    if c == b'/' && d == b'/' then skipped else if c == b'/' && ltb 0 n then dropped else kept

-- `trimTreePrefix`
unfoldable pub trim_tree_prefix : Bytes → ℕ → Bytes
trim_tree_prefix [] n = []
trim_tree_prefix (c ∷ s) zero = c ∷ s
trim_tree_prefix (c ∷ s) (suc n) = trim_tree_prefix s (if c == b'/' then n else suc n)

-- The loop of `parseUnquotedName`: the number of bytes before the first that ends the name.
unfoldable pub name_length : ℕ → Bytes → ℕ
name_length term [] = 0
name_length term (c ∷ s) =
    let more = name_length term s in if c == b'\n' || ltb 0 term && c == term then 0 else suc more

unfoldable pub parse_unquoted_name : Bytes → ℕ → Option (Bytes × ℕ)
unfolding name_length
parse_unquoted_name s term =
    let n = name_length term s in if n == 0 then none else some (take n s, n)

-- The loop of `parseQuotedName`, at index `n`, behind the byte `before`.
unfoldable pub quoted_end : ℕ → ℕ → Bytes → ℕ
quoted_end before n [] = n
quoted_end before n (c ∷ s) =
    let more = quoted_end c (n + 1) s in if c == b'"' && not (before == b'\\') then n + 1 else more

module _ (unquote : Bytes → Option Bytes) where
  -- `parseQuotedName`, on what stands behind the quote that each caller has found.
  unfoldable pub parse_quoted_name : Bytes → Option (Bytes × ℕ)
  unfolding quoted_end
  parse_quoted_name s =
      let n = quoted_end b'"' 1 s in
      if n == 2
      then none
      else elim (unquote (take n (b'"' ∷ s))) [ none ↦ none | some name ↦ some (name, n) ]

  pub name_of : Bytes → ℕ → Option (Bytes × ℕ)
  name_of [] term = parse_unquoted_name [] term
  name_of (c ∷ s) term = if c == b'"' then parse_quoted_name s else parse_unquoted_name (c ∷ s) term

  -- `parseName`
  unfoldable pub parse_name : Bytes → ℕ → ℕ → Option (Bytes × ℕ)
  unfolding name_of
  parse_name s term n = elim (name_of s term) [
    | none ↦ none
    | some (name, len) ↦ some (if equal name dev_null then name else clean_loop [] n name, len)
  ]

  -- The loop at the end of `parseGitHeaderName`: the first split at a space with equal names.
  pub find_split : Bytes → Bytes → Bytes
  find_split before [] = []
  find_split before (c ∷ []) = []
  find_split before (c ∷ d ∷ s) =
      let more = find_split (before ++ c ∷ []) (d ∷ s) in
      if is_space c && equal before (trim_tree_prefix (d ∷ s) 1) then before else more

  -- What follows the switch, with a second name that is empty or not.
  pub common_name : Bytes → Bytes → Bytes
  common_name first second =
      let first' = trim_tree_prefix first 1 in
      if equal second []
      then find_split [] first'
      else if equal first' (trim_tree_prefix second 1)
      then first'
      else []

  pub skip_spaces : Bytes → Bytes
  skip_spaces [] = []
  skip_spaces (c ∷ s) = let more = skip_spaces s in if is_space c then more else c ∷ s

  -- The second name of the cases 3 and 4.
  pub behind_quoted : Bytes → Bytes → Option Bytes
  behind_quoted first [] = some []
  behind_quoted first (c ∷ s) =
      if c == b'"'
      then elim (parse_quoted_name s) [
        | none ↦ none
        | some (second, n) ↦ some (common_name first second)
      ]
      else some (common_name first (c ∷ s))

  pub space_at : Bytes → ℕ → Bool
  space_at s i = elim (get_elem? s i) [ none ↦ false | some c ↦ is_space c ]

  -- The switch over the position of the first quote.
  pub git_names : Bytes → Option ℕ → Option Bytes
  git_names header none = some (common_name header [])
  git_names header (some (suc q)) =
      if not (space_at header q) then none else elim (parse_quoted_name (drop (q + 2) header)) [
        | none ↦ none
        | some (second, n) ↦ some (common_name (take q header) second)
      ]
  git_names header (some zero) = elim (parse_quoted_name (drop 1 header)) [
    | none ↦ none
    | some (first, n) ↦ behind_quoted first (skip_spaces (drop n header))
  ]

  -- `parseGitHeaderName`
  unfoldable pub parse_git_header_name : Bytes → Option Bytes
  unfolding git_names behind_quoted skip_spaces common_name find_split space_at
  parse_git_header_name line =
      let header = trim_last b'\n' line in
      if equal header [] then some [] else git_names header (index_byte header b'"')
