-- ===== src/PatchIdentity.antt =====
-- gitdiff/patch_identity.go. A string is a list of bytes. `strings.TrimSpace`, which knows Unicode,
-- is a parameter.
pub mod Normal
pub mod Scan
pub mod Split
pub mod RoundTrip
use go_gitdiff.Base.{
  ℕ, zero, suc, ◌+◌, ◌-◌, Bool, true, false, not, ◌&&◌, ◌||◌, Option, none, some, List, [], ◌∷◌,
  ◌++◌, Bytes, codes, length, get_elem?, take, drop, ltb, leb, ◌==◌, equal, if◌then◌else◌,
}

pub record PatchIdentity : Type 0 where
  pub name : Bytes
  pub email : Bytes

-- `String`
unfoldable pub identity_string : PatchIdentity → Bytes
identity_string i =
    (if equal i.name [] then b'"' ∷ b'"' ∷ [] else i.name) ++ (b' ' ∷ b'<' ∷ (i.email ++ b'>' ∷ []))

-- `isRFC5332Space`
unfoldable pub is_space : ℕ → Bool
is_space c = c == b'\t' || c == b'\n' || c == b'\r' || c == b' '

-- The loop of `normalizeSpace`, with the bytes built so far and the byte before the next one.
pub normalize_loop : Bytes → ℕ → Bytes → Bytes
normalize_loop out before [] = out
normalize_loop out before (c ∷ s) =
    normalize_loop
      (if is_space c
        then out
        else if ltb 0 (length out) && is_space before
        then out ++ b' ' ∷ c ∷ []
        else out ++ c ∷ [])
      c s

unfoldable pub normalize_space : Bytes → Bytes
unfolding normalize_loop is_space
normalize_space s = normalize_loop [] 0 s

-- The variables of `unquotePairs`.
pub record Quoting : Type 0 where
  pub quote : Bool
  pub comments : ℕ
  pub escaped : Bool
  pub out : Bytes

abbrev pub put : Quoting → ℕ → Quoting
put q c = record q { out = q.out ++ c ∷ [] }

-- One byte of the loop; a branch with no write is `continue`.
pub unquote_byte : Quoting → ℕ → Quoting
unquote_byte q c =
    if q.escaped
    then put (record q { escaped = false }) c
    else if c == b'\\'
    then (if q.quote || ltb 0 q.comments then record q { escaped = true } else put q c)
    else if c == b'"'
    then (if q.comments == 0 then record q { quote = not q.quote } else put q c)
    else if c == b'('
    then (if q.quote then put q c else put (record q { comments = q.comments + 1 }) c)
    else if c == b')'
    then (if ltb 0 q.comments then put (record q { comments = q.comments - 1 }) c else put q c)
    else put q c

pub unquote_loop : Quoting → Bytes → Quoting
unquote_loop q [] = q
unquote_loop q (c ∷ s) = unquote_loop (unquote_byte q c) s

unfoldable pub unquote_pairs : Bytes → Bytes
unfolding unquote_loop unquote_byte
unquote_pairs s =
    (unquote_loop (record { quote = false; comments = 0; escaped = false; out = [] }) s).out

-- `strings.IndexByte`
unfoldable pub index_byte : Bytes → ℕ → Option ℕ
index_byte [] b = none
index_byte (c ∷ s) b =
    let later = index_byte s b in
    if c == b then some 0 else elim later [ none ↦ none | some i ↦ some (i + 1) ]

abbrev pub byte_at : Bytes → ℕ → ℕ → Bool
byte_at s i b = elim (get_elem? s i) [ none ↦ false | some c ↦ c == b ]

abbrev pub space_at : Bytes → ℕ → Bool
space_at s i = elim (get_elem? s i) [ none ↦ false | some c ↦ is_space c ]

-- The loop over `start`, which may get to -1: the result is `start + 1`.
unfoldable pub scan_back : Bytes → ℕ → ℕ
scan_back s zero = 0
scan_back s (suc k) =
    let back = scan_back s k in if space_at s k || byte_at s k b'<' then suc k else back

-- The loop over `end`, on what follows it.
unfoldable pub scan_forward : ℕ → Bytes → ℕ
scan_forward end [] = end
scan_forward end (c ∷ s) =
    let on = scan_forward (end + 1) s in if is_space c || c == b'>' then end else on

-- The loop that looks for a pair of brackets, at index `i`: `start` and `end`.
unfoldable pub find_brackets : ℕ → ℕ → Bytes → ℕ × ℕ
find_brackets i start [] = (start, 0)
find_brackets i start (c ∷ s) =
    let start' = if c == b'<' && start == 0 then i + 1 else start in
    let on = find_brackets (i + 1) start' s in if c == b'>' && ltb 0 start' then (start', i) else on

-- `strings.HasSuffix` with one byte.
unfoldable pub ends_with : Bytes → ℕ → Bool
ends_with [] b = false
ends_with (c ∷ []) b = c == b
ends_with (c ∷ d ∷ s) b = ends_with (d ∷ s) b

-- `strings.ContainsAny(name, "@<>")`
unfoldable pub has_email_byte : Bytes → Bool
has_email_byte [] = false
has_email_byte (c ∷ s) = c == b'@' || c == b'<' || c == b'>' || has_email_byte s

-- `name[1 : len(name)-1]` between parentheses; the two are different bytes of the name, or the
-- slice is of the form `name[1:0]` and panics, which one byte cannot bring about.
unfoldable pub strip_comment : Bytes → Bytes
strip_comment name =
    if byte_at name 0 b'(' && ends_with name b')'
    then take (length name - 2) (drop 1 name)
    else name

module _ (trim_space : Bytes → Bytes) where
  -- The branch for a text with an `@` at an index: the name and the email.
  unfoldable pub split_at_sign : Bytes → ℕ → Bytes × Bytes
  split_at_sign s at =
      let start = scan_back s (at + 1) in
      let end = scan_forward at (drop at s) in
      (
        take (if ltb 0 start && byte_at s (start - 1) b'<' then start - 1 else start) s
            ++ drop (if byte_at s end b'>' then end + 1 else end) s,
        take (end - start) (drop start s),
      )

  unfoldable pub split_brackets : Bytes → ℕ × ℕ → Bytes × Bytes
  split_brackets s (start, end) =
      if ltb 0 start && leb start end
      then (take (start - 1) s, trim_space (take (end - start) (drop start s)))
      else ([], [])

  unfoldable pub split_identity : Bytes → Bytes × Bytes
  split_identity s = elim (index_byte s b'@') [
    | some at ↦ split_at_sign s at
    | none ↦ split_brackets s (find_brackets 0 0 s)
  ]

  -- The cleaning of the name, and the choice of the email in its place; `none` is the error.
  unfoldable pub choose_name : Bytes → Bytes → Option PatchIdentity
  choose_name name email =
      let chosen = if equal name [] || has_email_byte name then email else name in
      if equal chosen [] && equal email []
      then none
      else some (record { name = chosen; email = email })

  unfoldable pub parse_patch_identity : Bytes → Option PatchIdentity
  parse_patch_identity s =
      let r = split_identity (unquote_pairs (normalize_space s)) in
      choose_name (trim_space (strip_comment (normalize_space r.0))) r.1
