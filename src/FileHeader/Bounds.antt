-- ===== src/FileHeader/Bounds.antt =====
-- gitdiff/file_header.go: the modes and the score that the lines of a header set.
use go_gitdiff.Base.{
  ℕ, ◌^◌, ◌<◌, ◌≡◌, Bool, true, Option, some, List, [], ◌∷◌, Bytes, codes, arith, Option-cases, inl,
  inr, All,
}
use go_gitdiff.Base.Int.{ℤ, pos, negsuc, ◌≤ℤ◌}
use go_gitdiff.Base.Strings.{strip_prefix, cut, trim_last}
use go_gitdiff.Apply.{File}
use go_gitdiff.FileHeader.Lines.{
  file_mode, LineParser, parse_mode, header_old_name, header_new_name, header_old_mode,
  header_new_mode, header_deleted_mode, header_created_mode, header_copy_from, header_copy_to,
  header_rename_from, header_rename_to, low_score, header_score, index_oids, header_index, Row,
  table, try_rows, parse_git_header_data,
}

file_mode_lt : (m : ℤ) → file_mode m < 2 ^ 32
file_mode_lt (pos n) = omega arith
file_mode_lt (negsuc n) = omega arith

module _ (parse_int : ℕ → ℕ → Bytes → Option ℤ) (trim_space : Bytes → Bytes)
    (unquote : Bytes → Option Bytes) where
  -- The modes are unsigned numbers of 32 bits, and the score is at most 100.
  abbrev pub InBounds : File → Type 0
  InBounds f = (f.old_mode < 2 ^ 32) × (f.new_mode < 2 ^ 32) × (f.score ≤ℤ pos 100)

  -- A method keeps the bounds.
  abbrev Keeps : LineParser parse_int trim_space unquote → Type 0
  Keeps method =
      (f : File) (line default : Bytes) (g : File)
      → InBounds f
      → method f line default ≡ some g
      → InBounds g

  old_name-Keeps : Keeps (header_old_name parse_int trim_space unquote)
  unfolding header_old_name
  old_name-Keeps f line default g b h = ground arith

  new_name-Keeps : Keeps (header_new_name parse_int trim_space unquote)
  unfolding header_new_name
  new_name-Keeps f line default g b h = ground arith

  mode_lt : (s : Bytes) (m : ℕ) → parse_mode parse_int trim_space unquote s ≡ some m → m < 2 ^ 32
  unfolding parse_mode
  mode_lt s m h = elim (Option-cases (parse_int 8 32 s)) [
    | inl e ↦ cc (rw (e, parse_mode) at h)
    | inr (k, e) ↦
        let same : file_mode k ≡ m = cc (rw (e, parse_mode) at h) in rw (← same) (file_mode_lt k)
  ]

  old_mode-Keeps : Keeps (header_old_mode parse_int trim_space unquote)
  unfolding header_old_mode
  old_mode-Keeps f line default g b h = ground (arith, mode_lt (trim_space line) g.old_mode)

  new_mode-Keeps : Keeps (header_new_mode parse_int trim_space unquote)
  unfolding header_new_mode
  new_mode-Keeps f line default g b h = ground (arith, mode_lt (trim_space line) g.new_mode)

  deleted_mode-Keeps : Keeps (header_deleted_mode parse_int trim_space unquote)
  unfolding header_deleted_mode
  deleted_mode-Keeps f line default g b h =
      old_mode-Keeps (record f { is_delete = true; old_name = default }) line default g b h

  created_mode-Keeps : Keeps (header_created_mode parse_int trim_space unquote)
  unfolding header_created_mode
  created_mode-Keeps f line default g b h =
      new_mode-Keeps (record f { is_new = true; new_name = default }) line default g b h

  copy_from-Keeps : Keeps (header_copy_from parse_int trim_space unquote)
  unfolding header_copy_from
  copy_from-Keeps f line default g b h = ground arith

  copy_to-Keeps : Keeps (header_copy_to parse_int trim_space unquote)
  unfolding header_copy_to
  copy_to-Keeps f line default g b h = ground arith

  rename_from-Keeps : Keeps (header_rename_from parse_int trim_space unquote)
  unfolding header_rename_from
  rename_from-Keeps f line default g b h = ground arith

  rename_to-Keeps : Keeps (header_rename_to parse_int trim_space unquote)
  unfolding header_rename_to
  rename_to-Keeps f line default g b h = ground arith

  low_score-le : (n : ℤ) → low_score parse_int trim_space unquote n ≡ true → n ≤ℤ pos 100
  unfolding low_score
  low_score-le (pos n) h = ground arith
  low_score-le (negsuc n) h = omega arith

  score-Keeps : Keeps (header_score parse_int trim_space unquote)
  unfolding header_score
  score-Keeps f line default g b h = ground (arith, low_score-le g.score)

  oids-Keeps :
      (f : File) (oids rest : Bytes) (g : File)
      → InBounds f
      → index_oids parse_int trim_space unquote f oids rest ≡ some g
      → InBounds g
  unfolding index_oids
  oids-Keeps f oids rest g b h = ground arith

  index-Keeps : Keeps (header_index parse_int trim_space unquote)
  unfolding header_index
  index-Keeps f line default g b h = elim (Option-cases (cut (codes " ") line)) [
    | inl e ↦ oids-Keeps f line [] g b (rw (e, header_index) at h)
    | inr ((oids, mode), e) ↦
        elim (Option-cases (index_oids parse_int trim_space unquote f oids [])) [
          | inl e' ↦ cc (rw (e, header_index, e') at h)
          | inr (f', e') ↦
              old_mode-Keeps f' mode default g (oids-Keeps f oids [] f' b e')
                (rw (e, header_index, e') at h)
        ]
  ]

  rows-Keep :
      (rows : List (Row parse_int trim_space unquote)) (f : File) (line default : Bytes) (g : File)
      (end : Bool)
      → All (λ r. Keeps r.parse) rows
      → InBounds f
      → try_rows parse_int trim_space unquote rows f line default ≡ some (g, end)
      → InBounds g
  unfolding try_rows
  rows-Keep [] f line default g end k b h = let same : f ≡ g = cc (h) in rw (← same) b
  rows-Keep (r ∷ rs) f line default g end (k, ks) b h =
      elim (Option-cases (strip_prefix r.prefix line)) [
        | inl e ↦ rows-Keep rs f line default g end ks b (rw (e, try_rows) at h)
        | inr (rest, e) ↦ elim (Option-cases (r.parse f rest default)) [
          | inl e' ↦ cc (rw (e, try_rows, e') at h)
          | inr (f', e') ↦
              let same : f' ≡ g = cc (rw (e, try_rows, e') at h) in
              rw (← same) (k f rest default f' b e')
        ]
      ]

  first-Keeps : Keeps (λ f line default. some f)
  first-Keeps f line default g b h = let same : f ≡ g = cc (h) in rw (← same) b

  table-Keeps : All (λ r. Keeps r.parse) (table parse_int trim_space unquote)
  unfolding table
  table-Keeps = (
    first-Keeps,
    (
      old_name-Keeps,
      (
        new_name-Keeps,
        (
          old_mode-Keeps,
          (
            new_mode-Keeps,
            (
              deleted_mode-Keeps,
              (
                created_mode-Keeps,
                (
                  copy_from-Keeps,
                  (
                    copy_to-Keeps,
                    (
                      rename_from-Keeps,
                      (
                        rename_to-Keeps,
                        (
                          rename_from-Keeps,
                          (rename_to-Keeps, (score-Keeps, (score-Keeps, (index-Keeps, tt)))),
                        ),
                      ),
                    ),
                  ),
                ),
              ),
            ),
          ),
        ),
      ),
    ),
  )

  pub parse_git_header_data-Keeps :
      (f : File) (line default : Bytes) (g : File) (end : Bool)
      → InBounds f
      → parse_git_header_data parse_int trim_space unquote f line default ≡ some (g, end)
      → InBounds g
  unfolding parse_git_header_data
  parse_git_header_data-Keeps f line default g end b h =
      rows-Keep (table parse_int trim_space unquote) f (trim_last b'\n' line) default g end
        table-Keeps b h
