-- ===== src/FileHeader/Lines.antt =====
-- gitdiff/file_header.go: the lines of a Git file header. `strconv.ParseInt`, with its base and number of bits,
-- and `strings.TrimSpace` are parameters. A method changes the file that it returns; with an error, the
-- caller drops the file.
use go_gitdiff.Base.{
  ℕ, ◌-◌, ◌%◌, ◌^◌, Bool, true, false, not, ◌&&◌, ◌||◌, Option, none, some, List, [], ◌∷◌, Bytes,
  codes, leb, equal, if◌then◌else◌,
}
use go_gitdiff.Base.Int.{ℤ, pos, negsuc}
use go_gitdiff.Base.Strings.{strip_prefix, cut, trim_last}
use go_gitdiff.Apply.{File}
use go_gitdiff.FileHeader.{dev_null, parse_name}

-- `verifyGitHeaderName`: whether there is no error.
unfoldable pub verify_git_header_name : Bytes → Bytes → Bool → Bool
verify_git_header_name name existing is_null =
    if not (equal existing []) && (is_null || not (equal existing name))
    then false
    else not (is_null && not (equal name dev_null))

-- `os.FileMode(mode)`, an unsigned number of 32 bits.
abbrev pub file_mode : ℤ → ℕ
file_mode (pos n) = n % 2 ^ 32
file_mode (negsuc n) = 2 ^ 32 - 1 - n % 2 ^ 32

module _ (parse_int : ℕ → ℕ → Bytes → Option ℤ) (trim_space : Bytes → Bytes)
    (unquote : Bytes → Option Bytes) where
  -- The type of the methods of the table: the file, the rest of the line and the default name.
  abbrev pub LineParser : Type 0
  LineParser = File → Bytes → Bytes → Option File

  unfoldable pub parse_mode : Bytes → Option ℕ
  parse_mode s = elim (parse_int 8 32 s) [ none ↦ none | some mode ↦ some (file_mode mode) ]

  -- `parseGitHeaderOldName`
  unfoldable pub header_old_name : LineParser
  header_old_name f line default = elim (parse_name unquote line b'\t' 1) [
    | none ↦ none
    | some (name, n) ↦
        if equal f.old_name [] && not f.is_new
        then some (record f { old_name = name })
        else if verify_git_header_name name f.old_name f.is_new
        then some f
        else none
  ]

  -- `parseGitHeaderNewName`
  unfoldable pub header_new_name : LineParser
  header_new_name f line default = elim (parse_name unquote line b'\t' 1) [
    | none ↦ none
    | some (name, n) ↦
        if equal f.new_name [] && not f.is_delete
        then some (record f { new_name = name })
        else if verify_git_header_name name f.new_name f.is_delete
        then some f
        else none
  ]

  -- `parseGitHeaderOldMode`, `parseGitHeaderNewMode`
  unfoldable pub header_old_mode : LineParser
  header_old_mode f line default = elim (parse_mode (trim_space line)) [
    | none ↦ none
    | some mode ↦ some (record f { old_mode = mode })
  ]

  unfoldable pub header_new_mode : LineParser
  header_new_mode f line default = elim (parse_mode (trim_space line)) [
    | none ↦ none
    | some mode ↦ some (record f { new_mode = mode })
  ]

  -- `parseGitHeaderDeletedMode`, `parseGitHeaderCreatedMode`
  unfoldable pub header_deleted_mode : LineParser
  unfolding header_old_mode
  header_deleted_mode f line default =
      header_old_mode (record f { is_delete = true; old_name = default }) line default

  unfoldable pub header_created_mode : LineParser
  unfolding header_new_mode
  header_created_mode f line default =
      header_new_mode (record f { is_new = true; new_name = default }) line default

  -- `parseGitHeaderCopyFrom`, `parseGitHeaderCopyTo`
  unfoldable pub header_copy_from : LineParser
  header_copy_from f line default = elim (parse_name unquote line 0 0) [
    | none ↦ none
    | some (name, n) ↦ some (record f { is_copy = true; old_name = name })
  ]

  unfoldable pub header_copy_to : LineParser
  header_copy_to f line default = elim (parse_name unquote line 0 0) [
    | none ↦ none
    | some (name, n) ↦ some (record f { is_copy = true; new_name = name })
  ]

  -- `parseGitHeaderRenameFrom`, `parseGitHeaderRenameTo`
  unfoldable pub header_rename_from : LineParser
  header_rename_from f line default = elim (parse_name unquote line 0 0) [
    | none ↦ none
    | some (name, n) ↦ some (record f { is_rename = true; old_name = name })
  ]

  unfoldable pub header_rename_to : LineParser
  header_rename_to f line default = elim (parse_name unquote line 0 0) [
    | none ↦ none
    | some (name, n) ↦ some (record f { is_rename = true; new_name = name })
  ]

  -- `score <= 100`
  unfoldable pub low_score : ℤ → Bool
  low_score (pos n) = leb n 100
  low_score (negsuc n) = true

  -- `parseGitHeaderScore`
  unfoldable pub header_score : LineParser
  unfolding low_score
  header_score f line default = elim (parse_int 10 32 (trim_last b'%' line)) [
    | none ↦ none
    | some score ↦ some (if low_score score then record f { score = score } else f)
  ]

  -- `parseGitHeaderIndex`
  unfoldable pub index_oids : LineParser
  index_oids f oids rest = elim (cut (codes "..") oids) [
    | none ↦ none
    | some (old, new) ↦ some (record f { old_oid_prefix = old; new_oid_prefix = new })
  ]

  unfoldable pub header_index : LineParser
  unfolding index_oids
  header_index f line default = elim (cut (codes " ") line) [
    | none ↦ index_oids f line []
    | some (oids, mode) ↦ elim (index_oids f oids []) [
      | none ↦ none
      | some f' ↦ header_old_mode f' mode default
    ]
  ]

  -- A row of the table in `parseGitHeaderData`: the prefix, whether it ends the header, the method.
  pub record Row : Type 0 where
    pub prefix : Bytes
    pub end : Bool
    pub parse : LineParser

  abbrev row : Bytes → LineParser → Row
  row prefix parse = record { prefix = prefix; end = false; parse = parse }

  unfoldable pub table : List Row
  table =
      record { prefix = codes "@@ -"; end = true; parse = λ f line default. some f }
      ∷ row (codes "--- ") header_old_name
      ∷ row (codes "+++ ") header_new_name
      ∷ row (codes "old mode ") header_old_mode
      ∷ row (codes "new mode ") header_new_mode
      ∷ row (codes "deleted file mode ") header_deleted_mode
      ∷ row (codes "new file mode ") header_created_mode
      ∷ row (codes "copy from ") header_copy_from
      ∷ row (codes "copy to ") header_copy_to
      ∷ row (codes "rename old ") header_rename_from
      ∷ row (codes "rename new ") header_rename_to
      ∷ row (codes "rename from ") header_rename_from
      ∷ row (codes "rename to ") header_rename_to
      ∷ row (codes "similarity index ") header_score
      ∷ row (codes "dissimilarity index ") header_score
      ∷ row (codes "index ") header_index
      ∷ []

  -- The loop over the table; an unknown line ends the header.
  unfoldable pub try_rows : List Row → File → Bytes → Bytes → Option (File × Bool)
  try_rows [] f line default = some (f, true)
  try_rows (r ∷ rs) f line default = elim (strip_prefix r.prefix line) [
    | none ↦ try_rows rs f line default
    | some rest ↦ elim (r.parse f rest default) [ none ↦ none | some f' ↦ some (f', r.end) ]
  ]

  -- `parseGitHeaderData`: the file, and whether the header has ended.
  unfoldable pub parse_git_header_data : File → Bytes → Bytes → Option (File × Bool)
  unfolding try_rows table header_old_name header_new_name header_old_mode header_new_mode
      header_deleted_mode header_created_mode header_copy_from header_copy_to header_rename_from
      header_rename_to header_score header_index
  parse_git_header_data f line default = try_rows table f (trim_last b'\n' line) default
