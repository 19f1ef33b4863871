-- ===== src/Format/File.antt =====
-- gitdiff/format.go: the text of a file. `fmt.Fprintf` with `%o` of a mode is a parameter too.
use go_gitdiff.Base.{
  ℕ, not, ◌&&◌, ◌||◌, Option, none, some, List, [], ◌∷◌, ◌++◌, Bytes, codes, ◌==◌, equal,
  if◌then◌else◌,
}
use go_gitdiff.Base.Int.{ℤ, pos, ltb_ℤ}
use go_gitdiff.Fragment.{TextFragment}
use go_gitdiff.BinaryApply.{BinaryFragment}
use go_gitdiff.Apply.{File}
use go_gitdiff.Format.{quoted_name, format_fragment}
use go_gitdiff.Format.Binary.{format_binary_fragment}

-- The switch over the names.
abbrev pub names_of : File → Bytes × Bytes
names_of f =
    if equal f.old_name []
    then (f.new_name, f.new_name)
    else if equal f.new_name []
    then (f.old_name, f.old_name)
    else (f.old_name, f.new_name)

-- A line of a text and a name, if there is a name.
abbrev pub named_line : Bytes → Bytes → Bytes
named_line text name = if equal name [] then [] else text ++ (quoted_name name ++ 10 ∷ [])

unfoldable pub format_git_line : Bytes × Bytes → Bytes
format_git_line (a, b) =
    codes "diff --git "
    ++ (quoted_name (codes "a/" ++ a) ++ (b' ' ∷ (quoted_name (codes "b/" ++ b) ++ 10 ∷ [])))

unfoldable pub format_copy : File → Bytes
format_copy f =
    if f.is_copy
    then named_line (codes "copy from ") f.old_name ++ named_line (codes "copy to ") f.new_name
    else []

unfoldable pub format_rename : File → Bytes
format_rename f =
    if f.is_rename
    then named_line (codes "rename from ") f.old_name ++ named_line (codes "rename to ") f.new_name
    else []

-- The name on a `---` or `+++` line.
abbrev pub side_name : Bytes → Bytes → Bytes
side_name prefix name = if equal name [] then codes "/dev/null" else quoted_name (prefix ++ name)

module _ (decimal : ℤ → Bytes) (octal : ℕ → Bytes) (deflate : Bytes → Bytes) where
  abbrev pub mode_line : Bytes → ℕ → Bytes
  mode_line text mode = text ++ (octal mode ++ 10 ∷ [])

  unfoldable pub format_old_mode : File → Bytes
  format_old_mode f =
      if f.old_mode == 0
      then []
      else if f.is_delete
      then mode_line (codes "deleted file mode ") f.old_mode
      else if f.new_mode == 0
      then []
      else mode_line (codes "old mode ") f.old_mode

  unfoldable pub format_new_mode : File → Bytes
  format_new_mode f =
      if f.new_mode == 0
      then []
      else if f.is_new
      then mode_line (codes "new file mode ") f.new_mode
      else if f.old_mode == 0
      then []
      else mode_line (codes "new mode ") f.new_mode

  unfoldable pub format_score : File → Bytes
  format_score f =
      if ltb_ℤ (pos 0) f.score
      then (if f.is_copy || f.is_rename
          then codes "similarity index "
          else codes "dissimilarity index ")
        ++ (decimal f.score ++ codes "%\n")
      else []

  unfoldable pub format_index : File → Bytes
  format_index f =
      if equal f.old_oid_prefix [] || equal f.new_oid_prefix []
      then []
      else codes "index "
        ++ (f.old_oid_prefix
            ++ (codes ".."
                ++ (f.new_oid_prefix
                    ++ ((if not (f.old_mode == 0)
                            && ((f.new_mode == 0 && not f.is_delete) || f.old_mode == f.new_mode)
                          then b' ' ∷ octal f.old_mode
                          else [])
                        ++ 10 ∷ []))))

  abbrev pub format_reverse : Option BinaryFragment → Bytes
  format_reverse none = []
  format_reverse (some r) = format_binary_fragment decimal deflate r

  unfoldable pub format_binary_by :
      Bytes × Bytes → Option BinaryFragment → Option BinaryFragment → Bytes
  format_binary_by (a, b) none reverse =
      codes "Binary files "
      ++ (quoted_name (codes "a/" ++ a)
          ++ (codes " and " ++ (quoted_name (codes "b/" ++ b) ++ codes " differ\n")))
  format_binary_by names (some b) reverse =
      codes "GIT binary patch\n"
      ++ (format_binary_fragment decimal deflate b ++ format_reverse reverse)

  unfoldable pub format_binary : File → Bytes
  unfolding format_binary_by
  format_binary f =
      if f.is_binary
      then format_binary_by (names_of f) f.binary_fragment f.reverse_binary_fragment
      else []

  unfoldable pub format_fragments : List TextFragment → Bytes
  format_fragments [] = []
  format_fragments (f ∷ fs) = format_fragment decimal f ++ format_fragments fs

  -- The part for text fragments, if there are some.
  unfoldable pub format_text : File → List TextFragment → Bytes
  unfolding format_fragments
  format_text f [] = []
  format_text f (g ∷ gs) =
      codes "--- "
      ++ (side_name (codes "a/") f.old_name
          ++ (10
              ∷ (codes "+++ "
                  ++ (side_name (codes "b/") f.new_name ++ (10 ∷ format_fragments (g ∷ gs))))))

  -- `FormatFile`
  unfoldable pub format_file : File → Bytes
  unfolding format_git_line format_old_mode format_new_mode format_score format_copy format_rename
      format_index format_binary format_text
  format_file f =
      format_git_line (names_of f)
      ++ (format_old_mode f
          ++ (format_new_mode f
              ++ (format_score f
                  ++ (format_copy f
                      ++ (format_rename f
                          ++ (format_index f
                              ++ (format_binary f ++ format_text f f.text_fragments)))))))
