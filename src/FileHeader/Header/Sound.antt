-- ===== src/FileHeader/Header/Sound.antt =====
-- gitdiff/file_header.go: the files that `ParseGitFileHeader` returns.
use go_gitdiff.Base.{
  ℕ, zero, suc, ◌≡◌, ◌≢◌, refl, Bool, true, false, ◌⊎◌, Option, none, some, [], Bytes, codes,
  equal_iff, arith, Option-cases, inl, inr,
}
use go_gitdiff.Base.Int.{ℤ}
use go_gitdiff.Base.Strings.{strip_prefix}
use go_gitdiff.Errors.{Error, eof}
use go_gitdiff.Apply.{File}
use go_gitdiff.Parser.{StringReader, Parser, Parsed, parsed, failed, next}
use go_gitdiff.FileHeader.{parse_git_header_name}
use go_gitdiff.FileHeader.Lines.{parse_git_header_data}
use go_gitdiff.FileHeader.Bounds.{InBounds, parse_git_header_data-Keeps}
use go_gitdiff.FileHeader.Header.{
  new_file, default_names, check_names, header_next, header_data, header_loop, named_file,
  finish_header, git_header, parse_git_file_header,
}

-- A file has a name; a side with no name is that of a creation or a deletion.
abbrev pub IsNamed : File → Type 0
IsNamed f =
    (f.old_name ≢ [] ⊎ (f.is_new ≡ true))
    × (f.new_name ≢ [] ⊎ (f.is_delete ≡ true))
    × (f.old_name ≢ [] ⊎ f.new_name ≢ [])

check_names-IsNamed :
    (f : File) (default : Bytes) (g : File)
    → check_names (default_names f default) ≡ some g
    → IsNamed g
unfolding check_names default_names
check_names-IsNamed f default g h = ground (
  arith,
  equal_iff f.old_name [],
  equal_iff f.new_name [],
  equal_iff default [],
  equal_iff g.old_name [],
  equal_iff g.new_name [],
)

module _ (parse_int : ℕ → ℕ → Bytes → Option ℤ) (trim_space : Bytes → Bytes)
    (unquote : Bytes → Option Bytes) (is_epoch : Bytes → Bool) {R : Type 0}
    (read : StringReader R) where
  -- A file that a step returns is in bounds.
  abbrev Kept : Parser R × Parsed File → Type 0
  Kept (p, failed e) = Unit {0}
  Kept (p, parsed f) = InBounds parse_int trim_space unquote f

  header_next-Kept :
      (go : Parser R → File → Parser R × Parsed File) (f : File) (end : Bool)
      (r : Parser R × Option Error)
      → InBounds parse_int trim_space unquote f
      → ((p : Parser R) → Kept (go p f))
      → Kept (header_next parse_int trim_space unquote is_epoch read go f end r)
  unfolding header_next
  header_next-Kept go f true (p, none) b ih = b
  header_next-Kept go f false (p, none) b ih = ih p
  header_next-Kept go f end (p, some eof) b ih = b
  header_next-Kept go f end (p, some e) b ih = tt

  header_data-Kept :
      (go : Parser R → File → Parser R × Parsed File) (p : Parser R) (o : Option (File × Bool))
      → ((f : File) (end : Bool) → o ≡ some (f, end) → InBounds parse_int trim_space unquote f)
      → ((q : Parser R) (f : File) → InBounds parse_int trim_space unquote f → Kept (go q f))
      → Kept (header_data parse_int trim_space unquote is_epoch read go p o)
  unfolding header_data
  header_data-Kept go p none b ih = tt
  header_data-Kept go p (some (f, end)) b ih =
      header_next-Kept go f end (next read p) (b f end refl) (λ q. ih q f (b f end refl))

  header_loop-Kept :
      (fuel : ℕ) (default : Bytes) (p : Parser R) (f : File)
      → InBounds parse_int trim_space unquote f
      → Kept (header_loop parse_int trim_space unquote is_epoch read fuel default p f)
  unfolding header_loop
  header_loop-Kept zero default p f b = tt
  header_loop-Kept (suc fuel) default p f b =
      header_data-Kept (header_loop parse_int trim_space unquote is_epoch read fuel default) p
        (parse_git_header_data parse_int trim_space unquote f p.line1 default)
        (λ g end e.
          parse_git_header_data-Keeps parse_int trim_space unquote f p.line1 default g end b e)
        (λ q g. header_loop-Kept fuel default q g)

  named-InBounds :
      (f : File) (default : Bytes) (g : File)
      → InBounds parse_int trim_space unquote f
      → check_names (default_names f default) ≡ some g
      → InBounds parse_int trim_space unquote g
  unfolding check_names default_names
  named-InBounds f default g b h = ground arith

  named_file-some :
      (p : Parser R) (o : Option File) (g : File)
      → (named_file parse_int trim_space unquote is_epoch read p o).1 ≡ parsed (some g)
      → o ≡ some g
  unfolding named_file
  named_file-some p none g h = cc
  named_file-some p (some f) g h = cc (h)

  finish_header_sound :
      (default : Bytes) (r : Parser R × Parsed File) (g : File)
      → Kept r
      → (finish_header parse_int trim_space unquote is_epoch read default r).1 ≡ parsed (some g)
      → IsNamed g × InBounds parse_int trim_space unquote g
  unfolding finish_header
  finish_header_sound default (p, failed e) g k h = cc
  finish_header_sound default (p, parsed f) g k h =
      let e = named_file-some p (check_names (default_names f default)) g h in
      (check_names-IsNamed f default g e, named-InBounds f default g k e)

  git_header_sound :
      (fuel : ℕ) (p : Parser R) (o : Option Bytes) (g : File)
      → (git_header parse_int trim_space unquote is_epoch read fuel p o).1 ≡ parsed (some g)
      → IsNamed g × InBounds parse_int trim_space unquote g
  unfolding git_header
  git_header_sound fuel p none g h = cc
  git_header_sound fuel p (some default) g h =
      finish_header_sound default
        (header_loop parse_int trim_space unquote is_epoch read fuel default p new_file) g
        (header_loop-Kept fuel default p new_file (omega arith, omega arith, omega arith)) h

  -- A file that `ParseGitFileHeader` returns, whatever the input is, has a name, and a name for its old
  -- side unless it is new and for its new side unless it is deleted; its modes are numbers of 32 bits
  -- and its score is at most 100.
  pub parse_git_file_header_sound :
      (fuel : ℕ) (p : Parser R) (g : File)
      → (parse_git_file_header parse_int trim_space unquote is_epoch read fuel p).1
        ≡ parsed (some g)
      → IsNamed g × InBounds parse_int trim_space unquote g
  unfolding parse_git_file_header
  parse_git_file_header_sound fuel p g h =
      elim (Option-cases (strip_prefix (codes "diff --git ") p.line0)) [
        | inl e ↦ cc (rw (e, parse_git_file_header) at h)
        | inr (header, e) ↦
            git_header_sound fuel p (parse_git_header_name unquote header) g
              (rw (e, parse_git_file_header) at h)
      ]
