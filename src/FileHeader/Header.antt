-- ===== src/FileHeader/Header.antt =====
-- gitdiff/file_header.go: whole file headers, over the parser's lines. What package time says of a
-- timestamp, whether it is that of the epoch, is a parameter.
pub mod Sound
use go_gitdiff.Base.{
  ℕ, zero, suc, ◌+◌, ◌-◌, Bool, true, false, not, ◌&&◌, ◌||◌, Option, none, some, List, [], ◌∷◌,
  ◌++◌, Bytes, codes, length, take, drop, get_elem?, ltb, leb, ◌==◌, equal, if◌then◌else◌,
}
use go_gitdiff.Base.Int.{ℤ, pos, negsuc}
use go_gitdiff.Base.Strings.{strip_prefix, has_prefix, cut, trim_last}
use go_gitdiff.Errors.{Error, eof}
use go_gitdiff.Fragment.{TextFragment}
use go_gitdiff.Apply.{File}
use go_gitdiff.Parser.{
  StringReader, Parser, ParseError, read_error, out_of_fuel, Parsed, parsed, failed, error_at, next,
}
use go_gitdiff.TextFragments.{parse_text_fragment_header}
use go_gitdiff.FileHeader.{dev_null, parse_name, parse_git_header_name}
use go_gitdiff.FileHeader.Lines.{parse_git_header_data}

-- `&File{}`
abbrev pub new_file : File
new_file = record {
  old_name = [];
  new_name = [];
  is_new = false;
  is_delete = false;
  is_copy = false;
  is_rename = false;
  old_mode = 0;
  new_mode = 0;
  old_oid_prefix = [];
  new_oid_prefix = [];
  score = pos 0;
  text_fragments = [];
  is_binary = false;
  binary_fragment = none;
  reverse_binary_fragment = none;
}

-- The timestamp with no colon in its zone.
unfoldable pub plain_zone : Bytes → Bytes
plain_zone ts =
    let n = length ts in
    elim (get_elem? ts (n - 3)) [
      | none ↦ ts
      | some c ↦ if leb 3 n && c == b':' then take (n - 3) ts ++ drop (n - 2) ts else ts
    ]

-- `hasEpochTimestamp`
unfoldable pub has_epoch_timestamp : (Bytes → Bool) → Bytes → Bool
unfolding plain_zone
has_epoch_timestamp is_epoch s = elim (cut (codes "\t") s) [
  | none ↦ false
  | some (before, behind) ↦ is_epoch (plain_zone (trim_last b'\n' behind))
]

-- The names of a traditional header.
unfoldable pub traditional_file : Bool → Bool → Bytes → Bytes → File
traditional_file old_epoch new_epoch old_name new_name =
    if equal old_name dev_null || old_epoch
    then record new_file { is_new = true; new_name = new_name }
    else if equal new_name dev_null || new_epoch
    then record new_file { is_delete = true; old_name = old_name }
    else if has_prefix old_name new_name
    then record new_file { old_name = old_name; new_name = old_name }
    else record new_file { old_name = new_name; new_name = new_name }

-- The names behind the loop of `ParseGitFileHeader`; none is the error.
pub default_names : File → Bytes → Option File
default_names f default =
    if equal f.old_name [] && equal f.new_name []
    then (if equal default []
        then none
        else some (record f { old_name = default; new_name = default }))
    else some f

pub check_names : Option File → Option File
check_names none = none
check_names (some f) =
    if equal f.new_name [] && not f.is_delete || equal f.old_name [] && not f.is_new
    then none
    else some f

module _ (parse_int : ℕ → ℕ → Bytes → Option ℤ) (trim_space : Bytes → Bytes)
    (unquote : Bytes → Option Bytes) (is_epoch : Bytes → Bool) {R : Type 0}
    (read : StringReader R) where
  -- What follows the call of `Next` in the loop.
  pub header_next :
      (Parser R → File → Parser R × Parsed File)
      → File
      → Bool
      → Parser R × Option Error
      → Parser R × Parsed File
  header_next go f end (p, none) = if end then (p, parsed f) else go p f
  header_next go f end (p, some eof) = (p, parsed f)
  header_next go f end (p, some e) = (p, failed (read_error e))

  pub header_data :
      (Parser R → File → Parser R × Parsed File)
      → Parser R
      → Option (File × Bool)
      → Parser R × Parsed File
  header_data go p none = (p, failed (error_at p (pos 1) (codes "git file header: %v")))
  header_data go p (some (f, end)) = header_next go f end (next read p)

  -- The loop of `ParseGitFileHeader`, with fuel for its rounds.
  pub header_loop : ℕ → Bytes → Parser R → File → Parser R × Parsed File
  header_loop zero default p f = (p, failed out_of_fuel)
  header_loop (suc fuel) default p f =
      header_data (header_loop fuel default) p
        (parse_git_header_data parse_int trim_space unquote f p.line1 default)

  pub named_file : Parser R → Option File → Parser R × Parsed (Option File)
  named_file p none =
      (p, failed (error_at p (pos 0) (codes "git file header: missing filename information")))
  named_file p (some f) = (p, parsed (some f))

  pub finish_header : Bytes → Parser R × Parsed File → Parser R × Parsed (Option File)
  finish_header default (p, failed e) = (p, failed e)
  finish_header default (p, parsed f) = named_file p (check_names (default_names f default))

  pub git_header : ℕ → Parser R → Option Bytes → Parser R × Parsed (Option File)
  git_header fuel p none = (p, failed (error_at p (pos 0) (codes "git file header: %v")))
  git_header fuel p (some default) = finish_header default (header_loop fuel default p new_file)

  -- `ParseGitFileHeader`; no file stands for nil.
  unfoldable pub parse_git_file_header : ℕ → Parser R → Parser R × Parsed (Option File)
  unfolding git_header finish_header named_file header_loop header_data header_next check_names
      default_names
  parse_git_file_header fuel p = elim (strip_prefix (codes "diff --git ") p.line0) [
    | none ↦ (p, parsed none)
    | some header ↦ git_header fuel p (parse_git_header_name unquote header)
  ]

  -- The names behind the two calls of `Next`, on the two lines.
  pub traditional_names : Parser R → Bytes → Bytes → Parser R × Parsed (Option File)
  traditional_names p old_line new_line = elim (parse_name unquote (drop 4 old_line) b'\t' 0) [
    | none ↦ (p, failed (error_at p (pos 0) (codes "file header: %v")))
    | some (old_name, n) ↦ elim (parse_name unquote (drop 4 new_line) b'\t' 0) [
      | none ↦ (p, failed (error_at p (pos 1) (codes "file header: %v")))
      | some (new_name, m) ↦ (
        p,
        parsed (
            some (
              traditional_file (has_epoch_timestamp is_epoch old_line)
                (has_epoch_timestamp is_epoch new_line) old_name new_name)),
      )
    ]
  ]

  pub second_next : Bytes → Bytes → Parser R × Option Error → Parser R × Parsed (Option File)
  second_next old_line new_line (p, some e) = (p, failed (read_error e))
  second_next old_line new_line (p, none) = traditional_names p old_line new_line

  pub first_next : Bytes → Bytes → Parser R × Option Error → Parser R × Parsed (Option File)
  first_next old_line new_line (p, some e) = (p, failed (read_error e))
  first_next old_line new_line (p, none) = second_next old_line new_line (next read p)

  -- `ParseTraditionalFileHeader`
  unfoldable pub parse_traditional_file_header : Parser R → Parser R × Parsed (Option File)
  unfolding first_next second_next traditional_names traditional_file
  parse_traditional_file_header p =
      if has_prefix (codes "--- ") p.line0
        && has_prefix (codes "+++ ") p.line1
        && leb 12 (length p.line2)
        && has_prefix (codes "@@ -") p.line2
      then first_next p.line0 p.line1 (next read p)
      else (p, parsed none)

  -- What `ParseNextFileHeader` gives: the parser, and the file, if there is one, with the preamble.
  abbrev pub NextHeader : Type 0
  NextHeader = Parser R × Parsed (Option File × Bytes)

  pub preamble_next : (Parser R → Bytes → NextHeader) → Bytes → Parser R × Option Error → NextHeader
  preamble_next go preamble (p, none) = go p preamble
  preamble_next go preamble (p, some eof) = (p, parsed (none, preamble))
  preamble_next go preamble (p, some e) = (p, failed (read_error e))

  -- `NextLine`
  pub next_line : (Parser R → Bytes → NextHeader) → Bytes → Parser R → NextHeader
  next_line go preamble p = preamble_next go (preamble ++ p.line0) (next read p)

  pub after_traditional :
      (Parser R → Bytes → NextHeader) → Bytes → Parser R × Parsed (Option File) → NextHeader
  after_traditional go preamble (p, failed e) = (p, failed e)
  after_traditional go preamble (p, parsed (some f)) = (p, parsed (some f, preamble))
  after_traditional go preamble (p, parsed none) = next_line go preamble p

  pub after_git :
      (Parser R → Bytes → NextHeader) → Bytes → Parser R × Parsed (Option File) → NextHeader
  after_git go preamble (p, failed e) = (p, failed e)
  after_git go preamble (p, parsed (some f)) = (p, parsed (some f, preamble))
  after_git go preamble (p, parsed none) =
      after_traditional go preamble (parse_traditional_file_header p)

  pub after_fragment :
      (Parser R → Bytes → NextHeader)
      → ℕ
      → Bytes
      → Parser R × Parsed (Option TextFragment)
      → NextHeader
  after_fragment go fuel preamble (p, failed e) = next_line go preamble p
  after_fragment go fuel preamble (p, parsed (some frag)) =
      (p, failed (error_at p (negsuc 0) (codes "patch fragment without file header: %s")))
  after_fragment go fuel preamble (p, parsed none) =
      after_git go preamble (parse_git_file_header fuel p)

  -- `ParseNextFileHeader`, with fuel for its loop and for each header.
  unfoldable pub parse_next_file_header : ℕ → ℕ → Parser R → Bytes → NextHeader
  unfolding after_fragment after_git after_traditional next_line preamble_next
  parse_next_file_header zero fuel p preamble = (p, failed out_of_fuel)
  parse_next_file_header (suc rounds) fuel p preamble =
      after_fragment (parse_next_file_header rounds fuel) fuel preamble
        (parse_text_fragment_header (parse_int 10 64) trim_space read p)
