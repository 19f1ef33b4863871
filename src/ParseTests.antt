-- ===== src/ParseTests.antt =====
-- Runs of the parser on small inputs, and its theorems at inputs that meet their hypotheses.
use go_gitdiff.Base.{
  ℕ, ◌≡◌, ◌≢◌, ◌⊎◌, refl, true, false, Option, none, some, List, [], ◌∷◌, ◌++◌, Bytes, codes, equal,
  All, arith, subst, ◌%◌, ◌-◌,
}
use go_gitdiff.Base.Int.{ℤ, pos, ◌+ℤ◌}
use go_gitdiff.Base.Int64.{IsInt64}
use go_gitdiff.Base.Strings.{strip_prefix, trim_last, cut, has_prefix, has_suffix}
use go_gitdiff.Errors.{eof}
use go_gitdiff.Fragment.{op_context, op_delete, op_add, TextFragment, no_eol, validate, is_zero}
use go_gitdiff.Fragment.Consistent.{IsConsistent, validate-IsConsistent}
use go_gitdiff.Format.{format_lines}
use go_gitdiff.TextApply.Lines.{joined}
use go_gitdiff.Apply.{File}
use go_gitdiff.Parser.{StringReader, Parser, but_eof, parsed, next, next_or_end}
use go_gitdiff.Parser.Advance.{ReadsStrings, At, next-At}
use go_gitdiff.TextParse.{no_change, parse_text_chunk, is_no_newline_marker}
use go_gitdiff.TextParse.Sound.{IsBare, SameHeader, Misplaced, parse_text_chunk-IsConsistent}
use go_gitdiff.TextParse.Print.{text_lines, joined-text_lines}
use go_gitdiff.TextParse.RoundTrip.{bare, parse_text_chunk-text_lines}
use go_gitdiff.TextFragments.{
  parse_text_fragments, parse_text_fragment_header, split_ranges, parse_range,
}
use go_gitdiff.TextFragments.Sound.{Proper, parse_text_fragments-Proper}
use go_gitdiff.FileHeader.{clean_loop, parse_git_header_name, is_space, trim_tree_prefix}
use go_gitdiff.PatchIdentity.{index_byte}
use go_gitdiff.FileHeader.Names.{IsClean, clean_loop_lem}
use go_gitdiff.FileHeader.Lines.{parse_git_header_data, parse_mode}
use go_gitdiff.FileHeader.Bounds.{InBounds}
use go_gitdiff.FileHeader.Header.{new_file, parse_git_file_header}
use go_gitdiff.FileHeader.Header.Sound.{IsNamed, parse_git_file_header_sound}

-- A reader over lines that are not empty.
abbrev pub Lines : Type 0
Lines = List (ℕ × Bytes)

abbrev pub unread : Lines → List Bytes
unread [] = []
unread ((c, s) ∷ ls) = (c ∷ s) ∷ unread ls

abbrev pub read_line : StringReader Lines
read_line [] = ([], some eof, [])
read_line ((c, s) ∷ ls) = (c ∷ s, none, ls)

pub unread-some : (ls : Lines) → All (λ l. l ≢ []) (unread ls)
unread-some [] = tt
unread-some ((c, s) ∷ ls) = ((λ e. cc), unread-some ls)

read_more :
    (r : Lines) {l : Bytes} {ls : List Bytes}
    → unread r ≡ l ∷ ls
    → ((read_line r).0 ≡ l) × (unread (read_line r).2 ≡ ls) × (but_eof (read_line r).1 ≡ none)
read_more [] e = cc
read_more ((c, s) ∷ r) e = (cc (e), cc (e), refl)

read_done :
    (r : Lines)
    → unread r ≡ []
    → ((read_line r).0 ≡ []) × (unread (read_line r).2 ≡ []) × (but_eof (read_line r).1 ≡ none)
read_done [] e = (refl, refl, refl)
read_done ((c, s) ∷ r) e = cc

pub read_line-ReadsStrings : ReadsStrings read_line unread
read_line-ReadsStrings = record { some_text = unread-some; more = read_more; done = read_done }

abbrev pub two : Lines
two = (b'a', codes "\n") ∷ (b'b', codes "\n") ∷ []

abbrev pub at_two : Parser Lines
at_two = record {
  r = [];
  eof = false;
  lineno = 1;
  line0 = codes "a\n";
  line1 = codes "b\n";
  line2 = [];
}

pub at_two-At : At unread at_two (unread two)
at_two-At = record {
  first = refl;
  second = refl;
  third = refl;
  unread = refl;
  ended = refl;
  started = omega arith;
  some_text = unread-some two;
}

next-At_example :
    At unread (next read_line at_two).0 (codes "b\n" ∷ [])
    × ((next read_line at_two).1 ≡ none)
    × ((next read_line at_two).0.lineno ≡ 2)
next-At_example =
    next-At read_line unread read_line-ReadsStrings at_two (codes "a\n") (codes "b\n" ∷ [])
      at_two-At

abbrev hunk : TextFragment
hunk = record {
  comment = [];
  old_position = pos 1;
  old_lines = pos 2;
  new_position = pos 1;
  new_lines = pos 2;
  lines_added = pos 1;
  lines_deleted = pos 1;
  leading_context = pos 1;
  trailing_context = pos 0;
  lines =
      record { op = op_context; line = codes "one\n" }
      ∷ record { op = op_delete; line = codes "two\n" }
      ∷ record { op = op_add; line = codes "2" }
      ∷ [];
}

hunk-validates : validate (some hunk) ≡ none
unfolding validate
hunk-validates = refl

joined-text_lines_example : joined (text_lines hunk.lines) ≡ format_lines hunk.lines
joined-text_lines_example = joined-text_lines hunk.lines

abbrev input : Lines
input =
    (b' ', codes "one\n")
    ∷ (b'-', codes "two\n")
    ∷ (b'+', codes "2\n")
    ∷ (b'\\', codes " No newline at end of file\n")
    ∷ []

abbrev at_hunk : Parser Lines
at_hunk = record {
  r = (b'\\', codes " No newline at end of file\n") ∷ [];
  eof = false;
  lineno = 2;
  line0 = codes " one\n";
  line1 = codes "-two\n";
  line2 = codes "+2\n";
}

at_hunk-At : At unread at_hunk (text_lines hunk.lines ++ [])
unfolding no_eol
at_hunk-At = record {
  first = refl;
  second = refl;
  third = refl;
  unread = refl;
  ended = refl;
  started = omega arith;
  some_text = unread-some input;
}

hunk-changes : no_change hunk ≡ false
unfolding no_change is_zero
hunk-changes = refl

empty_is_no_marker : is_no_newline_marker [] ≡ false
unfolding is_no_newline_marker
empty_is_no_marker = refl

parse_text_chunk-text_lines_example :
    ((parse_text_chunk read_line 10 at_hunk (bare hunk)).1 ≡ parsed hunk)
    × At unread (parse_text_chunk read_line 10 at_hunk (bare hunk)).0 []
parse_text_chunk-text_lines_example =
    parse_text_chunk-text_lines read_line unread read_line-ReadsStrings hunk hunk-changes []
      empty_is_no_marker 10 at_hunk ((validate-IsConsistent hunk).0 hunk-validates) (omega arith)
      (omega arith) (omega arith) (omega arith) at_hunk-At

bare-IsBare : IsBare (bare hunk)
bare-IsBare = record {
  no_lines = refl;
  no_leading = refl;
  no_trailing = refl;
  no_added = refl;
  no_deleted = refl;
  old_IsInt64 = omega arith;
  new_IsInt64 = omega arith;
}

parse_text_chunk-IsConsistent_example :
    SameHeader (bare hunk) hunk × (IsConsistent hunk ⊎ Misplaced hunk) × (no_change hunk ≡ false)
parse_text_chunk-IsConsistent_example =
    parse_text_chunk-IsConsistent read_line 10 at_hunk (bare hunk) bare-IsBare (omega arith)
      parse_text_chunk-text_lines_example.0

-- A digit, read as its number.
abbrev digit : Bytes → Option ℤ
digit [] = none
digit (c ∷ s) = some (pos ((c - 48) % 10))

digit-IsInt64 : (s : Bytes) (n : ℤ) → digit s ≡ some n → IsInt64 n
digit-IsInt64 [] n h = cc
digit-IsInt64 (c ∷ s) n h =
    let same : pos ((c - 48) % 10) ≡ n = cc (h) in subst IsInt64 same (omega arith)

abbrev at_header : Parser Lines
at_header = record {
  r = (b'+', codes "2\n") ∷ [];
  eof = false;
  lineno = 1;
  line0 = codes "@@ -1,2 +1,2 @@\n";
  line1 = codes " one\n";
  line2 = codes "-two\n";
}

abbrev ended_hunk : TextFragment
ended_hunk = record hunk {
  lines =
      record { op = op_context; line = codes "one\n" }
      ∷ record { op = op_delete; line = codes "two\n" }
      ∷ record { op = op_add; line = codes "2\n" }
      ∷ [];
}

-- The parse accepts a fragment, the one that the input spells.
header-parses :
    (parse_text_fragments digit
      (trim_last b'\n')
      read_line
      4
      10
      at_header
      new_file
      0).1.text_fragments
    ≡ ended_hunk ∷ []
unfolding parse_text_fragments parse_text_fragment_header split_ranges parse_range parse_text_chunk
    is_no_newline_marker no_change is_zero next next_or_end strip_prefix has_prefix cut has_suffix
    equal trim_last ◌+ℤ◌
header-parses = refl

parse_text_fragments-Proper_example : All Proper (ended_hunk ∷ [])
unfolding parse_text_fragments parse_text_fragment_header split_ranges parse_range parse_text_chunk
    is_no_newline_marker no_change is_zero next next_or_end strip_prefix has_prefix cut has_suffix
    equal trim_last ◌+ℤ◌
parse_text_fragments-Proper_example =
    parse_text_fragments-Proper digit (trim_last b'\n') digit-IsInt64 read_line 4 10 at_header
      new_file 0 (omega arith) tt

clean_loop_lem_example :
    IsClean (clean_loop [] 1 (codes "a//b//c"))
    × (clean_loop [] 0 (clean_loop [] 1 (codes "a//b//c")) ≡ clean_loop [] 1 (codes "a//b//c"))
clean_loop_lem_example = clean_loop_lem (codes "a//b//c") 1

cleaned : clean_loop [] 1 (codes "a//b//c") ≡ codes "b/c"
unfolding clean_loop
cleaned = refl

abbrev at_created : Parser Lines
at_created = record {
  r = [];
  eof = false;
  lineno = 1;
  line0 = codes "diff --git a/x b/x\n";
  line1 = codes "new file mode 100644\n";
  line2 = [];
}

abbrev created : File
created = record new_file { is_new = true; new_name = codes "x"; new_mode = 33188 }

abbrev mode_only : ℕ → ℕ → Bytes → Option ℤ
mode_only base bits s = some (pos 33188)

created-parses :
    (parse_git_file_header mode_only (λ s. s) (λ s. none) (λ s. false) read_line 5 at_created).1
    ≡ parsed (some created)
unfolding parse_git_file_header strip_prefix parse_git_header_name index_byte trim_last is_space
    trim_tree_prefix equal parse_git_header_data parse_mode next
created-parses = refl

parse_git_file_header_sound_example :
    IsNamed created × InBounds mode_only (λ s. s) (λ s. none) created
parse_git_file_header_sound_example =
    parse_git_file_header_sound mode_only (λ s. s) (λ s. none) (λ s. false) read_line 5 at_created
      created created-parses
