-- ===== src/BinaryTests.antt =====
-- Runs of the parser of binary fragments on small inputs, and its theorems at inputs that meet their
-- hypotheses.
use go_gitdiff.Base.{
  inl, false, true, ℕ, drop, length, ◌≤◌, ◌∷◌, ◌≡◌, ◌≢◌, refl, Option, none, some, [], ◌∷◌, ◌++◌,
  Bytes, codes, arith,
}
use go_gitdiff.Base.Int.{ℤ, pos}
use go_gitdiff.Base.Strings.{cut, trim_last, strip_prefix}
use go_gitdiff.BinaryApply.{patch_literal, BinaryFragment}
use go_gitdiff.FileHeader.Header.{new_file}
use go_gitdiff.Apply.{File}
use go_gitdiff.Format.File.{format_binary}
use go_gitdiff.LineReader.{new_line_reader, read_lines_at}
use go_gitdiff.LineReader.Index.{ReadsQuietly}
use go_gitdiff.LineReader.Sound.{Answers, read_lines_at-Answers, new_line_reader-IsIndex}
use go_gitdiff.Io.Laws.{reader_of, reader_of-ReadsAt, reader_of-quiet}
use go_gitdiff.PatchHeader.{clean_subject_loop, removable, scan_message_body}
use go_gitdiff.PatchHeader.Subject.{clean_subject_loop-stops}
use go_gitdiff.PatchHeader.Body.{body_lines, body_text, scan_message_body-body_lines}
use go_gitdiff.TextApply.Lines.{joined}
use go_gitdiff.Parser.{Parser, failed, out_of_fuel}
use go_gitdiff.Parser.Advance.{At}
use go_gitdiff.BinaryParse.{line_data, method_of, parse_binary_chunk, parse_binary_fragments}
use go_gitdiff.BinaryParse.Line.{data_line, line_data-data_line}
use go_gitdiff.BinaryParse.Fragments.{
  binary_lines, joined-format_binary, IsFaithful, Attaches, with_binary,
  parse_binary_fragments-binary_lines,
}
use go_gitdiff.BinaryParse.Sound.{
  Attached, parse_binary_fragments-Attached, parse_binary_chunk-ne-out_of_fuel,
}
use go_gitdiff.ParseTests.{Lines, unread, read_line, read_line-ReadsStrings, two, at_two, at_two-At}

-- A stored text for a compressed one, and texts of the number 3.
abbrev three : ℤ → Bytes
three n = codes "3"

abbrev octal : ℕ → Bytes
octal n = codes "0"

abbrev as_three : Bytes → Option ℤ
as_three s = some (pos 3)

abbrev stored : Bytes → Bytes
stored s = s

abbrev restored : Bytes → Option Bytes
restored s = some s

abbrev small : BinaryFragment
small = record { method = patch_literal; size = pos 3; content = 1 ∷ 2 ∷ 3 ∷ [] }

small-IsFaithful : IsFaithful three octal stored as_three restored small
small-IsFaithful = record {
  known = refl;
  sized = refl;
  octets = (omega arith, (omega arith, (omega arith, tt)));
  inflates = refl;
  parses = refl;
}

abbrev at_binary : Parser Lines
at_binary = record {
  r = (10, []) ∷ [];
  eof = false;
  lineno = 1;
  line0 = codes "GIT binary patch\n";
  line1 = codes "literal 3\n";
  line2 = data_line (1 ∷ 2 ∷ 3 ∷ []);
}

at_binary-At : At unread at_binary (
    codes "GIT binary patch\n"
    ∷ (binary_lines three octal stored as_three restored small ++ ([] ++ [])))
at_binary-At = record {
  first = refl;
  second = refl;
  third = refl;
  unread = refl;
  ended = refl;
  started = omega arith;
  some_text = ((λ e. cc), ((λ e. cc), ((λ e. cc), ((λ e. cc), tt))));
}

nothing_behind : method_of [] ≡ none
unfolding method_of cut trim_last strip_prefix
nothing_behind = refl

parse_binary_fragments-binary_lines_example :
    Attaches three octal stored as_three restored read_line unread read_line-ReadsStrings []
      (with_binary three octal stored as_three restored read_line unread read_line-ReadsStrings
        new_file small none)
      (parse_binary_fragments as_three restored read_line 2 at_binary new_file)
parse_binary_fragments-binary_lines_example =
    parse_binary_fragments-binary_lines three octal stored as_three restored read_line unread
      read_line-ReadsStrings small none new_file [] 2 at_binary small-IsFaithful (omega arith) tt
      nothing_behind at_binary-At

abbrev binary_file : File
binary_file = record new_file { is_binary = true; binary_fragment = some small }

joined-format_binary_example :
    joined
      (codes "GIT binary patch\n" ∷ (binary_lines three octal stored as_three restored small ++ []))
    ≡ format_binary three octal stored binary_file
joined-format_binary_example =
    joined-format_binary three octal stored as_three restored binary_file small refl refl

line_data-data_line_example : line_data (data_line (1 ∷ 2 ∷ 3 ∷ [])) ≡ inl (1 ∷ 2 ∷ 3 ∷ [])
line_data-data_line_example =
    line_data-data_line (1 ∷ 2 ∷ 3 ∷ []) (omega arith, (omega arith, (omega arith, tt)))
      (omega arith) (omega arith)

parse_binary_fragments-Attached_example :
    Attached as_three restored read_line new_file
      (parse_binary_fragments as_three restored read_line 3 at_binary new_file)
parse_binary_fragments-Attached_example =
    parse_binary_fragments-Attached as_three restored read_line 3 at_binary new_file

parse_binary_chunk-ne-out_of_fuel_example :
    (parse_binary_chunk as_three restored read_line 3 at_two small).1 ≢ failed out_of_fuel
parse_binary_chunk-ne-out_of_fuel_example =
    parse_binary_chunk-ne-out_of_fuel as_three restored read_line unread read_line-ReadsStrings 3
      (unread two) at_two small at_two-At (omega arith)

abbrev source : Bytes
source = codes "one\ntwo\nthree"

source-ReadsQuietly : ReadsQuietly (reader_of source) source
source-ReadsQuietly = record { reads = reader_of-ReadsAt source; quiet = reader_of-quiet source }

read_lines_at-Answers_example :
    Answers
      (reader_of source)
      source
      source-ReadsQuietly
      3
      1
      (read_lines_at (reader_of source) 20 new_line_reader 3 (pos 1))
read_lines_at-Answers_example =
    read_lines_at-Answers (reader_of source) source source-ReadsQuietly 20 3 1 new_line_reader
      (new_line_reader-IsIndex (reader_of source) source source-ReadsQuietly) (omega arith)

abbrev subject_line : Bytes
subject_line = codes "Re: [PATCH] fix"

clean_subject_loop-stops_example :
    (clean_subject_loop (length subject_line) true 0 subject_line ≤ length subject_line)
    × (removable true
          (drop (clean_subject_loop (length subject_line) true 0 subject_line) subject_line)
        ≡ 0)
    × ((fuel : ℕ)
        → clean_subject_loop fuel true 0
            (drop (clean_subject_loop (length subject_line) true 0 subject_line) subject_line)
          ≡ 0)
clean_subject_loop-stops_example = clean_subject_loop-stops true subject_line

scan_message_body-body_lines_example :
    scan_message_body stored
      (body_lines (codes "  ") ((1, codes "a") ∷ (2, codes "b") ∷ []))
      (codes "  ")
      false
    ≡ (codes "a" ++ body_text ((2, codes "b") ∷ []), [])
scan_message_body-body_lines_example =
    scan_message_body-body_lines stored (codes "  ") refl 1 (codes "a") ((2, codes "b") ∷ [])
      (record { some_text = λ e. cc; trimmed = refl })
      ((record { some_text = λ e. cc; trimmed = refl }), tt)
