-- ===== src/TextFragments.antt =====
-- gitdiff/text.go: the headers of text fragments, and the fragments of a file. `strconv.ParseInt` with
-- base 10 and `strings.TrimSpace` are parameters; `parse_int` gives none for an error.
pub mod Sound
use go_gitdiff.Base.{
  ℕ, zero, suc, ◌+◌, Bool, true, false, ◌&&◌, Option, none, some, List, [], ◌∷◌, ◌++◌, Bytes, codes,
  drop, if◌then◌else◌,
}
use go_gitdiff.Base.Int.{ℤ, pos, negsuc}
use go_gitdiff.Base.Strings.{has_prefix, cut}
use go_gitdiff.Fragment.{TextFragment}
use go_gitdiff.Apply.{File}
use go_gitdiff.Parser.{
  StringReader, Parser, ParseError, out_of_fuel, Parsed, parsed, failed, error_at, next_or_end,
}
use go_gitdiff.TextParse.{positive, parse_text_chunk}

-- The fragment of a header.
abbrev pub bare_fragment : Bytes → ℤ × ℤ → ℤ × ℤ → TextFragment
bare_fragment comment (old_position, old_lines) (new_position, new_lines) = record {
  comment = comment;
  old_position = old_position;
  old_lines = old_lines;
  new_position = new_position;
  new_lines = new_lines;
  lines_added = pos 0;
  lines_deleted = pos 0;
  leading_context = pos 0;
  trailing_context = pos 0;
  lines = [];
}

module _ (parse_int : Bytes → Option ℤ) (trim_space : Bytes → Bytes) where
  pub range_of : Option ℤ → Option ℤ → Option (ℤ × ℤ)
  range_of none end = none
  range_of (some start) none = none
  range_of (some start) (some end) = some (start, end)

  pub range_parts : Bytes → Option (Bytes × Bytes) → Option (ℤ × ℤ)
  range_parts s none = range_of (parse_int s) (some (pos 1))
  range_parts s (some (before, behind)) = range_of (parse_int before) (parse_int behind)

  -- `parseRange`, whose errors are told apart in their text alone.
  unfoldable pub parse_range : Bytes → Option (ℤ × ℤ)
  unfolding range_parts range_of
  parse_range s = range_parts s (cut (codes ",") s)

  -- `strings.Split(header, " +")`, if it has two parts.
  unfoldable pub split_ranges : Bytes → Option (Bytes × Bytes)
  split_ranges header = elim (cut (codes " +") header) [
    | none ↦ none
    | some (a, b) ↦ elim (cut (codes " +") b) [ none ↦ some (a, b) | some more ↦ none ]
  ]

  pub ranged_fragment : Bytes → Option (ℤ × ℤ) → Option (ℤ × ℤ) → Option TextFragment
  ranged_fragment behind none new = none
  ranged_fragment behind (some old) none = none
  ranged_fragment behind (some old) (some new) = some (bare_fragment (trim_space behind) old new)

  -- The text between the marks, by its parts, and the comment.
  pub header_fragment : Bytes → Option (Bytes × Bytes) → Option TextFragment
  header_fragment behind none = none
  header_fragment behind (some (a, b)) = ranged_fragment behind (parse_range a) (parse_range b)

  pub marked_fragment : Option (Bytes × Bytes) → Option TextFragment
  marked_fragment none = none
  marked_fragment (some (before, behind)) = header_fragment behind (split_ranges (drop 4 before))

  module _ {R : Type 0} (read : StringReader R) where
    pub take_header : Parser R → Option TextFragment → Parser R × Parsed (Option TextFragment)
    take_header p none = (p, failed (error_at p (pos 0) (codes "invalid fragment header")))
    take_header p (some f) = next_or_end read p (some f)

    -- `ParseTextFragmentHeader`; no fragment stands for nil.
    unfoldable pub parse_text_fragment_header : Parser R → Parser R × Parsed (Option TextFragment)
    unfolding take_header marked_fragment header_fragment ranged_fragment
    parse_text_fragment_header p = elim (has_prefix (codes "@@ -") p.line0) [
      | false ↦ (p, parsed none)
      | true ↦ take_header p (marked_fragment (cut (codes " @@") p.line0))
    ]

    -- The check of a fragment against what the file is said to be.
    pub refused_fragment : File → Parser R → TextFragment → Option ParseError
    refused_fragment f p frag =
        if f.is_new && positive frag.old_lines
        then some (error_at p (negsuc 0) (codes "new file depends on old contents"))
        else if f.is_delete && positive frag.new_lines
        then some (error_at p (negsuc 0) (codes "deleted file still has contents"))
        else none

    -- What the loop gives: the parser, the file, the number of fragments and the error.
    abbrev pub Outcome : Type 0
    Outcome = Parser R × File × ℕ × Option ParseError

    abbrev pub attach : File → TextFragment → File
    attach f frag = record f { text_fragments = f.text_fragments ++ frag ∷ [] }

    pub after_chunk :
        (Parser R → File → ℕ → Outcome) → File → ℕ → Parser R × Parsed TextFragment → Outcome
    after_chunk go f n (p, failed e) = (p, f, n, some e)
    after_chunk go f n (p, parsed frag) = go p (attach f frag) (n + 1)

    pub after_check :
        (Parser R → File → ℕ → Outcome)
        → ℕ
        → File
        → ℕ
        → Parser R
        → TextFragment
        → Option ParseError
        → Outcome
    after_check go fuel f n p frag (some e) = (p, f, n, some e)
    after_check go fuel f n p frag none = after_chunk go f n (parse_text_chunk read fuel p frag)

    pub after_header :
        (Parser R → File → ℕ → Outcome)
        → ℕ
        → File
        → ℕ
        → Parser R × Parsed (Option TextFragment)
        → Outcome
    after_header go fuel f n (p, failed e) = (p, f, n, some e)
    after_header go fuel f n (p, parsed none) = (p, f, n, none)
    after_header go fuel f n (p, parsed (some frag)) =
        after_check go fuel f n p frag (refused_fragment f p frag)

    -- `ParseTextFragments`, with fuel for its loop and for each chunk.
    unfoldable pub parse_text_fragments : ℕ → ℕ → Parser R → File → ℕ → Outcome
    unfolding after_header after_check after_chunk refused_fragment
    parse_text_fragments zero fuel p f n = (p, f, n, some out_of_fuel)
    parse_text_fragments (suc rounds) fuel p f n =
        after_header (parse_text_fragments rounds fuel) fuel f n (parse_text_fragment_header p)
