-- ===== src/TextParse.antt =====
-- gitdiff/text.go: the lines of a text fragment. The fragment that a method changes is passed on; its
-- counters, which count lines read, do not overflow, but `oldLines` and `newLines` start at numbers of
-- the input and wrap around.
pub mod Tally
pub mod Sound
pub mod Ends
pub mod Print
pub mod Rounds
pub mod RoundTrip
use go_gitdiff.Base.{
  ℕ, zero, suc, ◌+◌, Bool, true, false, not, ◌&&◌, ◌||◌, Option, none, some, List, [], ◌∷◌, ◌++◌,
  Bytes, codes, length, ltb, leb, ◌==◌, equal, if◌then◌else◌,
}
use go_gitdiff.Base.Int.{ℤ, pos, negsuc, ◌+ℤ◌, ◌-ℤ◌, ltb_ℤ}
use go_gitdiff.Base.Int64.{wrap64, dec64}
use go_gitdiff.Base.Strings.{has_prefix, trim_last}
use go_gitdiff.Errors.{Error, eof}
use go_gitdiff.Fragment.{LineOp, op_context, op_delete, op_add, Line, TextFragment, is_zero}
use go_gitdiff.Parser.{
  StringReader, Parser, ParseError, read_error, panicked, out_of_fuel, Parsed, parsed, failed,
  error_at, next, next_or_end,
}

-- `isNoNewlineMarker`
unfoldable pub is_no_newline_marker : Bytes → Bool
is_no_newline_marker s = leb 12 (length s) && has_prefix (codes "\\ ") s

-- `removeLastNewline`, on the lines of a fragment.
pub trim_lines : List Line → List Line
trim_lines [] = []
trim_lines (l ∷ []) = record l { line = trim_last b'\n' l.line } ∷ []
trim_lines (l ∷ m ∷ ls) = l ∷ trim_lines (m ∷ ls)

abbrev pub remove_last_newline : TextFragment → TextFragment
remove_last_newline f = record f { lines = trim_lines f.lines }

-- The variables of `ParseTextChunk`.
pub record Chunk : Type 0 where
  pub frag : TextFragment
  pub old : ℤ
  pub new : ℤ

unfoldable pub no_change : TextFragment → Bool
no_change f = is_zero f.lines_added && is_zero f.lines_deleted

-- The cases of the switch.
pub add_context : Chunk → Bytes → Chunk
add_context c text =
    let f = c.frag in
    record {
      frag = record f {
        leading_context = if no_change f then f.leading_context +ℤ pos 1 else f.leading_context;
        trailing_context = if no_change f then f.trailing_context else f.trailing_context +ℤ pos 1;
        lines = f.lines ++ record { op = op_context; line = text } ∷ [];
      };
      old = dec64 c.old;
      new = dec64 c.new;
    }

pub add_delete : Chunk → Bytes → Chunk
add_delete c text =
    let f = c.frag in
    record {
      frag = record f {
        lines_deleted = f.lines_deleted +ℤ pos 1;
        trailing_context = pos 0;
        lines = f.lines ++ record { op = op_delete; line = text } ∷ [];
      };
      old = dec64 c.old;
      new = c.new;
    }

pub add_add : Chunk → Bytes → Chunk
add_add c text =
    let f = c.frag in
    record {
      frag = record f {
        lines_added = f.lines_added +ℤ pos 1;
        trailing_context = pos 0;
        lines = f.lines ++ record { op = op_add; line = text } ∷ [];
      };
      old = c.old;
      new = dec64 c.new;
    }

-- The switch on a line; `bad` is the error for an invalid operation.
pub chunk_line : ParseError → Chunk → Bytes → Parsed Chunk
unfolding is_no_newline_marker
chunk_line bad c [] = failed panicked
chunk_line bad c (op ∷ text) =
    if op == b'\n'
    then parsed (add_context c (b'\n' ∷ []))
    else if op == b' '
    then parsed (add_context c text)
    else if op == b'-'
    then parsed (add_delete c text)
    else if op == b'+'
    then parsed (add_add c text)
    else if op == b'\\' && is_no_newline_marker (op ∷ text)
    then parsed (record c { frag = remove_last_newline c.frag })
    else failed bad

pub positive : ℤ → Bool
positive (pos n) = ltb 0 n
positive (negsuc n) = false

-- `max`
abbrev pub max : ℤ → ℤ → ℤ
max a b = if ltb_ℤ b a then a else b

module _ {R : Type 0} (read : StringReader R) where
  -- What follows the call of `Next` in the loop.
  pub chunk_next :
      (Parser R → Chunk → Parser R × Parsed Chunk)
      → Chunk
      → Parser R × Option Error
      → Parser R × Parsed Chunk
  chunk_next go c (p, none) = go p c
  chunk_next go c (p, some eof) = (p, parsed c)
  chunk_next go c (p, some e) = (p, failed (read_error e))

  -- What follows the switch.
  pub chunk_taken :
      (Parser R → Chunk → Parser R × Parsed Chunk)
      → Parser R
      → Parsed Chunk
      → Parser R × Parsed Chunk
  chunk_taken go p (failed e) = (p, failed e)
  chunk_taken go p (parsed c) = chunk_next go c (next read p)

  abbrev pub invalid_operation : Parser R → ParseError
  invalid_operation p = error_at p (pos 0) (codes "invalid line operation: %q")

  -- The loop of `ParseTextChunk`, with fuel for its rounds.
  pub chunk_loop : ℕ → Parser R → Chunk → Parser R × Parsed Chunk
  chunk_loop zero p c = (p, failed out_of_fuel)
  chunk_loop (suc fuel) p c = elim (positive c.old || positive c.new) [
    | true ↦ chunk_taken (chunk_loop fuel) p (chunk_line (invalid_operation p) c p.line0)
    | false ↦ (p, parsed c)
  ]

  -- The checks behind the loop.
  pub check_chunk : Parser R → Chunk → Option ParseError
  check_chunk p c =
      if not (is_zero c.old && is_zero c.new)
      then (let hdr = wrap64 (
            max (wrap64 (c.frag.old_lines -ℤ c.old)) (wrap64 (c.frag.new_lines -ℤ c.new))
            +ℤ pos 1) in
          some (
            error_at p (wrap64 (pos 0 -ℤ hdr))
              (codes "fragment header miscounts lines: %+d old, %+d new")))
      else if no_change c.frag
      then some (error_at p (pos 0) (codes "fragment contains no changes"))
      else none

  -- The check for a final marker.
  pub finish_chunk : Parser R → TextFragment → Parser R × Parsed TextFragment
  finish_chunk p f =
      if is_no_newline_marker p.line0
      then next_or_end read p (remove_last_newline f)
      else (p, parsed f)

  pub checked_chunk : Parser R → Chunk → Option ParseError → Parser R × Parsed TextFragment
  checked_chunk p c (some e) = (p, failed e)
  checked_chunk p c none = finish_chunk p c.frag

  pub after_loop : Parser R × Parsed Chunk → Parser R × Parsed TextFragment
  after_loop (p, failed e) = (p, failed e)
  after_loop (p, parsed c) = checked_chunk p c (check_chunk p c)

  -- `ParseTextChunk`: the fragment with its lines.
  unfoldable pub parse_text_chunk : ℕ → Parser R → TextFragment → Parser R × Parsed TextFragment
  unfolding chunk_loop chunk_taken chunk_next after_loop checked_chunk finish_chunk check_chunk
      chunk_line add_context add_delete add_add dec64 positive
  parse_text_chunk fuel p f =
      if equal p.line0 []
      then (p, failed (error_at p (pos 0) (codes "no content following fragment header")))
      else after_loop
          (chunk_loop fuel p (record { frag = f; old = f.old_lines; new = f.new_lines }))
