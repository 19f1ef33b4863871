-- ===== src/Format.antt =====
-- gitdiff/format.go: the text that the formatter writes for a text fragment and for a name. A writer
-- that fails makes the formatter drop the rest; the functions here give what it is handed. The
-- decimal text of a number, `fmt.Fprintf` with `%d`, is the library's: a parameter.
pub mod Quote
pub mod Binary
pub mod File
use go_gitdiff.Base.{
  ℕ, ◌+◌, ◌*◌, ◌%◌, ◌/◌, Bool, true, false, ◌||◌, Option, none, some, List, [], ◌∷◌, ◌++◌, Bytes,
  codes, ltb, leb, ◌==◌, equal, if◌then◌else◌,
}
use go_gitdiff.Base.Int.{ℤ}
use go_gitdiff.Fragment.{Line, TextFragment, op_string, no_eol}

-- `quoteEscapeTable`
unfoldable pub quote_escape : ℕ → Option ℕ
quote_escape b =
    if b == 7
    then some b'a'
    else if b == 8
    then some b'b'
    else if b == 9
    then some b't'
    else if b == 10
    then some b'n'
    else if b == 11
    then some b'v'
    else if b == 12
    then some b'f'
    else if b == 13
    then some b'r'
    else if b == 34
    then some 34
    else if b == 92
    then some 92
    else none

-- `quoteByte`, by what the table has; the bits of the octal digits are written as quotients.
pub quote_by : ℕ → Option ℕ → Option Bytes
quote_by b (some q) = some (92 ∷ q ∷ [])
quote_by b none =
    if ltb b 32 || leb 127 b
    then some (92 ∷ (48 + b / 64 % 4) ∷ (48 + b / 8 % 8) ∷ (48 + b % 8) ∷ [])
    else none

unfoldable pub quote_byte : ℕ → Option Bytes
unfolding quote_escape quote_by
quote_byte b = quote_by b (quote_escape b)

-- The loop of `WriteQuotedName` with `quoted` for `qpos > 0`: the name with its bytes quoted, and
-- whether one of them was.
pub quote_loop : Bytes → Bytes × Bool
quote_loop [] = ([], false)
quote_loop (c ∷ s) =
    let r = quote_loop s in
    elim (quote_byte c) [ some q ↦ (q ++ r.0, true) | none ↦ (c ∷ r.0, r.1) ]

-- `WriteQuotedName`
unfoldable pub quoted_name : Bytes → Bytes
unfolding quote_loop
quoted_name s = let r = quote_loop s in if r.1 then 34 ∷ (r.0 ++ 34 ∷ []) else r.0

abbrev pub no_newline_marker : Bytes
no_newline_marker = codes "\n\\ No newline at end of file\n"

-- The loop of `FormatTextFragment` over one line, and over all.
abbrev pub format_line : Line → Bytes
format_line l = op_string l.op ++ (l.line ++ (if no_eol l.line then no_newline_marker else []))

unfoldable pub format_lines : List Line → Bytes
format_lines [] = []
format_lines (l ∷ ls) = format_line l ++ format_lines ls

module _ (decimal : ℤ → Bytes) where
  -- `FormatTextFragmentHeader`
  unfoldable pub format_header : TextFragment → Bytes
  format_header f =
      codes "@@ -"
      ++ (decimal f.old_position
          ++ (codes ","
              ++ (decimal f.old_lines
                  ++ (codes " +"
                      ++ (decimal f.new_position
                          ++ (codes ","
                              ++ (decimal f.new_lines
                                  ++ (codes " @@"
                                      ++ (if equal f.comment []
                                          then []
                                          else b' ' ∷ f.comment)))))))))

  -- `FormatTextFragment`
  unfoldable pub format_fragment : TextFragment → Bytes
  unfolding format_lines
  format_fragment f = format_header f ++ (10 ∷ format_lines f.lines)
