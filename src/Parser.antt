-- ===== src/Parser.antt =====
-- gitdiff/parser.go: the parser's lines. Its reader, `ReadString('\n')` of the standard library, is a
-- function from a state to what it reads, an error and the next state. A line number is an int64
-- that counts lines read. An error of `Errorf` keeps its line and its format, without the arguments.
pub mod Advance
use go_gitdiff.Base.{
  ℕ, zero, suc, ◌+◌, Bool, true, false, Option, none, some, List, [], ◌∷◌, Bytes, codes, ◌==◌,
  equal, if◌then◌else◌,
}
use go_gitdiff.Base.Int.{ℤ, pos, ◌+ℤ◌}
use go_gitdiff.Errors.{Error, eof}

-- `stringReader`
abbrev pub StringReader : Type 0 → Type 0
StringReader R = R → Bytes × Option Error × R

pub record Parser (R : Type 0) : Type 0 where
  pub r : R
  pub eof : Bool
  pub lineno : ℕ
  pub line0 : Bytes
  pub line1 : Bytes
  pub line2 : Bytes

abbrev pub new_parser : {R : Type 0} → R → Parser R
new_parser r = record { r = r; eof = false; lineno = 0; line0 = []; line1 = []; line2 = [] }

-- What a parsing method returns: an error of the reader as it is, or one of `Errorf`, with its line.
-- After `panicked` the call has not returned, and `out_of_fuel` is no Go error.
pub data ParseError : Type 0 where
  read_error : Error → ParseError
  at_line : ℤ → Bytes → ParseError
  panicked out_of_fuel : ParseError

pub data Parsed {ℓ} (A : Type ℓ) : Type ℓ where
  parsed : A → Parsed A
  failed : ParseError → Parsed A

-- `Errorf`
unfoldable pub error_at : {R : Type 0} → Parser R → ℤ → Bytes → ParseError
error_at p delta format = at_line (pos p.lineno +ℤ delta) format

-- The error that is not `io.EOF`.
abbrev pub but_eof : Option Error → Option Error
but_eof (some eof) = none
but_eof (some e) = some e
but_eof none = none

module _ {R : Type 0} (read : StringReader R) where
  -- `shiftLines`
  abbrev pub shift_lines : Parser R → Parser R × Option Error
  shift_lines p = (
    record p { r = (read p.r).2; line0 = p.line1; line1 = p.line2; line2 = (read p.r).0 },
    (read p.r).1,
  )

  -- The second shift of the first call, unless the first one has failed.
  pub shift_again : Option Error → Parser R → Parser R × Option Error
  shift_again (some e) p = (p, some e)
  shift_again none p = ((shift_lines p).0, but_eof (shift_lines p).1)

  pub shift_twice : Parser R → Parser R × Option Error
  shift_twice p = shift_again (but_eof (shift_lines p).1) (shift_lines p).0

  -- What follows the last shift, unless that has failed.
  pub count_line : Option Error → Parser R → Parser R × Option Error
  count_line (some e) p = (p, some e)
  count_line none p =
      if equal p.line0 []
      then (record p { lineno = p.lineno + 1; eof = true }, some eof)
      else (record p { lineno = p.lineno + 1 }, none)

  -- The last shift, unless one before it has failed.
  pub shift_last : Option Error → Parser R → Parser R × Option Error
  shift_last (some e) p = (p, some e)
  shift_last none p = count_line (but_eof (shift_lines p).1) (shift_lines p).0

  -- `Next`, by `eof` and by whether no line has been read.
  pub next_by : Bool → Bool → Parser R → Parser R × Option Error
  next_by true fresh p = (p, some eof)
  next_by false true p = shift_last (shift_twice p).1 (shift_twice p).0
  next_by false false p = shift_last none p

  unfoldable pub next : Parser R → Parser R × Option Error
  unfolding next_by shift_twice shift_again shift_last count_line
  next p = next_by p.eof (p.lineno == 0) p

  -- A call of `Next` whose `io.EOF` does not count.
  unfoldable pub next_or_end {ℓ} : {A : Type ℓ} → Parser R → A → Parser R × Parsed A
  next_or_end p a = elim (but_eof (next p).1) [
    | some e ↦ ((next p).0, failed (read_error e))
    | none ↦ ((next p).0, parsed a)
  ]
