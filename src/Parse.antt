-- ===== src/Parse.antt =====
-- gitdiff/parser.go: `Parse`, over the headers and the fragments of the files. The parameters are those
-- of the parts; `parse_int` takes the base and the bits. Each loop has fuel.
use go_gitdiff.Base.{
  ℕ, zero, suc, Bool, Option, none, some, List, [], ◌∷◌, ◌++◌, Bytes, ltb, if◌then◌else◌,
}
use go_gitdiff.Base.Int.{ℤ}
use go_gitdiff.Errors.{Error, eof}
use go_gitdiff.Apply.{File}
use go_gitdiff.Parser.{
  StringReader, Parser, new_parser, ParseError, read_error, out_of_fuel, Parsed, parsed, failed,
  next,
}
use go_gitdiff.TextFragments.{parse_text_fragments}
use go_gitdiff.BinaryParse.{parse_binary_fragments}
use go_gitdiff.FileHeader.Header.{parse_next_file_header}

-- The files, the preamble and the error.
abbrev pub ParseResult : Type 0
ParseResult = List File × Bytes × Option ParseError

-- `if len(files) == 0`
abbrev pub preamble_of : List File → Bytes → Bytes → Bytes
preamble_of [] preamble found = found
preamble_of (f ∷ fs) preamble found = preamble

module _ (parse_int : ℕ → ℕ → Bytes → Option ℤ) (trim_space : Bytes → Bytes)
    (unquote : Bytes → Option Bytes) (is_epoch : Bytes → Bool) (inflate : Bytes → Option Bytes)
    {R : Type 0} (read : StringReader R) where
  abbrev pub Go : Type 0
  Go = Parser R → List File → Bytes → ParseResult

  pub after_binary_fragments :
      Go → List File → Bytes → Parser R × File × ℕ × Option ParseError → ParseResult
  after_binary_fragments go files preamble (p, f, n, some e) = (files, preamble, some e)
  after_binary_fragments go files preamble (p, f, n, none) = go p (files ++ f ∷ []) preamble

  -- The loop over the two parsers of fragments, of which the second runs if the first finds none.
  pub after_text_fragments :
      Go → ℕ → List File → Bytes → Parser R × File × ℕ × Option ParseError → ParseResult
  after_text_fragments go fuel files preamble (p, f, n, some e) = (files, preamble, some e)
  after_text_fragments go fuel files preamble (p, f, n, none) =
      if ltb 0 n
      then go p (files ++ f ∷ []) preamble
      else after_binary_fragments go files preamble
          (parse_binary_fragments (parse_int 10 64) inflate read fuel p f)

  pub after_file_header :
      Go → ℕ → List File → Bytes → Parser R × Parsed (Option File × Bytes) → ParseResult
  after_file_header go fuel files preamble (p, failed e) = (files, preamble, some e)
  after_file_header go fuel files preamble (p, parsed (none, found)) =
      (files, preamble_of files preamble found, none)
  after_file_header go fuel files preamble (p, parsed (some f, found)) =
      after_text_fragments go fuel files (preamble_of files preamble found)
        (parse_text_fragments (parse_int 10 64) trim_space read fuel fuel p f 0)

  pub parse_loop : ℕ → ℕ → Go
  parse_loop zero fuel p files preamble = (files, preamble, some out_of_fuel)
  parse_loop (suc rounds) fuel p files preamble =
      after_file_header (parse_loop rounds fuel) fuel files preamble
        (parse_next_file_header parse_int trim_space unquote is_epoch read fuel fuel p [])

  pub parse_from : ℕ → ℕ → Parser R × Option Error → ParseResult
  parse_from rounds fuel (p, some eof) = ([], [], none)
  parse_from rounds fuel (p, some e) = ([], [], some (read_error e))
  parse_from rounds fuel (p, none) = parse_loop rounds fuel p [] []

  -- `Parse`
  unfoldable pub parse : ℕ → ℕ → R → ParseResult
  unfolding parse_from parse_loop after_file_header after_text_fragments after_binary_fragments
  parse rounds fuel r = parse_from rounds fuel (next read (new_parser r))
