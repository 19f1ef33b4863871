-- ===== src/TextParse/Print.antt =====
-- gitdiff/text.go and gitdiff/format.go: `ParseTextChunk` on the lines that `FormatTextFragment` writes.
use go_gitdiff.Base.{
  ℕ, suc, ◌^◌, ◌<◌, ◌≡◌, refl, ap, ◌∙◌, true, ◌||◌, List, [], ◌∷◌, ◌++◌, append_assoc, append-nil,
  Bytes, codes, arith, if◌then◌else◌, Bool-cases, inl, inr,
}
use go_gitdiff.Base.Int.{pos, ◌-ℤ◌}
use go_gitdiff.Base.Int64.{dec64}
use go_gitdiff.Base.Strings.{has_prefix, trim_last-snoc}
use go_gitdiff.Fragment.{
  LineOp, op_context, op_delete, op_add, op_other, Line, is_old, is_new, no_eol, op_string,
}
use go_gitdiff.Fragment.Consistent.{Known}
use go_gitdiff.Format.{format_line, format_lines}
use go_gitdiff.TextApply.Lines.{joined}
use go_gitdiff.Parser.{ParseError, parsed}
use go_gitdiff.TextParse.{
  is_no_newline_marker, trim_lines, remove_last_newline, Chunk, add_context, add_delete, add_add,
  chunk_line,
}

abbrev pub marker : Bytes
marker = codes "\\ No newline at end of file\n"

-- The byte of an operation, and the lines that a line is written as.
abbrev pub op_byte : LineOp → ℕ
op_byte op_context = b' '
op_byte op_delete = b'-'
op_byte op_add = b'+'
op_byte (op_other n) = b'?'

abbrev pub text_line : Line → List Bytes
text_line l =
    if no_eol l.line
    then (op_byte l.op ∷ (l.line ++ b'\n' ∷ [])) ∷ marker ∷ []
    else (op_byte l.op ∷ l.line) ∷ []

abbrev pub text_lines : List Line → List Bytes
text_lines [] = []
text_lines (l ∷ ls) = text_line l ++ text_lines ls

op_string-op_byte : (o : LineOp) → op_string o ≡ op_byte o ∷ []
op_string-op_byte op_context = refl
op_string-op_byte op_delete = refl
op_string-op_byte op_add = refl
op_string-op_byte (op_other n) = refl

-- They are what the formatter writes.
joined-text_line :
    (l : Line) (more : List Bytes) → joined (text_line l ++ more) ≡ format_line l ++ joined more
joined-text_line l more = elim (Bool-cases (no_eol l.line)) [
  | inl e ↦ rw (e, op_string-op_byte l.op) (simp (append_assoc))
  | inr e ↦ rw (e, op_string-op_byte l.op) (simp (append-nil))
]

pub joined-text_lines : (ls : List Line) → joined (text_lines ls) ≡ format_lines ls
unfolding format_lines
joined-text_lines [] = refl
joined-text_lines (l ∷ ls) =
    joined-text_line l (text_lines ls) ∙ ap (λ x. format_line l ++ x) (joined-text_lines ls)

-- A chunk with one more line, and with many.
abbrev pub take_line : Chunk → LineOp → Bytes → Chunk
take_line c op_context text = add_context c text
take_line c op_delete text = add_delete c text
take_line c op_add text = add_add c text
take_line c (op_other n) text = c

abbrev pub absorb : Chunk → List Line → Chunk
absorb c [] = c
absorb c (l ∷ ls) = absorb (take_line c l.op l.line) ls

pub chunk_line-take_line :
    (bad : ParseError) (c : Chunk) (l : Line) (text : Bytes)
    → Known l
    → chunk_line bad c (op_byte l.op ∷ text) ≡ parsed (take_line c l.op text)
chunk_line-take_line bad c l text k = by_op l.op k
  where
    by_op :
        (o : LineOp)
        → (is_old o || is_new o) ≡ true
        → chunk_line bad c (op_byte o ∷ text) ≡ parsed (take_line c o text)
    by_op op_context h = unfold chunk_line in refl
    by_op op_delete h = unfold chunk_line in refl
    by_op op_add h = unfold chunk_line in refl
    by_op (op_other n) h = cc

trim_lines-snoc :
    (ls : List Line) (o : LineOp) (text : Bytes)
    → trim_lines (ls ++ record { op = o; line = text ++ b'\n' ∷ [] } ∷ [])
      ≡ ls ++ record { op = o; line = text } ∷ []
unfolding trim_lines
trim_lines-snoc [] o text = rw (trim_last-snoc b'\n' text)
trim_lines-snoc (l ∷ []) o text = ap (◌∷◌ l) (trim_lines-snoc [] o text)
trim_lines-snoc (l ∷ m ∷ ls) o text = ap (◌∷◌ l) (trim_lines-snoc (m ∷ ls) o text)

abbrev pub untail : Chunk → Chunk
untail c = record c { frag = remove_last_newline c.frag }

pub untail-take_line :
    (c : Chunk) (o : LineOp) (text : Bytes)
    → (is_old o || is_new o) ≡ true
    → untail (take_line c o (text ++ b'\n' ∷ [])) ≡ take_line c o text
unfolding add_context add_delete add_add
untail-take_line c op_context text k = rw (trim_lines-snoc c.frag.lines op_context text)
untail-take_line c op_delete text k = rw (trim_lines-snoc c.frag.lines op_delete text)
untail-take_line c op_add text k = rw (trim_lines-snoc c.frag.lines op_add text)
untail-take_line c (op_other n) text k = cc

pub marker_line : (bad : ParseError) (c : Chunk) → chunk_line bad c marker ≡ parsed (untail c)
unfolding chunk_line is_no_newline_marker has_prefix
marker_line bad c = refl

dec64-pos : (n : ℕ) → suc n < 2 ^ 63 → dec64 (pos (suc n)) ≡ pos n
unfolding dec64 ◌-ℤ◌
dec64-pos n h = ground arith
