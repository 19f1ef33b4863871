-- ===== src/TextParse/Rounds.antt =====
-- gitdiff/text.go: the rounds of `ParseTextChunk` on the lines of one line of a fragment.
use go_gitdiff.Base.{
  ℕ, suc, ◌+◌, ◌^◌, ◌<◌, ◌≤◌, ◌≡◌, refl, ap, ◌∙◌, Bool, true, false, ◌||◌, ◌⊎◌, Option, none, some,
  List, [], ◌∷◌, ◌++◌, Bytes, length, arith, if◌then◌else◌, Bool-cases, inl, inr,
}
use go_gitdiff.Base.Int.{pos, ◌-ℤ◌}
use go_gitdiff.Base.Int64.{dec64}
use go_gitdiff.Errors.{Error, eof}
use go_gitdiff.Fragment.{LineOp, op_context, op_delete, op_add, op_other, Line, is_old, is_new}
use go_gitdiff.Fragment.Consistent.{count}
use go_gitdiff.Parser.{StringReader, Parser, ParseError, Parsed, parsed, next}
use go_gitdiff.Parser.Advance.{ReadsStrings, At, next-At, no_lines}
use go_gitdiff.TextParse.{
  Chunk, add_context, add_delete, add_add, chunk_line, positive, chunk_next, chunk_taken,
  chunk_loop, invalid_operation,
}
use go_gitdiff.TextParse.Print.{
  marker, op_byte, take_line, untail, chunk_line-take_line, untail-take_line, marker_line,
}

module _ {R : Type 0} (read : StringReader R) (rest : R → List Bytes)
    (law : ReadsStrings read rest) where
  chunk_next-none :
      (go : Parser R → Chunk → Parser R × Parsed Chunk) (c : Chunk) (r : Parser R × Option Error)
      → r.1 ≡ none
      → chunk_next read go c r ≡ go r.0 c
  unfolding chunk_next
  chunk_next-none go c (p, none) e = refl
  chunk_next-none go c (p, some x) e = cc

  chunk_next-eof :
      (go : Parser R → Chunk → Parser R × Parsed Chunk) (c : Chunk) (r : Parser R × Option Error)
      → r.1 ≡ some eof
      → chunk_next read go c r ≡ (r.0, parsed c)
  unfolding chunk_next
  chunk_next-eof go c (p, none) e = cc
  chunk_next-eof go c (p, some eof) e = refl
  chunk_next-eof go c (p, some other) e = cc

  -- A round on the line `line`, with the lines `more` behind it.
  module _ (fuel : ℕ) (p : Parser R) (c d : Chunk) (line : Bytes) (more : List Bytes)
      (here : At rest p (line ∷ more)) (open_left : (positive c.old || positive c.new) ≡ true)
      (taken : (bad : ParseError) → chunk_line bad c line ≡ parsed d) where
    round_lem :
        chunk_loop read (suc fuel) p c ≡ chunk_next read (chunk_loop read fuel) d (next read p)
    unfolding chunk_loop chunk_taken
    round_lem =
        rw (open_left, chunk_loop)
          (ap (chunk_taken read (chunk_loop read fuel) p) (
            ap (chunk_line (invalid_operation read p) c) here.first
            ∙ taken (invalid_operation read p)))

    round_on :
        no_lines more ≡ false
        → chunk_loop read (suc fuel) p c ≡ chunk_loop read fuel (next read p).0 d
    round_on e =
        let (at, end, n) = next-At read rest law p line more here in
        round_lem ∙ chunk_next-none (chunk_loop read fuel) d (next read p) (rw e at end)

  -- A round after which no lines are left to read stops the loop.
  module _ (fuel : ℕ) (p : Parser R) (c d : Chunk) (line : Bytes) (more : List Bytes)
      (here : At rest p (line ∷ more)) (open_left : (positive c.old || positive c.new) ≡ true)
      (taken : (bad : ParseError) → chunk_line bad c line ≡ parsed d)
      (closed : (positive d.old || positive d.new) ≡ false) where
    stops : chunk_loop read (suc fuel) (next read p).0 d ≡ ((next read p).0, parsed d)
    unfolding chunk_loop
    stops = rw (closed, chunk_loop)

    round_last : chunk_loop read (suc (suc fuel)) p c ≡ ((next read p).0, parsed d)
    round_last =
        let (at, end, n) = next-At read rest law p line more here in
        elim (Bool-cases (no_lines more)) [
          | inl e ↦
              round_lem (suc fuel) p c d line more here open_left taken
              ∙ chunk_next-eof (chunk_loop read (suc fuel)) d (next read p) (rw e at end)
          | inr e ↦ round_on (suc fuel) p c d line more here open_left taken e ∙ stops
        ]

-- What the counters have left for the lines `ls`.
abbrev pub Left : Chunk → List Line → Type 0
Left c ls = (c.old ≡ pos (count is_old ls)) × (c.new ≡ pos (count is_new ls))

pub count-le-length : (test : LineOp → Bool) (ls : List Line) → count test ls ≤ length ls
count-le-length test [] = omega arith
count-le-length test (l ∷ ls) = ground (arith, count-le-length test ls)

pub take_line-Left :
    (c : Chunk) (o : LineOp) (text : Bytes) (old new : ℕ)
    → (is_old o || is_new o) ≡ true
    → c.old ≡ pos ((if is_old o then 1 else 0) + old)
    → c.new ≡ pos ((if is_new o then 1 else 0) + new)
    → old + 1 < 2 ^ 63
    → new + 1 < 2 ^ 63
    → ((take_line c o text).old ≡ pos old)
      × ((take_line c o text).new ≡ pos new)
      × ((positive c.old || positive c.new) ≡ true)
unfolding add_context add_delete add_add dec64 positive ◌-ℤ◌
take_line-Left c op_context text old new k a b x y =
    rw (a, b) (ground arith, ground arith, ground arith)
take_line-Left c op_delete text old new k a b x y =
    rw (a, b) (ground arith, ground arith, ground arith)
take_line-Left c op_add text old new k a b x y =
    rw (a, b) (ground arith, ground arith, ground arith)
take_line-Left c (op_other n) text old new k a b x y = cc

closed_at_zero : (c : Chunk) → Left c [] → (positive c.old || positive c.new) ≡ false
unfolding positive
closed_at_zero c (a, b) = rw (a, b)

module _ {R : Type 0} (read : StringReader R) (rest : R → List Bytes)
    (law : ReadsStrings read rest) where
  -- How the loop ends: behind the lines, or before the marker of the last one.
  pub record Ended (tail : List Bytes) (d : Chunk) (r : Parser R × Parsed Chunk) : Type 0 where
    pub place : Parser R
    pub last : Chunk
    pub result : r ≡ (place, parsed last)
    pub left : Left last []
    pub behind :
        (At rest place tail × (last ≡ d)) ⊎ (At rest place (marker ∷ tail) × (untail last ≡ d))

  pub record Advanced (n : ℕ) (more : List Bytes) (d : Chunk) (r : Parser R × Parsed Chunk)
      : Type 0 where
    pub place : Parser R
    pub rounds : ℕ
    pub enough : n ≤ rounds
    pub result : r ≡ chunk_loop read rounds place d
    pub at : At rest place more

  module _ (n : ℕ) (p : Parser R) (c : Chunk) (o : LineOp) (text : Bytes) (more : List Bytes)
      (known : (is_old o || is_new o) ≡ true)
      (open_left : (positive c.old || positive c.new) ≡ true) where
    abbrev written : Line
    written = record { op = o; line = text }

    taken_text :
        (t : Bytes) (bad : ParseError) → chunk_line bad c (op_byte o ∷ t) ≡ parsed (take_line c o t)
    taken_text t bad = chunk_line-take_line bad c written t known

    taken_marker :
        (bad : ParseError)
        → chunk_line bad (take_line c o (text ++ b'\n' ∷ [])) marker ≡ parsed (take_line c o text)
    taken_marker bad = marker_line bad _ ∙ ap parsed (untail-take_line c o text known)

    pub step_on :
        (b : Bool)
        → At rest p (
            (if b
              then (op_byte o ∷ (text ++ b'\n' ∷ [])) ∷ marker ∷ []
              else (op_byte o ∷ text) ∷ [])
            ++ more)
        → no_lines more ≡ false
        → ((t : Bytes) → (positive (take_line c o t).old || positive (take_line c o t).new) ≡ true)
        → Advanced n more (take_line c o text) (chunk_loop read (suc (suc n)) p c)
    step_on false here e still =
        let (at, end, lines) = next-At read rest law p _ more here in
        record {
          place = (next read p).0;
          rounds = suc n;
          enough = omega arith;
          result =
              round_on read rest law (suc n) p c (take_line c o text) _ more here open_left
                (taken_text text) e;
          at = at;
        }
    step_on true here e still =
        let t = text ++ b'\n' ∷ [] in
        let (at, end, lines) = next-At read rest law p (op_byte o ∷ t) (marker ∷ more) here in
        let q = (next read p).0 in
        let (at', end', lines') = next-At read rest law q marker more at in
        record {
          place = (next read q).0;
          rounds = n;
          enough = omega arith;
          result =
              round_on read rest law (suc n) p c (take_line c o t) (op_byte o ∷ t) (marker ∷ more)
                here open_left (taken_text t) refl
              ∙ round_on read rest law n q (take_line c o t) (take_line c o text) marker more at
                  (still t) taken_marker e;
          at = at';
        }

    pub step_last :
        (b : Bool)
        → At rest p (
            (if b
              then (op_byte o ∷ (text ++ b'\n' ∷ [])) ∷ marker ∷ []
              else (op_byte o ∷ text) ∷ [])
            ++ more)
        → ((t : Bytes) → Left (take_line c o t) [])
        → Ended more (take_line c o text) (chunk_loop read (suc (suc n)) p c)
    step_last false here left =
        let (at, end, lines) = next-At read rest law p _ more here in
        record {
          place = (next read p).0;
          last = take_line c o text;
          result =
              round_last read rest law n p c (take_line c o text) _ more here open_left
                (taken_text text) (closed_at_zero (take_line c o text) (left text));
          left = left text;
          behind = inl (at, refl);
        }
    step_last true here left =
        let t = text ++ b'\n' ∷ [] in
        let (at, end, lines) = next-At read rest law p (op_byte o ∷ t) (marker ∷ more) here in
        record {
          place = (next read p).0;
          last = take_line c o t;
          result =
              round_last read rest law n p c (take_line c o t) _ (marker ∷ more) here open_left
                (taken_text t) (closed_at_zero (take_line c o t) (left t));
          left = left t;
          behind = inr (at, untail-take_line c o text known);
        }
