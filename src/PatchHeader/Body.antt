-- ===== src/PatchHeader/Body.antt =====
-- gitdiff/patch_header.go: the text that `scanMessageBody` makes of the lines of a body.
use go_gitdiff.Base.{
  ℕ, zero, suc, ◌+◌, ◌≡◌, ◌≢◌, refl, ap, ◌∙◌, sym, true, false, some, List, [], ◌∷◌, ◌++◌,
  append_assoc, append-nil, Bytes, length, length-append, replicate, ltb, equal, equal_iff, ◌==◌,
  All, arith, Bool-cases, inl, inr, if◌then◌else◌,
}
use go_gitdiff.Base.Strings.{strip_prefix}
use go_gitdiff.PatchHeader.{
  BodyParts, add_text, trim_prefix, take_body_line, body_loop, scan_message_body,
}

-- The lines of a body: each one behind a number of blank lines.
abbrev pub Lines : Type 0
Lines = List (ℕ × Bytes)

abbrev pub body_lines : Bytes → Lines → List Bytes
body_lines indent [] = []
body_lines indent ((n, l) ∷ ls) = replicate n [] ++ ((indent ++ l) ∷ body_lines indent ls)

-- Their text: a newline before a line, and one more if there were blank lines.
abbrev pub body_text : Lines → Bytes
body_text [] = []
body_text ((n, l) ∷ ls) = (10 ∷ (if ltb 0 n then 10 ∷ [] else [])) ++ (l ++ body_text ls)

strip-own_prefix : (p s : Bytes) → strip_prefix p (p ++ s) ≡ some s
unfolding strip_prefix
strip-own_prefix [] s = refl
strip-own_prefix (c ∷ p) s =
    let t : (c == c) ≡ true = ground arith in rw (t, strip_prefix) (strip-own_prefix p s)

trim_own_prefix : (p s : Bytes) → trim_prefix p (p ++ s) ≡ s
unfolding trim_prefix
trim_own_prefix p s = rw (strip-own_prefix p s, trim_prefix) refl

trim_no_text : (p : Bytes) → trim_prefix p [] ≡ []
unfolding trim_prefix strip_prefix
trim_no_text [] = refl
trim_no_text (c ∷ p) = refl

module _ (trim_right : Bytes → Bytes) (indent : Bytes) (no_text : trim_right [] ≡ []) where
  -- A line with text that `TrimRightFunc` leaves as it is.
  pub record IsText (nl : ℕ × Bytes) : Type 0 where
    pub some_text : nl.1 ≢ []
    pub trimmed : trim_right (indent ++ nl.1) ≡ indent ++ nl.1

  -- Blank lines are counted.
  blank_lines :
      (n : ℕ) (m : BodyParts) (ls : List Bytes)
      → body_loop trim_right indent false m (replicate n [] ++ ls)
        ≡ body_loop trim_right indent false (record m { empty = m.empty + n }) ls
  unfolding body_loop take_body_line equal
  blank_lines zero m ls =
      let e : m.empty ≡ m.empty + 0 = omega arith in
      ap (λ k. body_loop trim_right indent false (record m { empty = k }) ls) e
  blank_lines (suc n) m ls =
      let blank : trim_prefix indent (trim_right []) ≡ [] =
        ap (trim_prefix indent) no_text ∙ trim_no_text indent in
      let e : m.empty + 1 + n ≡ m.empty + suc n = omega arith in
      ap (λ l. body_loop trim_right indent false (take_body_line false m l) (replicate n [] ++ ls))
        blank
      ∙ blank_lines n (record m { empty = m.empty + 1 }) ls
      ∙ ap (λ k. body_loop trim_right indent false (record m { empty = k }) ls) e

  text_line :
      (b l : Bytes) (e : ℕ)
      → l ≢ []
      → take_body_line false (record { body = b; appendix = []; in_appendix = false; empty = e }) l
        ≡ record { body = add_text b e l; appendix = []; in_appendix = false; empty = 0 }
  unfolding take_body_line
  text_line b l e h = elim (Bool-cases (equal l [])) [
    | inl t ↦ absurd (h ((equal_iff l []).0 t))
    | inr t ↦ rw t refl
  ]

  line_round :
      (n : ℕ) (b l : Bytes) (ls : List Bytes)
      → IsText (n, l)
      → body_loop trim_right indent false
          (record { body = b; appendix = []; in_appendix = false; empty = 0 })
          (replicate n [] ++ ((indent ++ l) ∷ ls))
        ≡ body_loop trim_right indent false
            (record { body = add_text b n l; appendix = []; in_appendix = false; empty = 0 })
            ls
  unfolding body_loop
  line_round n b l ls h =
      let e : 0 + n ≡ n = omega arith in
      let m : BodyParts = record { body = b; appendix = []; in_appendix = false; empty = 0 } in
      let counted : BodyParts = record m { empty = n } in
      blank_lines n m ((indent ++ l) ∷ ls)
      ∙ ap
          (λ k.
            body_loop trim_right indent false
              (record { body = b; appendix = []; in_appendix = false; empty = k })
              ((indent ++ l) ∷ ls))
          e
      ∙ ap (λ x. body_loop trim_right indent false (take_body_line false counted x) ls)
          (ap (trim_prefix indent) h.trimmed ∙ trim_own_prefix indent l)
      ∙ ap (λ x. body_loop trim_right indent false x ls) (text_line b l n h.some_text)

  add_text-some : (b l : Bytes) (e : ℕ) → l ≢ [] → ltb 0 (length (add_text b e l)) ≡ true
  add_text-some b [] e h = absurd (h refl)
  add_text-some b (c ∷ l) e h =
      let front = b ++ (if ltb 0 (length b) then 10 ∷ (if ltb 0 e then 10 ∷ [] else []) else []) in
      ground (arith, length-append front (c ∷ l))

  body_loop-lines :
      (ls : Lines) (b : Bytes)
      → All IsText ls
      → ltb 0 (length b) ≡ true
      → body_loop trim_right indent false
          (record { body = b; appendix = []; in_appendix = false; empty = 0 })
          (body_lines indent ls)
        ≡ record { body = b ++ body_text ls; appendix = []; in_appendix = false; empty = 0 }
  body_loop-lines [] b h k =
      let done : BodyParts = record { body = b; appendix = []; in_appendix = false; empty = 0 } in
      let none_left : body_loop trim_right indent false done [] ≡ done = unfold body_loop in refl in
      none_left ∙ ap (λ x. record done { body = x }) (sym (append-nil b))
  body_loop-lines ((n, l) ∷ ls) b (h, hs) k =
      let done : BodyParts = record { body = b; appendix = []; in_appendix = false; empty = 0 } in
      let ends = 10 ∷ (if ltb 0 n then 10 ∷ [] else []) in
      let text : add_text b n l ++ body_text ls ≡ b ++ body_text ((n, l) ∷ ls) =
        rw k
          (append_assoc (b ++ ends) l (body_text ls) ∙ append_assoc b ends (l ++ body_text ls)) in
      line_round n b l (body_lines indent ls) h
      ∙ body_loop-lines ls (add_text b n l) hs (add_text-some b l n h.some_text)
      ∙ ap (λ x. record done { body = x }) text

  -- `scanMessageBody` without an appendix, on lines that each have the indent and a text behind
  -- it that `TrimRightFunc` leaves as it is, gives these texts with a newline between two of them, and
  -- one more where there were blank lines, however many; those in front are dropped.
  pub scan_message_body-body_lines :
      (n : ℕ) (l : Bytes) (ls : Lines)
      → IsText (n, l)
      → All IsText ls
      → scan_message_body trim_right (body_lines indent ((n, l) ∷ ls)) indent false
        ≡ (l ++ body_text ls, [])
  unfolding scan_message_body
  scan_message_body-body_lines n l ls h hs =
      ap (λ m. (m.body, m.appendix))
        (line_round n [] l (body_lines indent ls) h
          ∙ body_loop-lines ls (add_text [] n l) hs (add_text-some [] l n h.some_text))
