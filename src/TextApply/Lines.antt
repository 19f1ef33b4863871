-- ===== src/TextApply/Lines.antt =====
-- gitdiff/apply_text.go: the loops of `ApplyFragment`, which write lines and compare them.
use go_gitdiff.Base.{
  ℕ, zero, suc, ◌+◌, ◌<◌, ◌≤◌, ◌≡◌, refl, sym, ap, ◌∙◌, Bool, true, Option, none, some, List, [],
  ◌∷◌, ◌++◌, append-nil, append_assoc, Bytes, length, get_elem?, take, drop, length-drop, leb, ◌||◌,
  ◌==◌, equal_iff, if◌then◌else◌, arith, Bool-cases, ltb-cases, Option-cases, inl, inr,
}
use go_gitdiff.Errors.{Error, eof}
use go_gitdiff.Io.{Writer, Appends}
use go_gitdiff.Io.Laws.{take_all}
use go_gitdiff.Fragment.{LineOp, Line, is_old, is_new}
use go_gitdiff.Fragment.Consistent.{count}
use go_gitdiff.TextApply.{
  LineReaderAt, Written, plainly, copy_leading, match_line, apply_text_line, apply_lines,
}

-- The documented behaviour of a `LineReaderAt` over the lines `ls` of a source.
pub record ReadsLines (read : LineReaderAt) (ls : List Bytes) : Type 0 where
  pub inside : (n off : ℕ) → off + n ≤ length ls → read n off ≡ (take n (drop off ls), none)
  pub beyond : (n off : ℕ) → 0 < n → length ls < off + n → read n off ≡ (drop off ls, some eof)
  pub nothing : (off : ℕ) → read 0 off ≡ ([], none)

-- A line reader over a list of lines.
abbrev pub lines_of : List Bytes → LineReaderAt
lines_of ls n off =
    (take n (drop off ls), if leb (off + n) (length ls) || n == 0 then none else some eof)

pub lines_of-ReadsLines : (ls : List Bytes) → ReadsLines (lines_of ls) ls
lines_of-ReadsLines ls = record {
  inside = λ n off h. ground arith;
  beyond = λ n off h k. ground (arith, take_all n (drop off ls), length-drop off ls);
  nothing = λ off. ground arith;
}

-- Without an error the lines asked for are read.
pub read_lines_whole :
    (read : LineReaderAt) (ls : List Bytes) (n off : ℕ)
    → ReadsLines read ls
    → (read n off).1 ≡ none
    → (read n off).0 ≡ take n (drop off ls)
read_lines_whole read ls zero off law h = ap (λ r. r.0) (law.nothing off)
read_lines_whole read ls (suc n) off law h = elim (ltb-cases (length ls) (off + suc n)) [
  | inl p ↦ cc (ap (λ r. r.1) (law.beyond (suc n) off (omega arith) p))
  | inr q ↦ ap (λ r. r.0) (law.inside (suc n) off q)
]

abbrev pub joined : List Bytes → Bytes
joined [] = []
joined (l ∷ ls) = l ++ joined ls

pub joined-append : (ls ms : List Bytes) → joined (ls ++ ms) ≡ joined ls ++ joined ms
joined-append [] ms = refl
joined-append (l ∷ ls) ms = rw (joined-append ls ms) (sym (append_assoc l (joined ls) (joined ms)))

-- The lines of a side of a fragment.
abbrev pub side : (LineOp → Bool) → List Line → List Bytes
side test [] = []
side test (l ∷ ls) = if test l.op then l.line ∷ side test ls else side test ls

drop-get_elem? :
    {A : Type 0} (xs : List A) (i : ℕ) (x : A)
    → get_elem? xs i ≡ some x
    → drop i xs ≡ x ∷ drop (i + 1) xs
drop-get_elem? [] i x h = cc
drop-get_elem? (y ∷ xs) zero x h = ap (λ z. z ∷ xs) (ground arith)
drop-get_elem? (y ∷ xs) (suc i) x h =
    drop-get_elem? xs i x h
    ∙ ap (λ k. x ∷ drop k (y ∷ xs)) (let e : suc (i + 1) ≡ suc i + 1 = omega arith in e)

match_line_sound : (text : Bytes) (o : Option Bytes) → match_line text o ≡ none → o ≡ some text
unfolding match_line
match_line_sound text none h = cc
match_line_sound text (some old) h = ground (arith, equal_iff old text)

plainly-none : (o : Option Error) → plainly o ≡ none → o ≡ none
plainly-none none h = refl
plainly-none (some e) h = cc

-- The lines of the old side stand in the preimage from `i` on.
abbrev pub Matches : List Line → List Bytes → ℕ → Type 0
Matches ls preimage i = side is_old ls ≡ take (count is_old ls) (drop i preimage)

module _ {W : Type 0} (write : Writer W) (contents : W → Bytes)
    (appends : Appends write contents) where
  pub copy_leading_sound :
      (ls : List Bytes) (w : W) (i : ℕ)
      → (copy_leading write w i ls).failed ≡ none
      → contents (copy_leading write w i ls).writer ≡ contents w ++ joined ls
  unfolding copy_leading
  copy_leading_sound [] w i h = sym (append-nil (contents w))
  copy_leading_sound (l ∷ ls) w i h = elim (Option-cases (write w l).2) [
    | inl fine ↦
        rw (fine, copy_leading)
          (copy_leading_sound ls (write w l).0 (i + 1) (rw (fine, copy_leading) at h)
            ∙ ap (λ x. x ++ joined ls) (appends.grows w l fine)
            ∙ append_assoc (contents w) l (joined ls))
    | inr (e, wrong) ↦ cc (rw (wrong, copy_leading) at h)
  ]

  -- A line that is applied with no error is the one in the preimage if it is old, and is written if
  -- it is new.
  old_line_matches :
      (op : LineOp) (text : Bytes) (w : W) (preimage : List Bytes) (i : ℕ)
      → (apply_text_line write w (record { op = op; line = text }) preimage i).1 ≡ none
      → is_old op ≡ true
      → get_elem? preimage i ≡ some text
  unfolding apply_text_line
  old_line_matches op text w preimage i h old =
      ground (arith, match_line_sound text (get_elem? preimage i))

  new_line_written :
      (op : LineOp) (text : Bytes) (w : W) (preimage : List Bytes) (i : ℕ)
      → (apply_text_line write w (record { op = op; line = text }) preimage i).1 ≡ none
      → contents (apply_text_line write w (record { op = op; line = text }) preimage i).0
        ≡ contents w ++ (if is_new op then text else [])
  unfolding apply_text_line
  new_line_written op text w preimage i h =
      ground (arith, plainly-none (write w text).2, appends.grows w text, append-nil (contents w))

  -- What a loop with no error has compared and written, and how many old lines it has passed.
  pub record Went (ls : List Line) (preimage : List Bytes) (used : ℕ) (w : W) (r : Written W)
      : Type 0 where
    pub passed : r.used ≡ used + count is_old ls
    pub matched : Matches ls preimage used
    pub wrote : contents r.writer ≡ contents w ++ joined (side is_new ls)

  Went-cons :
      (op : LineOp) (text : Bytes) (ls : List Line) (preimage : List Bytes) (used : ℕ) (w w' : W)
      (r : Written W)
      → (is_old op ≡ true → get_elem? preimage used ≡ some text)
      → contents w' ≡ contents w ++ (if is_new op then text else [])
      → Went ls preimage (if is_old op then used + 1 else used) w' r
      → Went (record { op = op; line = text } ∷ ls) preimage used w r
  Went-cons op text ls preimage used w w' r old new g = record {
    passed = ground (arith, g.passed);
    matched = elim (Bool-cases (is_old op)) [
      | inl yes_old ↦
          let here = drop-get_elem? preimage used text (old yes_old) in
          let there : Matches ls preimage (used + 1) = rw yes_old at g.matched in
          let one : 1 + count is_old ls ≡ suc (count is_old ls) = omega arith in
          rw (yes_old, here) (rw one (ap (◌∷◌ text) there))
      | inr not_old ↦
          let there : Matches ls preimage used = rw not_old at g.matched in
          let same : 0 + count is_old ls ≡ count is_old ls = omega arith in
          rw not_old (rw same there)
    ];
    wrote = elim (Bool-cases (is_new op)) [
      | inl yes_new ↦ rw yes_new (
          g.wrote
          ∙ ap (λ x. x ++ joined (side is_new ls)) (rw yes_new at new)
          ∙ append_assoc (contents w) text (joined (side is_new ls)))
      | inr not_new ↦ rw not_new (
          g.wrote
          ∙ ap (λ x. x ++ joined (side is_new ls)) (rw not_new at new)
          ∙ ap (λ x. x ++ joined (side is_new ls)) (append-nil (contents w)))
    ];
  }

  pub apply_lines_sound :
      (ls : List Line) (w : W) (preimage : List Bytes) (used i : ℕ)
      → (apply_lines write w preimage used i ls).failed ≡ none
      → Went ls preimage used w (apply_lines write w preimage used i ls)
  unfolding apply_lines
  apply_lines_sound [] w preimage used i h = record {
    passed = omega arith;
    matched = refl;
    wrote = sym (append-nil (contents w));
  }
  apply_lines_sound (l ∷ ls) w preimage used i h =
      let r = apply_text_line write w l preimage used in
      elim (Option-cases r.1) [
        | inl fine ↦
            let used' = if is_old l.op then used + 1 else used in
            rw (fine, apply_lines)
              (Went-cons l.op l.line ls preimage used w r.0
                (apply_lines write r.0 preimage used' (i + 1) ls)
                (old_line_matches l.op l.line w preimage used fine)
                (new_line_written l.op l.line w preimage used fine)
                (apply_lines_sound ls r.0 preimage used' (i + 1) (rw (fine, apply_lines) at h)))
        | inr (e, wrong) ↦ cc (rw (wrong, apply_lines) at h)
      ]
