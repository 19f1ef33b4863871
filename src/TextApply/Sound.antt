-- ===== src/TextApply/Sound.antt =====
-- gitdiff/apply_text.go: what `ApplyFragment` has done when it returns no error.
use go_gitdiff.Base.{
  ℕ, zero, suc, ◌+◌, ◌-◌, ◌≤◌, ◌≡◌, ◌≢◌, refl, ap, ◌∙◌, Bool, true, false, Option, none, some, List,
  [], ◌∷◌, ◌++◌, append_assoc, Bytes, take, drop, ltb, if◌then◌else◌, arith, Bool-cases,
  Option-cases, inl, inr,
}
use go_gitdiff.Base.Int.{ℤ, pos}
use go_gitdiff.Errors.{Error, Failure, plain, Place, apply_error}
use go_gitdiff.Io.{ReaderAt, Writer, Appends, is_len}
use go_gitdiff.Io.Copy.{drop-drop}
use go_gitdiff.Fragment.{TextFragment, is_old, is_new, is_zero, validate}
use go_gitdiff.Fragment.Consistent.{count, IsConsistent, validate-IsConsistent}
use go_gitdiff.TextApply.{
  LineReaderAt, TextApplier, Written, frag_start, span, creation_answer, finish_fragment,
  change_lines, apply_preimage, apply_valid, to_count, apply_checked, apply_when, apply_fragment,
  copy_leading, apply_lines,
}
use go_gitdiff.TextApply.Lines.{
  ReadsLines, read_lines_whole, joined, side, copy_leading_sound, apply_lines_sound,
}

-- A position counts lines from 1, and `frag_start` is the number of lines before it.
abbrev pub IsPlaced : ℤ → Type 0
IsPlaced p = (n : ℕ) → p ≡ pos (suc n) → frag_start p ≡ n

pub frag_start-IsPlaced : (p : ℤ) → IsPlaced p
unfolding frag_start
frag_start-IsPlaced p n e = ap frag_start e ∙ omega arith

-- The fragment `f` has been applied to the lines `src` by an applier that was in state `a`: it does
-- not reach back before the lines done, its old side is what stands at its position, and the writer
-- has been given the lines before it and its new side.
pub record Applied {W : Type 0} (contents : W → Bytes) (src : List Bytes) (a : TextApplier W)
    (f : TextFragment) (b : TextApplier W) : Type 0 where
  pub placed : IsPlaced f.old_position
  pub in_order : a.next_line ≤ frag_start f.old_position
  pub matched :
      side is_old f.lines ≡ take (count is_old f.lines) (drop (frag_start f.old_position) src)
  pub wrote :
      contents b.dst
      ≡ contents a.dst
        ++ (joined (take (frag_start f.old_position - a.next_line) (drop a.next_line src))
            ++ joined (side is_new f.lines))
  pub next : b.next_line ≡ frag_start f.old_position + count is_old f.lines
  pub still_open : b.closed ≡ false
  pub dirtied : b.dirty ≡ true

-- An error stays an error when it is annotated.
pub apply_error-some : (e : Failure) (ps : List Place) → apply_error (some e) ps ≢ none
unfolding apply_error
apply_error-some e ps h = cc

-- Dropping and taking inside what was taken.
module _ {ℓ} {A : Type ℓ} where
  take-take : (m n : ℕ) (xs : List A) → take m (take (m + n) xs) ≡ take m xs
  take-take zero n xs = refl
  take-take (suc m) n [] = let e : suc m + n ≡ suc (m + n) = omega arith in rw e refl
  take-take (suc m) n (x ∷ xs) =
      let e : suc m + n ≡ suc (m + n) = omega arith in rw e (ap (◌∷◌ x) (take-take m n xs))

  drop-take : (m n : ℕ) (xs : List A) → drop m (take (m + n) xs) ≡ take n (drop m xs)
  drop-take zero n xs = let e : 0 + n ≡ n = omega arith in rw e refl
  drop-take (suc m) zero [] = let e : suc m + 0 ≡ suc (m + 0) = omega arith in rw e refl
  drop-take (suc m) (suc n) [] = let e : suc m + suc n ≡ suc (m + suc n) = omega arith in rw e refl
  drop-take (suc m) n (x ∷ xs) =
      let e : suc m + n ≡ suc (m + n) = omega arith in rw e (drop-take m n xs)

  take-take_self : (n : ℕ) (xs : List A) → take n (take n xs) ≡ take n xs
  take-take_self zero xs = refl
  take-take_self (suc n) [] = refl
  take-take_self (suc n) (x ∷ xs) = ap (◌∷◌ x) (take-take_self n xs)

module _ {W : Type 0} (write : Writer W) (src : ReaderAt) (line_src : LineReaderAt)
    (contents : W → Bytes) (lines : List Bytes) (appends : Appends write contents)
    (reads : ReadsLines line_src lines) where
  finish_fragment_sound :
      (a : TextApplier W) (f : TextFragment) (from : ℕ) (r : Written W)
      → (finish_fragment write src line_src a f from r).1 ≡ none
      → (r.failed ≡ none)
        × ((finish_fragment write src line_src a f from r).0
            ≡ record a { dst = r.writer; next_line = from + r.used })
  unfolding finish_fragment
  finish_fragment_sound a f from r h = elim (Option-cases r.failed) [
    | inl fine ↦ (fine, rw fine)
    | inr (e, wrong) ↦ absurd (apply_error-some e _ (rw wrong at h))
  ]

  change_lines_sound :
      (a : TextApplier W) (f : TextFragment) (from : ℕ) (pre : List Bytes) (r : Written W)
      → (change_lines write src line_src a f from pre r).1 ≡ none
      → (r.failed ≡ none)
        × (change_lines write src line_src a f from pre r
            ≡ finish_fragment write src line_src a f from
                (apply_lines write r.writer pre 0 0 f.lines))
  unfolding change_lines
  change_lines_sound a f from pre r h = elim (Option-cases r.failed) [
    | inl fine ↦ (fine, rw fine)
    | inr (e, wrong) ↦ absurd (apply_error-some e _ (rw wrong at h))
  ]

  apply_preimage_sound :
      (a : TextApplier W) (f : TextFragment) (from : ℕ) (ls : List Bytes) (o : Option Error)
      → (apply_preimage write src line_src a f from (ls, o)).1 ≡ none
      → (o ≡ none)
        × (apply_preimage write src line_src a f from (ls, o)
            ≡ change_lines write src line_src a f from
                (drop (from - a.next_line) ls)
                (copy_leading write a.dst 0 (take (from - a.next_line) ls)))
  unfolding apply_preimage
  apply_preimage_sound a f from ls none h = (refl, refl)
  apply_preimage_sound a f from ls (some e) h = absurd (apply_error-some (plain e) _ h)

  span_sound : (from n start m : ℕ) → span from n start ≡ some m → m ≡ from + n - start
  unfolding span
  span_sound from n start m h = ground arith

  apply_valid_sound :
      (a : TextApplier W) (f : TextFragment) (n : ℕ)
      → (apply_valid write src line_src a f n).1 ≡ none
      → (a.next_line ≤ frag_start f.old_position)
        × ((m : ℕ) × (m ≡ frag_start f.old_position + n - a.next_line)
            × (apply_valid write src line_src a f n
                ≡ apply_preimage write src line_src a f
                    (frag_start f.old_position)
                    (line_src m a.next_line)))
  unfolding apply_valid
  apply_valid_sound a f n h =
      let from = frag_start f.old_position in
      let creation =
        if is_zero f.old_position then creation_answer (is_len src (pos 0)) else none in
      elim (Bool-cases (ltb from a.next_line)) [
        | inl back ↦ absurd (apply_error-some _ _ (rw back at h))
        | inr on ↦ elim (Option-cases creation) [
          | inr (e, wrong) ↦ cc (rw (on, wrong) at h)
          | inl fine ↦ elim (Option-cases (span from n a.next_line)) [
            | inl wraps ↦ cc (rw (on, fine, wraps) at h)
            | inr (m, room) ↦
                (ground arith, (m, span_sound from n a.next_line m room, rw (on, fine, room)))
          ]
        ]
      ]

  apply_checked_sound :
      (a : TextApplier W) (f : TextFragment) (o : Option Error)
      → (apply_checked write src line_src a (some f) o).1 ≡ none
      → (o ≡ none)
        × (apply_checked write src line_src a (some f) o
            ≡ apply_valid write src line_src a f (to_count f.old_lines))
  unfolding apply_checked
  apply_checked_sound a f none h = (refl, refl)
  apply_checked_sound a f (some e) h = absurd (apply_error-some (plain e) _ h)

  apply_when_sound :
      (c : Bool) (a : TextApplier W) (f : TextFragment)
      → (apply_when write src line_src c a (some f)).1 ≡ none
      → (c ≡ false)
        × (validate (some f) ≡ none)
        × (apply_when write src line_src c a (some f)
            ≡ apply_valid write src line_src (record a { dirty = true }) f (to_count f.old_lines))
  unfolding apply_when
  apply_when_sound true a f h = absurd (apply_error-some _ _ h)
  apply_when_sound false a f h =
      let (valid, runs) = apply_checked_sound (record a { dirty = true }) f (validate (some f)) h in
      (refl, valid, runs)

  -- The lines read for a fragment, split into those before it and those at it.
  split_preimage :
      (from n start m : ℕ)
      → start ≤ from
      → m ≡ from + n - start
      → (take (from - start) (take m (drop start lines)) ≡ take (from - start) (drop start lines))
        × (drop (from - start) (take m (drop start lines)) ≡ take n (drop from lines))
  split_preimage from n start m h e =
      let cut : m ≡ from - start + n = omega arith in
      let there : start + (from - start) ≡ from = omega arith in
      rw cut (
        take-take (from - start) n (drop start lines),
        drop-take (from - start) n (drop start lines)
            ∙ ap (take n) (drop-drop start (from - start) lines ∙ ap (λ k. drop k lines) there),
      )

  -- The writes and the comparisons, over the lines that were read.
  change_lines-Applied :
      (a : TextApplier W) (f : TextFragment) (n m : ℕ) (pre : List Bytes)
      → a.closed ≡ false
      → a.dirty ≡ true
      → a.next_line ≤ frag_start f.old_position
      → m ≡ frag_start f.old_position + n - a.next_line
      → n ≡ count is_old f.lines
      → pre ≡ take m (drop a.next_line lines)
      → (change_lines write src line_src a f
          (frag_start f.old_position)
          (drop (frag_start f.old_position - a.next_line) pre)
          (copy_leading write a.dst 0 (take (frag_start f.old_position - a.next_line) pre))).1
        ≡ none
      → Applied contents lines a f
          (change_lines write src line_src a f
            (frag_start f.old_position)
            (drop (frag_start f.old_position - a.next_line) pre)
            (copy_leading write a.dst 0 (take (frag_start f.old_position - a.next_line) pre))).0
  change_lines-Applied a f n m pre free dirty order e counted read h =
      let from = frag_start f.old_position in
      let before = take (from - a.next_line) pre in
      let at = drop (from - a.next_line) pre in
      let lead = copy_leading write a.dst 0 before in
      let (led, runs) = change_lines_sound a f from at lead h in
      let r = apply_lines write lead.writer at 0 0 f.lines in
      let (fine, ends) = finish_fragment_sound a f from r (rw runs at h) in
      let went = apply_lines_sound write contents appends f.lines lead.writer at 0 0 fine in
      let (front, back) = split_preimage from n a.next_line m order e in
      let old_part : at ≡ take n (drop from lines) = ap (drop (from - a.next_line)) read ∙ back in
      rw (runs, ends)
        (record {
          placed = frag_start-IsPlaced f.old_position;
          in_order = order;
          matched =
              went.matched
              ∙ ap (take (count is_old f.lines)) old_part
              ∙ rw (← counted) (take-take_self n (drop from lines));
          wrote =
              went.wrote
              ∙ ap (λ x. x ++ joined (side is_new f.lines))
                  (copy_leading_sound write contents appends before a.dst 0 led)
              ∙ append_assoc (contents a.dst) (joined before) _
              ∙ ap (λ x. contents a.dst ++ (joined x ++ joined (side is_new f.lines)))
                  (ap (take (from - a.next_line)) read ∙ front);
          next = ap (λ k. from + k) (went.passed ∙ omega arith);
          still_open = free;
          dirtied = dirty;
        })

  apply_valid-Applied :
      (a : TextApplier W) (f : TextFragment) (n : ℕ)
      → a.closed ≡ false
      → a.dirty ≡ true
      → n ≡ count is_old f.lines
      → (apply_valid write src line_src a f n).1 ≡ none
      → Applied contents lines a f (apply_valid write src line_src a f n).0
  apply_valid-Applied a f n free dirty counted h =
      let (order, found) = apply_valid_sound a f n h in
      let h2 = rw found.2 at h in
      let pre = line_src found.0 a.next_line in
      let (fine, runs) = apply_preimage_sound a f (frag_start f.old_position) pre.0 pre.1 h2 in
      rw (found.2, runs)
        (change_lines-Applied a f n found.0 pre.0 free dirty order found.1 counted
          (read_lines_whole line_src lines found.0 a.next_line reads fine) (rw runs at h2))

  -- Over a writer and a line reader that keep to their documentation, an `ApplyFragment` that
  -- returns no error had an open applier and a consistent fragment, and has applied it.
  pub apply_fragment-Applied :
      (a : TextApplier W) (f : TextFragment)
      → (apply_fragment write src line_src a (some f)).1 ≡ none
      → (a.closed ≡ false)
        × IsConsistent f
        × Applied contents lines a f (apply_fragment write src line_src a (some f)).0
  unfolding apply_fragment
  apply_fragment-Applied a f h =
      let (free, valid, runs) = apply_when_sound a.closed a f h in
      let good = (validate-IsConsistent f).0 valid in
      let counted : to_count f.old_lines ≡ count is_old f.lines = ap to_count good.old in
      let done =
        apply_valid-Applied (record a { dirty = true }) f (to_count f.old_lines) free refl counted
          (rw runs at h) in
      (
        free,
        good,
        rw runs (record {
          placed = done.placed;
          in_order = done.in_order;
          matched = done.matched;
          wrote = done.wrote;
          next = done.next;
          still_open = done.still_open;
          dirtied = done.dirtied;
        }),
      )
