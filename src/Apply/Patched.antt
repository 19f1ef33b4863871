-- ===== src/Apply/Patched.antt =====
-- gitdiff/apply.go: what `Apply` has written when it returns no error.
use go_gitdiff.Base.{
  ℕ, ◌+◌, ◌-◌, ◌≤◌, ◌≡◌, ◌≢◌, refl, ap, ◌∙◌, Bool, true, false, Option, none, some, List, [], ◌∷◌,
  ◌++◌, append_assoc, Bytes, take, drop, Option-cases, inl, inr,
}
use mathlib.Core.List.{Perm}
use mathlib.Core.List.Perm
use go_gitdiff.Errors.{Error, message, Failure, plain, frag_num, apply_error}
use go_gitdiff.Io.{ReaderAt, Writer, Appends}
use go_gitdiff.Fragment.{TextFragment, is_old, is_new}
use go_gitdiff.Fragment.Consistent.{count, IsConsistent}
use go_gitdiff.TextApply.{LineReaderAt, TextApplier, new_text_applier, frag_start, apply_fragment}
use go_gitdiff.TextApply.Lines.{ReadsLines, joined, side}
use go_gitdiff.TextApply.Sound.{IsPlaced, apply_fragment-Applied, apply_error-some}
use go_gitdiff.TextApply.Rest.{close_sound}
use go_gitdiff.BinaryApply.{BinaryFragment}
use go_gitdiff.Apply.{
  File, Sorts, refused, check_kind, apply_checked_kind, unwrapped, apply_all, close_after,
  apply_kind, apply,
}

-- The lines `lines` from `start` on, with the old side of each fragment replaced by its new side.
abbrev pub patched : List Bytes → ℕ → List TextFragment → Bytes
patched lines start [] = joined (drop start lines)
patched lines start (f ∷ fs) =
    let from = frag_start f.old_position in
    joined (take (from - start) (drop start lines))
    ++ (joined (side is_new f.lines) ++ patched lines (from + count is_old f.lines) fs)

-- The fragments are consistent, stand one behind the other from `start` on, and each has for its old
-- side the lines at its position, which counts from 1.
abbrev pub Match : List Bytes → ℕ → List TextFragment → Type 0
Match lines start [] = Unit
Match lines start (f ∷ fs) =
    IsConsistent f
    × IsPlaced f.old_position
    × (start ≤ frag_start f.old_position)
    × (side is_old f.lines ≡ take (count is_old f.lines) (drop (frag_start f.old_position) lines))
    × Match lines (frag_start f.old_position + count is_old f.lines) fs

module _ {W : Type 0} (write : Writer W) (src : ReaderAt) (line_src : LineReaderAt)
    (sort : List TextFragment → List TextFragment) (fuel : ℕ) (contents : W → Bytes)
    (lines : List Bytes) (appends : Appends write contents)
    (reads : ReadsLines line_src lines) where
  -- The fragments and the close behind them.
  abbrev run : TextApplier W → ℕ → List TextFragment → W × Option Failure
  run a i fs =
      close_after write src line_src sort fuel (apply_all write src line_src sort fuel a i fs)

  unwrapped-none : (o : Option Error) → unwrapped o ≡ none → o ≡ none
  unwrapped-none none h = refl
  unwrapped-none (some e) h = cc

  apply_all_more :
      (a : TextApplier W) (i : ℕ) (f : TextFragment) (fs : List TextFragment)
      → (apply_fragment write src line_src a (some f)).1 ≡ none
      → apply_all write src line_src sort fuel a i (f ∷ fs)
        ≡ apply_all write src line_src sort fuel
            (apply_fragment write src line_src a (some f)).0
            (i + 1)
            fs
  unfolding apply_all
  apply_all_more a i f fs h = rw (h, apply_all)

  apply_all_fails :
      (a : TextApplier W) (i : ℕ) (f : TextFragment) (fs : List TextFragment) (e : Failure)
      → (apply_fragment write src line_src a (some f)).1 ≡ some e
      → (run a i (f ∷ fs)).1 ≢ none
  unfolding apply_all close_after apply_error
  apply_all_fails a i f fs e h k = apply_error-some e (frag_num i ∷ []) (rw (h, apply_all) at k)

  run_nil_sound :
      (a : TextApplier W) (i : ℕ)
      → a.closed ≡ false
      → a.dirty ≡ true
      → (run a i []).1 ≡ none
      → contents (run a i []).0 ≡ contents a.dst ++ patched lines a.next_line []
  unfolding apply_all close_after
  run_nil_sound a i free used h =
      close_sound write line_src contents lines appends reads src fuel a free used
        (unwrapped-none _ h)

  -- The applier is open, at line `start`, and has been used if no fragment is left.
  run_sound :
      (fs : List TextFragment) (a : TextApplier W) (i start : ℕ)
      → a.closed ≡ false
      → (fs ≡ [] → a.dirty ≡ true)
      → a.next_line ≡ start
      → (run a i fs).1 ≡ none
      → Match lines start fs × (contents (run a i fs).0 ≡ contents a.dst ++ patched lines start fs)
  run_sound [] a i start free used e h = (tt, rw (← e) (run_nil_sound a i free (used refl) h))
  run_sound (f ∷ fs) a i start free used e h =
      let r = apply_fragment write src line_src a (some f) in
      elim (Option-cases r.1) [
        | inr (err, wrong) ↦ absurd (apply_all_fails a i f fs err wrong h)
        | inl fine ↦
            let (was_open, good, done) =
              apply_fragment-Applied write src line_src contents lines appends reads a f fine in
            let next = frag_start f.old_position + count is_old f.lines in
            let go = ap (close_after write src line_src sort fuel) (apply_all_more a i f fs fine) in
            let (later, rest) =
              run_sound fs r.0 (i + 1) next done.still_open (λ none_left. done.dirtied) done.next
                (rw go at h) in
            (
              (good, done.placed, rw (← e) done.in_order, done.matched, later),
              rw go (
                  rest
                  ∙ ap (λ x. x ++ patched lines next fs) done.wrote
                  ∙ append_assoc (contents a.dst) _ _
                  ∙ ap (λ x. contents a.dst ++ x)
                      (append_assoc
                        (joined
                          (take (frag_start f.old_position - a.next_line) (drop a.next_line lines)))
                        (joined (side is_new f.lines)) (patched lines next fs))
                  ∙ ap (λ s. contents a.dst ++ patched lines s (f ∷ fs)) e),
            )
      ]

  refused_kind : (msg : Bytes) → refused msg ≢ none
  refused_kind msg = apply_error-some (plain (message msg)) []

  apply_text_runs :
      (w : W) (c : Bool) (g : TextFragment) (gs : List TextFragment)
      → (apply_checked_kind write src line_src sort fuel w
          (check_kind c (g ∷ gs) none)
          (g ∷ gs)
          none).1
        ≡ none
      → apply_checked_kind write src line_src sort fuel w (check_kind c (g ∷ gs) none) (g ∷ gs) none
        ≡ run (new_text_applier w) 0 (sort (g ∷ gs))
  unfolding apply_checked_kind check_kind apply_kind apply_error
  apply_text_runs w true g gs h = cc
  apply_text_runs w false g gs h = refl

  none_lost : (g : TextFragment) (gs : List TextFragment) → Perm [] (g ∷ gs) → ⊥
  none_lost g gs p = let e = Perm.nil-eq p in cc (e)

  apply_fields :
      (w : W) (f : File) (fs : List TextFragment) (b : Option BinaryFragment)
      → f.text_fragments ≡ fs
      → f.binary_fragment ≡ b
      → apply write src line_src sort fuel w f
        ≡ apply_checked_kind write src line_src sort fuel w (check_kind f.is_binary fs b) fs b
  unfolding apply
  apply_fields w f fs b p q = λ i.
      apply_checked_kind write src line_src sort fuel w (check_kind f.is_binary (p i) (q i)) (p i)
        (q i)

  -- Over a writer and a line reader that keep to their documentation, an `Apply` of a text file with
  -- fragments that returns no error has found the fragments, sorted by their old position, to be
  -- consistent, in order and matching the source, and has written the source with the old side of
  -- each replaced by its new side.
  pub apply-patched :
      (w : W) (f : File) (g : TextFragment) (gs : List TextFragment)
      → Sorts sort (g ∷ gs)
      → f.text_fragments ≡ g ∷ gs
      → f.binary_fragment ≡ none
      → (apply write src line_src sort fuel w f).1 ≡ none
      → Match lines 0 (sort (g ∷ gs))
        × (contents (apply write src line_src sort fuel w f).0
            ≡ contents w ++ patched lines 0 (sort (g ∷ gs)))
  apply-patched w f g gs sorts fragments text h =
      let plan = sort (g ∷ gs) in
      let nonempty = λ (none_left : plan ≡ []). none_lost g gs (rw none_left at sorts.same) in
      let same = apply_fields w f (g ∷ gs) none fragments text in
      let h' = rw same at h in
      let runs = apply_text_runs w f.is_binary g gs h' in
      rw (same, runs)
        (run_sound plan (new_text_applier w) 0 0 refl (λ none_left. absurd (nonempty none_left))
          refl (rw runs at h'))
