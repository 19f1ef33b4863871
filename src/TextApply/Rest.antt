-- ===== src/TextApply/Rest.antt =====
-- gitdiff/io.go: what `copyLinesFrom` has written when it reports no error.
use go_gitdiff.Base.{
  ℕ, zero, suc, ◌+◌, ◌<◌, ◌≡◌, refl, sym, ap, ◌∙◌, Bool, true, false, Option, none, some, List, [],
  ◌∷◌, ◌++◌, append-nil, append_assoc, Bytes, length, length-take, length-drop, take, drop,
  take-append-drop, ◌==◌, arith, Bool-cases, ltb-cases, Option-cases, inl, inr,
}
use go_gitdiff.Errors.{Error, eof}
use go_gitdiff.Io.{ReaderAt, Writer, Appends, copy_end}
use go_gitdiff.Io.Copy.{drop-drop}
use go_gitdiff.TextApply.{
  LineReaderAt, TextApplier, close, line_buffer_size, copy_lines, copy_lines_end, resume,
  copy_lines_from,
}
use go_gitdiff.TextApply.Lines.{ReadsLines, joined, joined-append}

module _ {W : Type 0} (write : Writer W) (line_src : LineReaderAt) (contents : W → Bytes)
    (lines : List Bytes) (appends : Appends write contents)
    (reads : ReadsLines line_src lines) where
  copy_lines_sound :
      (ls : List Bytes) (w : W) (written : ℕ)
      → (copy_lines write w written ls).2 ≡ none
      → contents (copy_lines write w written ls).0 ≡ contents w ++ joined ls
  unfolding copy_lines
  copy_lines_sound [] w written h = sym (append-nil (contents w))
  copy_lines_sound (l ∷ ls) w written h = elim (Option-cases (write w l).2) [
    | inr (e, wrong) ↦ cc (rw (wrong, copy_lines) at h)
    | inl fine ↦ elim (Bool-cases (length l == (write w l).1)) [
      | inr short ↦ cc (rw (fine, short, copy_lines) at h)
      | inl whole ↦
          rw (fine, whole, copy_lines)
            (copy_lines_sound ls (write w l).0 _ (rw (fine, whole, copy_lines) at h)
              ∙ ap (λ x. x ++ joined ls) (appends.grows w l fine)
              ∙ append_assoc (contents w) l (joined ls))
    ]
  ]

  -- The rest of the source, from a place inside it.
  joined_from :
      (off n : ℕ)
      → joined (take n (drop off lines)) ++ joined (drop (off + n) lines) ≡ joined (drop off lines)
  joined_from off n =
      sym (joined-append (take n (drop off lines)) (drop (off + n) lines))
      ∙ ap (λ x. joined (take n (drop off lines) ++ x)) (sym (drop-drop off n lines))
      ∙ ap joined (take-append-drop n (drop off lines))

  -- One round, by the result of its inner loop and the error of its read.
  round_fine :
      (next : W → ℕ → ℕ → W × ℕ × Option Error) (r : W × ℕ × Option Error) (off : ℕ)
      (rerr : Option Error)
      → (resume next (copy_lines_end off rerr r)).2 ≡ none
      → r.2 ≡ none
  unfolding copy_lines_end resume
  round_fine next (w, written, none) off rerr h = refl
  round_fine next (w, written, some e) off rerr h = cc

  round_again :
      (next : W → ℕ → ℕ → W × ℕ × Option Error) (r : W × ℕ × Option Error) (off : ℕ)
      → r.2 ≡ none
      → resume next (copy_lines_end off none r) ≡ next r.0 r.1 off
  unfolding copy_lines_end copy_end resume
  round_again next (w, written, none) off h = refl
  round_again next (w, written, some e) off h = cc

  round_last :
      (next : W → ℕ → ℕ → W × ℕ × Option Error) (r : W × ℕ × Option Error) (off : ℕ)
      → r.2 ≡ none
      → resume next (copy_lines_end off (some eof) r) ≡ r
  unfolding copy_lines_end copy_end resume
  round_last next (w, written, none) off h = refl
  round_last next (w, written, some e) off h = cc

  pub copy_lines_from_sound :
      (size fuel : ℕ) (w : W) (written off : ℕ)
      → 0 < size
      → (copy_lines_from write line_src size fuel w written off).2 ≡ none
      → contents (copy_lines_from write line_src size fuel w written off).0
        ≡ contents w ++ joined (drop off lines)
  unfolding copy_lines_from
  copy_lines_from_sound size zero w written off hs h = cc
  copy_lines_from_sound size (suc fuel) w written off hs h =
      let next = copy_lines_from write line_src size fuel in
      elim (ltb-cases (length lines) (off + size)) [
        | inl over ↦
            let e = reads.beyond size off hs over in
            let r = copy_lines write w written (drop off lines) in
            let h' = rw e at h in
            let fine = round_fine next r (off + length (drop off lines)) (some eof) h' in
            rw (e, round_last next r (off + length (drop off lines)) fine)
              (copy_lines_sound (drop off lines) w written fine)
        | inr within ↦
            let ls = take size (drop off lines) in
            let e = reads.inside size off within in
            let r = copy_lines write w written ls in
            let h' = rw e at h in
            let fine = round_fine next r (off + length ls) none h' in
            let go = round_again next r (off + length ls) fine in
            rw (e, go)
              (copy_lines_from_sound size fuel r.0 r.1 (off + length ls) hs (rw go at h')
                ∙ ap (λ x. x ++ joined (drop (off + length ls) lines))
                    (copy_lines_sound ls w written fine)
                ∙ append_assoc (contents w) (joined ls) _
                ∙ ap (λ k. contents w ++ (joined ls ++ joined (drop (off + k) lines)))
                    (omega (arith, length-take size (drop off lines), length-drop off lines))
                ∙ ap (λ x. contents w ++ x) (joined_from off size))
      ]

  close_used :
      (src : ReaderAt) (fuel : ℕ) (w : W) (n : ℕ) (c d : Bool)
      → c ≡ false
      → d ≡ true
      → close write src line_src fuel (record { dst = w; next_line = n; closed = c; dirty = d }) ≡ (
        record {
          dst = (copy_lines_from write line_src line_buffer_size fuel w 0 n).0;
          next_line = n;
          closed = true;
          dirty = d;
        },
        (copy_lines_from write line_src line_buffer_size fuel w 0 n).2,
      )
  unfolding close
  close_used src fuel w n true d h k = cc
  close_used src fuel w n false true h k = refl
  close_used src fuel w n false false h k = cc

  -- `Close` on an open applier that has been used writes the lines behind the last fragment.
  pub close_sound :
      (src : ReaderAt) (fuel : ℕ) (a : TextApplier W)
      → a.closed ≡ false
      → a.dirty ≡ true
      → (close write src line_src fuel a).1 ≡ none
      → contents (close write src line_src fuel a).0.dst
        ≡ contents a.dst ++ joined (drop a.next_line lines)
  close_sound src fuel a free used h =
      let e = close_used src fuel a.dst a.next_line a.closed a.dirty free used in
      rw e
        (copy_lines_from_sound line_buffer_size fuel a.dst 0 a.next_line (omega arith) (rw e at h))
