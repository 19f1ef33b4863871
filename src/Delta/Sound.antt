-- ===== src/Delta/Sound.antt =====
-- gitdiff/apply_binary.go: a delta that applies without an error fits the sizes that it declares.
use Prim.Native.Nat.{bit_and}
use go_gitdiff.Base.{
  ℕ, zero, suc, ◌%◌, ◌^◌, ◌≡◌, refl, sym, ap, ◌∙◌, Bool, true, false, Option, none, some, [], ◌∷◌,
  ◌++◌, append-nil, append_assoc, Bytes, length, length-append, length-take, drop, take, ltb, ◌==◌,
  arith, Bool-cases, Option-cases, inl, inr,
}
use go_gitdiff.Base.Int.{pos}
use go_gitdiff.Errors.{Error}
use go_gitdiff.Io.{ReaderAt, Writer, ReadsAt, Appends, buffer}
use go_gitdiff.Io.Laws.{is_len_sound, read_whole, buffer_full}
use go_gitdiff.Delta.Run.{apply_delta_runs, apply_delta_refuses}
use go_gitdiff.Delta.{
  Done, Unpacked, after_write, copy_write, copy_unpacked, or_default, apply_add, apply_copy,
  apply_op, size_answer, sub64, delta_loop, apply_delta, read_size, check_src_size, signed64,
}

-- The operation wrote `amount` bytes and nothing else.
abbrev Wrote : {W : Type 0} → (W → Bytes) → W → Done W → Type 0
Wrote contents w r = (b : Bytes) × (contents r.writer ≡ contents w ++ b) × (length b ≡ r.amount)

module _ {W : Type 0} (write : Writer W) (read : ReaderAt) (contents : W → Bytes) (s : Bytes)
    (appends : Appends write contents) (reads : ReadsAt read s) where
  after_write-Wrote :
      (w : W) (n : ℕ) (rest b : Bytes)
      → length b ≡ n
      → (after_write n rest (write w b)).err ≡ none
      → Wrote contents w (after_write n rest (write w b))
  unfolding after_write
  after_write-Wrote w n rest b e h = (b, appends.grows w b h, e)

  apply_add-Wrote :
      (w : W) (op : ℕ) (delta : Bytes)
      → (apply_add write w op delta).err ≡ none
      → Wrote contents w (apply_add write w op delta)
  unfolding apply_add
  apply_add-Wrote w op delta h = elim (Bool-cases (ltb (length delta) op)) [
    | inl few ↦ cc (rw few at h)
    | inr enough ↦ rw enough (
        after_write-Wrote w op (drop op delta) (take op delta)
          (ground (arith, length-take op delta)) (rw enough at h))
  ]

  copy_write-Wrote :
      (w : W) (size : ℕ) (rest b : Bytes) (e : Option Error)
      → (e ≡ none → length b ≡ size)
      → (copy_write write w size rest (b, e)).err ≡ none
      → Wrote contents w (copy_write write w size rest (b, e))
  unfolding copy_write
  copy_write-Wrote w size rest b (some e) full h = cc
  copy_write-Wrote w size rest b none full h =
      after_write-Wrote w size rest (buffer size b)
        (ap length (buffer_full size b (full refl)) ∙ full refl) h

  copy_unpacked-Wrote :
      (w : W) (offset size : Unpacked)
      → (copy_unpacked write read w offset size).err ≡ none
      → Wrote contents w (copy_unpacked write read w offset size)
  unfolding copy_unpacked
  copy_unpacked-Wrote w offset size h = ground (arith, source)
    where
      source :
          (copy_write write w
              (or_default size.value)
              size.rest
              (read (or_default size.value) offset.value)).err
            ≡ none
          → Wrote contents w (
              copy_write write w
                (or_default size.value)
                size.rest
                (read (or_default size.value) offset.value))
      source =
          copy_write-Wrote w (or_default size.value) size.rest _ _
            (λ e. (read_whole read s (or_default size.value) offset.value reads e).2)

  apply_op-Wrote :
      (w : W) (op : ℕ) (delta : Bytes)
      → (apply_op write read w op delta).err ≡ none
      → Wrote contents w (apply_op write read w op delta)
  unfolding apply_op apply_copy
  apply_op-Wrote w op delta h = elim (Bool-cases (bit_and op 0x80 == 0x80)) [
    | inl copy ↦ rw copy (copy_unpacked-Wrote w _ _ (rw copy at h))
    | inr add ↦ rw add (apply_add-Wrote w op delta (rw add at h))
  ]

  size_answer_sound : (r : Bool × Option Error) → size_answer r ≡ none → r ≡ (true, none)
  unfolding size_answer
  size_answer_sound (b, some e) h = cc
  size_answer_sound (true, none) h = refl
  size_answer_sound (false, none) h = cc

  check_src_size_sound :
      (size : ℕ) → check_src_size read size ≡ none → signed64 size ≡ pos (length s)
  unfolding check_src_size
  check_src_size_sound size h = is_len_sound read s (signed64 size) reads (size_answer_sound _ h)

  -- A run with no error gets through its first operation with none.
  delta_loop_step :
      (fuel : ℕ) (w : W) (dst op : ℕ) (delta : Bytes)
      → (delta_loop write read (suc fuel) w dst (op ∷ delta)).1 ≡ none
      → ((apply_op write read w op delta).err ≡ none)
        × (delta_loop write read (suc fuel) w dst (op ∷ delta)
            ≡ delta_loop write read fuel
                (apply_op write read w op delta).writer
                (sub64 dst (apply_op write read w op delta).amount)
                (apply_op write read w op delta).rest)
  unfolding delta_loop
  delta_loop_step fuel w dst op delta h = (ground arith, ground arith)

  -- The bytes that the rest of the loop writes, as many as `dst` counts, modulo the int64.
  delta_loop_writes :
      (fuel : ℕ) (w : W) (dst : ℕ) (delta : Bytes)
      → (delta_loop write read fuel w dst delta).1 ≡ none
      → (out : Bytes) × (contents (delta_loop write read fuel w dst delta).0 ≡ contents w ++ out)
        × (length out % 2 ^ 64 ≡ dst % 2 ^ 64)
  unfolding delta_loop
  delta_loop_writes fuel w dst [] h = ([], sym (append-nil (contents w)), ground arith)
  delta_loop_writes zero w dst (op ∷ delta) h = cc
  delta_loop_writes (suc fuel) w dst (op ∷ delta) h =
      let r = apply_op write read w op delta in
      let (fine, go) = delta_loop_step fuel w dst op delta h in
      let (b, first, size) = apply_op-Wrote w op delta fine in
      let (out, later, sizes) =
        delta_loop_writes fuel r.writer (sub64 dst r.amount) r.rest (rw go at h) in
      rw go (
        b ++ out,
        later ∙ ap (λ x. x ++ out) first ∙ append_assoc (contents w) b out,
        omega (arith, length-append b out),
      )

  -- Over a reader and a writer that keep to their documentation, a delta that applies with no error
  -- declares the length of the source as its first size, and what is written to the writer has the
  -- length that it declares as its second, as an int64.
  pub apply_delta_sizes :
      (w : W) (frag : Bytes)
      → (apply_delta write read w frag).1 ≡ none
      → (signed64 (read_size frag).0 ≡ pos (length s))
        × ((out : Bytes) × (contents (apply_delta write read w frag).0 ≡ contents w ++ out)
            × (length out % 2 ^ 64 ≡ (read_size (read_size frag).1).0 % 2 ^ 64))
  apply_delta_sizes w frag h = elim (Option-cases (check_src_size read (read_size frag).0)) [
    | inl fits ↦
        let dst = read_size (read_size frag).1 in
        let go = apply_delta_runs write read w frag fits in
        (
          check_src_size_sound (read_size frag).0 fits,
          rw go (delta_loop_writes (length dst.1) w dst.0 dst.1 (rw go at h)),
        )
    | inr (e, wrong) ↦ cc (ap (λ r. r.1) (apply_delta_refuses write read w frag wrong))
  ]
