-- ===== src/Delta/Run.antt =====
-- gitdiff/apply_binary.go: the loop over a delta ends by itself.
use go_gitdiff.Base.{
  ℕ, zero, suc, ◌+◌, ◌*◌, ◌^◌, ◌≤◌, ◌≡◌, ◌≢◌, refl, Bool, true, false, Option, none, some, [], ◌∷◌,
  Bytes, length, length-drop, take, arith,
}
use Prim.Native.Nat.{bit_or}
use go_gitdiff.Errors.{Error, stuck}
use go_gitdiff.Io.{ReaderAt, Writer, buffer}
use go_gitdiff.Io.Laws.{is_len-ne}
use go_gitdiff.Delta.{
  Unpacked, unpack, after_write, copy_write, copy_unpacked, or_default, apply_add, apply_copy,
  apply_op, sub64, signed64, size_answer, delta_loop, apply_delta, read_size, check_src_size,
}

-- Unpacking takes bytes from the front.
unpack-length :
    (op start bits i v : ℕ) (delta : Bytes)
    → length (unpack op start bits i v delta).rest ≤ length delta
unfolding unpack
unpack-length op start zero i v delta = omega arith
unpack-length op start (suc bits) i v [] = ground (arith, unpack-length op start bits (i + 1) v [])
unpack-length op start (suc bits) i v (b ∷ d) = ground (
  arith,
  unpack-length op start bits (i + 1) v (b ∷ d),
  unpack-length op start bits (i + 1) (bit_or v (b * 2 ^ (8 * i))) d,
)

module _ {W : Type 0} (write : Writer W) (read : ReaderAt) where
  apply_add-length :
      (w : W) (op : ℕ) (delta : Bytes) → length (apply_add write w op delta).rest ≤ length delta
  unfolding apply_add
  apply_add-length w op delta = ground (arith, length-drop op delta)

  copy_write-rest :
      (w : W) (size : ℕ) (rest : Bytes) (r : Bytes × Option Error)
      → (copy_write write w size rest r).rest ≡ rest
  unfolding copy_write after_write
  copy_write-rest w size rest (b, some e) = refl
  copy_write-rest w size rest (b, none) = refl

  copy_unpacked-rest :
      (w : W) (offset size : Unpacked) → (copy_unpacked write read w offset size).rest ≡ size.rest
  unfolding copy_unpacked
  copy_unpacked-rest w offset size = ground (
    arith,
    copy_write-rest w (or_default size.value) size.rest (read (or_default size.value) offset.value),
  )

  apply_copy-length :
      (w : W) (op : ℕ) (delta : Bytes)
      → length (apply_copy write read w op delta).rest ≤ length delta
  unfolding apply_copy
  apply_copy-length w op delta =
      let offset = unpack op 0 4 0 0 delta in
      rw (copy_unpacked-rest w offset (unpack op 4 3 0 0 offset.rest))
        (omega (arith, unpack-length op 4 3 0 0 offset.rest, unpack-length op 0 4 0 0 delta))

  pub apply_op-length :
      (w : W) (op : ℕ) (delta : Bytes) → length (apply_op write read w op delta).rest ≤ length delta
  unfolding apply_op
  apply_op-length w op delta =
      ground (arith, apply_copy-length w op delta, apply_add-length w op delta)

-- The loop runs if the source has the declared size, and nothing is written if it has not.
module _ {W : Type 0} (write : Writer W) (read : ReaderAt) (w : W) (frag : Bytes) where
  pub apply_delta_runs :
      check_src_size read (read_size frag).0 ≡ none
      → apply_delta write read w frag
        ≡ delta_loop write read
            (length (read_size (read_size frag).1).1)
            w
            (read_size (read_size frag).1).0
            (read_size (read_size frag).1).1
  unfolding apply_delta
  apply_delta_runs e = rw (e, apply_delta)

  pub apply_delta_refuses :
      {e : Error}
      → check_src_size read (read_size frag).0 ≡ some e
      → apply_delta write read w frag ≡ (w, some e)
  unfolding apply_delta
  apply_delta_refuses e = rw (e, apply_delta)

-- `stuck` is an answer of the model alone.
abbrev pub NeverStuck : {W : Type 0} → Writer W → ReaderAt → Type 0
NeverStuck {W} write read =
    ((w : W) (b : Bytes) → (write w b).2 ≢ some stuck) × ((n off : ℕ) → (read n off).1 ≢ some stuck)

module _ {W : Type 0} (write : Writer W) (read : ReaderAt) (proper : NeverStuck write read) where
  after_write-err :
      (n : ℕ) (rest : Bytes) (r : W × ℕ × Option Error) → (after_write n rest r).err ≡ r.2
  unfolding after_write
  after_write-err n rest (w, k, e) = refl

  apply_add-ne-stuck :
      (w : W) (op : ℕ) (delta : Bytes) → (apply_add write w op delta).err ≢ some stuck
  unfolding apply_add
  apply_add-ne-stuck w op delta = ground (arith, proper.0 w (take op delta))

  copy_write-ne-stuck :
      (w : W) (size : ℕ) (rest : Bytes) (r : Bytes × Option Error)
      → r.1 ≢ some stuck
      → (copy_write write w size rest r).err ≢ some stuck
  unfolding copy_write
  copy_write-ne-stuck w size rest (b, some e) h = h
  copy_write-ne-stuck w size rest (b, none) h = rw after_write-err (proper.0 w (buffer size b))

  copy_unpacked-ne-stuck :
      (w : W) (offset size : Unpacked) → (copy_unpacked write read w offset size).err ≢ some stuck
  unfolding copy_unpacked
  copy_unpacked-ne-stuck w offset size = ground (
    arith,
    copy_write-ne-stuck w (or_default size.value) size.rest
        (read (or_default size.value) offset.value) (proper.1 _ _),
  )

  apply_op-ne-stuck :
      (w : W) (op : ℕ) (delta : Bytes) → (apply_op write read w op delta).err ≢ some stuck
  unfolding apply_op apply_copy
  apply_op-ne-stuck w op delta =
      let offset = unpack op 0 4 0 0 delta in
      ground (
        arith,
        copy_unpacked-ne-stuck w offset (unpack op 4 3 0 0 offset.rest),
        apply_add-ne-stuck w op delta,
      )

  delta_loop-ne-stuck :
      (fuel : ℕ) (w : W) (dst : ℕ) (delta : Bytes)
      → length delta ≤ fuel
      → (delta_loop write read fuel w dst delta).1 ≢ some stuck
  unfolding delta_loop
  delta_loop-ne-stuck fuel w dst [] h = ground arith
  delta_loop-ne-stuck zero w dst (op ∷ delta) h = absurd (omega arith)
  delta_loop-ne-stuck (suc fuel) w dst (op ∷ delta) h = ground (
    arith,
    apply_op-length write read w op delta,
    apply_op-ne-stuck w op delta,
    delta_loop-ne-stuck fuel (apply_op write read w op delta).writer
        (sub64 dst (apply_op write read w op delta).amount) (apply_op write read w op delta).rest,
  )

  size_answer-ne-stuck : (r : Bool × Option Error) → r.1 ≢ some stuck → size_answer r ≢ some stuck
  unfolding size_answer
  size_answer-ne-stuck (b, some e) h = h
  size_answer-ne-stuck (true, none) h = h
  size_answer-ne-stuck (false, none) h = λ x. cc

  check_src_size-ne-stuck : (size : ℕ) → check_src_size read size ≢ some stuck
  unfolding check_src_size
  check_src_size-ne-stuck size =
      size_answer-ne-stuck _ (is_len-ne read (signed64 size) stuck proper.1)

  -- The loop over a delta ends by itself, whatever the bytes are: each round takes an opcode at
  -- least, and the model's fuel is never used up.
  pub apply_delta-ne-stuck : (w : W) (frag : Bytes) → (apply_delta write read w frag).1 ≢ some stuck
  unfolding apply_delta
  apply_delta-ne-stuck w frag = ground (
    arith,
    check_src_size-ne-stuck (read_size frag).0,
    delta_loop-ne-stuck (length (read_size (read_size frag).1).1) w (read_size (read_size frag).1).0
        (read_size (read_size frag).1).1,
  )
