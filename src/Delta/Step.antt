-- ===== src/Delta/Step.antt =====
-- gitdiff/apply_binary.go against the format that its comments describe: what applying an encoded
-- instruction writes, and how it can fail.
use Prim.Native.Nat.{bit_and}
use go_gitdiff.Base.{
  ℕ, ◌+◌, ◌<◌, ◌≤◌, ◌≡◌, refl, sym, ap, ◌∙◌, true, false, Option, none, [], ◌∷◌, ◌++◌, Bytes, ltb,
  ◌==◌, arith, length, length-append, take, drop, length-take, length-drop, ltb-cases, inl, inr,
  ◌⊎◌, some, Option-cases,
}
use go_gitdiff.Errors.{Error, eof}
use go_gitdiff.Io.{ReaderAt, Writer, ReadsAt, Appends}
use go_gitdiff.Io.Laws.{buffer_full, take_all}
use go_gitdiff.Delta.{
  Done, Unpacked, unpack, after_write, copy_write, copy_unpacked, apply_add, apply_copy, apply_op,
}
use go_gitdiff.Delta.Unpack.{
  four_present, three_present, opcode_of, unpack_offset, unpack_size, opcode_is_copy, low_clear,
}
use go_gitdiff.Delta.Encode.{
  Instr, insert, copy, byte, spelled, encode_instr, expand, Fits, four_bytes, three_bytes,
  unpacked_value, or_default-spelled, spelled_lt,
}

-- How an instruction fails: the write of its bytes by writer `w` gives writer `v` and an error, which
-- is the one returned; or the read of a copy ends at the end of the source and reports it.
module _ {W : Type 0} (write : Writer W) (read : ReaderAt) (s : Bytes) where
  abbrev pub WriteFails : W → Bytes → W → Option Error → Type 0
  WriteFails w b v o = (n : ℕ) × (e : Error) × (write w b ≡ (v, n, some e)) × (o ≡ some e)

  abbrev pub ReadEnds : W → ℕ → ℕ → W → Option Error → Type 0
  ReadEnds w off size v o =
      (off + size ≡ length s) × (read size off ≡ (drop off s, some eof)) × (v ≡ w) × (o ≡ some eof)

  abbrev pub Fails : W → Instr → W → Option Error → Type 0
  Fails w (insert b) v o = WriteFails w b v o
  Fails w (copy off size) v o = WriteFails w (take size (drop off s)) v o ⊎ ReadEnds w off size v o

  pub Fails-some :
      (w : W) (i : Instr) (v : W) (o : Option Error) → Fails w i v o → (e : Error) × (o ≡ some e)
  Fails-some w (insert b) v o (n, e, failed, same) = (e, same)
  Fails-some w (copy off size) v o (inl (n, e, failed, same)) = (e, same)
  Fails-some w (copy off size) v o (inr (ends, r, still, same)) = (eof, same)

module _ {W : Type 0} (write : Writer W) (read : ReaderAt) (contents : W → Bytes) (s : Bytes)
    (appends : Appends write contents) (reads : ReadsAt read s) where
  -- The operation wrote `b`, and left `rest`.
  abbrev pub Did : W → Bytes → Bytes → Done W → Type 0
  Did w b rest r =
      (r.err ≡ none)
      × (r.amount ≡ length b)
      × (r.rest ≡ rest)
      × (contents r.writer ≡ contents w ++ b)

  after_write-Did :
      (w : W) (n : ℕ) (b rest : Bytes)
      → n ≡ length b
      → Did w b rest (after_write n rest (write w b))
        ⊎ WriteFails write read s w b
            (after_write n rest (write w b)).writer
            (after_write n rest (write w b)).err
  unfolding after_write
  after_write-Did w n b rest e = elim (Option-cases (write w b).2) [
    | inl fine ↦ inl (fine, e, refl, appends.grows w b fine)
    | inr (e', bad) ↦ inr ((write w b).1, e', (λ i. ((write w b).0, (write w b).1, bad i)), bad)
  ]

  -- A read that stays inside the source.
  read_inside :
      (n off : ℕ)
      → off + n ≤ length s
      → (read n off ≡ (take n (drop off s), none))
        ⊎ ((off + n ≡ length s) × (read n off ≡ (drop off s, some eof)))
  read_inside n off h = elim (ltb-cases (off + n) (length s)) [
    | inl p ↦ inl (reads.inside n off p)
    | inr q ↦
        let ends : off + n ≡ length s = omega arith in
        elim (reads.at_end n off ends) [
          | inr r ↦ inr (ends, r)
          | inl r ↦
              let all = take_all n (drop off s) (omega (arith, length-drop off s)) in
              inl (r ∙ ap (λ b. (b, none)) (sym all))
        ]
  ]

  take_prefix : (b rest : Bytes) → take (length b) (b ++ rest) ≡ b
  take_prefix [] rest = refl
  take_prefix (x ∷ b) rest = ap (◌∷◌ x) (take_prefix b rest)

  drop_prefix : (b rest : Bytes) → drop (length b) (b ++ rest) ≡ rest
  drop_prefix [] rest = refl
  drop_prefix (x ∷ b) rest = drop_prefix b rest

  -- The operation wrote `b`, or failed to.
  abbrev Writes : W → Bytes → Bytes → Done W → Type 0
  Writes w b rest r = Did w b rest r ⊎ WriteFails write read s w b r.writer r.err

  -- The operation did what an instruction stands for, or failed.
  abbrev pub Does : W → Instr → Bytes → Done W → Type 0
  Does w i rest r = Did w (expand s i) rest r ⊎ Fails write read s w i r.writer r.err

  apply_add-Writes :
      (w : W) (b rest : Bytes) → Writes w b rest (apply_add write w (length b) (b ++ rest))
  unfolding apply_add
  apply_add-Writes w b rest =
      let room : ltb (length (b ++ rest)) (length b) ≡ false =
        ground (arith, length-append b rest) in
      rw (room, drop_prefix b rest, take_prefix b rest) (after_write-Did w (length b) b rest refl)

  copy_write-Writes :
      (w : W) (size : ℕ) (b rest : Bytes)
      → length b ≡ size
      → Writes w b rest (copy_write write w size rest (b, none))
  unfolding copy_write
  copy_write-Writes w size b rest h =
      rw (buffer_full size b h) (after_write-Did w size b rest (sym h))

  -- The read of a copy, with what follows it.
  copy_read-Does :
      (w : W) (off size : ℕ) (rest : Bytes)
      → off + size ≤ length s
      → Does w (copy off size) rest (copy_write write w size rest (read size off))
  copy_read-Does w off size rest h = elim (read_inside size off h) [
    | inl r ↦
        elim (copy_write-Writes w size (take size (drop off s)) rest
          (omega (arith, length-take size (drop off s), length-drop off s))) [
            | inl did ↦ rw r (inl did)
            | inr failed ↦ rw r (inr (inl failed))
          ]
    | inr (ends, r) ↦
        let refused : copy_write write w size rest (read size off)
            ≡ record { writer = w; amount = 0; rest = rest; err = some eof } =
          rw r (unfold copy_write in refl) in
        rw refused (inr (inr (ends, r, refl, refl)))
  ]

  -- A copy whose numbers have been unpacked.
  copy_unpacked-Does :
      (w : W) (off size : ℕ) (rest tail : Bytes)
      → 0 < size
      → off + size ≤ length s
      → Does w (copy off size) rest (
          copy_unpacked write read w
            (record { value = off; rest = tail; short = false })
            (record { value = spelled size; rest = rest; short = false }))
  unfolding copy_unpacked
  copy_unpacked-Does w off size rest tail pos_size h =
      rw (or_default-spelled size pos_size) (copy_read-Does w off size rest h)

  apply_op_copy :
      (w : W) (op : ℕ) (delta : Bytes)
      → (bit_and op 0x80 == 0x80) ≡ true
      → apply_op write read w op delta ≡ apply_copy write read w op delta
  unfolding apply_op
  apply_op_copy w op delta h = rw (h, apply_op)

  apply_op_add :
      (w : W) (op : ℕ) (delta : Bytes)
      → (bit_and op 0x80 == 0x80) ≡ false
      → apply_op write read w op delta ≡ apply_add write w op delta
  unfolding apply_op
  apply_op_add w op delta h = rw (h, apply_op)

  -- Two calls of `unpack` that find their bytes.
  apply_copy_lem :
      (w : W) (op : ℕ) (delta : Bytes) (offset size : Unpacked)
      → unpack op 0 4 0 0 delta ≡ offset
      → unpack op 4 3 0 0 offset.rest ≡ size
      → apply_copy write read w op delta ≡ copy_unpacked write read w offset size
  unfolding apply_copy
  apply_copy_lem w op delta offset size e f = rw (e, apply_copy) (rw f refl)

  Does-copy :
      (w : W) (off size : ℕ) (rest : Bytes)
      → Fits s (copy off size)
      → (op : ℕ) × (delta : Bytes) × (encode_instr (copy off size) rest ≡ op ∷ delta)
        × ((op == 0) ≡ false)
        × Does w (copy off size) rest (apply_op write read w op delta)
  Does-copy w off size rest (h, k, l, m) =
      let z = spelled size in
      let tail = three_present (byte 0 z) (byte 1 z) (byte 2 z) rest in
      let delta = four_present (byte 0 off) (byte 1 off) (byte 2 off) (byte 3 off) tail in
      let op =
        opcode_of (byte 0 off) (byte 1 off) (byte 2 off) (byte 3 off) (byte 0 z) (byte 1 z)
          (byte 2 z) in
      let is_copy =
        opcode_is_copy (byte 0 off) (byte 1 off) (byte 2 off) (byte 3 off) (byte 0 z) (byte 1 z)
          (byte 2 z) in
      let first =
        unpack_offset (byte 0 off) (byte 1 off) (byte 2 off) (byte 3 off) (byte 0 z) (byte 1 z)
          (byte 2 z) tail (omega arith) (omega arith) (omega arith)
        ∙ unpacked_value tail (four_bytes off l) in
      let second =
        unpack_size (byte 0 off) (byte 1 off) (byte 2 off) (byte 3 off) (byte 0 z) (byte 1 z)
          (byte 2 z) rest (omega arith) (omega arith)
        ∙ unpacked_value rest (three_bytes z (spelled_lt size k)) in
      (
        op,
        delta,
        refl,
        is_copy.0,
        rw
            (
              apply_op_copy w op delta is_copy.1,
              apply_copy_lem w op delta (record { value = off; rest = tail; short = false })
                  (record { value = z; rest = rest; short = false }) first second,
            )
            (copy_unpacked-Does w off size rest tail h m),
      )

  -- The first byte of an instruction is an opcode that is not 0, and its operation does what the
  -- instruction stands for, or fails.
  pub Does-instr :
      (w : W) (i : Instr) (rest : Bytes)
      → Fits s i
      → (op : ℕ) × (delta : Bytes) × (encode_instr i rest ≡ op ∷ delta)
        × ((op == 0) ≡ false)
        × Does w i rest (apply_op write read w op delta)
  Does-instr w (insert b) rest (h, k) = (
    length b,
    b ++ rest,
    refl,
    ground arith,
    rw (apply_op_add w (length b) (b ++ rest) (low_clear (length b) k)) (apply_add-Writes w b rest),
  )
  Does-instr w (copy off size) rest f = Does-copy w off size rest f
