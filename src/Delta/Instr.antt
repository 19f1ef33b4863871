-- ===== src/Delta/Instr.antt =====
-- gitdiff/apply_binary.go against the format that its comments describe: what applying an encoded
-- list of instructions writes, and how it can fail.
use go_gitdiff.Base.{
  ℕ, zero, suc, ◌^◌, ◌<◌, ◌≤◌, ◌≡◌, refl, sym, ap, ◌∙◌, false, Option, none, List, [], ◌∷◌, ◌++◌,
  append-nil, Bytes, ◌==◌, arith, All, length, length-append, inl, inr, append_assoc, ==_iff,
  lt→ltb, ◌⊎◌, some,
}
use go_gitdiff.Base.Int.{pos}
use go_gitdiff.Errors.{Error}
use go_gitdiff.Io.{ReaderAt, Writer, ReadsAt, Appends}
use go_gitdiff.Io.Laws.{is_len_lem}
use go_gitdiff.Delta.{
  apply_op, sub64, delta_loop, apply_delta, read_size, check_src_size, size_answer, signed64,
}
use go_gitdiff.Delta.Size.{encode_size, read_size-encode_size}
use go_gitdiff.Delta.Encode.{Instr, encode_instrs, expand, expand_all, Fits}
use go_gitdiff.Delta.Step.{Fails, Fails-some, Does-instr}
use go_gitdiff.Delta.Run.{apply_delta_runs, apply_op-length}

module _ {W : Type 0} (write : Writer W) (read : ReaderAt) (contents : W → Bytes) (s : Bytes)
    (appends : Appends write contents) (reads : ReadsAt read s) where
  delta_loop_more :
      (fuel : ℕ) (w : W) (dst op : ℕ) (delta : Bytes)
      → (op == 0) ≡ false
      → (apply_op write read w op delta).err ≡ none
      → delta_loop write read (suc fuel) w dst (op ∷ delta)
        ≡ delta_loop write read fuel
            (apply_op write read w op delta).writer
            (sub64 dst (apply_op write read w op delta).amount)
            (apply_op write read w op delta).rest
  unfolding delta_loop
  delta_loop_more fuel w dst op delta h e = ground arith

  delta_loop_error :
      (fuel : ℕ) (w : W) (dst op : ℕ) (delta : Bytes) (e : Error)
      → (op == 0) ≡ false
      → (apply_op write read w op delta).err ≡ some e
      → delta_loop write read (suc fuel) w dst (op ∷ delta)
        ≡ ((apply_op write read w op delta).writer, (apply_op write read w op delta).err)
  unfolding delta_loop
  delta_loop_error fuel w dst op delta e h k = ground arith

  delta_loop_end : (fuel : ℕ) (w : W) → delta_loop write read fuel w 0 [] ≡ (w, none)
  unfolding delta_loop
  delta_loop_end zero w = refl
  delta_loop_end (suc fuel) w = refl

  -- What the instructions before some instruction stand for is written, and that one fails.
  abbrev pub Stops : W → List Instr → W × Option Error → Type 0
  Stops w is r =
      (before : List Instr) × (i : Instr) × (later : List Instr) × (v : W) × (is
        ≡ before ++ i ∷ later)
      × (contents v ≡ contents w ++ expand_all s before)
      × Fails write read s v i r.0 r.1

  -- All the instructions are done, or one fails.
  abbrev Ends : W → List Instr → W × Option Error → Type 0
  Ends w is r = ((r.1 ≡ none) × (contents r.0 ≡ contents w ++ expand_all s is)) ⊎ Stops w is r

  Stops-here :
      (fuel : ℕ) (w : W) (dst op : ℕ) (delta : Bytes) (i : Instr) (is : List Instr)
      → (op == 0) ≡ false
      → Fails write read s w i
          (apply_op write read w op delta).writer
          (apply_op write read w op delta).err
      → Stops w (i ∷ is) (delta_loop write read (suc fuel) w dst (op ∷ delta))
  Stops-here fuel w dst op delta i is h fails =
      let r = apply_op write read w op delta in
      let (e, same) = Fails-some write read s w i r.writer r.err fails in
      rw (delta_loop_error fuel w dst op delta e h same)
        ([], i, is, w, refl, sym (append-nil (contents w)), fails)

  -- The instructions behind one that is done.
  Ends-more :
      (w u : W) (i : Instr) (is : List Instr) (r : W × Option Error)
      → contents u ≡ contents w ++ expand s i
      → Ends u is r
      → Ends w (i ∷ is) r
  Ends-more w u i is r wrote (inl (fine, all)) =
      inl (fine, all ∙ ap (λ x. x ++ expand_all s is) wrote ∙ append_assoc (contents w) _ _)
  Ends-more w u i is r wrote (inr (before, j, later, v, parts, written, fails)) = inr (
    i ∷ before,
    j,
    later,
    v,
    ap (◌∷◌ i) parts,
    written ∙ ap (λ x. x ++ expand_all s before) wrote ∙ append_assoc (contents w) _ _,
    fails,
  )

  delta_loop-encode_instrs :
      (is : List Instr) (fuel : ℕ) (w : W) (dst : ℕ)
      → All (Fits s) is
      → length (encode_instrs is) ≤ fuel
      → dst < 2 ^ 64
      → dst ≡ length (expand_all s is)
      → Ends w is (delta_loop write read fuel w dst (encode_instrs is))
  delta_loop-encode_instrs [] fuel w dst fits hf small e =
      let z : dst ≡ 0 = omega arith in
      rw (z, delta_loop_end fuel w) (inl (refl, sym (append-nil (contents w))))
  delta_loop-encode_instrs (i ∷ is) zero w dst (fit, fits) hf small e =
      let (op, delta, spells, op_pos, did) =
        Does-instr write read contents s appends reads w i (encode_instrs is) fit in
      absurd (omega (arith, ap length spells))
  delta_loop-encode_instrs (i ∷ is) (suc fuel) w dst (fit, fits) hf small e =
      let (op, delta, spells, op_pos, does) =
        Does-instr write read contents s appends reads w i (encode_instrs is) fit in
      elim does [
        | inr fails ↦ rw spells (inr (Stops-here fuel w dst op delta i is op_pos fails))
        | inl (fine, count, left, wrote) ↦
            let r = apply_op write read w op delta in
            let shorter = apply_op-length write read w op delta in
            let sizes = length-append (expand s i) (expand_all s is) in
            let later =
              delta_loop-encode_instrs is fuel r.writer (sub64 dst r.amount) fits
                (omega (arith, ap length spells, ap length left)) (omega arith) (omega arith) in
            rw (spells, delta_loop_more fuel w dst op delta op_pos fine, left)
              (Ends-more w r.writer i is _ wrote later)
      ]

  check_src_size_fits : length s < 2 ^ 63 → check_src_size read (length s) ≡ none
  unfolding check_src_size size_answer
  check_src_size_fits h =
      let positive : signed64 (length s) ≡ pos (length s) = rw (lt→ltb (length s) (2 ^ 63) h) in
      rw (positive, is_len_lem read s (length s) reads, (==_iff (length s) (length s)).1 refl)

  -- Over a reader and a writer that keep to their documentation, a delta that spells the length of a
  -- source below 2 ^ 63, the length of a result below 2 ^ 64 and a list of instructions that the
  -- format can express and whose copies stay inside the source applies with no error and writes what
  -- the instructions stand for, in order; or those before some instruction are written and that one
  -- fails, since the write of what it stands for returns the error that is returned, or since it is
  -- a copy up to the end of the source whose read returns io.EOF.
  pub apply_delta-encode_instrs :
      (w : W) (is : List Instr)
      → All (Fits s) is
      → length s < 2 ^ 63
      → length (expand_all s is) < 2 ^ 64
      → let r = apply_delta write read w (
          encode_size 9 (length s)
          ++ (encode_size 9 (length (expand_all s is)) ++ encode_instrs is)) in
        ((r.1 ≡ none) × (contents r.0 ≡ contents w ++ expand_all s is)) ⊎ Stops w is r
  apply_delta-encode_instrs w is fits small h =
      let body = encode_instrs is in
      let dst = encode_size 9 (length (expand_all s is)) ++ body in
      let frag = encode_size 9 (length s) ++ dst in
      let first = read_size-encode_size (length s) dst (omega arith) in
      let second = read_size-encode_size (length (expand_all s is)) body h in
      let sized : (check_src_size read (read_size frag).0 ≡ none) =
        rw first (check_src_size_fits small) in
      rw (apply_delta_runs write read w frag sized, first, second)
        (delta_loop-encode_instrs is (length body) w (length (expand_all s is)) fits (omega arith) h
          refl)
