-- ===== src/BinaryParse/Sound.antt =====
-- gitdiff/binary.go: what `ParseBinaryFragments` leaves in a file on any input, and the end of the loop
-- of `ParseBinaryChunk`.
use go_gitdiff.Base.{
  ℕ, zero, suc, ◌<◌, ◌≡◌, ◌≢◌, refl, ap, ◌∙◌, subst, Bool, true, false, none, some, Option, List,
  [], ◌∷◌, ◌++◌, ◌⊎◌, inl, inr, Bytes, codes, equal, length, arith, Bool-cases,
}
use go_gitdiff.Base.Int.{ℤ, pos}
use go_gitdiff.Errors.{Error, eof}
use go_gitdiff.Fragment.{differs}
use go_gitdiff.BinaryApply.{BinaryFragment}
use go_gitdiff.Apply.{File}
use go_gitdiff.Parser.{
  StringReader, Parser, Parsed, parsed, failed, error_at, out_of_fuel, next, next_or_end,
}
use go_gitdiff.Parser.Advance.{ReadsStrings, At, next-At}
use go_gitdiff.BinaryParse.{
  line_data, check_size, inflate_binary_chunk, parse_binary_marker, parse_binary_fragment_header,
  after_data, take_data, data_loop, inflated, after_data_loop, parse_binary_chunk, Outcome,
  set_reverse, take_reverse, set_forward, take_forward, take_binary, parse_binary_fragments,
}

-- A fragment with as many bytes as its size says.
abbrev pub IsSized : BinaryFragment → Type 0
IsSized b = b.size ≡ pos (length b.content)

differs-pos : (n : ℕ) (x : ℤ) → differs n x ≡ false → x ≡ pos n
unfolding differs
differs-pos n x h = ground arith

module _ (parse_int : Bytes → Option ℤ) (inflate : Bytes → Option Bytes) where
  check_size-IsSized :
      (frag b : BinaryFragment) (o : Option Bytes)
      → check_size parse_int inflate frag o ≡ some b
      → IsSized b
  unfolding check_size
  check_size-IsSized frag b none h = cc
  check_size-IsSized frag b (some content) h =
      elim (Bool-cases (differs (length content) frag.size)) [
        | inl e ↦ cc (rw e at h)
        | inr e ↦
            let filled : some (record frag { content = content }) ≡ some b = rw e at h in
            let same : record frag { content = content } ≡ b = cc (filled) in
            subst IsSized same (differs-pos (length content) frag.size e)
      ]

  module _ {R : Type 0} (read : StringReader R) where
    next_or_end-parsed :
        (p : Parser R) (b c : BinaryFragment) → (next_or_end read p b).1 ≡ parsed c → b ≡ c
    unfolding next_or_end
    next_or_end-parsed p b c h = ground arith

    inflated-IsSized :
        (p : Parser R) (b : BinaryFragment) (o : Option BinaryFragment)
        → ((c : BinaryFragment) → o ≡ some c → IsSized c)
        → (inflated parse_int inflate read p o).1 ≡ parsed b
        → IsSized b
    unfolding inflated
    inflated-IsSized p b none s h = cc
    inflated-IsSized p b (some c) s h = subst IsSized (next_or_end-parsed p c b h) (s c refl)

    after_data_loop-IsSized :
        (frag b : BinaryFragment) (r : Parser R × Parsed Bytes)
        → (after_data_loop parse_int inflate read frag r).1 ≡ parsed b
        → IsSized b
    unfolding after_data_loop
    after_data_loop-IsSized frag b (p, failed e) h = cc
    after_data_loop-IsSized frag b (p, parsed content) h =
        inflated-IsSized p b (inflate_binary_chunk parse_int inflate frag content)
          (λ c e. check_size-IsSized frag c (inflate content) (unfold inflate_binary_chunk in e)) h

    -- A fragment that `ParseBinaryChunk` fills, whatever the input is, has as many bytes as the size
    -- in its header.
    chunk-IsSized :
        (fuel : ℕ) (p : Parser R) (frag b : BinaryFragment)
        → (parse_binary_chunk parse_int inflate read fuel p frag).1 ≡ parsed b
        → IsSized b
    unfolding parse_binary_chunk
    chunk-IsSized fuel p frag b h =
        after_data_loop-IsSized frag b (data_loop parse_int inflate read fuel p []) h

    abbrev Out : Type 0
    Out = Outcome parse_int inflate read

    -- The reverse fragment is as it was, or it is a sized one and there was no error.
    abbrev pub ReverseKept : Option BinaryFragment → Out → Type 0
    ReverseKept before (p, f, n, e) =
        (f.reverse_binary_fragment ≡ before)
        ⊎ ((b : BinaryFragment) × (f.reverse_binary_fragment ≡ some b) × IsSized b × (e ≡ none))

    -- Nothing was attached, or the forward fragment.
    abbrev pub Attached : File → Out → Type 0
    Attached before (p, f, n, e) =
        ((n ≡ 0)
          × (f.binary_fragment ≡ before.binary_fragment)
          × (f.reverse_binary_fragment ≡ before.reverse_binary_fragment))
        ⊎ ((n ≡ 1)
            × ((b : BinaryFragment) × (f.binary_fragment ≡ some b) × IsSized b)
            × ReverseKept before.reverse_binary_fragment (p, f, n, e))

    set_reverse-Attached :
        (before f : File) (b : BinaryFragment) (r : Parser R × Parsed BinaryFragment)
        → f.binary_fragment ≡ some b
        → IsSized b
        → f.reverse_binary_fragment ≡ before.reverse_binary_fragment
        → ((c : BinaryFragment) → r.1 ≡ parsed c → IsSized c)
        → Attached before (set_reverse parse_int inflate read f r)
    unfolding set_reverse
    set_reverse-Attached before f b (p, failed e) x y z s = inr (refl, (b, x, y), inl z)
    set_reverse-Attached before f b (p, parsed c) x y z s =
        inr (refl, (b, x, y), inr (c, refl, s c refl, refl))

    take_reverse-Attached :
        (before f : File) (b : BinaryFragment) (fuel : ℕ)
        (r : Parser R × Parsed (Option BinaryFragment))
        → f.binary_fragment ≡ some b
        → IsSized b
        → f.reverse_binary_fragment ≡ before.reverse_binary_fragment
        → Attached before (take_reverse parse_int inflate read fuel f r)
    unfolding take_reverse
    take_reverse-Attached before f b fuel (p, failed e) x y z = inr (refl, (b, x, y), inl z)
    take_reverse-Attached before f b fuel (p, parsed none) x y z = inr (refl, (b, x, y), inl z)
    take_reverse-Attached before f b fuel (p, parsed (some frag)) x y z =
        set_reverse-Attached before f b (parse_binary_chunk parse_int inflate read fuel p frag) x y
          z (chunk-IsSized fuel p frag)

    set_forward-Attached :
        (before f : File) (fuel : ℕ) (r : Parser R × Parsed BinaryFragment)
        → f.binary_fragment ≡ before.binary_fragment
        → f.reverse_binary_fragment ≡ before.reverse_binary_fragment
        → ((c : BinaryFragment) → r.1 ≡ parsed c → IsSized c)
        → Attached before (set_forward parse_int inflate read fuel f r)
    unfolding set_forward
    set_forward-Attached before f fuel (p, failed e) x y s = inl (refl, x, y)
    set_forward-Attached before f fuel (p, parsed b) x y s =
        take_reverse-Attached before (record f { binary_fragment = some b }) b fuel
          (parse_binary_fragment_header parse_int inflate read p) refl (s b refl) y

    take_forward-Attached :
        (before f : File) (fuel : ℕ) (r : Parser R × Parsed (Option BinaryFragment))
        → f.binary_fragment ≡ before.binary_fragment
        → f.reverse_binary_fragment ≡ before.reverse_binary_fragment
        → Attached before (take_forward parse_int inflate read fuel f r)
    unfolding take_forward
    take_forward-Attached before f fuel (p, failed e) x y = inl (refl, x, y)
    take_forward-Attached before f fuel (p, parsed none) x y = inl (refl, x, y)
    take_forward-Attached before f fuel (p, parsed (some frag)) x y =
        set_forward-Attached before f fuel (parse_binary_chunk parse_int inflate read fuel p frag) x
          y (chunk-IsSized fuel p frag)

    take_binary-Attached :
        (f : File) (fuel : ℕ) (r : Parser R × Parsed (Bool × Bool))
        → Attached f (take_binary parse_int inflate read fuel f r)
    unfolding take_binary
    take_binary-Attached f fuel (p, failed e) = inl (refl, refl, refl)
    take_binary-Attached f fuel (p, parsed (false, d)) = inl (refl, refl, refl)
    take_binary-Attached f fuel (p, parsed (true, false)) = inl (refl, refl, refl)
    take_binary-Attached f fuel (p, parsed (true, true)) =
        take_forward-Attached f (record f { is_binary = true }) fuel
          (parse_binary_fragment_header parse_int inflate read p) refl refl

    -- Whatever the input is and however the parse ends, `ParseBinaryFragments` reports 0 and has
    -- attached no fragment to the file, or reports 1 and has attached a forward fragment; a fragment
    -- that it attaches has as many bytes as its size says, and a reverse one comes with no error.
    pub parse_binary_fragments-Attached :
        (fuel : ℕ) (p : Parser R) (f : File)
        → Attached f (parse_binary_fragments parse_int inflate read fuel p f)
    unfolding parse_binary_fragments
    parse_binary_fragments-Attached fuel p f =
        take_binary-Attached f fuel (parse_binary_marker parse_int inflate read p)

    -- A result that is not the end of the fuel.
    abbrev Ends {ℓ} : {A : Type ℓ} → Parsed A → Type ℓ
    Ends r = r ≢ failed out_of_fuel

    after_data-Ends :
        (go : Parser R → Bytes → Parser R × Parsed Bytes) (content : Bytes)
        (r : Parser R × Option Error)
        → Ends (go r.0 content).1
        → Ends (after_data parse_int inflate read go content r).1
    unfolding after_data error_at
    after_data-Ends go content (p, none) h = h
    after_data-Ends go content (p, some eof) h = λ e. cc
    after_data-Ends go content (p, some x) h = λ e. cc

    take_data-Ends :
        (go : Parser R → Bytes → Parser R × Parsed Bytes) (p : Parser R) (content : Bytes)
        (d : Bytes ⊎ Bytes)
        → ((more : Bytes) → Ends (go (next read p).0 (content ++ more)).1)
        → Ends (take_data parse_int inflate read go p content d).1
    unfolding take_data error_at
    take_data-Ends go p content (inr format) h = λ e. cc
    take_data-Ends go p content (inl more) h =
        after_data-Ends go (content ++ more) (next read p) (h more)

    next_or_end-Ends : (p : Parser R) (b : BinaryFragment) → Ends (next_or_end read p b).1
    unfolding next_or_end
    next_or_end-Ends p b = λ e. ground arith

    inflated-Ends :
        (p : Parser R) (o : Option BinaryFragment) → Ends (inflated parse_int inflate read p o).1
    unfolding inflated error_at
    inflated-Ends p none = λ e. cc
    inflated-Ends p (some b) = next_or_end-Ends p b

    after_data_loop-Ends :
        (frag : BinaryFragment) (r : Parser R × Parsed Bytes)
        → Ends r.1
        → Ends (after_data_loop parse_int inflate read frag r).1
    unfolding after_data_loop
    after_data_loop-Ends frag (p, failed e) h =
        λ k. let same : e ≡ out_of_fuel = cc (k) in h (ap failed same)
    after_data_loop-Ends frag (p, parsed content) h =
        inflated-Ends p (inflate_binary_chunk parse_int inflate frag content)

    module _ (rest : R → List Bytes) (law : ReadsStrings read rest) where
      data_loop-Ends :
          (fuel : ℕ) (ls : List Bytes) (p : Parser R) (content : Bytes)
          → At rest p ls
          → length ls < fuel
          → Ends (data_loop parse_int inflate read fuel p content).1
      unfolding data_loop
      data_loop-Ends zero ls p content here lt = absurd (omega arith)
      data_loop-Ends (suc fuel) [] p content here lt =
          let blank : equal p.line0 (codes "\n") ≡ false =
            ap (λ t. equal t (codes "\n")) here.first ∙ (unfold equal in refl) in
          let bad : line_data p.line0 ≡ inr (codes "binary patch: corrupt data line") =
            ap line_data here.first ∙ (unfold line_data in refl) in
          rw (blank, bad, data_loop) (unfold take_data error_at in λ e. cc)
      data_loop-Ends (suc fuel) (l ∷ ls) p content here lt =
          elim (Bool-cases (equal p.line0 (codes "\n"))) [
            | inl e ↦ rw (e, data_loop) (λ k. cc)
            | inr e ↦
                rw (e, data_loop)
                  (take_data-Ends (data_loop parse_int inflate read fuel) p content
                    (line_data p.line0)
                    (λ more.
                      data_loop-Ends fuel ls (next read p).0 (content ++ more)
                        (next-At read rest law p l ls here).0 (omega arith)))
          ]

      -- Over a reader that keeps to its documentation, `ParseBinaryChunk` comes to an end, with a
      -- fragment or an error of the code, in as many rounds as there are lines left and one more.
      pub parse_binary_chunk-ne-out_of_fuel :
          (fuel : ℕ) (ls : List Bytes) (p : Parser R) (frag : BinaryFragment)
          → At rest p ls
          → length ls < fuel
          → (parse_binary_chunk parse_int inflate read fuel p frag).1 ≢ failed out_of_fuel
      unfolding parse_binary_chunk
      parse_binary_chunk-ne-out_of_fuel fuel ls p frag here lt =
          after_data_loop-Ends frag (data_loop parse_int inflate read fuel p [])
            (data_loop-Ends fuel ls p [] here lt)
