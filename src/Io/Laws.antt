-- ===== src/Io/Laws.antt =====
-- Readers that keep to the documentation of `io.ReaderAt`: what `isLen` answers, and a reader over a
-- byte string and a writer into one that meet the assumptions.
use go_gitdiff.Base.{
  ℕ, zero, suc, ◌+◌, ◌-◌, ◌≤◌, ◌≡◌, ◌≢◌, refl, sym, ap, ◌∙◌, inl, inr, true, false, Option, none,
  some, List, [], ◌∷◌, ◌++◌, append-nil, Bytes, length, take, drop, length-take, length-drop, leb,
  ◌==◌, ==_iff, if◌then◌else◌, arith,
}
use native.Mathlib.Decide.{dec_lt, ℕ_discrete}
use go_gitdiff.Base.Int.{ℤ, pos, negsuc}
use go_gitdiff.Errors.{Error, eof, stuck}
use go_gitdiff.Io.{
  ReaderAt, Writer, ReadsAt, Appends, is_zero, is_positive, len_offset, len_answer, is_len, buffer,
}

-- `isLen` answers whether the source has exactly `n` bytes, with no error; no source has a negative
-- length.
pub is_len_lem :
    (read : ReaderAt) (s : Bytes) (n : ℕ)
    → ReadsAt read s
    → is_len read (pos n) ≡ (n == length s, none)
unfolding is_len
is_len_lem read s n law = elim (dec_lt (n - 1 + 2) (length s)) [
  | yes p ↦ rw (law.inside 2 (n - 1) p) (ground arith)
  | no p ↦ elim (ℕ_discrete (n - 1 + 2) (length s)) [
    | yes e ↦ elim (law.at_end 2 (n - 1) e) [
      | inl r ↦ rw r (ground arith)
      | inr r ↦ rw r (ground (arith, length-drop (n - 1) s))
    ]
    | no q ↦ rw (law.beyond 2 (n - 1) (omega arith)) (ground (arith, length-drop (n - 1) s))
  ]
]

pub drop_all {ℓ} : {A : Type ℓ} (n : ℕ) (xs : List A) → length xs ≤ n → drop n xs ≡ []
drop_all zero [] h = refl
drop_all zero (x ∷ xs) h = absurd (omega arith)
drop_all (suc n) [] h = refl
drop_all (suc n) (x ∷ xs) h = drop_all n xs (omega arith)

pub take_all {ℓ} : {A : Type ℓ} (n : ℕ) (xs : List A) → length xs ≤ n → take n xs ≡ xs
take_all zero [] h = refl
take_all zero (x ∷ xs) h = absurd (omega arith)
take_all (suc n) [] h = refl
take_all (suc n) (x ∷ xs) h = ap (◌∷◌ x) (take_all n xs (omega arith))

pub buffer_full : (n : ℕ) (b : Bytes) → length b ≡ n → buffer n b ≡ b
unfolding buffer
buffer_full n b e = let z : n - length b ≡ 0 = omega arith in rw (z, append-nil)

-- A reader over a byte string, as `bytes.Reader` is: the end of the source is told apart only by a
-- read that goes beyond it.
abbrev pub reader_of : Bytes → ReaderAt
reader_of s n off = (take n (drop off s), if leb (off + n) (length s) then none else some eof)

pub reader_of-ReadsAt : (s : Bytes) → ReadsAt (reader_of s) s
reader_of-ReadsAt s = record {
  inside = λ n off h. ground arith;
  at_end = λ n off h. inl (ground (arith, take_all n (drop off s), length-drop off s));
  beyond = λ n off h. ground (arith, take_all n (drop off s), length-drop off s);
}

pub reader_of-quiet :
    (s : Bytes) (n off : ℕ) → off + n ≡ length s → reader_of s n off ≡ (drop off s, none)
reader_of-quiet s n off h = ground (arith, take_all n (drop off s), length-drop off s)

pub reader_of-ne-stuck : (s : Bytes) (n off : ℕ) → (reader_of s n off).1 ≢ some stuck
reader_of-ne-stuck s n off = ground arith

-- A writer into a byte string, as `bytes.Buffer` is.
abbrev pub buffer_writer : Writer Bytes
buffer_writer w b = (w ++ b, length b, none)

pub buffer_writer-Appends : Appends buffer_writer (λ w. w)
buffer_writer-Appends = record { count = λ w b h. refl; grows = λ w b h. refl }

len_answer-ne :
    (n : ℤ) (b : Bytes) (o : Option Error) (e : Error)
    → o ≢ some e
    → (len_answer n (b, o)).1 ≢ some e
unfolding len_answer
len_answer-ne n b none e h = h
len_answer-ne n b (some eof) e h = λ x. cc
len_answer-ne n b (some other) e h = h

-- `isLen` passes on an error of the read, and makes none.
pub is_len-ne :
    (read : ReaderAt) (n : ℤ) (e : Error)
    → ((k off : ℕ) → (read k off).1 ≢ some e)
    → (is_len read n).1 ≢ some e
unfolding is_len
is_len-ne read n e h =
    len_answer-ne n (read 2 (len_offset n)).0 (read 2 (len_offset n)).1 e (h 2 (len_offset n))

no_negative_len : (n : ℕ) (b : Bytes) (o : Option Error) → (len_answer (negsuc n) (b, o)).0 ≡ false
unfolding len_answer is_zero is_positive
no_negative_len n b none = refl
no_negative_len n b (some eof) = refl
no_negative_len n b (some e) = refl

-- A source has a length, and no other.
pub is_len_sound :
    (read : ReaderAt) (s : Bytes) (n : ℤ)
    → ReadsAt read s
    → is_len read n ≡ (true, none)
    → n ≡ pos (length s)
is_len_sound read s (pos n) law h =
    ap pos ((==_iff n (length s)).0 (ap (λ r. r.0) (sym (is_len_lem read s n law) ∙ h)))
is_len_sound read s (negsuc n) law h =
    let wrong : (is_len read (negsuc n)).0 ≡ false =
      unfold is_len in no_negative_len n (read 2 0).0 (read 2 0).1 in
    cc (wrong, ap (λ r. r.0) h)

-- A read with no error gives as many bytes as it was asked for, those of the source.
pub read_whole :
    (read : ReaderAt) (s : Bytes) (n off : ℕ)
    → ReadsAt read s
    → (read n off).1 ≡ none
    → (off + n ≤ length s) × ((read n off).0 ≡ take n (drop off s)) × (length (read n off).0 ≡ n)
read_whole read s n off law h = elim (dec_lt (off + n) (length s)) [
  | yes p ↦
      let r = law.inside n off p in
      (
        omega arith,
        ap (λ x. x.0) r,
        ap (λ x. length x.0) r ∙ omega (arith, length-take n (drop off s), length-drop off s),
      )
  | no p ↦ elim (ℕ_discrete (off + n) (length s)) [
    | yes e ↦ elim (law.at_end n off e) [
      | inl r ↦ (
        omega arith,
        ap (λ x. x.0) r ∙ sym (take_all n (drop off s) (omega (arith, length-drop off s))),
        ap (λ x. length x.0) r ∙ omega (arith, length-drop off s),
      )
      | inr r ↦ cc (ap (λ x. x.1) r)
    ]
    | no q ↦ cc (ap (λ x. x.1) (law.beyond n off (omega arith)))
  ]
]
