-- ===== src/PatchHeader/Subject.antt =====
-- gitdiff/patch_header.go: where the loop of `cleanSubject` ends.
use go_gitdiff.Base.{
  ℕ, zero, suc, ◌+◌, ◌<◌, ◌≤◌, ◌≡◌, refl, ap, ◌∙◌, sym, Bool, true, ◌||◌, some, [], ◌∷◌, Bytes,
  codes, length, length-drop, take, drop, ◌==◌, arith, Bool-cases, Option-cases, inl, inr,
}
use go_gitdiff.PatchIdentity.{index_byte}
use go_gitdiff.PatchHeader.{
  contains, removable_mark, removable_brackets, removable, clean_subject_loop,
}

index_byte-lt : (s : Bytes) (b i : ℕ) → index_byte s b ≡ some i → i < length s
unfolding index_byte
index_byte-lt [] b i h = cc
index_byte-lt (c ∷ s) b i h = elim (Option-cases (index_byte s b)) [
  | inl e ↦ let k = rw (e, index_byte) at h in ground arith
  | inr (j, e) ↦ let lt = index_byte-lt s b j e in let k = rw (e, index_byte) at h in ground arith
]

removable_mark-le : (s : Bytes) → removable_mark s ≤ length s
unfolding removable_mark
removable_mark-le [] = omega arith
removable_mark-le (c ∷ []) = omega arith
removable_mark-le (c ∷ d ∷ []) = omega arith
removable_mark-le (c ∷ d ∷ e ∷ s) = ground arith

removable_brackets-le : (all : Bool) (s : Bytes) → removable_brackets all s ≤ length s
unfolding removable_brackets
removable_brackets-le all s = elim (Option-cases (index_byte s b']')) [
  | inl e ↦ rw (e, removable_brackets) (omega arith)
  | inr (i, e) ↦
      let lt = index_byte-lt s b']' i e in
      rw (e, removable_brackets)
        (elim (Bool-cases (all || contains (codes "PATCH") (take (i + 1) s))) [
          | inl y ↦ rw y (ground arith)
          | inr y ↦ rw y (ground arith)
        ])
]

-- A removal stays within the subject.
removable-le : (all : Bool) (s : Bytes) → removable all s ≤ length s
unfolding removable
removable-le all [] = omega arith
removable-le all (c ∷ s) =
    ground (arith, removable_mark-le (c ∷ s), removable_brackets-le all (c ∷ s))

drop-drop : (n k : ℕ) (s : Bytes) → drop k (drop n s) ≡ drop (n + k) s
drop-drop zero k s = let e : 0 + k ≡ k = omega arith in rw e refl
drop-drop (suc n) zero [] = let e : suc n + 0 ≡ suc n = omega arith in rw e refl
drop-drop (suc n) (suc k) [] = let e : suc n + suc k ≡ suc (n + suc k) = omega arith in rw e refl
drop-drop (suc n) k (c ∷ s) =
    let e : suc n + k ≡ suc (n + k) = omega arith in rw e (drop-drop n k s)

-- A loop that has moved on by `k` bytes, to a place where nothing is removed.
record Stopped (all : Bool) (at : ℕ) (rest : Bytes) (end : ℕ) : Type 0 where
  moved : ℕ
  reached : end ≡ at + moved
  inside : moved ≤ length rest
  clean : removable all (drop moved rest) ≡ 0

Stopped-on :
    (all : Bool) (at n end : ℕ) (rest : Bytes)
    → n ≤ length rest
    → Stopped all (at + n) (drop n rest) end
    → Stopped all at rest end
Stopped-on all at n end rest h s = record {
  moved = n + s.moved;
  reached = omega (arith, s.reached);
  inside = omega (arith, s.inside, length-drop n rest);
  clean = ap (removable all) (sym (drop-drop n s.moved rest)) ∙ s.clean;
}

clean_subject_loop-Stopped :
    (fuel : ℕ) (all : Bool) (at : ℕ) (rest : Bytes)
    → length rest ≤ fuel
    → Stopped all at rest (clean_subject_loop fuel all at rest)
unfolding clean_subject_loop
clean_subject_loop-Stopped zero all at [] h = record {
  moved = 0;
  reached = omega arith;
  inside = omega arith;
  clean = unfold removable in refl;
}
clean_subject_loop-Stopped zero all at (c ∷ s) h = absurd (omega arith)
clean_subject_loop-Stopped (suc fuel) all at rest h = elim (Bool-cases (removable all rest == 0)) [
  | inl e ↦
      rw (e, clean_subject_loop)
        (record { moved = 0; reached = omega arith; inside = omega arith; clean = ground arith })
  | inr e ↦
      let n = removable all rest in
      rw (e, clean_subject_loop)
        (Stopped-on all at n (clean_subject_loop fuel all (at + n) (drop n rest)) rest
          (removable-le all rest)
          (clean_subject_loop-Stopped fuel all (at + n) (drop n rest)
            (ground (arith, length-drop n rest))))
]

-- The loop of `cleanSubject` ends within the subject, at a place where no case of its switch removes
-- anything; the length of the subject is enough fuel for it, and what is left is not cut again.
pub clean_subject_loop-stops :
    (all : Bool) (s : Bytes)
    → (clean_subject_loop (length s) all 0 s ≤ length s)
      × (removable all (drop (clean_subject_loop (length s) all 0 s) s) ≡ 0)
      × ((fuel : ℕ)
          → clean_subject_loop fuel all 0 (drop (clean_subject_loop (length s) all 0 s) s) ≡ 0)
clean_subject_loop-stops all s =
    let r = clean_subject_loop-Stopped (length s) all 0 s (omega arith) in
    let e : clean_subject_loop (length s) all 0 s ≡ r.moved = omega (arith, r.reached) in
    let clean = ap (λ k. removable all (drop k s)) e ∙ r.clean in
    (omega (arith, r.inside), clean, λ fuel. still fuel _ clean)
  where
    still :
        (fuel : ℕ) (rest : Bytes) → removable all rest ≡ 0 → clean_subject_loop fuel all 0 rest ≡ 0
    still zero rest z = unfold clean_subject_loop in refl
    still (suc fuel) rest z =
        let t : (removable all rest == 0) ≡ true = ground arith in
        unfold clean_subject_loop in rw (t, clean_subject_loop) refl
