-- ===== src/PatchIdentity/Split.antt =====
-- gitdiff/patch_identity.go: where `ParsePatchIdentity` cuts a text into a name and an address.
use go_gitdiff.Base.{
  ℕ, suc, ◌+◌, ◌-◌, ◌≡◌, ◌≢◌, sym, subst, ap, ◌∙◌, true, false, none, some, [], ◌∷◌, ◌++◌,
  append-nil, append_assoc, Bytes, All, All-append, length, length-append, take, drop, get_elem?,
  ltb, leb, arith, ◌⊎◌, inl, inr,
}
use native.Mathlib.Decide.{ℕ_discrete}
use go_gitdiff.Io.Laws.{drop_all, take_all}
use go_gitdiff.PatchIdentity.{
  index_byte, byte_at, scan_back, scan_forward, find_brackets, split_at_sign, split_brackets,
  split_identity,
}
use go_gitdiff.PatchIdentity.Scan.{
  IsNameByte, IsEmailByte, get_elem?-append, take-append, drop-append, index_byte-append,
  index_byte-none, scan_forward-append, scan_back-append, scan_back_start, scan_forward_end,
  get_elem?-length, find_brackets-append,
}

-- An address is free of `@`, or has a first one.
at_sign_cases :
    (e : Bytes)
    → All (λ c. c ≢ b'@') e ⊎ ((l d : Bytes) × (e ≡ l ++ b'@' ∷ d) × All (λ c. c ≢ b'@') l)
at_sign_cases [] = inl tt
at_sign_cases (c ∷ e) = elim (ℕ_discrete c b'@') [
  | yes same ↦ inr ([], e, ap (λ b. b ∷ e) same, tt)
  | no other ↦ elim (at_sign_cases e) [
    | inl h ↦ inl (other, h)
    | inr (l, d, same, h) ↦ inr (c ∷ l, d, ap (◌∷◌ c) same, (other, h))
  ]
]

pub All-weaken : {P Q : ℕ → Type 0} (f : (c : ℕ) → P c → Q c) (s : Bytes) → All P s → All Q s
All-weaken f [] h = tt
All-weaken f (c ∷ s) (h, k) = (f c h, All-weaken f s k)

All-behind : (P : ℕ → Type 0) (s t : Bytes) → All P (s ++ t) → All P t
All-behind P [] t h = h
All-behind P (c ∷ s) t (h, k) = All-behind P s t k

-- A text with an address `m` in brackets behind `p`, and the indices of the address and behind it.
module _ (p m : Bytes) where
  abbrev pub bracketed : Bytes
  bracketed = p ++ b'<' ∷ (m ++ b'>' ∷ [])

  abbrev first : ℕ
  first = suc (length p)

  abbrev behind : ℕ
  behind = suc (length p) + length m

  behind_address : bracketed ≡ (p ++ b'<' ∷ m) ++ b'>' ∷ []
  behind_address = sym (append_assoc p (b'<' ∷ m) (b'>' ∷ []))

  length-address : length (p ++ b'<' ∷ m) ≡ behind
  length-address = omega (arith, length-append p (b'<' ∷ m))

  opened : byte_at bracketed (length p) b'<' ≡ true
  opened =
      let at : get_elem? bracketed (length p) ≡ some b'<' =
        ap (get_elem? bracketed) (omega arith) ∙ get_elem?-append p _ 0 in
      rw (at, byte_at)

  closed : byte_at bracketed behind b'>' ≡ true
  closed =
      let at : get_elem? bracketed behind ≡ some b'>' =
        ap (get_elem? bracketed) (omega (arith, length-address))
        ∙ ap (λ s. get_elem? s (length (p ++ b'<' ∷ m) + 0)) behind_address
        ∙ get_elem?-append (p ++ b'<' ∷ m) (b'>' ∷ []) 0 in
      rw (at, byte_at)

  nothing_behind : drop (behind + 1) bracketed ≡ []
  nothing_behind =
      drop_all (behind + 1) bracketed
        (omega (arith, length-append p (b'<' ∷ (m ++ b'>' ∷ [])), length-append m (b'>' ∷ [])))

  address : take (behind - first) (drop first bracketed) ≡ m
  address =
      let after : first ≡ length (p ++ b'<' ∷ []) = omega (arith, length-append p (b'<' ∷ [])) in
      let begins : drop first bracketed ≡ m ++ b'>' ∷ [] =
        ap (λ n. drop n bracketed) after
        ∙ ap (drop (length (p ++ b'<' ∷ []))) (sym (append_assoc p (b'<' ∷ []) (m ++ b'>' ∷ [])))
        ∙ drop-append (p ++ b'<' ∷ []) (m ++ b'>' ∷ []) in
      let long : behind - first ≡ length m = omega arith in
      rw (begins, long) (take-append m (b'>' ∷ []))

found_brackets :
    (n : ℕ) (m : Bytes)
    → All IsEmailByte m
    → find_brackets (0 + n) 0 (b'<' ∷ (m ++ b'>' ∷ [])) ≡ (suc n, suc n + length m)
found_brackets n m ok =
    let start : find_brackets (0 + n) 0 (b'<' ∷ (m ++ b'>' ∷ []))
        ≡ find_brackets (suc n) (suc n) (m ++ b'>' ∷ []) =
      unfold find_brackets in ground arith in
    let pass =
      find_brackets-append (suc n) (suc n) m (b'>' ∷ []) (All-weaken (λ c h. (h.2, h.3)) m ok) in
    start ∙ pass ∙ unfold find_brackets in ground arith

module _ (trim_space : Bytes → Bytes) where
  split_at_sign_lem :
      (p m : Bytes) (at : ℕ)
      → scan_back (bracketed p m) (at + 1) ≡ first p m
      → scan_forward at (drop at (bracketed p m)) ≡ behind p m
      → split_at_sign trim_space (bracketed p m) at ≡ (p, m)
  unfolding split_at_sign
  split_at_sign_lem p m at h k =
      let start : first p m - 1 ≡ length p = omega arith in
      let some_start : ltb 0 (first p m) ≡ true = ground arith in
      rw (
        h,
        k,
        start,
        opened p m,
        closed p m,
        nothing_behind p m,
        address p m,
        some_start,
        take-append p (b'<' ∷ (m ++ b'>' ∷ [])),
        append-nil,
      )

  split_brackets_lem :
      (p m : Bytes)
      → split_brackets trim_space (bracketed p m) (first p m, behind p m) ≡ (p, trim_space m)
  unfolding split_brackets
  split_brackets_lem p m =
      let start : first p m - 1 ≡ length p = omega arith in
      let room : leb (first p m) (behind p m) ≡ true = ground arith in
      let some_start : ltb 0 (first p m) ≡ true = ground arith in
      rw (start, room, address p m, some_start, take-append p (b'<' ∷ (m ++ b'>' ∷ [])))

  -- The index of the first `@` in a bracketed text leads to its address.
  split_with_at_sign :
      (p l d : Bytes)
      → All IsNameByte p
      → All IsEmailByte (l ++ b'@' ∷ d)
      → All (λ c. c ≢ b'@') l
      → split_identity trim_space (bracketed p (l ++ b'@' ∷ d)) ≡ (p, l ++ b'@' ∷ d)
  unfolding split_identity
  split_with_at_sign p l d plain ok no_at =
      let m = l ++ b'@' ∷ d in
      let before = p ++ b'<' ∷ l in
      let at = length before in
      let parts : bracketed p m ≡ before ++ b'@' ∷ (d ++ b'>' ∷ []) =
        ap (λ x. p ++ b'<' ∷ x) (append_assoc l (b'@' ∷ d) (b'>' ∷ []))
        ∙ sym (append_assoc p (b'<' ∷ l) (b'@' ∷ (d ++ b'>' ∷ []))) in
      let found : index_byte (bracketed p m) b'@' ≡ some at =
        ap (λ s. index_byte s b'@') parts
        ∙ index_byte-append before (d ++ b'>' ∷ []) b'@' (
            All-append (λ c. c ≢ b'@') p (b'<' ∷ l) (All-weaken (λ c h. h.1) p plain)
              ((λ e. ground arith), no_at)) in
      let sizes : length m ≡ length l + suc (length d) = length-append l (b'@' ∷ d) in
      let place : at ≡ length p + suc (length l) = length-append p (b'<' ∷ l) in
      let up_to : at + 1 ≡ suc (length p + suc (length l)) = omega arith in
      let starts : scan_back (bracketed p m) (at + 1) ≡ first p m =
        ap (scan_back (bracketed p m)) up_to
        ∙ scan_back-append p m (b'>' ∷ []) (suc (length l)) ok (omega arith) in
      let ends : scan_forward at (drop at (bracketed p m)) ≡ behind p m =
        ap (λ s. scan_forward at (drop at s)) parts
        ∙ ap (scan_forward at) (drop-append before (b'@' ∷ (d ++ b'>' ∷ [])))
        ∙ scan_forward-append at (b'@' ∷ d) [] (All-behind IsEmailByte l (b'@' ∷ d) ok)
        ∙ omega arith in
      rw (found, split_identity) (split_at_sign_lem p m at starts ends)

  split_without_at_sign :
      (p m : Bytes)
      → All IsNameByte p
      → All IsEmailByte m
      → All (λ c. c ≢ b'@') m
      → split_identity trim_space (bracketed p m) ≡ (p, trim_space m)
  unfolding split_identity
  split_without_at_sign p m plain ok no_at =
      let none_found : index_byte (bracketed p m) b'@' ≡ none =
        index_byte-none (bracketed p m) b'@' (
          All-append (λ c. c ≢ b'@') p _ (All-weaken (λ c h. h.1) p plain)
            (
              (λ e. ground arith),
              All-append (λ c. c ≢ b'@') m (b'>' ∷ []) no_at ((λ e. ground arith), tt),
            )) in
      let brackets : find_brackets 0 0 (bracketed p m) ≡ (first p m, behind p m) =
        find_brackets-append 0 0 p _ (All-weaken (λ c h. (h.2, h.3)) p plain)
        ∙ found_brackets (length p) m ok in
      rw (none_found, brackets, split_identity) (split_brackets_lem p m)

  -- The name and the address of a text in brackets.
  pub split_identity_lem :
      (p m : Bytes)
      → All IsNameByte p
      → All IsEmailByte m
      → trim_space m ≡ m
      → split_identity trim_space (bracketed p m) ≡ (p, m)
  split_identity_lem p m plain ok trimmed = elim (at_sign_cases m) [
    | inl no_at ↦ split_without_at_sign p m plain ok no_at ∙ ap (λ e. (p, e)) trimmed
    | inr (l, d, same, no_at) ↦
        ap (λ e. split_identity trim_space (bracketed p e)) same
        ∙ split_with_at_sign p l d plain (subst (All IsEmailByte) same ok) no_at
        ∙ ap (λ e. (p, e)) (sym same)
  ]

  -- An address by itself is cut at no bracket.
  pub split_address :
      (l d : Bytes)
      → All IsEmailByte (l ++ b'@' ∷ d)
      → All (λ c. c ≢ b'@') l
      → split_identity trim_space (l ++ b'@' ∷ d) ≡ ([], l ++ b'@' ∷ d)
  unfolding split_identity split_at_sign
  split_address l d ok no_at =
      let m = l ++ b'@' ∷ d in
      let found = index_byte-append l d b'@' no_at in
      let sizes : length m ≡ length l + suc (length d) = length-append l (b'@' ∷ d) in
      let starts : scan_back m (length l + 1) ≡ 0 =
        scan_back_start m (length l + 1) ok (omega arith) in
      let ends : scan_forward (length l) (drop (length l) m) ≡ length m =
        ap (scan_forward (length l)) (drop-append l (b'@' ∷ d))
        ∙ scan_forward_end (length l) (b'@' ∷ d) (All-behind IsEmailByte l (b'@' ∷ d) ok)
        ∙ omega arith in
      let open_end : byte_at m (length m) b'>' ≡ false = rw (get_elem?-length m, byte_at) in
      let whole : length m - 0 ≡ length m = omega arith in
      rw (found, split_identity, split_at_sign)
        (rw (
          starts,
          ends,
          open_end,
          drop_all (length m) m (omega arith),
          whole,
          take_all (length m) m (omega arith),
        ))
