-- ===== src/Delta/Unpack.antt =====
-- gitdiff/apply_binary.go: the bytes of an offset and a size, of which the zero ones are left out,
-- are unpacked to the numbers that they spell.
use Prim.Native.Nat.{bit_and, bit_or}
use go_gitdiff.Base.{
  ℕ, suc, ◌+◌, ◌-◌, ◌*◌, ◌/◌, ◌%◌, ◌^◌, ◌<◌, ◌≤◌, ◌≡◌, refl, sym, ap, ◌∙◌, Bool, true, false, not,
  [], ◌∷◌, ◌++◌, Bytes, ltb, ◌==◌, if◌then◌else◌, arith, IsByte, Bool-cases, inl, inr, ==_iff,
}
use go_gitdiff.Base.Bits.{bit_or-zero, zero-bit_or, bit_or_multiple_right}
use go_gitdiff.Base.Table.{all_below, all_below_at, agree_below}
use go_gitdiff.Delta.{unpack}

-- A flag is set for a byte that is present, and that is one that is not zero.
abbrev pub flag : ℕ → ℕ
flag b = if b == 0 then 0 else 1

abbrev pub present : ℕ → Bytes
present b = if b == 0 then [] else b ∷ []

-- The test `op&mask > 0` against the digits of the opcode.
mask_test : ℕ → ℕ → Bool
mask_test k op = if ltb 0 (bit_and op (2 ^ k)) then op / 2 ^ k % 2 == 1 else op / 2 ^ k % 2 == 0

mask_table : (k op : ℕ) → k < 7 → IsByte op → mask_test k op ≡ true
unfolding mask_test all_below
mask_table k op hk ho =
    all_below_at (mask_test k) 256 op ho
      (all_below_at (λ j. all_below 256 (mask_test j)) 7 k hk refl)

mask_flag :
    (k op b : ℕ)
    → k < 7
    → IsByte op
    → op / 2 ^ k % 2 ≡ flag b
    → ltb 0 (bit_and op (2 ^ k)) ≡ not (b == 0)
unfolding mask_test
mask_flag k op b hk ho e = ground (arith, mask_table k op hk ho)

present-zero : (b : ℕ) → (b == 0) ≡ true → present b ≡ []
present-zero b h = rw h

present-some : (b : ℕ) → (b == 0) ≡ false → present b ≡ b ∷ []
present-some b h = rw h

or_absent : (i v b : ℕ) → b ≡ 0 → bit_or v (b * 2 ^ (8 * i)) ≡ v
or_absent i v b z =
    let none_left : b * 2 ^ (8 * i) ≡ 0 = rw z (omega arith) in rw none_left (bit_or-zero v)

-- One round of `unpack`, over a byte that is present if it is not zero.
unpack_round :
    (op start bits i v b : ℕ) (rest : Bytes)
    → ltb 0 (bit_and op (2 ^ (i + start))) ≡ not (b == 0)
    → unpack op start (suc bits) i v (present b ++ rest)
      ≡ unpack op start bits (i + 1) (bit_or v (b * 2 ^ (8 * i))) rest
unfolding unpack
unpack_round op start bits i v b rest e = elim (Bool-cases (b == 0)) [
  | inl absent ↦
      let z : b ≡ 0 = (==_iff b 0).0 absent in
      rw (present-zero b absent) (
        rw (e, unpack)
          (rw absent (ap (λ u. unpack op start bits (i + 1) u rest) (sym (or_absent i v b z)))))
  | inr there ↦ rw (present-some b there) (rw (e, unpack) (rw there refl))
]

-- The bytes of a number of four groups that are not zero, and those of one of three.
abbrev pub four_present : ℕ → ℕ → ℕ → ℕ → Bytes → Bytes
four_present a b c d rest = present a ++ (present b ++ (present c ++ (present d ++ rest)))

abbrev pub three_present : ℕ → ℕ → ℕ → Bytes → Bytes
three_present a b c rest = present a ++ (present b ++ (present c ++ rest))

-- The opcode of a copy: its flags are the lowest seven bits.
abbrev pub opcode_of : ℕ → ℕ → ℕ → ℕ → ℕ → ℕ → ℕ → ℕ
opcode_of a b c d e f g =
    128 + flag a + 2 * flag b + 4 * flag c + 8 * flag d + 16 * flag e + 32 * flag f + 64 * flag g

or_two : (a b : ℕ) → IsByte a → bit_or (bit_or 0 (a * 2 ^ 0)) (b * 2 ^ 8) ≡ a + b * 2 ^ 8
or_two a b ha =
    rw zero-bit_or
      (bit_or_multiple_right 8 b (b * 2 ^ 8) (a * 2 ^ 0) refl (omega arith) ∙ omega arith)

or_three :
    (a b c : ℕ)
    → IsByte a
    → IsByte b
    → bit_or (bit_or (bit_or 0 (a * 2 ^ 0)) (b * 2 ^ 8)) (c * 2 ^ 16) ≡ a + b * 2 ^ 8 + c * 2 ^ 16
or_three a b c ha hb =
    rw (or_two a b ha) (bit_or_multiple_right 16 c (c * 2 ^ 16) (a + b * 2 ^ 8) refl (omega arith))

or_four :
    (a b c d : ℕ)
    → IsByte a
    → IsByte b
    → IsByte c
    → bit_or (bit_or (bit_or (bit_or 0 (a * 2 ^ 0)) (b * 2 ^ 8)) (c * 2 ^ 16)) (d * 2 ^ 24)
      ≡ a + b * 2 ^ 8 + c * 2 ^ 16 + d * 2 ^ 24
or_four a b c d ha hb hc =
    rw (or_three a b c ha hb)
      (bit_or_multiple_right 24 d (d * 2 ^ 24) (a + b * 2 ^ 8 + c * 2 ^ 16) refl (omega arith))

-- The digits of a number that is given by them.
digits_of :
    (a b c d e f g : ℕ)
    → a < 2
    → b < 2
    → c < 2
    → d < 2
    → e < 2
    → f < 2
    → g < 2
    → let n = 128 + a + 2 * b + 4 * c + 8 * d + 16 * e + 32 * f + 64 * g in
      (n < 256)
      × (n / 1 % 2 ≡ a)
      × (n / 2 % 2 ≡ b)
      × (n / 4 % 2 ≡ c)
      × (n / 8 % 2 ≡ d)
      × (n / 16 % 2 ≡ e)
      × (n / 32 % 2 ≡ f)
      × (n / 64 % 2 ≡ g)
digits_of a b c d e f g ha hb hc hd he hf hg = omega arith

top_test : ℕ → Bool
top_test n = bit_and (n + 128) 0x80 == 0x80

top_set : (n : ℕ) → n < 256 → 128 ≤ n → (bit_and n 0x80 == 0x80) ≡ true
unfolding top_test all_below
top_set n h k =
    let e : n - 128 + 128 ≡ n = omega arith in
    rw e at (all_below_at top_test 128 (n - 128) (omega arith) refl)

pub low_clear : (n : ℕ) → n < 128 → (bit_and n 0x80 == 0x80) ≡ false
low_clear n h =
    ground (arith, agree_below 128 (λ b. bit_and b 0x80) (λ b. 0) (unfold all_below in refl) n h)

flag-lt : (b : ℕ) → flag b < 2
flag-lt b = ground arith

module _ (a b c d e f g : ℕ) where
  abbrev op : ℕ
  op = opcode_of a b c d e f g

  opcode_digits :
      (op < 256)
      × (op / 1 % 2 ≡ flag a)
      × (op / 2 % 2 ≡ flag b)
      × (op / 4 % 2 ≡ flag c)
      × (op / 8 % 2 ≡ flag d)
      × (op / 16 % 2 ≡ flag e)
      × (op / 32 % 2 ≡ flag f)
      × (op / 64 % 2 ≡ flag g)
  opcode_digits =
      digits_of (flag a) (flag b) (flag c) (flag d) (flag e) (flag f) (flag g) (flag-lt a)
        (flag-lt b) (flag-lt c) (flag-lt d) (flag-lt e) (flag-lt f) (flag-lt g)

  -- The four bytes of the offset.
  pub unpack_offset :
      (rest : Bytes)
      → IsByte a
      → IsByte b
      → IsByte c
      → unpack op 0 4 0 0 (four_present a b c d rest)
        ≡ record { value = a + b * 2 ^ 8 + c * 2 ^ 16 + d * 2 ^ 24; rest = rest; short = false }
  unpack_offset rest ha hb hc =
      let (ho, da, db, dc, dd, de, df, dg) = opcode_digits in
      unpack_round op 0 3 0 0 a _ (mask_flag 0 op a (omega arith) ho da)
      ∙ unpack_round op 0 2 1 _ b _ (mask_flag 1 op b (omega arith) ho db)
      ∙ unpack_round op 0 1 2 _ c _ (mask_flag 2 op c (omega arith) ho dc)
      ∙ unpack_round op 0 0 3 _ d _ (mask_flag 3 op d (omega arith) ho dd)
      ∙ (unfold unpack in
          ap (λ v. record { value = v; rest = rest; short = false }) (or_four a b c d ha hb hc))

  -- The three bytes of the size.
  pub unpack_size :
      (rest : Bytes)
      → IsByte e
      → IsByte f
      → unpack op 4 3 0 0 (three_present e f g rest)
        ≡ record { value = e + f * 2 ^ 8 + g * 2 ^ 16; rest = rest; short = false }
  unpack_size rest he hf =
      let (ho, da, db, dc, dd, de, df, dg) = opcode_digits in
      unpack_round op 4 2 0 0 e _ (mask_flag 4 op e (omega arith) ho de)
      ∙ unpack_round op 4 1 1 _ f _ (mask_flag 5 op f (omega arith) ho df)
      ∙ unpack_round op 4 0 2 _ g _ (mask_flag 6 op g (omega arith) ho dg)
      ∙ (unfold unpack in
          ap (λ v. record { value = v; rest = rest; short = false }) (or_three e f g he hf))

  -- The test `op & 0x80` of the loop.
  pub opcode_is_copy : ((op == 0) ≡ false) × ((bit_and op 0x80 == 0x80) ≡ true)
  opcode_is_copy = (ground arith, top_set op opcode_digits.0 (omega arith))
