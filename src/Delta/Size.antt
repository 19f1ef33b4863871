-- ===== src/Delta/Size.antt =====
-- gitdiff/apply_binary.go: `readBinaryDeltaSize` against the numbers that it is to read.
use Prim.Native.Nat.{bit_and}
use native.Mathlib.Nat.{div-add-mod}
use native.Mathlib.Numerals.{towards_suc}
use go_gitdiff.Base.{
  ℕ, zero, suc, ◌+◌, ◌*◌, ◌/◌, ◌%◌, ◌^◌, ◌<◌, ◌≤◌, ◌≡◌, refl, ap, [], ◌∷◌, ◌++◌, Bytes, ltb,
  if◌then◌else◌, arith, IsByte, length,
}
use go_gitdiff.Base.Bits.{bit_or_below}
use go_gitdiff.Base.Table.{all_below, agree_below}
use go_gitdiff.Delta.{add_group, read_size_loop, read_size}

-- `b & 0x7F` on a byte.
low_seven : (b : ℕ) → IsByte b → bit_and b 0x7f ≡ b % 128
unfolding all_below
low_seven = agree_below 256 (λ b. bit_and b 0x7f) (λ b. b % 128) refl

-- A group read above the bits so far is added to them.
add_group_lem :
    (size shift b : ℕ)
    → IsByte b
    → size < 2 ^ shift
    → b % 128 * 2 ^ shift < 2 ^ 64
    → add_group size shift b ≡ size + b % 128 * 2 ^ shift
unfolding add_group
add_group_lem size shift b hb hs hf =
    let small : b % 128 * 2 ^ shift % 2 ^ 64 ≡ b % 128 * 2 ^ shift = omega arith in
    rw (low_seven b hb, small) (bit_or_below shift (b % 128) size hs)

-- The bytes of a size, lowest group first, in at most `k + 1` groups.
pub encode_size : ℕ → ℕ → Bytes
encode_size zero n = n ∷ []
encode_size (suc k) n =
    let more = (n % 128 + 128) ∷ encode_size k (n / 128) in if ltb n 128 then n ∷ [] else more

above_seven : (s : ℕ) → 2 ^ (s + 7) ≡ 128 * 2 ^ s
above_seven s = simp towards_suc (omega arith)

-- A number, shifted, is its lowest group and what stands above that.
lowest_group : (n s : ℕ) → n * 2 ^ s ≡ n % 128 * 2 ^ s + n / 128 * 2 ^ (s + 7)
lowest_group n s = omega (
  arith,
  ap (λ (t : ℕ). t * 2 ^ s) (div-add-mod n 128),
  ap (λ (t : ℕ). n / 128 * t) (above_seven s),
)

below_next :
    (size shift g : ℕ) → size < 2 ^ shift → g < 128 → size + g * 2 ^ shift < 2 ^ (shift + 7)
below_next size shift g hs hg = grind (arith, above_seven shift)

read_last :
    (size shift n : ℕ) (rest : Bytes)
    → n < 128
    → size < 2 ^ shift
    → size + n * 2 ^ shift < 2 ^ 64
    → read_size_loop size shift (n ∷ rest) ≡ (size + n * 2 ^ shift, rest)
unfolding read_size_loop
read_last size shift n rest hn hs hf =
    let low : n % 128 ≡ n = omega arith in
    ground (arith, rw low at (add_group_lem size shift n (omega arith) hs (rw low (omega arith))))

read_inner :
    (size shift g : ℕ) (rest : Bytes)
    → g < 128
    → size < 2 ^ shift
    → size + g * 2 ^ shift < 2 ^ 64
    → read_size_loop size shift ((g + 128) ∷ rest)
      ≡ read_size_loop (size + g * 2 ^ shift) (shift + 7) rest
unfolding read_size_loop
read_inner size shift g rest hg hs hf =
    let low : (g + 128) % 128 ≡ g = omega arith in
    ground (
      arith,
      rw low at (add_group_lem size shift (g + 128) (omega arith) hs (rw low (omega arith))),
    )

read_size_loop-encode_size :
    (k n size shift : ℕ) (rest : Bytes)
    → n < 128 ^ suc k
    → size < 2 ^ shift
    → size + n * 2 ^ shift < 2 ^ 64
    → read_size_loop size shift (encode_size k n ++ rest) ≡ (size + n * 2 ^ shift, rest)
unfolding encode_size
read_size_loop-encode_size zero n size shift rest hn hs hf =
    read_last size shift n rest (omega arith) hs hf
read_size_loop-encode_size (suc k) n size shift rest hn hs hf = ground (
  arith,
  lowest_group n shift,
  read_last size shift n rest,
  below_next size shift (n % 128),
  read_inner size shift (n % 128) (encode_size k (n / 128) ++ rest),
  read_size_loop-encode_size k (n / 128) (size + n % 128 * 2 ^ shift) (shift + 7) rest
      (omega arith),
)

-- A size below 2 ^ 64, written in groups of seven bits, is read back, with what follows it left.
pub read_size-encode_size :
    (n : ℕ) (rest : Bytes) → n < 2 ^ 64 → read_size (encode_size 9 n ++ rest) ≡ (n, rest)
unfolding read_size
read_size-encode_size n rest h = ground (arith, read_size_loop-encode_size 9 n 0 0 rest)

-- What is left of the input after a size is not longer than the input.
read_size_loop-length :
    (d : Bytes) (size shift : ℕ) → length (read_size_loop size shift d).1 ≤ length d
unfolding read_size_loop
read_size_loop-length [] size shift = omega arith
read_size_loop-length (b ∷ d) size shift =
    ground (arith, read_size_loop-length d (add_group size shift b) (shift + 7))
