-- ===== src/Base/Bits.antt =====
-- `a << k | b` and `b | a << k` are sums where `b` is below `2 ^ k`, from the definition that the
-- native `bit_or` stands for; masks of one byte as arithmetic.
use Prim.Native.Nat.{max, bit_or, digits, bit_or-bitwise}
use native.Mathlib.Nat.{pow-suc}
use go_gitdiff.Base.{ℕ, zero, suc, ◌+◌, ◌*◌, ◌/◌, ◌%◌, ◌^◌, ◌≤◌, ◌<◌, ◌≡◌, refl, arith}

abbrev or_digits : ℕ → ℕ → ℕ → ℕ
or_digits n a b = digits (λ b. b) max n a b

or_digits_fuel : (n m a b : ℕ) → a ≤ n → a ≤ m → or_digits n a b ≡ or_digits m a b
or_digits_fuel zero zero a b p q = refl
or_digits_fuel zero (suc m) zero b p q = refl
or_digits_fuel zero (suc m) (suc a) b p q = absurd (omega arith)
or_digits_fuel (suc n) zero zero b p q = refl
or_digits_fuel (suc n) zero (suc a) b p q = absurd (omega arith)
or_digits_fuel (suc n) (suc m) zero b p q = refl
or_digits_fuel (suc n) (suc m) (suc a) b p q =
    omega (arith, or_digits_fuel n m (suc a / 2) (b / 2) (omega arith) (omega arith))

pub zero-bit_or : (b : ℕ) → bit_or 0 b ≡ b
zero-bit_or b = bit_or-bitwise 0 b

bit_or_step : (a b : ℕ) → bit_or a b ≡ bit_or (a / 2) (b / 2) * 2 + max (a % 2) (b % 2)
bit_or_step zero b = omega (arith, zero-bit_or b, zero-bit_or (b / 2))
bit_or_step (suc a) b = omega (
  arith,
  bit_or-bitwise (suc a) b,
  bit_or-bitwise (suc a / 2) (b / 2),
  or_digits_fuel a (suc a / 2) (suc a / 2) (b / 2) (omega arith) (omega arith),
)

bit_or-zero_fuel : (n a : ℕ) → a ≤ n → bit_or a 0 ≡ a
bit_or-zero_fuel n zero h = refl
bit_or-zero_fuel zero (suc a) h = absurd (omega arith)
bit_or-zero_fuel (suc n) (suc a) h =
    omega (arith, bit_or_step (suc a) 0, bit_or-zero_fuel n (suc a / 2) (omega arith))

pub bit_or-zero : (a : ℕ) → bit_or a 0 ≡ a
bit_or-zero a = bit_or-zero_fuel a a (omega arith)

double : (a k : ℕ) → a * 2 ^ suc k ≡ 2 * (a * 2 ^ k)
double a k = rw (pow-suc 2 k) (omega arith)

half : (x : ℕ) → 2 * x / 2 ≡ x
half x = omega arith

half_lt : (k b : ℕ) → b < 2 ^ suc k → b / 2 < 2 ^ k
half_lt k b h = omega (arith, pow-suc 2 k)

even_above : (x b y : ℕ) → bit_or x (b / 2) ≡ y + b / 2 → x ≡ y → bit_or (2 * x) b ≡ 2 * y + b
even_above x b y h e = omega (arith, rw half at (bit_or_step (2 * x) b))

even_below : (x b y : ℕ) → bit_or (b / 2) x ≡ b / 2 + y → x ≡ y → bit_or b (2 * x) ≡ b + 2 * y
even_below x b y h e = omega (arith, rw half at (bit_or_step b (2 * x)))

-- The number above goes to the left of the bits below, whichever stands first.
pub bit_or_above : (k a b : ℕ) → b < 2 ^ k → bit_or (a * 2 ^ k) b ≡ a * 2 ^ k + b
bit_or_above zero a b h = let e : b ≡ 0 = omega arith in rw (e, bit_or-zero) (omega arith)
bit_or_above (suc k) a b h =
    rw (double a k) (even_above _ b _ (bit_or_above k a (b / 2) (half_lt k b h)) refl)

pub bit_or_below : (k a b : ℕ) → b < 2 ^ k → bit_or b (a * 2 ^ k) ≡ b + a * 2 ^ k
bit_or_below zero a b h = let e : b ≡ 0 = omega arith in rw (e, zero-bit_or) (omega arith)
bit_or_below (suc k) a b h =
    rw (double a k) (even_below _ b _ (bit_or_below k a (b / 2) (half_lt k b h)) refl)

-- The same, where the number above is known to be a multiple of `2 ^ k`.
pub bit_or_multiple : (k a x b : ℕ) → x ≡ a * 2 ^ k → b < 2 ^ k → bit_or x b ≡ x + b
bit_or_multiple k a x b e h = rw e (bit_or_above k a b h)

pub bit_or_multiple_right : (k a x b : ℕ) → x ≡ a * 2 ^ k → b < 2 ^ k → bit_or b x ≡ b + x
bit_or_multiple_right k a x b e h = rw e (bit_or_below k a b h)
