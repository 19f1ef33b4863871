-- ===== src/Base/Table.antt =====
-- Facts about all numbers below a bound, checked by evaluation.
use go_gitdiff.Base.{ℕ, zero, suc, ◌<◌, ◌≡◌, Bool, true, ◌&&◌, arith, ==_iff, ◌==◌}

unfoldable pub all_below : ℕ → (ℕ → Bool) → Bool
all_below zero p = true
all_below (suc n) p = p n && all_below n p

pub all_below_at :
    (test : ℕ → Bool) (bound c : ℕ) → c < bound → all_below bound test ≡ true → test c ≡ true
unfolding all_below
all_below_at test (suc k) c less ok = ground (arith, all_below_at test k c)
all_below_at test zero c less ok = absurd (omega arith)

-- Two functions that agree at every number below `n`.
pub agree_below :
    (n : ℕ) (f g : ℕ → ℕ) → all_below n (λ x. f x == g x) ≡ true → (x : ℕ) → x < n → f x ≡ g x
agree_below n f g h x lt = (==_iff (f x) (g x)).0 (all_below_at (λ y. f y == g y) n x lt h)
