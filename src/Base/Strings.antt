-- ===== src/Base/Strings.antt =====
-- What the program uses of package strings, on lists of bytes.
use go_gitdiff.Base.{
  ℕ, ◌-◌, Bool, true, false, Option, none, some, [], ◌∷◌, Bytes, ◌==◌, leb, equal, length, drop,
  if◌then◌else◌, ◌≡◌, ap, ◌++◌, arith,
}

-- `strings.HasPrefix` and the rest behind the prefix.
unfoldable pub strip_prefix : Bytes → Bytes → Option Bytes
strip_prefix [] s = some s
strip_prefix (c ∷ p) [] = none
strip_prefix (c ∷ p) (d ∷ s) = let more = strip_prefix p s in if c == d then more else none

unfoldable pub has_prefix : Bytes → Bytes → Bool
unfolding strip_prefix
has_prefix p s = elim (strip_prefix p s) [ none ↦ false | some rest ↦ true ]

-- The parts before and behind the first occurrence of `sep`.
unfoldable pub cut : Bytes → Bytes → Option (Bytes × Bytes)
cut sep [] = elim (strip_prefix sep []) [ none ↦ none | some rest ↦ some ([], rest) ]
cut sep (c ∷ s) = elim (strip_prefix sep (c ∷ s)) [
  | some rest ↦ some ([], rest)
  | none ↦ elim (cut sep s) [ none ↦ none | some (before, behind) ↦ some (c ∷ before, behind) ]
]

-- `strings.TrimSuffix` with one byte.
unfoldable pub trim_last : ℕ → Bytes → Bytes
trim_last c [] = []
trim_last c (d ∷ []) = if d == c then [] else d ∷ []
trim_last c (d ∷ e ∷ s) = d ∷ trim_last c (e ∷ s)

-- `strings.HasSuffix`
unfoldable pub has_suffix : Bytes → Bytes → Bool
has_suffix suffix s =
    if leb (length suffix) (length s)
    then equal (drop (length s - length suffix) s) suffix
    else false

pub trim_last-snoc : (c : ℕ) (s : Bytes) → trim_last c (s ++ c ∷ []) ≡ s
unfolding trim_last
trim_last-snoc c [] = ground arith
trim_last-snoc c (d ∷ []) = ap (◌∷◌ d) (trim_last-snoc c [])
trim_last-snoc c (d ∷ e ∷ s) = ap (◌∷◌ d) (trim_last-snoc c (e ∷ s))
