-- ===== src/FileHeader/Names.antt =====
-- gitdiff/file_header.go: what `cleanName` leaves.
use go_gitdiff.Base.{
  ℕ, ◌-◌, append-nil, append_assoc, ◌≡◌, refl, sym, Bool, true, false, ◌&&◌, [], ◌∷◌, ◌++◌, Bytes,
  ltb, ◌==◌, arith, if◌then◌else◌,
}
use go_gitdiff.FileHeader.{clean_loop}

-- The name has no two slashes side by side.
abbrev pub IsClean : Bytes → Type 0
IsClean [] = Unit {0}
IsClean (c ∷ []) = Unit {0}
IsClean (c ∷ d ∷ s) = ((c == b'/' && d == b'/') ≡ false) × IsClean (d ∷ s)

-- The last byte of a name, if it has one, and the next one are not both slashes.
abbrev Joins : Bytes → ℕ → Type 0
Joins [] d = Unit {0}
Joins (c ∷ []) d = (c == b'/' && d == b'/') ≡ false
Joins (c ∷ e ∷ s) d = Joins (e ∷ s) d

IsClean-snoc : (s : Bytes) (d : ℕ) → IsClean s → Joins s d → IsClean (s ++ d ∷ [])
IsClean-snoc [] d h j = tt
IsClean-snoc (c ∷ []) d h j = (j, tt)
IsClean-snoc (c ∷ e ∷ s) d (x, h) j = (x, IsClean-snoc (e ∷ s) d h j)

Joins-snoc : (s : Bytes) (c d : ℕ) → (c == b'/' && d == b'/') ≡ false → Joins (s ++ c ∷ []) d
Joins-snoc [] c d h = h
Joins-snoc (e ∷ []) c d h = h
Joins-snoc (e ∷ g ∷ s) c d h = Joins-snoc (g ∷ s) c d h

if-IsClean :
    (b : Bool) (x y : Bytes)
    → (b ≡ true → IsClean x)
    → (b ≡ false → IsClean y)
    → IsClean (if b then x else y)
if-IsClean true x y p q = p refl
if-IsClean false x y p q = q refl

-- A skipped slash is like the one behind it.
Joins-skip : (out : Bytes) (c d : ℕ) → (c == b'/' && d == b'/') ≡ true → Joins out c → Joins out d
Joins-skip [] c d e j = tt
Joins-skip (b ∷ []) c d e j = ground arith
Joins-skip (b ∷ b' ∷ out) c d e j = Joins-skip (b' ∷ out) c d e j

clean_loop-IsClean :
    (s out : Bytes) (n c : ℕ) → IsClean out → Joins out c → IsClean (clean_loop out n (c ∷ s))
unfolding clean_loop
clean_loop-IsClean [] out n c h j =
    if-IsClean (c == b'/' && ltb 0 n) [] (out ++ c ∷ []) (λ e. tt) (λ e. IsClean-snoc out c h j)
clean_loop-IsClean (d ∷ s) out n c h j =
    if-IsClean (c == b'/' && d == b'/') _ _
      (λ e. clean_loop-IsClean s out n d h (Joins-skip out c d e j))
      (λ e.
        if-IsClean (c == b'/' && ltb 0 n) _ _ (λ e'. clean_loop-IsClean s [] (n - 1) d tt tt)
          (λ e'.
            clean_loop-IsClean s (out ++ c ∷ []) n d (IsClean-snoc out c h j)
              (Joins-snoc out c d e)))

cleaned-IsClean : (s : Bytes) (n : ℕ) → IsClean (clean_loop [] n s)
cleaned-IsClean [] n = unfold clean_loop in tt
cleaned-IsClean (c ∷ s) n = clean_loop-IsClean s [] n c tt tt

-- A name that `cleanName` has cleaned is left alone when it is cleaned again with nothing to drop.
unchanged : (s out : Bytes) → IsClean s → clean_loop out 0 s ≡ out ++ s
unfolding clean_loop
unchanged [] out h = sym (append-nil out)
unchanged (c ∷ []) out h = ground arith
unchanged (c ∷ d ∷ s) out (x, h) =
    rw (x) (ground (arith, unchanged (d ∷ s) (out ++ c ∷ []) h, append_assoc out (c ∷ []) (d ∷ s)))

-- What `cleanName` leaves, whatever it was to drop, has no two slashes side by side, and is left alone
-- when it is cleaned again with nothing to drop.
pub clean_loop_lem :
    (s : Bytes) (n : ℕ)
    → IsClean (clean_loop [] n s) × (clean_loop [] 0 (clean_loop [] n s) ≡ clean_loop [] n s)
clean_loop_lem s n = (cleaned-IsClean s n, unchanged (clean_loop [] n s) [] (cleaned-IsClean s n))
