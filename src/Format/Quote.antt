-- ===== src/Format/Quote.antt =====
-- gitdiff/format.go: what `WriteQuotedName` writes is printable.
use go_gitdiff.Base.{
  ℕ, ◌+◌, ◌%◌, ◌/◌, ◌≤◌, ◌≡◌, refl, true, false, Option, none, some, [], ◌∷◌, ◌++◌, Bytes,
  if◌then◌else◌, All, arith,
}
use go_gitdiff.Format.{quote_escape, quote_by, quote_byte, quote_loop, quoted_name}

-- A printable byte of ASCII, the space included.
abbrev pub Printable : ℕ → Type 0
Printable c = (32 ≤ c) × (c ≤ 126)

All-append : (a b : Bytes) → All Printable a → All Printable b → All Printable (a ++ b)
All-append [] b h k = k
All-append (c ∷ a) b (h, hs) k = (h, All-append a b hs k)

quote_escape-Printable : (b : ℕ) {q : ℕ} → quote_escape b ≡ some q → Printable q
unfolding quote_escape
quote_escape-Printable b h = ground arith

octal : (b : ℕ) → Printable (48 + b / 64 % 4) × Printable (48 + b / 8 % 8) × Printable (48 + b % 8)
octal b = (omega arith, omega arith, omega arith)

-- A quoted byte is given by printable bytes; a byte that is not quoted is printable.
quote_by-Printable :
    (b : ℕ) (o : Option ℕ) {q : Bytes}
    → quote_escape b ≡ o
    → quote_by b o ≡ some q
    → All Printable q
unfolding quote_by
quote_by-Printable b (some c) {q} e h =
    let (x, y) = quote_escape-Printable b e in
    let same : 92 ∷ c ∷ [] ≡ q = cc (h) in rw (← same) ((omega arith, omega arith), ((x, y), tt))
quote_by-Printable b none {q} e h =
    let same : 92 ∷ (48 + b / 64 % 4) ∷ (48 + b / 8 % 8) ∷ (48 + b % 8) ∷ [] ≡ q = ground arith in
    let (x, y, z) = octal b in rw (← same) ((omega arith, omega arith), (x, (y, (z, tt))))

unquoted-Printable : (b : ℕ) (o : Option ℕ) → quote_by b o ≡ none → Printable b
unfolding quote_by
unquoted-Printable b (some c) h = cc
unquoted-Printable b none h = ground arith

LoopStep : Bytes → ℕ → Option Bytes → Type 0
LoopStep s c o =
    quote_byte c ≡ o → All Printable (quote_loop s).0 → All Printable (quote_loop (c ∷ s)).0

quote_loop-cons : (s : Bytes) (c : ℕ) (o : Option Bytes) → LoopStep s c o
unfolding quote_loop LoopStep quote_byte
quote_loop-cons s c (some q) e h =
    rw (e, quote_loop)
      (All-append q (quote_loop s).0 (quote_by-Printable c (quote_escape c) refl e) h)
quote_loop-cons s c none e h = rw (e, quote_loop) (unquoted-Printable c (quote_escape c) e, h)

quote_loop-Printable : (s : Bytes) → All Printable (quote_loop s).0
unfolding quote_loop LoopStep
quote_loop-Printable [] = tt
quote_loop-Printable (c ∷ s) = quote_loop-cons s c (quote_byte c) refl (quote_loop-Printable s)

-- Whatever bytes a name has, those that `WriteQuotedName` writes for it are printable bytes of ASCII.
pub quoted_name-Printable : (s : Bytes) → All Printable (quoted_name s)
unfolding quoted_name
quoted_name-Printable s =
    elim (quote_loop s).1
      as (λ q. All Printable (if q then 34 ∷ ((quote_loop s).0 ++ 34 ∷ []) else (quote_loop s).0)) [
        | true ↦ (
          (omega arith, omega arith),
          All-append (quote_loop s).0 (34 ∷ []) (quote_loop-Printable s)
              ((omega arith, omega arith), tt),
        )
        | false ↦ quote_loop-Printable s
      ]
