-- ===== src/LineReader/Offsets.antt =====
-- gitdiff/io.go: lines and the offsets where they end.
use go_gitdiff.Base.{
  ℕ, zero, suc, ◌+◌, ◌<◌, ◌≤◌, ◌≡◌, refl, ap, ◌∙◌, sym, List, [], ◌∷◌, ◌++◌, Bytes, length,
  length-append, take, drop, take-append-drop, get_or, arith, append_assoc,
}
use go_gitdiff.Io.Laws.{take_all}
use go_gitdiff.TextApply.Lines.{joined, joined-append}
use go_gitdiff.LineReader.{last_offset}

-- Where the lines end, from an offset on, and where line `i` begins.
abbrev pub ends : ℕ → List Bytes → List ℕ
ends o [] = []
ends o (l ∷ ls) = (o + length l) ∷ ends (o + length l) ls

abbrev pub begin_of : List Bytes → ℕ → ℕ
begin_of ls i = length (joined (take i ls))

pub length-ends : (o : ℕ) (ls : List Bytes) → length (ends o ls) ≡ length ls
length-ends o [] = refl
length-ends o (l ∷ ls) = ap suc (length-ends (o + length l) ls)

pub ends-snoc :
    (o : ℕ) (ls : List Bytes) (l : Bytes)
    → ends o (ls ++ l ∷ []) ≡ ends o ls ++ (o + length (joined ls) + length l) ∷ []
ends-snoc o [] l = ap (λ x. x ∷ []) (omega arith)
ends-snoc o (m ∷ ls) l =
    let e : o + length m + length (joined ls) + length l ≡ o + length (m ++ joined ls) + length l =
      omega (arith, length-append m (joined ls)) in
    ap (◌∷◌ (o + length m))
      (ends-snoc (o + length m) ls l ∙ ap (λ x. ends (o + length m) ls ++ x ∷ []) e)

pub last_offset-snoc : (xs : List ℕ) (x : ℕ) → last_offset (xs ++ x ∷ []) ≡ x
unfolding last_offset
last_offset-snoc [] x = refl
last_offset-snoc (y ∷ []) x = refl
last_offset-snoc (y ∷ z ∷ xs) x = last_offset-snoc (z ∷ xs) x

pub last_offset-ends :
    (o : ℕ) (l : Bytes) (ls : List Bytes)
    → last_offset (ends o (l ∷ ls)) ≡ o + length (joined (l ∷ ls))
unfolding last_offset
last_offset-ends o l [] = omega (arith, length-append l [])
last_offset-ends o l (m ∷ ls) =
    omega (arith, last_offset-ends (o + length l) m ls, length-append l (joined (m ∷ ls)))

pub last_offset-joined : (ls : List Bytes) → last_offset (ends 0 ls) ≡ length (joined ls)
last_offset-joined [] = unfold last_offset in refl
last_offset-joined (l ∷ ls) = omega (arith, last_offset-ends 0 l ls)

pub get_or-ends :
    (o : ℕ) (ls : List Bytes) (i : ℕ)
    → i < length ls
    → get_or (ends o ls) i 0 ≡ o + begin_of ls (suc i)
get_or-ends o [] i h = absurd (omega arith)
get_or-ends o (l ∷ ls) zero h = omega (arith, length-append l [])
get_or-ends o (l ∷ ls) (suc i) h = omega (
  arith,
  get_or-ends (o + length l) ls i (omega arith),
  length-append l (joined (take (suc i) ls)),
)

take_sum : (a n : ℕ) (ls : List Bytes) → take (a + n) ls ≡ take a ls ++ take n (drop a ls)
take_sum zero n ls = let e : 0 + n ≡ n = omega arith in ap (λ k. take k ls) e
take_sum (suc a) zero [] = let e : suc a + 0 ≡ suc a = omega arith in rw e refl
take_sum (suc a) (suc n) [] = let e : suc a + suc n ≡ suc (a + suc n) = omega arith in rw e refl
take_sum (suc a) n (l ∷ ls) =
    let e : suc a + n ≡ suc (a + n) = omega arith in rw e (ap (◌∷◌ l) (take_sum a n ls))

-- A run of lines begins and ends where its neighbours do.
pub begin_of-sum :
    (a n : ℕ) (ls : List Bytes)
    → begin_of ls (a + n) ≡ begin_of ls a + length (joined (take n (drop a ls)))
begin_of-sum a n ls =
    ap (λ x. length (joined x)) (take_sum a n ls)
    ∙ ap length (joined-append (take a ls) (take n (drop a ls)))
    ∙ length-append (joined (take a ls)) (joined (take n (drop a ls)))

pub begin_of-all : (a : ℕ) (ls : List Bytes) → length ls ≤ a → begin_of ls a ≡ length (joined ls)
begin_of-all a ls h = ap (λ x. length (joined x)) (take_all a ls h)

pub drop_begin : (xs ys : Bytes) → drop (length xs) (xs ++ ys) ≡ ys
drop_begin [] ys = refl
drop_begin (x ∷ xs) ys = drop_begin xs ys

pub take_begin : (xs ys : Bytes) → take (length xs) (xs ++ ys) ≡ xs
take_begin [] ys = refl
take_begin (x ∷ xs) ys = ap (◌∷◌ x) (take_begin xs ys)

-- The bytes of a run of lines.
pub take-drop-joined :
    (a n : ℕ) (ls : List Bytes) (tail : Bytes)
    → take (length (joined (take n (drop a ls)))) (drop (begin_of ls a) (joined ls ++ tail))
      ≡ joined (take n (drop a ls))
take-drop-joined a n ls tail =
    let run = joined (take n (drop a ls)) in
    let behind = joined (drop n (drop a ls)) ++ tail in
    let whole : joined ls ≡ joined (take a ls) ++ (run ++ joined (drop n (drop a ls))) =
      ap joined (sym (take-append-drop a ls))
      ∙ joined-append (take a ls) (drop a ls)
      ∙ ap (λ x. joined (take a ls) ++ x)
          (ap joined (sym (take-append-drop n (drop a ls)))
            ∙ joined-append (take n (drop a ls)) (drop n (drop a ls))) in
    let apart : joined ls ++ tail ≡ joined (take a ls) ++ (run ++ behind) =
      ap (λ x. x ++ tail) whole
      ∙ append_assoc (joined (take a ls)) (run ++ joined (drop n (drop a ls))) tail
      ∙ ap (λ x. joined (take a ls) ++ x) (append_assoc run (joined (drop n (drop a ls))) tail) in
    ap (λ x. take (length run) (drop (begin_of ls a) x)) apart
    ∙ ap (take (length run)) (drop_begin (joined (take a ls)) (run ++ behind))
    ∙ take_begin run behind

pub next_line :
    (ls : List Bytes) (i : ℕ)
    → i < length ls
    → (l : Bytes) × (drop i ls ≡ l ∷ drop (i + 1) ls)
      × (begin_of ls (i + 1) ≡ begin_of ls i + length l)
next_line [] i h = absurd (omega arith)
next_line (l ∷ ls) zero h = (l, refl, omega (arith, length-append l []))
next_line (m ∷ ls) (suc i) h =
    let (l, e, k) = next_line ls i (omega arith) in
    let n : suc i + 1 ≡ suc (i + 1) = omega arith in
    (
      l,
      rw n e,
      rw n (
          omega (
            arith,
            k,
            length-append m (joined (take i ls)),
            length-append m (joined (take (i + 1) ls)),
          )),
    )
