-- ===== src/Parser/Advance.antt =====
-- gitdiff/parser.go: `Next` over the lines of an input.
use go_gitdiff.Base.{
  ℕ, zero, suc, ◌+◌, ◌<◌, ◌≡◌, ◌≢◌, refl, Bool, true, false, Option, none, some, List, [], ◌∷◌,
  Bytes, equal, equal_iff, ◌==◌, drop, All, arith, sym, ap, subst, ◌∙◌, if◌then◌else◌,
}
use go_gitdiff.Errors.{Error, eof}
use go_gitdiff.Parser.{
  StringReader, Parser, new_parser, but_eof, shift_lines, shift_again, shift_twice, count_line,
  shift_last, next_by, next, parsed, next_or_end,
}

-- The documented behaviour of `ReadString`, for a reader whose state `r` has the lines `rest r` left:
-- it gives the next line, with `io.EOF` if that has no end, and at the end nothing.
pub record ReadsStrings {R : Type 0} (read : StringReader R) (rest : R → List Bytes) : Type 0 where
  pub some_text : (r : R) → All (λ l. l ≢ []) (rest r)
  pub more :
      (r : R) {l : Bytes} {ls : List Bytes}
      → rest r ≡ l ∷ ls
      → ((read r).0 ≡ l) × (rest (read r).2 ≡ ls) × (but_eof (read r).1 ≡ none)
  pub done :
      (r : R)
      → rest r ≡ []
      → ((read r).0 ≡ []) × (rest (read r).2 ≡ []) × (but_eof (read r).1 ≡ none)

-- The first line, or no text.
abbrev pub head_or : List Bytes → Bytes
head_or [] = []
head_or (l ∷ ls) = l

abbrev pub no_lines : List Bytes → Bool
no_lines [] = true
no_lines (l ∷ ls) = false

-- The parser stands before the lines `ls`: the first three are read, the reader has the others.
pub record At {R : Type 0} (rest : R → List Bytes) (p : Parser R) (ls : List Bytes) : Type 0 where
  pub first : p.line0 ≡ head_or ls
  pub second : p.line1 ≡ head_or (drop 1 ls)
  pub third : p.line2 ≡ head_or (drop 2 ls)
  pub unread : rest p.r ≡ drop 3 ls
  pub ended : p.eof ≡ no_lines ls
  pub started : 0 < p.lineno
  pub some_text : All (λ l. l ≢ []) ls

head_drop : (ls : List Bytes) (n : ℕ) → drop 1 (drop n ls) ≡ drop (n + 1) ls
head_drop ls zero = refl
head_drop [] (suc n) = let e : suc n + 1 ≡ suc (n + 1) = omega arith in rw e refl
head_drop (l ∷ ls) (suc n) = let e : suc n + 1 ≡ suc (n + 1) = omega arith in rw e (head_drop ls n)

All-drop : (n : ℕ) (ls : List Bytes) → All (λ l. l ≢ []) ls → All (λ l. l ≢ []) (drop n ls)
All-drop zero ls h = h
All-drop (suc n) [] h = h
All-drop (suc n) (l ∷ ls) h = All-drop n ls h.1

module _ {R : Type 0} (read : StringReader R) (rest : R → List Bytes)
    (law : ReadsStrings read rest) where
  -- One read, whatever is left.
  read_lem :
      (r : R) (ls : List Bytes)
      → rest r ≡ ls
      → ((read r).0 ≡ head_or ls) × (rest (read r).2 ≡ drop 1 ls) × (but_eof (read r).1 ≡ none)
  read_lem r [] e = law.done r e
  read_lem r (l ∷ ls) e = law.more r e

  -- The lines of a parser that has been shifted on from `ls`, which has been counted or not.
  record Window (p : Parser R) (ls : List Bytes) : Type 0 where
    pub first : p.line0 ≡ head_or ls
    pub second : p.line1 ≡ head_or (drop 1 ls)
    pub third : p.line2 ≡ head_or (drop 2 ls)
    pub unread : rest p.r ≡ drop 3 ls

  shift_lem :
      (p : Parser R) (ls : List Bytes)
      → p.line1 ≡ head_or ls
      → p.line2 ≡ head_or (drop 1 ls)
      → rest p.r ≡ drop 2 ls
      → Window (shift_lines read p).0 ls × (but_eof (shift_lines read p).1 ≡ none)
  shift_lem p ls a b c =
      let (x, y, z) = read_lem p.r (drop 2 ls) c in
      (record { first = a; second = b; third = x; unread = y ∙ head_drop ls 2 }, z)

  no_text :
      (t : Bytes) (ls : List Bytes)
      → t ≡ head_or ls
      → All (λ l. l ≢ []) ls
      → equal t [] ≡ no_lines ls
  no_text t [] e h = (equal_iff t []).1 e
  no_text t (l ∷ ls) e h = ground (arith, equal_iff t [], h.0)

  -- What a `Next` leaves, for a parser at `ls` with `n` lines read.
  abbrev Moved : List Bytes → ℕ → Parser R × Option Error → Type 0
  Moved ls n (p, e) = At rest p ls × (e ≡ (if no_lines ls then some eof else none)) × (p.lineno ≡ n)

  counted :
      (p : Parser R) (ls : List Bytes)
      → Window p ls
      → p.eof ≡ false
      → All (λ l. l ≢ []) ls
      → Moved ls (p.lineno + 1) (count_line read none p)
  unfolding count_line
  counted p [] w more text = rw (no_text p.line0 [] w.first text) (
    record {
      first = w.first;
      second = w.second;
      third = w.third;
      unread = w.unread;
      ended = refl;
      started = omega arith;
      some_text = text;
    },
    refl,
    refl,
  )
  counted p (l ∷ ls) w more text = rw (no_text p.line0 (l ∷ ls) w.first text) (
    record {
      first = w.first;
      second = w.second;
      third = w.third;
      unread = w.unread;
      ended = more;
      started = omega arith;
      some_text = text;
    },
    refl,
    refl,
  )

  shift_last-Moved :
      (p : Parser R) (ls : List Bytes)
      → p.line1 ≡ head_or ls
      → p.line2 ≡ head_or (drop 1 ls)
      → rest p.r ≡ drop 2 ls
      → p.eof ≡ false
      → All (λ l. l ≢ []) ls
      → Moved ls (p.lineno + 1) (shift_last read none p)
  unfolding shift_last
  shift_last-Moved p ls a b c e text =
      let (w, fine) = shift_lem p ls a b c in
      subst (λ o. Moved ls (p.lineno + 1) (count_line read o (shift_lines read p).0)) (sym fine)
        (counted (shift_lines read p).0 ls w e text)

  -- Over a reader that keeps to its documentation, a `Next` at a line moves on to the lines behind it
  -- and counts it, and reports the end exactly where none is left.
  pub next-At :
      (p : Parser R) (l : Bytes) (ls : List Bytes)
      → At rest p (l ∷ ls)
      → At rest (next read p).0 ls
        × ((next read p).1 ≡ (if no_lines ls then some eof else none))
        × ((next read p).0.lineno ≡ p.lineno + 1)
  unfolding next next_by
  next-At p l ls h =
      let later : (p.lineno == 0) ≡ false = ground (arith, h.started) in
      subst (λ b. Moved ls (p.lineno + 1) (next_by read b (p.lineno == 0) p)) (sym h.ended)
        (subst (λ b. Moved ls (p.lineno + 1) (next_by read false b p)) (sym later)
          (shift_last-Moved p ls h.second h.third h.unread h.ended h.some_text.1))

  -- The first `Next` of a new parser stands before the whole input.
  pub next-new_parser :
      (r : R)
      → At rest (next read (new_parser r)).0 (rest r)
        × ((next read (new_parser r)).1 ≡ (if no_lines (rest r) then some eof else none))
        × ((next read (new_parser r)).0.lineno ≡ 1)
  unfolding next next_by shift_twice shift_again
  next-new_parser r =
      let (x, y, z) = read_lem r (rest r) refl in
      let p = (shift_lines read (new_parser r)).0 in
      let (x', y', z') = read_lem p.r (drop 1 (rest r)) y in
      let q = (shift_lines read p).0 in
      subst
        (λ o. Moved (rest r) 1 (shift_last read (shift_again read o p).1 (shift_again read o p).0))
        (sym z)
        (subst (λ o. Moved (rest r) 1 (shift_last read o q)) (sym z')
          (shift_last-Moved q (rest r) x x' (y' ∙ head_drop (rest r) 1) refl (law.some_text r)))

  but_eof-end : (ls : List Bytes) → but_eof (if no_lines ls then some eof else none) ≡ none
  but_eof-end [] = refl
  but_eof-end (l ∷ ls) = refl

  -- A `Next` at a line, whose end does not count, gives what it is to give.
  pub next_or_end-At {ℓ} :
      {A : Type ℓ} (p : Parser R) (l : Bytes) (ls : List Bytes) (a : A)
      → At rest p (l ∷ ls)
      → next_or_end read p a ≡ ((next read p).0, parsed a)
  unfolding next_or_end
  next_or_end-At p l ls a h =
      let fine : but_eof (next read p).1 ≡ none =
        ap but_eof (next-At p l ls h).1 ∙ but_eof-end ls in
      rw (fine, next_or_end) refl
