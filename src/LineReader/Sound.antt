-- ===== src/LineReader/Sound.antt =====
-- gitdiff/io.go: `ReadLinesAt` reads the lines of the source.
use go_gitdiff.Base.{
  ℕ, zero, suc, ◌+◌, ◌-◌, ◌<◌, ◌≤◌, ◌≡◌, refl, ap, ◌∙◌, sym, subst, true, false, not, ◌&&◌, none,
  some, Option, List, [], ◌∷◌, ◌++◌, inl, inr, Bytes, length, length-append, length-take,
  length-drop, take, drop, get_or, ltb, leb, ltb-cases, ◌==◌, Bool-cases, arith, if◌then◌else◌,
  append_assoc, append-nil,
}
use go_gitdiff.Base.Int.{pos}
use go_gitdiff.Errors.{Error, eof}
use go_gitdiff.Io.{ReaderAt}
use go_gitdiff.Io.Laws.{take_all, drop_all, buffer_full}
use go_gitdiff.TextApply.Lines.{joined, lines_of}
use go_gitdiff.LineReader.{
  LineReader, new_line_reader, start_offset, byte_size, slice, cut_lines, read_checked, with_end,
  read_cut, read_bytes, read_indexed, index_needed, read_lines_at,
}
use go_gitdiff.LineReader.Offsets.{
  ends, begin_of, length-ends, last_offset-joined, get_or-ends, begin_of-sum, begin_of-all,
  drop_begin, take_begin, take-drop-joined, next_line,
}
use go_gitdiff.LineReader.Index.{
  split_lines, IsIndex, ReadsQuietly, read_inside, Reaches, index_to-Reaches,
}

-- Where line `a` begins, as the index has it.
begin_lem :
    (ls : List Bytes) (a : ℕ)
    → a ≤ length ls
    → (if ltb 0 a then get_or (ends 0 ls) (a - 1) 0 else 0) ≡ begin_of ls a
begin_lem ls zero h = refl
begin_lem ls (suc a) h =
    let e : suc a - 1 ≡ a = omega arith in
    let t : ltb 0 (suc a) ≡ true = ground arith in
    rw (t, e)
      (get_or-ends 0 ls a (omega arith)
        ∙ (let z : 0 + begin_of ls (suc a) ≡ begin_of ls (suc a) = omega arith in z))

start_offset-ends :
    (ls : List Bytes) (a : ℕ) → a ≤ length ls → start_offset (ends 0 ls) a ≡ begin_of ls a
unfolding start_offset
start_offset-ends ls a h =
    let inside : ltb (length (ends 0 ls)) a ≡ false = ground (arith, length-ends 0 ls) in
    rw inside (begin_lem ls a h)

-- The number of bytes that are read is that of the lines.
byte_size-ends :
    (ls : List Bytes) (a n : ℕ)
    → a < length ls
    → 0 < n
    → byte_size (ends 0 ls) a n ≡ length (joined (take n (drop a ls)))
unfolding byte_size
byte_size-ends ls a n h some_lines =
    let sum = begin_of-sum a n ls in
    let start = start_offset-ends ls a (omega arith) in
    let asked : ltb 0 n ≡ true = ground arith in
    elim (Bool-cases (ltb (length (ends 0 ls)) (a + n))) [
      | inl short ↦
          rw (asked, short, start, last_offset-joined ls)
            (omega (arith, sum, begin_of-all (a + n) ls (ground (arith, length-ends 0 ls))))
      | inr long ↦
          let e : suc (a + n - 1) ≡ a + n = omega arith in
          rw
            (asked, long, start, get_or-ends 0 ls (a + n - 1) (ground (arith, length-ends 0 ls)), e)
            (omega (arith, sum))
    ]

line_start :
    (ls : List Bytes) (i base : ℕ) (front : Bytes)
    → i ≤ length ls
    → begin_of ls i ≡ base + length front
    → (if ltb 0 i then get_or (ends 0 ls) (i - 1) 0 - base else 0) ≡ length front
line_start ls zero base front h e = omega (arith, e)
line_start ls (suc i) base front h e =
    let t : ltb 0 (suc i) ≡ true = ground arith in
    let b : get_or (ends 0 ls) (suc i - 1) 0 ≡ begin_of ls (suc i) =
      rw t at (begin_lem ls (suc i) h) in
    rw (t, b) (omega (arith, e))

line_end :
    (ls : List Bytes) (i base : ℕ) (front l : Bytes)
    → i < length ls
    → begin_of ls i ≡ base + length front
    → begin_of ls (i + 1) ≡ begin_of ls i + length l
    → get_or (ends 0 ls) i 0 - base ≡ length front + length l
line_end ls i base front l h e k =
    let s : suc i ≡ i + 1 = omega arith in omega (arith, get_or-ends 0 ls i h, ap (begin_of ls) s)

slice_middle :
    (front l behind : Bytes)
    → slice (front ++ (l ++ behind)) (length front) (length front + length l) ≡ l
slice_middle front l behind =
    let n : length front + length l - length front ≡ length l = omega arith in
    rw n (ap (take (length l)) (drop_begin front (l ++ behind)) ∙ take_begin l behind)

-- The loop over the lines, with `front` the bytes of the buffer before line `i`.
cut_lines-joined :
    (n : ℕ) (ls : List Bytes) (i base : ℕ) (front : Bytes)
    → begin_of ls i ≡ base + length front
    → cut_lines n (ends 0 ls) (front ++ joined (take n (drop i ls))) base i ≡ take n (drop i ls)
unfolding cut_lines
cut_lines-joined zero ls i base front e = refl
cut_lines-joined (suc n) ls i base front e = elim (ltb-cases i (length ls)) [
  | inr behind ↦
      let past : ltb i (length (ends 0 ls)) ≡ false = ground (arith, length-ends 0 ls) in
      rw (past, cut_lines) (ap (take (suc n)) (sym (drop_all i ls behind)))
  | inl inside ↦
      let (l, d, k) = next_line ls i inside in
      let here : ltb i (length (ends 0 ls)) ≡ true = ground (arith, length-ends 0 ls) in
      let more = joined (take n (drop (i + 1) ls)) in
      let buf : front ++ joined (take (suc n) (drop i ls)) ≡ front ++ (l ++ more) =
        ap (λ x. front ++ joined (take (suc n) x)) d in
      let next =
        cut_lines-joined n ls (i + 1) base (front ++ l)
          (omega (arith, e, k, length-append front l)) in
      rw (here, cut_lines)
        (rw (d, line_start ls i base front (omega arith) e, line_end ls i base front l inside e k)
          (let first = slice_middle front l more in
            ap (λ x. x ∷ cut_lines n (ends 0 ls) (front ++ (l ++ more)) base (i + 1)) first
            ∙ ap (λ x. l ∷ cut_lines n (ends 0 ls) x base (i + 1)) (sym (append_assoc front l more))
            ∙ ap (◌∷◌ l) next))
]

begin_of-le : (ls : List Bytes) (a : ℕ) → begin_of ls a ≤ length (joined ls)
begin_of-le ls a =
    omega (arith, begin_of-sum a (length ls) ls, begin_of-all (a + length ls) ls (omega arith))

module _ (read : ReaderAt) (s : Bytes) (law : ReadsQuietly read s) where
  -- `readBytes` reads the bytes of the lines.
  read_bytes-run :
      (ls : List Bytes) (tail : Bytes) (a n : ℕ)
      → s ≡ joined ls ++ tail
      → a < length ls
      → 0 < n
      → read_bytes read (ends 0 ls) a n ≡ (joined (take n (drop a ls)), begin_of ls a, none)
  unfolding read_bytes read_checked
  read_bytes-run ls tail a n whole h some_lines =
      let run = joined (take n (drop a ls)) in
      let size = byte_size-ends ls a n h some_lines in
      let start = start_offset-ends ls a (omega arith) in
      let bytes : take (length run) (drop (begin_of ls a) s) ≡ run =
        ap (λ x. take (length run) (drop (begin_of ls a) x)) whole ∙ take-drop-joined a n ls tail in
      let fits : begin_of ls a + length run ≤ length s = omega (
        arith,
        begin_of-sum a n ls,
        begin_of-le ls (a + n),
        ap length whole,
        length-append (joined ls) tail,
      ) in
      let result : read (length run) (begin_of ls a) ≡ (run, none) =
        read_inside read s (length run) (begin_of ls a) law fits ∙ ap (λ b. (b, none)) bytes in
      rw (size, start)
        (ap (read_checked (length run) (begin_of ls a)) result
          ∙ ap (λ b. (b, begin_of ls a, none)) (buffer_full (length run) run refl))

  read_cut-run :
      (ls : List Bytes) (tail : Bytes) (a n : ℕ)
      → s ≡ joined ls ++ tail
      → a < length ls
      → 0 < n
      → read_cut (ends 0 ls) n a (read_bytes read (ends 0 ls) a n) ≡ with_end n (take n (drop a ls))
  unfolding read_cut
  read_cut-run ls tail a n whole h some_lines =
      ap (read_cut (ends 0 ls) n a) (read_bytes-run ls tail a n whole h some_lines)
      ∙ ap (with_end n) (cut_lines-joined n ls a (begin_of ls a) [] (omega arith))

take-drop-append :
    (xs ys : List Bytes) (a n : ℕ)
    → a + n ≤ length xs
    → take n (drop a (xs ++ ys)) ≡ take n (drop a xs)
take-drop-append xs ys zero zero h = refl
take-drop-append [] ys zero (suc n) h = absurd (omega arith)
take-drop-append (x ∷ xs) ys zero (suc n) h =
    ap (◌∷◌ x) (take-drop-append xs ys zero n (omega arith))
take-drop-append [] ys (suc a) n h = absurd (omega arith)
take-drop-append (x ∷ xs) ys (suc a) n h = take-drop-append xs ys a n (omega arith)

-- What is cut out of the lines of the index is what the lines of the source give.
with_end-inside :
    (xs ys : List Bytes) (a n : ℕ)
    → a + n ≤ length xs
    → with_end n (take n (drop a xs)) ≡ lines_of (xs ++ ys) n a
with_end-inside xs ys a n h =
    rw (take-drop-append xs ys a n h)
      (ground (arith, length-append xs ys, length-take n (drop a xs), length-drop a xs))

with_end-all :
    (xs : List Bytes) (a n : ℕ) → a < length xs → with_end n (take n (drop a xs)) ≡ lines_of xs n a
with_end-all xs a n h = ground (arith, length-take n (drop a xs), length-drop a xs)

lines_of-behind :
    (xs : List Bytes) (a n : ℕ) → length xs ≤ a → 0 < n → lines_of xs n a ≡ ([], some eof)
lines_of-behind xs a n h some_lines = ground (arith, drop_all a xs h, take_all n (drop a xs))

module _ (read : ReaderAt) (s : Bytes) (law : ReadsQuietly read s) where
  -- A call that leaves a good index and has read `n` lines from line `a` on.
  abbrev pub Answers : ℕ → ℕ → LineReader × List Bytes × Option Error → Type 0
  Answers n a (r, lines, e) =
      let found : List Bytes × Option Error = (lines, e) in
      IsIndex s r × (found ≡ lines_of (split_lines s) n a)

  read_indexed-Answers :
      (n a : ℕ) (r : LineReader) (e : Option Error)
      → 0 < n
      → Reaches s (a + n) (r, e)
      → Answers n a (read_indexed read n a (r, e))
  unfolding read_indexed
  read_indexed-Answers n a r (some e) some_lines (fine, h, reached) = cc
  read_indexed-Answers n a r none some_lines (fine, h, reached) =
      let size : length r.index ≡ length h.lines = ap length h.indexed ∙ length-ends 0 h.lines in
      let all : r.eof ≡ true → split_lines s ≡ h.lines = λ e.
        h.splits
        ∙ ap (λ x. h.lines ++ split_lines x) (h.ended e)
        ∙ (unfold split_lines in append-nil h.lines) in
      elim (Bool-cases (leb (length r.index) a)) [
        | inl behind ↦
            rw (behind, read_indexed)
              (
                h,
                elim reached [
                  | inl k ↦ absurd (ground arith)
                  | inr e ↦ sym (
                      ap (λ x. lines_of x n a) (all e)
                      ∙ lines_of-behind h.lines a n (ground arith) some_lines)
                ],
              )
        | inr inside ↦
            let cut =
              ap (λ x. read_cut x n a (read_bytes read x a n)) h.indexed
              ∙ read_cut-run read s law h.lines h.tail a n h.whole (ground arith) some_lines in
            rw (inside, read_indexed)
              (
                h,
                cut ∙ elim reached [
                  | inl k ↦
                      with_end-inside h.lines (split_lines h.tail) a n (omega arith)
                      ∙ ap (λ x. lines_of x n a) (sym h.splits)
                  | inr e ↦
                      with_end-all h.lines a n (ground arith)
                      ∙ ap (λ x. lines_of x n a) (sym (all e))
                ],
              )
      ]

  index_needed-Reaches :
      (fuel line : ℕ) (r : LineReader)
      → IsIndex s r
      → length s < fuel
      → Reaches s line (index_needed read fuel line r)
  index_needed-Reaches fuel line r h enough = elim (Bool-cases (ltb (length r.index) line)) [
    | inr there ↦ rw there (refl, h, inl (ground arith))
    | inl more ↦ elim (Bool-cases r.eof) [
      | inl end ↦
          let c : (ltb (length r.index) line && not r.eof) ≡ false =
            ap (λ b. b && not r.eof) more ∙ ap (λ b. true && not b) end in
          rw c (refl, h, inr end)
      | inr open_end ↦
          let c : (ltb (length r.index) line && not r.eof) ≡ true =
            ap (λ b. b && not r.eof) more ∙ ap (λ b. true && not b) open_end in
          rw c (index_to-Reaches read s law fuel line r h open_end enough)
    ]
  ]

  -- Over a reader that keeps to its documentation and reports the end of the source only where it could
  -- not fill the buffer, and with more fuel than the source has bytes, `ReadLinesAt` of a reader whose
  -- index is good reads the lines of the source as the list of them gives them, with `io.EOF`
  -- where there are too few, and leaves a good index.
  pub read_lines_at-Answers :
      (fuel n a : ℕ) (r : LineReader)
      → IsIndex s r
      → length s < fuel
      → Answers n a (read_lines_at read fuel r n (pos a))
  unfolding read_lines_at
  read_lines_at-Answers fuel n a r h enough = elim (Bool-cases (n == 0)) [
    | inl nothing ↦
        let z : n ≡ 0 = ground arith in rw (nothing, read_lines_at) (h, rw z (ground arith))
    | inr some_lines ↦
        let r' = index_needed read fuel (a + n) r in
        subst (λ b. Answers n a (if b then (r, [], none) else read_indexed read n a r'))
          (sym some_lines)
          (read_indexed-Answers n a r'.0 r'.1 (ground arith)
            (index_needed-Reaches fuel (a + n) r h enough))
  ]

  -- A new reader has a good index.
  pub new_line_reader-IsIndex : IsIndex s new_line_reader
  new_line_reader-IsIndex = record {
    lines = [];
    tail = s;
    splits = refl;
    whole = refl;
    indexed = refl;
    ended = λ e. cc;
  }
