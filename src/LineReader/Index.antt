-- ===== src/LineReader/Index.antt =====
-- gitdiff/io.go: `indexTo` finds the ends of the lines of the source.
use go_gitdiff.Base.{
  ℕ, zero, suc, ◌+◌, ◌<◌, ◌≤◌, ◌≡◌, refl, ap, ◌∙◌, sym, subst, true, false, none, some, Option,
  List, [], ◌∷◌, ◌++◌, ◌⊎◌, inl, inr, Bytes, length, length-append, length-drop, take, drop,
  take-append-drop, ltb, ltb-cases, ◌==◌, All, All-append, Bool-cases, arith, if◌then◌else◌,
  append_assoc, append-nil,
}
use go_gitdiff.Errors.{Error, eof}
use go_gitdiff.Io.{ReaderAt, ReadsAt}
use go_gitdiff.Io.Laws.{take_all}
use go_gitdiff.TextApply.Lines.{joined, joined-append}
use go_gitdiff.LineReader.{
  LineReader, last_offset, scan, index_end, index_round, index_loop, index_to,
}
use go_gitdiff.LineReader.Offsets.{ends, ends-snoc, last_offset-joined, drop_begin}

-- The lines of a source: each holds its newline, and the last one may have none.
abbrev pub cons_head : ℕ → List Bytes → List Bytes
cons_head c [] = (c ∷ []) ∷ []
cons_head c (l ∷ ls) = (c ∷ l) ∷ ls

unfoldable pub split_lines : Bytes → List Bytes
split_lines [] = []
split_lines (c ∷ s) =
    let rest = split_lines s in if c == b'\n' then (c ∷ []) ∷ rest else cons_head c rest

abbrev Plain : Bytes → Type 0
Plain s = All (λ c. (c == b'\n') ≡ false) s

split_lines-line :
    (s rest : Bytes) (b : ℕ)
    → Plain s
    → (b == b'\n') ≡ true
    → split_lines (s ++ b ∷ rest) ≡ (s ++ b ∷ []) ∷ split_lines rest
unfolding split_lines
split_lines-line [] rest b h e = rw (e, split_lines) refl
split_lines-line (c ∷ s) rest b h e =
    rw (h.0, split_lines) (ap (cons_head c) (split_lines-line s rest b h.1 e))

split_lines-Plain : (c : ℕ) (s : Bytes) → Plain (c ∷ s) → split_lines (c ∷ s) ≡ (c ∷ s) ∷ []
unfolding split_lines
split_lines-Plain c [] h = rw (h.0, split_lines) refl
split_lines-Plain c (d ∷ s) h = rw (h.0, split_lines) (ap (cons_head c) (split_lines-Plain d s h.1))

-- The source `s` has been read up to `offset`, and `rest` is left; the lines `ls` are in the index.
record Scanned (s : Bytes) (rest : Bytes) (offset : ℕ) (index : List ℕ) : Type 0 where
  lines : List Bytes
  pending : Bytes
  plain : Plain pending
  splits : split_lines s ≡ lines ++ split_lines (pending ++ rest)
  whole : s ≡ joined lines ++ (pending ++ rest)
  indexed : index ≡ ends 0 lines
  reached : offset ≡ length (joined lines) + length pending

abbrev ScannedTo : Bytes → Bytes → ℕ × List ℕ → Type 0
ScannedTo s rest (offset, index) = Scanned s rest offset index

Scanned-line :
    (s rest : Bytes) (b offset : ℕ) (index : List ℕ)
    → (b == b'\n') ≡ true
    → Scanned s (b ∷ rest) offset index
    → Scanned s rest (offset + 1) (index ++ (offset + 1) ∷ [])
Scanned-line s rest b offset index e h =
    let line = h.pending ++ b ∷ [] in
    let n : length line ≡ length h.pending + 1 = length-append h.pending (b ∷ []) in
    record {
      lines = h.lines ++ line ∷ [];
      pending = [];
      plain = tt;
      splits =
          h.splits
          ∙ ap (λ x. h.lines ++ x) (split_lines-line h.pending rest b h.plain e)
          ∙ sym (append_assoc h.lines (line ∷ []) (split_lines rest));
      whole =
          h.whole
          ∙ ap (λ x. joined h.lines ++ x) (sym (append_assoc h.pending (b ∷ []) rest))
          ∙ sym (append_assoc (joined h.lines) line rest)
          ∙ ap (λ x. x ++ rest)
              (sym (
                joined-append h.lines (line ∷ [])
                ∙ ap (λ x. joined h.lines ++ x) (append-nil line)));
      indexed =
          ap (λ x. x ++ (offset + 1) ∷ []) h.indexed
          ∙ ap (λ x. ends 0 h.lines ++ x ∷ []) (omega (arith, h.reached))
          ∙ sym (ends-snoc 0 h.lines line);
      reached = omega (
        arith,
        h.reached,
        ap length (joined-append h.lines (line ∷ [])),
        length-append (joined h.lines) (joined (line ∷ [])),
        ap length (append-nil line),
      );
    }

Scanned-byte :
    (s rest : Bytes) (b offset : ℕ) (index : List ℕ)
    → (b == b'\n') ≡ false
    → Scanned s (b ∷ rest) offset index
    → Scanned s rest (offset + 1) index
Scanned-byte s rest b offset index e h =
    let same = append_assoc h.pending (b ∷ []) rest in
    record {
      lines = h.lines;
      pending = h.pending ++ b ∷ [];
      plain = All-append (λ c. (c == b'\n') ≡ false) h.pending (b ∷ []) h.plain (e, tt);
      splits = h.splits ∙ ap (λ x. h.lines ++ split_lines x) (sym same);
      whole = h.whole ∙ ap (λ x. joined h.lines ++ x) (sym same);
      indexed = h.indexed;
      reached = omega (arith, h.reached, length-append h.pending (b ∷ []));
    }

-- The loop over a buffer goes on with what is left.
scan-Scanned :
    (s bs rest : Bytes) (offset : ℕ) (index : List ℕ)
    → Scanned s (bs ++ rest) offset index
    → ScannedTo s rest (scan offset index bs)
unfolding scan
scan-Scanned s [] rest offset index h = h
scan-Scanned s (b ∷ bs) rest offset index h = elim (Bool-cases (b == b'\n')) [
  | inl e ↦
      rw (e, scan)
        (scan-Scanned s bs rest (offset + 1) (index ++ (offset + 1) ∷ [])
          (Scanned-line s (bs ++ rest) b offset index e h))
  | inr e ↦
      rw (e, scan)
        (scan-Scanned s bs rest (offset + 1) index (Scanned-byte s (bs ++ rest) b offset index e h))
]

-- A reader whose index has the ends of the first lines of `s`, and of all of them at its end.
pub record IsIndex (s : Bytes) (r : LineReader) : Type 0 where
  pub lines : List Bytes
  pub tail : Bytes
  pub splits : split_lines s ≡ lines ++ split_lines tail
  pub whole : s ≡ joined lines ++ tail
  pub indexed : r.index ≡ ends 0 lines
  pub ended : r.eof ≡ true → tail ≡ []

Scanned-IsIndex :
    (s rest : Bytes) (offset : ℕ) (r : LineReader)
    → r.eof ≡ false
    → Scanned s rest offset r.index
    → IsIndex s r
Scanned-IsIndex s rest offset r e h = record {
  lines = h.lines;
  tail = h.pending ++ rest;
  splits = h.splits;
  whole = h.whole;
  indexed = h.indexed;
  ended = λ x. cc;
}

-- What the end of the source adds to the index.
index_end-IsIndex :
    (s : Bytes) (p : ℕ × List ℕ)
    → ScannedTo s [] p
    → IsIndex s (index_end p) × ((index_end p).eof ≡ true)
unfolding index_end
index_end-IsIndex s (offset, index) h = (by_pending h.pending refl, refl)
  where
    last : last_offset index ≡ length (joined h.lines)
    last = ap last_offset h.indexed ∙ last_offset-joined h.lines

    by_pending : (t : Bytes) → t ≡ h.pending → IsIndex s (index_end (offset, index))
    by_pending [] e =
        let none_left : ltb (last_offset index) offset ≡ false = ground (arith, h.reached, last) in
        let same : [] ++ [] ≡ h.pending ++ [] = ap (λ x. x ++ []) e in
        rw (none_left, index_end)
          (record {
            lines = h.lines;
            tail = [];
            splits = h.splits ∙ ap (λ x. h.lines ++ split_lines x) (sym same);
            whole = h.whole ∙ ap (λ x. joined h.lines ++ x) (sym same);
            indexed = h.indexed;
            ended = λ x. refl;
          })
    by_pending (c ∷ t) e =
        let some_left : ltb (last_offset index) offset ≡ true =
          ground (arith, h.reached, last, ap length e) in
        let same : c ∷ t ≡ h.pending ++ [] = e ∙ sym (append-nil h.pending) in
        let plain : Plain (c ∷ t) = subst Plain (sym e) h.plain in
        let line = (c ∷ t) ∷ [] in
        rw (some_left, index_end)
          (record {
            lines = h.lines ++ line;
            tail = [];
            splits =
                h.splits
                ∙ ap (λ x. h.lines ++ split_lines x) (sym same)
                ∙ ap (λ x. h.lines ++ x) (split_lines-Plain c t plain)
                ∙ sym (append-nil (h.lines ++ line))
                ∙ (unfold split_lines in refl);
            whole =
                h.whole
                ∙ ap (λ x. joined h.lines ++ x) (sym same ∙ sym (append-nil (c ∷ t)))
                ∙ sym (joined-append h.lines line)
                ∙ sym (append-nil (joined (h.lines ++ line)));
            indexed =
                ap (λ x. x ++ offset ∷ []) h.indexed
                ∙ ap (λ x. ends 0 h.lines ++ x ∷ []) (omega (arith, h.reached, ap length e))
                ∙ sym (ends-snoc 0 h.lines (c ∷ t));
            ended = λ x. refl;
          })

-- A reader that keeps to the documentation of `io.ReaderAt`, and reports the end of the source only
-- where it could not fill the buffer.
pub record ReadsQuietly (read : ReaderAt) (s : Bytes) : Type 0 where
  pub reads : ReadsAt read s
  pub quiet : (n off : ℕ) → off + n ≡ length s → read n off ≡ (drop off s, none)

pub read_inside :
    (read : ReaderAt) (s : Bytes) (n off : ℕ)
    → ReadsQuietly read s
    → off + n ≤ length s
    → read n off ≡ (take n (drop off s), none)
read_inside read s n off law h = elim (ltb-cases (off + n) (length s)) [
  | inl p ↦ law.reads.inside n off p
  | inr q ↦
      law.quiet n off (omega arith)
      ∙ ap (λ b. (b, none)) (sym (take_all n (drop off s) (omega (arith, length-drop off s))))
]

-- An index that has come to `line`, or to the end of the source.
abbrev pub Reaches : Bytes → ℕ → LineReader × Option Error → Type 0
Reaches s line (r, e) = (e ≡ none) × IsIndex s r × ((line ≤ length r.index) ⊎ (r.eof ≡ true))

left_over :
    (s rest : Bytes) (offset : ℕ) (index : List ℕ)
    → Scanned s rest offset index
    → drop offset s ≡ rest
left_over s rest offset index h =
    let front = joined h.lines ++ h.pending in
    let n : offset ≡ length front =
      omega (arith, h.reached, length-append (joined h.lines) h.pending) in
    let whole : s ≡ front ++ rest = h.whole ∙ sym (append_assoc (joined h.lines) h.pending rest) in
    ap (λ k. drop k s) n ∙ ap (drop (length front)) whole ∙ drop_begin front rest

left_size :
    (s rest : Bytes) (offset : ℕ) (index : List ℕ)
    → Scanned s rest offset index
    → length s ≡ offset + length rest
left_size s rest offset index h = omega (
  arith,
  h.reached,
  ap length h.whole,
  length-append (joined h.lines) (h.pending ++ rest),
  length-append h.pending rest,
)

module _ (read : ReaderAt) (s : Bytes) (law : ReadsQuietly read s) where
  index_loop-Reaches :
      (fuel line offset : ℕ) (rest : Bytes) (r : LineReader)
      → r.eof ≡ false
      → Scanned s rest offset r.index
      → length rest < fuel
      → Reaches s line (index_loop read fuel line offset r)
  unfolding index_loop index_round
  index_loop-Reaches zero line offset rest r e h enough = absurd (omega arith)
  index_loop-Reaches (suc fuel) line offset rest r e h enough =
      let size = left_size s rest offset r.index h in
      let here = left_over s rest offset r.index h in
      elim (Bool-cases (ltb (length r.index) line)) [
        | inr full ↦
            rw (full, index_loop) (refl, Scanned-IsIndex s rest offset r e h, inl (ground arith))
        | inl more ↦
            rw (more, index_loop)
              (elim (ltb-cases (length s) (offset + 1024)) [
                | inl short ↦
                    let result : read 1024 offset ≡ (rest, some eof) =
                      law.reads.beyond 1024 offset short ∙ ap (λ b. (b, some eof)) here in
                    let ended = index_end-IsIndex s (scan offset r.index rest) (
                      scan-Scanned s rest [] offset r.index
                        (subst (λ x. Scanned s x offset r.index) (sym (append-nil rest)) h)) in
                    subst (λ x. Reaches s line (index_round (index_loop read fuel line) r offset x))
                      (sym result) (refl, ended.0, inr ended.1)
                | inr long ↦
                    let result : read 1024 offset ≡ (take 1024 rest, none) =
                      read_inside read s 1024 offset law long
                      ∙ ap (λ b. (take 1024 b, none)) here in
                    let next = scan offset r.index (take 1024 rest) in
                    let on = scan-Scanned s (take 1024 rest) (drop 1024 rest) offset r.index (
                      subst (λ x. Scanned s x offset r.index) (sym (take-append-drop 1024 rest))
                        h) in
                    subst (λ x. Reaches s line (index_round (index_loop read fuel line) r offset x))
                      (sym result)
                      (index_loop-Reaches fuel line next.0 (drop 1024 rest)
                        (record r { index = next.1 }) e on (omega (arith, length-drop 1024 rest)))
              ])
      ]

  -- From an index of the first lines, `indexTo` comes to the line that it is to find, or to the end.
  pub index_to-Reaches :
      (fuel line : ℕ) (r : LineReader)
      → IsIndex s r
      → r.eof ≡ false
      → length s < fuel
      → Reaches s line (index_to read fuel line r)
  unfolding index_to
  index_to-Reaches fuel line r h e enough =
      index_loop-Reaches fuel line (last_offset r.index) h.tail r e
        (record {
          lines = h.lines;
          pending = [];
          plain = tt;
          splits = h.splits;
          whole = h.whole;
          indexed = h.indexed;
          reached = omega (arith, ap last_offset h.indexed, last_offset-joined h.lines);
        })
        (omega (arith, ap length h.whole, length-append (joined h.lines) h.tail))
