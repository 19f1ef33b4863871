-- ===== src/BinaryParse/RoundTrip.antt =====
-- gitdiff/binary.go and gitdiff/format.go: the parser reads back the binary fragments that the
-- formatter writes.
use go_gitdiff.Base.{
  ℕ, zero, suc, ◌*◌, ◌/◌, ◌<◌, ◌≤◌, ◌≡◌, refl, ap, ◌∙◌, sym, subst, true, false, none, some, Option,
  inl, inr, List, [], ◌∷◌, ◌++◌, append_assoc, append-nil, Bytes, codes, equal, equal_iff, length,
  length-take, length-drop, take, drop, take-append-drop, ◌==◌, IsByte, All, arith, Bool-cases,
}
use go_gitdiff.Base.Int.{ℤ}
use go_gitdiff.Errors.{Error}
use go_gitdiff.Base85.{base85_encode}
use go_gitdiff.Format.Binary.{size_char, format_rest, format_data}
use go_gitdiff.TextApply.Lines.{joined}
use go_gitdiff.Parser.{StringReader, Parser, Parsed, parsed, next}
use go_gitdiff.Parser.Advance.{ReadsStrings, At, next-At}
use go_gitdiff.BinaryParse.{line_data, after_data, take_data, data_loop}
use go_gitdiff.BinaryParse.Line.{data_line, line_data-data_line}

-- The lines of the data: `k` of 52 bytes, and what is left.
abbrev pub rest_lines : Bytes → List Bytes
rest_lines [] = []
rest_lines (c ∷ s) = data_line (c ∷ s) ∷ []

abbrev pub data_lines : ℕ → Bytes → List Bytes
data_lines zero content = rest_lines content
data_lines (suc k) content = data_line (take 52 content) ∷ data_lines k (drop 52 content)

joined-rest_lines : (content : Bytes) → joined (rest_lines content) ≡ format_rest content
unfolding format_rest
joined-rest_lines [] = refl
joined-rest_lines (c ∷ s) =
    let more : (suc (length s) == 0) ≡ false = ground arith in
    rw (more, format_rest) (append-nil (data_line (c ∷ s)))

length-take_full : (content : Bytes) → 52 ≤ length content → length (take 52 content) ≡ 52
length-take_full content h = omega (arith, length-take 52 content)

-- They are what the loop of the formatter writes, which marks each full line with `z`.
pub joined-data_lines :
    (k : ℕ) (content : Bytes)
    → k * 52 ≤ length content
    → joined (data_lines k content) ≡ format_data k content
unfolding format_data
joined-data_lines zero content h = joined-rest_lines content
joined-data_lines (suc k) content h =
    let full = length-take_full content (omega arith) in
    let z : size_char (length (take 52 content)) ≡ b'z' = rw full (unfold size_char in refl) in
    let text = base85_encode (take 52 content) in
    ap (λ c. (c ∷ (text ++ 10 ∷ [])) ++ joined (data_lines k (drop 52 content))) z
    ∙ ap (λ x. (b'z' ∷ (text ++ 10 ∷ [])) ++ x)
        (joined-data_lines k (drop 52 content) (omega (arith, length-drop 52 content)))

All-take : {A : Type 0} (P : A → Type 0) (n : ℕ) (xs : List A) → All P xs → All P (take n xs)
All-take P zero xs h = tt
All-take P (suc n) [] h = h
All-take P (suc n) (x ∷ xs) h = (h.0, All-take P n xs h.1)

All-drop : {A : Type 0} (P : A → Type 0) (n : ℕ) (xs : List A) → All P xs → All P (drop n xs)
All-drop P zero xs h = h
All-drop P (suc n) [] h = h
All-drop P (suc n) (x ∷ xs) h = All-drop P n xs h.1

-- A line of data is not the blank line that ends the data.
data_line-open :
    (content : Bytes)
    → line_data (data_line content) ≡ inl content
    → equal (data_line content) (codes "\n") ≡ false
data_line-open content h = elim (Bool-cases (equal (data_line content) (codes "\n"))) [
  | inl e ↦
      let same = (equal_iff (data_line content) (codes "\n")).0 e in
      let blank : line_data (codes "\n") ≡ inr (codes "binary patch: corrupt data line") =
        unfold line_data in refl in
      cc (same, blank, h)
  | inr e ↦ e
]

module _ (parse_int : Bytes → Option ℤ) (inflate : Bytes → Option Bytes) {R : Type 0}
    (read : StringReader R) (rest : R → List Bytes) (law : ReadsStrings read rest) where
  after_data-none :
      (go : Parser R → Bytes → Parser R × Parsed Bytes) (content : Bytes)
      (r : Parser R × Option Error)
      → r.1 ≡ none
      → after_data parse_int inflate read go content r ≡ go r.0 content
  unfolding after_data
  after_data-none go content (p, none) e = refl
  after_data-none go content (p, some x) e = cc

  -- A round of the loop on a line of data with lines behind it.
  data_round :
      (fuel : ℕ) (p : Parser R) (acc content m : Bytes) (more : List Bytes)
      → At rest p (data_line content ∷ m ∷ more)
      → line_data (data_line content) ≡ inl content
      → (data_loop parse_int inflate read (suc fuel) p acc
          ≡ data_loop parse_int inflate read fuel (next read p).0 (acc ++ content))
        × At rest (next read p).0 (m ∷ more)
  unfolding data_loop take_data
  data_round fuel p acc content m more here reads =
      let (at, end, n) = next-At read rest law p (data_line content) (m ∷ more) here in
      let going : equal p.line0 (codes "\n") ≡ false =
        ap (λ t. equal t (codes "\n")) here.first ∙ data_line-open content reads in
      let decoded : line_data p.line0 ≡ inl content = ap line_data here.first ∙ reads in
      (
        rw (going, data_loop)
            (ap (take_data parse_int inflate read (data_loop parse_int inflate read fuel) p acc)
                decoded
              ∙ after_data-none (data_loop parse_int inflate read fuel) (acc ++ content)
                  (next read p) end),
        at,
      )

  data_stop :
      (fuel : ℕ) (p : Parser R) (acc : Bytes) (more : List Bytes)
      → At rest p (codes "\n" ∷ more)
      → data_loop parse_int inflate read (suc fuel) p acc ≡ (p, parsed acc)
  unfolding data_loop
  data_stop fuel p acc more here =
      let blank : equal p.line0 (codes "\n") ≡ true =
        ap (λ t. equal t (codes "\n")) here.first ∙ (unfold equal in refl) in
      rw (blank, data_loop) refl

  -- Where the loop stops, and what it has read.
  pub record Reads (tail : List Bytes) (content : Bytes) (r : Parser R × Parsed Bytes)
      : Type 0 where
    pub place : Parser R
    pub result : r ≡ (place, parsed content)
    pub at : At rest place (codes "\n" ∷ tail)

  Reads-on :
      (tail : List Bytes) (acc x y : Bytes) (r s : Parser R × Parsed Bytes)
      → r ≡ s
      → Reads tail ((acc ++ x) ++ y) s
      → Reads tail (acc ++ (x ++ y)) r
  Reads-on tail acc x y r s e a = record {
    place = a.place;
    result = e ∙ a.result ∙ ap (λ b. (a.place, parsed b)) (append_assoc acc x y);
    at = a.at;
  }

  data_loop-rest :
      (content : Bytes) (tail : List Bytes) (fuel : ℕ) (p : Parser R) (acc : Bytes)
      → All IsByte content
      → length content ≤ 52
      → length (rest_lines content) < fuel
      → At rest p (rest_lines content ++ (codes "\n" ∷ tail))
      → Reads tail (acc ++ content) (data_loop parse_int inflate read fuel p acc)
  data_loop-rest content tail zero p acc h few enough here = absurd (omega arith)
  data_loop-rest [] tail (suc fuel) p acc h few enough here = record {
    place = p;
    result = data_stop fuel p acc tail here ∙ ap (λ b. (p, parsed b)) (sym (append-nil acc));
    at = here;
  }
  data_loop-rest (c ∷ s) tail (suc zero) p acc h few enough here = absurd (omega arith)
  data_loop-rest (c ∷ s) tail (suc (suc fuel)) p acc h few enough here =
      let (go, at) =
        data_round (suc fuel) p acc (c ∷ s) (codes "\n") tail here
          (line_data-data_line (c ∷ s) h (omega arith) few) in
      record {
        place = (next read p).0;
        result = go ∙ data_stop fuel (next read p).0 (acc ++ (c ∷ s)) tail at;
        at = at;
      }

  no_lines-behind :
      (k : ℕ) (content : Bytes) (tail : List Bytes)
      → (m : Bytes) × (more : List Bytes) × (data_lines k content ++ (codes "\n" ∷ tail) ≡ m ∷ more)
  no_lines-behind zero [] tail = (codes "\n", tail, refl)
  no_lines-behind zero (c ∷ s) tail = (data_line (c ∷ s), codes "\n" ∷ tail, refl)
  no_lines-behind (suc k) content tail =
      (data_line (take 52 content), data_lines k (drop 52 content) ++ (codes "\n" ∷ tail), refl)

  pub data_loop-lines :
      (k : ℕ) (content : Bytes) (tail : List Bytes) (fuel : ℕ) (p : Parser R) (acc : Bytes)
      → All IsByte content
      → length content / 52 ≡ k
      → length (data_lines k content) < fuel
      → At rest p (data_lines k content ++ (codes "\n" ∷ tail))
      → Reads tail (acc ++ content) (data_loop parse_int inflate read fuel p acc)
  data_loop-lines k content tail zero p acc h whole enough here = absurd (omega arith)
  data_loop-lines zero content tail (suc fuel) p acc h whole enough here =
      data_loop-rest content tail (suc fuel) p acc h (omega arith) enough here
  data_loop-lines (suc k) content tail (suc fuel) p acc h whole enough here =
      let n = length-take_full content (omega arith) in
      let (m, more, e) = no_lines-behind k (drop 52 content) tail in
      let (go, at) =
        data_round fuel p acc (take 52 content) m more
          (subst (λ ls. At rest p (data_line (take 52 content) ∷ ls)) e here)
          (line_data-data_line (take 52 content) (All-take IsByte 52 content h) (omega arith)
            (omega arith)) in
      subst (λ b. Reads tail (acc ++ b) (data_loop parse_int inflate read (suc fuel) p acc))
        (take-append-drop 52 content)
        (Reads-on tail acc (take 52 content) (drop 52 content) _ _ go (
          data_loop-lines k (drop 52 content) tail fuel (next read p).0 (acc ++ take 52 content)
            (All-drop IsByte 52 content h) (omega (arith, length-drop 52 content)) (omega arith)
            (subst (At rest (next read p).0) (sym e) at)))
