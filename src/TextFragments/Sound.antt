-- ===== src/TextFragments/Sound.antt =====
-- gitdiff/text.go: the fragments that `ParseTextFragments` attaches to a file.
use go_gitdiff.Base.{
  ℕ, zero, suc, ◌+◌, ◌^◌, ◌<◌, ◌≡◌, refl, subst, false, ◌⊎◌, inl, inr, Option, none, some, [], ◌∷◌,
  Bytes, codes, drop, All, All-append, arith, Bool-cases,
}
use go_gitdiff.Base.Int.{ℤ, pos}
use go_gitdiff.Base.Int64.{IsInt64}
use go_gitdiff.Base.Strings.{has_prefix, cut}
use go_gitdiff.Fragment.{TextFragment}
use go_gitdiff.Fragment.Consistent.{IsConsistent}
use go_gitdiff.Apply.{File}
use go_gitdiff.Parser.{StringReader, Parser, ParseError, Parsed, parsed, failed, next_or_end}
use go_gitdiff.TextParse.{no_change, parse_text_chunk}
use go_gitdiff.TextParse.Sound.{IsBare, Misplaced, parse_text_chunk-IsConsistent}
use go_gitdiff.TextFragments.{
  parse_range, split_ranges, range_of, range_parts, ranged_fragment, bare_fragment, header_fragment,
  marked_fragment, take_header, parse_text_fragment_header, refused_fragment, Outcome, after_chunk,
  after_check, after_header, parse_text_fragments,
}

-- A fragment that `Validate` accepts, but for a creation from old lines, and that changes something.
abbrev pub Proper : TextFragment → Type 0
Proper f = (IsConsistent f ⊎ Misplaced f) × (no_change f ≡ false)

module _ (parse_int : Bytes → Option ℤ) (trim_space : Bytes → Bytes)
    (in_range : (s : Bytes) (n : ℤ) → parse_int s ≡ some n → IsInt64 n) where
  range_of-IsInt64 :
      (a b : Option ℤ) {r : ℤ × ℤ}
      → ((n : ℤ) → b ≡ some n → IsInt64 n)
      → range_of parse_int trim_space a b ≡ some r
      → IsInt64 r.1
  unfolding range_of
  range_of-IsInt64 none b range h = cc
  range_of-IsInt64 (some n) none range h = cc
  range_of-IsInt64 (some n) (some m) {r} range h =
      let e : m ≡ r.1 = cc (h) in subst IsInt64 e (range m refl)

  one_range : (n : ℤ) → some (pos 1) ≡ some n → IsInt64 n
  one_range n e = let same : pos 1 ≡ n = cc (e) in subst IsInt64 same (omega arith)

  range_parts-IsInt64 :
      (s : Bytes) (o : Option (Bytes × Bytes)) {r : ℤ × ℤ}
      → range_parts parse_int trim_space s o ≡ some r
      → IsInt64 r.1
  unfolding range_parts
  range_parts-IsInt64 s none h = range_of-IsInt64 (parse_int s) (some (pos 1)) one_range h
  range_parts-IsInt64 s (some (a, b)) h =
      range_of-IsInt64 (parse_int a) (parse_int b) (in_range b) h

  ranged_fragment-IsBare :
      (behind : Bytes) (a b : Option (ℤ × ℤ)) {f : TextFragment}
      → ((r : ℤ × ℤ) → a ≡ some r → IsInt64 r.1)
      → ((r : ℤ × ℤ) → b ≡ some r → IsInt64 r.1)
      → ranged_fragment parse_int trim_space behind a b ≡ some f
      → IsBare f
  unfolding ranged_fragment
  ranged_fragment-IsBare behind none b x y h = cc
  ranged_fragment-IsBare behind (some old) none x y h = cc
  ranged_fragment-IsBare behind (some old) (some new) {f} x y h =
      let e : bare_fragment (trim_space behind) old new ≡ f = cc (h) in
      subst IsBare e (record {
        no_lines = refl;
        no_leading = refl;
        no_trailing = refl;
        no_added = refl;
        no_deleted = refl;
        old_IsInt64 = x old refl;
        new_IsInt64 = y new refl;
      })

  split_fragment-IsBare :
      (behind : Bytes) (o : Option (Bytes × Bytes)) {f : TextFragment}
      → header_fragment parse_int trim_space behind o ≡ some f
      → IsBare f
  unfolding header_fragment parse_range
  split_fragment-IsBare behind none h = cc
  split_fragment-IsBare behind (some (a, b)) h =
      ranged_fragment-IsBare behind (parse_range parse_int trim_space a)
        (parse_range parse_int trim_space b) (λ r e. range_parts-IsInt64 a (cut (codes ",") a) e)
        (λ r e. range_parts-IsInt64 b (cut (codes ",") b) e) h

  marked_fragment-IsBare :
      (o : Option (Bytes × Bytes)) {f : TextFragment}
      → marked_fragment parse_int trim_space o ≡ some f
      → IsBare f
  unfolding marked_fragment
  marked_fragment-IsBare none h = cc
  marked_fragment-IsBare (some (before, behind)) h =
      split_fragment-IsBare behind (split_ranges parse_int trim_space (drop 4 before)) h

  module _ {R : Type 0} (read : StringReader R) where
    take_header-IsBare :
        (p : Parser R) (o : Option TextFragment) {f : TextFragment}
        → (take_header parse_int trim_space read p o).1 ≡ parsed (some f)
        → o ≡ some f
    unfolding take_header next_or_end
    take_header-IsBare p none h = cc
    take_header-IsBare p (some g) h = ground arith

    header-IsBare :
        (p : Parser R) {f : TextFragment}
        → (parse_text_fragment_header parse_int trim_space read p).1 ≡ parsed (some f)
        → IsBare f
    unfolding parse_text_fragment_header has_prefix
    header-IsBare p h = elim (Bool-cases (has_prefix (codes "@@ -") p.line0)) [
      | inl e ↦
          marked_fragment-IsBare (cut (codes " @@") p.line0) (take_header-IsBare p _ (rw e at h))
      | inr e ↦ cc (rw e at h)
    ]

    chunk-Proper :
        (fuel : ℕ) (p : Parser R) (f : TextFragment) {f' : TextFragment}
        → IsBare f
        → fuel < 2 ^ 63
        → (parse_text_chunk read fuel p f).1 ≡ parsed f'
        → Proper f'
    chunk-Proper fuel p f h few done =
        let (same, good, changed) = parse_text_chunk-IsConsistent read fuel p f h few done in
        (good, changed)

    -- What the loop needs to know of an outcome.
    abbrev AllProper : Outcome parse_int trim_space read → Type 0
    AllProper o = All Proper o.1.text_fragments

    after_chunk-Proper :
        (go : Parser R → File → ℕ → Outcome parse_int trim_space read) (f : File) (n : ℕ)
        (r : Parser R × Parsed TextFragment)
        → All Proper f.text_fragments
        → ((frag : TextFragment) → r.1 ≡ parsed frag → Proper frag)
        → ((p : Parser R) (g : File) (m : ℕ) → All Proper g.text_fragments → AllProper (go p g m))
        → AllProper (after_chunk parse_int trim_space read go f n r)
    unfolding after_chunk
    after_chunk-Proper go f n (p, failed e) old new ih = old
    after_chunk-Proper go f n (p, parsed frag) old new ih =
        ih p _ (n + 1) (All-append Proper f.text_fragments (frag ∷ []) old (new frag refl, tt))

    after_check-Proper :
        (go : Parser R → File → ℕ → Outcome parse_int trim_space read) (fuel : ℕ) (f : File) (n : ℕ)
        (p : Parser R) (frag : TextFragment) (o : Option ParseError)
        → IsBare frag
        → fuel < 2 ^ 63
        → All Proper f.text_fragments
        → ((q : Parser R) (g : File) (m : ℕ) → All Proper g.text_fragments → AllProper (go q g m))
        → AllProper (after_check parse_int trim_space read go fuel f n p frag o)
    unfolding after_check
    after_check-Proper go fuel f n p frag (some e) b few old ih = old
    after_check-Proper go fuel f n p frag none b few old ih =
        after_chunk-Proper go f n (parse_text_chunk read fuel p frag) old
          (λ g e. chunk-Proper fuel p frag b few e) ih

    after_header-Proper :
        (go : Parser R → File → ℕ → Outcome parse_int trim_space read) (fuel : ℕ) (f : File) (n : ℕ)
        (r : Parser R × Parsed (Option TextFragment))
        → ((frag : TextFragment) → r.1 ≡ parsed (some frag) → IsBare frag)
        → fuel < 2 ^ 63
        → All Proper f.text_fragments
        → ((q : Parser R) (g : File) (m : ℕ) → All Proper g.text_fragments → AllProper (go q g m))
        → AllProper (after_header parse_int trim_space read go fuel f n r)
    unfolding after_header
    after_header-Proper go fuel f n (p, failed e) b few old ih = old
    after_header-Proper go fuel f n (p, parsed none) b few old ih = old
    after_header-Proper go fuel f n (p, parsed (some frag)) b few old ih =
        after_check-Proper go fuel f n p frag (refused_fragment parse_int trim_space read f p frag)
          (b frag refl) few old ih

    -- Whatever the input is and however the parse ends, each fragment that `ParseTextFragments` leaves
    -- in a file, which had proper ones alone, has a change and passes `Validate`, or it is at old
    -- position 0 with a number of old lines that is not 0.
    pub parse_text_fragments-Proper :
        (rounds fuel : ℕ) (p : Parser R) (f : File) (n : ℕ)
        → fuel < 2 ^ 63
        → All Proper f.text_fragments
        → All Proper
            (parse_text_fragments parse_int trim_space read rounds fuel p f n).1.text_fragments
    unfolding parse_text_fragments
    parse_text_fragments-Proper zero fuel p f n few old = old
    parse_text_fragments-Proper (suc rounds) fuel p f n few old =
        after_header-Proper (parse_text_fragments parse_int trim_space read rounds fuel) fuel f n
          (parse_text_fragment_header parse_int trim_space read p) (λ g e. header-IsBare p e) few
          old (λ q g m. parse_text_fragments-Proper rounds fuel q g m few)
