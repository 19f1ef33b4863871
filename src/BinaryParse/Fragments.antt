-- ===== src/BinaryParse/Fragments.antt =====
-- gitdiff/binary.go and gitdiff/format.go: `ParseBinaryFragments` on what the formatter writes.
use go_gitdiff.Base.{
  ℕ, ◌/◌, ◌<◌, ◌≡◌, refl, ap, ◌∙◌, sym, subst, Bool, true, false, none, some, Option, List, [], ◌∷◌,
  ◌++◌, append_assoc, Bytes, codes, equal, length, IsByte, All, arith, if◌then◌else◌,
}
use go_gitdiff.Base.Int.{ℤ, pos}
use go_gitdiff.Base.Strings.{cut, trim_last-snoc, strip_prefix}
use go_gitdiff.Fragment.{differs}
use go_gitdiff.BinaryApply.{
  BinaryPatchMethod, patch_delta, patch_literal, other_method, BinaryFragment,
}
use go_gitdiff.Apply.{File}
use go_gitdiff.Format.Binary.{method_text, format_binary_fragment}
use go_gitdiff.Format.File.{format_reverse, format_binary_by, format_binary, names_of}
use go_gitdiff.TextApply.Lines.{joined, joined-append}
use go_gitdiff.Parser.{StringReader, Parser, Parsed, parsed, next, next_or_end}
use go_gitdiff.Parser.Advance.{ReadsStrings, At, next-At, next_or_end-At, head_or}
use go_gitdiff.BinaryParse.{
  marker_data, method_named, method_of_parts, method_of, check_size, inflate_binary_chunk,
  take_marker, parse_binary_marker, take_size, take_method, parse_binary_fragment_header, inflated,
  after_data_loop, parse_binary_chunk, Outcome, set_reverse, take_reverse, set_forward,
  take_forward, take_binary, parse_binary_fragments,
}
use go_gitdiff.BinaryParse.RoundTrip.{data_lines, joined-data_lines, data_loop-lines}

abbrev pub is_known : BinaryPatchMethod → Bool
is_known patch_delta = true
is_known patch_literal = true
is_known (other_method n) = false

method_of-method_text :
    (m : BinaryPatchMethod) (size : Bytes)
    → is_known m ≡ true
    → method_of (method_text m ++ (size ++ 10 ∷ [])) ≡ some (m, size)
unfolding method_of method_named method_of_parts equal cut strip_prefix
method_of-method_text patch_delta size h =
    ap (λ s. method_of_parts (cut (codes " ") s)) (trim_last-snoc 10 (codes "delta " ++ size))
method_of-method_text patch_literal size h =
    ap (λ s. method_of_parts (cut (codes " ") s)) (trim_last-snoc 10 (codes "literal " ++ size))
method_of-method_text (other_method n) size h = cc

-- The fragment of a header.
abbrev pub empty_fragment : BinaryPatchMethod → ℤ → BinaryFragment
empty_fragment m size = record { method = m; size = size; content = [] }

module _ (decimal : ℤ → Bytes) (octal : ℕ → Bytes) (deflate : Bytes → Bytes)
    (parse_int : Bytes → Option ℤ) (inflate : Bytes → Option Bytes) where
  -- The lines of a fragment.
  abbrev pub header_line : BinaryFragment → Bytes
  header_line b = method_text b.method ++ (decimal b.size ++ 10 ∷ [])

  abbrev pub packed_lines : BinaryFragment → List Bytes
  packed_lines b = data_lines (length (deflate b.content) / 52) (deflate b.content)

  abbrev pub binary_lines : BinaryFragment → List Bytes
  binary_lines b = header_line b ∷ (packed_lines b ++ codes "\n" ∷ [])

  abbrev pub reverse_lines : Option BinaryFragment → List Bytes
  reverse_lines none = []
  reverse_lines (some b) = binary_lines b

  joined-binary_lines :
      (b : BinaryFragment) → joined (binary_lines b) ≡ format_binary_fragment decimal deflate b
  unfolding format_binary_fragment
  joined-binary_lines b =
      ap (λ s. header_line b ++ s)
        (joined-append (packed_lines b) (codes "\n" ∷ [])
          ∙ ap (λ s. s ++ 10 ∷ [])
              (joined-data_lines (length (deflate b.content) / 52) (deflate b.content)
                (omega arith)))

  joined-reverse_lines :
      (r : Option BinaryFragment)
      → joined (reverse_lines r) ≡ format_reverse decimal octal deflate r
  joined-reverse_lines none = refl
  joined-reverse_lines (some b) = joined-binary_lines b

  -- The lines that the round trip of `ParseBinaryFragments` reads are what `FormatFile` writes for the
  -- fragments of a binary file that has some.
  pub joined-format_binary :
      (f : File) (b : BinaryFragment)
      → f.is_binary ≡ true
      → f.binary_fragment ≡ some b
      → joined
          (codes "GIT binary patch\n" ∷ (binary_lines b ++ reverse_lines f.reverse_binary_fragment))
        ≡ format_binary decimal octal deflate f
  unfolding format_binary format_binary_by
  joined-format_binary f b binary has =
      let lines : joined (binary_lines b ++ reverse_lines f.reverse_binary_fragment)
          ≡ format_binary_fragment decimal deflate b
            ++ format_reverse decimal octal deflate f.reverse_binary_fragment =
        joined-append (binary_lines b) (reverse_lines f.reverse_binary_fragment)
        ∙ ap (λ x. x ++ joined (reverse_lines f.reverse_binary_fragment)) (joined-binary_lines b)
        ∙ ap (λ x. format_binary_fragment decimal deflate b ++ x)
            (joined-reverse_lines f.reverse_binary_fragment) in
      ap (λ x. codes "GIT binary patch\n" ++ x) lines
      ∙ ap (λ o. format_binary_by decimal octal deflate (names_of f) o f.reverse_binary_fragment)
          (sym has)
      ∙ ap
          (λ t.
            if t
            then format_binary_by decimal octal deflate (names_of f) f.binary_fragment
                f.reverse_binary_fragment
            else [])
          (sym binary)

  -- A fragment that a header can stand for: its method is known and its size is its length. The zlib
  -- writer and reader, and the text of its size, give back what they were given.
  pub record IsFaithful (b : BinaryFragment) : Type 0 where
    pub known : is_known b.method ≡ true
    pub sized : b.size ≡ pos (length b.content)
    pub octets : All IsByte (deflate b.content)
    pub inflates : inflate (deflate b.content) ≡ some b.content
    pub parses : parse_int (decimal b.size) ≡ some b.size

  inflate-deflate :
      (b : BinaryFragment)
      → IsFaithful b
      → inflate_binary_chunk parse_int inflate (empty_fragment b.method b.size) (deflate b.content)
        ≡ some b
  unfolding inflate_binary_chunk
  inflate-deflate b h =
      let right : differs (length b.content) b.size ≡ false =
        rw h.sized (unfold differs in ground arith) in
      ap (check_size parse_int inflate (empty_fragment b.method b.size)) h.inflates
      ∙ (unfold check_size in rw (right, check_size) refl)

  module _ {R : Type 0} (read : StringReader R) (rest : R → List Bytes)
      (law : ReadsStrings read rest) where
    -- A result at the lines `tail`.
    pub record Gives {ℓ} {A : Type ℓ} (tail : List Bytes) (a : A) (r : Parser R × Parsed A)
        : Type ℓ where
      pub place : Parser R
      pub result : r ≡ (place, parsed a)
      pub at : At rest place tail

    next-Gives {ℓ} :
        {A : Type ℓ} (p : Parser R) (l : Bytes) (ls : List Bytes) (a : A)
        → At rest p (l ∷ ls)
        → Gives ls a (next_or_end read p a)
    next-Gives p l ls a here = record {
      place = (next read p).0;
      result = next_or_end-At read rest law p l ls a here;
      at = (next-At read rest law p l ls here).0;
    }

    -- `ParseBinaryFragmentHeader` reads the header of a fragment.
    header-Gives :
        (b : BinaryFragment) (tail : List Bytes) (p : Parser R)
        → IsFaithful b
        → At rest p (header_line b ∷ tail)
        → Gives tail
            (some (empty_fragment b.method b.size))
            (parse_binary_fragment_header parse_int inflate read p)
    unfolding parse_binary_fragment_header take_method
    header-Gives b tail p h here =
        let m : method_of p.line0 ≡ some (b.method, decimal b.size) =
          ap method_of here.first ∙ method_of-method_text b.method (decimal b.size) h.known in
        subst
          (λ o.
            Gives tail (some (empty_fragment b.method b.size))
              (take_method parse_int inflate read p o))
          (sym m)
          (subst
            (λ o.
              Gives tail (some (empty_fragment b.method b.size))
                (take_size parse_int inflate read p b.method o))
            (sym h.parses) (unfold take_size in next-Gives p (header_line b) tail _ here))

    -- `ParseBinaryChunk` on the lines that the formatter writes for a fragment gives it back.
    chunk-Gives :
        (b : BinaryFragment) (tail : List Bytes) (fuel : ℕ) (p : Parser R)
        → IsFaithful b
        → length (packed_lines b) < fuel
        → At rest p (packed_lines b ++ codes "\n" ∷ tail)
        → Gives tail b
            (parse_binary_chunk parse_int inflate read fuel p (empty_fragment b.method b.size))
    unfolding parse_binary_chunk after_data_loop
    chunk-Gives b tail fuel p h enough here =
        let frag = empty_fragment b.method b.size in
        let content = deflate b.content in
        let a =
          data_loop-lines parse_int inflate read rest law (length content / 52) content tail fuel p
            [] h.octets refl enough here in
        subst (λ r. Gives tail b (after_data_loop parse_int inflate read frag r)) (sym a.result)
          (subst (λ o. Gives tail b (inflated parse_int inflate read a.place o))
            (sym (inflate-deflate b h))
            (unfold inflated in next-Gives a.place (codes "\n") tail b a.at))

    -- The file with a reverse fragment, if there is one.
    abbrev pub with_reverse : File → Option BinaryFragment → File
    with_reverse f none = f
    with_reverse f (some b) = record f { reverse_binary_fragment = some b }

    abbrev pub with_binary : File → BinaryFragment → Option BinaryFragment → File
    with_binary f b r = with_reverse (record f { is_binary = true; binary_fragment = some b }) r

    abbrev pub AllFaithful : Option BinaryFragment → ℕ → Type 0
    AllFaithful none fuel = Unit
    AllFaithful (some b) fuel = IsFaithful b × (length (packed_lines b) < fuel)

    -- A run that gives the file `f`, and stops at the lines `tail`.
    pub record Attaches (tail : List Bytes) (f : File) (r : Outcome parse_int inflate read)
        : Type 0 where
      pub place : Parser R
      pub result : r ≡ (place, f, 1, none)
      pub at : At rest place tail

    reverse-Attaches :
        (r : Option BinaryFragment) (f : File) (tail : List Bytes) (fuel : ℕ) (p : Parser R)
        → AllFaithful r fuel
        → method_of (head_or tail) ≡ none
        → At rest p (reverse_lines r ++ tail)
        → Attaches tail (with_reverse f r) (
            take_reverse parse_int inflate read fuel f
              (parse_binary_fragment_header parse_int inflate read p))
    unfolding parse_binary_fragment_header
    reverse-Attaches none f tail fuel p h behind here =
        subst
          (λ o.
            Attaches tail f
              (take_reverse parse_int inflate read fuel f (take_method parse_int inflate read p o)))
          (sym (ap method_of here.first ∙ behind))
          (unfold take_method take_reverse in record { place = p; result = refl; at = here })
    reverse-Attaches (some b) f tail fuel p (h, enough) behind here =
        let a = header-Gives b ((packed_lines b ++ codes "\n" ∷ []) ++ tail) p h here in
        let c =
          chunk-Gives b tail fuel a.place h enough
            (subst (At rest a.place) (append_assoc (packed_lines b) (codes "\n" ∷ []) tail) a.at) in
        subst
          (λ x.
            Attaches tail (with_reverse f (some b)) (take_reverse parse_int inflate read fuel f x))
          (sym a.result)
          (unfold take_reverse in
            subst
              (λ x.
                Attaches tail (with_reverse f (some b)) (set_reverse parse_int inflate read f x))
              (sym c.result)
              (unfold set_reverse in record { place = c.place; result = refl; at = c.at }))

    forward-Attaches :
        (b : BinaryFragment) (r : Option BinaryFragment) (f : File) (tail : List Bytes) (fuel : ℕ)
        (p : Parser R)
        → IsFaithful b
        → length (packed_lines b) < fuel
        → AllFaithful r fuel
        → method_of (head_or tail) ≡ none
        → At rest p (binary_lines b ++ (reverse_lines r ++ tail))
        → Attaches tail (with_reverse (record f { binary_fragment = some b }) r) (
            take_forward parse_int inflate read fuel f
              (parse_binary_fragment_header parse_int inflate read p))
    unfolding take_forward set_forward
    forward-Attaches b r f tail fuel p h enough more behind here =
        let Goal = Attaches tail (with_reverse (record f { binary_fragment = some b }) r) in
        let lines = reverse_lines r ++ tail in
        let a = header-Gives b ((packed_lines b ++ codes "\n" ∷ []) ++ lines) p h here in
        let c =
          chunk-Gives b lines fuel a.place h enough (
            subst (At rest a.place) (append_assoc (packed_lines b) (codes "\n" ∷ []) lines) a.at) in
        subst (λ x. Goal (take_forward parse_int inflate read fuel f x)) (sym a.result)
          (subst (λ x. Goal (set_forward parse_int inflate read fuel f x)) (sym c.result)
            (reverse-Attaches r (record f { binary_fragment = some b }) tail fuel c.place more
              behind c.at))

    -- Over a reader that keeps to its documentation, `ParseBinaryFragments` on the lines that the
    -- formatter writes for a binary file, with its marker, its fragment and a reverse fragment if
    -- there is one, and on further lines that do not begin with a header of a binary fragment, gives
    -- the file with these fragments, and stops behind their lines. The fragments have known methods
    -- and their lengths as sizes, the zlib reader undoes the writer on their data, `ParseInt` reads
    -- their sizes, and one round for each line and one more are enough.
    pub parse_binary_fragments-binary_lines :
        (b : BinaryFragment) (r : Option BinaryFragment) (f : File) (tail : List Bytes) (fuel : ℕ)
        (p : Parser R)
        → IsFaithful b
        → length (packed_lines b) < fuel
        → AllFaithful r fuel
        → method_of (head_or tail) ≡ none
        → At rest p (codes "GIT binary patch\n" ∷ (binary_lines b ++ (reverse_lines r ++ tail)))
        → Attaches tail (with_binary f b r) (parse_binary_fragments parse_int inflate read fuel p f)
    unfolding parse_binary_fragments parse_binary_marker take_marker take_binary
    parse_binary_fragments-binary_lines b r f tail fuel p h enough more behind here =
        let Goal = Attaches tail (with_binary f b r) in
        let lines = binary_lines b ++ (reverse_lines r ++ tail) in
        let m : marker_data p.line0 ≡ some true =
          ap marker_data here.first ∙ (unfold marker_data equal in refl) in
        let a = next-Gives p (codes "GIT binary patch\n") lines (true, true) here in
        subst
          (λ o.
            Goal
              (take_binary parse_int inflate read fuel f (take_marker parse_int inflate read p o)))
          (sym m)
          (subst (λ x. Goal (take_binary parse_int inflate read fuel f x)) (sym a.result)
            (forward-Attaches b r (record f { is_binary = true }) tail fuel a.place h enough more
              behind a.at))
