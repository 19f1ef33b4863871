-- ===== src/TextParse/Sound.antt =====
-- gitdiff/text.go: what `ParseTextChunk` returns, from a fragment with a header alone.
use go_gitdiff.Base.{
  ℕ, zero, suc, ◌+◌, ◌%◌, ◌^◌, ◌<◌, ◌≤◌, ◌≡◌, refl, sym, Bool, true, false, ◌||◌, ◌⊎◌, Option, none,
  some, [], ◌∷◌, Bytes, equal, arith, ◌≢◌, subst, Bool-cases, inl, inr,
}
use go_gitdiff.Base.Int.{ℤ, pos, negsuc}
use go_gitdiff.Base.Int64.{unsigned64, IsInt64, pos_of_unsigned64}
use go_gitdiff.Errors.{Error, eof}
use go_gitdiff.Fragment.{op_context, op_delete, op_add, TextFragment, no_counts, is_zero}
use go_gitdiff.Fragment.Consistent.{IsConsistent, is_zero_lem, Reports}
use go_gitdiff.Parser.{StringReader, Parser, ParseError, Parsed, parsed, failed, next, next_or_end}
use go_gitdiff.TextParse.{
  remove_last_newline, Chunk, no_change, add_context, add_delete, add_add, chunk_line, positive,
  chunk_next, chunk_taken, chunk_loop, invalid_operation, check_chunk, finish_chunk, checked_chunk,
  after_loop, parse_text_chunk,
}
use go_gitdiff.TextParse.Tally.{
  tally, tally-append, Tracks, add_context-Tracks, add_delete-Tracks, add_add-Tracks, trim-Tracks,
  tally-trim_lines, Reports-IsConsistent,
}

-- What the header of a fragment gives is left alone.
abbrev pub SameHeader : TextFragment → TextFragment → Type 0
SameHeader f g =
    (g.comment ≡ f.comment)
    × (g.old_position ≡ f.old_position)
    × (g.old_lines ≡ f.old_lines)
    × (g.new_position ≡ f.new_position)
    × (g.new_lines ≡ f.new_lines)

-- After `n` rounds on the fragment `f`.
pub record Good (f : TextFragment) (n : ℕ) (c : Chunk) : Type 0 where
  pub tracks : Tracks c
  pub header : SameHeader f c.frag
  pub few_old : (tally no_counts c.frag.lines).old ≤ n
  pub few_new : (tally no_counts c.frag.lines).new ≤ n

module _ (f : TextFragment) (n : ℕ) (c : Chunk) (g : Good f n c) where
  -- One more line, whatever the case of the switch.
  pub add_context-Good : (text : Bytes) → Good f (suc n) (add_context c text)
  add_context-Good text =
      let e = tally-append c.frag.lines (record { op = op_context; line = text }) no_counts in
      record {
        tracks = add_context-Tracks c text g.tracks;
        header = unfold add_context in g.header;
        few_old = unfold add_context in rw e (omega (arith, g.few_old));
        few_new = unfold add_context in rw e (omega (arith, g.few_new));
      }

  pub add_delete-Good : (text : Bytes) → Good f (suc n) (add_delete c text)
  add_delete-Good text =
      let e = tally-append c.frag.lines (record { op = op_delete; line = text }) no_counts in
      record {
        tracks = add_delete-Tracks c text g.tracks;
        header = unfold add_delete in g.header;
        few_old = unfold add_delete in rw e (omega (arith, g.few_old));
        few_new = unfold add_delete in rw e (omega (arith, g.few_new));
      }

  pub add_add-Good : (text : Bytes) → Good f (suc n) (add_add c text)
  add_add-Good text =
      let e = tally-append c.frag.lines (record { op = op_add; line = text }) no_counts in
      record {
        tracks = add_add-Tracks c text g.tracks;
        header = unfold add_add in g.header;
        few_old = unfold add_add in rw e (omega (arith, g.few_old));
        few_new = unfold add_add in rw e (omega (arith, g.few_new));
      }

  trim-Good : Good f (suc n) (record c { frag = remove_last_newline c.frag })
  trim-Good =
      let e = tally-trim_lines c.frag.lines no_counts in
      record {
        tracks = trim-Tracks c g.tracks;
        header = g.header;
        few_old = rw e (omega (arith, g.few_old));
        few_new = rw e (omega (arith, g.few_new));
      }

  chunk_line-Good :
      (bad : ParseError) (line : Bytes) {d : Chunk}
      → chunk_line bad c line ≡ parsed d
      → Good f (suc n) d
  unfolding chunk_line
  chunk_line-Good bad [] h = cc
  chunk_line-Good bad (op ∷ text) {d} h = ground (
    arith,
    add_context-Good (b'\n' ∷ []),
    add_context-Good text,
    add_delete-Good text,
    add_add-Good text,
    trim-Good,
  )

more_rounds : (f : TextFragment) (n k : ℕ) (c : Chunk) → n ≤ k → Good f n c → Good f k c
more_rounds f n k c h g = record {
  tracks = g.tracks;
  header = g.header;
  few_old = omega (arith, g.few_old);
  few_new = omega (arith, g.few_new);
}

module _ {R : Type 0} (read : StringReader R) (f : TextFragment) where
  -- What a run of the loop from a chunk after `n` rounds gives, with `k` rounds allowed.
  abbrev Runs : ℕ → Parser R × Parsed Chunk → Type 0
  Runs k (p, failed e) = Unit {0}
  Runs k (p, parsed c) = Good f k c

  chunk_next-Good :
      (go : Parser R → Chunk → Parser R × Parsed Chunk) (k : ℕ) (c : Chunk)
      (r : Parser R × Option Error)
      → Good f k c
      → ((p : Parser R) → Runs k (go p c))
      → Runs k (chunk_next read go c r)
  unfolding chunk_next
  chunk_next-Good go k c (p, none) g ih = ih p
  chunk_next-Good go k c (p, some eof) g ih = g
  chunk_next-Good go k c (p, some e) g ih = tt

  chunk_taken-Good :
      (go : Parser R → Chunk → Parser R × Parsed Chunk) (n k : ℕ) (p : Parser R) (r : Parsed Chunk)
      → n ≤ k
      → ((d : Chunk) → r ≡ parsed d → Good f n d)
      → ((q : Parser R) (d : Chunk) → Good f n d → Runs k (go q d))
      → Runs k (chunk_taken read go p r)
  unfolding chunk_taken
  chunk_taken-Good go n k p (failed e) le good ih = tt
  chunk_taken-Good go n k p (parsed d) le good ih =
      chunk_next-Good go k d (next read p) (more_rounds f n k d le (good d refl))
        (λ q. ih q d (good d refl))

  chunk_loop-Good :
      (fuel n k : ℕ) (p : Parser R) (c : Chunk)
      → n + fuel ≤ k
      → Good f n c
      → Runs k (chunk_loop read fuel p c)
  unfolding chunk_loop
  chunk_loop-Good zero n k p c le g = tt
  chunk_loop-Good (suc fuel) n k p c le g =
      elim (positive c.old || positive c.new)
        as (λ b. Runs k (elim b [
          | true ↦
              chunk_taken read (chunk_loop read fuel) p
                (chunk_line (invalid_operation read p) c p.line0)
          | false ↦ (p, parsed c)
        ])) [
          | true ↦
              chunk_taken-Good (chunk_loop read fuel) (suc n) k p
                (chunk_line (invalid_operation read p) c p.line0) (omega arith)
                (λ d e. chunk_line-Good f n c g (invalid_operation read p) p.line0 e)
                (λ q d h. chunk_loop-Good fuel (suc n) k q d (omega arith) h)
          | false ↦ more_rounds f n k c (omega arith) g
        ]

-- A fragment that creates a file but reports old lines, which the parser lets through.
abbrev pub Misplaced : TextFragment → Type 0
Misplaced f = (f.old_position ≡ pos 0) × (f.old_lines ≢ pos 0)

-- A fragment is consistent if that follows from what is asked of a creation, or it is misplaced.
settled :
    (f : TextFragment)
    → ((f.old_position ≡ pos 0 → f.old_lines ≡ pos 0) → IsConsistent f)
    → IsConsistent f ⊎ Misplaced f
settled f h = settled_by (is_zero f.old_position) (is_zero f.old_lines) refl refl
  where
    settled_by :
        (x y : Bool)
        → is_zero f.old_position ≡ x
        → is_zero f.old_lines ≡ y
        → IsConsistent f ⊎ Misplaced f
    settled_by x true e d = inl (h (λ _. (is_zero_lem f.old_lines).0 d))
    settled_by false false e d = inl (h (λ z. cc (e, (is_zero_lem f.old_position).1 z)))
    settled_by true false e d =
        inr ((is_zero_lem f.old_position).0 e, λ z. cc (d, (is_zero_lem f.old_lines).1 z))

-- A fragment with nothing but its header.
pub record IsBare (f : TextFragment) : Type 0 where
  pub no_lines : f.lines ≡ []
  pub no_leading : f.leading_context ≡ pos 0
  pub no_trailing : f.trailing_context ≡ pos 0
  pub no_added : f.lines_added ≡ pos 0
  pub no_deleted : f.lines_deleted ≡ pos 0
  pub old_IsInt64 : IsInt64 f.old_lines
  pub new_IsInt64 : IsInt64 f.new_lines

pub IsBare-Good :
    (f : TextFragment)
    → IsBare f
    → Good f 0 (record { frag = f; old = f.old_lines; new = f.new_lines })
IsBare-Good f b = record {
  tracks = record {
    known = rw b.no_lines tt;
    leading = rw (b.no_lines, b.no_leading);
    trailing = rw (b.no_lines, b.no_trailing);
    added = rw (b.no_lines, b.no_added);
    deleted = rw (b.no_lines, b.no_deleted);
    old_left = rw b.no_lines (bits f.old_lines);
    new_left = rw b.no_lines (bits f.new_lines);
  };
  header = (refl, refl, refl, refl, refl);
  few_old = rw b.no_lines (omega arith);
  few_new = rw b.no_lines (omega arith);
}
  where
    bits : (x : ℤ) → (unsigned64 x + 0) % 2 ^ 64 ≡ unsigned64 x
    bits (pos n) = omega arith
    bits (negsuc n) = omega arith

used_up :
    (x total : ℤ) (k : ℕ)
    → x ≡ pos 0
    → (unsigned64 x + k) % 2 ^ 64 ≡ unsigned64 total
    → k < 2 ^ 63
    → IsInt64 total
    → total ≡ pos k
used_up x total k e h few range =
    let h' = rw e at h in pos_of_unsigned64 total k range (omega arith) few

-- A fragment that has used up its header's numbers is consistent, with or without the final newline.
module _ (f : TextFragment) (n : ℕ) (c : Chunk) (b : IsBare f) (g : Good f n c) (few : n < 2 ^ 63)
    (old : is_zero c.old ≡ true) (new : is_zero c.new ≡ true) where
  done-Reports :
      (c.frag.old_position ≡ pos 0 → c.frag.old_lines ≡ pos 0)
      → Reports c.frag (tally no_counts c.frag.lines)
  done-Reports creation =
      let (comment, position, old_lines, new_position, new_lines) = g.header in
      (
        used_up c.old c.frag.old_lines _ ((is_zero_lem c.old).0 old) g.tracks.old_left
            (omega (arith, g.few_old)) (subst IsInt64 (sym old_lines) b.old_IsInt64),
        used_up c.new c.frag.new_lines _ ((is_zero_lem c.new).0 new) g.tracks.new_left
            (omega (arith, g.few_new)) (subst IsInt64 (sym new_lines) b.new_IsInt64),
        g.tracks.leading,
        g.tracks.trailing,
        g.tracks.added,
        g.tracks.deleted,
        creation,
      )

  done-settled : IsConsistent c.frag ⊎ Misplaced c.frag
  done-settled =
      settled c.frag
        (λ creation. Reports-IsConsistent c.frag g.tracks.known (done-Reports creation))

  done_trimmed-settled :
      IsConsistent (remove_last_newline c.frag) ⊎ Misplaced (remove_last_newline c.frag)
  done_trimmed-settled =
      let t = trim-Tracks c g.tracks in
      settled (remove_last_newline c.frag) (λ creation.
        Reports-IsConsistent (remove_last_newline c.frag) t.known
          (rw (tally-trim_lines c.frag.lines no_counts) (done-Reports creation)))

module _ {R : Type 0} (read : StringReader R) where
  finish_chunk-keeps :
      (p : Parser R) (f : TextFragment) {f' : TextFragment}
      → (finish_chunk read p f).1 ≡ parsed f'
      → (f' ≡ f) ⊎ (f' ≡ remove_last_newline f)
  unfolding finish_chunk next_or_end
  finish_chunk-keeps p f h = ground arith

  check_chunk-none :
      (p : Parser R) (c : Chunk)
      → check_chunk read p c ≡ none
      → (is_zero c.old ≡ true) × (is_zero c.new ≡ true) × (no_change c.frag ≡ false)
  unfolding check_chunk
  check_chunk-none p c h = (ground arith, ground arith, ground arith)

  -- What `ParseTextChunk` may return for the fragment `f`.
  abbrev Complete : TextFragment → TextFragment → Type 0
  Complete f f' = SameHeader f f' × (IsConsistent f' ⊎ Misplaced f') × (no_change f' ≡ false)

  checked_chunk-Complete :
      (f : TextFragment) (n : ℕ) (p : Parser R) (c : Chunk) (o : Option ParseError)
      {f' : TextFragment}
      → IsBare f
      → Good f n c
      → n < 2 ^ 63
      → check_chunk read p c ≡ o
      → (checked_chunk read p c o).1 ≡ parsed f'
      → Complete f f'
  unfolding checked_chunk
  checked_chunk-Complete f n p c (some e) b g few o h = cc
  checked_chunk-Complete f n p c none {f'} b g few o h =
      let (old, new, changed) = check_chunk-none p c o in
      elim (finish_chunk-keeps p c.frag h) [
        | inl e ↦ subst (Complete f) (sym e) (g.header, done-settled f n c b g few old new, changed)
        | inr e ↦
            subst (Complete f) (sym e)
              (g.header, done_trimmed-settled f n c b g few old new, unfold no_change in changed)
      ]

  after_loop-Complete :
      (f : TextFragment) (n : ℕ) (r : Parser R × Parsed Chunk) {f' : TextFragment}
      → IsBare f
      → Runs read f n r
      → n < 2 ^ 63
      → (after_loop read r).1 ≡ parsed f'
      → Complete f f'
  unfolding after_loop
  after_loop-Complete f n (p, failed e) b g few h = cc
  after_loop-Complete f n (p, parsed c) b g few h =
      checked_chunk-Complete f n p c (check_chunk read p c) b g few refl h

  -- A fragment that `ParseTextChunk` returns for a header alone, whose numbers of lines are int64
  -- values, in fewer than 2^63 rounds and whatever the input was: it has that header and a change, and
  -- it is consistent in the sense of `Validate`, or it is at old position 0 with a number of old lines
  -- that is not 0.
  pub parse_text_chunk-IsConsistent :
      (fuel : ℕ) (p : Parser R) (f : TextFragment) {f' : TextFragment}
      → IsBare f
      → fuel < 2 ^ 63
      → (parse_text_chunk read fuel p f).1 ≡ parsed f'
      → SameHeader f f' × (IsConsistent f' ⊎ Misplaced f') × (no_change f' ≡ false)
  unfolding parse_text_chunk
  parse_text_chunk-IsConsistent fuel p f b few h = elim (Bool-cases (equal p.line0 [])) [
    | inl e ↦ absurd (cc (rw e at h))
    | inr e ↦
        after_loop-Complete f fuel
          (chunk_loop read fuel p (record { frag = f; old = f.old_lines; new = f.new_lines })) b
          (chunk_loop-Good read f fuel 0 fuel p _ (omega arith) (IsBare-Good f b)) few (rw e at h)
  ]
