-- ===== src/TextParse/RoundTrip.antt =====
-- gitdiff/text.go and gitdiff/format.go: `ParseTextChunk` reads back a fragment from its lines.
use go_gitdiff.Base.{
  ℕ, zero, suc, ◌+◌, ◌*◌, ◌^◌, ◌<◌, ◌≤◌, ◌≡◌, ◌≢◌, refl, sym, ap, ◌∙◌, subst, Bool, true, false,
  ◌&&◌, ◌||◌, none, some, List, [], ◌∷◌, ◌++◌, append_assoc, append-nil, Bytes, length, equal, All,
  arith, if◌then◌else◌, inl, inr,
}
use go_gitdiff.Base.Int.{pos}
use go_gitdiff.Base.Int64.{IsInt64}
use go_gitdiff.Base.Strings.{has_prefix}
use go_gitdiff.Errors.{eof}
use go_gitdiff.Fragment.{
  LineOp, op_context, op_delete, op_add, op_other, Line, TextFragment, is_old, is_new, is_zero,
  no_eol, no_counts,
}
use go_gitdiff.Fragment.Consistent.{
  Known, count, adds, deletes, IsConsistent, count_lines-whole, whole_counts,
}
use go_gitdiff.Parser.{StringReader, Parser, Parsed, parsed, but_eof, next, next_or_end}
use go_gitdiff.Parser.Advance.{ReadsStrings, At, next-At, no_lines, head_or}
use go_gitdiff.TextParse.{
  is_no_newline_marker, remove_last_newline, Chunk, no_change, add_context, add_delete, add_add,
  chunk_loop, check_chunk, finish_chunk, checked_chunk, after_loop, parse_text_chunk,
}
use go_gitdiff.TextParse.Tally.{tally, count_lines-tally}
use go_gitdiff.TextParse.Sound.{
  Good, IsBare, IsBare-Good, add_context-Good, add_delete-Good, add_add-Good,
}
use go_gitdiff.TextParse.Print.{marker, op_byte, text_line, text_lines, take_line, absorb}
use go_gitdiff.TextParse.Rounds.{Left, count-le-length, take_line-Left, Ended, step_on, step_last}

-- The fragment with its header alone.
abbrev pub bare : TextFragment → TextFragment
bare f = record f {
  lines_added = pos 0;
  lines_deleted = pos 0;
  leading_context = pos 0;
  trailing_context = pos 0;
  lines = [];
}

abbrev start : TextFragment → Chunk
start f = record { frag = bare f; old = f.old_lines; new = f.new_lines }

no_lines-text_line :
    (b : Bool) (x y m : Bytes) (more tail : List Bytes)
    → no_lines (((if b then x ∷ m ∷ [] else y ∷ []) ++ more) ++ tail) ≡ false
no_lines-text_line true x y m more tail = refl
no_lines-text_line false x y m more tail = refl

module _ {R : Type 0} (read : StringReader R) (rest : R → List Bytes)
    (law : ReadsStrings read rest) where
  -- The loop on the lines of a fragment, which are what its counters have left.
  parse_lines :
      (ls : List Line) (l : Line) (fuel : ℕ) (p : Parser R) (c : Chunk) (tail : List Bytes)
      → At rest p (text_lines (l ∷ ls) ++ tail)
      → All Known (l ∷ ls)
      → Left c (l ∷ ls)
      → length (l ∷ ls) < 2 ^ 63
      → 2 * length (l ∷ ls) ≤ fuel
      → Ended read rest law tail (absorb c (l ∷ ls)) (chunk_loop read fuel p c)
  parse_lines ls l zero p c tail here known left few enough = absurd (omega arith)
  parse_lines ls l (suc zero) p c tail here known left few enough = absurd (omega arith)
  parse_lines [] l (suc (suc n)) p c tail here (k, ks) left few enough =
      let go =
        λ (t : Bytes). take_line-Left c l.op t 0 0 k left.0 left.1 (omega arith) (omega arith) in
      step_last read rest law n p c l.op l.line tail k (go []).2 (no_eol l.line)
        (subst (At rest p) (append_assoc (text_line l) [] tail) here) (λ t. ((go t).0, (go t).1))
  parse_lines (m ∷ ls) l (suc (suc n)) p c tail here (k, ks) left few enough =
      let old = count is_old (m ∷ ls) in
      let new = count is_new (m ∷ ls) in
      let go = λ (t : Bytes).
        take_line-Left c l.op t old new k left.0 left.1
          (omega (arith, count-le-length is_old (m ∷ ls)))
          (omega (arith, count-le-length is_new (m ∷ ls))) in
      let a =
        step_on read rest law n p c l.op l.line (text_lines (m ∷ ls) ++ tail) k (go []).2
          (no_eol l.line)
          (subst (At rest p) (append_assoc (text_line l) (text_lines (m ∷ ls)) tail) here)
          (no_lines-text_line (no_eol m.line) _ _ marker (text_lines ls) tail)
          (λ t.
            (take_line-Left (take_line c l.op t) m.op [] (count is_old ls) (count is_new ls) ks.0
              (go t).0 (go t).1 (omega (arith, count-le-length is_old ls))
              (omega (arith, count-le-length is_new ls))).2) in
      let e =
        parse_lines ls m a.rounds a.place (take_line c l.op l.line) tail a.at ks
          ((go l.line).0, (go l.line).1) (omega arith) (omega (arith, a.enough)) in
      record {
        place = e.place;
        last = e.last;
        result = a.result ∙ e.result;
        left = e.left;
        behind = e.behind;
      }

-- A chunk that has taken lines with known operations.
absorb-Good :
    (f : TextFragment) (n : ℕ) (ls : List Line) (c : Chunk)
    → All Known ls
    → Good f n c
    → Good f (n + length ls) (absorb c ls)
absorb-Good f n [] c k g = let e : n + 0 ≡ n = omega arith in rw e g
absorb-Good f n (l ∷ ls) c (k, ks) g =
    let e : n + length (l ∷ ls) ≡ suc n + length ls = omega arith in
    rw e (absorb-Good f (suc n) ls (take_line c l.op l.line) ks (taken l.op k))
  where
    taken : (o : LineOp) → (is_old o || is_new o) ≡ true → Good f (suc n) (take_line c o l.line)
    taken op_context h = add_context-Good f n c g l.line
    taken op_delete h = add_delete-Good f n c g l.line
    taken op_add h = add_add-Good f n c g l.line
    taken (op_other m) h = cc

absorb-lines :
    (ls : List Line) (c : Chunk) → All Known ls → (absorb c ls).frag.lines ≡ c.frag.lines ++ ls
absorb-lines [] c k = sym (append-nil c.frag.lines)
absorb-lines (l ∷ ls) c (k, ks) =
    absorb-lines ls (take_line c l.op l.line) ks
    ∙ ap (λ x. x ++ ls) (taken l.op l.line k)
    ∙ append_assoc c.frag.lines (l ∷ []) ls
  where
    taken :
        (o : LineOp) (t : Bytes)
        → (is_old o || is_new o) ≡ true
        → (take_line c o t).frag.lines ≡ c.frag.lines ++ record { op = o; line = t } ∷ []
    taken op_context t h = unfold add_context in refl
    taken op_delete t h = unfold add_delete in refl
    taken op_add t h = unfold add_add in refl
    taken (op_other m) t h = cc

tally-whole : (ls : List Line) → All Known ls → tally no_counts ls ≡ whole_counts ls
tally-whole ls k = cc (count_lines-tally ls 0 no_counts k, count_lines-whole ls k)

same_fragment :
    (f g : TextFragment)
    → g.comment ≡ f.comment
    → g.old_position ≡ f.old_position
    → g.old_lines ≡ f.old_lines
    → g.new_position ≡ f.new_position
    → g.new_lines ≡ f.new_lines
    → g.lines_added ≡ f.lines_added
    → g.lines_deleted ≡ f.lines_deleted
    → g.leading_context ≡ f.leading_context
    → g.trailing_context ≡ f.trailing_context
    → g.lines ≡ f.lines
    → g ≡ f
same_fragment f g a b c d e h i j k l = λ t. record {
  comment = a t;
  old_position = b t;
  old_lines = c t;
  new_position = d t;
  new_lines = e t;
  lines_added = h t;
  lines_deleted = i t;
  leading_context = j t;
  trailing_context = k t;
  lines = l t;
}

-- The chunk with all lines of a consistent fragment has that fragment.
absorb-frag :
    (f : TextFragment)
    → IsConsistent f
    → IsInt64 f.old_lines
    → IsInt64 f.new_lines
    → (absorb (start f) f.lines).frag ≡ f
absorb-frag f k x y =
    let b : IsBare (bare f) = record {
      no_lines = refl;
      no_leading = refl;
      no_trailing = refl;
      no_added = refl;
      no_deleted = refl;
      old_IsInt64 = x;
      new_IsInt64 = y;
    } in
    let g = absorb-Good (bare f) 0 f.lines (start f) k.known (IsBare-Good (bare f) b) in
    let ls = absorb-lines f.lines (start f) k.known in
    let (comment, old_position, old_lines, new_position, new_lines) = g.header in
    let t : tally no_counts (absorb (start f) f.lines).frag.lines ≡ whole_counts f.lines =
      ap (tally no_counts) ls ∙ tally-whole f.lines k.known in
    same_fragment f (absorb (start f) f.lines).frag comment old_position old_lines new_position
      new_lines (g.tracks.added ∙ ap (λ d. pos d.added) t ∙ sym k.added)
      (g.tracks.deleted ∙ ap (λ d. pos d.deleted) t ∙ sym k.deleted)
      (g.tracks.leading ∙ ap (λ d. pos d.leading) t ∙ sym k.leading)
      (g.tracks.trailing ∙ ap (λ d. pos d.trailing) t ∙ sym k.trailing) ls

no_change-kept :
    (f g : TextFragment)
    → g.lines_added ≡ f.lines_added
    → g.lines_deleted ≡ f.lines_deleted
    → no_change g ≡ no_change f
unfolding no_change
no_change-kept f g a d = λ i. is_zero (a i) && is_zero (d i)

no_change-empty : (f : TextFragment) → IsConsistent f → f.lines ≡ [] → no_change f ≡ true
unfolding no_change is_zero
no_change-empty f k e =
    let a : f.lines_added ≡ pos 0 = k.added ∙ ap (λ ls. pos (count adds ls)) e in
    let d : f.lines_deleted ≡ pos 0 = k.deleted ∙ ap (λ ls. pos (count deletes ls)) e in
    λ i. is_zero (a i) && is_zero (d i)

head_text_line :
    (b : Bool) (c d : ℕ) (s t m : Bytes) (more tail : List Bytes)
    → equal (head_or (((if b then (c ∷ s) ∷ m ∷ [] else (d ∷ t) ∷ []) ++ more) ++ tail)) [] ≡ false
unfolding equal
head_text_line true c d s t m more tail = refl
head_text_line false c d s t m more tail = refl

head_text_lines :
    (ls : List Line) (tail : List Bytes)
    → ls ≢ []
    → equal (head_or (text_lines ls ++ tail)) [] ≡ false
head_text_lines [] tail h = absurd (h refl)
head_text_lines (l ∷ ls) tail h =
    head_text_line (no_eol l.line) (op_byte l.op) (op_byte l.op) (l.line ++ b'\n' ∷ []) l.line
      marker (text_lines ls) tail

check_passes :
    {R : Type 0} (read : StringReader R) (p : Parser R) (c : Chunk)
    → Left c []
    → no_change c.frag ≡ false
    → check_chunk read p c ≡ none
unfolding check_chunk
check_passes read p c (a, b) h =
    let x : is_zero c.old ≡ true = ap is_zero a ∙ (unfold is_zero in refl) in
    let y : is_zero c.new ≡ true = ap is_zero b ∙ (unfold is_zero in refl) in rw (x, y, h)

module _ {R : Type 0} (read : StringReader R) (rest : R → List Bytes) (law : ReadsStrings read rest)
    (f : TextFragment) (changed : no_change f ≡ false) (tail : List Bytes)
    (no_marker : is_no_newline_marker (head_or tail) ≡ false) where
  -- What a call gives back: the fragment, and the parser behind its lines.
  abbrev ReadsBack : Parser R × Parsed TextFragment → Type 0
  ReadsBack r = (r.1 ≡ parsed f) × At rest r.0 tail

  finish_plain :
      (q : Parser R) (g : TextFragment) → At rest q tail → g ≡ f → ReadsBack (finish_chunk read q g)
  unfolding finish_chunk
  finish_plain q g here e =
      let none_here : is_no_newline_marker q.line0 ≡ false =
        ap is_no_newline_marker here.first ∙ no_marker in
      rw (none_here, finish_chunk) (ap parsed e, here)

  only_eof : (b : Bool) → but_eof (if b then some eof else none) ≡ none
  only_eof true = refl
  only_eof false = refl

  next_or_end-fine :
      (q : Parser R) (g : TextFragment)
      → but_eof (next read q).1 ≡ none
      → next_or_end read q g ≡ ((next read q).0, parsed g)
  unfolding next_or_end
  next_or_end-fine q g e = rw (e, next_or_end)

  finish_marked :
      (q : Parser R) (g : TextFragment)
      → At rest q (marker ∷ tail)
      → remove_last_newline g ≡ f
      → ReadsBack (finish_chunk read q g)
  unfolding finish_chunk
  finish_marked q g here e =
      let (at, end, lines) = next-At read rest law q marker tail here in
      let marked : is_no_newline_marker q.line0 ≡ true =
        ap is_no_newline_marker here.first ∙ (unfold is_no_newline_marker has_prefix in refl) in
      let fine : but_eof (next read q).1 ≡ none = ap but_eof end ∙ only_eof (no_lines tail) in
      rw (marked, finish_chunk)
        (subst ReadsBack (sym (next_or_end-fine q (remove_last_newline g) fine)) (ap parsed e, at))

  after_loop-ReadsBack :
      (d : Chunk) (r : Parser R × Parsed Chunk)
      → d.frag ≡ f
      → Ended read rest law tail d r
      → ReadsBack (after_loop read r)
  unfolding after_loop checked_chunk
  after_loop-ReadsBack d r e ended =
      let c = ended.last in
      subst (λ x. ReadsBack (after_loop read x)) (sym ended.result)
        (subst (λ o. ReadsBack (checked_chunk read ended.place c o)) (sym passes)
          (elim ended.behind [
            | inl (at, same) ↦ finish_plain ended.place c.frag at (ap (λ x. x.frag) same ∙ e)
            | inr (at, same) ↦ finish_marked ended.place c.frag at (ap (λ x. x.frag) same ∙ e)
          ]))
    where
      kept :
          (ended.last.frag.lines_added ≡ f.lines_added)
          × (ended.last.frag.lines_deleted ≡ f.lines_deleted)
      kept = elim ended.behind [
        | inl (at, same) ↦ (
          ap (λ x. x.frag.lines_added) same ∙ ap (λ x. x.lines_added) e,
          ap (λ x. x.frag.lines_deleted) same ∙ ap (λ x. x.lines_deleted) e,
        )
        | inr (at, same) ↦ (
          ap (λ x. x.frag.lines_added) same ∙ ap (λ x. x.lines_added) e,
          ap (λ x. x.frag.lines_deleted) same ∙ ap (λ x. x.lines_deleted) e,
        )
      ]

      passes : check_chunk read ended.place ended.last ≡ none
      passes =
          check_passes read ended.place ended.last ended.left
            (no_change-kept f ended.last.frag kept.0 kept.1 ∙ changed)

  Ended-lines :
      (fuel : ℕ) (p : Parser R) (c : Chunk) (ls : List Line)
      → ls ≢ []
      → At rest p (text_lines ls ++ tail)
      → All Known ls
      → Left c ls
      → length ls < 2 ^ 63
      → 2 * length ls ≤ fuel
      → Ended read rest law tail (absorb c ls) (chunk_loop read fuel p c)
  Ended-lines fuel p c [] h here known left few enough = absurd (h refl)
  Ended-lines fuel p c (l ∷ ls) h here known left few enough =
      parse_lines read rest law ls l fuel p c tail here known left few enough

  -- Over a reader that keeps to its documentation, `ParseTextChunk` on the lines that the formatter
  -- writes for a consistent fragment with a change, whose numbers are int64 values, and on further lines
  -- that do not begin with a marker, gives the fragment from its header and stops behind its lines.
  pub parse_text_chunk-text_lines :
      (fuel : ℕ) (p : Parser R)
      → IsConsistent f
      → IsInt64 f.old_lines
      → IsInt64 f.new_lines
      → length f.lines < 2 ^ 63
      → 2 * length f.lines ≤ fuel
      → At rest p (text_lines f.lines ++ tail)
      → ((parse_text_chunk read fuel p (bare f)).1 ≡ parsed f)
        × At rest (parse_text_chunk read fuel p (bare f)).0 tail
  unfolding parse_text_chunk
  parse_text_chunk-text_lines fuel p k x y few enough here =
      let nonempty : f.lines ≢ [] = λ e. cc (no_change-empty f k e, changed) in
      let some_text : equal p.line0 [] ≡ false =
        ap (λ t. equal t []) here.first ∙ head_text_lines f.lines tail nonempty in
      let ended =
        Ended-lines fuel p (start f) f.lines nonempty here k.known (k.old, k.new) few enough in
      rw some_text (after_loop-ReadsBack (absorb (start f) f.lines) _ (absorb-frag f k x y) ended)
