-- ===== src/TextParse/Tally.antt =====
-- gitdiff/text.go and gitdiff/gitdiff.go: a fragment that `ParseTextChunk` returns passes `Validate`.
use go_gitdiff.Base.{
  ℕ, ◌+◌, ◌%◌, ◌^◌, ◌≡◌, refl, List, [], ◌∷◌, ◌++◌, Bytes, All, All-append, arith,
}
use go_gitdiff.Base.Int.{pos, ◌+ℤ◌}
use go_gitdiff.Base.Int64.{unsigned64, unsigned64-dec64}
use go_gitdiff.Fragment.{
  LineOp, op_context, op_delete, op_add, op_other, Line, TextFragment, Counts, no_counts,
  count_context, count_add, count_delete, counted, count_lines, is_zero,
}
use go_gitdiff.Fragment.Consistent.{
  Known, Reports, IsConsistent, check_counts_complete, validated, validate-IsConsistent,
}
use go_gitdiff.TextParse.{
  trim_lines, remove_last_newline, Chunk, no_change, add_context, add_delete, add_add,
}

-- One round of the loop of `Validate`, and all.
abbrev pub count_op : LineOp → Counts → Counts
count_op op_context c = count_context c
count_op op_add c = count_add c
count_op op_delete c = count_delete c
count_op (op_other n) c = c

abbrev pub tally : Counts → List Line → Counts
tally c [] = c
tally c (l ∷ ls) = tally (count_op l.op c) ls

pub tally-append :
    (ls : List Line) (l : Line) (c : Counts) → tally c (ls ++ l ∷ []) ≡ count_op l.op (tally c ls)
tally-append [] l c = refl
tally-append (m ∷ ls) l c = tally-append ls l (count_op m.op c)

pub tally-trim_lines : (ls : List Line) (c : Counts) → tally c (trim_lines ls) ≡ tally c ls
unfolding trim_lines
tally-trim_lines [] c = refl
tally-trim_lines (l ∷ []) c = refl
tally-trim_lines (l ∷ m ∷ ls) c = tally-trim_lines (m ∷ ls) (count_op l.op c)

Known-trim_lines : (ls : List Line) → All Known ls → All Known (trim_lines ls)
unfolding trim_lines
Known-trim_lines [] h = h
Known-trim_lines (l ∷ []) h = h
Known-trim_lines (l ∷ m ∷ ls) (h, hs) = (h, Known-trim_lines (m ∷ ls) hs)

-- The counters of the fragment are those of its lines, and so is what the header has left.
pub record Tracks (c : Chunk) : Type 0 where
  pub known : All Known c.frag.lines
  pub leading : c.frag.leading_context ≡ pos (tally no_counts c.frag.lines).leading
  pub trailing : c.frag.trailing_context ≡ pos (tally no_counts c.frag.lines).trailing
  pub added : c.frag.lines_added ≡ pos (tally no_counts c.frag.lines).added
  pub deleted : c.frag.lines_deleted ≡ pos (tally no_counts c.frag.lines).deleted
  pub old_left :
      (unsigned64 c.old + (tally no_counts c.frag.lines).old) % 2 ^ 64 ≡ unsigned64 c.frag.old_lines
  pub new_left :
      (unsigned64 c.new + (tally no_counts c.frag.lines).new) % 2 ^ 64 ≡ unsigned64 c.frag.new_lines

pub add_context-Tracks : (c : Chunk) (text : Bytes) → Tracks c → Tracks (add_context c text)
unfolding add_context no_change is_zero ◌+ℤ◌
add_context-Tracks c text t =
    let e = tally-append c.frag.lines (record { op = op_context; line = text }) no_counts in
    record {
      known = All-append Known c.frag.lines _ t.known (refl, tt);
      leading = rw e (ground (arith, t.leading, t.added, t.deleted));
      trailing = rw e (ground (arith, t.trailing, t.added, t.deleted));
      added = rw e t.added;
      deleted = rw e t.deleted;
      old_left = rw e (omega (arith, t.old_left, unsigned64-dec64 c.old));
      new_left = rw e (omega (arith, t.new_left, unsigned64-dec64 c.new));
    }

pub add_delete-Tracks : (c : Chunk) (text : Bytes) → Tracks c → Tracks (add_delete c text)
unfolding add_delete ◌+ℤ◌
add_delete-Tracks c text t =
    let e = tally-append c.frag.lines (record { op = op_delete; line = text }) no_counts in
    record {
      known = All-append Known c.frag.lines _ t.known (refl, tt);
      leading = rw e t.leading;
      trailing = rw e refl;
      added = rw e t.added;
      deleted = rw e (ground (arith, t.deleted));
      old_left = rw e (omega (arith, t.old_left, unsigned64-dec64 c.old));
      new_left = rw e t.new_left;
    }

pub add_add-Tracks : (c : Chunk) (text : Bytes) → Tracks c → Tracks (add_add c text)
unfolding add_add ◌+ℤ◌
add_add-Tracks c text t =
    let e = tally-append c.frag.lines (record { op = op_add; line = text }) no_counts in
    record {
      known = All-append Known c.frag.lines _ t.known (refl, tt);
      leading = rw e t.leading;
      trailing = rw e refl;
      added = rw e (ground (arith, t.added));
      deleted = rw e t.deleted;
      old_left = rw e t.old_left;
      new_left = rw e (omega (arith, t.new_left, unsigned64-dec64 c.new));
    }

pub trim-Tracks : (c : Chunk) → Tracks c → Tracks (record c { frag = remove_last_newline c.frag })
trim-Tracks c t =
    let e = tally-trim_lines c.frag.lines no_counts in
    record {
      known = Known-trim_lines c.frag.lines t.known;
      leading = rw e t.leading;
      trailing = rw e t.trailing;
      added = rw e t.added;
      deleted = rw e t.deleted;
      old_left = rw e t.old_left;
      new_left = rw e t.new_left;
    }

count_line-tally :
    (o : LineOp) (text : Bytes) (ls : List Line) (i : ℕ) (c : Counts)
    → Known (record { op = o; line = text })
    → ((d : Counts) → count_lines (i + 1) d ls ≡ counted (tally d ls))
    → count_lines i c (record { op = o; line = text } ∷ ls)
      ≡ counted (tally c (record { op = o; line = text } ∷ ls))
unfolding count_lines
count_line-tally op_context text ls i c k ih = ih (count_context c)
count_line-tally op_delete text ls i c k ih = ih (count_delete c)
count_line-tally op_add text ls i c k ih = ih (count_add c)
count_line-tally (op_other n) text ls i c k ih = cc

pub count_lines-tally :
    (ls : List Line) (i : ℕ) (c : Counts) → All Known ls → count_lines i c ls ≡ counted (tally c ls)
count_lines-tally [] i c h = unfold count_lines in refl
count_lines-tally (l ∷ ls) i c (h, hs) =
    count_line-tally l.op l.line ls i c h (λ d. count_lines-tally ls (i + 1) d hs)

-- A fragment that reports the counters of its lines is consistent.
pub Reports-IsConsistent :
    (f : TextFragment) → All Known f.lines → Reports f (tally no_counts f.lines) → IsConsistent f
Reports-IsConsistent f k r = (validate-IsConsistent f).0 (
    validated f (count_lines-tally f.lines 0 no_counts k)
      (check_counts_complete f (tally no_counts f.lines) r))
