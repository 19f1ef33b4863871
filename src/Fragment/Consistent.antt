-- ===== src/Fragment/Consistent.antt =====
-- gitdiff/gitdiff.go: `Validate` accepts exactly the consistent fragments.
use go_gitdiff.Base.{
  ℕ, ◌+◌, ◌≡◌, refl, sym, ap, ◌∙◌, ◌↔◌, Bool, true, false, not, ◌&&◌, ◌||◌, none, some, List, [],
  ◌∷◌, Bytes, length, ◌==◌, if◌then◌else◌, All, arith,
}
use go_gitdiff.Base.Int.{ℤ, pos, negsuc}
use go_gitdiff.Fragment.{
  LineOp, op_context, op_delete, op_add, op_other, Line, TextFragment, is_old, is_new, Counts,
  no_counts, count_context, count_add, count_delete, Counted, counted, unknown, count_lines,
  differs, is_zero, check_counts, check_counted, validate,
}

-- An operation that `Validate` knows.
abbrev pub Known : Line → Type 0
Known l = (is_old l.op || is_new l.op) ≡ true

-- The number of lines whose operation passes a test.
abbrev pub count : (LineOp → Bool) → List Line → ℕ
count test [] = 0
count test (l ∷ ls) = (if test l.op then 1 else 0) + count test ls

abbrev pub adds : LineOp → Bool
adds op = not (is_old op)

abbrev pub deletes : LineOp → Bool
deletes op = not (is_new op)

abbrev pub changes : LineOp → Bool
changes op = not (is_old op && is_new op)

abbrev pub any_change : List Line → Bool
any_change [] = false
any_change (l ∷ ls) = changes l.op || any_change ls

-- The number of lines before the first change, and behind the last, which is 0 if there is none.
abbrev pub before_change : List Line → ℕ
before_change [] = 0
before_change (l ∷ ls) = let more = before_change ls + 1 in if changes l.op then 0 else more

abbrev pub behind_change : List Line → ℕ
behind_change [] = 0
behind_change (l ∷ ls) =
    let more = behind_change ls in
    if any_change ls then more else if changes l.op then length ls else 0

-- The reported numbers are those of the lines, and a file is created from no lines.
pub record IsConsistent (f : TextFragment) : Type 0 where
  pub known : All Known f.lines
  pub old : f.old_lines ≡ pos (count is_old f.lines)
  pub new : f.new_lines ≡ pos (count is_new f.lines)
  pub leading : f.leading_context ≡ pos (before_change f.lines)
  pub trailing : f.trailing_context ≡ pos (behind_change f.lines)
  pub added : f.lines_added ≡ pos (count adds f.lines)
  pub deleted : f.lines_deleted ≡ pos (count deletes f.lines)
  pub creation : f.old_position ≡ pos 0 → f.old_lines ≡ pos 0

-- The counters behind the lines `ls`, from `c` on.
abbrev counts_of : Counts → List Line → Counts
counts_of c ls = record {
  old = c.old + count is_old ls;
  new = c.new + count is_new ls;
  leading = if c.added == 0 && c.deleted == 0 then c.leading + before_change ls else c.leading;
  trailing =
      if any_change ls
      then behind_change ls
      else if c.added == 0 && c.deleted == 0
      then c.trailing
      else c.trailing + length ls;
  context = c.context + count (λ op. is_old op && is_new op) ls;
  added = c.added + count adds ls;
  deleted = c.deleted + count deletes ls;
}

counts_of-nil : (c : Counts) → counts_of c [] ≡ c
counts_of-nil c = ground arith

module _ (text : Bytes) (c : Counts) (ls : List Line) where
  counts_of_context :
      counts_of (count_context c) ls ≡ counts_of c (record { op = op_context; line = text } ∷ ls)
  counts_of_context = ground arith

  counts_of_add :
      counts_of (count_add c) ls ≡ counts_of c (record { op = op_add; line = text } ∷ ls)
  counts_of_add = ground arith

  counts_of_delete :
      counts_of (count_delete c) ls ≡ counts_of c (record { op = op_delete; line = text } ∷ ls)
  counts_of_delete = ground arith

-- The loop over one line, by its operation, and over all.
count_line_lem :
    (op : LineOp) (text : Bytes) (ls : List Line) (i : ℕ) (c : Counts)
    → (is_old op || is_new op) ≡ true
    → ((j : ℕ) (d : Counts) → count_lines j d ls ≡ counted (counts_of d ls))
    → count_lines i c (record { op = op; line = text } ∷ ls)
      ≡ counted (counts_of c (record { op = op; line = text } ∷ ls))
unfolding count_lines
count_line_lem op_context text ls i c k ih =
    ih (i + 1) (count_context c) ∙ ap counted (counts_of_context text c ls)
count_line_lem op_add text ls i c k ih =
    ih (i + 1) (count_add c) ∙ ap counted (counts_of_add text c ls)
count_line_lem op_delete text ls i c k ih =
    ih (i + 1) (count_delete c) ∙ ap counted (counts_of_delete text c ls)
count_line_lem (op_other n) text ls i c k ih = cc

count_lines_lem :
    (ls : List Line) (i : ℕ) (c : Counts)
    → All Known ls
    → count_lines i c ls ≡ counted (counts_of c ls)
count_lines_lem [] i c k = unfold count_lines in ap counted (sym (counts_of-nil c))
count_lines_lem (l ∷ ls) i c (k, ks) =
    count_line_lem l.op l.line ls i c k (λ j d. count_lines_lem ls j d ks)

-- A loop that gets to its end has met known operations alone.
count_line_known :
    (op : LineOp) (text : Bytes) (ls : List Line) (i : ℕ) (c : Counts) {d : Counts}
    → count_lines i c (record { op = op; line = text } ∷ ls) ≡ counted d
    → ((is_old op || is_new op) ≡ true) × ((c' : Counts) × (count_lines (i + 1) c' ls ≡ counted d))
unfolding count_lines
count_line_known op_context text ls i c h = (refl, (count_context c, h))
count_line_known op_add text ls i c h = (refl, (count_add c, h))
count_line_known op_delete text ls i c h = (refl, (count_delete c, h))
count_line_known (op_other n) text ls i c h = cc

count_lines-Known :
    (ls : List Line) (i : ℕ) (c : Counts) {d : Counts}
    → count_lines i c ls ≡ counted d
    → All Known ls
count_lines-Known [] i c h = tt
count_lines-Known (l ∷ ls) i c {d} h =
    let (k, later) = count_line_known l.op l.line ls i c h in
    (k, count_lines-Known ls (i + 1) later.0 later.1)

differs_lem : (n : ℕ) (x : ℤ) → (differs n x ≡ false) ↔ (x ≡ pos n)
unfolding differs
differs_lem n (pos m) = ground arith
differs_lem n (negsuc m) = ground arith

pub is_zero_lem : (x : ℤ) → (is_zero x ≡ true) ↔ (x ≡ pos 0)
unfolding is_zero
is_zero_lem (pos m) = ground arith
is_zero_lem (negsuc m) = ground arith

abbrev pub Reports : TextFragment → Counts → Type 0
Reports f c =
    (f.old_lines ≡ pos c.old)
    × (f.new_lines ≡ pos c.new)
    × (f.leading_context ≡ pos c.leading)
    × (f.trailing_context ≡ pos c.trailing)
    × (f.lines_added ≡ pos c.added)
    × (f.lines_deleted ≡ pos c.deleted)
    × (f.old_position ≡ pos 0 → f.old_lines ≡ pos 0)

module _ (f : TextFragment) (c : Counts) where
  check_counts_sound : check_counts f c ≡ none → Reports f c
  unfolding check_counts
  check_counts_sound h = ground (
    arith,
    differs_lem c.old f.old_lines,
    differs_lem c.new f.new_lines,
    differs_lem c.leading f.leading_context,
    differs_lem c.trailing f.trailing_context,
    differs_lem c.added f.lines_added,
    differs_lem c.deleted f.lines_deleted,
    is_zero_lem f.old_position,
    is_zero_lem f.old_lines,
  )

  pub check_counts_complete : Reports f c → check_counts f c ≡ none
  unfolding check_counts
  check_counts_complete (a, b, d, e, g, h, k) =
      rw
        (
          (differs_lem c.old f.old_lines).1 a,
          (differs_lem c.new f.new_lines).1 b,
          (differs_lem c.leading f.leading_context).1 d,
          (differs_lem c.trailing f.trailing_context).1 e,
          (differs_lem c.added f.lines_added).1 g,
          (differs_lem c.deleted f.lines_deleted).1 h,
        )
        (ground (arith, is_zero_lem f.old_position, is_zero_lem f.old_lines))

check_counted_sound :
    (f : TextFragment) (r : Counted)
    → check_counted f r ≡ none
    → (d : Counts) × (r ≡ counted d) × (check_counts f d ≡ none)
unfolding check_counted
check_counted_sound f (counted d) h = (d, refl, h)
check_counted_sound f (unknown e) h = cc

-- The counters at the end of a whole loop.
abbrev pub whole_counts : List Line → Counts
whole_counts ls = record {
  old = count is_old ls;
  new = count is_new ls;
  leading = before_change ls;
  trailing = behind_change ls;
  context = count (λ op. is_old op && is_new op) ls;
  added = count adds ls;
  deleted = count deletes ls;
}

behind_change-zero : (ls : List Line) → any_change ls ≡ false → behind_change ls ≡ 0
behind_change-zero [] h = refl
behind_change-zero (l ∷ ls) h = ground arith

whole_counts_lem : (ls : List Line) → counts_of no_counts ls ≡ whole_counts ls
whole_counts_lem ls = ground (arith, behind_change-zero ls)

pub count_lines-whole :
    (ls : List Line) → All Known ls → count_lines 0 no_counts ls ≡ counted (whole_counts ls)
count_lines-whole ls k = count_lines_lem ls 0 no_counts k ∙ ap counted (whole_counts_lem ls)

validate_sound : (f : TextFragment) → validate (some f) ≡ none → IsConsistent f
unfolding validate
validate_sound f h =
    let (d, ended, fine) = check_counted_sound f (count_lines 0 no_counts f.lines) h in
    let k = count_lines-Known f.lines 0 no_counts ended in
    let same : d ≡ whole_counts f.lines = cc (ended, count_lines-whole f.lines k) in
    let (a, b, c, e, g, i, j) = check_counts_sound f (whole_counts f.lines) (rw same at fine) in
    record {
      known = k;
      old = a;
      new = b;
      leading = c;
      trailing = e;
      added = g;
      deleted = i;
      creation = j;
    }

pub validated :
    (f : TextFragment) {c : Counts}
    → count_lines 0 no_counts f.lines ≡ counted c
    → check_counts f c ≡ none
    → validate (some f) ≡ none
unfolding validate check_counted
validated f ran fine = rw (ran, validate) fine

validate_complete : (f : TextFragment) → IsConsistent f → validate (some f) ≡ none
validate_complete f k =
    let fine =
      check_counts_complete f (whole_counts f.lines)
        (k.old, k.new, k.leading, k.trailing, k.added, k.deleted, k.creation) in
    let ran = count_lines-whole f.lines k.known in validated f ran fine

-- `Validate` returns no error exactly for a fragment that is consistent: each line has a known
-- operation, each reported number is the one that the lines have, and a fragment at old position 0
-- reports no old lines.
pub validate-IsConsistent : (f : TextFragment) → (validate (some f) ≡ none) ↔ IsConsistent f
validate-IsConsistent f = (validate_sound f, validate_complete f)
