-- ===== src/Fragment.antt =====
-- gitdiff/gitdiff.go: lines, text fragments and `Validate`. The int64 fields of a fragment are
-- integers; the counters of `Validate` count lines in memory and stay natural numbers.
pub mod Consistent
use go_gitdiff.Base.{
  ℕ, zero, suc, ◌+◌, Bool, true, false, not, ◌&&◌, ◌||◌, Option, none, some, List, [], ◌∷◌, ◌++◌,
  Bytes, codes, length, ◌==◌, if◌then◌else◌,
}
use go_gitdiff.Base.Int.{ℤ, pos, negsuc}
use go_gitdiff.Errors.{Error, message, unknown_operator, line_count}

-- `LineOp` is an int; `op_other` stands for the values that are no operation.
pub data LineOp : Type 0 where
  op_context op_delete op_add : LineOp
  op_other : ℕ → LineOp

pub record Line : Type 0 where
  pub op : LineOp
  pub line : Bytes

pub record TextFragment : Type 0 where
  pub comment : Bytes
  pub old_position : ℤ
  pub old_lines : ℤ
  pub new_position : ℤ
  pub new_lines : ℤ
  pub lines_added : ℤ
  pub lines_deleted : ℤ
  pub leading_context : ℤ
  pub trailing_context : ℤ
  pub lines : List Line

-- `LineOp.String`
abbrev pub op_string : LineOp → Bytes
op_string op_context = b' ' ∷ []
op_string op_delete = b'-' ∷ []
op_string op_add = b'+' ∷ []
op_string (op_other n) = b'?' ∷ []

-- `Line.Old` and `Line.New`
abbrev pub is_old : LineOp → Bool
is_old op_context = true
is_old op_delete = true
is_old op_add = false
is_old (op_other n) = false

abbrev pub is_new : LineOp → Bool
is_new op_context = true
is_new op_delete = false
is_new op_add = true
is_new (op_other n) = false

-- `Line.NoEOL`
unfoldable pub no_eol : Bytes → Bool
no_eol [] = true
no_eol (c ∷ []) = not (c == b'\n')
no_eol (c ∷ d ∷ s) = no_eol (d ∷ s)

-- The counters of `Validate`.
pub record Counts : Type 0 where
  pub old : ℕ
  pub new : ℕ
  pub leading : ℕ
  pub trailing : ℕ
  pub context : ℕ
  pub added : ℕ
  pub deleted : ℕ

abbrev pub no_counts : Counts
no_counts = record {
  old = 0;
  new = 0;
  leading = 0;
  trailing = 0;
  context = 0;
  added = 0;
  deleted = 0;
}

-- The cases of the switch.
abbrev pub count_context : Counts → Counts
count_context c = record c {
  old = c.old + 1;
  new = c.new + 1;
  context = c.context + 1;
  leading = if c.added == 0 && c.deleted == 0 then c.leading + 1 else c.leading;
  trailing = if c.added == 0 && c.deleted == 0 then c.trailing else c.trailing + 1;
}

abbrev pub count_add : Counts → Counts
count_add c = record c { new = c.new + 1; added = c.added + 1; trailing = 0 }

abbrev pub count_delete : Counts → Counts
count_delete c = record c { old = c.old + 1; deleted = c.deleted + 1; trailing = 0 }

pub data Counted : Type 0 where
  counted : Counts → Counted
  unknown : Error → Counted

-- The loop of `Validate`, at index `i`.
unfoldable pub count_lines : ℕ → Counts → List Line → Counted
count_lines i c [] = counted c
count_lines i c (l ∷ ls) = elim l.op [
  | op_context ↦ count_lines (i + 1) (count_context c) ls
  | op_add ↦ count_lines (i + 1) (count_add c) ls
  | op_delete ↦ count_lines (i + 1) (count_delete c) ls
  | op_other n ↦ unknown (unknown_operator n (i + 1))
]

-- `n != x` on an actual count and a reported one.
unfoldable pub differs : ℕ → ℤ → Bool
differs n (pos m) = not (n == m)
differs n (negsuc m) = true

unfoldable pub is_zero : ℤ → Bool
is_zero (pos n) = n == 0
is_zero (negsuc n) = false

abbrev pub count_err : Bytes → ℕ → ℤ → Option Error
count_err kind actual reported = some (line_count kind (pos actual) reported)

-- The checks behind the loop.
pub check_counts : TextFragment → Counts → Option Error
check_counts f c =
    if differs c.old f.old_lines
    then count_err (codes "old") c.old f.old_lines
    else if differs c.new f.new_lines
    then count_err (codes "new") c.new f.new_lines
    else if differs c.leading f.leading_context
    then count_err (codes "leading context") c.leading f.leading_context
    else if differs c.trailing f.trailing_context
    then count_err (codes "trailing context") c.trailing f.trailing_context
    else if differs c.added f.lines_added
    then count_err (codes "added") c.added f.lines_added
    else if differs c.deleted f.lines_deleted
    then count_err (codes "deleted") c.deleted f.lines_deleted
    else if is_zero f.old_position && not (is_zero f.old_lines)
    then some (message (codes "file creation fragment contains context or deletion lines"))
    else none

pub check_counted : TextFragment → Counted → Option Error
check_counted f (counted c) = check_counts f c
check_counted f (unknown e) = some e

-- `Validate`, on a pointer that may be nil.
unfoldable pub validate : Option TextFragment → Option Error
unfolding check_counted check_counts differs is_zero count_lines
validate none = some (message (codes "nil fragment"))
validate (some f) = check_counted f (count_lines 0 no_counts f.lines)
