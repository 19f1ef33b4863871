-- ===== src/TextApply.antt =====
-- gitdiff/apply_text.go: `TextApplier`, and `copyLinesFrom` of gitdiff/io.go, which its `Close` uses.
-- The line reader is an interface of the program: a function from a count and an offset to the lines
-- read and an error. Positions are int64: `frag_start` and `span` write their wrap-around out. A
-- slice of a negative length, or an index out of range, is a panic.
pub mod Lines
pub mod Sound
pub mod Rest
use go_gitdiff.Base.{
  ℕ, zero, suc, ◌+◌, ◌-◌, ◌%◌, ◌^◌, Bool, true, false, not, ◌&&◌, Option, none, some, List, [], ◌∷◌,
  Bytes, codes, length, get_elem?, take, drop, ltb, ◌==◌, equal, if◌then◌else◌,
}
use go_gitdiff.Base.Int.{ℤ, pos, negsuc}
use go_gitdiff.Errors.{
  Error, eof, short_write, applier_closed, conflict, stuck, Failure, plain, panic, Place, line_num,
  frag_line_num, apply_error,
}
use go_gitdiff.Io.{ReaderAt, Writer, is_len, copy_from, CopyRound, again, stop, copy_end}
use go_gitdiff.Fragment.{Line, TextFragment, is_old, is_new, is_zero, validate}

abbrev pub LineReaderAt : Type 0
LineReaderAt = ℕ → ℕ → List Bytes × Option Error

pub record TextApplier (W : Type 0) : Type 0 where
  pub dst : W
  pub next_line : ℕ
  pub closed : Bool
  pub dirty : Bool

-- `NewTextApplier`
abbrev pub new_text_applier : {W : Type 0} → W → TextApplier W
new_text_applier w = record { dst = w; next_line = 0; closed = false; dirty = false }

-- `f.OldPosition - 1`, or 0 if that is negative; the least int64 wraps around.
unfoldable pub frag_start : ℤ → ℕ
frag_start (pos n) = n - 1
frag_start (negsuc n) = if n == 2 ^ 63 - 1 then n else 0

-- `fragEnd - start`, for a fragment of `n` old lines: none where that is negative as an int64.
unfoldable pub span : ℕ → ℕ → ℕ → Option ℕ
span from n start = if ltb (from + n - start) (2 ^ 63) then some (from + n - start) else none

abbrev pub overlap_conflict : Error
overlap_conflict = conflict (codes "fragment overlaps with an applied fragment")

abbrev pub creation_conflict : Error
creation_conflict = conflict (codes "cannot create new file from non-empty src")

abbrev pub match_conflict : Error
match_conflict = conflict (codes "fragment line does not match src line")

abbrev pub leftover_conflict : Error
leftover_conflict = conflict (codes "src still has content after full delete")

-- The writer after a loop that writes, how far it got, and what stopped it.
pub record Written (W : Type 0) : Type 0 where
  pub writer : W
  pub used : ℕ
  pub index : ℕ
  pub failed : Option Failure

abbrev pub plainly : Option Error → Option Failure
plainly none = none
plainly (some e) = some (plain e)

-- The writes of the lines before the fragment, at index `i`.
unfoldable pub copy_leading : {W : Type 0} → Writer W → W → ℕ → List Bytes → Written W
copy_leading write w i [] = record { writer = w; used = i; index = i; failed = none }
copy_leading write w i (l ∷ ls) = elim ((write w l).2) [
  | some e ↦ record { writer = (write w l).0; used = i; index = i; failed = some (plain e) }
  | none ↦ copy_leading write (write w l).0 (i + 1) ls
]

-- The comparison in `applyTextLine`, on `preimage[i]` if it is there.
unfoldable pub match_line : Bytes → Option Bytes → Option Failure
match_line text none = some panic
match_line text (some old) = if equal old text then none else some (plain match_conflict)

-- `applyTextLine`
unfoldable pub apply_text_line :
    {W : Type 0} → Writer W → W → Line → List Bytes → ℕ → W × Option Failure
apply_text_line write w l preimage i =
    elim (if is_old l.op then match_line l.line (get_elem? preimage i) else none) [
      | some e ↦ (w, some e)
      | none ↦ if is_new l.op then ((write w l.line).0, plainly (write w l.line).2) else (w, none)
    ]

-- The loop over the lines of the fragment.
unfoldable pub apply_lines :
    {W : Type 0} → Writer W → W → List Bytes → ℕ → ℕ → List Line → Written W
apply_lines write w preimage used i [] = record {
  writer = w;
  used = used;
  index = i;
  failed = none;
}
apply_lines write w preimage used i (l ∷ ls) =
    let r = apply_text_line write w l preimage used in
    elim r.1 [
      | some e ↦ record { writer = r.0; used = used; index = i; failed = some e }
      | none ↦ apply_lines write r.0 preimage (if is_old l.op then used + 1 else used) (i + 1) ls
    ]

-- The check for leftovers, by what `ReadLinesAt` gives for one line.
unfoldable pub leftover : ℕ → List Bytes × Option Error → Option Failure
leftover next (ls, some eof) =
    if ltb 0 (length ls)
    then apply_error (some (plain leftover_conflict)) (line_num next ∷ [])
    else none
leftover next (ls, none) =
    if ltb 0 (length ls)
    then apply_error (some (plain leftover_conflict)) (line_num next ∷ [])
    else none
leftover next (ls, some e) = apply_error (some (plain e)) (line_num next ∷ [])

-- The check that a new file is made from nothing, by the answer of `isLen`.
unfoldable pub creation_answer : Bool × Option Error → Option Failure
creation_answer (ok, some e) = apply_error (some (plain e)) []
creation_answer (true, none) = none
creation_answer (false, none) = apply_error (some (plain creation_conflict)) []

abbrev pub to_count : ℤ → ℕ
to_count (pos n) = n
to_count (negsuc n) = 0

module _ {W : Type 0} (write : Writer W) (src : ReaderAt) (line_src : LineReaderAt) where
  -- What follows the loop over the lines.
  unfoldable pub finish_fragment :
      TextApplier W → TextFragment → ℕ → Written W → TextApplier W × Option Failure
  finish_fragment a f from r =
      let a' = record a { dst = r.writer; next_line = from + r.used } in
      elim r.failed [
        | some e ↦
            (a', apply_error (some e) (line_num (from + r.used) ∷ frag_line_num r.index ∷ []))
        | none ↦ (
          a',
          if is_zero f.new_position && is_zero f.new_lines
              then leftover (from + r.used) (line_src 1 (from + r.used))
              else none,
        )
      ]

  -- What follows the copy of the lines before the fragment.
  unfoldable pub change_lines :
      TextApplier W → TextFragment → ℕ → List Bytes → Written W → TextApplier W × Option Failure
  change_lines a f from preimage r = elim r.failed [
    | some e ↦ (
      record a { dst = r.writer; next_line = a.next_line + r.index },
      apply_error (some e) (line_num (a.next_line + r.index) ∷ []),
    )
    | none ↦ finish_fragment a f from (apply_lines write r.writer preimage 0 0 f.lines)
  ]

  -- What follows the read of the preimage, by its result.
  unfoldable pub apply_preimage :
      TextApplier W → TextFragment → ℕ → List Bytes × Option Error → TextApplier W × Option Failure
  apply_preimage a f from (ls, some e) =
      (a, apply_error (some (plain e)) (line_num (a.next_line + length ls) ∷ []))
  apply_preimage a f from (ls, none) =
      let before = from - a.next_line in
      change_lines a f from (drop before ls) (copy_leading write a.dst 0 (take before ls))

  -- The fragment is consistent, of `n` old lines.
  unfoldable pub apply_valid : TextApplier W → TextFragment → ℕ → TextApplier W × Option Failure
  apply_valid a f n =
      let from = frag_start f.old_position in
      if ltb from a.next_line
      then (a, apply_error (some (plain overlap_conflict)) [])
      else elim (if is_zero f.old_position then creation_answer (is_len src (pos 0)) else none) [
        | some e ↦ (a, some e)
        | none ↦ elim (span from n a.next_line) [
          | none ↦ (a, some panic)
          | some m ↦ apply_preimage a f from (line_src m a.next_line)
        ]
      ]

  -- What follows the call of `Validate`, by its result, which refuses a nil pointer and a negative
  -- number of lines.
  unfoldable pub apply_checked :
      TextApplier W → Option TextFragment → Option Error → TextApplier W × Option Failure
  apply_checked a p (some e) = (a, apply_error (some (plain e)) [])
  apply_checked a none none = (a, some panic)
  apply_checked a (some f) none = apply_valid a f (to_count f.old_lines)

  -- `ApplyFragment`, by whether the applier is closed.
  unfoldable pub apply_when :
      Bool → TextApplier W → Option TextFragment → TextApplier W × Option Failure
  apply_when true a p = (a, apply_error (some (plain applier_closed)) [])
  apply_when false a p = apply_checked (record a { dirty = true }) p (validate p)

  unfoldable pub apply_fragment :
      TextApplier W → Option TextFragment → TextApplier W × Option Failure
  unfolding apply_when apply_checked
  apply_fragment a p = apply_when a.closed a p

abbrev pub line_buffer_size : ℕ
line_buffer_size = 32

-- The inner loop of `copyLinesFrom`, over the lines read.
unfoldable pub copy_lines : {W : Type 0} → Writer W → W → ℕ → List Bytes → W × ℕ × Option Error
copy_lines write w written [] = (w, written, none)
copy_lines write w written (l ∷ ls) =
    let r = write w l in
    let written' = if ltb 0 r.1 then written + 1 else written in
    elim r.2 [
      | some e ↦ (r.0, written', some e)
      | none ↦ elim (length l == r.1) [
        | false ↦ (r.0, written', some short_write)
        | true ↦ copy_lines write r.0 written' ls
      ]
    ]

-- The end of a round of `copyLinesFrom`, by the result of the inner loop.
unfoldable pub copy_lines_end : {W : Type 0} → ℕ → Option Error → W × ℕ × Option Error → CopyRound W
copy_lines_end off rerr (w, written, some e) = stop w written (some e)
copy_lines_end off rerr (w, written, none) = copy_end w written off rerr

-- What follows a round: the next one, or the result.
unfoldable pub resume :
    {W : Type 0} → (W → ℕ → ℕ → W × ℕ × Option Error) → CopyRound W → W × ℕ × Option Error
resume next (again w written off) = next w written off
resume next (stop w written e) = (w, written, e)

-- `copyLinesFrom` with `fuel` rounds, over a buffer of `size` lines.
unfoldable pub copy_lines_from :
    {W : Type 0} → Writer W → LineReaderAt → ℕ → ℕ → W → ℕ → ℕ → W × ℕ × Option Error
copy_lines_from write line_src size zero w written off = (w, written, some stuck)
copy_lines_from write line_src size (suc fuel) w written off =
    let r = line_src size off in
    resume (copy_lines_from write line_src size fuel)
      (copy_lines_end (off + length r.0) r.1 (copy_lines write w written r.0))

-- `Close`, with fuel for its loop.
unfoldable pub close :
    {W : Type 0}
    → Writer W
    → ReaderAt
    → LineReaderAt
    → ℕ
    → TextApplier W
    → TextApplier W × Option Error
close write src line_src fuel a = elim a.closed [
  | true ↦ (a, none)
  | false ↦ elim a.dirty [
    | false ↦
        let r = copy_from write src fuel a.dst 0 in (record a { dst = r.0; closed = true }, r.2)
    | true ↦
        let r = copy_lines_from write line_src line_buffer_size fuel a.dst 0 a.next_line in
        (record a { dst = r.0; closed = true }, r.2)
  ]
]
