-- ===== src/Apply.antt =====
-- gitdiff/apply.go: `Apply`, over the files of gitdiff/gitdiff.go. `sort.Slice` is the standard
-- library's: a parameter that orders the fragments by their old position.
pub mod Patched
use go_gitdiff.Base.{
  ℕ, zero, suc, ◌+◌, Bool, true, false, Option, none, some, List, [], ◌∷◌, Bytes, codes,
}
use mathlib.Core.List.{Perm, Pairwise}
use go_gitdiff.Base.Int.{ℤ, ◌≤ℤ◌}
use go_gitdiff.Errors.{Error, message, Failure, plain, frag_num, apply_error}
use go_gitdiff.Io.{ReaderAt, Writer, copy_from}
use go_gitdiff.Fragment.{TextFragment}
use go_gitdiff.TextApply.{LineReaderAt, TextApplier, new_text_applier, apply_fragment, close}
use go_gitdiff.BinaryApply.{
  BinaryFragment, BinaryApplier, new_binary_applier, apply_binary, close_binary,
}

-- `File`; a mode is an unsigned number, and a fragment of a text file is not nil.
pub record File : Type 0 where
  pub old_name : Bytes
  pub new_name : Bytes
  pub is_new : Bool
  pub is_delete : Bool
  pub is_copy : Bool
  pub is_rename : Bool
  pub old_mode : ℕ
  pub new_mode : ℕ
  pub old_oid_prefix : Bytes
  pub new_oid_prefix : Bytes
  pub score : ℤ
  pub text_fragments : List TextFragment
  pub is_binary : Bool
  pub binary_fragment : Option BinaryFragment
  pub reverse_binary_fragment : Option BinaryFragment

abbrev pub refused : Bytes → Option Failure
refused msg = apply_error (some (plain (message msg))) []

-- The documented behaviour of `sort.Slice` on `fs` under the order of `OldPosition`: the result has
-- the same fragments, and an earlier one does not have the greater position.
pub record Sorts (sort : List TextFragment → List TextFragment) (fs : List TextFragment)
    : Type 0 where
  pub same : Perm (sort fs) fs
  pub ordered : Pairwise (λ f g. f.old_position ≤ℤ g.old_position) (sort fs)

-- The checks in front of the switch: `isBinary`, the text fragments and the binary one.
pub check_kind : Bool → List TextFragment → Option BinaryFragment → Option Failure
check_kind true (f ∷ fs) b = refused (codes "binary file contains text fragments")
check_kind true [] none = refused (codes "binary file does not contain a binary fragment")
check_kind true [] (some b) = none
check_kind false fs (some b) = refused (codes "text file contains a binary fragment")
check_kind false fs none = none

abbrev pub unwrapped : Option Error → Option Failure
unwrapped none = none
unwrapped (some e) = some (plain e)

module _ {W : Type 0} (write : Writer W) (src : ReaderAt) (line_src : LineReaderAt)
    (sort : List TextFragment → List TextFragment) (fuel : ℕ) where
  -- The loop over the sorted fragments, at index `i`.
  pub apply_all : TextApplier W → ℕ → List TextFragment → TextApplier W × Option Failure
  apply_all a i [] = (a, none)
  apply_all a i (f ∷ fs) =
      let r = apply_fragment write src line_src a (some f) in
      elim r.1 [
        | some e ↦ (r.0, apply_error (some e) (frag_num i ∷ []))
        | none ↦ apply_all r.0 (i + 1) fs
      ]

  -- `return applier.Close()`, by how the fragments went.
  pub close_after : TextApplier W × Option Failure → W × Option Failure
  close_after (a, some e) = (a.dst, some e)
  close_after (a, none) = let r = close write src line_src fuel a in (r.0.dst, unwrapped r.1)

  pub close_binary_after : BinaryApplier W × Option Failure → W × Option Failure
  close_binary_after (a, some e) = (a.dst, some e)
  close_binary_after (a, none) = let r = close_binary write src fuel a in (r.0.dst, unwrapped r.1)

  -- The switch.
  pub apply_kind : W → List TextFragment → Option BinaryFragment → W × Option Failure
  apply_kind w fs (some b) =
      close_binary_after (apply_binary write src (new_binary_applier w) (some b))
  apply_kind w (f ∷ fs) none = close_after (apply_all (new_text_applier w) 0 (sort (f ∷ fs)))
  apply_kind w [] none = let r = copy_from write src fuel w 0 in (r.0, unwrapped r.2)

  -- The switch, behind the checks.
  pub apply_checked_kind :
      W → Option Failure → List TextFragment → Option BinaryFragment → W × Option Failure
  apply_checked_kind w (some e) fs b = (w, some e)
  apply_checked_kind w none fs b = apply_kind w fs b

  unfoldable pub apply : W → File → W × Option Failure
  unfolding apply_checked_kind check_kind apply_kind apply_all close_after close_binary_after
  apply w f =
      apply_checked_kind w (check_kind f.is_binary f.text_fragments f.binary_fragment)
        f.text_fragments f.binary_fragment
