-- ===== src/BinaryApply.antt =====
-- gitdiff/apply_binary.go: `BinaryApplier`, with the binary fragments of gitdiff/gitdiff.go.
pub mod Once
use go_gitdiff.Base.{ℕ, Bool, true, false, Option, none, some, [], Bytes, codes}
use go_gitdiff.Base.Int.{ℤ}
use go_gitdiff.Errors.{
  Error, applier_closed, apply_in_progress, message, unsupported_method, Failure, plain,
  apply_error,
}
use go_gitdiff.Io.{ReaderAt, Writer, copy_from}
use go_gitdiff.Delta.{apply_delta}

-- `BinaryPatchMethod` is an int; `other_method` stands for the values that are no method.
pub data BinaryPatchMethod : Type 0 where
  patch_delta patch_literal : BinaryPatchMethod
  other_method : ℕ → BinaryPatchMethod

pub record BinaryFragment : Type 0 where
  pub method : BinaryPatchMethod
  pub size : ℤ
  pub content : Bytes

pub record BinaryApplier (W : Type 0) : Type 0 where
  pub dst : W
  pub closed : Bool
  pub dirty : Bool

-- `NewBinaryApplier`
abbrev pub new_binary_applier : {W : Type 0} → W → BinaryApplier W
new_binary_applier w = record { dst = w; closed = false; dirty = false }

abbrev pub plainly : Option Error → Option Failure
plainly none = none
plainly (some e) = some (plain e)

-- The writer and the error after an operation.
pub after_method :
    {W : Type 0} → BinaryApplier W → W × Option Error → BinaryApplier W × Option Failure
after_method a (w, e) = (record a { dst = w }, apply_error (plainly e) [])

module _ {W : Type 0} (write : Writer W) (src : ReaderAt) where
  -- The switch over the method.
  pub apply_method : BinaryApplier W → BinaryPatchMethod → Bytes → BinaryApplier W × Option Failure
  apply_method a patch_literal content =
      after_method a ((write a.dst content).0, (write a.dst content).2)
  apply_method a patch_delta content = after_method a (apply_delta write src a.dst content)
  apply_method a (other_method n) content =
      (a, apply_error (some (plain (unsupported_method n))) [])

  -- `ApplyFragment` on a fragment, by `closed` and `dirty`.
  pub apply_open : Bool → Bool → BinaryApplier W → BinaryFragment → BinaryApplier W × Option Failure
  apply_open true dirty a f = (a, apply_error (some (plain applier_closed)) [])
  apply_open false true a f = (a, apply_error (some (plain apply_in_progress)) [])
  apply_open false false a f = apply_method (record a { dirty = true }) f.method f.content

  unfoldable pub apply_binary :
      BinaryApplier W → Option BinaryFragment → BinaryApplier W × Option Failure
  unfolding apply_open apply_method after_method
  apply_binary a none = (a, apply_error (some (plain (message (codes "nil fragment")))) [])
  apply_binary a (some f) = apply_open a.closed a.dirty a f

  -- `Close`, with fuel for the copy.
  unfoldable pub close_binary : ℕ → BinaryApplier W → BinaryApplier W × Option Error
  close_binary fuel a = elim a.closed [
    | true ↦ (a, none)
    | false ↦ elim a.dirty [
      | false ↦
          let r = copy_from write src fuel a.dst 0 in (record a { dst = r.0; closed = true }, r.2)
      | true ↦ (record a { closed = true }, none)
    ]
  ]
