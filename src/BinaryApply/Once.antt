-- ===== src/BinaryApply/Once.antt =====
-- gitdiff/apply_binary.go: a `BinaryApplier` applies one fragment at most.
use go_gitdiff.Base.{ℕ, ◌≡◌, refl, ◌∙◌, Bool, true, false, none, some, [], Bytes}
use go_gitdiff.Errors.{applier_closed, apply_in_progress, plain, apply_error}
use go_gitdiff.Io.{ReaderAt, Writer}
use go_gitdiff.BinaryApply.{
  BinaryPatchMethod, patch_delta, patch_literal, other_method, BinaryFragment, BinaryApplier,
  after_method, apply_method, apply_open, apply_binary, close_binary,
}

module _ {W : Type 0} (write : Writer W) (src : ReaderAt) where
  apply_method_flags :
      (a : BinaryApplier W) (m : BinaryPatchMethod) (content : Bytes)
      → ((apply_method write src a m content).0.closed ≡ a.closed)
        × ((apply_method write src a m content).0.dirty ≡ a.dirty)
  unfolding apply_method after_method
  apply_method_flags a patch_literal content = (refl, refl)
  apply_method_flags a patch_delta content = (refl, refl)
  apply_method_flags a (other_method n) content = (refl, refl)

  -- An applier that is open and dirty refuses a fragment, and stays as it is.
  refuses_in_progress :
      (c d : Bool) (a : BinaryApplier W) (f : BinaryFragment)
      → c ≡ false
      → d ≡ true
      → apply_open write src c d a f ≡ (a, apply_error (some (plain apply_in_progress)) [])
  unfolding apply_open
  refuses_in_progress c d a f h k = rw (h, k)

  refuses_closed :
      (c d : Bool) (a : BinaryApplier W) (f : BinaryFragment)
      → c ≡ true
      → apply_open write src c d a f ≡ (a, apply_error (some (plain applier_closed)) [])
  unfolding apply_open
  refuses_closed c d a f h = rw h

  -- What a first call on a fragment leaves of the flags of a fresh applier, whatever its answer.
  first_flags :
      (c d : Bool) (a : BinaryApplier W) (f : BinaryFragment)
      → a.closed ≡ false
      → c ≡ false
      → d ≡ false
      → ((apply_open write src c d a f).0.closed ≡ false)
        × ((apply_open write src c d a f).0.dirty ≡ true)
  unfolding apply_open
  first_flags true d a f e h k = cc
  first_flags false true a f e h k = cc
  first_flags false false a f e h k =
      let (closed, dirty) = apply_method_flags (record a { dirty = true }) f.method f.content in
      (closed ∙ e, dirty)

  close_dirty :
      (fuel : ℕ) (w : W) (c d : Bool)
      → c ≡ false
      → d ≡ true
      → close_binary write src fuel (record { dst = w; closed = c; dirty = d })
        ≡ (record { dst = w; closed = true; dirty = d }, none)
  unfolding close_binary
  close_dirty fuel w true d h k = cc
  close_dirty fuel w false true h k = refl
  close_dirty fuel w false false h k = cc

  -- Whatever a first fragment does to a fresh applier, a second one is refused as incompatible with
  -- the apply in progress and changes nothing; `Close` then writes nothing and reports no error, and
  -- a fragment after it is refused because the applier is closed.
  pub apply_binary_once :
      (a : BinaryApplier W) (f g : BinaryFragment) (fuel : ℕ)
      → a.closed ≡ false
      → a.dirty ≡ false
      → let b = (apply_binary write src a (some f)).0 in
        (apply_binary write src b (some g) ≡ (b, apply_error (some (plain apply_in_progress)) []))
        × (close_binary write src fuel b ≡ (record b { closed = true }, none))
        × (apply_binary write src (record b { closed = true }) (some g)
            ≡ (record b { closed = true }, apply_error (some (plain applier_closed)) []))
  unfolding apply_binary
  apply_binary_once a f g fuel h k =
      let b = (apply_open write src a.closed a.dirty a f).0 in
      let (closed, dirty) = first_flags a.closed a.dirty a f h h k in
      (
        refuses_in_progress b.closed b.dirty b g closed dirty,
        close_dirty fuel b.dst b.closed b.dirty closed dirty,
        refuses_closed true b.dirty (record b { closed = true }) g refl,
      )
