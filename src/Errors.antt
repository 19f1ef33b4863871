-- ===== src/Errors.antt =====
-- The errors of gitdiff/apply.go, gitdiff/apply_text.go, gitdiff/apply_binary.go and gitdiff/io.go
-- as values, and `applyError`. A numbered line or fragment is a natural number, 0 where it is unset.
use go_gitdiff.Base.{ℕ, ◌+◌, Bool, ◌||◌, Option, none, some, List, [], ◌∷◌, Bytes, equal}
use go_gitdiff.Base.Int.{ℤ}

-- What goes wrong. The first three are those of package io, and `external` is any other error of a
-- reader or a writer. `stuck` is no Go error: a loop of the model ran out of fuel.
pub data Error : Type 0 where
  eof unexpected_eof short_write : Error
  external : ℕ → Error
  apply_in_progress applier_closed : Error
  conflict : Bytes → Error
  message : Bytes → Error
  unknown_operator : ℕ → ℕ → Error
  line_count : Bytes → ℤ → ℤ → Error
  unsupported_method : ℕ → Error
  stuck : Error

pub record ApplyError : Type 0 where
  pub line : ℕ
  pub fragment : ℕ
  pub fragment_line : ℕ
  pub err : Error

-- A Go error: a bare one, or an `*ApplyError`. After `panic` the call has not returned.
pub data Failure : Type 0 where
  plain : Error → Failure
  wrapped : ApplyError → Failure
  panic : Failure

-- The further arguments of `applyError`.
pub data Place : Type 0 where
  line_num frag_num frag_line_num : ℕ → Place

pub annotate : ApplyError → List Place → ApplyError
annotate e [] = e
annotate e (line_num n ∷ ps) = annotate (record e { line = n + 1 }) ps
annotate e (frag_num n ∷ ps) = annotate (record e { fragment = n + 1 }) ps
annotate e (frag_line_num n ∷ ps) = annotate (record e { fragment_line = n + 1 }) ps

-- `io.EOF` becomes `io.ErrUnexpectedEOF` in a new `ApplyError`.
pub wrap : Error → ApplyError
wrap eof = record { line = 0; fragment = 0; fragment_line = 0; err = unexpected_eof }
wrap e = record { line = 0; fragment = 0; fragment_line = 0; err = e }

pub apply_failure : Failure → List Place → Failure
apply_failure (plain e) ps = wrapped (annotate (wrap e) ps)
apply_failure (wrapped e) ps = wrapped (annotate e ps)
apply_failure panic ps = panic

-- `applyError`; no error stays none.
unfoldable pub apply_error : Option Failure → List Place → Option Failure
unfolding apply_failure annotate wrap
apply_error none ps = none
apply_error (some f) ps = some (apply_failure f ps)

-- `(*Conflict).Is`, between the messages of two conflicts.
unfoldable pub conflict_is : Bytes → Bytes → Bool
unfolding equal
conflict_is msg other = equal other [] || equal other msg
