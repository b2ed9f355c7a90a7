-- ===== src/Exec.antt =====
-- Code that changes a state and may fail (`Result` with `?`). What was changed before a failure
-- stays changed, so the state comes back beside an error too.
pub mod Hoare
pub mod Returned
pub mod Kept
use clawstainer.Errors.{Failure, claw, other, panic, Result, ok, err}

abbrev pub Exec : Type 0 → Type 0 → Type 0
Exec S A = S → Result A × S

module _ {A : Type 0} where
  abbrev map_failure : (Failure → Failure) → Result A → Result A
  map_failure f (ok a) = ok a
  map_failure f (err e) = err (f e)

module _ {S A : Type 0} where
  unfoldable pub pure : A → Exec S A
  pure a s = (ok a, s)

  unfoldable pub fail : Failure → Exec S A
  fail e s = (err e, s)

  unfoldable pub lift : Result A → Exec S A
  lift r s = (r, s)

  -- `.map_err(f)` and `.context(…)`
  unfoldable pub map_err : (Failure → Failure) → Exec S A → Exec S A
  map_err f m s = let (r, s') = m s in (map_failure f r, s')

  -- `let _ = m;`: the result is dropped, the effects stay.
  unfoldable pub ignore : Exec S A → Exec S Unit
  ignore m s = (ok tt, (m s).1)

  -- The result as a value, for a caller that matches on it.
  unfoldable pub attempt : Exec S A → Exec S (Result A)
  attempt m s = let (r, s') = m s in (ok r, s')

module _ {S A : Type 0} where
  abbrev pub unwinding : Result A × S → Result (Result A) × S
  unwinding (ok a, s) = (ok (ok a), s)
  unwinding (err (claw e), s) = (ok (err (claw e)), s)
  unwinding (err (other msg), s) = (ok (err (other msg)), s)
  unwinding (err (panic msg), s) = (err (panic msg), s)

  -- As `attempt`, for a call that may panic: a panic is no result and unwinds on.
  unfoldable pub attempt_or_unwind : Exec S A → Exec S (Result A)
  attempt_or_unwind m s = unwinding (m s)

module _ {S A B : Type 0} where
  abbrev pub after : Result A → S → (A → Exec S B) → Result B × S
  after (ok a) s f = f a s
  after (err e) s f = (err e, s)

  infixl 5 ◌>>=◌ ◌>>◌
  unfoldable pub ◌>>=◌ : Exec S A → (A → Exec S B) → Exec S B
  unfolding pure fail lift
  ◌>>=◌ m f s = after (m s).0 (m s).1 f

  abbrev pub ◌>>◌ : Exec S A → Exec S B → Exec S B
  m >> k = m >>= λ _. k
