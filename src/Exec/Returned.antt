-- ===== src/Exec/Returned.antt =====
-- A program that returned: what its steps returned, and that a call in it did not panic.
use clawstainer.Base.{◌≡◌, refl}
use clawstainer.Errors.{claw, other, panic, Result, ok, err}
use clawstainer.Exec.{Exec, unwinding, after, attempt_or_unwind, ◌>>=◌}

module _ {S A B : Type 0} (f : Result A → Exec S B) (b : B) where
  after-unwinding :
      (p : Result A × S)
      → (after (unwinding p).0 (unwinding p).1 f).0 ≡ ok b
      → after (unwinding p).0 (unwinding p).1 f ≡ f p.0 p.1
  after-unwinding (ok a, s) h = refl
  after-unwinding (err (claw e), s) h = refl
  after-unwinding (err (other msg), s) h = refl
  after-unwinding (err (panic msg), s) h = cc

  pub attempt_or_unwind-returned :
      (m : Exec S A) (s : S)
      → ((attempt_or_unwind m >>= f) s).0 ≡ ok b
      → (attempt_or_unwind m >>= f) s ≡ f (m s).0 (m s).1
  unfolding attempt_or_unwind ◌>>=◌
  attempt_or_unwind-returned m s h = after-unwinding (m s) h

module _ {S A : Type 0} where
  unwinding-state : (p : Result A × S) → (unwinding p).1 ≡ p.1
  unwinding-state (ok a, s) = refl
  unwinding-state (err (claw e), s) = refl
  unwinding-state (err (other msg), s) = refl
  unwinding-state (err (panic msg), s) = refl

  -- Whether it panics or not, a call changes the state alike.
  pub attempt_or_unwind-state : (m : Exec S A) (s : S) → (attempt_or_unwind m s).1 ≡ (m s).1
  unfolding attempt_or_unwind
  attempt_or_unwind-state m s = unwinding-state (m s)
