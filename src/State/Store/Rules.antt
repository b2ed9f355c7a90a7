-- ===== src/State/Store/Rules.antt =====
-- How the transactions of State/Store act on a property of the state.
use clawstainer.Base.{◌≡◌, inl, inr, arith}
use clawstainer.Errors.{ok, Result-cases}
use clawstainer.Exec.{Exec}
use clawstainer.Exec.Hoare.{Hoare}
use clawstainer.State.{State}
use clawstainer.State.Store.{Sys, with_lock, finish, on_host}

module _ {W A : Type 0} {P : State → Type 0} {E : State → Type 0}
    (fallen : (s : State) → P s → E s) where
  -- The host's steps leave the state alone.
  pub Hoare-on_host :
      (m : Exec W A) → Hoare (λ s. P s.state) (on_host m) (λ _ s. P s.state) (λ s. E s.state)
  unfolding on_host
  Hoare-on_host m = record { on_ok = λ s p a e. p; on_err = λ s p f e. fallen s.state p }

  -- A transaction that fails leaves the state as it was.
  pub Hoare-with_lock :
      (f : Exec (Sys W) A) {Q : A → Sys W → Type 0}
      → Hoare (λ s. P s.state) f Q (λ _. Unit {0})
      → Hoare (λ s. P s.state) (with_lock f) Q (λ s. E s.state)
  unfolding with_lock
  Hoare-with_lock f h = record {
    on_ok = λ s p a e. elim (Result-cases (f s).0) [
      | inl (b, done) ↦ rw (done, finish) (h.on_ok s p a (ground arith))
      | inr (g, failed) ↦ absurd (ground arith)
    ];
    on_err = λ s p g e. elim (Result-cases (f s).0) [
      | inl (b, done) ↦ absurd (ground arith)
      | inr (g', failed) ↦ rw (failed, finish) (fallen s.state p)
    ];
  }

  -- What is known of the value that a step on the host returns.
  pub Hoare-on_host_value :
      (m : Exec W A) {Q : A → Type 0}
      → ((w : W) (a : A) → (m w).0 ≡ ok a → Q a)
      → Hoare (λ s. P s.state) (on_host m) (λ a s. P s.state × Q a) (λ s. E s.state)
  unfolding on_host
  Hoare-on_host_value m h = record {
    on_ok = λ s p a e. (p, h s.world a e);
    on_err = λ s p f e. fallen s.state p;
  }
