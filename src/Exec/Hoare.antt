-- ===== src/Exec/Hoare.antt =====
-- Reasoning about code that changes a state and may fail: from `P`, a success ends in `Q` of its
-- value, and a failure in `E`.
use clawstainer.Base.{◌≡◌, subst, inl, inr, arith}
use clawstainer.Errors.{Failure, ok, err, Result-cases, result_inj}
use clawstainer.Exec.{Exec, pure, fail, map_err, after, ◌>>=◌}

pub record Hoare {S A : Type 0} (P : S → Type 0) (m : Exec S A) (Q : A → S → Type 0)
    (E : S → Type 0) : Type 0 where
  pub on_ok : (s : S) → P s → (a : A) → (m s).0 ≡ ok a → Q a (m s).1
  pub on_err : (s : S) → P s → (e : Failure) → (m s).0 ≡ err e → E (m s).1

module _ {S A : Type 0} {P : S → Type 0} {Q : A → S → Type 0} {E : S → Type 0} where
  pub Hoare-pure : (a : A) → ((s : S) → P s → Q a s) → Hoare P (pure a) Q E
  unfolding pure
  Hoare-pure a h = record {
    on_ok = λ s p b e. subst (λ x. Q x s) (result_inj e) (h s p);
    on_err = λ s p f e. cc;
  }

  pub Hoare-fail : (f : Failure) → ((s : S) → P s → E s) → Hoare P (fail {A = A} f) Q E
  unfolding fail
  Hoare-fail f h = record { on_ok = λ s p b e. cc; on_err = λ s p g e. h s p }

  pub Hoare-weaken :
      {P' : S → Type 0} {m : Exec S A} → ((s : S) → P' s → P s) → Hoare P m Q E → Hoare P' m Q E
  Hoare-weaken w h = record {
    on_ok = λ s p a e. h.on_ok s (w s p) a e;
    on_err = λ s p f e. h.on_err s (w s p) f e;
  }

  pub Hoare-map_err :
      {m : Exec S A} (f : Failure → Failure) → Hoare P m Q E → Hoare P (map_err f m) Q E
  unfolding map_err
  Hoare-map_err {m} f h = record {
    on_ok = λ s p a e. h.on_ok s p a (ground arith);
    on_err = λ s p g e. elim (Result-cases (m s).0) [
      | inl (a, done) ↦ absurd (ground arith)
      | inr (g', failed) ↦ h.on_err s p g' failed
    ];
  }

module _ {S A : Type 0} {Q : A → S → Type 0} {E : S → Type 0} where
  -- A fact that does not speak of the state.
  pub Hoare-given :
      {X : Type 0} {m : Exec S A} → (X → Hoare (λ _. Unit {0}) m Q E) → Hoare (λ _. X) m Q E
  Hoare-given h = record {
    on_ok = λ s x a e. (h x).on_ok s tt a e;
    on_err = λ s x f e. (h x).on_err s tt f e;
  }

module _ {S A B : Type 0} {P : S → Type 0} {R : A → S → Type 0} {Q : B → S → Type 0}
    {E : S → Type 0} where
  pub Hoare-bind :
      (m : Exec S A) (f : A → Exec S B)
      → Hoare P m R E
      → ((a : A) → Hoare (R a) (f a) Q E)
      → Hoare P (m >>= f) Q E
  unfolding ◌>>=◌
  Hoare-bind m f first next = record {
    on_ok = λ s p b e. elim (Result-cases (m s).0) [
      | inl (a, done) ↦
          rw (done, after)
            ((next a).on_ok (m s).1 (first.on_ok s p a done) b (rw (done, after) at e))
      | inr (g, failed) ↦ absurd (ground arith)
    ];
    on_err = λ s p g e. elim (Result-cases (m s).0) [
      | inl (a, done) ↦
          rw (done, after)
            ((next a).on_err (m s).1 (first.on_ok s p a done) g (rw (done, after) at e))
      | inr (g', failed) ↦ rw (failed, after) (first.on_err s p g' failed)
    ];
  }

module _ {S A : Type 0} {P : S → Type 0} where
  -- What holds after every end.
  pub Hoare-kept : {m : Exec S A} (s : S) → Hoare P m (λ _. P) P → P s → P (m s).1
  Hoare-kept {m} s h p = elim (Result-cases (m s).0) [
    | inl (a, done) ↦ h.on_ok s p a done
    | inr (e, failed) ↦ h.on_err s p e failed
  ]
