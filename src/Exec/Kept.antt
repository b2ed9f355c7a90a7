-- ===== src/Exec/Kept.antt =====
-- Code that keeps a predicate of the state, whether it succeeds or fails: one rule for each way to
-- compose it, for `search`.
use clawstainer.Base.{Bool, true, false, inl, inr, ◌≡◌, refl, arith, if◌then◌else◌}
use clawstainer.Errors.{Failure, Result, ok, err, Result-cases}
use clawstainer.Exec.{Exec, pure, fail, lift, map_err, ignore, attempt, after, ◌>>=◌}

pub record Kept {S A : Type 0} (P : S → Type 0) (m : Exec S A) : Type 0 where
  pub keep : (s : S) → P s → P (m s).1

module _ {S A : Type 0} {P : S → Type 0} where
  pub Kept-pure : (a : A) → Kept P (pure a)
  unfolding pure
  Kept-pure a = record { keep = λ s p. p }

  pub Kept-fail : (e : Failure) → Kept P (fail {A = A} e)
  unfolding fail
  Kept-fail e = record { keep = λ s p. p }

  pub Kept-lift : (r : Result A) → Kept P (lift r)
  unfolding lift
  Kept-lift r = record { keep = λ s p. p }

  pub Kept-map_err : (f : Failure → Failure) (m : Exec S A) → Kept P m → Kept P (map_err f m)
  unfolding map_err
  Kept-map_err f m k = record { keep = k.keep }

  pub Kept-ignore : (m : Exec S A) → Kept P m → Kept P (ignore m)
  unfolding ignore
  Kept-ignore m k = record { keep = k.keep }

  pub Kept-attempt : (m : Exec S A) → Kept P m → Kept P (attempt m)
  unfolding attempt
  Kept-attempt m k = record { keep = k.keep }

  pub Kept-if : (b : Bool) (x y : Exec S A) → Kept P x → Kept P y → Kept P (if b then x else y)
  Kept-if true x y k l = k
  Kept-if false x y k l = l

module _ {S A B : Type 0} {P : S → Type 0} where
  pub Kept-bind :
      (m : Exec S A) (f : A → Exec S B) → Kept P m → ((a : A) → Kept P (f a)) → Kept P (m >>= f)
  unfolding ◌>>=◌
  Kept-bind m f k next = record {
    keep = λ s p. elim (Result-cases (m s).0) [
      | inl (a, done) ↦ rw (done, after) ((next a).keep (m s).1 (k.keep s p))
      | inr (e, failed) ↦ rw (failed, after) (k.keep s p)
    ];
  }

module _ {S A : Type 0} where
  pub map_err-eq-ok :
      (f : Failure → Failure) (m : Exec S A) (s : S) {a : A}
      → (map_err f m s).0 ≡ ok a
      → (m s).0 ≡ ok a
  unfolding map_err
  map_err-eq-ok f m s e = elim (Result-cases (m s).0) [
    | inl (a, done) ↦ ground arith
    | inr (g, failed) ↦ absurd (ground arith)
  ]

module _ {S A B : Type 0} where
  -- A success of a whole is a success of its parts.
  pub bind-eq-ok :
      (m : Exec S A) (f : A → Exec S B) (s : S) {b : B}
      → ((m >>= f) s).0 ≡ ok b
      → (a : A) × ((m s).0 ≡ ok a) × ((f a (m s).1).0 ≡ ok b)
  unfolding ◌>>=◌
  bind-eq-ok m f s e = elim (Result-cases (m s).0) [
    | inl (a, done) ↦ (a, done, rw (done, after) at e)
    | inr (g, failed) ↦ absurd (ground arith)
  ]

module _ {S A B : Type 0} where
  -- After a success of the first part, the whole is the second part.
  pub bind_after :
      (m : Exec S A) (f : A → Exec S B) (s : S) {a : A} → (m s).0 ≡ ok a → (m >>= f) s ≡ f a (m s).1
  unfolding ◌>>=◌
  bind_after m f s done = rw (done, after) refl

  -- A failure of the first part is the failure of the whole, in the state that it leaves.
  pub bind_failed :
      (m : Exec S A) (f : A → Exec S B) (s : S) {e : Failure}
      → (m s).0 ≡ err e
      → (m >>= f) s ≡ (err e, (m s).1)
  unfolding ◌>>=◌
  bind_failed m f s failed = rw (failed, after) refl

module _ {S : Type 0} where
  -- A test that fails its code: a success is a passed test.
  pub if-eq-ok :
      (test : Bool) (e : Failure) (s : S)
      → ((if test then pure tt else fail {A = Unit {0}} e) s).0 ≡ ok tt
      → test ≡ true
  unfolding fail
  if-eq-ok true e s done = refl
  if-eq-ok false e s done = cc

pub ruleset kept_rules =
    (Kept-pure, Kept-fail, Kept-lift, Kept-map_err, Kept-ignore, Kept-attempt, Kept-if, Kept-bind)
