-- ===== src/Fleet/Provision/Ends.antt =====
-- What the ends of threads of the second pass (src/commands/fleet.rs) make of its counters and
-- results.
use mathlib.Core.List.{◌++◌ as append, Perm, Permᴰ}
use mathlib.Core.Logic.{∥∥₁_elim}
use native.Mathlib.Nat.{ℕ_set}
use clawstainer.Base.{
  ℕ, zero, suc, ◌+◌, ◌^◌, ◌<◌, String, ◌≡◌, refl, ap, ◌∙◌, Option, List, [], ◌∷◌, map, length,
  arith,
}
use clawstainer.Errors.{Result, ok, err, claw, other, panic}
use clawstainer.Component.{ProvisionResult}
use clawstainer.Fleet.{FleetMachineResult, PendingProvision, increment}
use clawstainer.Fleet.Provision.{Tally, set_at, provisioned_as, provision_error, settle}

-- Which machine a result is about.
abbrev pub machine_of : FleetMachineResult → String × Option String
machine_of r = (r.name, r.id)

-- How many of the threads returned a result, and how many did not.
unfoldable pub count_ok : List (Result ProvisionResult) → ℕ
count_ok [] = 0
count_ok (ok _ ∷ ended) = count_ok ended + 1
count_ok (err _ ∷ ended) = count_ok ended

unfoldable pub count_err : List (Result ProvisionResult) → ℕ
count_err [] = 0
count_err (ok _ ∷ ended) = count_err ended
count_err (err _ ∷ ended) = count_err ended + 1

-- What the ends of some threads make of a tally: each is counted as it ended, and the results are
-- still about the machines that they were about, in their order.
pub record Settled (ended : List (Result ProvisionResult)) (before t : Tally) : Type 0 where
  pub provisioned : t.provisioned ≡ before.provisioned + count_ok ended
  pub failed : t.prov_failed ≡ before.prov_failed + count_err ended
  pub machines : map machine_of t.results ≡ map machine_of before.results

count_ok-append :
    (xs ys : List (Result ProvisionResult)) → count_ok (append xs ys) ≡ count_ok xs + count_ok ys
unfolding count_ok
count_ok-append [] ys = omega arith
count_ok-append (ok _ ∷ xs) ys = omega (arith, count_ok-append xs ys)
count_ok-append (err _ ∷ xs) ys = count_ok-append xs ys

count_err-append :
    (xs ys : List (Result ProvisionResult)) → count_err (append xs ys) ≡ count_err xs + count_err ys
unfolding count_err
count_err-append [] ys = omega arith
count_err-append (ok _ ∷ xs) ys = count_err-append xs ys
count_err-append (err _ ∷ xs) ys = omega (arith, count_err-append xs ys)

pub count_all : (xs : List (Result ProvisionResult)) → count_ok xs + count_err xs ≡ length xs
unfolding count_ok count_err
count_all [] = omega arith
count_all (ok _ ∷ xs) = omega (arith, count_all xs)
count_all (err _ ∷ xs) = omega (arith, count_all xs)

pub Settled-both :
    (xs ys : List (Result ProvisionResult)) (a b c : Tally)
    → Settled xs a b
    → Settled ys b c
    → Settled (append xs ys) a c
Settled-both xs ys a b c h k = record {
  provisioned = omega (arith, h.provisioned, k.provisioned, count_ok-append xs ys);
  failed = omega (arith, h.failed, k.failed, count_err-append xs ys);
  machines = k.machines ∙ h.machines;
}

machine_of-set_at :
    (i : ℕ) (f : FleetMachineResult → FleetMachineResult) (rs : List FleetMachineResult)
    → ((r : FleetMachineResult) → machine_of (f r) ≡ machine_of r)
    → map machine_of (set_at i f rs) ≡ map machine_of rs
unfolding set_at
machine_of-set_at i f [] h = refl
machine_of-set_at zero f (r ∷ rs) h = ap (λ m. m ∷ map machine_of rs) (h r)
machine_of-set_at (suc i) f (r ∷ rs) h = ap (λ ms. machine_of r ∷ ms) (machine_of-set_at i f rs h)

increment_small : (n : ℕ) → n + 1 < 2 ^ 32 → increment n ≡ n + 1
increment_small n h = omega arith

pub settle-Settled :
    (p : PendingProvision) (r : Result ProvisionResult) (t : Tally)
    → t.provisioned + t.prov_failed + 1 < 2 ^ 32
    → Settled (r ∷ []) t (settle p r t)
unfolding settle provisioned_as provision_error count_ok count_err
settle-Settled p (ok result) t small = record {
  provisioned = omega (arith, increment_small t.provisioned (omega (arith, small)));
  failed = omega arith;
  machines = machine_of-set_at p.result_index _ t.results (λ r. refl);
}
settle-Settled p (err (claw e)) t small = record {
  provisioned = omega arith;
  failed = omega (arith, increment_small t.prov_failed (omega (arith, small)));
  machines = machine_of-set_at p.result_index _ t.results (λ r. refl);
}
settle-Settled p (err (other msg)) t small = record {
  provisioned = omega arith;
  failed = omega (arith, increment_small t.prov_failed (omega (arith, small)));
  machines = machine_of-set_at p.result_index _ t.results (λ r. refl);
}
settle-Settled p (err (panic msg)) t small = record {
  provisioned = omega arith;
  failed = omega (arith, increment_small t.prov_failed (omega (arith, small)));
  machines = refl;
}

-- The same threads in another order are as many.
lengths_agree : {xs ys : List PendingProvision} (p : Permᴰ xs ys) → length xs ≡ length ys
lengths_agree (Permᴰ.trans first second) = lengths_agree first ∙ lengths_agree second
lengths_agree (Permᴰ.cons q later) = omega (arith, lengths_agree later)
lengths_agree (Permᴰ.swap q r) = omega arith
lengths_agree Permᴰ.nil = omega arith

pub as_many : {xs ys : List PendingProvision} (p : Perm xs ys) → length xs ≡ length ys
as_many p = ∥∥₁_elim p (ℕ_set _ _) lengths_agree
