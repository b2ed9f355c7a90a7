-- ===== src/Fleet/Commands/Destroyed.antt =====
-- Which machines `run_destroy` of src/commands/fleet.rs destroys, and what it counts.
use clawstainer.Base.{
  ℕ, ◌+◌, ◌^◌, ◌<◌, String, ◌≡◌, ◌≢◌, refl, ap, ◌∙◌, Bool, false, Option, none, some, List, [], ◌∷◌,
  map, length, length-append, contains, arith, subst, inl, inr, eq_iff, eq-false_of_ne, Bool-cases,
  true,
}
use clawstainer.Base.Map.{Map, get}
use clawstainer.Errors.{Result, ok, err, Result-cases}
use clawstainer.Exec.{pure, fail, attempt_or_unwind, ◌>>=◌}
use clawstainer.Exec.Hoare.{Hoare, Hoare-bind, Hoare-pure, Hoare-kept}
use clawstainer.Exec.Returned.{attempt_or_unwind-state}
use clawstainer.State.{Machine}
use clawstainer.State.Store.{Sys, with_read_lock}
use clawstainer.Runtime.{Runtime, DestroyResult}
use clawstainer.Fleet.{FleetDestroyArgs, FleetDestroyResult}
use clawstainer.Fleet.Commands.{
  is_target, targets_in, count_destroyed, destroy_targets, destroy_found, run_destroy,
}

abbrev pub ids : List (String × String) → List String
ids targets = map (λ t. t.0) targets

-- `destroy` of a runtime leaves the other machines as they are.
abbrev pub KeepsOthers : {W : Type 0} → Runtime W → Type 0
KeepsOthers {W} runtime =
    (id j : String) (s : Sys W)
    → id ≢ j
    → get j (runtime.destroy id s).1.state.machines ≡ get j s.state.machines

-- No entry of the machine asks for its destruction: it is in no fleet, or in one that is not named,
-- without `--all`.
pub data Spared (args : FleetDestroyArgs) (j : String) : Map Machine → Type 0 where
  nobody : Spared args j []
  another :
      {id : String} {m : Machine} {machines : Map Machine}
      → id ≢ j
      → Spared args j machines
      → Spared args j ((id, m) ∷ machines)
  in_no_fleet :
      {id : String} {m : Machine} {machines : Map Machine}
      → m.fleet_name ≡ none
      → Spared args j machines
      → Spared args j ((id, m) ∷ machines)
  in_other_fleet :
      {id fleet : String} {m : Machine} {machines : Map Machine}
      → m.fleet_name ≡ some fleet
      → args.all ≡ false
      → args.name ≢ some fleet
      → Spared args j machines
      → Spared args j ((id, m) ∷ machines)

is_target-named :
    (all : Bool) (name : Option String) (fleet : String)
    → all ≡ false
    → name ≢ some fleet
    → is_target (record { name = name; all = all }) (some fleet) ≡ false
unfolding is_target
is_target-named true name fleet e ne = absurd (cc e)
is_target-named false none fleet e ne = refl
is_target-named false (some name) fleet e ne = eq-false_of_ne name fleet (λ same. ne (ap some same))

no_fleet-spared : (args : FleetDestroyArgs) → is_target args none ≡ false
unfolding is_target
no_fleet-spared args = refl

contains-targets_in :
    (args : FleetDestroyArgs) (j : String) (machines : Map Machine)
    → Spared args j machines
    → contains j (ids (targets_in args machines)) ≡ false
unfolding targets_in
contains-targets_in args j _ nobody = refl
contains-targets_in args j _ (another {id} {m} {machines} ne rest) =
    elim (Bool-cases (is_target args m.fleet_name)) [
      | inl target ↦ rw (target, eq-false_of_ne id j ne) (contains-targets_in args j machines rest)
      | inr spared ↦ rw spared (contains-targets_in args j machines rest)
    ]
contains-targets_in args j _ (in_no_fleet {m} {machines} none_of rest) =
    let spared : is_target args m.fleet_name ≡ false = rw none_of (no_fleet-spared args) in
    rw spared (contains-targets_in args j machines rest)
contains-targets_in args j _ (in_other_fleet {fleet} {m} {machines} its not_all ne rest) =
    let spared : is_target args m.fleet_name ≡ false =
      rw its (is_target-named args.all args.name fleet not_all ne) in
    rw spared (contains-targets_in args j machines rest)

module _ {W : Type 0} (make_runtime : String → Runtime W)
    (keeps : (name : String) → KeepsOthers (make_runtime name)) (j : String)
    (o : Option Machine) where
  Kept : Sys W → Type 0
  Kept s = get j s.state.machines ≡ o

  Hoare-one :
      (id name : String)
      → id ≢ j
      → Hoare Kept (attempt_or_unwind ((make_runtime name).destroy id)) (λ _. Kept) Kept
  unfolding Kept
  Hoare-one id name ne =
      let step = λ (s : Sys W).
        ap (λ (t : Sys W). get j t.state.machines)
          (attempt_or_unwind-state ((make_runtime name).destroy id) s)
        ∙ keeps name id j s ne in
      record { on_ok = λ s p a e. step s ∙ p; on_err = λ s p f e. step s ∙ p }

  Hoare-destroy_targets :
      (targets : List (String × String)) (result : FleetDestroyResult)
      → contains j (ids targets) ≡ false
      → Hoare Kept (destroy_targets make_runtime targets result) (λ _. Kept) Kept
  unfolding destroy_targets
  Hoare-destroy_targets [] result h = Hoare-pure result (λ s p. p)
  Hoare-destroy_targets ((id, name) ∷ targets) result h =
      Hoare-bind _ _ (Hoare-one id name (λ e. ground (arith, eq_iff id j)))
        λ r. Hoare-destroy_targets targets _ (ground arith)

  Hoare-destroy_found :
      (targets : List (String × String))
      → contains j (ids targets) ≡ false
      → Hoare Kept (destroy_found make_runtime targets) (λ _. Kept) Kept
  unfolding destroy_found
  Hoare-destroy_found [] h = Hoare-pure none (λ s p. p)
  Hoare-destroy_found (target ∷ targets) h =
      Hoare-bind _ _ (Hoare-destroy_targets (target ∷ targets) _ h)
        λ result. Hoare-pure (some result) (λ s p. p)

-- If the runtimes leave other machines alone, `run_destroy` leaves every machine as it is that is
-- not in a fleet or whose fleet is not asked for, whichever destructions fail.
pub run_destroy-others :
    {W : Type 0} (make_runtime : String → Runtime W) (args : FleetDestroyArgs) (j : String)
    (s : Sys W)
    → ((name : String) → KeepsOthers (make_runtime name))
    → Spared args j s.state.machines
    → get j (run_destroy make_runtime args s).1.state.machines ≡ get j s.state.machines
unfolding run_destroy ◌>>=◌ with_read_lock fail Kept
run_destroy-others make_runtime args j s keeps spared =
    let found = targets_in args s.state.machines in
    let kept =
      Hoare-kept s
        (Hoare-destroy_found make_runtime keeps j (get j s.state.machines) found
          (contains-targets_in args j s.state.machines spared))
        refl in
    ground (arith, kept)

-- Each of `n` machines is counted once; the destroyed ones are listed.
pub record Counted (n : ℕ) (result : FleetDestroyResult) : Type 0 where
  pub sum : result.destroyed + result.failed ≡ n
  pub listed : length result.machines ≡ result.destroyed

count_destroyed-Counted :
    {W : Type 0} (make_runtime : String → Runtime W) (id : String) (r : Result DestroyResult)
    (n : ℕ) (result : FleetDestroyResult)
    → n + 1 < 2 ^ 32
    → Counted n result
    → Counted (n + 1) (count_destroyed make_runtime id r result)
unfolding count_destroyed
count_destroyed-Counted make_runtime id (ok _) n result small c = record {
  sum = omega (arith, small, c.sum);
  listed = omega (arith, small, c.sum, c.listed, length-append result.machines (id ∷ []));
}
count_destroyed-Counted make_runtime id (err e) n result small c = record {
  sum = omega (arith, small, c.sum);
  listed = c.listed;
}

module _ {W : Type 0} (make_runtime : String → Runtime W) where
  Anything : Sys W → Type 0
  Anything s = Unit {0}

  Hoare-destroy_targets-Counted :
      (targets : List (String × String)) (n : ℕ) (result : FleetDestroyResult)
      → n + length targets < 2 ^ 32
      → Counted n result
      → Hoare Anything
          (destroy_targets make_runtime targets result)
          (λ end _. Counted (n + length targets) end)
          Anything
  unfolding destroy_targets Anything
  Hoare-destroy_targets-Counted [] n result small c =
      Hoare-pure result (λ s p. subst (λ k. Counted k result) (omega arith) c)
  Hoare-destroy_targets-Counted ((id, name) ∷ targets) n result small c =
      Hoare-bind {R = λ _ _. Unit {0}} _ _
        (record { on_ok = λ s p a e. tt; on_err = λ s p f e. tt })
        λ r.
          let next = count_destroyed make_runtime id r result in
          subst
            (λ k.
              Hoare Anything (destroy_targets make_runtime targets next) (λ end _. Counted k end)
                Anything)
            (omega arith)
            (Hoare-destroy_targets-Counted targets (n + 1) next (omega (arith, small))
              (count_destroyed-Counted make_runtime id r n result (omega (arith, small)) c))

  destroy_found-Counted :
      (targets : List (String × String)) (s : Sys W) {result : FleetDestroyResult}
      → length targets < 2 ^ 32
      → (destroy_found make_runtime targets s).0 ≡ ok (some result)
      → Counted (length targets) result
  unfolding destroy_found ◌>>=◌ pure Anything
  destroy_found-Counted [] s small h = absurd (cc h)
  destroy_found-Counted (target ∷ targets) s {result} small h =
      let empty : FleetDestroyResult = record { destroyed = 0; failed = 0; machines = [] } in
      let counted =
        Hoare-destroy_targets-Counted (target ∷ targets) 0 empty (omega (arith, small))
          (record { sum = refl; listed = refl }) in
      elim (Result-cases (destroy_targets make_runtime (target ∷ targets) empty s).0) [
        | inl (r, done) ↦
            subst (λ k. Counted k result) (omega arith)
              (subst (λ x. Counted (0 + length (target ∷ targets)) x) (ground (arith, done, h))
                (counted.on_ok s tt r done))
        | inr (e, failed) ↦ absurd (ground (arith, failed, h))
      ]

  -- If `run_destroy` returns a summary, it counts each machine that was asked for once, as destroyed
  -- or as failed, and lists as many machines as it counts as destroyed, provided that they number
  -- less than 2^32.
  pub run_destroy-Counted :
      (args : FleetDestroyArgs) (s : Sys W) {result : FleetDestroyResult}
      → length (targets_in args s.state.machines) < 2 ^ 32
      → (run_destroy make_runtime args s).0 ≡ ok (some result)
      → Counted (length (targets_in args s.state.machines)) result
  unfolding run_destroy ◌>>=◌ with_read_lock fail
  run_destroy-Counted args s {result} small h =
      ground
        (arith, destroy_found-Counted (targets_in args s.state.machines) s {result = result} small)
