-- ===== src/Fleet/Create/Tally.antt =====
-- What the first pass of a fleet's creation (src/commands/fleet.rs) counts and queues.
use mathlib.Core.List.{◌++◌ as append}
use clawstainer.Base.{
  ℕ, zero, suc, ◌+◌, ◌^◌, ◌<◌, String, ◌≡◌, refl, Bool, not, Option, none, some, List, [], ◌∷◌,
  length, length-append, keep_if, get_elem?, get_elem?-append, get_elem?-append_one,
  length-keep_if-append_one, arith, subst,
}
use clawstainer.Base.Map.{is_some}
use clawstainer.Errors.{Result, ok, err, display}
use clawstainer.Exec.Hoare.{Hoare, Hoare-bind, Hoare-pure, Hoare-given}
use clawstainer.State.Store.{Sys}
use clawstainer.Runtime.{MachineInfo, Runtime}
use clawstainer.Fleet.{
  FleetMachineDef, FleetFile, FleetCreateArgs, FleetMachineResult, PendingProvision, increment,
  count_all, total_of,
}
use clawstainer.Fleet.Create.{
  CreatePassResult, queued, add_result, create_one, create_from, create_defs, empty_pass,
  create_fleet_machines, created_result, not_created,
}

abbrev pub has_id : FleetMachineResult → Bool
has_id r = is_some r.id

abbrev pub has_no_id : FleetMachineResult → Bool
has_no_id r = not (is_some r.id)

-- Each queued machine has its own result at its index.
abbrev pub Names : List FleetMachineResult → PendingProvision → Type 0
Names results p =
    (r : FleetMachineResult) × (get_elem? results p.result_index ≡ some r)
    × (r.name ≡ p.machine_name)
    × (r.id ≡ some p.machine_id)

abbrev pub AllNamed : List FleetMachineResult → List PendingProvision → Type 0
AllNamed results [] = Unit {0}
AllNamed results (p ∷ ps) = Names results p × AllNamed results ps

pub record Tallied (n : ℕ) (pass : CreatePassResult) : Type 0 where
  pub total : length pass.results ≡ n
  pub created : pass.created ≡ length (keep_if has_id pass.results)
  pub failed : pass.failed ≡ length (keep_if has_no_id pass.results)
  pub sum : pass.created + pass.failed ≡ n
  pub named : AllNamed pass.results pass.pending_provisions

AllNamed-grow :
    (results more : List FleetMachineResult) (ps : List PendingProvision)
    → AllNamed results ps
    → AllNamed (append results more) ps
AllNamed-grow results more [] h = tt
AllNamed-grow results more (p ∷ ps) ((r, found, name, id), h) = (
  (r, get_elem?-append results more p.result_index {x = r} found, name, id),
  AllNamed-grow results more ps h,
)

AllNamed-append :
    (results : List FleetMachineResult) (ps qs : List PendingProvision)
    → AllNamed results ps
    → AllNamed results qs
    → AllNamed results (append ps qs)
AllNamed-append results [] qs h k = k
AllNamed-append results (p ∷ ps) qs (named, h) k = (named, AllNamed-append results ps qs h k)

AllNamed-queued :
    (results : List FleetMachineResult) (r : FleetMachineResult) (args : FleetCreateArgs)
    (provision : Option String) (machine_name machine_id : String)
    → r.name ≡ machine_name
    → r.id ≡ some machine_id
    → AllNamed
        (append results (r ∷ []))
        (queued args provision machine_name machine_id (length results))
AllNamed-queued results r args none machine_name machine_id n i = tt
AllNamed-queued results r args (some provision) machine_name machine_id n i =
    ((r, get_elem?-append_one results r, n, i), tt)

increment_small : (n : ℕ) → n + 1 < 2 ^ 32 → increment n ≡ n + 1
increment_small n h = omega arith

add_result-Tallied :
    (args : FleetCreateArgs) (def : FleetMachineDef) (machine_name : String)
    (r : Result MachineInfo) (n : ℕ) (pass : CreatePassResult)
    → n + 1 < 2 ^ 32
    → Tallied n pass
    → Tallied (n + 1) (add_result args def machine_name r pass)
unfolding add_result
add_result-Tallied args def machine_name (ok info) n pass small t =
    let r = created_result machine_name info in
    let results = append pass.results (r ∷ []) in
    let up = increment_small pass.created (omega (arith, small, t.sum)) in
    record {
      total = omega (arith, t.total, length-append pass.results (r ∷ []));
      created = omega (arith, up, t.created, length-keep_if-append_one has_id pass.results r);
      failed = omega (arith, t.failed, length-keep_if-append_one has_no_id pass.results r);
      sum = omega (arith, up, t.sum);
      named =
          AllNamed-append results pass.pending_provisions
            (queued args def.provision machine_name info.id (length pass.results))
            (AllNamed-grow pass.results (r ∷ []) pass.pending_provisions t.named)
            (AllNamed-queued pass.results r args def.provision machine_name info.id refl refl);
    }
add_result-Tallied args def machine_name (err e) n pass small t =
    let r = not_created machine_name (display e) in
    let up = increment_small pass.failed (omega (arith, small, t.sum)) in
    record {
      total = omega (arith, t.total, length-append pass.results (r ∷ []));
      created = omega (arith, t.created, length-keep_if-append_one has_id pass.results r);
      failed = omega (arith, up, t.failed, length-keep_if-append_one has_no_id pass.results r);
      sum = omega (arith, up, t.sum);
      named = AllNamed-grow pass.results (r ∷ []) pass.pending_provisions t.named;
    }

module _ {W : Type 0} (make_runtime : String → Runtime W) (args : FleetCreateArgs) where
  Anything : Sys W → Type 0
  Anything s = Unit {0}

  Hoare-create_one :
      (def : FleetMachineDef) (index n : ℕ) (pass : CreatePassResult)
      → n + 1 < 2 ^ 32
      → Tallied n pass
      → Hoare Anything
          (create_one make_runtime args def index pass)
          (λ next _. Tallied (n + 1) next)
          Anything
  unfolding create_one Anything
  Hoare-create_one def index n pass small t =
      Hoare-bind {R = λ _ _. Unit {0}} _ _
        (record { on_ok = λ s p a e. tt; on_err = λ s p f e. tt })
        λ r.
          Hoare-bind {R = λ _ _. Unit {0}} _ _
            (record { on_ok = λ s p a e. tt; on_err = λ s p f e. tt })
            λ _. Hoare-pure _ (λ s h. add_result-Tallied args def _ r n pass small t)

  Hoare-create_from :
      (def : FleetMachineDef) (left index n : ℕ) (pass : CreatePassResult)
      → n + left < 2 ^ 32
      → Tallied n pass
      → Hoare Anything
          (create_from make_runtime args def left index pass)
          (λ next _. Tallied (n + left) next)
          Anything
  unfolding create_from Anything
  Hoare-create_from def zero index n pass small t =
      Hoare-pure pass (λ s h. subst (λ k. Tallied k pass) (omega arith) t)
  Hoare-create_from def (suc left) index n pass small t =
      Hoare-bind {R = λ next _. Tallied (n + 1) next} _ _
        (Hoare-create_one def index n pass (omega (arith, small)) t)
        λ next. Hoare-given λ u.
          subst
            (λ k.
              Hoare Anything (create_from make_runtime args def left (index + 1) next)
                (λ end _. Tallied k end) Anything)
            (omega arith)
            (Hoare-create_from def left (index + 1) (n + 1) next (omega (arith, small)) u)

  Hoare-create_defs :
      (defs : List FleetMachineDef) (n : ℕ) (pass : CreatePassResult)
      → n + count_all defs < 2 ^ 32
      → Tallied n pass
      → Hoare Anything
          (create_defs make_runtime args defs pass)
          (λ next _. Tallied (n + count_all defs) next)
          Anything
  unfolding create_defs Anything
  Hoare-create_defs [] n pass small t =
      Hoare-pure pass (λ s h. subst (λ k. Tallied k pass) (omega arith) t)
  Hoare-create_defs (def ∷ defs) n pass small t =
      Hoare-bind {R = λ next _. Tallied (n + def.count) next} _ _
        (Hoare-create_from def def.count 0 n pass (omega (arith, small)) t)
        λ next. Hoare-given λ u.
          subst
            (λ k.
              Hoare Anything (create_defs make_runtime args defs next) (λ end _. Tallied k end)
                Anything)
            (omega arith) (Hoare-create_defs defs (n + def.count) next (omega (arith, small)) u)

  -- If the machines that the definitions ask for number less than 2^32 and `create_fleet_machines`
  -- returns, there is a result for each of them; `created` counts those with an identifier, `failed`
  -- those without, together they are the total; and the index of each queued machine is that of the
  -- result with its name and its identifier.
  pub create_fleet_machines-Tallied :
      (fleet : FleetFile) (s : Sys W) {pass : CreatePassResult}
      → count_all fleet.machines < 2 ^ 32
      → (create_fleet_machines make_runtime args fleet s).0 ≡ ok pass
      → Tallied (total_of fleet) pass
  unfolding create_fleet_machines Anything
  create_fleet_machines-Tallied fleet s {pass} small h =
      subst (λ k. Tallied k pass) (omega (arith, small))
        ((Hoare-create_defs fleet.machines 0 (empty_pass make_runtime args) (omega (arith, small))
            (record { total = refl; created = refl; failed = refl; sum = refl; named = tt })).on_ok
          s tt pass h)
