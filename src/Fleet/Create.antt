-- ===== src/Fleet/Create.antt =====
-- `create_fleet_machines` of src/commands/fleet.rs: the first pass, which creates the machines one
-- after the other and goes on when one fails.
pub mod Tally
use mathlib.Core.List.{◌++◌ as append}
use clawstainer.Base.{ℕ, zero, suc, ◌+◌, String, Option, none, some, List, [], ◌∷◌, length, false}
use clawstainer.Errors.{Result, ok, err, display}
use clawstainer.Exec.{Exec, pure, ignore, attempt_or_unwind, ◌>>=◌, ◌>>◌}
use clawstainer.State.Store.{Sys, with_lock, change_machine}
use clawstainer.Runtime.{CreateOpts, MachineInfo, Runtime}
use clawstainer.Fleet.{
  FleetMachineDef, FleetFile, FleetCreateArgs, FleetMachineResult, PendingProvision, increment,
  indexed_name,
}

pub record CreatePassResult : Type 0 where
  pub results : List FleetMachineResult
  pub pending_provisions : List PendingProvision
  pub created : ℕ
  pub failed : ℕ

abbrev pub fleet_opts : FleetCreateArgs → FleetMachineDef → String → CreateOpts
fleet_opts args def machine_name = record {
  name = some machine_name;
  memory_mb = def.memory;
  cpus = def.cpus;
  network = args.network;
  timeout = 0;
  runtime = args.runtime;
  security = def.security;
  cap_add = def.cap_add;
  cap_drop = def.cap_drop;
  env_file = def.env_file;
  from_snapshot = none;
  linger = def.linger;
}

abbrev pub not_created : String → String → FleetMachineResult
not_created machine_name msg = record {
  name = machine_name;
  id = none;
  status = "error";
  ip = none;
  provision_status = none;
  error = some msg;
}

abbrev pub created_result : String → MachineInfo → FleetMachineResult
created_result machine_name info = record {
  name = machine_name;
  id = some info.id;
  status = "running";
  ip = info.ip;
  provision_status = none;
  error = none;
}

-- What is queued for the second pass.
abbrev pub queued : FleetCreateArgs → Option String → String → String → ℕ → List PendingProvision
queued args none machine_name machine_id result_index = []
queued args (some provision) machine_name machine_id result_index =
    record {
      machine_name = machine_name;
      machine_id = machine_id;
      provision = provision;
      runtime_name = args.runtime;
      result_index = result_index;
    }
    ∷ []

-- What a creation adds to the result of the pass.
unfoldable pub add_result :
    FleetCreateArgs
    → FleetMachineDef
    → String
    → Result MachineInfo
    → CreatePassResult
    → CreatePassResult
unfolding display
add_result args def machine_name (err e) pass = record pass {
  failed = increment pass.failed;
  results = append pass.results (not_created machine_name (display e) ∷ []);
}
add_result args def machine_name (ok info) pass = record pass {
  created = increment pass.created;
  results = append pass.results (created_result machine_name info ∷ []);
  pending_provisions =
      append pass.pending_provisions
        (queued args def.provision machine_name info.id (length pass.results));
}

module _ {W : Type 0} (make_runtime : String → Runtime W) (args : FleetCreateArgs) where
  unfoldable pub set_fleet_name : String → String → Exec (Sys W) Unit
  set_fleet_name machine_id group s =
      (ok tt, change_machine machine_id (λ m. record m { fleet_name = some group }) s)

  -- `let _ = state.with_lock(…)`, for a machine that was created.
  unfoldable pub join_fleet : Result MachineInfo → String → Exec (Sys W) Unit
  unfolding pure ignore with_lock set_fleet_name
  join_fleet (err e) group = pure tt
  join_fleet (ok info) group = ignore (with_lock (set_fleet_name info.id group))

  unfoldable pub create_one : FleetMachineDef → ℕ → CreatePassResult → Exec (Sys W) CreatePassResult
  create_one def index pass = do
    let machine_name = indexed_name def index
    r ← attempt_or_unwind ((make_runtime args.runtime).create (fleet_opts args def machine_name))
    join_fleet r def.name
    pure (add_result args def machine_name r pass)

  -- The machines of one definition: `left` of them, from `index` on.
  unfoldable pub create_from :
      FleetMachineDef → ℕ → ℕ → CreatePassResult → Exec (Sys W) CreatePassResult
  create_from def zero index pass = pure pass
  create_from def (suc left) index pass = do
    next ← create_one def index pass
    create_from def left (index + 1) next

  unfoldable pub create_defs :
      List FleetMachineDef → CreatePassResult → Exec (Sys W) CreatePassResult
  create_defs [] pass = pure pass
  create_defs (def ∷ defs) pass = do next ← create_from def def.count 0 pass; create_defs defs next

  abbrev pub empty_pass : CreatePassResult
  empty_pass = record { results = []; pending_provisions = []; created = 0; failed = 0 }

  unfoldable pub create_fleet_machines : FleetFile → Exec (Sys W) CreatePassResult
  create_fleet_machines fleet = create_defs fleet.machines empty_pass
