-- ===== src/Witnesses/Fleet.antt =====
-- The theorems on fleets, at concrete inputs.
use mathlib.Core.List.Perm
use clawstainer.Base.{ℕ, String, ◌≡◌, refl, false, none, some, List, [], ◌∷◌, arith}
use clawstainer.Base.Map.{get}
use clawstainer.Errors.{ok}
use clawstainer.Exec.{Exec, ◌>>=◌, attempt_or_unwind}
use clawstainer.Runtime.{Runtime}
use clawstainer.Runtime.Nspawn.Destroy.{destroy}
use clawstainer.Runtime.Nspawn.Destroy.Laws.{destroy-others}
use clawstainer.Fleet.{
  FleetMachineDef, FleetCreateArgs, FleetDestroyArgs, FleetMachineResult, PendingProvision,
  total_of, indexed_name,
}
use clawstainer.Fleet.Create.{
  CreatePassResult, create_fleet_machines, create_defs, create_from, create_one, join_fleet,
  add_result,
}
use clawstainer.Fleet.Create.Tally.{Tallied, create_fleet_machines-Tallied}
use clawstainer.Fleet.Provision.{Tally, provision_fleet_machines}
use clawstainer.Fleet.Provision.Counts.{AllSettled, provision_fleet_machines-Settled}
use clawstainer.Fleet.Commands.{run_destroy}
use clawstainer.Fleet.Commands.Destroyed.{
  KeepsOthers, in_other_fleet, in_no_fleet, nobody, run_destroy-others,
}
use clawstainer.State.{Machine}
use clawstainer.State.Store.{Sys}
use clawstainer.Examples.{
  example_machine, example_network, example_host, example_images, example_runtime, example_sys,
  example_components,
}

abbrev web : FleetMachineDef
web = record {
  name = "web";
  count = 1;
  memory = 512;
  cpus = 1;
  provision = some "git";
  security = "strict";
  cap_add = [];
  cap_drop = [];
  env_file = none;
  linger = false;
}

abbrev args : FleetCreateArgs
args = record { parallel = 2; network = "none"; runtime = "nspawn" }

abbrev web_result : FleetMachineResult
web_result = record {
  name = "web";
  id = some "sb-c";
  status = "running";
  ip = none;
  provision_status = none;
  error = none;
}

abbrev web_pending : PendingProvision
web_pending = record {
  machine_name = "web";
  machine_id = "sb-c";
  provision = "git";
  runtime_name = "nspawn";
  result_index = 0;
}

abbrev web_pass : CreatePassResult
web_pass = record {
  results = web_result ∷ [];
  pending_provisions = web_pending ∷ [];
  created = 1;
  failed = 0;
}

abbrev always : String → Runtime ℕ
always name = example_runtime

create_fleet_machines-Tallied_example : Tallied (total_of (record { machines = web ∷ [] })) web_pass
unfolding create_fleet_machines create_defs create_from create_one join_fleet add_result ◌>>=◌
    attempt_or_unwind indexed_name
create_fleet_machines-Tallied_example =
    create_fleet_machines-Tallied always args (record { machines = web ∷ [] }) example_sys
      {pass = web_pass} (omega arith) refl

abbrev now : ℕ → ℕ
now t = t

abbrev in_order : List PendingProvision → List PendingProvision
in_order ps = ps

abbrev opens : Exec ℕ (Unit {0})
opens t = (ok tt, t)

provision_fleet_machines-Settled_example :
    (t : Tally) × ((provision_fleet_machines now
        (ok example_components)
        opens
        always
        in_order
        (web_pending ∷ [])
        (web_result ∷ [])
        2
        example_sys).0
      ≡ ok t)
    × AllSettled now
        (ok example_components)
        opens
        always
        in_order
        (web_pending ∷ [])
        (web_result ∷ [])
        example_sys
        t
provision_fleet_machines-Settled_example =
    provision_fleet_machines-Settled now (ok example_components) opens always in_order
      (web_pending ∷ []) (web_result ∷ []) 2 example_sys (λ c. Perm.refl c) (omega arith)

-- The runtime whose destruction is that of nspawn.
abbrev nspawn : String → Runtime ℕ
nspawn name = record example_runtime { destroy = destroy example_host example_images }

nspawn-KeepsOthers : (name : String) → KeepsOthers (nspawn name)
nspawn-KeepsOthers name id j s ne = destroy-others example_host example_images id s j ne

abbrev named_web : FleetDestroyArgs
named_web = record { name = some "web"; all = false }

abbrev named_db : FleetDestroyArgs
named_db = record { name = some "db"; all = false }

-- One machine in the fleet "web", one in no fleet.
abbrev in_web : Machine
in_web = example_machine "sb-a" "10.0.0.2"

abbrev alone : Machine
alone = record (example_machine "sb-b" "10.0.0.3") { fleet_name = none }

abbrev web_sys : Sys ℕ
web_sys = record {
  state = record {
    version = 1;
    machines = ("sb-a", in_web) ∷ ("sb-b", alone) ∷ [];
    network = example_network;
  };
  world = 0;
}

run_destroy-others_example :
    get "sb-a" (run_destroy nspawn named_db web_sys).1.state.machines
    ≡ get "sb-a" web_sys.state.machines
run_destroy-others_example = run_destroy-others nspawn named_db "sb-a" web_sys nspawn-KeepsOthers (
    in_other_fleet {fleet = "web"} {m = in_web} refl refl (λ e. cc e)
      (in_no_fleet {m = alone} refl nobody))
