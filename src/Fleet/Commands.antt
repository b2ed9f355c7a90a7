-- ===== src/Fleet/Commands.antt =====
-- `run_create` and `run_destroy` of src/commands/fleet.rs. The parsed fleet file is an argument; what
-- is printed at the end is the result, and `none` where nothing is printed.
pub mod Destroyed
use mathlib.Core.List.{◌++◌ as append}
use clawstainer.Base.{
  ℕ, ◌+◌, ◌%◌, ◌^◌, String, Bool, true, false, not, ◌&&◌, ◌||◌, Option, none, some, List, [], ◌∷◌,
  ◌==◌, length, nat_eq, if◌then◌else◌,
}
use clawstainer.Base.Map.{Map, is_some}
use clawstainer.Errors.{ok, err, claw, exec_failed, Result}
use clawstainer.Exec.{Exec, pure, fail, attempt_or_unwind, ◌>>=◌, ◌>>◌}
use clawstainer.State.{Machine, State}
use clawstainer.State.Store.{Sys, with_read_lock}
use clawstainer.Runtime.{Runtime, DestroyResult}
use clawstainer.Component.{ComponentsFile}
use clawstainer.Fleet.{
  FleetFile, FleetCreateArgs, FleetDestroyArgs, FleetCreateResult, FleetDestroyResult,
  PendingProvision, increment, total_of,
}
use clawstainer.Fleet.Create.{CreatePassResult, create_fleet_machines}
use clawstainer.Fleet.Provision.{provision_fleet_machines}

module _ {W : Type 0} (now_ms : W → ℕ) (load : Result ComponentsFile) (open_store : Exec W Unit)
    (make_runtime : String → Runtime W)
    (schedule : List PendingProvision → List PendingProvision) where
  -- The second pass and the summary; the pass is left out where nothing is queued.
  unfoldable pub finish_create :
      FleetCreateArgs
      → ℕ
      → CreatePassResult
      → List PendingProvision
      → Exec (Sys W) FleetCreateResult
  finish_create args total pass [] = pure (record {
    fleet = pass.results;
    total = total;
    created = pass.created;
    provisioned = 0;
    failed = pass.failed;
  })
  finish_create args total pass (p ∷ ps) = do
    tally ←
        provision_fleet_machines now_ms load open_store make_runtime schedule (p ∷ ps) pass.results
          args.parallel
    pure (record {
      fleet = tally.results;
      total = total;
      created = pass.created;
      provisioned = tally.provisioned;
      failed = (pass.failed + tally.prov_failed) % 2 ^ 32;
    })

  unfoldable pub create_fleet :
      FleetCreateArgs → FleetFile → Exec (Sys W) (Option FleetCreateResult)
  create_fleet args fleet = do
    pass ← create_fleet_machines make_runtime args fleet
    result ← finish_create args (total_of fleet) pass pass.pending_provisions
    pure (some result)

  unfoldable pub run_create : FleetCreateArgs → FleetFile → Exec (Sys W) (Option FleetCreateResult)
  run_create args fleet = if nat_eq (total_of fleet) 0 then pure none else create_fleet args fleet

abbrev has_name : Option String → String → Bool
has_name none fleet_name = false
has_name (some name) fleet_name = name == fleet_name

-- `args.all || args.name.as_deref() == Some(fleet_name)`, for a machine that is in a fleet.
unfoldable pub is_target : FleetDestroyArgs → Option String → Bool
is_target args none = false
is_target args (some fleet_name) = args.all || has_name args.name fleet_name

unfoldable pub targets_in : FleetDestroyArgs → Map Machine → List (String × String)
unfolding is_target
targets_in args [] = []
targets_in args ((id, m) ∷ machines) =
    let rest = targets_in args machines in
    if is_target args m.fleet_name then (id, m.runtime) ∷ rest else rest

module _ {W : Type 0} (make_runtime : String → Runtime W) where
  -- What the end of one destruction makes of the counts.
  unfoldable pub count_destroyed :
      String → Result DestroyResult → FleetDestroyResult → FleetDestroyResult
  count_destroyed id (ok _) result = record result {
    destroyed = increment result.destroyed;
    machines = append result.machines (id ∷ []);
  }
  count_destroyed id (err e) result = record result { failed = increment result.failed }

  unfoldable pub destroy_targets :
      List (String × String) → FleetDestroyResult → Exec (Sys W) FleetDestroyResult
  destroy_targets [] result = pure result
  destroy_targets ((id, runtime_name) ∷ targets) result = do
    r ← attempt_or_unwind ((make_runtime runtime_name).destroy id)
    destroy_targets targets (count_destroyed id r result)

  unfoldable pub destroy_found : List (String × String) → Exec (Sys W) (Option FleetDestroyResult)
  destroy_found [] = pure none
  destroy_found (target ∷ targets) = do
    result ←
        destroy_targets (target ∷ targets) (record { destroyed = 0; failed = 0; machines = [] })
    pure (some result)

  unfoldable pub run_destroy : FleetDestroyArgs → Exec (Sys W) (Option FleetDestroyResult)
  run_destroy args =
      if not args.all && not (is_some args.name)
      then fail (claw (exec_failed "Either --all or --name must be specified"))
      else with_read_lock (λ s. ok (targets_in args s.machines)) >>= destroy_found
