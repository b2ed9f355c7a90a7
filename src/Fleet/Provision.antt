-- ===== src/Fleet/Provision.antt =====
-- `provision_fleet_machines` of src/commands/fleet.rs: the second pass. The machines go through in
-- chunks; each chunk has a thread for each machine, and the next chunk waits for all of them. The
-- threads of a chunk take turns, one after the other, in the order that the parameter `schedule`
-- gives. A thread that panics before it locks the results leaves them alone.
pub mod Chunks
pub mod Ends
pub mod Counts
use Prim.Native.String.{◌++◌}
use clawstainer.Base.{
  ℕ, zero, suc, ◌+◌, ◌^◌, String, Bool, true, false, Option, none, some, List, [], ◌∷◌, length,
  take, drop, ltb, nat_eq, not, any, if◌then◌else◌,
}
use clawstainer.Errors.{Result, ok, err, claw, other, panic, Failure, display}
use clawstainer.Exec.{Exec, pure, lift, attempt, ◌>>=◌, ◌>>◌}
use clawstainer.State.Store.{Sys, on_host}
use clawstainer.Runtime.{Runtime}
use clawstainer.Component.{ComponentsFile, ComponentResult, ProvisionResult}
use clawstainer.Component.Provisioner.{provision, is_installed}
use clawstainer.Fleet.{FleetMachineResult, PendingProvision, increment}

pub record Tally : Type 0 where
  pub results : List FleetMachineResult
  pub provisioned : ℕ
  pub prov_failed : ℕ

-- `results[i] = …`
unfoldable pub set_at :
    ℕ
    → (FleetMachineResult → FleetMachineResult)
    → List FleetMachineResult
    → List FleetMachineResult
set_at i f [] = []
set_at zero f (r ∷ rs) = f r ∷ rs
set_at (suc i) f (r ∷ rs) = r ∷ set_at i f rs

abbrev pub is_not_installed : ComponentResult → Bool
is_not_installed r = not (is_installed r)

-- `all(|r| r.status == "ok")`
abbrev pub status_of : ProvisionResult → String
status_of result = if any is_not_installed result.results then "partial" else "ok"

unfoldable pub provisioned_as : PendingProvision → String → Tally → Tally
unfolding set_at
provisioned_as p status tally = record tally {
  results = set_at p.result_index (λ r. record r { provision_status = some status }) tally.results;
  provisioned = increment tally.provisioned;
}

unfoldable pub provision_error : PendingProvision → String → Tally → Tally
unfolding set_at
provision_error p msg tally = record tally {
  results =
      set_at p.result_index (λ r. record r { provision_status = some "error"; error = some msg })
        tally.results;
  prov_failed = increment tally.prov_failed;
}

-- What the end of a machine's thread makes of the shared results and counters.
unfoldable pub settle : PendingProvision → Result ProvisionResult → Tally → Tally
unfolding display
settle p (ok result) tally = provisioned_as p (status_of result) tally
settle p (err (claw e)) tally = provision_error p (display (claw e)) tally
settle p (err (other msg)) tally = provision_error p msg tally
settle p (err (panic msg)) tally = record tally { prov_failed = increment tally.prov_failed }

-- `slice::chunks`: the fuel is the length.
unfoldable pub chunks_from : ℕ → ℕ → List PendingProvision → List (List PendingProvision)
chunks_from zero n ps = []
chunks_from (suc fuel) n [] = []
chunks_from (suc fuel) n (p ∷ ps) = take n (p ∷ ps) ∷ chunks_from fuel n (drop n (p ∷ ps))

unfoldable pub chunks : ℕ → List PendingProvision → List (List PendingProvision)
chunks n ps = chunks_from (length ps) n ps

-- `if parallel == 0 { 1 } else { parallel }`
unfoldable pub at_least_one : ℕ → ℕ
at_least_one parallel = if nat_eq parallel 0 then 1 else parallel

module _ {W : Type 0} (now_ms : W → ℕ) (load : Result ComponentsFile) (open_store : Exec W Unit)
    (make_runtime : String → Runtime W)
    (schedule : List PendingProvision → List PendingProvision) where
  -- `Provisioner::new`, `StateStore::new` and `provision` in the machine's thread.
  unfoldable pub provision_thread : PendingProvision → Exec (Sys W) ProvisionResult
  provision_thread p = do
    file ← lift load
    on_host open_store
    provision now_ms (make_runtime p.runtime_name) file p.machine_id (p.provision ∷ []) 120

  -- A panic is a result here: `join` returns it.
  unfoldable pub run_thread : PendingProvision → Tally → Exec (Sys W) Tally
  run_thread p tally = do r ← attempt (provision_thread p); pure (settle p r tally)

  unfoldable pub run_chunk : List PendingProvision → Tally → Exec (Sys W) Tally
  run_chunk [] tally = pure tally
  run_chunk (p ∷ ps) tally = do next ← run_thread p tally; run_chunk ps next

  unfoldable pub run_chunks : List (List PendingProvision) → Tally → Exec (Sys W) Tally
  run_chunks [] tally = pure tally
  run_chunks (chunk ∷ rest) tally = do next ← run_chunk (schedule chunk) tally; run_chunks rest next

  unfoldable pub provision_fleet_machines :
      List PendingProvision → List FleetMachineResult → ℕ → Exec (Sys W) Tally
  provision_fleet_machines pending_provisions results parallel =
      run_chunks (chunks (at_least_one parallel) pending_provisions)
        (record { results = results; provisioned = 0; prov_failed = 0 })
