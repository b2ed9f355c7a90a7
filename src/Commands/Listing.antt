-- ===== src/Commands/Listing.antt =====
-- src/commands/list.rs and snapshot.rs: the list of the machines, reconciled with their runtimes, and
-- the snapshots. `list --watch` repeats `print_list`.
pub mod Filtered
use clawstainer.Base.{
  ℕ, ◌+◌, ◌/◌, ◌%◌, String, Bool, true, false, not, List, [], ◌∷◌, keep_if, ◌==◌, ltb,
  if◌then◌else◌,
}
use clawstainer.Base.Decimal.{decimal}
use clawstainer.Base.Map.{values}
use clawstainer.Errors.{ok}
use clawstainer.Exec.{Exec, pure, ◌>>=◌, ◌>>◌}
use clawstainer.Image.Paths.{FileHost}
use clawstainer.Image.Snapshot.{SnapshotInfo, create, list, delete}
use clawstainer.Main.{runtime_for_machine}
use clawstainer.Runtime.{Runtime}
use clawstainer.State.{Machine}
use clawstainer.State.Reconcile.{reconcile_machine, get_running_machine_live}
use clawstainer.State.Store.{Sys, with_read_lock, on_host}
use Prim.Native.String.{◌++◌}

-- `if status != "all" { machines.retain(|m| m.status == status) }`
unfoldable pub retain_status : String → List Machine → List Machine
retain_status status machines =
    if status == "all" then machines else keep_if (λ m. m.status == status) machines

-- Of a number of seconds that is not negative.
unfoldable pub format_duration : ℕ → String
format_duration total_secs =
    if ltb total_secs 60
    then decimal total_secs ++ "s"
    else if ltb total_secs 3600
    then decimal (total_secs / 60) ++ "m"
    else decimal (total_secs / 3600) ++ "h " ++ decimal (total_secs % 3600 / 60) ++ "m"

module _ {W : Type 0} (nspawn firecracker : Runtime W) where
  unfoldable pub reconcile_running : Machine → Exec (Sys W) Machine
  reconcile_running machine = do
    runtime ← runtime_for_machine nspawn firecracker machine.id
    reconcile_machine machine.id runtime

  unfoldable pub refresh : Machine → Exec (Sys W) Machine
  refresh machine = if machine.status == "running" then reconcile_running machine else pure machine

  unfoldable pub refresh_all : List Machine → Exec (Sys W) (List Machine)
  refresh_all [] = pure []
  refresh_all (machine ∷ machines) = do
    live ← refresh machine
    rest ← refresh_all machines
    pure (live ∷ rest)

  unfoldable pub print_list : String → Exec (Sys W) (List Machine)
  print_list status = do
    machines ← with_read_lock (λ s. ok (retain_status status (values s.machines)))
    live ← refresh_all machines
    pure (retain_status status live)

  unfoldable pub run_create : FileHost W → String → String → Exec (Sys W) SnapshotInfo
  run_create files machine_id name = do
    runtime ← runtime_for_machine nspawn firecracker machine_id
    machine ← get_running_machine_live machine_id runtime
    on_host (create files machine_id name)

module _ {W : Type 0} (files : FileHost W) where
  unfoldable pub run_list : Exec W (List SnapshotInfo)
  run_list = list files

  unfoldable pub run_delete : String → Exec W Unit
  run_delete name = delete files name
