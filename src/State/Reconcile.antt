-- ===== src/State/Reconcile.antt =====
-- `reconcile_machine`, `get_running_machine_live` and `get_machine_ip_live` of src/state/mod.rs: the
-- stored status of a machine against what its runtime reports.
pub mod Live
use clawstainer.Base.{
  ℕ, String, Bool, true, false, Option, none, some, ◌==◌, nat_eq, ◌&&◌, if◌then◌else◌,
}
use clawstainer.Errors.{claw, machine_not_running, exec_failed}
use clawstainer.Exec.{Exec, pure, fail, lift, ◌>>=◌, ◌>>◌}
use clawstainer.State.{Machine}
use clawstainer.State.Store.{Sys, get_machine, update_machine_status, on_host, ok_or}
use clawstainer.Runtime.{Runtime, MachineStatus}

-- `==` at `Option<u32>`.
abbrev pub same_pid : Option ℕ → Option ℕ → Bool
same_pid none none = true
same_pid (some a) (some b) = nat_eq a b
same_pid _ _ = false

module _ {W : Type 0} where
  -- The part after the query of the runtime.
  unfoldable pub adopt : Machine → MachineStatus → String → Exec (Sys W) Machine
  unfolding ◌>>=◌ update_machine_status
  adopt machine live machine_id =
      if (live.status == machine.status) && same_pid live.pid machine.pid then pure machine else do
        update_machine_status machine_id live.status live.pid
        pure (record machine { status = live.status; pid = live.pid })

  unfoldable pub query : Runtime W → Machine → String → Exec (Sys W) Machine
  unfolding ◌>>=◌ on_host
  query runtime machine machine_id = do
    live ← on_host (runtime.status machine_id)
    adopt machine live machine_id

  unfoldable pub reconcile_machine : String → Runtime W → Exec (Sys W) Machine
  unfolding ◌>>=◌ get_machine
  reconcile_machine machine_id runtime = do
    machine ← get_machine machine_id
    if machine.status == "running" then query runtime machine machine_id else pure machine

  unfoldable pub require_running : String → Machine → Exec (Sys W) Machine
  unfolding pure fail
  require_running machine_id machine =
      if machine.status == "running"
      then pure machine
      else fail (claw (machine_not_running machine_id machine.status))

  unfoldable pub get_running_machine_live : String → Runtime W → Exec (Sys W) Machine
  unfolding ◌>>=◌ require_running
  get_running_machine_live machine_id runtime = do
    machine ← reconcile_machine machine_id runtime
    require_running machine_id machine

  unfoldable pub get_machine_ip_live : String → Runtime W → Exec (Sys W) String
  unfolding ◌>>=◌ lift
  get_machine_ip_live machine_id runtime = do
    machine ← get_running_machine_live machine_id runtime
    lift (ok_or machine.ip (exec_failed "Machine has no IP (network=none)"))
