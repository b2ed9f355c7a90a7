-- ===== src/Runtime/Firecracker/Destroy.antt =====
-- `FirecrackerRuntime::destroy` of src/runtime/firecracker.rs.
pub mod Laws
use clawstainer.Base.{
  ℕ, zero, suc, String, Bool, true, false, Option, none, some, List, [], ◌∷◌, if◌then◌else◌,
}
use clawstainer.Base.Decimal.{decimal}
use clawstainer.Base.Map.{Map, get}
use clawstainer.Errors.{claw, machine_not_found, Result, ok, err}
use clawstainer.Exec.{Exec, pure, ignore, attempt, ◌>>=◌, ◌>>◌}
use clawstainer.State.{Machine, State}
use clawstainer.State.Store.{Sys, with_lock, with_read_lock, on_host, ok_or}
use clawstainer.Runtime.{DestroyResult, require_linux}
use clawstainer.Runtime.Naming.{tap_name}
use clawstainer.Runtime.Host.{Host, ran_ok, remove_bridge, remove_nat, delete_tap}
use clawstainer.Runtime.Images.{Images}
use clawstainer.Runtime.Nspawn.Destroy.{uptime, remove_machine}
use clawstainer.Runtime.Firecracker.{Api, text, socket_path}

module _ {W : Type 0} (host : Host W) (api : Api W) (images : Images W) where
  unfoldable pub pause : Exec W Unit
  pause w = (ok tt, host.clock.sleep 100 w)

  -- The `for` loop: at most `rounds` pauses of 100 ms, until the process is gone.
  unfoldable pub await_exit : ℕ → ℕ → Exec W Unit
  await_exit zero pid = pure tt
  await_exit (suc rounds) pid = do
    pause
    alive ← attempt (host.run ("kill" ∷ "-0" ∷ decimal pid ∷ []))
    let rest = await_exit rounds pid
    if ran_ok alive then rest else pure tt

  unfoldable pub kill : Option ℕ → Exec W Unit
  kill none = pure tt
  kill (some pid) = do await_exit 30 pid; ignore (host.run ("kill" ∷ "-9" ∷ decimal pid ∷ []))

  unfoldable pub stop_vm : String → Option ℕ → Exec W Unit
  stop_vm machine_id pid = do
    ignore
        (api.put (socket_path machine_id) "/actions" (("action_type", text "SendCtrlAltDel") ∷ []))
    kill pid

  -- The VM is only stopped where its socket exists.
  unfoldable pub shut_down : String → Option ℕ → Exec W Unit
  shut_down machine_id pid w =
      if host.exists (socket_path machine_id) w then stop_vm machine_id pid w else (ok tt, w)

  unfoldable pub clean_up : String → Exec W Unit
  clean_up machine_id = do
    ignore (delete_tap host (tap_name machine_id))
    ignore (images.cleanup_vm_rootfs machine_id)

  unfoldable pub remove_networking : Exec W Unit
  remove_networking = do ignore (remove_bridge host); ignore (remove_nat host)

  -- `if s.machines.is_empty()`
  unfoldable pub tear_down_if_empty : Map Machine → Exec (Sys W) Unit
  tear_down_if_empty [] = on_host remove_networking
  tear_down_if_empty (m ∷ machines) = pure tt

  -- The closure under the lock.
  unfoldable pub commit_destroy : String → Exec (Sys W) Unit
  commit_destroy machine_id s =
      let t = remove_machine machine_id s.state in
      tear_down_if_empty t.machines (record s { state = t })

  unfoldable pub destroy : String → Exec (Sys W) DestroyResult
  destroy machine_id = do
    require_linux host.os
    machine ← with_read_lock (λ s. ok_or (get machine_id s.machines) (machine_not_found machine_id))
    up ← λ s. (ok (uptime (host.utc_now s.world) machine.created_at), s)
    on_host (shut_down machine_id machine.pid)
    on_host (clean_up machine_id)
    with_lock (commit_destroy machine_id)
    pure (record { machine_id = machine_id; status = "destroyed"; uptime_seconds = up })
