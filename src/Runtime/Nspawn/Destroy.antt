-- ===== src/Runtime/Nspawn/Destroy.antt =====
-- `NspawnRuntime::destroy` of src/runtime/nspawn.rs.
pub mod Laws
use clawstainer.Base.{
  ℕ, ◌-◌, ◌^◌, String, Bool, true, false, not, ◌&&◌, List, [], ◌∷◌, ◌==◌, any, leb, if◌then◌else◌,
  Option, none, some,
}
use clawstainer.Base.Map.{get, remove, values}
use clawstainer.Base.Text.{has_text}
use clawstainer.Errors.{claw, machine_not_found, Failure, Result, ok, err, is_ok}
use clawstainer.Exec.{Exec, pure, fail, ignore, attempt, ◌>>=◌, ◌>>◌}
use clawstainer.Network.{NetworkState, release}
use clawstainer.State.{Machine, State}
use clawstainer.State.Store.{Sys, with_lock, with_read_lock, on_host, change_machine, ok_or}
use clawstainer.Runtime.{DestroyResult, require_linux}
use clawstainer.Runtime.Host.{Host, Output, poll_command, remove_bridge, remove_nat}
use clawstainer.Runtime.Images.{Images}

-- `(now - created_at).num_seconds() as u64`: a negative difference wraps.
unfoldable pub uptime : ℕ → ℕ → ℕ
uptime now created_at = if leb created_at now then now - created_at else 2 ^ 64 - (created_at - now)

is_running : Machine → Bool
is_running m = m.status == "running"

-- `s.machines.values().any(|m| m.status == "running")`
unfoldable pub has_running : State → Bool
unfolding values is_running
has_running s = any is_running (values s.machines)

abbrev release_ip : Option String → NetworkState → NetworkState
release_ip none network = network
release_ip (some ip) network = release ip network

-- `if let Some(m) = s.machines.remove(id) { if let Some(ip) = m.ip { release(ip) } }`
abbrev release_of : Option Machine → NetworkState → NetworkState
release_of none network = network
release_of (some m) network = release_ip m.ip network

unfoldable pub remove_machine : String → State → State
remove_machine machine_id s = record s {
  machines = remove machine_id s.machines;
  network = release_of (get machine_id s.machines) s.network;
}

module _ {W : Type 0} (host : Host W) (images : Images W) where
  stopped : Result Output → Bool
  unfolding has_text
  stopped (ok o) = has_text "State=" o.stdout && not (has_text "running" o.stdout)
  stopped (err e) = true

  -- Shutdown, the wait for it, and termination; whatever fails here is ignored.
  unfoldable pub shut_down : String → Exec W Unit
  unfolding ◌>>=◌ ignore stopped poll_command
  shut_down machine_id = do
    ignore (host.run ("machinectl" ∷ "poweroff" ∷ machine_id ∷ []))
    ignore (
        poll_command host ("machinectl" ∷ "show" ∷ machine_id ∷ "--property=State" ∷ []) stopped 100
          1000 5000 "Timed out waiting for machine shutdown")
    ignore (host.run ("machinectl" ∷ "terminate" ∷ machine_id ∷ []))

  unfoldable pub forget_machine : Bool → String → Sys W → Sys W
  forget_machine cleanup_failed machine_id s =
      if cleanup_failed
      then change_machine machine_id (λ m. record m { status = "failed" }) s
      else record s { state = remove_machine machine_id s.state }

  unfoldable pub remove_networking : Exec W Unit
  unfolding ◌>>=◌ ignore remove_bridge remove_nat
  remove_networking = do ignore (remove_bridge host); ignore (remove_nat host)

  unfoldable pub tear_down_if : Bool → Exec (Sys W) Unit
  unfolding pure on_host
  tear_down_if true = on_host remove_networking
  tear_down_if false = pure tt

  -- The closure under the lock.
  unfoldable pub commit_destroy : Bool → String → Exec (Sys W) Unit
  unfolding tear_down_if
  commit_destroy cleanup_failed machine_id s =
      let s' = forget_machine cleanup_failed machine_id s in
      tear_down_if (not (has_running s'.state)) s'

  unfoldable pub destroy : String → Exec (Sys W) DestroyResult
  unfolding ◌>>=◌ pure attempt on_host with_lock with_read_lock require_linux
  destroy machine_id = do
    require_linux host.os
    machine ← with_read_lock (λ s. ok_or (get machine_id s.machines) (machine_not_found machine_id))
    up ← λ s. (ok (uptime (host.utc_now s.world) machine.created_at), s)
    on_host (shut_down machine_id)
    torn_down ← on_host (attempt (images.teardown machine_id))
    with_lock (commit_destroy (not (is_ok torn_down)) machine_id)
    pure (record { machine_id = machine_id; status = "destroyed"; uptime_seconds = up })
