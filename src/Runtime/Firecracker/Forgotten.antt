-- ===== src/Runtime/Firecracker/Forgotten.antt =====
-- How the reconciliation with `FirecrackerRuntime::status` (src/runtime/firecracker.rs, with
-- src/state/mod.rs) loses the process of a machine, and what `destroy` does without it.
use clawstainer.Base.{ℕ, String, ◌≡◌, refl, true, none, some, [], ◌∷◌, arith, eq_iff}
use clawstainer.Base.Map.{get, contains_key}
use clawstainer.Errors.{ok}
use clawstainer.Exec.{pure, ignore, ◌>>=◌}
use clawstainer.State.{Machine}
use clawstainer.State.Reconcile.{reconcile_machine, query, adopt}
use clawstainer.State.Reconcile.Live.{reconcile_machine-Stored}
use clawstainer.State.Store.{Sys}
use clawstainer.Runtime.{MachineStatus, Runtime}
use clawstainer.Runtime.Host.{Host}
use clawstainer.Runtime.Images.{Images}
use clawstainer.Runtime.Firecracker.{Api, socket_path, text}
use clawstainer.Runtime.Firecracker.Status.{status}
use clawstainer.Runtime.Firecracker.Destroy.{kill, stop_vm, shut_down}

module _ {W : Type 0} (host : Host W) (api : Api W) (images : Images W) (id : String) where
  abbrev running_now : MachineStatus
  running_now = record { id = id; status = "running"; pid = none }

  status_there :
      (w : W)
      → host.os ≡ "linux"
      → host.exists (socket_path id) w ≡ true
      → status host id w ≡ (ok running_now, w)
  unfolding status
  status_there w linux there = ground (arith, eq_iff host.os "linux")

  adopt_running :
      (m : Machine) (pid : ℕ) (s : Sys W)
      → get id s.state.machines ≡ some m
      → m.status ≡ "running"
      → m.pid ≡ some pid
      → (adopt m running_now id s).0 ≡ ok (record m { status = "running"; pid = none })
  unfolding adopt contains_key
  adopt_running m pid s found running recorded = ground arith

  reconcile_answer :
      (runtime : Runtime W) (s : Sys W) (m : Machine) (pid : ℕ)
      → host.os ≡ "linux"
      → get id s.state.machines ≡ some m
      → m.status ≡ "running"
      → m.pid ≡ some pid
      → host.exists (socket_path id) s.world ≡ true
      → (reconcile_machine id (record runtime { status = status host }) s).0
        ≡ ok (record m { status = "running"; pid = none })
  unfolding reconcile_machine query
  reconcile_answer runtime s m pid linux found running recorded there = ground (
    arith,
    eq_iff m.status "running",
    status_there s.world linux there,
    adopt_running m pid s found running recorded,
  )

  -- On Linux, reconciling a running machine whose process is recorded, while its socket is there,
  -- succeeds and makes the state forget the process.
  pub reconcile_machine_forgets_pid :
      (runtime : Runtime W) (s : Sys W) (m : Machine) (pid : ℕ)
      → host.os ≡ "linux"
      → get id s.state.machines ≡ some m
      → m.status ≡ "running"
      → m.pid ≡ some pid
      → host.exists (socket_path id) s.world ≡ true
      → let r = reconcile_machine id (record runtime { status = status host }) s in
        (r.0 ≡ ok (record m { status = "running"; pid = none }))
        × (get id r.1.state.machines ≡ some (record m { status = "running"; pid = none }))
  reconcile_machine_forgets_pid runtime s m pid linux found running recorded there =
      let done = reconcile_answer runtime s m pid linux found running recorded there in
      (
        done,
        reconcile_machine-Stored id (record runtime { status = status host }) s
            {m = record m { status = "running"; pid = none }} done,
      )

  -- A machine whose process is not recorded: no command is run to kill it, only the request to the
  -- API is sent, if its socket is there.
  pub shut_down_without_pid :
      (w : W)
      → host.exists (socket_path id) w ≡ true
      → (shut_down host api images id none w).1
        ≡ (api.put (socket_path id) "/actions" (("action_type", text "SendCtrlAltDel") ∷ []) w).1
  unfolding shut_down stop_vm kill ◌>>=◌ ignore pure
  shut_down_without_pid w there = rw there refl
