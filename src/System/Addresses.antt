-- ===== src/System/Addresses.antt =====
-- In every state that clawstainer reaches, each address that a machine has is allocated to it.
use clawstainer.Base.{
  ℕ, String, ◌≡◌, refl, sym, subst, some, List, arith, ◌==◌, inl, inr, Bool-cases, Option-cases,
  ◌&&◌,
}
use clawstainer.Base.Map.{get, contains_key}
use clawstainer.Errors.{Result, ok, err, Result-cases}
use clawstainer.Exec.{◌>>=◌, pure}
use clawstainer.State.{Machine, State, default_state}
use clawstainer.State.Consistent.{IsConsistent, modify-IsConsistent, ip_unique}
use clawstainer.State.Reconcile.{adopt, query, reconcile_machine, same_pid}
use clawstainer.State.Store.{Sys, with_lock, set_status, update_machine_status}
use clawstainer.Runtime.{MachineInfo, MachineStatus, Runtime}
use clawstainer.Runtime.Images.{Images}
use clawstainer.Runtime.Nspawn.Create.Consistent.{create-IsConsistent}
use clawstainer.Runtime.Nspawn.Destroy.Laws.{destroy-IsConsistent}
use clawstainer.Runtime.Firecracker.Create.Consistent.{firecracker_create-IsConsistent}
use clawstainer.Runtime.Firecracker.Destroy.Laws.{firecracker_destroy-IsConsistent}
use clawstainer.Component.{ComponentsFile}
use clawstainer.Component.Provisioner.{provision}
use clawstainer.Component.Provisioner.Extended.{Extended}
use clawstainer.Component.Provisioner.Outcome.{provision-Reported, provision-err}
use clawstainer.Fleet.{FleetCreateArgs}
use clawstainer.Fleet.Create.{join_fleet}
use clawstainer.System.{
  Step, creates, creates_vm, destroys, destroys_vm, provisions, reconciles, joins, Reachable, start,
  step,
}

Extended-IsConsistent :
    (machine_id : String) (names : List String) (before after : State)
    → Extended machine_id names before after
    → IsConsistent before
    → IsConsistent after
Extended-IsConsistent machine_id names before after (network, machines) c = record {
  owned = λ id ip m h e. elim (Option-cases (get id before.machines)) [
    | inl missing ↦ absurd (ground (arith, machines id))
    | inr (old, found) ↦ ground (arith, machines id, c.owned id ip old found, network)
  ];
  small = rw network c.small;
}

module _ {W : Type 0} where
  adopt-IsConsistent :
      (machine : Machine) (live : MachineStatus) (id : String) (s : Sys W)
      → IsConsistent s.state
      → IsConsistent (adopt machine live id s).1.state
  unfolding adopt update_machine_status with_lock set_status pure ◌>>=◌
  adopt-IsConsistent machine live id s c =
      elim (Bool-cases ((live.status == machine.status) && same_pid live.pid machine.pid)) [
        | inl same ↦ rw same c
        | inr changed ↦ elim (Bool-cases (contains_key id s.state.machines)) [
          | inl known ↦
              rw (changed, known)
                (modify-IsConsistent s.state id
                  (λ m. record m { status = live.status; pid = live.pid }) (λ m. refl) c)
          | inr unknown ↦ rw (changed, unknown) c
        ]
      ]

  reconcile_machine-IsConsistent :
      (runtime : Runtime W) (id : String) (s : Sys W)
      → IsConsistent s.state
      → IsConsistent (reconcile_machine id runtime s).1.state
  unfolding reconcile_machine query
  reconcile_machine-IsConsistent runtime id s c = elim (Option-cases (get id s.state.machines)) [
    | inl missing ↦ rw missing c
    | inr (m, found) ↦ elim (Bool-cases (m.status == "running")) [
      | inr stopped ↦ rw (found, stopped) c
      | inl running ↦ elim (Result-cases (runtime.status id s.world).0) [
        | inl (live, answered) ↦
            rw (found, running, answered)
              (adopt-IsConsistent m live id (record s { world = (runtime.status id s.world).1 }) c)
        | inr (e, failed) ↦ rw (found, running, failed) c
      ]
    ]
  ]

  join_fleet-IsConsistent :
      (make_runtime : String → Runtime W) (args : FleetCreateArgs) (created : Result MachineInfo)
      (group : String) (s : Sys W)
      → IsConsistent s.state
      → IsConsistent (join_fleet make_runtime args created group s).1.state
  unfolding join_fleet
  join_fleet-IsConsistent make_runtime args (err e) group s c = c
  join_fleet-IsConsistent make_runtime args (ok info) group s c =
      modify-IsConsistent s.state info.id (λ m. record m { fleet_name = some group }) (λ m. refl) c

module _ {W : Type 0} (images : Images W) (now_ms : W → ℕ) (file : ComponentsFile)
    (make_runtime : String → Runtime W) (args : FleetCreateArgs) where
  provision-IsConsistent :
      (runtime : Runtime W) (id : String) (names : List String) (timeout : ℕ) (s : Sys W)
      → IsConsistent s.state
      → IsConsistent (provision now_ms runtime file id names timeout s).1.state
  provision-IsConsistent runtime id names timeout s c =
      elim (Result-cases (provision now_ms runtime file id names timeout s).0) [
        | inl (result, done) ↦
            Extended-IsConsistent id _ s.state _
              (provision-Reported now_ms runtime file id names timeout s {result = result} done).2 c
        | inr (e, failed) ↦
            subst IsConsistent
              (sym (provision-err now_ms runtime file id names timeout s {e = e} failed)) c
      ]

  Step-IsConsistent :
      {s t : State}
      → Step images now_ms file make_runtime args s t
      → IsConsistent s
      → IsConsistent t
  Step-IsConsistent (creates host opts s) c = create-IsConsistent host images opts s c
  Step-IsConsistent (creates_vm host api guest opts s) c =
      firecracker_create-IsConsistent host api guest images opts s c
  Step-IsConsistent (destroys host id s) c = destroy-IsConsistent host images id s c
  Step-IsConsistent (destroys_vm host api id s) c =
      firecracker_destroy-IsConsistent host api images id s c
  Step-IsConsistent (provisions runtime id names timeout s) c =
      provision-IsConsistent runtime id names timeout s c
  Step-IsConsistent (reconciles runtime id s) c = reconcile_machine-IsConsistent runtime id s c
  Step-IsConsistent (joins created group s) c =
      join_fleet-IsConsistent make_runtime args created group s c

  default_state-IsConsistent : IsConsistent default_state
  unfolding get
  default_state-IsConsistent = record { owned = λ id ip m h e. absurd (cc h); small = omega arith }

  -- In every reachable state, each address that a machine has is allocated to that machine, and
  -- `next_octet` is at most 255.
  pub Reachable-IsConsistent :
      {s : State} → Reachable images now_ms file make_runtime args s → IsConsistent s
  Reachable-IsConsistent start = default_state-IsConsistent
  Reachable-IsConsistent (step r next) = Step-IsConsistent next (Reachable-IsConsistent r)

  -- In every reachable state, two machines with the same address are the same machine.
  pub Reachable-ip_unique :
      {s : State} {i j ip : String} {m n : Machine}
      → Reachable images now_ms file make_runtime args s
      → get i s.machines ≡ some m
      → get j s.machines ≡ some n
      → m.ip ≡ some ip
      → n.ip ≡ some ip
      → i ≡ j
  Reachable-ip_unique {s} {i} {j} {ip} {m} {n} r hi hj hm hn =
      ip_unique s i j ip m n (Reachable-IsConsistent r) hi hj hm hn
