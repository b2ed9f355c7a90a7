-- ===== src/State/Reconcile/Live.antt =====
-- What `reconcile_machine` and `get_running_machine_live` of src/state/mod.rs leave in the state.
use clawstainer.Base.{String, ◌≡◌, ◌≢◌, some, arith, eq_iff, eq_refl, inl, inr, Option-cases}
use clawstainer.Base.Map.{get, get-modify, contains_key}
use clawstainer.Errors.{ok, Result-cases}
use clawstainer.State.{Machine}
use clawstainer.State.Store.{Sys}
use clawstainer.State.Reconcile.{adopt, query, reconcile_machine, get_running_machine_live}
use clawstainer.Runtime.{Runtime, MachineStatus}

module _ {W : Type 0} (machine_id : String) where
  -- What the state says of the machine.
  abbrev pub Stored : Sys W → Machine → Type 0
  Stored s m = get machine_id s.state.machines ≡ some m

  adopt-Stored :
      (machine : Machine) (live : MachineStatus) (s : Sys W) {m : Machine}
      → Stored s machine
      → (adopt machine live machine_id s).0 ≡ ok m
      → Stored (adopt machine live machine_id s).1 m
  unfolding adopt contains_key
  adopt-Stored machine live s h e = ground (
    arith,
    eq_refl machine_id,
    get-modify machine_id machine_id
        (λ (k : Machine). record k { status = live.status; pid = live.pid }) s.state.machines,
  )

  -- A successful `reconcile_machine` returns what the state says of the machine afterwards.
  pub reconcile_machine-Stored :
      (runtime : Runtime W) (s : Sys W) {m : Machine}
      → (reconcile_machine machine_id runtime s).0 ≡ ok m
      → Stored (reconcile_machine machine_id runtime s).1 m
  unfolding reconcile_machine query
  reconcile_machine-Stored runtime s {m} h = elim (Option-cases (get machine_id s.state.machines)) [
    | inl missing ↦ absurd (ground arith)
    | inr (machine, found) ↦ elim (Result-cases (runtime.status machine_id s.world).0) [
      | inl (live, answered) ↦ ground (
        arith,
        adopt-Stored machine live (record s { world = (runtime.status machine_id s.world).1 })
            {m = m},
      )
      | inr (e, failed) ↦ ground arith
    ]
  ]

  -- A machine that `get_running_machine_live` returns is running, and the state says so too.
  pub get_running_machine_live-running :
      (runtime : Runtime W) (s : Sys W) {m : Machine}
      → (get_running_machine_live machine_id runtime s).0 ≡ ok m
      → (m.status ≡ "running") × Stored (get_running_machine_live machine_id runtime s).1 m
  unfolding get_running_machine_live
  get_running_machine_live-running runtime s h =
      elim (Result-cases (reconcile_machine machine_id runtime s).0) [
        | inl (machine, done) ↦ ground (
          arith,
          reconcile_machine-Stored runtime s {m = machine},
          eq_iff machine.status "running",
        )
        | inr (e, failed) ↦ absurd (ground arith)
      ]

  adopt-others :
      (machine : Machine) (live : MachineStatus) (s : Sys W) (other : String)
      → machine_id ≢ other
      → (get other (adopt machine live machine_id s).1.state.machines ≡ get other s.state.machines)
        × ((adopt machine live machine_id s).1.state.network ≡ s.state.network)
  unfolding adopt
  adopt-others machine live s other ne = ground (
    arith,
    eq_iff machine_id other,
    get-modify machine_id other (λ (k : Machine). record k { status = live.status; pid = live.pid })
        s.state.machines,
  )

  -- `reconcile_machine` changes no other machine and nothing of the network, whatever it returns.
  pub reconcile_machine-others :
      (runtime : Runtime W) (s : Sys W) (other : String)
      → machine_id ≢ other
      → (get other (reconcile_machine machine_id runtime s).1.state.machines
          ≡ get other s.state.machines)
        × ((reconcile_machine machine_id runtime s).1.state.network ≡ s.state.network)
  unfolding reconcile_machine query
  reconcile_machine-others runtime s other ne =
      elim (Option-cases (get machine_id s.state.machines)) [
        | inl missing ↦ ground arith
        | inr (machine, found) ↦ elim (Result-cases (runtime.status machine_id s.world).0) [
          | inl (live, answered) ↦ ground (
            arith,
            adopt-others machine live (record s { world = (runtime.status machine_id s.world).1 })
                other ne,
          )
          | inr (e, failed) ↦ ground arith
        ]
      ]

  -- A machine that is not stored as running is returned as it is stored, and the runtime is not asked.
  pub reconcile_machine-stopped :
      (runtime : Runtime W) (s : Sys W) (m : Machine)
      → Stored s m
      → m.status ≢ "running"
      → reconcile_machine machine_id runtime s ≡ (ok m, s)
  unfolding reconcile_machine
  reconcile_machine-stopped runtime s m h ne = ground (arith, eq_iff m.status "running")
