-- ===== src/Runtime/Nspawn/Destroy/Laws.antt =====
-- What `NspawnRuntime::destroy` (src/runtime/nspawn.rs) does to the state and to the host.
use clawstainer.Base.{
  String, ◌≡◌, ◌≢◌, refl, ap, Bool, true, false, not, Option, none, some, arith, if◌then◌else◌,
  ◌==◌, Bool-cases, Option-cases, inl, inr, eq_iff, eq_refl,
}
use clawstainer.Base.Map.{get, get-remove_self, get-remove_ne, get-modify}
use clawstainer.Runtime.{DestroyResult}
use clawstainer.Errors.{Result, ok, err, claw, machine_not_found, runtime_unavailable, is_ok}
use clawstainer.State.{Machine, State}
use clawstainer.State.Store.{Sys, change_machine}
use clawstainer.Network.{release}
use clawstainer.State.Consistent.{IsConsistent, modify-IsConsistent, remove_machine-IsConsistent}
use clawstainer.Runtime.Host.{Host}
use clawstainer.Runtime.Images.{Images}
use clawstainer.Runtime.Nspawn.Destroy.{
  uptime, has_running, remove_machine, shut_down, forget_machine, remove_networking, commit_destroy,
  destroy,
}

-- A machine that is gone, or kept as failed.
pub data GoneOrFailed : Option Machine → Type 0 where
  gone : GoneOrFailed none
  kept : (m : Machine) → m.status ≡ "failed" → GoneOrFailed (some m)

module _ {W : Type 0} (host : Host W) (images : Images W) (id : String) (s : Sys W) where
  shut_down_ok : (w : W) → (shut_down host images id w).0 ≡ ok tt
  unfolding shut_down
  shut_down_ok w = refl

  remove_networking_ok : (w : W) → (remove_networking host images w).0 ≡ ok tt
  unfolding remove_networking
  remove_networking_ok w = refl

  -- The host after the shutdown, and the result and the host after the teardown of the overlay.
  abbrev pub after_shutdown : W
  after_shutdown = (shut_down host images id s.world).1

  abbrev pub cleanup_failed : Bool
  cleanup_failed = not (is_ok (images.teardown id after_shutdown).0)

  abbrev pub after_teardown : W
  after_teardown = (images.teardown id after_shutdown).1

  -- The state that the transaction of `destroy` leaves.
  abbrev pub state_left : State
  state_left =
      (forget_machine host images cleanup_failed id (record s { world = after_teardown })).state

  -- What `destroy` comes to on Linux, for a known machine.
  pub destroy_lem :
      (m : Machine)
      → host.os ≡ "linux"
      → get id s.state.machines ≡ some m
      → destroy host images id s ≡ (
        ok (record {
          machine_id = id;
          status = "destroyed";
          uptime_seconds = uptime (host.utc_now s.world) m.created_at;
        }),
        record {
          state = state_left;
          world =
              if has_running state_left
              then after_teardown
              else (remove_networking host images after_teardown).1;
        },
      )
  unfolding destroy commit_destroy forget_machine
  destroy_lem m linux found =
      ground
        (arith, shut_down_ok s.world, remove_networking_ok after_teardown, eq_iff host.os "linux")

  -- An unknown machine: an error, and nothing is done.
  pub destroy_unknown :
      host.os ≡ "linux"
      → get id s.state.machines ≡ none
      → destroy host images id s ≡ (err (claw (machine_not_found id)), s)
  unfolding destroy
  destroy_unknown linux missing = ground (arith, eq_iff host.os "linux")

  destroy_elsewhere :
      host.os ≢ "linux" → destroy host images id s ≡ (err (claw (runtime_unavailable host.os)), s)
  unfolding destroy
  destroy_elsewhere ne = ground (arith, eq_iff host.os "linux")

  forget_machine-IsConsistent :
      (failed : Bool) (t : Sys W)
      → IsConsistent t.state
      → IsConsistent (forget_machine host images failed id t).state
  unfolding forget_machine
  forget_machine-IsConsistent true t c =
      modify-IsConsistent t.state id (λ m. record m { status = "failed" }) (λ m. refl) c
  forget_machine-IsConsistent false t c = remove_machine-IsConsistent t.state id c

  state_left_cleaned : cleanup_failed ≡ false → state_left ≡ remove_machine id s.state
  unfolding forget_machine
  state_left_cleaned e =
      ap (λ b. (forget_machine host images b id (record s { world = after_teardown })).state) e

  state_left_failed :
      cleanup_failed ≡ true
      → state_left ≡ (change_machine id (λ m. record m { status = "failed" }) s).state
  unfolding forget_machine
  state_left_failed e =
      ap (λ b. (forget_machine host images b id (record s { world = after_teardown })).state) e

  -- `destroy` keeps the invariant of the state, whatever it returns.
  pub destroy-IsConsistent : IsConsistent s.state → IsConsistent (destroy host images id s).1.state
  destroy-IsConsistent c = elim (Bool-cases (host.os == "linux")) [
    | inr other ↦ rw (destroy_elsewhere (λ e. cc (other, (eq_iff host.os "linux").1 e))) c
    | inl linux ↦ elim (Option-cases (get id s.state.machines)) [
      | inl missing ↦ rw (destroy_unknown ((eq_iff host.os "linux").0 linux) missing) c
      | inr (m, found) ↦
          rw (destroy_lem m ((eq_iff host.os "linux").0 linux) found)
            (forget_machine-IsConsistent cleanup_failed (record s { world = after_teardown }) c)
    ]
  ]

  -- A success that reports the machine as destroyed.
  pub record IsDestroyed (r : Result DestroyResult) : Type 0 where
    pub result : DestroyResult
    pub returned : r ≡ ok result
    pub of_machine : result.machine_id ≡ id
    pub destroyed : result.status ≡ "destroyed"

  remove_machine_frees :
      (m : Machine) (ip j : String)
      → get id s.state.machines ≡ some m
      → m.ip ≡ some ip
      → id ≢ j
      → let t = remove_machine id s.state in
        (get id t.machines ≡ none)
        × (get ip t.network.allocated_ips ≡ none)
        × (get j t.machines ≡ get j s.state.machines)
  unfolding remove_machine release
  remove_machine_frees m ip j found has_ip ne =
      rw (found, has_ip)
        (
          get-remove_self id s.state.machines,
          get-remove_self ip s.state.network.allocated_ips,
          get-remove_ne id j s.state.machines ne,
        )

  -- On Linux, for a known machine with an address: if the files are cleaned up, `destroy` succeeds
  -- and reports the machine destroyed, the machine is gone from the state, its address is free, and
  -- any other machine is as it was.
  pub destroy_frees :
      (m : Machine) (ip j : String)
      → host.os ≡ "linux"
      → get id s.state.machines ≡ some m
      → m.ip ≡ some ip
      → cleanup_failed ≡ false
      → id ≢ j
      → let t = (destroy host images id s).1.state in
        IsDestroyed (destroy host images id s).0
        × (get id t.machines ≡ none)
        × (get ip t.network.allocated_ips ≡ none)
        × (get j t.machines ≡ get j s.state.machines)
  destroy_frees m ip j linux found has_ip cleaned ne =
      let (away, free, others) = remove_machine_frees m ip j found has_ip ne in
      (
        rw (destroy_lem m linux found)
            (record { result = _; returned = refl; of_machine = refl; destroyed = refl }),
        rw (destroy_lem m linux found, state_left_cleaned cleaned) away,
        rw (destroy_lem m linux found, state_left_cleaned cleaned) free,
        rw (destroy_lem m linux found, state_left_cleaned cleaned) others,
      )

  -- On Linux, for a known machine: if the files cannot be cleaned up, the machine stays, marked as
  -- failed, the network is as before, and `destroy` reports success all the same.
  pub destroy_cleanup_failed :
      (m : Machine)
      → host.os ≡ "linux"
      → get id s.state.machines ≡ some m
      → cleanup_failed ≡ true
      → let t = (destroy host images id s).1.state in
        (get id t.machines ≡ some (record m { status = "failed" }))
        × (t.network ≡ s.state.network)
        × (is_ok (destroy host images id s).0 ≡ true)
  destroy_cleanup_failed m linux found failed = rw (destroy_lem m linux found) (
      rw (state_left_failed failed) (
        ground (
          arith,
          get-modify id id (λ (k : Machine). record k { status = "failed" }) s.state.machines,
          eq_refl id,
        ),
        refl,
        refl,
      ))

  forget_machine-others :
      (failed : Bool) (t : Sys W) (j : String)
      → id ≢ j
      → get j (forget_machine host images failed id t).state.machines ≡ get j t.state.machines
  unfolding forget_machine remove_machine
  forget_machine-others true t j ne = ground (
    arith,
    get-modify id j (λ (k : Machine). record k { status = "failed" }) t.state.machines,
    eq_iff id j,
  )
  forget_machine-others false t j ne = get-remove_ne id j t.state.machines ne

  -- `destroy` leaves every other machine as it is, whatever it returns.
  pub destroy-others :
      (j : String)
      → id ≢ j
      → get j (destroy host images id s).1.state.machines ≡ get j s.state.machines
  destroy-others j ne = elim (Bool-cases (host.os == "linux")) [
    | inr other ↦ rw (destroy_elsewhere (λ e. cc (other, (eq_iff host.os "linux").1 e))) refl
    | inl linux ↦ elim (Option-cases (get id s.state.machines)) [
      | inl missing ↦ rw (destroy_unknown ((eq_iff host.os "linux").0 linux) missing) refl
      | inr (m, found) ↦
          rw (destroy_lem m ((eq_iff host.os "linux").0 linux) found)
            (forget_machine-others cleanup_failed (record s { world = after_teardown }) j ne)
    ]
  ]

  state_left-GoneOrFailed :
      (m : Machine) → get id s.state.machines ≡ some m → GoneOrFailed (get id state_left.machines)
  unfolding remove_machine
  state_left-GoneOrFailed m found = elim (Bool-cases cleanup_failed) [
    | inr cleaned ↦
        rw (state_left_cleaned cleaned, get-remove_self id s.state.machines) GoneOrFailed.gone
    | inl failed ↦
        let now_failed : Machine = record m { status = "failed" } in
        let changed : Sys W =
          change_machine id (λ (k : Machine). record k { status = "failed" }) s in
        let stays : get id changed.state.machines ≡ some now_failed = ground (
          arith,
          get-modify id id (λ (k : Machine). record k { status = "failed" }) s.state.machines,
          eq_refl id,
        ) in
        rw (state_left_failed failed, stays) (GoneOrFailed.kept now_failed refl)
  ]

  -- A `destroy` that succeeds takes the machine out of the state, or marks it as failed.
  pub destroy-GoneOrFailed :
      (r : DestroyResult)
      → (destroy host images id s).0 ≡ ok r
      → GoneOrFailed (get id (destroy host images id s).1.state.machines)
  destroy-GoneOrFailed r done = elim (Bool-cases (host.os == "linux")) [
    | inr other ↦
        absurd (cc (rw (destroy_elsewhere (λ e. cc (other, (eq_iff host.os "linux").1 e))) at done))
    | inl linux ↦ elim (Option-cases (get id s.state.machines)) [
      | inl missing ↦
          absurd (cc (rw (destroy_unknown ((eq_iff host.os "linux").0 linux) missing) at done))
      | inr (m, found) ↦
          rw (destroy_lem m ((eq_iff host.os "linux").0 linux) found)
            (state_left-GoneOrFailed m found)
    ]
  ]
