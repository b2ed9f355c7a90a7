-- ===== src/Runtime/Firecracker/Destroy/Laws.antt =====
-- What `FirecrackerRuntime::destroy` (src/runtime/firecracker.rs) does to the state.
use clawstainer.Base.{
  ℕ, zero, suc, String, ◌≡◌, ◌≢◌, refl, ap, Option, none, some, [], ◌∷◌, arith, ◌==◌, Bool-cases,
  Option-cases, inl, inr, ◌⊎◌, eq_iff,
}
use clawstainer.Base.Decimal.{decimal}
use clawstainer.Base.Map.{Map, get, get-remove_ne, get-remove_self}
use clawstainer.Errors.{ok, err, claw, machine_not_found, runtime_unavailable}
use clawstainer.Exec.{pure, ignore, attempt, ◌>>=◌}
use clawstainer.State.{Machine}
use clawstainer.State.Consistent.{IsConsistent, remove_machine-IsConsistent}
use clawstainer.State.Store.{Sys, with_lock, with_read_lock, on_host}
use clawstainer.Runtime.{DestroyResult, require_linux}
use clawstainer.Runtime.Host.{Host, ran_ok}
use clawstainer.Runtime.Images.{Images}
use clawstainer.Runtime.Nspawn.Destroy.{uptime, remove_machine}
use clawstainer.Runtime.Firecracker.{Api, socket_path}
use clawstainer.Runtime.Firecracker.Destroy.{
  await_exit, kill, stop_vm, shut_down, clean_up, remove_networking, tear_down_if_empty,
  commit_destroy, destroy, pause,
}

module _ {W : Type 0} (host : Host W) (api : Api W) (images : Images W) (id : String) where
  await_exit_ok : (rounds pid : ℕ) (w : W) → (await_exit host api images rounds pid w).0 ≡ ok tt
  unfolding await_exit pure attempt ◌>>=◌ pause
  await_exit_ok zero pid w = refl
  await_exit_ok (suc rounds) pid w =
      let asked = host.run ("kill" ∷ "-0" ∷ decimal pid ∷ []) (host.clock.sleep 100 w) in
      elim (Bool-cases (ran_ok asked.0)) [
        | inl alive ↦ rw alive (await_exit_ok rounds pid asked.1)
        | inr gone ↦ rw gone refl
      ]

  kill_ok : (pid : Option ℕ) (w : W) → (kill host api images pid w).0 ≡ ok tt
  unfolding kill pure ◌>>=◌ ignore
  kill_ok none w = refl
  kill_ok (some pid) w = rw (await_exit_ok 30 pid w) refl

  shut_down_ok : (pid : Option ℕ) (w : W) → (shut_down host api images id pid w).0 ≡ ok tt
  unfolding shut_down stop_vm ◌>>=◌ ignore
  shut_down_ok pid w = elim (Bool-cases (host.exists (socket_path id) w)) [
    | inl there ↦ rw there (kill_ok pid _)
    | inr gone ↦ rw gone refl
  ]

  tear_down_if_empty_ok :
      (machines : Map Machine) (s : Sys W)
      → ((tear_down_if_empty host api images machines s).0 ≡ ok tt)
        × ((tear_down_if_empty host api images machines s).1.state ≡ s.state)
  unfolding tear_down_if_empty remove_networking ◌>>=◌ ignore on_host pure
  tear_down_if_empty_ok [] s = (refl, refl)
  tear_down_if_empty_ok (m ∷ machines) s = (refl, refl)

  commit_destroy_ok :
      (s : Sys W)
      → ((commit_destroy host api images id s).0 ≡ ok tt)
        × ((commit_destroy host api images id s).1.state ≡ remove_machine id s.state)
  unfolding commit_destroy
  commit_destroy_ok s =
      let t = remove_machine id s.state in tear_down_if_empty_ok t.machines (record s { state = t })

  clean_up_ok : (w : W) → (clean_up host api images id w).0 ≡ ok tt
  unfolding clean_up ◌>>=◌ ignore
  clean_up_ok w = refl

  -- On Linux, and for a known machine, `destroy` succeeds, and the state that it leaves is the one
  -- before without the machine and with its address released.
  pub firecracker_destroy_lem :
      (s : Sys W) (m : Machine)
      → host.os ≡ "linux"
      → get id s.state.machines ≡ some m
      → ((destroy host api images id s).0
          ≡ ok (record {
            machine_id = id;
            status = "destroyed";
            uptime_seconds = uptime (host.utc_now s.world) m.created_at;
          }))
        × ((destroy host api images id s).1.state ≡ remove_machine id s.state)
  unfolding destroy require_linux ◌>>=◌ with_read_lock on_host with_lock pure
  firecracker_destroy_lem s m linux found =
      let stopped = (shut_down host api images id m.pid s.world).1 in
      let t : Sys W = record s { world = (clean_up host api images id stopped).1 } in
      ground (
        arith,
        found,
        linux,
        eq_iff host.os "linux",
        shut_down_ok m.pid s.world,
        clean_up_ok stopped,
        commit_destroy_ok t,
      )

  firecracker_destroy_unknown :
      (s : Sys W)
      → host.os ≡ "linux"
      → get id s.state.machines ≡ none
      → destroy host api images id s ≡ (err (claw (machine_not_found id)), s)
  unfolding destroy require_linux ◌>>=◌ with_read_lock
  firecracker_destroy_unknown s linux missing = ground (arith, eq_iff host.os "linux")

  firecracker_destroy_elsewhere :
      (s : Sys W)
      → host.os ≢ "linux"
      → destroy host api images id s ≡ (err (claw (runtime_unavailable host.os)), s)
  unfolding destroy require_linux ◌>>=◌
  firecracker_destroy_elsewhere s ne = ground (arith, eq_iff host.os "linux")

  -- The three ends of `destroy`: the state is as it was, or the machine was removed.
  destroy-State :
      (s : Sys W)
      → ((destroy host api images id s).1.state ≡ s.state)
        ⊎ ((destroy host api images id s).1.state ≡ remove_machine id s.state)
  destroy-State s = elim (Bool-cases (host.os == "linux")) [
    | inr other ↦ inl (
        ap (λ p. p.1.state)
          (firecracker_destroy_elsewhere s (λ e. cc (other, (eq_iff host.os "linux").1 e))))
    | inl linux ↦ elim (Option-cases (get id s.state.machines)) [
      | inl missing ↦ inl (
          ap (λ p. p.1.state)
            (firecracker_destroy_unknown s ((eq_iff host.os "linux").0 linux) missing))
      | inr (m, found) ↦
          inr (firecracker_destroy_lem s m ((eq_iff host.os "linux").0 linux) found).1
    ]
  ]

  -- `destroy` keeps the invariant of the state, whatever it returns.
  pub firecracker_destroy-IsConsistent :
      (s : Sys W) → IsConsistent s.state → IsConsistent (destroy host api images id s).1.state
  firecracker_destroy-IsConsistent s c = elim (destroy-State s) [
    | inl same ↦ rw same c
    | inr removed ↦ rw removed (remove_machine-IsConsistent s.state id c)
  ]

  -- `destroy` leaves every other machine as it is, whatever it returns.
  pub firecracker_destroy-others :
      (s : Sys W) (j : String)
      → id ≢ j
      → get j (destroy host api images id s).1.state.machines ≡ get j s.state.machines
  unfolding remove_machine
  firecracker_destroy-others s j ne = elim (destroy-State s) [
    | inl same ↦ rw same refl
    | inr removed ↦ rw removed (get-remove_ne id j s.state.machines ne)
  ]

  -- After a `destroy` that succeeded, the machine is gone.
  pub firecracker_destroy_removes :
      (s : Sys W) (r : DestroyResult)
      → (destroy host api images id s).0 ≡ ok r
      → get id (destroy host api images id s).1.state.machines ≡ none
  unfolding remove_machine
  firecracker_destroy_removes s r h = elim (Bool-cases (host.os == "linux")) [
    | inr other ↦
        absurd
          (cc (h, firecracker_destroy_elsewhere s (λ e. cc (other, (eq_iff host.os "linux").1 e))))
    | inl linux ↦ elim (Option-cases (get id s.state.machines)) [
      | inl missing ↦
          absurd (cc (h, firecracker_destroy_unknown s ((eq_iff host.os "linux").0 linux) missing))
      | inr (m, found) ↦
          rw (firecracker_destroy_lem s m ((eq_iff host.os "linux").0 linux) found).1
            (get-remove_self id s.state.machines)
    ]
  ]
