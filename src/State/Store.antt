-- ===== src/State/Store.antt =====
-- `StateStore` of src/state/mod.rs as the commands use it: transactions on the state under the file
-- lock. The world beside the state is what the host's commands and clocks act on.
-- State/Disk models the same two functions with their files, and shows that they implement these.
pub mod Rules
use clawstainer.Base.{ℕ, String, Option, none, some, if◌then◌else◌}
use clawstainer.Base.Map.{get, modify, contains_key}
use clawstainer.Errors.{ClawError, machine_not_found, claw, Result, ok, err}
use clawstainer.Exec.{Exec}
use clawstainer.State.{Machine, State}

pub record Sys (W : Type 0) : Type 0 where
  pub state : State
  pub world : W

-- `.get(key).cloned().ok_or(e)`
abbrev pub ok_or {ℓ} : {A : Type ℓ} → Option A → ClawError → Result A
ok_or none e = err (claw e)
ok_or (some a) e = ok a

module _ {W : Type 0} where
  abbrev finish : {A : Type 0} → State → Result A × Sys W → Result A × Sys W
  finish old (ok a, s) = (ok a, s)
  finish old (err e, s) = (err e, record s { state = old })

  -- A closure that fails leaves the state as it was; the host keeps what was done to it.
  unfoldable pub with_lock : {A : Type 0} → Exec (Sys W) A → Exec (Sys W) A
  with_lock f s = finish s.state (f s)

  unfoldable pub with_read_lock : {A : Type 0} → (State → Result A) → Exec (Sys W) A
  with_read_lock f s = (f s.state, s)

  unfoldable pub get_machine : String → Exec (Sys W) Machine
  unfolding with_read_lock
  get_machine machine_id =
      with_read_lock (λ s. ok_or (get machine_id s.machines) (machine_not_found machine_id))

  abbrev pub change_machine : String → (Machine → Machine) → Sys W → Sys W
  change_machine machine_id f s = record s {
    state = record s.state { machines = modify machine_id f s.state.machines };
  }

  -- The closure of `update_machine_status`.
  unfoldable pub set_status : String → String → Option ℕ → Exec (Sys W) Unit
  set_status machine_id status pid s =
      if contains_key machine_id s.state.machines
      then (ok tt, change_machine machine_id (λ m. record m { status = status; pid = pid }) s)
      else (err (claw (machine_not_found machine_id)), s)

  unfoldable pub update_machine_status : String → String → Option ℕ → Exec (Sys W) Unit
  unfolding with_lock set_status
  update_machine_status machine_id status pid = with_lock (set_status machine_id status pid)

  -- A step on the host alone.
  unfoldable pub on_host : {A : Type 0} → Exec W A → Exec (Sys W) A
  on_host m s = let (r, w) = m s.world in (r, record s { world = w })
