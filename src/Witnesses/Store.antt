-- ===== src/Witnesses/Store.antt =====
-- The theorems on the files of the store, at concrete inputs.
use clawstainer.Base.{ℕ, ◌≡◌, ◌⊎◌, refl, false, none}
use clawstainer.Base.Text.{is_blank}
use clawstainer.Errors.{ok}
use clawstainer.Exec.{Exec}
use clawstainer.State.{State, default_state}
use clawstainer.State.Store.{Sys, with_lock, with_read_lock}
use clawstainer.State.Disk.{
  Calls, all_succeed, Disk, read_text, on_disk_with_lock, on_disk_with_read_lock,
}
use clawstainer.State.Disk.Refinement.{
  Same, Committed, on_disk_with_lock-Same, on_disk_with_read_lock-Same, on_disk_with_lock_atomic,
}
use clawstainer.Examples.{example_state, example_codec, example_sys, example_disk}

-- A transaction that raises the version.
abbrev next_state : State
next_state = record example_state { version = 2 }

abbrev upgrade : Exec (Sys ℕ) ℕ
upgrade s = (ok s.state.version, record s { state = record s.state { version = 2 } })

abbrev no_disk : Disk ℕ
no_disk = record { state_json = none; state_tmp = none; world = 0 }

abbrev upgraded : State
upgraded = record default_state { version = 2 }

on_disk_with_lock-Same_example :
    Same
      (example_codec upgraded)
      (on_disk_with_lock (example_codec upgraded) all_succeed upgrade no_disk)
      (with_lock upgrade (record { state = default_state; world = 0 }))
unfolding read_text is_blank
on_disk_with_lock-Same_example =
    on_disk_with_lock-Same (example_codec upgraded) upgrade default_state no_disk refl (refl, refl)

abbrev not_renamed : Calls
not_renamed = record all_succeed { renamed = false }

on_disk_with_lock_atomic_example :
    ((on_disk_with_lock (example_codec upgraded) not_renamed upgrade no_disk).1.state_json ≡ none)
    ⊎ ((a : ℕ) × Committed
          (example_codec upgraded)
          not_renamed
          upgrade
          no_disk
          a
          (on_disk_with_lock (example_codec upgraded) not_renamed upgrade no_disk).1)
on_disk_with_lock_atomic_example =
    on_disk_with_lock_atomic (example_codec upgraded) not_renamed upgrade no_disk

on_disk_with_read_lock-Same_example :
    Same
      (example_codec example_state)
      (on_disk_with_read_lock
        (example_codec example_state)
        all_succeed
        (λ s. ok s.version)
        example_disk)
      (with_read_lock (λ s. ok s.version) example_sys)
unfolding read_text is_blank
on_disk_with_read_lock-Same_example =
    on_disk_with_read_lock-Same (example_codec example_state) (λ s. ok s.version) example_state
      example_disk refl
