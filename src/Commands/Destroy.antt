-- ===== src/Commands/Destroy.antt =====
-- `run` of src/commands/destroy.rs; its result is what it has printed when it succeeds.
pub mod Gone
use clawstainer.Base.{String, Bool, true, false, Option, List, [], ◌∷◌, if◌then◌else◌}
use clawstainer.Base.Map.{keys}
use clawstainer.Errors.{ok, exec_failed}
use clawstainer.Exec.{Exec, pure, lift, ◌>>=◌, ◌>>◌}
use clawstainer.State.Store.{Sys, with_read_lock, ok_or}
use clawstainer.Runtime.{DestroyResult, Runtime}

pub record DestroyArgs : Type 0 where
  pub machine_id : Option String
  pub all : Bool

module _ {W : Type 0} (runtime : Runtime W) where
  -- The first failure ends the loop.
  unfoldable pub destroy_each : List String → Exec (Sys W) (List DestroyResult)
  destroy_each [] = pure []
  destroy_each (id ∷ ids) = do
    result ← runtime.destroy id
    results ← destroy_each ids
    pure (result ∷ results)

  unfoldable pub destroy_all : Exec (Sys W) (List DestroyResult)
  destroy_all = with_read_lock (λ s. ok (keys s.machines)) >>= destroy_each

  unfoldable pub destroy_machine : Option String → Exec (Sys W) (List DestroyResult)
  destroy_machine machine_id = do
    id ← lift (ok_or machine_id (exec_failed "Either a machine ID or --all must be specified"))
    result ← runtime.destroy id
    pure (result ∷ [])

  unfoldable pub run : DestroyArgs → Exec (Sys W) (List DestroyResult)
  run args = if args.all then destroy_all else destroy_machine args.machine_id
