-- ===== src/Main.antt =====
-- src/main.rs: which runtime a command uses. The two backends are parameters here.
pub mod Backends
use clawstainer.Base.{String, Option, none, some, ◌||◌, ◌==◌, if◌then◌else◌}
use clawstainer.Base.Map.{get}
use clawstainer.Errors.{Result, ok, err}
use clawstainer.Exec.{Exec, attempt, pure, ◌>>=◌}
use clawstainer.State.{Machine}
use clawstainer.State.Store.{Sys, with_read_lock}
use clawstainer.Runtime.{Runtime}

module _ {W : Type 0} (nspawn firecracker : Runtime W) where
  unfoldable pub make_runtime : String → Runtime W
  make_runtime name = if (name == "firecracker") || (name == "fc") then firecracker else nspawn

  abbrev runtime_of : Option Machine → String
  runtime_of none = "nspawn"
  runtime_of (some m) = m.runtime

  -- `.unwrap_or_else(|_| "nspawn".to_string())`
  abbrev or_nspawn : Result String → String
  or_nspawn (ok name) = name
  or_nspawn (err e) = "nspawn"

  unfoldable pub runtime_for_machine : String → Exec (Sys W) (Runtime W)
  unfolding ◌>>=◌ attempt pure with_read_lock
  runtime_for_machine machine_id = do
    name ← attempt (with_read_lock (λ s. ok (runtime_of (get machine_id s.machines))))
    pure (make_runtime (or_nspawn name))
