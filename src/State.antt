-- ===== src/State.antt =====
-- src/state/mod.rs: the machines that the tool manages and the network they share. The store that
-- reads and writes this state is in State/Store, and its files are in State/Disk.
pub mod Store
pub mod Disk
pub mod Reconcile
pub mod Consistent
use clawstainer.Base.{ℕ, String, Bool, Option, List, []}
use clawstainer.Base.Map.{Map}
use clawstainer.Network.{NetworkState, default_network}

pub record Machine : Type 0 where
  pub id : String
  pub name : String
  pub status : String
  pub pid : Option ℕ
  pub ip : Option String
  pub memory_mb : ℕ
  pub cpus : ℕ
  pub network : String
  pub created_at : ℕ  -- seconds since the epoch
  pub components : List String
  pub timeout : ℕ
  pub root_path : String
  pub runtime : String
  pub security : String
  pub has_env_file : Bool
  pub linger : Bool
  pub fleet_name : Option String

abbrev pub default_runtime : String
default_runtime = "nspawn"

abbrev pub default_security : String
default_security = "strict"

pub record State : Type 0 where
  pub version : ℕ
  pub machines : Map Machine
  pub network : NetworkState

abbrev pub default_state : State
default_state = record { version = 1; machines = []; network = default_network }
