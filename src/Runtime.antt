-- ===== src/Runtime.antt =====
-- src/runtime/mod.rs: what a runtime backend offers (the trait `Runtime`), its options and results,
-- the names of machines, and the polling loop. The commands of the host are in Runtime/Host, the two
-- backends in Runtime/Nspawn and Runtime/Firecracker.
pub mod Naming
pub mod Poll
pub mod Host
pub mod Images
pub mod Nspawn
pub mod Firecracker
use clawstainer.Base.{ℕ, String, Bool, Option, List, ◌==◌, if◌then◌else◌}
use clawstainer.Base.Int.{ℤ}
use clawstainer.Base.Map.{Map}
use clawstainer.Errors.{claw, runtime_unavailable}
use clawstainer.Exec.{Exec, pure, fail}
use clawstainer.State.Store.{Sys}

pub record CreateOpts : Type 0 where
  pub name : Option String
  pub memory_mb : ℕ
  pub cpus : ℕ
  pub network : String
  pub timeout : ℕ
  pub runtime : String
  pub security : String
  pub cap_add : List String
  pub cap_drop : List String
  pub env_file : Option String
  pub from_snapshot : Option String
  pub linger : Bool

pub record ExecOpts : Type 0 where
  pub command : String
  pub timeout : ℕ
  pub workdir : String
  pub env : Map String
  pub user : String

pub record MachineInfo : Type 0 where
  pub id : String
  pub name : String
  pub status : String
  pub ip : Option String
  pub created_at : ℕ

pub record ExecResult : Type 0 where
  pub machine_id : String
  pub exit_code : ℤ
  pub stdout : String
  pub stderr : String
  pub duration_ms : ℕ
  pub timed_out : Bool
  pub truncated : Bool
  pub total_bytes : Option ℕ
  pub peak_memory_bytes : Option ℕ
  pub cpu_time_us : Option ℕ

pub record DestroyResult : Type 0 where
  pub machine_id : String
  pub status : String
  pub uptime_seconds : ℕ

pub record MachineStatus : Type 0 where
  pub id : String
  pub status : String
  pub pid : Option ℕ

-- `create` and `destroy` are given the store; the other methods act on the host alone.
pub record Runtime (W : Type 0) : Type 0 where
  pub create : CreateOpts → Exec (Sys W) MachineInfo
  pub exec : String → ExecOpts → Exec W ExecResult
  pub shell : String → String → Exec W Unit
  pub destroy : String → Exec (Sys W) DestroyResult
  pub status : String → Exec W MachineStatus

-- `os` is `std::env::consts::OS`.
unfoldable pub require_linux : {S : Type 0} → String → Exec S Unit
unfolding pure fail
require_linux os = if os == "linux" then pure tt else fail (claw (runtime_unavailable os))
