-- ===== src/Lima/Pid.antt =====
-- `repair_stale_pid` of src/lima.rs: the host agent's PID file and who owns it.
pub mod Kept
use clawstainer.Base.{ℕ, String, Bool, true, false, Option, none, some, ◌==◌, if◌then◌else◌, nat_eq}
use clawstainer.Base.Int.{ℤ}
use clawstainer.Base.Text.{parse_i32, trim}
use clawstainer.Errors.{other, Result, ok, err}
use clawstainer.Exec.{Exec, pure, lift, ◌>>=◌, ◌>>◌}
use clawstainer.Runtime.Host.{context}
use clawstainer.Lima.{Json, Mac, VmStatus, is_running, vm_status}
use Prim.Native.String.{◌++◌}

pub data RepairStatus : Type 0 where
  not_needed vm_running live_process removed_stale_pid : RepairStatus

pub record RepairResult : Type 0 where
  pub path : String
  pub status : RepairStatus
  pub pid : Option ℤ

-- `PathBuf::join` of a relative part.
ends_with_slash : String → Bool
ends_with_slash String.[] = true
ends_with_slash (String.◌∷◌ c String.[]) = String.◌∷◌ c String.[] == "/"
ends_with_slash (String.◌∷◌ c s) = ends_with_slash s

unfoldable pub path_join : String → String → String
unfolding ends_with_slash
path_join dir part = if ends_with_slash dir then dir ++ part else dir ++ "/" ++ part

abbrev home_or : Option String → Option String → String
home_or (some lima_home) home_dir = lima_home
home_or none (some home) = path_join home ".lima"
home_or none none = ".lima"

module _ {W : Type 0} (mac : Mac W) where
  unfoldable pub lima_instance_dir : String
  unfolding path_join
  lima_instance_dir = path_join (home_or mac.lima_home mac.home_dir) "clawstainer"

  unfoldable pub pid_file : String
  unfolding lima_instance_dir path_join
  pid_file = path_join lima_instance_dir "ha.pid"

  -- ESRCH is 3 and EPERM is 1.
  abbrev alive_by_errno : Option ℕ → Result Bool
  alive_by_errno none = ok true
  alive_by_errno (some errno) =
      if nat_eq errno 3
      then ok false
      else if nat_eq errno 1
      then ok true
      else err (other "Failed to inspect Lima host-agent PID")

  unfoldable pub process_is_alive : ℤ → Exec W Bool
  process_is_alive pid w = (alive_by_errno (mac.kill pid w), w)

  -- `if let Some(pid) = pid { process_is_alive(pid)? … }`
  unfoldable pub owner_is_alive : Option ℤ → Exec W Bool
  owner_is_alive none = pure false
  owner_is_alive (some pid) = process_is_alive pid

  abbrev repaired : RepairStatus → Option ℤ → RepairResult
  repaired status pid = record { path = pid_file; status = status; pid = pid }

  unfoldable pub remove_stale : Option ℤ → Exec W RepairResult
  remove_stale pid = do
    context ("Failed to remove stale " ++ pid_file) (mac.remove_file pid_file)
    pure (repaired removed_stale_pid pid)

  unfoldable pub repair_owned : Option ℤ → Exec W RepairResult
  repair_owned pid = do
    alive ← owner_is_alive pid
    if alive then pure (repaired live_process pid) else remove_stale pid

  unfoldable pub repair_with : Json → Option ℤ → Exec W RepairResult
  repair_with json pid = do
    status ← vm_status mac json
    if is_running status then pure (repaired vm_running pid) else repair_owned pid

  unfoldable pub repair_present : Json → Exec W RepairResult
  repair_present json = do
    raw ← context ("Failed to read " ++ pid_file) (mac.read_to_string pid_file)
    repair_with json (parse_i32 (trim raw))

  unfoldable pub repair_stale_pid : Json → Exec W RepairResult
  repair_stale_pid json w =
      if mac.exists pid_file w then repair_present json w else (ok (repaired not_needed none), w)
