-- ===== src/Lima.antt =====
-- src/lima.rs: what the proxy takes from macOS, the status of the virtual machine and the commands
-- that read it. A command is an argument list; what it does to the host is a parameter.
pub mod Escape
pub mod Kept
pub mod Machine
pub mod Pid
use clawstainer.Base.{
  ℕ, String, Bool, true, false, not, Option, none, some, List, [], ◌∷◌, ◌==◌, if◌then◌else◌,
}
use clawstainer.Base.Int.{ℤ}
pub use clawstainer.Base.Json.{Json}
use clawstainer.Base.Text.{eq_ignore_ascii_case, lines, trim}
use clawstainer.Errors.{other}
use clawstainer.Exec.{Exec, pure, fail, attempt, ◌>>=◌, ◌>>◌}
use clawstainer.Runtime.Host.{Output, success, ran_ok, context}
use Prim.Native.String.{◌++◌}
use mathlib.Core.Option

pub record Mac (W : Type 0) : Type 0 where
  pub run : List String → Exec W Output  -- a command, until it ends
  pub exists : String → W → Bool
  pub read_to_string : String → Exec W String
  pub write : String → String → Exec W Unit
  pub remove_file : String → Exec W Unit
  pub kill : ℤ → W → Option ℕ  -- `kill(pid, 0)`: none, or the error number
  pub lima_home : Option String  -- the environment variable LIMA_HOME
  pub home_dir : Option String
  pub temp_dir : String
  pub project_dir : String  -- CARGO_MANIFEST_DIR
  pub config : String  -- lima-clawstainer.yaml

pub record VmStatus : Type 0 where
  pub name : String
  pub status : String
  pub vm_type : Option String
  pub arch : Option String
  pub cpus : Option ℕ
  pub memory_bytes : Option ℕ
  pub disk_bytes : Option ℕ
  pub directory : Option String

unfoldable pub not_created : VmStatus
not_created = record {
  name = "clawstainer";
  status = "NotCreated";
  vm_type = none;
  arch = none;
  cpus = none;
  memory_bytes = none;
  disk_bytes = none;
  directory = none;
}

unfoldable pub exists : VmStatus → Bool
exists s = not (s.status == "NotCreated")

unfoldable pub is_running : VmStatus → Bool
unfolding eq_ignore_ascii_case
is_running s = eq_ignore_ascii_case s.status "running"

-- The sandboxes that the `clawstainer` inside the VM lists.
pub record SandboxSummary : Type 0 where
  pub id : String
  pub name : String
  pub status : String

module _ (json : Json) where
  abbrev pub text_field : json.Value → String → Option String
  text_field v key = Option.bind (json.field v key) json.as_str

  abbrev pub number_field : json.Value → String → Option ℕ
  number_field v key = Option.bind (json.field v key) json.as_u64

  abbrev pub text_or : String → Option String → String
  text_or d none = d
  text_or d (some s) = s

  abbrev is_ours : Option String → Bool
  is_ours none = false
  is_ours (some name) = name == "clawstainer"

  abbrev read_status : json.Value → VmStatus
  read_status v = record {
    name = "clawstainer";
    status = text_or "Unknown" (text_field v "status");
    vm_type = text_field v "vmType";
    arch = text_field v "arch";
    cpus = number_field v "cpus";
    memory_bytes = number_field v "memory";
    disk_bytes = number_field v "disk";
    directory = text_field v "dir";
  }

  -- One line: none to `continue`.
  unfoldable pub status_of_line : Option json.Value → Option VmStatus
  status_of_line none = none
  status_of_line (some v) = if is_ours (text_field v "name") then some (read_status v) else none

  abbrev pub first_status : Option VmStatus → VmStatus → VmStatus
  first_status none rest = rest
  first_status (some s) rest = s

  unfoldable pub status_of_lines : List String → VmStatus
  unfolding status_of_line not_created
  status_of_lines [] = not_created
  status_of_lines (line ∷ rest) =
      first_status (status_of_line (json.from_str line)) (status_of_lines rest)

  unfoldable pub parse_vm_status : String → VmStatus
  unfolding status_of_lines lines
  parse_vm_status stdout = status_of_lines (lines stdout)

abbrev lima_missing : String
lima_missing =
    "Lima is not installed. Install it with: brew install lima\nclawstainer uses a lightweight Linux VM to run sandboxes on macOS."

module _ {W : Type 0} (mac : Mac W) where
  -- `status().context(msg)?`, and a bail when the command has failed.
  unfoldable pub must_succeed : String → String → List String → Exec W Unit
  must_succeed not_run failed cmd = do
    o ← context not_run (mac.run cmd)
    if success o then pure tt else fail (other failed)

  unfoldable pub ensure_limactl : Exec W Unit
  ensure_limactl = do
    which ← attempt (mac.run ("which" ∷ "limactl" ∷ []))
    if ran_ok which then pure tt else fail (other lima_missing)

  unfoldable pub vm_status : Json → Exec W VmStatus
  vm_status json = do
    ensure_limactl
    output ← context "Failed to list Lima VMs" (mac.run ("limactl" ∷ "list" ∷ "--json" ∷ []))
    if success output
        then pure (parse_vm_status json output.stdout)
        else fail (other ("Failed to list Lima VMs: " ++ trim output.stderr))
