-- ===== src/Runtime/Firecracker/Status.antt =====
-- `FirecrackerRuntime::status` of src/runtime/firecracker.rs: it looks for the socket only, and never
-- reports a process.
use clawstainer.Base.{String, none, if◌then◌else◌}
use clawstainer.Errors.{ok}
use clawstainer.Exec.{Exec, ◌>>=◌, ◌>>◌}
use clawstainer.Runtime.{MachineStatus, require_linux}
use clawstainer.Runtime.Host.{Host}
use clawstainer.Runtime.Firecracker.{socket_path}

module _ {W : Type 0} (host : Host W) where
  abbrev pub status_now : String → W → MachineStatus
  status_now machine_id w = record {
    id = machine_id;
    status = if host.exists (socket_path machine_id) w then "running" else "stopped";
    pid = none;
  }

  unfoldable pub status : String → Exec W MachineStatus
  unfolding ◌>>=◌ require_linux
  status machine_id = do require_linux host.os; λ w. (ok (status_now machine_id w), w)
