-- ===== src/Main/Backends.antt =====
-- `NspawnRuntime` and `FirecrackerRuntime` as the runtimes that src/main.rs chooses from, and its
-- `create` command over them.
pub mod Failed
use clawstainer.Base.{String}
use clawstainer.Base.Json.{Json}
use clawstainer.Commands.Machine.{CreateArgs, create_run}
use clawstainer.Errors.{Result}
use clawstainer.Exec.{Exec}
use clawstainer.Main.{make_runtime}
use clawstainer.Runtime.{ExecOpts, MachineInfo, Runtime}
use clawstainer.Runtime.Firecracker.Client.{Socket, api, guest}
use clawstainer.Runtime.Firecracker.Create.{create as create_vm}
use clawstainer.Runtime.Firecracker.Destroy.{destroy as destroy_vm}
use clawstainer.Runtime.Firecracker.Remote.{exec as exec_vm, shell as shell_vm}
use clawstainer.Runtime.Firecracker.Status.{status as status_vm}
use clawstainer.Runtime.Host.{Host, Output}
use clawstainer.Runtime.Images.{Images}
use clawstainer.Runtime.Nspawn.Create.{create}
use clawstainer.Runtime.Nspawn.Destroy.{destroy}
use clawstainer.Runtime.Nspawn.Exec.{exec}
use clawstainer.Runtime.Nspawn.Status.{status, shell}
use clawstainer.State.Store.{Sys}

module _ {W : Type 0} (host : Host W) (images : Images W) where
  -- `print_status` is the text of an exit status.
  unfoldable pub nspawn : (Output → String) → Runtime W
  nspawn print_status = record {
    create = create host images;
    exec = exec host;
    shell = shell host print_status;
    destroy = destroy host images;
    status = status host;
  }

  module _ (socket : Socket W) (json : Json) (print : json.Value → Result String)
      (exec_request : ExecOpts → json.Value) (health_req : json.Value) where
    unfoldable pub firecracker : Runtime W
    firecracker = record {
      create = create_vm host (api socket) (guest host.clock socket json print health_req) images;
      exec = exec_vm host socket json print exec_request;
      shell = shell_vm host socket json print exec_request;
      destroy = destroy_vm host (api socket) images;
      status = status_vm host;
    }

    -- `Commands::Create` of `main`.
    unfoldable pub create_command : (Output → String) → CreateArgs → Exec (Sys W) MachineInfo
    create_command print_status args =
        create_run (make_runtime (nspawn print_status) firecracker args.runtime) args
