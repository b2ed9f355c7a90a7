-- ===== src/Main/Backends/Failed.antt =====
-- A failed `clawstainer create`, from src/main.rs down to the stored state.
use clawstainer.Base.{String, ◌≡◌, Bool-cases, inl, inr, ◌||◌, ◌==◌}
use clawstainer.Base.Json.{Json}
use clawstainer.Commands.Machine.{CreateArgs, create_opts, create_run}
use clawstainer.Errors.{Failure, Result, err}
use clawstainer.Main.{make_runtime}
use clawstainer.Main.Backends.{nspawn, firecracker, create_command}
use clawstainer.Exec.{Exec}
use clawstainer.Runtime.{ExecOpts, MachineInfo}
use clawstainer.Runtime.Firecracker.Client.{Socket, api, guest}
use clawstainer.Runtime.Firecracker.Create.Failed.{create_vm-LeftOver}
use clawstainer.Runtime.Host.{Host, Output}
use clawstainer.Runtime.Images.{Images}
use clawstainer.Runtime.Nspawn.Create.Failed.{LeftOver, create-LeftOver}
use clawstainer.State.Store.{Sys}

module _ {W : Type 0} (host : Host W) (images : Images W) (socket : Socket W) (json : Json)
    (print : json.Value → Result String) (exec_request : ExecOpts → json.Value)
    (health_req : json.Value) (print_status : Output → String) where
  abbrev pub creates : CreateArgs → Exec (Sys W) MachineInfo
  creates = create_command host images socket json print exec_request health_req print_status

  -- Whichever runtime it asks for, a `clawstainer create` that fails records no machine and changes
  -- no other: the state is as before, but for an address that may have been allocated, which then
  -- stays allocated.
  pub create_command-LeftOver :
      (args : CreateArgs) (s : Sys W) {e : Failure}
      → (creates args s).0 ≡ err e
      → LeftOver s.state (creates args s).1.state
  unfolding create_command create_run make_runtime nspawn firecracker
  create_command-LeftOver args s failed =
      elim (Bool-cases ((args.runtime == "firecracker") || (args.runtime == "fc"))) [
        | inl vm ↦ rw vm (
            create_vm-LeftOver host (api socket) (guest host.clock socket json print health_req)
              images (create_opts args) s (rw vm at failed))
        | inr container ↦
            rw container (create-LeftOver host images (create_opts args) s (rw container at failed))
      ]
