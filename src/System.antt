-- ===== src/System.antt =====
-- The states that clawstainer reaches: from the empty state, by the operations that write it. Each
-- operation runs to its end, successfully or not, on any host; the host may change between them.
pub mod Addresses
use clawstainer.Base.{ℕ, String, List}
use clawstainer.Errors.{Result}
use clawstainer.State.{State, default_state}
use clawstainer.State.Reconcile.{reconcile_machine}
use clawstainer.State.Store.{Sys}
use clawstainer.Runtime.{CreateOpts, MachineInfo, Runtime}
use clawstainer.Runtime.Host.{Host}
use clawstainer.Runtime.Images.{Images}
use clawstainer.Runtime.Nspawn.Create.{create}
use clawstainer.Runtime.Nspawn.Destroy.{destroy}
use clawstainer.Runtime.Firecracker.{Api}
use clawstainer.Runtime.Firecracker.Create.{Guest, create as create_vm}
use clawstainer.Runtime.Firecracker.Destroy.{destroy as destroy_vm}
use clawstainer.Component.{ComponentsFile}
use clawstainer.Component.Provisioner.{provision}
use clawstainer.Fleet.{FleetCreateArgs}
use clawstainer.Fleet.Create.{join_fleet}

module _ {W : Type 0} (images : Images W) (now_ms : W → ℕ) (file : ComponentsFile)
    (make_runtime : String → Runtime W) (args : FleetCreateArgs) where
  pub data Step : State → State → Type 0 where
    creates :
        (host : Host W) (opts : CreateOpts) (s : Sys W)
        → Step s.state (create host images opts s).1.state
    creates_vm :
        (host : Host W) (api : Api W) (guest : Guest W) (opts : CreateOpts) (s : Sys W)
        → Step s.state (create_vm host api guest images opts s).1.state
    destroys :
        (host : Host W) (id : String) (s : Sys W) → Step s.state (destroy host images id s).1.state
    destroys_vm :
        (host : Host W) (api : Api W) (id : String) (s : Sys W)
        → Step s.state (destroy_vm host api images id s).1.state
    provisions :
        (runtime : Runtime W) (id : String) (names : List String) (timeout : ℕ) (s : Sys W)
        → Step s.state (provision now_ms runtime file id names timeout s).1.state
    reconciles :
        (runtime : Runtime W) (id : String) (s : Sys W)
        → Step s.state (reconcile_machine id runtime s).1.state
    joins :
        (created : Result MachineInfo) (group : String) (s : Sys W)
        → Step s.state (join_fleet make_runtime args created group s).1.state

  pub data Reachable : State → Type 0 where
    start : Reachable default_state
    step : {s t : State} → Reachable s → Step s t → Reachable t
