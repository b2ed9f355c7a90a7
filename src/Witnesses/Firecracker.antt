-- ===== src/Witnesses/Firecracker.antt =====
-- The theorems on the Firecracker backend, at concrete inputs.
use clawstainer.Base.{ℕ, ◌≡◌, refl, none, some}
use clawstainer.Base.Map.{get}
use clawstainer.Errors.{ok}
use clawstainer.State.{Machine}
use clawstainer.State.Reconcile.{reconcile_machine}
use clawstainer.Runtime.{Runtime}
use clawstainer.Runtime.Firecracker.Status.{status}
use clawstainer.Runtime.Firecracker.Forgotten.{reconcile_machine_forgets_pid}
use clawstainer.Runtime.{MachineInfo}
use clawstainer.Examples.{
  example_host, example_api, example_images, example_machine, example_runtime, example_sys,
}

abbrev vm : Machine
vm = example_machine "sb-a" "10.0.0.2"

abbrev vm_runtime : Runtime ℕ
vm_runtime = record example_runtime { status = status example_host }

reconcile_machine_forgets_pid_example :
    ((reconcile_machine "sb-a" vm_runtime example_sys).0 ≡ ok (record vm { pid = none }))
    × (get "sb-a" (reconcile_machine "sb-a" vm_runtime example_sys).1.state.machines
        ≡ some (record vm { pid = none }))
unfolding get
reconcile_machine_forgets_pid_example =
    reconcile_machine_forgets_pid example_host example_api example_images "sb-a" example_runtime
      example_sys vm 7 refl refl refl refl refl

abbrev vm_info : MachineInfo
vm_info = record { id = "sb-00000007"; name = "web"; status = "running"; ip = none; created_at = 0 }
