-- ===== src/Commands/Vm.antt =====
-- src/commands/vm.rs: the commands on the Lima VM. The result of `run` is what it prints when it
-- succeeds; what goes to stderr is left out.
pub mod Guarded
use clawstainer.Base.{
  String, Bool, true, false, Option, none, some, List, [], ◌∷◌, ◌==◌, if◌then◌else◌,
}
use clawstainer.Base.Text.{trim}
use clawstainer.Errors.{Failure, claw, vm_error, display, Result, ok, err}
use clawstainer.Exec.{Exec, pure, fail, map_err, attempt, ◌>>=◌, ◌>>◌}
use clawstainer.Lima.{Json, Mac, VmStatus, SandboxSummary, exists, vm_status}
use clawstainer.Lima.Machine.{start_vm, stop_vm, rebuild_vm, list_vm_sandboxes, recreate_vm}
use clawstainer.Lima.Pid.{RepairResult, repair_stale_pid}
use Prim.Native.String.{◌++◌}

pub data VmCommands : Type 0 where
  status start rebuild repair : VmCommands
  stop : Bool → VmCommands  -- force
  recreate_command : Bool → Bool → VmCommands  -- yes, force

pub data Printed : Type 0 where
  vm_result : String → VmStatus → Printed  -- `print_vm_result`
  repaired : RepairResult → Printed

pub record Terminal (W : Type 0) : Type 0 where
  pub is_terminal : W → Bool  -- of stdin
  pub flush : Exec W Unit
  pub read_line : Exec W String

-- `vm_error`, of the command's module.
unfoldable pub wrap_error : Failure → Failure
wrap_error e = claw (vm_error (display e))

abbrev refused : String → Failure
refused msg = claw (vm_error msg)

module _ {W : Type 0} (terminal : Terminal W) where
  unfoldable pub prompt : Exec W Unit
  prompt = do
    terminal.flush
    response ← terminal.read_line
    if trim response == "recreate" then pure tt else fail (refused "Recreation cancelled")

  unfoldable pub confirm_recreate : Exec W Unit
  confirm_recreate w = if terminal.is_terminal w then prompt w else (
    err (refused "Recreation requires confirmation; rerun with --yes for non-interactive use"),
    w,
  )

  -- What the sandboxes in the VM, or the failure to list them, have to say.
  unfoldable pub check_sandboxes : Bool → Result (List SandboxSummary) → Exec W Unit
  check_sandboxes force (ok []) = pure tt
  check_sandboxes force (ok (_ ∷ _)) =
      if force
      then pure tt
      else fail (
          refused
            "Refusing to recreate a VM that contains sandboxes; destroy them first or pass --force")
  check_sandboxes force (err e) =
      if force
      then pure tt
      else fail (
          refused (
            "Could not inspect sandbox state ("
            ++ display e
            ++ "); pass --force only if losing all VM data is acceptable"))

  module _ (mac : Mac W) (json : Json) where
    unfoldable pub guard_existing : Bool → Bool → Exec W Unit
    guard_existing yes_flag force = do
      sandboxes ← attempt (list_vm_sandboxes mac json)
      check_sandboxes force sandboxes
      if yes_flag then pure tt else confirm_recreate

    unfoldable pub recreate : Bool → Bool → Exec W VmStatus
    recreate yes_flag force = do
      current ← map_err wrap_error (vm_status mac json)
      (if exists current then guard_existing yes_flag force else pure tt)
      map_err wrap_error (recreate_vm mac json)

    abbrev printing : String → Exec W VmStatus → Exec W Printed
    printing action m = do result ← m; pure (vm_result action result)

    abbrev dispatch : VmCommands → Exec W Printed
    dispatch status = printing "status" (map_err wrap_error (vm_status mac json))
    dispatch start = printing "start" (map_err wrap_error (start_vm mac json))
    dispatch (stop force) = printing "stop" (map_err wrap_error (stop_vm mac json force))
    dispatch rebuild = printing "rebuild" (map_err wrap_error (rebuild_vm mac json))
    dispatch repair = do
      result ← map_err wrap_error (repair_stale_pid mac json)
      pure (repaired result)
    dispatch (recreate_command yes_flag force) = printing "recreate" (recreate yes_flag force)

    unfoldable pub run : Bool → VmCommands → Exec W Printed
    run needs_proxy command =
        if needs_proxy
        then dispatch command
        else fail
            (refused "VM commands are only available on macOS; Linux runs clawstainer directly")
