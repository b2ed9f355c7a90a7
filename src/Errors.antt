-- ===== src/Errors.antt =====
-- src/error.rs: the error type, its codes, exit codes and hints; and `anyhow::Result`.
use clawstainer.Base.{
  ℕ, String, Option, none, some, Bool, true, false, ◌≡◌, refl, ◌⊎◌, inl, inr, ap,
}
use clawstainer.Base.Decimal.{decimal}
use Prim.Native.String.{◌++◌}

pub data ClawError : Type 0 where
  machine_not_found : String → ClawError
  machine_not_running : String → String → ClawError
  create_failed : String → ClawError
  exec_timeout : ℕ → ClawError
  exec_failed : String → ClawError
  provision_failed : String → ClawError
  runtime_unavailable : String → ClawError
  resource_limit : String → ClawError
  permission_denied : String → ClawError
  copy_failed : String → ClawError
  snapshot_failed : String → ClawError
  vm_error : String → ClawError

-- The `#[error("…")]` texts.
unfoldable pub to_string : ClawError → String
unfolding decimal
to_string (machine_not_found id) = "No machine with ID '" ++ id ++ "'"
to_string (machine_not_running id status) =
    "Machine '" ++ id ++ "' is not running (status: " ++ status ++ ")"
to_string (create_failed msg) = "Failed to create sandbox: " ++ msg
to_string (exec_timeout secs) = "Command timed out after " ++ decimal secs ++ "s"
to_string (exec_failed msg) = "Failed to execute command: " ++ msg
to_string (provision_failed msg) = "Provisioning failed: " ++ msg
to_string (runtime_unavailable os) = "clawstainer runtime requires Linux (current OS: " ++ os ++ ")"
to_string (resource_limit msg) = "Host resources exhausted: " ++ msg
to_string (permission_denied msg) = "Permission denied: " ++ msg
to_string (copy_failed msg) = "File copy failed: " ++ msg
to_string (snapshot_failed msg) = "Snapshot failed: " ++ msg
to_string (vm_error msg) = "Lima VM operation failed: " ++ msg

unfoldable pub code : ClawError → String
code (machine_not_found _) = "machine_not_found"
code (machine_not_running _ _) = "machine_not_running"
code (create_failed _) = "create_failed"
code (exec_timeout _) = "exec_timeout"
code (exec_failed _) = "exec_failed"
code (provision_failed _) = "provision_failed"
code (runtime_unavailable _) = "runtime_unavailable"
code (resource_limit _) = "resource_limit"
code (permission_denied _) = "permission_denied"
code (copy_failed _) = "copy_failed"
code (snapshot_failed _) = "snapshot_failed"
code (vm_error _) = "vm_error"

unfoldable pub exit_code : ClawError → ℕ
exit_code (machine_not_found _) = 2
exit_code (machine_not_running _ _) = 3
exit_code (create_failed _) = 4
exit_code (exec_timeout _) = 5
exit_code (exec_failed _) = 6
exit_code (provision_failed _) = 7
exit_code (runtime_unavailable _) = 8
exit_code (resource_limit _) = 9
exit_code (permission_denied _) = 10
exit_code (copy_failed _) = 11
exit_code (snapshot_failed _) = 12
exit_code (vm_error _) = 13

unfoldable pub hint : ClawError → Option String
hint (machine_not_found _) = some "Run 'clawstainer list' to see active machines"
hint (machine_not_running _ _) = some "The machine may have been stopped or destroyed"
hint (runtime_unavailable _) = some "clawstainer requires Linux with systemd-nspawn"
hint (exec_timeout _) = some "Use --timeout to increase the limit"
hint (provision_failed _) = some "Check component names with 'clawstainer provision --help'"
hint (copy_failed _) = some "Check paths and ensure machine is running"
hint (vm_error _) = some "Run 'clawstainer vm status' to inspect the Lima VM"
hint _ = none

-- `anyhow::Error`: a `ClawError`, or any other error with its message. A panic stands beside them.
pub data Failure : Type 0 where
  claw : ClawError → Failure
  other : String → Failure
  panic : String → Failure  -- not an `Err`: the thread unwinds

-- `format!("{e}")`
unfoldable pub display : Failure → String
unfolding to_string
display (claw e) = to_string e
display (other msg) = msg
display (panic msg) = msg

pub data Result {ℓ} (A : Type ℓ) : Type ℓ where
  ok : A → Result A
  err : Failure → Result A

abbrev pub is_ok {ℓ} : {A : Type ℓ} → Result A → Bool
is_ok (ok _) = true
is_ok (err _) = false

-- To split on a computed result and keep the equation.
pub Result-cases {ℓ} :
    {A : Type ℓ} (r : Result A) → ((a : A) × (r ≡ ok a)) ⊎ ((e : Failure) × (r ≡ err e))
Result-cases (ok a) = inl (a, refl)
Result-cases (err e) = inr (e, refl)

abbrev value_or {ℓ} : {A : Type ℓ} → A → Result A → A
value_or d (ok a) = a
value_or d (err e) = d

pub result_inj {ℓ} : {A : Type ℓ} {a b : A} → ok a ≡ ok b → a ≡ b
result_inj {a} p = ap (value_or a) p
