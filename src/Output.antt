-- ===== src/Output.antt =====
-- src/output.rs and `exit_on_error` of src/main.rs: the format of the output, the error that goes to
-- stderr, and the exit status of the process. Whether stdout is a terminal is a parameter.
pub mod ExitStatus
use clawstainer.Base.{ℕ, String, Bool, Option, none, some, ◌==◌, if◌then◌else◌}
use clawstainer.Errors.{
  ClawError, code, to_string, hint, Failure, claw, other, panic, Result, ok, err,
}

unfoldable pub resolve_format : Bool → String → String
resolve_format is_terminal format =
    if format == "auto" then (if is_terminal then "table" else "json") else format

pub record CliError : Type 0 where
  pub error : String
  pub message : String
  pub hint : Option String

unfoldable pub exit_code_for : String → ℕ
exit_code_for error =
    if error == "machine_not_found"
    then 2
    else if error == "machine_not_running"
    then 3
    else if error == "create_failed"
    then 4
    else if error == "exec_timeout"
    then 5
    else if error == "exec_failed"
    then 6
    else if error == "provision_failed"
    then 7
    else if error == "runtime_unavailable"
    then 8
    else if error == "resource_limit"
    then 9
    else if error == "permission_denied"
    then 10
    else if error == "vm_error"
    then 13
    else 1

-- The error that `exit_on_error` reports.
unfoldable pub cli_error_of : ClawError → CliError
unfolding code to_string hint
cli_error_of e = record { error = code e; message = to_string e; hint = hint e }

abbrev pub internal_error : String → CliError
internal_error msg = record { error = "internal_error"; message = msg; hint = none }

-- What is written to stderr, and the status of the process; a panic exits with 101.
unfoldable pub exit_on_error : Result (Unit {0}) → Option CliError × ℕ
unfolding cli_error_of exit_code_for
exit_on_error (ok _) = (none, 0)
exit_on_error (err (claw e)) = (some (cli_error_of e), exit_code_for (code e))
exit_on_error (err (other msg)) = (some (internal_error msg), exit_code_for "internal_error")
exit_on_error (err (panic msg)) = (none, 101)
