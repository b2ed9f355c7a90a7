-- ===== src/Output/ExitStatus.antt =====
-- The exit status that a command ends with (src/output.rs, src/error.rs).
use clawstainer.Base.{String, Bool, true, false, ◌≡◌, ◌≢◌, refl, ◌⊎◌, ◌↔◌, arith, inl, inr}
use clawstainer.Errors.{
  ClawError, machine_not_found, machine_not_running, create_failed, exec_timeout, exec_failed,
  provision_failed, runtime_unavailable, resource_limit, permission_denied, copy_failed,
  snapshot_failed, vm_error, code, exit_code, claw, other, panic, Result, ok, err, is_ok,
}
use clawstainer.Output.{exit_code_for, exit_on_error}

-- The errors whose code `exit_code_for` does not know.
abbrev pub is_file_error : ClawError → Bool
is_file_error (copy_failed _) = true
is_file_error (snapshot_failed _) = true
is_file_error _ = false

-- The status of the process is the one that `ClawError::exit_code` gives, but for a failed copy and a
-- failed snapshot, where it is 1 instead of 11 and 12.
pub exit_code_for-code :
    (e : ClawError)
    → ((is_file_error e ≡ false) × (exit_code_for (code e) ≡ exit_code e))
      ⊎ ((is_file_error e ≡ true) × (exit_code_for (code e) ≡ 1) × (exit_code e ≢ 1))
unfolding exit_code_for code exit_code
exit_code_for-code (machine_not_found _) = inl (refl, refl)
exit_code_for-code (machine_not_running _ _) = inl (refl, refl)
exit_code_for-code (create_failed _) = inl (refl, refl)
exit_code_for-code (exec_timeout _) = inl (refl, refl)
exit_code_for-code (exec_failed _) = inl (refl, refl)
exit_code_for-code (provision_failed _) = inl (refl, refl)
exit_code_for-code (runtime_unavailable _) = inl (refl, refl)
exit_code_for-code (resource_limit _) = inl (refl, refl)
exit_code_for-code (permission_denied _) = inl (refl, refl)
exit_code_for-code (copy_failed _) = inr (refl, refl, λ e. cc e)
exit_code_for-code (snapshot_failed _) = inr (refl, refl, λ e. cc e)
exit_code_for-code (vm_error _) = inl (refl, refl)

exit_code_for-nonzero : (error : String) → exit_code_for error ≢ 0
unfolding exit_code_for
exit_code_for-nonzero error z = ground (arith, z)

-- The process exits with 0 exactly where the command succeeded.
pub exit_on_error-zero : (r : Result (Unit {0})) → ((exit_on_error r).1 ≡ 0) ↔ (is_ok r ≡ true)
unfolding exit_on_error
exit_on_error-zero (ok _) = (λ e. refl, λ e. refl)
exit_on_error-zero (err (claw e)) = (λ z. absurd (exit_code_for-nonzero (code e) z), λ z. cc z)
exit_on_error-zero (err (other msg)) =
    (λ z. absurd (exit_code_for-nonzero "internal_error" z), λ z. cc z)
exit_on_error-zero (err (panic msg)) = (λ e. cc e, λ e. cc e)
