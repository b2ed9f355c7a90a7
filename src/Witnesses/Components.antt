-- ===== src/Witnesses/Components.antt =====
-- The theorems on components, capabilities and exit codes, at concrete inputs.
use clawstainer.Base.{ℕ, ◌≡◌, ◌≢◌, ◌⊎◌, refl, true, false, none, [], ◌∷◌, contains}
use clawstainer.Base.Map.{get, contains_key}
use clawstainer.Errors.{claw, copy_failed, code, exit_code, provision_failed}
use clawstainer.Component.{
  resolve_name, push_new, ComponentResult, ProvisionResult, resolve_components,
}
use clawstainer.Component.Resolve.{Resolves, resolve_components-Resolves}
use clawstainer.Component.Provisioner.{
  provision, provision_each, provision_one, installed, verify, record_installed, extend_components,
}
use clawstainer.Component.Provisioner.Outcome.{Reported, provision-Reported, provision-err}
use clawstainer.Output.{exit_code_for}
use clawstainer.Output.ExitStatus.{is_file_error, exit_code_for-code}
use clawstainer.Runtime.Nspawn.Caps.{resolve_caps_to_drop, contains-resolve_caps_to_drop}
use clawstainer.Examples.{example_runtime, example_components, example_sys, example_opts}

resolve_components-Resolves_example :
    Resolves example_components
      ("web" ∷ "git" ∷ [])
      []
      (resolve_components ("web" ∷ "git" ∷ []) example_components)
resolve_components-Resolves_example =
    resolve_components-Resolves ("web" ∷ "git" ∷ []) example_components

abbrev now : ℕ → ℕ
now t = t

abbrev git_ok : ComponentResult
git_ok = record { component = "git"; status = "ok"; error = none; duration_ms = 0 }

abbrev git_result : ProvisionResult
git_result = record { machine_id = "sb-a"; results = git_ok ∷ [] }

provision-Reported_example :
    Reported now example_runtime example_components "sb-a"
      ("git" ∷ [])
      example_sys.state
      git_result
      (provision now example_runtime example_components "sb-a" ("git" ∷ []) 60 example_sys).1.state
unfolding provision resolve_components resolve_name get contains_key provision_each push_new
    provision_one installed verify record_installed extend_components
provision-Reported_example =
    provision-Reported now example_runtime example_components "sb-a" ("git" ∷ []) 60 example_sys
      {result = git_result} refl

provision-err_example :
    (provision now example_runtime example_components "sb-a" ("vim" ∷ []) 60 example_sys).1.state
    ≡ example_sys.state
unfolding provision resolve_components resolve_name get contains_key
provision-err_example =
    provision-err now example_runtime example_components "sb-a" ("vim" ∷ []) 60 example_sys
      {e = claw (provision_failed "Unknown component or bundle: vim")} refl

contains-resolve_caps_to_drop_example :
    contains "CAP_NET_RAW" (resolve_caps_to_drop example_opts) ≡ true
contains-resolve_caps_to_drop_example = contains-resolve_caps_to_drop example_opts "CAP_NET_RAW"

exit_code_for-code_example :
    ((is_file_error (copy_failed "x") ≡ false)
      × (exit_code_for (code (copy_failed "x")) ≡ exit_code (copy_failed "x")))
    ⊎ ((is_file_error (copy_failed "x") ≡ true)
        × (exit_code_for (code (copy_failed "x")) ≡ 1)
        × (exit_code (copy_failed "x") ≢ 1))
exit_code_for-code_example = exit_code_for-code (copy_failed "x")
