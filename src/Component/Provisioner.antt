-- ===== src/Component/Provisioner.antt =====
-- src/component/provisioner.rs: install and verify each component in a machine, and record those that
-- are there afterwards.
pub mod Extended
pub mod Outcome
use Prim.Native.String.{◌++◌}
use mathlib.Core.List.{◌++◌ as append}
use clawstainer.Base.{
  ℕ, ◌+◌, ◌-◌, String, Bool, true, false, Option, none, some, List, [], ◌∷◌, map, keep_if, ◌==◌,
  if◌then◌else◌,
}
use clawstainer.Base.Decimal.{decimal}
use clawstainer.Base.Int.{ℤ, pos, negsuc, is_zero}
use clawstainer.Base.Map.{Map, get}
use clawstainer.Base.Text.{trim}
use clawstainer.Component.{
  ComponentDef, ComponentsFile, ComponentResult, ProvisionResult, resolve_components,
}
use clawstainer.Errors.{other, Result, ok, err, display}
use clawstainer.Exec.{Exec, pure, fail, lift, attempt_or_unwind, ◌>>=◌, ◌>>◌}
use clawstainer.State.{Machine, State}
use clawstainer.State.Store.{Sys, with_lock, on_host, change_machine}
use clawstainer.Runtime.{Runtime, ExecOpts, ExecResult}

-- `{}` at `i32`
unfoldable pub decimal_int : ℤ → String
unfolding decimal
decimal_int (pos n) = decimal n
decimal_int (negsuc n) = "-" ++ decimal (n + 1)

abbrev pub install_env : Map String
install_env = ("DEBIAN_FRONTEND", "noninteractive") ∷ ("NONINTERACTIVE", "1") ∷ []

abbrev pub root_exec : String → ℕ → Map String → ExecOpts
root_exec command timeout env = record {
  command = command;
  timeout = timeout;
  workdir = "/root";
  env = env;
  user = "root";
}

abbrev pub timeout_or : Option ℕ → ℕ → ℕ
timeout_or none timeout = timeout
timeout_or (some t) timeout = t

abbrev pub installed_ok : String → ℕ → ComponentResult
installed_ok name duration_ms = record {
  component = name;
  status = "ok";
  error = none;
  duration_ms = duration_ms;
}

abbrev pub install_error : String → ℕ → String → ComponentResult
install_error name duration_ms msg = record {
  component = name;
  status = "error";
  error = some msg;
  duration_ms = duration_ms;
}

-- The result of the verify command.
unfoldable pub verified : String → ℕ → Result ExecResult → ComponentResult
verified name duration_ms (ok v) =
    if is_zero v.exit_code
    then installed_ok name duration_ms
    else install_error name duration_ms "verification failed"
verified name duration_ms (err e) = install_error name duration_ms "verification failed"

abbrev pub is_installed : ComponentResult → Bool
is_installed r = r.status == "ok"

abbrev pub installed_names : List ComponentResult → List String
installed_names results = map (λ r. r.component) (keep_if is_installed results)

module _ {W : Type 0} (now_ms : W → ℕ) (runtime : Runtime W) (file : ComponentsFile) where
  unfoldable pub verify : String → String → ComponentDef → ℕ → Exec W ComponentResult
  unfolding ◌>>=◌ attempt_or_unwind pure verified
  verify machine_id name def duration_ms = do
    v ← attempt_or_unwind (runtime.exec machine_id (root_exec def.verify 30 []))
    pure (verified name duration_ms v)

  -- The result of the install command; only a success is verified.
  unfoldable pub installed :
      String → String → ComponentDef → ℕ → Result ExecResult → Exec W ComponentResult
  unfolding pure decimal_int trim display
  installed machine_id name def duration_ms (ok r) =
      if is_zero r.exit_code
      then verify machine_id name def duration_ms
      else pure (
          install_error name duration_ms
            ("install failed (exit code " ++ decimal_int r.exit_code ++ "): " ++ trim r.stderr))
  installed machine_id name def duration_ms (err e) =
      pure (install_error name duration_ms ("exec failed: " ++ display e))

  unfoldable pub provision_one : String → String → ComponentDef → ℕ → Exec W ComponentResult
  unfolding ◌>>=◌ attempt_or_unwind
  provision_one machine_id name def timeout = do
    start ← λ w. (ok (now_ms w), w)
    exec_result ← attempt_or_unwind (
        runtime.exec machine_id
          (root_exec def.install (timeout_or def.timeout timeout) install_env))
    duration_ms ← λ w. (ok (now_ms w - start), w)
    installed machine_id name def duration_ms exec_result

  -- `.ok_or_else(|| anyhow!("Unknown component: {name}"))?`
  abbrev known : Option ComponentDef → String → Result ComponentDef
  known none name = err (other ("Unknown component: " ++ name))
  known (some def) name = ok def

  unfoldable pub provision_each : String → ℕ → List String → Exec W (List ComponentResult)
  unfolding ◌>>=◌ lift pure
  provision_each machine_id timeout [] = pure []
  provision_each machine_id timeout (name ∷ names) = do
    def ← lift (known (get name file.components) name)
    result ← provision_one machine_id name def timeout
    results ← provision_each machine_id timeout names
    pure (result ∷ results)

  -- The closure that extends the list of components, skipped when nothing was installed.
  unfoldable pub extend_components : String → List String → Exec (Sys W) Unit
  extend_components machine_id names s = (
    ok tt,
    change_machine machine_id (λ m. record m { components = append m.components names }) s,
  )

  unfoldable pub record_installed : String → List String → Exec (Sys W) Unit
  unfolding pure with_lock
  record_installed machine_id [] = pure tt
  record_installed machine_id (name ∷ names) =
      with_lock (extend_components machine_id (name ∷ names))

  unfoldable pub provision : String → List String → ℕ → Exec (Sys W) ProvisionResult
  unfolding ◌>>=◌ lift pure on_host
  provision machine_id component_names timeout = do
    resolved ← lift (resolve_components component_names file)
    results ← on_host (provision_each machine_id timeout resolved)
    record_installed machine_id (installed_names results)
    pure (record { machine_id = machine_id; results = results })
