-- ===== src/Runtime/Nspawn/Env.antt =====
-- `inject_env_file`, `configure_container_network` and the readiness polls of src/runtime/nspawn.rs.
use Prim.Native.String.{◌++◌}
use clawstainer.Base.{
  String, Bool, false, not, ◌&&◌, ◌||◌, List, [], ◌∷◌, map, ◌==◌, keep_if, if◌then◌else◌,
}
use clawstainer.Base.Text.{trim, has_char, lines, join, replace, has_text, strip_prefix}
use clawstainer.Base.Map.{is_some}
use clawstainer.Errors.{claw, create_failed, Result, ok, err, display}
use clawstainer.Exec.{Exec, pure, fail, map_err, ◌>>=◌, ◌>>◌}
use clawstainer.Runtime.Host.{Host, Output, success, context, poll_command, ran_ok}

-- The lines of the file that are kept: trimmed, no blanks, no comments, with an equals sign.
unfoldable pub is_setting : String → Bool
unfolding has_char strip_prefix
is_setting trimmed =
    not ((trimmed == "") || is_some (strip_prefix "#" trimmed)) && has_char b'=' trimmed

unfoldable pub env_lines : String → List String
unfolding trim lines is_setting
env_lines contents = keep_if is_setting (map trim (lines contents))

-- A text between single quotes; each single quote in it is closed, escaped and opened again.
unfoldable pub single_quoted : String → String
unfolding replace
single_quoted l = "'" ++ replace b'\'' "'\\''" l ++ "'"

unfoldable pub env_command : List String → String
unfolding join single_quoted
env_command kept = "printf '%s\\n' " ++ join " " (map single_quoted kept) ++ " >> /etc/environment"

abbrev pub in_machine : String → String → List String
in_machine machine_id script =
    "systemd-run"
    ∷ ("--machine=" ++ machine_id)
    ∷ "--wait"
    ∷ "--pipe"
    ∷ "--collect"
    ∷ "--"
    ∷ "sh"
    ∷ "-c"
    ∷ script
    ∷ []

module _ {W : Type 0} (host : Host W) where
  -- Run a command and require that it succeeds; its standard error goes into the message.
  unfoldable pub run_or_fail : String → String → List String → Exec W Unit
  unfolding ◌>>=◌ pure fail map_err
  run_or_fail not_run failed cmd = do
    output ← context not_run (host.run cmd)
    if success output then pure tt else fail (claw (create_failed (failed ++ output.stderr)))

  -- Nothing is run when no line is kept.
  unfoldable pub append_settings : String → List String → Exec W Unit
  unfolding pure run_or_fail env_command
  append_settings machine_id [] = pure tt
  append_settings machine_id kept =
      run_or_fail "Failed to inject env file into container" "Failed to inject env file: "
        (in_machine machine_id (env_command kept))

  unfoldable pub inject_env_file : String → String → Exec W Unit
  unfolding ◌>>=◌ map_err append_settings env_lines
  inject_env_file machine_id env_file_path = do
    contents ←
        context ("Failed to read env file: " ++ env_file_path) (host.read_to_string env_file_path)
    append_settings machine_id (env_lines contents)

  unfoldable pub configure_container_network : String → String → Exec W Unit
  unfolding run_or_fail
  configure_container_network machine_id ip =
      run_or_fail "Failed to configure container networking"
        "Failed to configure container networking: "
        (in_machine machine_id (
          "ip link set host0 up && ip addr add " ++ ip
          ++ "/24 dev host0 && ip route add default via 10.0.0.1 && echo 'nameserver 8.8.8.8\nnameserver 8.8.4.4' > /etc/resolv.conf"))

  -- `.map_err(|e| ClawError::CreateFailed(e.to_string()))`
  abbrev as_create_failed : {S A : Type 0} → Exec S A → Exec S A
  as_create_failed m = map_err (λ e. claw (create_failed (display e))) m

  state_running : Result Output → Bool
  state_running (ok o) = has_text "State=running" o.stdout
  state_running (err e) = false

  unfoldable pub wait_for_machine_ready : String → Exec W Unit
  unfolding map_err display state_running poll_command
  wait_for_machine_ready machine_id = as_create_failed (
      poll_command host ("machinectl" ∷ "show" ∷ machine_id ∷ "--property=State" ∷ []) state_running
        50 1000 10000 ("Timed out waiting for machine " ++ machine_id ++ " to become ready"))

  unfoldable pub wait_for_exec_ready : String → Exec W Unit
  unfolding map_err display poll_command
  wait_for_exec_ready machine_id = as_create_failed (
      poll_command host
        ("systemd-run"
          ∷ ("--machine=" ++ machine_id)
          ∷ "--wait"
          ∷ "--pipe"
          ∷ "--collect"
          ∷ "--"
          ∷ "true"
          ∷ [])
        ran_ok 50 1000 10000 ("Timed out waiting for exec readiness in machine " ++ machine_id))

  unfoldable pub wait_for_machine_fully_ready : String → Bool → Exec W Unit
  unfolding ◌>>=◌ pure wait_for_machine_ready wait_for_exec_ready
  wait_for_machine_fully_ready machine_id needs_exec = do
    wait_for_machine_ready machine_id
    if needs_exec then wait_for_exec_ready machine_id else pure tt
