-- ===== src/Lima/Machine.antt =====
-- The life of the virtual machine in src/lima.rs: create, start, stop, rebuild, recreate, the build
-- of the Linux binary in it, and the proxy. What goes to stderr is left out.
pub mod Kept
use clawstainer.Base.{
  String, Bool, true, false, not, ◌&&◌, ◌||◌, Option, none, some, List, [], ◌∷◌, ◌++◌, map,
  if◌then◌else◌,
}
use clawstainer.Base.Int.{ℤ, pos}
use clawstainer.Base.Text.{replace_text, trim}
use clawstainer.Errors.{other, Result, ok, err}
use clawstainer.Exec.{Exec, pure, fail, ignore, attempt, ◌>>=◌, ◌>>◌}
use clawstainer.Runtime.Host.{Output, success, ran_ok, context}
use clawstainer.Lima.{
  Json, Mac, VmStatus, SandboxSummary, exists, is_running, vm_status, ensure_limactl, must_succeed,
  text_field, text_or,
}
use clawstainer.Lima.Escape.{linux_binary, inner_command}
use clawstainer.Lima.Pid.{repair_stale_pid, path_join}
use Prim.Native.String.{◌++◌ as append}

-- A command inside the VM.
abbrev in_vm : List String → List String
in_vm cmd = "limactl" ∷ "shell" ∷ "clawstainer" ∷ "--" ∷ cmd

infixr 66 ◌^◌
abbrev ◌^◌ : String → String → String
a ^ b = append a b

unfoldable pub build_check : String → String → String → String
build_check project binary ts_file =
    "test -f '" ^ binary ^ "' && test -f '" ^ ts_file ^ "' && ! find '" ^ project ^ "/src' '"
    ^ project ^ "/Cargo.toml' '" ^ project ^ "/Cargo.lock' '" ^ project ^ "/components.yaml' '"
    ^ project ^ "/lima-clawstainer.yaml' -newer '" ^ ts_file
    ^ "' -print -quit 2>/dev/null | grep -q ."

unfoldable pub build_command : String → String
build_command project =
    "source \"$HOME/.cargo/env\" && cd '" ^ project
    ^ "' && CARGO_TARGET_DIR=/tmp/clawstainer-target cargo build --release 1>&2"

abbrev install_rust : String
install_rust =
    "which rustc || (curl --proto '=https' --tlsv1.2 -sSf https://sh.rustup.rs | sh -s -- -y) 1>&2"

abbrev start_command : List String
start_command = "limactl" ∷ "start" ∷ "clawstainer" ∷ []

abbrev stop_command : Bool → List String
stop_command force = "limactl" ∷ "stop" ∷ "clawstainer" ∷ (if force then "--force" ∷ [] else [])

abbrev exit_status : Option ℤ → ℤ
exit_status none = pos 1
exit_status (some code) = code

module _ {W : Type 0} (mac : Mac W) where
  abbrev build_timestamp : String → String
  build_timestamp project = project ^ "/target/.clawstainer-build-ts"

  unfoldable pub build_linux_binary : String → Exec W Unit
  build_linux_binary project = do
    ignore (mac.run (in_vm ("bash" ∷ "-c" ∷ install_rust ∷ [])))
    must_succeed mac "Failed to build Linux binary in VM" "Failed to build clawstainer for Linux"
        (in_vm ("bash" ∷ "-c" ∷ build_command project ∷ []))
    ignore (mac.run (in_vm ("touch" ∷ build_timestamp project ∷ [])))

  unfoldable pub ensure_linux_binary : String → String → Exec W Unit
  ensure_linux_binary project binary = do
    let check_cmd = build_check project binary (build_timestamp project)
    check ← attempt (mac.run (in_vm ("bash" ∷ "-c" ∷ check_cmd ∷ [])))
    if ran_ok check then pure tt else build_linux_binary project

  unfoldable pub install_binary_in_vm : Exec W Unit
  install_binary_in_vm = do
    ensure_linux_binary mac.project_dir linux_binary
    ignore (
        mac.run (
          in_vm (
            "bash"
            ∷ "-c"
            ∷ ("sudo ln -sf '" ^ linux_binary ^ "' /usr/local/bin/clawstainer")
            ∷ [])))

  abbrev config_path : String
  config_path = path_join mac.temp_dir "clawstainer-lima.yaml"

  unfoldable pub create_vm : Exec W Unit
  create_vm = do
    let config = replace_text "__PROJECT_DIR__" mac.project_dir mac.config
    context "Failed to write Lima config" (mac.write config_path config)
    must_succeed mac "Failed to create Lima VM" "Failed to create Lima VM"
        ("limactl" ∷ "create" ∷ "--name" ∷ "clawstainer" ∷ config_path ∷ [])
    must_succeed mac "Failed to start Lima VM" "Failed to start Lima VM" start_command
    ignore (mac.remove_file config_path)

  module _ (json : Json) where
    abbrev pub set_up : Exec W VmStatus
    set_up = do create_vm; install_binary_in_vm; vm_status mac json

    abbrev start_existing : Bool → Exec W Unit
    start_existing running =
        if running
        then pure tt
        else must_succeed mac "Failed to start Lima VM" "Failed to start Lima VM" start_command

    unfoldable pub start_vm : Exec W VmStatus
    start_vm = do
      ensure_limactl mac
      repaired ← repair_stale_pid mac json
      status ← vm_status mac json
      if exists status then start_existing (is_running status) >> vm_status mac json else set_up

    abbrev stop_running : Bool → Exec W VmStatus
    stop_running force = do
      must_succeed mac "Failed to stop Lima VM" "Failed to stop Lima VM" (stop_command force)
      vm_status mac json

    unfoldable pub stop_vm : Bool → Exec W VmStatus
    stop_vm force = do
      status ← vm_status mac json
      if not (exists status) || not (is_running status) then pure status else stop_running force

    unfoldable pub rebuild_vm : Exec W VmStatus
    rebuild_vm = do
      started ← start_vm
      must_succeed mac "Failed to remove the cached Linux clawstainer binary"
          "Failed to remove the cached Linux clawstainer binary"
          (in_vm ("rm" ∷ "-f" ∷ linux_binary ∷ []))
      ensure_linux_binary mac.project_dir linux_binary
      vm_status mac json

    abbrev summary : json.Value → SandboxSummary
    summary v = record {
      id = text_or json "unknown" (text_field json v "id");
      name = text_or json "unknown" (text_field json v "name");
      status = text_or json "unknown" (text_field json v "status");
    }

    abbrev summaries : Option (List json.Value) → Exec W (List SandboxSummary)
    summaries none = fail (other "Lima returned invalid sandbox state")
    summaries (some values) = pure (map summary values)

    unfoldable pub inspect_sandboxes : Exec W (List SandboxSummary)
    inspect_sandboxes = do
      started ← start_vm
      ensure_linux_binary mac.project_dir linux_binary
      output ← context "Failed to inspect sandboxes inside the Lima VM" (
          mac.run (
            in_vm ("sudo" ∷ linux_binary ∷ "list" ∷ "--status" ∷ "all" ∷ "--format" ∷ "json" ∷ [])))
      if success output
          then summaries (json.list_from_str output.stdout)
          else fail (
              other
                (append "Failed to inspect sandboxes inside the Lima VM: " (trim output.stderr)))

    unfoldable pub list_vm_sandboxes : Exec W (List SandboxSummary)
    list_vm_sandboxes = do
      status ← vm_status mac json
      if exists status then inspect_sandboxes else pure []

    unfoldable pub delete_vm : Exec W Unit
    delete_vm = do
      repaired ← repair_stale_pid mac json
      must_succeed mac "Failed to delete Lima VM" "Failed to delete Lima VM"
          ("limactl" ∷ "delete" ∷ "--force" ∷ "--yes" ∷ "clawstainer" ∷ [])

    unfoldable pub recreate_vm : Exec W VmStatus
    recreate_vm = do
      status ← vm_status mac json
      (if exists status then delete_vm else pure tt)
      set_up

    -- The exit status of the process.
    unfoldable pub proxy_to_vm : List String → Exec W ℤ
    proxy_to_vm args = do
      started ← start_vm
      ensure_linux_binary mac.project_dir linux_binary
      output ←
          context "Failed to execute command in Lima VM. Is Lima installed? (brew install lima)"
            (mac.run (in_vm ("bash" ∷ "-c" ∷ inner_command args ∷ [])))
      pure (exit_status output.code)
