-- ===== src/Commands/Machine.antt =====
-- src/commands/exec.rs, shell.rs, create.rs and provision.rs: the commands on one machine. The result
-- of each is what it prints when it succeeds.
use clawstainer.Base.{ℕ, String, Bool, Option, none, some, List, [], ◌∷◌, map}
use clawstainer.Base.Map.{Map, insert}
use clawstainer.Base.Text.{split, split_once, trim}
use clawstainer.Component.{ComponentsFile, ProvisionResult}
use clawstainer.Component.Provisioner.{provision}
use clawstainer.Errors.{claw, provision_failed, Result}
use clawstainer.Exec.{Exec, pure, fail, lift, ◌>>=◌, ◌>>◌}
use clawstainer.ExecLog.{LogHost, append}
use clawstainer.Runtime.{Runtime, CreateOpts, ExecOpts, ExecResult, MachineInfo}
use clawstainer.State.Reconcile.{get_running_machine_live}
use clawstainer.State.Store.{Sys, on_host}

pub record ExecArgs : Type 0 where
  pub machine_id : String
  pub command : String
  pub timeout : ℕ
  pub workdir : String
  pub envs : List String
  pub user : String

pub record CreateArgs : Type 0 where
  pub name : Option String
  pub memory : ℕ
  pub cpus : ℕ
  pub network : String
  pub timeout : ℕ
  pub runtime : String
  pub security : String
  pub cap_add : Option String
  pub cap_drop : Option String
  pub env_file : Option String
  pub from_snapshot : Option String
  pub linger : Bool

pub record ProvisionArgs : Type 0 where
  pub machine_id : String
  pub components : Option String
  pub file : Option String
  pub timeout : ℕ

-- `if let Some((k, v)) = e.split_once('=') { env.insert(k, v) }`, in the order of the arguments.
abbrev set_env : Option (String × String) → Map String → Map String
set_env none env = env
set_env (some (k, v)) env = insert k v env

unfoldable pub env_from : Map String → List String → Map String
env_from env [] = env
env_from env (e ∷ envs) = env_from (set_env (split_once b'=' e) env) envs

unfoldable pub exec_opts : ExecArgs → ExecOpts
exec_opts args = record {
  command = args.command;
  timeout = args.timeout;
  workdir = args.workdir;
  env = env_from [] args.envs;
  user = args.user;
}

unfoldable pub split_list : String → List String
split_list s = map trim (split b',' s)

abbrev list_or_empty : Option String → List String
list_or_empty none = []
list_or_empty (some s) = split_list s

unfoldable pub create_opts : CreateArgs → CreateOpts
create_opts args = record {
  name = args.name;
  memory_mb = args.memory;
  cpus = args.cpus;
  network = args.network;
  timeout = args.timeout;
  runtime = args.runtime;
  security = args.security;
  cap_add = list_or_empty args.cap_add;
  cap_drop = list_or_empty args.cap_drop;
  env_file = args.env_file;
  from_snapshot = args.from_snapshot;
  linger = args.linger;
}

module _ {W : Type 0} (runtime : Runtime W) where
  unfoldable pub exec_run : LogHost W → ExecArgs → Exec (Sys W) ExecResult
  exec_run log args = do
    machine ← get_running_machine_live args.machine_id runtime
    result ← on_host (runtime.exec args.machine_id (exec_opts args))
    on_host (append log args.machine_id args.command result)
    pure result

  unfoldable pub shell_run : String → String → Exec (Sys W) Unit
  shell_run machine_id user = do
    machine ← get_running_machine_live machine_id runtime
    on_host (runtime.shell machine_id user)

  unfoldable pub create_run : CreateArgs → Exec (Sys W) MachineInfo
  create_run args = runtime.create (create_opts args)

  -- The list of a file is read by serde_yaml: a parameter.
  abbrev component_names :
      (String → Exec W (List String)) → Option String → Option String → Exec (Sys W) (List String)
  component_names read_list (some components) file = pure (split_list components)
  component_names read_list none (some file) = on_host (read_list file)
  component_names read_list none none =
      fail (claw (provision_failed "Either --components or --file must be specified"))

  unfoldable pub provision_run :
      (W → ℕ)
      → (String → Exec W (List String))
      → Result ComponentsFile
      → ProvisionArgs
      → Exec (Sys W) ProvisionResult
  provision_run now_ms read_list load args = do
    names ← component_names read_list args.components args.file
    file ← lift load
    provision now_ms runtime file args.machine_id names args.timeout
