-- ===== src/Runtime/Nspawn/Create.antt =====
-- `NspawnRuntime::create` of src/runtime/nspawn.rs. The thread that it starts for `--timeout` is left
-- out: it ends with the process.
pub mod Consistent
pub mod Failed
use Prim.Native.String.{◌++◌}
use mathlib.Core.List.{◌++◌ as append}
use clawstainer.Base.{
  ℕ, ◌*◌, ◌%◌, ◌^◌, String, Bool, true, false, ◌||◌, List, [], ◌∷◌, ◌==◌, if◌then◌else◌, Option,
  none, some,
}
use clawstainer.Base.Decimal.{decimal}
use clawstainer.Base.Map.{insert, is_some}
use clawstainer.Base.Text.{join}
use clawstainer.Errors.{claw, create_failed, Failure, Result, ok, err, display}
use clawstainer.Exec.{Exec, pure, fail, lift, map_err, ◌>>=◌, ◌>>◌}
use clawstainer.Network.{allocate, NetworkState}
use clawstainer.State.{Machine, State}
use clawstainer.State.Store.{Sys, with_lock, on_host}
use clawstainer.Runtime.{CreateOpts, MachineInfo, require_linux}
use clawstainer.Runtime.Host.{Host, random_word, ensure_bridge, ensure_nat}
use clawstainer.Runtime.Images.{Images}
use clawstainer.Runtime.Naming.{generate_id, generate_name}
use clawstainer.Runtime.Nspawn.Caps.{resolve_caps_to_drop}
use clawstainer.Runtime.Nspawn.Env.{
  inject_env_file, configure_container_network, wait_for_machine_fully_ready,
}

-- The arguments of the security profile.
unfoldable pub security_args : String → List String → List String
unfolding join
security_args security caps_to_drop =
    append
      (elim caps_to_drop [ [] ↦ [] | c ∷ cs ↦ ("--drop-capability=" ++ join "," (c ∷ cs)) ∷ [] ])
      (if security == "strict" then "--no-new-privileges=true" ∷ [] else [])

unfoldable pub network_args : String → List String
network_args network =
    if network == "nat"
    then "--network-veth" ∷ "--network-bridge=claw-br0" ∷ []
    else "--private-network" ∷ []

-- The command line of systemd-nspawn. `cpus * 100` is a product of `u32`.
unfoldable pub nspawn_command : String → String → CreateOpts → List String
unfolding security_args network_args decimal resolve_caps_to_drop
nspawn_command id root_path opts =
    append
      ("systemd-nspawn"
        ∷ "--boot"
        ∷ ("--machine=" ++ id)
        ∷ "-D"
        ∷ root_path
        ∷ "--register=yes"
        ∷ ("--property=MemoryMax=" ++ decimal opts.memory_mb ++ "M")
        ∷ ("--property=CPUQuota=" ++ decimal (opts.cpus * 100 % 2 ^ 32) ++ "%")
        ∷ ("--tmpfs=/tmp:mode=1777,size=" ++ decimal opts.memory_mb ++ "M")
        ∷ [])
      (append (security_args opts.security (resolve_caps_to_drop opts)) (network_args opts.network))

module _ {W : Type 0} (host : Host W) (images : Images W) where
  -- `opts.name.unwrap_or_else(generate_name)`
  unfoldable pub machine_name : Option String → Exec W String
  unfolding generate_name
  machine_name (some name) w = (ok name, w)
  machine_name none w =
      let (indices, w') = host.random_indices w in (ok (generate_name indices.0 indices.1), w')

  unfoldable pub extract_snapshot : Option String → Exec W (Option String)
  unfolding ◌>>=◌ pure
  extract_snapshot none = pure none
  extract_snapshot (some name) = do dir ← images.extract name; pure (some dir)

  unfoldable pub enable_linger : Bool → String → Exec W Unit
  unfolding ◌>>=◌ pure map_err display
  enable_linger false root_path = pure tt
  enable_linger true root_path = do
    map_err (λ e. claw (create_failed ("Failed to create linger dir: " ++ display e)))
        (host.create_dir_all (root_path ++ "/var/lib/systemd/linger"))
    map_err (λ e. claw (create_failed ("Failed to enable linger: " ++ display e)))
        (host.create_file (root_path ++ "/var/lib/systemd/linger/root"))

  -- What is done on the host before the address is allocated.
  unfoldable pub prepare_root : String → CreateOpts → Exec W String
  unfolding ◌>>=◌ pure extract_snapshot enable_linger
  prepare_root id opts = do
    base_path ← images.ensure_base_image
    snapshot_dir ← extract_snapshot opts.from_snapshot
    root_path ← images.setup id base_path snapshot_dir
    enable_linger opts.linger root_path
    pure root_path

  -- The closure that allocates: a step on the network of the state.
  unfoldable pub allocate_ip : String → Exec (Sys W) String
  allocate_ip id s =
      let (r, network) = allocate id s.state.network in
      (r, record s { state = record s.state { network = network } })

  unfoldable pub setup_network : Exec W Unit
  unfolding ◌>>=◌ ensure_bridge ensure_nat
  setup_network = do ensure_bridge host; ensure_nat host

  unfoldable pub allocated : String → Exec (Sys W) (Option String)
  allocated id = do on_host setup_network; ip ← with_lock (allocate_ip id); pure (some ip)

  unfoldable pub assign_ip : String → String → Exec (Sys W) (Option String)
  unfolding pure
  assign_ip network id = if network == "nat" then allocated id else pure none

  unfoldable pub configure_network : String → Option String → Exec W Unit
  unfolding pure configure_container_network
  configure_network id none = pure tt
  configure_network id (some ip) = configure_container_network host id ip

  unfoldable pub inject_env : String → Option String → Exec W Bool
  unfolding ◌>>=◌ pure inject_env_file
  inject_env id none = pure false
  inject_env id (some env_file_path) = do inject_env_file host id env_file_path; pure true

  -- From the launch of the container to its being ready: its process id, the time, and whether an
  -- environment file was injected.
  unfoldable pub boot : String → String → Option String → CreateOpts → Exec W (ℕ × ℕ × Bool)
  unfolding ◌>>=◌ pure map_err display nspawn_command wait_for_machine_fully_ready configure_network
      inject_env
  boot id root_path ip opts = do
    pid ←
        map_err (λ e. claw (create_failed ("Failed to launch systemd-nspawn: " ++ display e)))
          (host.spawn (nspawn_command id root_path opts))
    now ← λ w. (ok (host.utc_now w), w)
    wait_for_machine_fully_ready host id (is_some ip || is_some opts.env_file)
    configure_network id ip
    has_env_file ← inject_env id opts.env_file
    pure (pid, now, has_env_file)

  abbrev pub new_machine :
      String → String → String → Option String → CreateOpts → ℕ × ℕ × Bool → Machine
  new_machine id name root_path ip opts (pid, now, has_env_file) = record {
    id = id;
    name = name;
    status = "running";
    pid = some pid;
    ip = ip;
    memory_mb = opts.memory_mb;
    cpus = opts.cpus;
    network = opts.network;
    created_at = now;
    components = [];
    timeout = opts.timeout;
    root_path = root_path;
    runtime = "nspawn";
    security = opts.security;
    has_env_file = has_env_file;
    linger = opts.linger;
    fleet_name = none;
  }

  unfoldable pub insert_machine : String → Machine → Exec (Sys W) Unit
  insert_machine id machine s =
      (ok tt, record s { state = record s.state { machines = insert id machine s.state.machines } })

  -- Of the locals of `create`, not of the stored machine.
  abbrev pub machine_info : String → String → Option String → ℕ → MachineInfo
  machine_info id name ip now = record {
    id = id;
    name = name;
    status = "running";
    ip = ip;
    created_at = now;
  }

  unfoldable pub create : CreateOpts → Exec (Sys W) MachineInfo
  create opts = do
    require_linux host.os
    word ← on_host (random_word host)
    let id = generate_id word
    name ← on_host (machine_name opts.name)
    root_path ← on_host (prepare_root id opts)
    ip ← assign_ip opts.network id
    booted ← on_host (boot id root_path ip opts)
    let machine = new_machine id name root_path ip opts booted
    with_lock (insert_machine id machine)
    pure (machine_info id name ip booted.1)
