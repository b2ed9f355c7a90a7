-- ===== src/Runtime/Firecracker/Create.antt =====
-- `FirecrackerRuntime::create` of src/runtime/firecracker.rs. The waits for the API and for the guest
-- agent, of src/firecracker/api.rs and vsock.rs, are fields of the parameter `Guest`, which
-- Runtime/Firecracker/Client fills.
pub mod Consistent
pub mod Failed
use Prim.Native.String.{◌++◌}
use clawstainer.Base.{
  ℕ, ◌^◌, String, Bool, true, false, Option, none, some, List, [], ◌∷◌, ◌==◌, if◌then◌else◌,
}
use clawstainer.Base.Decimal.{decimal}
use clawstainer.Base.Map.{Map, is_some}
use clawstainer.Base.Text.{split, parse_uint}
use clawstainer.Errors.{claw, create_failed, Failure, display, Result, ok, err}
use clawstainer.Exec.{Exec, pure, fail, ignore, map_err, ◌>>=◌, ◌>>◌}
use clawstainer.State.{Machine}
use clawstainer.State.Store.{Sys, with_lock, on_host}
use clawstainer.Runtime.{CreateOpts, MachineInfo, require_linux}
use clawstainer.Runtime.Naming.{generate_id, tap_name, hex}
use clawstainer.Runtime.Host.{Host, random_word, create_tap}
use clawstainer.Runtime.Images.{Images}
use clawstainer.Runtime.Nspawn.Create.{
  machine_name, setup_network, allocate_ip, insert_machine, machine_info,
}
use clawstainer.Runtime.Firecracker.{
  Api, ApiResponse, is_success, Value, text, number, boolean, socket_path, vsock_path,
}

pub record Guest (W : Type 0) : Type 0 where
  pub wait_for_ready : String → ℕ → Exec W Unit
  pub wait_for_agent : String → ℕ → Exec W Unit

-- `i.split('.').last().unwrap_or("2").parse::<u8>().unwrap_or(2)`
abbrev last_part : List String → String
last_part [] = "2"
last_part (part ∷ []) = part
last_part (part ∷ next ∷ parts) = last_part (next ∷ parts)

abbrev octet_or_two : Option ℕ → ℕ
octet_or_two none = 2
octet_or_two (some octet) = octet

unfoldable pub mac_octet : Option String → ℕ
unfolding split parse_uint
mac_octet none = 2
mac_octet (some ip) = octet_or_two (parse_uint (2 ^ 8) (last_part (split b'.' ip)))

unfoldable pub guest_mac : Option String → String
unfolding mac_octet hex
guest_mac ip = "AA:FC:00:00:00:" ++ hex 2 (mac_octet ip)

unfoldable pub boot_args : Option String → String
boot_args none = "console=ttyS0 reboot=k panic=1 pci=off"
boot_args (some ip) =
    "console=ttyS0 reboot=k panic=1 pci=off ip=" ++ ip ++ "::10.0.0.1:255.255.255.0::eth0:off"

abbrev pub new_vm : String → String → String → Option String → CreateOpts → ℕ × ℕ → Machine
new_vm id name rootfs ip opts (pid, now) = record {
  id = id;
  name = name;
  status = "running";
  pid = some pid;
  ip = ip;
  memory_mb = opts.memory_mb;
  cpus = opts.cpus;
  network = opts.network;
  created_at = now;
  components = [];
  timeout = opts.timeout;
  root_path = rootfs;
  runtime = "firecracker";
  security = opts.security;
  has_env_file = is_some opts.env_file;
  linger = opts.linger;
  fleet_name = none;
}

-- `.map_err(|e| ClawError::CreateFailed(format!("…: {e}")))`
abbrev pub or_create_failed : {S A : Type 0} → String → Exec S A → Exec S A
or_create_failed what m = map_err (λ e. claw (create_failed (what ++ ": " ++ display e))) m

module _ {W : Type 0} (host : Host W) (api : Api W) (guest : Guest W) (images : Images W) where
  -- A request that has to succeed.
  unfoldable pub require_put : String → String → Map Value → String → Exec W Unit
  require_put socket path body failed = do
    resp ← api.put socket path body
    if is_success resp then pure tt else fail (claw (create_failed (failed ++ ": " ++ resp.body)))

  -- Only with NAT networking.
  unfoldable pub put_network : String → String → Option String → Exec W Unit
  put_network id network ip =
      if network == "nat"
      then require_put (socket_path id) "/network-interfaces/eth0"
          (("iface_id", text "eth0")
            ∷ ("guest_mac", text (guest_mac ip))
            ∷ ("host_dev_name", text (tap_name id))
            ∷ [])
          "Failed to set network"
      else pure tt

  unfoldable pub configure_vm : String → String × String → Option String → CreateOpts → Exec W Unit
  configure_vm id (kernel_path, rootfs) ip opts = do
    require_put (socket_path id) "/boot-source"
        (("kernel_image_path", text kernel_path) ∷ ("boot_args", text (boot_args ip)) ∷ [])
        "Failed to set boot source"
    require_put (socket_path id) "/drives/rootfs"
        (("drive_id", text "rootfs")
          ∷ ("path_on_host", text rootfs)
          ∷ ("is_root_device", boolean true)
          ∷ ("is_read_only", boolean false)
          ∷ [])
        "Failed to set drive"
    put_network id opts.network ip
    require_put (socket_path id) "/machine-config"
        (("vcpu_count", number opts.cpus) ∷ ("mem_size_mib", number opts.memory_mb) ∷ [])
        "Failed to set machine config"
    require_put (socket_path id) "/vsock"
        (("vsock_id", text "1") ∷ ("guest_cid", number 3) ∷ ("uds_path", text (vsock_path id)) ∷ [])
        "Failed to set vsock"
    require_put (socket_path id) "/actions" (("action_type", text "InstanceStart") ∷ [])
        "Failed to start VM"

  -- From the launch of the process to the answer of the guest agent: the process id and the time.
  unfoldable pub boot_vm :
      String → String → String × String → Option String → CreateOpts → Exec W (ℕ × ℕ)
  boot_vm id fc_bin paths ip opts = do
    ignore (host.remove_file (socket_path id))
    pid ←
        or_create_failed "Failed to start Firecracker"
          (host.spawn (fc_bin ∷ "--api-sock" ∷ socket_path id ∷ []))
    now ← λ w. (ok (host.utc_now w), w)
    or_create_failed "Firecracker API not ready" (guest.wait_for_ready (socket_path id) 5000)
    configure_vm id paths ip opts
    or_create_failed "Guest agent not reachable" (guest.wait_for_agent (vsock_path id) 10000)
    pure (pid, now)

  unfoldable pub allocated_vm_ip : String → Exec (Sys W) (Option String)
  allocated_vm_ip id = do
    on_host (setup_network host images)
    ip ← with_lock (allocate_ip host images id)
    on_host (or_create_failed "TAP setup failed" (create_tap host (tap_name id)))
    pure (some ip)

  unfoldable pub assign_vm_ip : String → String → Exec (Sys W) (Option String)
  assign_vm_ip network id = if network == "nat" then allocated_vm_ip id else pure none

  unfoldable pub create : CreateOpts → Exec (Sys W) MachineInfo
  create opts = do
    require_linux host.os
    word ← on_host (random_word host)
    let id = generate_id word
    name ← on_host (machine_name host images opts.name)
    assets ← on_host (or_create_failed "Asset setup failed" images.ensure_assets)
    rootfs ← on_host (or_create_failed "Rootfs creation failed" (images.create_vm_rootfs id))
    ip ← assign_vm_ip opts.network id
    booted ← on_host (boot_vm id assets.0 (assets.1, rootfs) ip opts)
    let machine = new_vm id name rootfs ip opts booted
    with_lock (insert_machine host images id machine)
    pure (machine_info host images id name ip booted.1)
