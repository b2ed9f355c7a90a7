-- ===== src/Image/Rootfs.antt =====
-- src/firecracker/rootfs.rs: the ext4 image of the microVMs, with the guest agent in it, and the
-- copy for one machine.
use clawstainer.Base.{String, List, [], ◌∷◌, if◌then◌else◌}
use clawstainer.Errors.{other, ok, err}
use clawstainer.Exec.{Exec, pure, fail, ignore, attempt, ◌>>=◌, ◌>>◌}
use clawstainer.Image.Bootstrap.{ensure_base_image}
use clawstainer.Image.Paths.{FileHost, ◌^◌, ◌//◌, machine_dir, firecracker_dir, run_or}
use clawstainer.Runtime.Host.{success, context, ran_ok}

abbrev agent_service : String
agent_service =
    "[Unit]\nDescription=Clawstainer Guest Agent\nAfter=network.target\n\n[Service]\nType=simple\nExecStart=/usr/local/bin/claw-agent\nRestart=always\nRestartSec=1\n\n[Install]\nWantedBy=multi-user.target\n"

abbrev agent_path : String
agent_path = firecracker_dir // "bin/claw-agent"

abbrev base_ext4 : String
base_ext4 = firecracker_dir // "base-rootfs.ext4"

abbrev mnt : String
mnt = firecracker_dir // "mnt"

abbrev no_agent : String
no_agent =
    "claw-agent binary not found. Build it with:\n  cargo build --release --bin claw-agent\n  (or inside Lima: CARGO_TARGET_DIR=target-linux cargo build --release --bin claw-agent)"

module _ {W : Type 0} (files : FileHost W) where
  abbrev copy_agent : String → Exec W String
  copy_agent from = do
    context "Failed to copy claw-agent binary" (files.copy from agent_path)
    pure agent_path

  abbrev linux_agent : String
  linux_agent = files.project_dir // "target-linux/release/claw-agent"

  abbrev local_agent : String
  local_agent = files.project_dir // "target/release/claw-agent"

  unfoldable pub find_agent : Exec W String
  find_agent w =
      if files.exists linux_agent w
      then copy_agent linux_agent w
      else if files.exists local_agent w
      then copy_agent local_agent w
      else (err (other no_agent), w)

  unfoldable pub ensure_agent_binary : Exec W String
  ensure_agent_binary w =
      if files.exists agent_path w
      then (ok agent_path, w)
      else (files.create_dir_all (firecracker_dir // "bin") >> find_agent) w

  -- A command on the new image: when it has failed, the image goes.
  abbrev undo : String → Exec W Unit
  undo failed = do ignore (files.remove_file base_ext4); fail (other failed)

  unfoldable pub run_or_undo : String → String → List String → Exec W Unit
  run_or_undo not_run failed cmd = do
    o ← context not_run (files.run cmd)
    if success o then pure tt else undo failed

  abbrev unlink : String → Exec W Unit
  unlink path w = if files.is_symlink path w then ignore (files.remove_file path) w else (ok tt, w)

  unfoldable pub inject_agent : String → Exec W Unit
  inject_agent agent = do
    ignore (files.create_dir_all (mnt // "usr/local/bin"))
    ignore (files.copy agent (mnt // "usr/local/bin/claw-agent"))
    ignore (files.run ("chmod" ∷ "+x" ∷ (mnt // "usr/local/bin/claw-agent") ∷ []))
    ignore (files.create_dir_all (mnt // "etc/systemd/system"))
    ignore (files.write (mnt // "etc/systemd/system/claw-agent.service") agent_service)
    ignore (files.create_dir_all (mnt // "etc/systemd/system/multi-user.target.wants"))
    ignore (
        files.symlink "/etc/systemd/system/claw-agent.service"
          (mnt // "etc/systemd/system/multi-user.target.wants/claw-agent.service"))
    unlink (mnt // "etc/resolv.conf")
    ignore (files.write (mnt // "etc/resolv.conf") "nameserver 8.8.8.8\nnameserver 8.8.4.4\n")

  unfoldable pub fill_image : String → String → Exec W String
  fill_image base_dir agent = do
    copied ← attempt (files.run ("cp" ∷ "-a" ∷ (base_dir ^ "/.") ∷ mnt ∷ []))
    (if ran_ok copied then inject_agent agent else pure tt)
    ignore (files.run ("umount" ∷ mnt ∷ []))
    ignore (files.remove_dir mnt)
    (if ran_ok copied then pure tt else undo "Failed to copy base image to ext4")
    pure base_ext4

  unfoldable pub build_ext4 : Exec W String
  build_ext4 = do
    base_dir ← ensure_base_image files
    agent ← ensure_agent_binary
    run_or_undo "Failed to create rootfs image" "Failed to create rootfs image"
        ("dd" ∷ "if=/dev/zero" ∷ ("of=" ^ base_ext4) ∷ "bs=1M" ∷ "count=2048" ∷ [])
    run_or_undo "Failed to format rootfs as ext4" "Failed to format rootfs"
        ("mkfs.ext4" ∷ "-F" ∷ base_ext4 ∷ [])
    files.create_dir_all mnt
    run_or_undo "Failed to mount rootfs image" "Failed to mount rootfs image"
        ("mount" ∷ base_ext4 ∷ mnt ∷ [])
    fill_image base_dir agent

  unfoldable pub ensure_base_ext4 : Exec W String
  ensure_base_ext4 w = if files.exists base_ext4 w then (ok base_ext4, w) else build_ext4 w

  unfoldable pub create_vm_rootfs : String → Exec W String
  create_vm_rootfs id = do
    base ← ensure_base_ext4
    files.create_dir_all (machine_dir id)
    let vm_rootfs = machine_dir id // "rootfs.ext4"
    run_or files "Failed to copy rootfs for VM" (other "Failed to create VM rootfs")
        ("cp" ∷ "--sparse=always" ∷ base ∷ vm_rootfs ∷ [])
    pure vm_rootfs

  unfoldable pub cleanup_vm_rootfs : String → Exec W Unit
  cleanup_vm_rootfs id w =
      if files.exists (machine_dir id) w
      then context "Failed to remove VM directory" (files.remove_dir_all (machine_dir id)) w
      else (ok tt, w)
