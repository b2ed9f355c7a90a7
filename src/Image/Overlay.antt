-- ===== src/Image/Overlay.antt =====
-- src/image/overlay.rs: the overlay file system of a machine.
pub mod Gone
use clawstainer.Base.{String, Bool, Option, none, some, List, [], ◌∷◌, if◌then◌else◌}
use clawstainer.Errors.{other}
use clawstainer.Exec.{Exec, pure, ignore, attempt, ◌>>=◌, ◌>>◌}
use clawstainer.Image.Paths.{FileHost, ◌^◌, ◌//◌, machine_dir, run_or}
use clawstainer.Runtime.Host.{context, ran_ok}

abbrev lower_dir : String → Option String → String
lower_dir base_path none = base_path
lower_dir base_path (some snapshot) = snapshot ^ ":" ^ base_path

module _ {W : Type 0} (files : FileHost W) where
  unfoldable pub setup : String → String → Option String → Exec W String
  setup id base_path snapshot_path = do
    let upper = machine_dir id // "upper"
    let work = machine_dir id // "work"
    let merged = machine_dir id // "rootfs"
    context "Failed to create overlay upper dir" (files.create_dir_all upper)
    context "Failed to create overlay work dir" (files.create_dir_all work)
    context "Failed to create overlay merged dir" (files.create_dir_all merged)
    let mount_opts =
        "lowerdir=" ^ lower_dir base_path snapshot_path ^ ",upperdir=" ^ upper ^ ",workdir=" ^ work
    run_or files "Failed to mount overlay filesystem"
        (other ("Failed to mount overlay for machine " ^ id))
        ("mount" ∷ "-t" ∷ "overlay" ∷ "overlay" ∷ "-o" ∷ mount_opts ∷ merged ∷ [])
    pure merged

  unfoldable pub lazy_unmount : String → Exec W Unit
  lazy_unmount merged = do ignore (files.run ("umount" ∷ "-l" ∷ merged ∷ [])); files.sleep 500

  unfoldable pub unmount : String → Exec W Unit
  unmount merged = do
    result ← attempt (files.run ("umount" ∷ merged ∷ []))
    if ran_ok result then pure tt else lazy_unmount merged

  unfoldable pub when_exists : String → Exec W Unit → Exec W Unit
  when_exists path m w = if files.exists path w then m w else pure tt w

  unfoldable pub clear_caches : String → Exec W Unit
  clear_caches dir = do
    when_exists (dir // "upper/var/cache/apt")
        (ignore (files.remove_dir_all (dir // "upper/var/cache/apt")))
    when_exists (dir // "upper/tmp") (ignore (files.remove_dir_all (dir // "upper/tmp")))
    when_exists (dir // "upper/root/.cache")
        (ignore (files.remove_dir_all (dir // "upper/root/.cache")))

  unfoldable pub remove_machine_dir : String → Exec W Unit
  remove_machine_dir dir = do
    clear_caches dir
    context "Failed to remove machine directory" (files.remove_dir_all dir)

  unfoldable pub teardown : String → Exec W Unit
  teardown id = do
    when_exists (machine_dir id // "rootfs") (unmount (machine_dir id // "rootfs"))
    when_exists (machine_dir id) (remove_machine_dir (machine_dir id))
