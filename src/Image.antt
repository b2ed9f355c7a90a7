-- ===== src/Image.antt =====
-- src/image and the files of src/firecracker: what they take from the file system and from the
-- commands that they run. `images` puts them together as the runtimes use them.
pub mod Paths
pub mod Overlay
pub mod Snapshot
pub mod Bootstrap
pub mod Assets
pub mod Rootfs
use clawstainer.Image.Paths.{FileHost}
use clawstainer.Image.Assets.{ensure_assets}
use clawstainer.Image.Bootstrap.{ensure_base_image}
use clawstainer.Image.Overlay.{setup, teardown}
use clawstainer.Image.Rootfs.{create_vm_rootfs, cleanup_vm_rootfs}
use clawstainer.Image.Snapshot.{extract}
use clawstainer.Runtime.Images.{Images}

unfoldable pub images : {W : Type 0} → FileHost W → Images W
images files = record {
  ensure_base_image = ensure_base_image files;
  extract = extract files;
  setup = setup files;
  teardown = teardown files;
  ensure_assets = ensure_assets files;
  create_vm_rootfs = create_vm_rootfs files;
  cleanup_vm_rootfs = cleanup_vm_rootfs files;
}
