-- ===== src/Runtime/Images.antt =====
-- What the runtimes ask of the file images, src/image and src/firecracker/{assets,rootfs}.rs: the
-- base image, the snapshots, the overlay or root file system of a machine.
use clawstainer.Base.{String, Option}
use clawstainer.Exec.{Exec}

pub record Images (W : Type 0) : Type 0 where
  pub ensure_base_image : Exec W String  -- bootstrap.rs
  pub extract : String → Exec W String  -- snapshot.rs
  pub setup : String → String → Option String → Exec W String  -- overlay.rs
  pub teardown : String → Exec W Unit  -- overlay.rs
  pub ensure_assets : Exec W (String × String)  -- assets.rs: binary and kernel
  pub create_vm_rootfs : String → Exec W String  -- rootfs.rs
  pub cleanup_vm_rootfs : String → Exec W Unit  -- rootfs.rs
