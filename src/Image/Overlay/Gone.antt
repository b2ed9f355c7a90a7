-- ===== src/Image/Overlay/Gone.antt =====
-- What a teardown of src/image/overlay.rs leaves behind.
use clawstainer.Base.{String, false, ◌≡◌, inl, inr, arith, Bool-cases}
use clawstainer.Errors.{ok, Result-cases}
use clawstainer.Exec.{pure, map_err}
use clawstainer.Exec.Kept.{bind-eq-ok, bind_after}
use clawstainer.Image.Overlay.{when_exists, unmount, clear_caches, remove_machine_dir, teardown}
use clawstainer.Image.Paths.{FileHost, ◌//◌, machine_dir}
use clawstainer.Runtime.Host.{context}

module _ {W : Type 0} (files : FileHost W) where
  -- What has been removed is not there.
  abbrev pub Removes : Type 0
  Removes =
      (path : String) (w : W)
      → (files.remove_dir_all path w).0 ≡ ok tt
      → files.exists path (files.remove_dir_all path w).1 ≡ false

module _ {W : Type 0} (files : FileHost W) (removes : Removes files) where
  context-eq-ok :
      (path msg : String) (w : W)
      → (context msg (files.remove_dir_all path) w).0 ≡ ok tt
      → files.exists path (context msg (files.remove_dir_all path) w).1 ≡ false
  unfolding map_err
  context-eq-ok path msg w done = elim (Result-cases (files.remove_dir_all path w).0) [
    | inl (_, removed) ↦ removes path w removed
    | inr (e, failed) ↦ absurd (ground arith)
  ]

  remove_machine_dir-gone :
      (dir : String) (w : W)
      → (remove_machine_dir files dir w).0 ≡ ok tt
      → files.exists dir (remove_machine_dir files dir w).1 ≡ false
  unfolding remove_machine_dir
  remove_machine_dir-gone dir w done =
      let (_, cleared, removed) = bind-eq-ok (clear_caches files dir) _ w done in
      rw
        (bind_after (clear_caches files dir)
          (λ _. context "Failed to remove machine directory" (files.remove_dir_all dir)) w cleared)
        (context-eq-ok dir _ (clear_caches files dir w).1 removed)

  when_exists-gone :
      (dir : String) (w : W)
      → (when_exists files dir (remove_machine_dir files dir) w).0 ≡ ok tt
      → files.exists dir (when_exists files dir (remove_machine_dir files dir) w).1 ≡ false
  unfolding when_exists pure
  when_exists-gone dir w done = elim (Bool-cases (files.exists dir w)) [
    | inl there ↦ rw there (remove_machine_dir-gone dir w (rw there at done))
    | inr absent ↦ rw absent absent
  ]

  -- A teardown that succeeds leaves no directory of the machine: whether the overlay was mounted,
  -- whether `umount` or a cache directory failed, or whether there was no directory at all.
  pub teardown_gone :
      (id : String) (w : W)
      → (teardown files id w).0 ≡ ok tt
      → files.exists (machine_dir id) (teardown files id w).1 ≡ false
  unfolding teardown
  teardown_gone id w done =
      let merged : String = machine_dir id // "rootfs" in
      let first = when_exists files merged (unmount files merged) in
      let (_, unmounted, removed) = bind-eq-ok first _ w done in
      rw
        (bind_after first
          (λ _. when_exists files (machine_dir id) (remove_machine_dir files (machine_dir id))) w
          unmounted)
        (when_exists-gone (machine_dir id) (first w).1 removed)
