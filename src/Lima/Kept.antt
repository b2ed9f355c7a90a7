-- ===== src/Lima/Kept.antt =====
-- What the commands of src/lima.rs leave alone: a predicate of the host that every command but
-- `limactl delete` keeps.
use clawstainer.Base.{String, Bool, false, ◌≡◌, refl, ◌&&◌, List, ◌∷◌, ◌==◌}
use clawstainer.Errors.{other}
use clawstainer.Exec.Kept.{
  Kept, Kept-pure, Kept-fail, Kept-map_err, Kept-attempt, Kept-if, Kept-bind,
}
use clawstainer.Lima.{Json, Mac, vm_status, ensure_limactl, must_succeed}
use clawstainer.Runtime.Host.{context}

abbrev pub is_delete : List String → Bool
is_delete (program ∷ verb ∷ rest) = program == "limactl" && verb == "delete"
is_delete _ = false

module _ {W : Type 0} (P : W → Type 0) (mac : Mac W) where
  abbrev pub RunKeeps : Type 0
  RunKeeps = (cmd : List String) → is_delete cmd ≡ false → Kept P (mac.run cmd)

module _ {W : Type 0} (P : W → Type 0) (mac : Mac W) (runs : RunKeeps P mac) where
  pub context_run-Kept :
      (msg : String) (cmd : List String)
      → is_delete cmd ≡ false
      → Kept P (context msg (mac.run cmd))
  context_run-Kept msg cmd h = Kept-map_err _ (mac.run cmd) (runs cmd h)

  pub must_succeed-Kept :
      (not_run failed : String) (cmd : List String)
      → is_delete cmd ≡ false
      → Kept P (must_succeed mac not_run failed cmd)
  unfolding must_succeed
  must_succeed-Kept not_run failed cmd h =
      Kept-bind _ _ (context_run-Kept not_run cmd h)
        (λ o. Kept-if _ _ _ (Kept-pure tt) (Kept-fail (other failed)))

  pub ensure_limactl-Kept : Kept P (ensure_limactl mac)
  unfolding ensure_limactl
  ensure_limactl-Kept =
      Kept-bind _ _ (Kept-attempt _ (runs _ refl))
        (λ which. Kept-if _ _ _ (Kept-pure tt) (Kept-fail _))

  pub vm_status-Kept : (json : Json) → Kept P (vm_status mac json)
  unfolding vm_status
  vm_status-Kept json = Kept-bind _ _ ensure_limactl-Kept (λ _.
      Kept-bind _ _ (context_run-Kept _ _ refl) (λ o. Kept-if _ _ _ (Kept-pure _) (Kept-fail _)))
