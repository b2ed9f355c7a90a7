-- ===== src/Runtime/Firecracker/Create/Failed.antt =====
-- What `FirecrackerRuntime::create` (src/runtime/firecracker.rs) leaves in the stored state when it
-- fails.
use clawstainer.Base.{String, ◌≡◌, refl, some, none, ◌==◌, Bool-cases, inl, inr}
use clawstainer.Errors.{Failure, err}
use clawstainer.Exec.Hoare.{Hoare, Hoare-pure, Hoare-bind}
use clawstainer.State.{State}
use clawstainer.State.Store.{Sys, with_lock, on_host}
use clawstainer.State.Store.Rules.{Hoare-on_host, Hoare-with_lock}
use clawstainer.Runtime.{CreateOpts, require_linux}
use clawstainer.Runtime.Host.{Host, random_word, create_tap}
use clawstainer.Runtime.Images.{Images}
use clawstainer.Runtime.Naming.{generate_id, tap_name}
use clawstainer.Runtime.Nspawn.Create.{allocate_ip, setup_network, machine_name, insert_machine}
use clawstainer.Runtime.Nspawn.Create.Failed.{
  LeftOver, same-LeftOver, already, allocate_ip-LeftOver, require_linux-LeftOver,
}
use clawstainer.Runtime.Firecracker.{Api}
use clawstainer.Runtime.Firecracker.Create.{
  Guest, allocated_vm_ip, assign_vm_ip, or_create_failed, boot_vm, new_vm, create,
}

module _ {W : Type 0} (host : Host W) (api : Api W) (guest : Guest W) (images : Images W)
    (old : State) where
  abbrev kept : (s : State) → LeftOver old s → LeftOver old s
  kept = already host images old

  abbrev unused : (s : State) → s ≡ old → LeftOver old s
  unused = same-LeftOver host images old

  allocated_vm_ip-LeftOver :
      (id : String)
      → Hoare
          (λ s. s.state ≡ old)
          (allocated_vm_ip host api guest images id)
          (λ ip s. LeftOver old s.state)
          (λ s. LeftOver old s.state)
  unfolding allocated_vm_ip
  allocated_vm_ip-LeftOver id =
      Hoare-bind (on_host (setup_network host images)) _ (Hoare-on_host unused _) λ _.
        Hoare-bind (with_lock (allocate_ip host images id)) _
          (Hoare-with_lock unused _ (allocate_ip-LeftOver host images old id))
          λ ip.
            Hoare-bind
              (on_host (or_create_failed "TAP setup failed" (create_tap host (tap_name id)))) _
              (Hoare-on_host kept _) λ _. Hoare-pure (some ip) (λ s l. l)

  assign_vm_ip-LeftOver :
      (network id : String)
      → Hoare
          (λ s. s.state ≡ old)
          (assign_vm_ip host api guest images network id)
          (λ ip s. LeftOver old s.state)
          (λ s. LeftOver old s.state)
  unfolding assign_vm_ip
  assign_vm_ip-LeftOver network id = elim (Bool-cases (network == "nat")) [
    | inl nat ↦ rw nat (allocated_vm_ip-LeftOver id)
    | inr other ↦ rw other (Hoare-pure none (λ s e. unused s.state e))
  ]

  create_vm-Hoare :
      (opts : CreateOpts)
      → Hoare
          (λ s. s.state ≡ old)
          (create host api guest images opts)
          (λ _ _. Unit {0})
          (λ s. LeftOver old s.state)
  unfolding create insert_machine
  create_vm-Hoare opts =
      Hoare-bind (require_linux host.os) _ (require_linux-LeftOver host images old host.os) λ _.
        Hoare-bind (on_host (random_word host)) _ (Hoare-on_host unused _) λ word.
          Hoare-bind (on_host (machine_name host images opts.name)) _ (Hoare-on_host unused _)
            λ name.
              Hoare-bind (on_host (or_create_failed "Asset setup failed" images.ensure_assets)) _
                (Hoare-on_host unused _)
                λ assets.
                  Hoare-bind
                    (on_host (
                      or_create_failed "Rootfs creation failed"
                        (images.create_vm_rootfs (generate_id word))))
                    _ (Hoare-on_host unused _)
                    λ rootfs.
                      Hoare-bind
                        (assign_vm_ip host api guest images opts.network (generate_id word)) _
                        (assign_vm_ip-LeftOver opts.network (generate_id word))
                        λ ip.
                          Hoare-bind
                            (on_host (
                              boot_vm host api guest images (generate_id word) assets.0
                                (assets.1, rootfs) ip opts))
                            _ (Hoare-on_host kept _)
                            λ booted.
                              let machine = new_vm (generate_id word) name rootfs ip opts booted in
                              Hoare-bind
                                (with_lock (insert_machine host images (generate_id word) machine))
                                _
                                (Hoare-with_lock {P = LeftOver old} kept _ {Q = λ _ _. Unit {0}}
                                  (record { on_ok = λ s l a e. tt; on_err = λ s l f e. tt }))
                                λ _. Hoare-pure _ (λ s h. h)

module _ {W : Type 0} (host : Host W) (api : Api W) (guest : Guest W) (images : Images W) where
  -- As for a container: a `create` that fails leaves the state as it was, but for an address that may
  -- have been allocated.
  pub create_vm-LeftOver :
      (opts : CreateOpts) (s : Sys W) {e : Failure}
      → (create host api guest images opts s).0 ≡ err e
      → LeftOver s.state (create host api guest images opts s).1.state
  create_vm-LeftOver opts s {e} failed =
      (create_vm-Hoare host api guest images s.state opts).on_err s refl e failed
