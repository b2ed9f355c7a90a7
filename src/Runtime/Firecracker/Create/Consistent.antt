-- ===== src/Runtime/Firecracker/Create/Consistent.antt =====
-- `FirecrackerRuntime::create` (src/runtime/firecracker.rs) and the invariant of the stored state.
use clawstainer.Base.{String, ◌≡◌, refl, none, some, ◌==◌, Bool-cases, inl, inr}
use clawstainer.Errors.{ok, Result-cases}
use clawstainer.Exec.Hoare.{Hoare, Hoare-pure, Hoare-bind}
use clawstainer.State.Consistent.{IsConsistent}
use clawstainer.State.Store.{Sys, with_lock, on_host}
use clawstainer.State.Store.Rules.{Hoare-on_host, Hoare-with_lock}
use clawstainer.Runtime.{CreateOpts, MachineInfo, require_linux}
use clawstainer.Runtime.Host.{Host, random_word, create_tap}
use clawstainer.Runtime.Images.{Images}
use clawstainer.Runtime.Naming.{generate_id, tap_name}
use clawstainer.Runtime.Nspawn.Create.{allocate_ip, setup_network, machine_name, insert_machine}
use clawstainer.Runtime.Nspawn.Create.Consistent.{
  Safe, Held, Recorded, keep, let_go, Hoare-allocate_ip, Hoare-require_linux, Hoare-insert_machine,
}
use clawstainer.Runtime.Firecracker.{Api}
use clawstainer.Runtime.Firecracker.Create.{
  Guest, allocated_vm_ip, assign_vm_ip, or_create_failed, boot_vm, new_vm, create,
}

module _ {W : Type 0} (host : Host W) (api : Api W) (guest : Guest W) (images : Images W) where
  Hoare-allocated_vm_ip :
      (id : String)
      → Hoare
          (Safe host images)
          (allocated_vm_ip host api guest images id)
          (λ ip s. Held host images id ip s.state)
          (Safe host images)
  unfolding allocated_vm_ip
  Hoare-allocated_vm_ip id =
      Hoare-bind (on_host (setup_network host images)) _ (Hoare-on_host (keep host images) _) λ _.
        Hoare-bind (with_lock (allocate_ip host images id)) _
          (Hoare-with_lock (keep host images) _ (Hoare-allocate_ip host images id))
          λ ip.
            Hoare-bind
              (on_host (or_create_failed "TAP setup failed" (create_tap host (tap_name id)))) _
              (Hoare-on_host (let_go host images {id = id} {ip = some ip}) _)
              λ _. Hoare-pure (some ip) (λ s h. h)

  Hoare-assign_vm_ip :
      (network id : String)
      → Hoare
          (Safe host images)
          (assign_vm_ip host api guest images network id)
          (λ ip s. Held host images id ip s.state)
          (Safe host images)
  unfolding assign_vm_ip
  Hoare-assign_vm_ip network id = elim (Bool-cases (network == "nat")) [
    | inl nat ↦ rw nat (Hoare-allocated_vm_ip id)
    | inr other ↦ rw other (Hoare-pure none (λ s c. (c, λ x p. cc)))
  ]

  Hoare-create_vm :
      (opts : CreateOpts)
      → Hoare
          (Safe host images)
          (create host api guest images opts)
          (λ info s. Safe host images s × Recorded host images info s)
          (Safe host images)
  unfolding create
  Hoare-create_vm opts =
      Hoare-bind (require_linux host.os) _ (Hoare-require_linux host images host.os) λ _.
        Hoare-bind (on_host (random_word host)) _ (Hoare-on_host (keep host images) _) λ word.
          Hoare-bind (on_host (machine_name host images opts.name)) _
            (Hoare-on_host (keep host images) _)
            λ name.
              Hoare-bind (on_host (or_create_failed "Asset setup failed" images.ensure_assets)) _
                (Hoare-on_host (keep host images) _)
                λ assets.
                  Hoare-bind
                    (on_host (
                      or_create_failed "Rootfs creation failed"
                        (images.create_vm_rootfs (generate_id word))))
                    _ (Hoare-on_host (keep host images) _)
                    λ rootfs.
                      Hoare-bind
                        (assign_vm_ip host api guest images opts.network (generate_id word)) _
                        (Hoare-assign_vm_ip opts.network (generate_id word))
                        λ ip.
                          Hoare-bind
                            (on_host (
                              boot_vm host api guest images (generate_id word) assets.0
                                (assets.1, rootfs) ip opts))
                            _
                            (Hoare-on_host (let_go host images {id = generate_id word} {ip = ip}) _)
                            λ booted.
                              let machine = new_vm (generate_id word) name rootfs ip opts booted in
                              Hoare-bind
                                (with_lock (insert_machine host images (generate_id word) machine))
                                _
                                (Hoare-with_lock
                                  (let_go host images {id = generate_id word} {ip = ip}) _
                                  (Hoare-insert_machine host images (generate_id word) machine
                                    refl))
                                λ _. Hoare-pure _ (λ s h. (h.0, (machine, h.1, refl, refl, refl)))

  -- `create` keeps the invariant of the state, whether it succeeds or fails at any step.
  pub firecracker_create-IsConsistent :
      (opts : CreateOpts) (s : Sys W)
      → IsConsistent s.state
      → IsConsistent (create host api guest images opts s).1.state
  firecracker_create-IsConsistent opts s c =
      elim (Result-cases (create host api guest images opts s).0) [
        | inl (info, done) ↦ ((Hoare-create_vm opts).on_ok s c info done).0
        | inr (e, failed) ↦ (Hoare-create_vm opts).on_err s c e failed
      ]

  -- After a success from a consistent state, the state records the new machine under the reported
  -- identifier, as running, and with the reported name and address.
  pub firecracker_create-Recorded :
      (opts : CreateOpts) (s : Sys W) {info : MachineInfo}
      → IsConsistent s.state
      → (create host api guest images opts s).0 ≡ ok info
      → Recorded host images info (create host api guest images opts s).1
  firecracker_create-Recorded opts s {info} c done = ((Hoare-create_vm opts).on_ok s c info done).1
