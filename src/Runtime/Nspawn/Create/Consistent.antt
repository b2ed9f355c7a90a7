-- ===== src/Runtime/Nspawn/Create/Consistent.antt =====
-- `NspawnRuntime::create` (src/runtime/nspawn.rs) and the invariant of the stored state.
use clawstainer.Base.{String, ◌≡◌, refl, Option, none, some, arith, ◌==◌, Bool-cases, inl, inr}
use clawstainer.Base.Map.{get, get-insert_self}
use clawstainer.Errors.{ok, Result-cases}
use clawstainer.Exec.Hoare.{Hoare, Hoare-pure, Hoare-fail, Hoare-bind}
use clawstainer.State.{Machine, State}
use clawstainer.State.Store.{Sys, with_lock, on_host}
use clawstainer.State.Store.Rules.{Hoare-on_host, Hoare-with_lock}
use clawstainer.State.Consistent.{
  IsConsistent, Owns, allocate-IsConsistent, allocate-Owns, insert-IsConsistent,
}
use clawstainer.Runtime.{CreateOpts, MachineInfo, require_linux}
use clawstainer.Runtime.Host.{Host, random_word}
use clawstainer.Runtime.Images.{Images}
use clawstainer.Runtime.Naming.{generate_id}
use clawstainer.Runtime.Nspawn.Create.{
  allocate_ip, allocated, assign_ip, setup_network, machine_name, prepare_root, boot, new_machine,
  insert_machine, create,
}

module _ {W : Type 0} (host : Host W) (images : Images W) where
  abbrev pub Safe : Sys W → Type 0
  Safe s = IsConsistent s.state

  -- Consistent, and the address is the machine's.
  abbrev pub Held : String → Option String → State → Type 0
  Held id ip s = IsConsistent s × Owns id ip s

  pub Hoare-allocate_ip :
      (id : String)
      → Hoare Safe (allocate_ip host images id) (λ ip s. Held id (some ip) s.state) (λ _. Unit {0})
  unfolding allocate_ip
  Hoare-allocate_ip id = record {
    on_ok = λ s c ip e. (
      allocate-IsConsistent s.state id c,
      λ x p. ground (arith, allocate-Owns s.state id ip c e),
    );
    on_err = λ s c f e. tt;
  }

  pub keep : (s : State) → IsConsistent s → IsConsistent s
  keep s c = c

  Hoare-allocated :
      (id : String) → Hoare Safe (allocated host images id) (λ ip s. Held id ip s.state) Safe
  unfolding allocated
  Hoare-allocated id =
      Hoare-bind (on_host (setup_network host images)) _ (Hoare-on_host keep _) λ _.
        Hoare-bind (with_lock (allocate_ip host images id)) _
          (Hoare-with_lock keep _ (Hoare-allocate_ip id)) λ ip. Hoare-pure (some ip) (λ s h. h)

  Hoare-assign_ip :
      (network id : String)
      → Hoare Safe (assign_ip host images network id) (λ ip s. Held id ip s.state) Safe
  unfolding assign_ip
  Hoare-assign_ip network id = elim (Bool-cases (network == "nat")) [
    | inl nat ↦ rw nat (Hoare-allocated id)
    | inr other ↦ rw other (Hoare-pure none (λ s c. (c, λ x p. cc)))
  ]

  pub Hoare-require_linux : (os : String) → Hoare Safe (require_linux os) (λ _. Safe) Safe
  unfolding require_linux
  Hoare-require_linux os = elim (Bool-cases (os == "linux")) [
    | inl linux ↦ rw linux (Hoare-pure tt (λ s c. c))
    | inr other ↦ rw other (Hoare-fail _ (λ s c. c))
  ]

  -- The state records the machine that `create` reports.
  abbrev pub Recorded : MachineInfo → Sys W → Type 0
  Recorded info s =
      (m : Machine) × (get info.id s.state.machines ≡ some m)
      × (m.status ≡ "running")
      × (m.name ≡ info.name)
      × (m.ip ≡ info.ip)

  pub Hoare-insert_machine :
      (id : String) (m : Machine)
      → m.status ≡ "running"
      → Hoare
          (λ s. Held id m.ip s.state)
          (insert_machine host images id m)
          (λ _ s. IsConsistent s.state × (get id s.state.machines ≡ some m))
          (λ _. Unit {0})
  unfolding insert_machine
  Hoare-insert_machine id m running = record {
    on_ok = λ s h a e.
        (insert-IsConsistent s.state id m h.0 h.1, get-insert_self id m s.state.machines);
    on_err = λ s h f e. tt;
  }

  pub let_go : {id : String} {ip : Option String} (s : State) → Held id ip s → IsConsistent s
  let_go s h = h.0

  pub Hoare-create :
      (opts : CreateOpts)
      → Hoare Safe (create host images opts) (λ info s. Safe s × Recorded info s) Safe
  unfolding create
  Hoare-create opts = Hoare-bind (require_linux host.os) _ (Hoare-require_linux host.os) λ _.
      Hoare-bind (on_host (random_word host)) _ (Hoare-on_host keep _) λ word.
        Hoare-bind (on_host (machine_name host images opts.name)) _ (Hoare-on_host keep _) λ name.
          Hoare-bind (on_host (prepare_root host images (generate_id word) opts)) _
            (Hoare-on_host keep _)
            λ root_path.
              Hoare-bind (assign_ip host images opts.network (generate_id word)) _
                (Hoare-assign_ip opts.network (generate_id word))
                λ ip.
                  Hoare-bind (on_host (boot host images (generate_id word) root_path ip opts)) _
                    (Hoare-on_host let_go _)
                    λ booted.
                      let machine =
                        new_machine host images (generate_id word) name root_path ip opts booted in
                      Hoare-bind (with_lock (insert_machine host images (generate_id word) machine))
                        _
                        (Hoare-with_lock let_go _
                          (Hoare-insert_machine (generate_id word) machine refl))
                        λ _. Hoare-pure _ (λ s h. (h.0, (machine, h.1, refl, refl, refl)))

  -- `create` keeps the invariant of the state, whether it succeeds or fails at any step.
  pub create-IsConsistent :
      (opts : CreateOpts) (s : Sys W)
      → IsConsistent s.state
      → IsConsistent (create host images opts s).1.state
  create-IsConsistent opts s c = elim (Result-cases (create host images opts s).0) [
    | inl (info, done) ↦ ((Hoare-create opts).on_ok s c info done).0
    | inr (e, failed) ↦ (Hoare-create opts).on_err s c e failed
  ]

  -- After a success from a consistent state, the state records the new machine under the reported
  -- identifier, as running, and with the reported name and address.
  pub create-Recorded :
      (opts : CreateOpts) (s : Sys W) {info : MachineInfo}
      → IsConsistent s.state
      → (create host images opts s).0 ≡ ok info
      → Recorded info (create host images opts s).1
  create-Recorded opts s {info} c done = ((Hoare-create opts).on_ok s c info done).1
