-- ===== src/Runtime/Nspawn/Create/Failed.antt =====
-- What `NspawnRuntime::create` (src/runtime/nspawn.rs) leaves in the stored state when it fails.
use clawstainer.Base.{String, ◌≡◌, refl, sym, none, some, ◌==◌, Bool-cases, inl, inr}
use clawstainer.Errors.{Failure, ok, err}
use clawstainer.Exec.Hoare.{Hoare, Hoare-pure, Hoare-fail, Hoare-bind}
use clawstainer.Network.{allocate}
use clawstainer.State.{State}
use clawstainer.State.Store.{Sys, with_lock, on_host}
use clawstainer.State.Store.Rules.{Hoare-on_host, Hoare-with_lock}
use clawstainer.Runtime.{CreateOpts, require_linux}
use clawstainer.Runtime.Host.{Host, random_word}
use clawstainer.Runtime.Images.{Images}
use clawstainer.Runtime.Naming.{generate_id}
use clawstainer.Runtime.Nspawn.Create.{
  allocate_ip, allocated, assign_ip, setup_network, machine_name, prepare_root, boot, new_machine,
  insert_machine, create,
}

-- The state is as it was, or one address has been allocated, and that is all.
pub data LeftOver (old new : State) : Type 0 where
  same : new ≡ old → LeftOver old new
  leaked :
      (id ip : String)
      → (allocate id old.network).0 ≡ ok ip
      → new ≡ record old { network = (allocate id old.network).1 }
      → LeftOver old new

module _ {W : Type 0} (host : Host W) (images : Images W) (old : State) where
  abbrev Untouched : State → Type 0
  Untouched s = s ≡ old

  pub same-LeftOver : (s : State) → Untouched s → LeftOver old s
  same-LeftOver s e = same e

  pub already : (s : State) → LeftOver old s → LeftOver old s
  already s l = l

  abbrev Left : {A : Type 0} → A → Sys W → Type 0
  Left a s = LeftOver old s.state

  pub allocate_ip-LeftOver :
      (id : String)
      → Hoare (λ s. Untouched s.state) (allocate_ip host images id) Left (λ _. Unit {0})
  unfolding allocate_ip
  allocate_ip-LeftOver id = record {
    on_ok = λ s e ip done. leaked id ip (rw (sym e) done) (rw e refl);
    on_err = λ s e f failed. tt;
  }

  allocated-LeftOver :
      (id : String)
      → Hoare (λ s. Untouched s.state) (allocated host images id) Left (λ s. LeftOver old s.state)
  unfolding allocated
  allocated-LeftOver id =
      Hoare-bind (on_host (setup_network host images)) _ (Hoare-on_host same-LeftOver _) λ _.
        Hoare-bind (with_lock (allocate_ip host images id)) _
          (Hoare-with_lock same-LeftOver _ (allocate_ip-LeftOver id))
          λ ip. Hoare-pure (some ip) (λ s l. l)

  assign_ip-LeftOver :
      (network id : String)
      → Hoare
          (λ s. Untouched s.state)
          (assign_ip host images network id)
          Left
          (λ s. LeftOver old s.state)
  unfolding assign_ip
  assign_ip-LeftOver network id = elim (Bool-cases (network == "nat")) [
    | inl nat ↦ rw nat (allocated-LeftOver id)
    | inr other ↦ rw other (Hoare-pure none (λ s e. same e))
  ]

  pub require_linux-LeftOver :
      (os : String)
      → Hoare {S = Sys W}
          (λ s. Untouched s.state)
          (require_linux os)
          (λ _ s. Untouched s.state)
          (λ s. LeftOver old s.state)
  unfolding require_linux
  require_linux-LeftOver os = elim (Bool-cases (os == "linux")) [
    | inl linux ↦ rw linux (Hoare-pure tt (λ s e. e))
    | inr other ↦ rw other (Hoare-fail _ (λ s e. same e))
  ]

  create-Hoare :
      (opts : CreateOpts)
      → Hoare
          (λ s. Untouched s.state)
          (create host images opts)
          (λ _ _. Unit {0})
          (λ s. LeftOver old s.state)
  unfolding create insert_machine
  create-Hoare opts = Hoare-bind (require_linux host.os) _ (require_linux-LeftOver host.os) λ _.
      Hoare-bind (on_host (random_word host)) _ (Hoare-on_host same-LeftOver _) λ word.
        Hoare-bind (on_host (machine_name host images opts.name)) _ (Hoare-on_host same-LeftOver _)
          λ name.
            Hoare-bind (on_host (prepare_root host images (generate_id word) opts)) _
              (Hoare-on_host same-LeftOver _)
              λ root_path.
                Hoare-bind (assign_ip host images opts.network (generate_id word)) _
                  (assign_ip-LeftOver opts.network (generate_id word))
                  λ ip.
                    Hoare-bind (on_host (boot host images (generate_id word) root_path ip opts)) _
                      (Hoare-on_host already _)
                      λ booted.
                        Hoare-bind
                          (with_lock (
                            insert_machine host images (generate_id word) (
                              new_machine host images (generate_id word) name root_path ip opts
                                booted)))
                          _
                          (Hoare-with_lock {P = LeftOver old} already _ {Q = λ _ _. Unit {0}}
                            (record { on_ok = λ s l a e. tt; on_err = λ s l f e. tt }))
                          λ _. Hoare-pure _ (λ s h. h)

module _ {W : Type 0} (host : Host W) (images : Images W) where
  -- A `create` that fails records no machine and changes no other: the state is as before, but for
  -- an address that may have been allocated, which stays allocated.
  pub create-LeftOver :
      (opts : CreateOpts) (s : Sys W) {e : Failure}
      → (create host images opts s).0 ≡ err e
      → LeftOver s.state (create host images opts s).1.state
  create-LeftOver opts s {e} failed = (create-Hoare host images s.state opts).on_err s refl e failed
