-- ===== src/Component/Provisioner/Outcome.antt =====
-- What `Provisioner::provision` (src/component/provisioner.rs) reports and records.
use clawstainer.Base.{
  ℕ, ◌-◌, ◌∙◌, subst, String, ◌≡◌, refl, sym, ap, Bool, false, ◌&&◌, List, [], ◌∷◌, map, Bool-cases,
  inl, inr, ◌==◌, if◌then◌else◌,
}
use clawstainer.Base.Int.{is_zero}
use clawstainer.Errors.{Failure, Result, ok, err, result_inj}
use clawstainer.Exec.{lift, pure}
use clawstainer.Exec.Returned.{attempt_or_unwind-returned}
use clawstainer.Exec.Hoare.{Hoare, Hoare-bind, Hoare-pure}
use clawstainer.State.{State}
use clawstainer.State.Store.{Sys, with_lock, on_host}
use clawstainer.State.Store.Rules.{Hoare-on_host_value}
use clawstainer.Runtime.{Runtime, ExecResult}
use clawstainer.Component.{
  ComponentDef, ComponentsFile, ComponentResult, ProvisionResult, resolve_components,
}
use clawstainer.Component.Provisioner.Extended.{Extended, Extended-nothing, Extended-modify}
use clawstainer.Component.Provisioner.{
  install_env, root_exec, timeout_or, verified, verify, installed, provision_one, provision_each,
  is_installed, installed_names, extend_components, record_installed, provision,
}

-- The components of the results with status "ok", in their order.
unfoldable pub ok_components : List ComponentResult → List String
ok_components [] = []
ok_components (r ∷ rs) =
    let later = ok_components rs in if r.status == "ok" then r.component ∷ later else later

installed_names_ok : (rs : List ComponentResult) → installed_names rs ≡ ok_components rs
unfolding ok_components
installed_names_ok [] = refl
installed_names_ok (r ∷ rs) = elim (Bool-cases (r.status == "ok")) [
  | inl is_ok ↦ rw is_ok (ap (λ names. r.component ∷ names) (installed_names_ok rs))
  | inr failed ↦ rw failed (installed_names_ok rs)
]

-- Whether a command ran and exited with 0.
abbrev pub succeeded : Result ExecResult → Bool
succeeded (ok r) = is_zero r.exit_code
succeeded (err e) = false

verified_lem :
    (name : String) (duration_ms : ℕ) (v : Result ExecResult)
    → let r = verified name duration_ms v in (r.component ≡ name) × (is_installed r ≡ succeeded v)
unfolding verified
verified_lem name duration_ms (ok v) = elim (Bool-cases (is_zero v.exit_code)) [
  | inl zero_code ↦ rw zero_code (refl, refl)
  | inr nonzero ↦ rw nonzero (refl, refl)
]
verified_lem name duration_ms (err e) = (refl, refl)

module _ {W : Type 0} (now_ms : W → ℕ) (runtime : Runtime W) (file : ComponentsFile) where
  -- The install command, and the verify command, as they run in the machine.
  unfoldable pub installing : String → ComponentDef → ℕ → W → Result ExecResult × W
  installing machine_id def timeout w =
      runtime.exec machine_id (root_exec def.install (timeout_or def.timeout timeout) install_env) w

  unfoldable pub verifying : String → ComponentDef → W → Result ExecResult × W
  verifying machine_id def w = runtime.exec machine_id (root_exec def.verify 30 []) w

  verify_lem :
      (machine_id name : String) (def : ComponentDef) (duration_ms : ℕ) (w : W)
      (r : ComponentResult)
      → (verify now_ms runtime file machine_id name def duration_ms w).0 ≡ ok r
      → (r.component ≡ name) × (is_installed r ≡ succeeded (verifying machine_id def w).0)
  unfolding verify pure verifying
  verify_lem machine_id name def duration_ms w r h =
      let v = verifying machine_id def w in
      let e =
        attempt_or_unwind-returned (λ x. pure (verified name duration_ms x)) r
          (runtime.exec machine_id (root_exec def.verify 30 [])) w h in
      subst (λ (x : ComponentResult). (x.component ≡ name) × (is_installed x ≡ succeeded v.0))
        (result_inj (sym (ap (λ p. p.0) e) ∙ h)) (verified_lem name duration_ms v.0)

  installed_lem :
      (machine_id name : String) (def : ComponentDef) (duration_ms : ℕ) (first : Result ExecResult)
      (w : W) (r : ComponentResult)
      → (installed now_ms runtime file machine_id name def duration_ms first w).0 ≡ ok r
      → (r.component ≡ name)
        × (is_installed r ≡ (succeeded first && succeeded (verifying machine_id def w).0))
  unfolding installed pure
  installed_lem machine_id name def duration_ms (ok v) w r h =
      elim (Bool-cases (is_zero v.exit_code)) [
        | inl zero_code ↦
            rw zero_code (verify_lem machine_id name def duration_ms w r (rw zero_code at h))
        | inr nonzero ↦
            let e = result_inj (rw nonzero at h) in
            rw nonzero (ap (λ (x : ComponentResult). x.component) (sym e), ap is_installed (sym e))
      ]
  installed_lem machine_id name def duration_ms (err e) w r h =
      let e = result_inj h in
      (ap (λ (x : ComponentResult). x.component) (sym e), ap is_installed (sym e))

  -- If `provision_one` returns a result, it is about the component of that name, and its status is
  -- "ok" exactly if the install command ran and exited with 0 and the verify command, run after it,
  -- did too.
  pub provision_one_lem :
      (machine_id name : String) (def : ComponentDef) (timeout : ℕ) (w : W) (r : ComponentResult)
      → (provision_one now_ms runtime file machine_id name def timeout w).0 ≡ ok r
      → let (first, w') = installing machine_id def timeout w in
        (r.component ≡ name)
        × (is_installed r ≡ (succeeded first && succeeded (verifying machine_id def w').0))
  unfolding provision_one installing
  provision_one_lem machine_id name def timeout w r h =
      let first = installing machine_id def timeout w in
      let rest = λ (x : Result ExecResult) (w' : W).
        installed now_ms runtime file machine_id name def (now_ms w' - now_ms w) x w' in
      let e =
        attempt_or_unwind-returned rest r
          (runtime.exec machine_id
            (root_exec def.install (timeout_or def.timeout timeout) install_env))
          w h in
      installed_lem machine_id name def (now_ms first.1 - now_ms w) first.0 first.1 r
        (sym (ap (λ p. p.0) e) ∙ h)

  Anything : W → Type 0
  Anything w = Unit {0}

  -- The results are one for each name, in their order.
  Hoare-provision_each :
      (machine_id : String) (timeout : ℕ) (names : List String)
      → Hoare Anything
          (provision_each now_ms runtime file machine_id timeout names)
          (λ rs _. map (λ r. r.component) rs ≡ names)
          Anything
  unfolding provision_each Anything
  Hoare-provision_each machine_id timeout [] = Hoare-pure [] (λ w p. refl)
  Hoare-provision_each machine_id timeout (name ∷ names) =
      Hoare-bind {R = λ _ _. Unit {0}} _ _
        (record { on_ok = λ w p a e. tt; on_err = λ w p f e. tt })
        λ def.
          Hoare-bind {R = λ (r : ComponentResult) _. r.component ≡ name} _ _
            (record {
              on_ok = λ w p r e. (provision_one_lem machine_id name def timeout w r e).0;
              on_err = λ w p f e. tt;
            })
            λ r.
              Hoare-bind {R = λ rs _. (r.component ≡ name) × (map (λ x. x.component) rs ≡ names)} _
                _
                (record {
                  on_ok = λ w p rs e.
                      (p, (Hoare-provision_each machine_id timeout names).on_ok w tt rs e);
                  on_err = λ w p f e. tt;
                })
                λ rs. Hoare-pure (r ∷ rs) (λ w h. cc (h.0, h.1))

  Hoare-record_installed :
      (machine_id : String) (names : List String) (before : State)
      → Hoare
          (λ s. s.state ≡ before)
          (record_installed now_ms runtime file machine_id names)
          (λ _ s. Extended machine_id names before s.state)
          (λ s. s.state ≡ before)
  unfolding record_installed extend_components with_lock
  Hoare-record_installed machine_id [] before =
      Hoare-pure tt (λ s p. rw p (Extended-nothing machine_id before))
  Hoare-record_installed machine_id (name ∷ names) before = record {
    on_ok = λ s p a e. rw p (Extended-modify machine_id (name ∷ names) before);
    on_err = λ s p f e. absurd (cc e);
  }

  -- What a successful `provision` of `names` reports and leaves.
  abbrev pub Reported : String → List String → State → ProvisionResult → State → Type 0
  Reported machine_id names before result after =
      (resolve_components names file ≡ ok (map (λ r. r.component) result.results))
      × (result.machine_id ≡ machine_id)
      × Extended machine_id (ok_components result.results) before after

  each :
      (machine_id : String) (timeout : ℕ) (names : List String) (before : State)
      → Hoare
          (λ s. s.state ≡ before)
          (on_host (provision_each now_ms runtime file machine_id timeout names))
          (λ rs s. (s.state ≡ before) × (map (λ r. r.component) rs ≡ names))
          (λ s. s.state ≡ before)
  unfolding Anything
  each machine_id timeout names before =
      Hoare-on_host_value (λ s p. p) _
        (λ w rs e. (Hoare-provision_each machine_id timeout names).on_ok w tt rs e)

  Hoare-provision :
      (machine_id : String) (names : List String) (timeout : ℕ) (before : State)
      → Hoare
          (λ s. s.state ≡ before)
          (provision now_ms runtime file machine_id names timeout)
          (λ result s. Reported machine_id names before result s.state)
          (λ s. s.state ≡ before)
  unfolding provision lift
  Hoare-provision machine_id names timeout before =
      Hoare-bind
        {R = λ resolved s. (s.state ≡ before) × (resolve_components names file ≡ ok resolved)} _ _
        (record { on_ok = λ s p a e. (p, e); on_err = λ s p f e. p })
        λ resolved.
          Hoare-bind
            {R = λ rs s.
              (s.state ≡ before) × (resolve_components names file ≡ ok (map (λ r. r.component) rs))}
            _ _
            (record {
              on_ok = λ s p rs e.
                  (let v = (each machine_id timeout resolved before).on_ok s p.0 rs e in
                    (v.0, p.1 ∙ ap ok (sym v.1)));
              on_err = λ s p f e. (each machine_id timeout resolved before).on_err s p.0 f e;
            })
            λ rs.
              Hoare-bind
                {R = λ _ s.
                  (resolve_components names file ≡ ok (map (λ r. r.component) rs))
                  × Extended machine_id (installed_names rs) before s.state}
                _ _
                (record {
                  on_ok = λ s p a e. (
                    p.1,
                    (Hoare-record_installed machine_id (installed_names rs) before).on_ok s p.0 a e,
                  );
                  on_err = λ s p f e.
                      (Hoare-record_installed machine_id (installed_names rs) before).on_err s p.0 f
                        e;
                })
                λ _. Hoare-pure _ (λ s h. (
                  h.0,
                  refl,
                  subst (λ names. Extended machine_id names before s.state) (installed_names_ok rs)
                      h.1,
                ))

  -- Whatever the runtime does: if `provision` succeeds, its results are one for each component that
  -- `resolve_components` gives, in that order, and the components recorded for the machine have those
  -- with status "ok" at their end, while the other machines and the network are as before.
  pub provision-Reported :
      (machine_id : String) (names : List String) (timeout : ℕ) (s : Sys W)
      {result : ProvisionResult}
      → (provision now_ms runtime file machine_id names timeout s).0 ≡ ok result
      → Reported machine_id names s.state result
          (provision now_ms runtime file machine_id names timeout s).1.state
  provision-Reported machine_id names timeout s {result} e =
      (Hoare-provision machine_id names timeout s.state).on_ok s refl result e

  -- If `provision` fails, the state is as before, also where components were installed.
  pub provision-err :
      (machine_id : String) (names : List String) (timeout : ℕ) (s : Sys W) {e : Failure}
      → (provision now_ms runtime file machine_id names timeout s).0 ≡ err e
      → (provision now_ms runtime file machine_id names timeout s).1.state ≡ s.state
  provision-err machine_id names timeout s {e} h =
      (Hoare-provision machine_id names timeout s.state).on_err s refl e h
