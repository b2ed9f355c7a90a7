-- ===== src/Commands/Vm/Guarded.antt =====
-- What `vm recreate` of src/commands/vm.rs asks for before a VM is deleted.
use clawstainer.Base.{
  String, Bool, true, false, ◌≡◌, refl, List, [], ◌∷◌, ◌==◌, if◌then◌else◌, ◌⊎◌, inl, inr, arith,
  Bool-cases, ◌∙◌,
}
use clawstainer.Base.Text.{trim}
use clawstainer.Commands.Vm.{
  Terminal, prompt, confirm_recreate, check_sandboxes, guard_existing, recreate,
}
use clawstainer.Errors.{Result, ok, err, Result-cases, result_inj}
use clawstainer.Exec.{pure, fail, map_err, attempt, after, ◌>>=◌}
use clawstainer.Exec.Kept.{
  Kept, Kept-pure, Kept-fail, Kept-attempt, Kept-if, Kept-bind, bind-eq-ok, if-eq-ok,
}
use clawstainer.Lima.{Json, Mac, VmStatus, SandboxSummary, exists, vm_status}
use clawstainer.Lima.Kept.{vm_status-Kept}
use clawstainer.Lima.Machine.{list_vm_sandboxes, recreate_vm}
use clawstainer.Lima.Machine.Kept.{HostKeeps, list_vm_sandboxes-Kept, set_up-Kept}

module _ {W : Type 0} (terminal : Terminal W) where
  -- The user sits at a terminal and has typed the word.
  pub record HasTyped (w : W) : Type 0 where
    pub at_terminal : terminal.is_terminal w ≡ true
    pub response : String
    pub typed : (terminal.read_line (terminal.flush w).1).0 ≡ ok response
    pub agreed : (trim response == "recreate") ≡ true

  prompt-eq-ok :
      (w : W)
      → (prompt terminal w).0 ≡ ok tt
      → (response : String) × ((terminal.read_line (terminal.flush w).1).0 ≡ ok response)
        × ((trim response == "recreate") ≡ true)
  unfolding prompt
  prompt-eq-ok w done =
      let (a, _, read) = bind-eq-ok terminal.flush _ w done in
      let (response, typed, tested) = bind-eq-ok terminal.read_line _ (terminal.flush w).1 read in
      (response, typed, if-eq-ok (trim response == "recreate") _ _ tested)

  confirm_recreate-eq-ok : (w : W) → (confirm_recreate terminal w).0 ≡ ok tt → HasTyped w
  unfolding confirm_recreate
  confirm_recreate-eq-ok w done = elim (Bool-cases (terminal.is_terminal w)) [
    | inl there ↦
        let (response, typed, agreed) = prompt-eq-ok w (rw there at done) in
        record { at_terminal = there; response = response; typed = typed; agreed = agreed }
    | inr away ↦ absurd (ground arith)
  ]

  -- `check_sandboxes` writes nothing, and passes only with `--force` or on an empty list.
  check_sandboxes-eq-ok :
      (force : Bool) (sandboxes : Result (List SandboxSummary)) (w : W)
      → (check_sandboxes terminal force sandboxes w).0 ≡ ok tt
      → (check_sandboxes terminal force sandboxes w).1 ≡ w × ((force ≡ true) ⊎ (sandboxes ≡ ok []))
  unfolding check_sandboxes pure fail
  check_sandboxes-eq-ok force (ok []) w done = (refl, inr refl)
  check_sandboxes-eq-ok true (ok (x ∷ xs)) w done = (refl, inl refl)
  check_sandboxes-eq-ok false (ok (x ∷ xs)) w done = cc
  check_sandboxes-eq-ok true (err e) w done = (refl, inl refl)
  check_sandboxes-eq-ok false (err e) w done = cc

module _ {W : Type 0} (terminal : Terminal W) (mac : Mac W) (json : Json) where
  abbrev inspected : W → W
  inspected w = (list_vm_sandboxes mac json w).1

  -- The VM was known to hold no sandbox, or `--force` was given; and `--yes` was given, or the
  -- question has been answered after the inspection.
  pub record MayDelete (yes_flag force : Bool) (w : W) : Type 0 where
    pub no_sandboxes : (force ≡ true) ⊎ ((list_vm_sandboxes mac json w).0 ≡ ok [])
    pub consent : (yes_flag ≡ true) ⊎ HasTyped terminal (inspected w)

  -- The VM was looked for twice: there was none at first, and then there was one.
  pub record HasAppeared (w : W) : Type 0 where
    pub missing : VmStatus
    pub was_missing : (vm_status mac json w).0 ≡ ok missing
    pub not_there : exists missing ≡ false
    pub found : VmStatus
    pub was_found : (vm_status mac json (vm_status mac json w).1).0 ≡ ok found
    pub there : exists found ≡ true

  consent_of :
      (yes_flag : Bool) (w : W)
      → ((if yes_flag then pure tt else confirm_recreate terminal) w).0 ≡ ok tt
      → (yes_flag ≡ true) ⊎ HasTyped terminal w
  consent_of true w done = inl refl
  consent_of false w done = inr (confirm_recreate-eq-ok terminal w done)

  passed_of :
      {force : Bool} {listed sandboxes : Result (List SandboxSummary)}
      → (force ≡ true) ⊎ (sandboxes ≡ ok [])
      → listed ≡ sandboxes
      → (force ≡ true) ⊎ (listed ≡ ok [])
  passed_of (inl f) e = inl f
  passed_of (inr none) e = inr (e ∙ none)

  guard_existing-eq-ok :
      (yes_flag force : Bool) (w : W)
      → (guard_existing terminal mac json yes_flag force w).0 ≡ ok tt
      → MayDelete yes_flag force w
  unfolding guard_existing attempt
  guard_existing-eq-ok yes_flag force w done =
      let (sandboxes, listed, rest) = bind-eq-ok (attempt (list_vm_sandboxes mac json)) _ w done in
      let (_, checked, asked) =
        bind-eq-ok (check_sandboxes terminal force sandboxes) _ (inspected w) rest in
      let (same, passed) = check_sandboxes-eq-ok terminal force sandboxes (inspected w) checked in
      record {
        no_sandboxes = passed_of passed (result_inj listed);
        consent = consent_of yes_flag (inspected w) (rw same at asked);
      }

module _ {W : Type 0} (P : W → Type 0) (terminal : Terminal W) (mac : Mac W) (json : Json)
    (host : HostKeeps P mac) (flushes : Kept P terminal.flush)
    (reads : Kept P terminal.read_line) where
  confirm_recreate-Kept : Kept P (confirm_recreate terminal)
  unfolding confirm_recreate prompt
  confirm_recreate-Kept = record {
    keep = λ w p. elim (Bool-cases (terminal.is_terminal w)) [
      | inr away ↦ rw away p
      | inl there ↦ rw there (
          (Kept-bind _ _ flushes
              (λ _. Kept-bind _ _ reads (λ _. Kept-if _ _ _ (Kept-pure tt) (Kept-fail _)))).keep
            w p)
    ];
  }

  check_sandboxes-Kept :
      (force : Bool) (r : Result (List SandboxSummary)) → Kept P (check_sandboxes terminal force r)
  unfolding check_sandboxes
  check_sandboxes-Kept force (ok []) = Kept-pure tt
  check_sandboxes-Kept force (ok (x ∷ xs)) = Kept-if _ _ _ (Kept-pure tt) (Kept-fail _)
  check_sandboxes-Kept force (err e) = Kept-if _ _ _ (Kept-pure tt) (Kept-fail _)

  guard_existing-Kept :
      (yes_flag force : Bool) → Kept P (guard_existing terminal mac json yes_flag force)
  unfolding guard_existing
  guard_existing-Kept yes_flag force =
      Kept-bind _ _ (Kept-attempt _ (list_vm_sandboxes-Kept P mac host json)) (λ _.
        Kept-bind _ _ (check_sandboxes-Kept force _)
          (λ _. Kept-if _ _ _ (Kept-pure tt) confirm_recreate-Kept))

  -- With no VM there is nothing to delete.
  recreate_missing :
      (w : W)
      → P w
      → P (recreate_vm mac json w).1
        ⊎ ((found : VmStatus) × ((vm_status mac json w).0 ≡ ok found) × (exists found ≡ true))
  unfolding recreate_vm ◌>>=◌ pure
  recreate_missing w p =
      let q = (vm_status-Kept P mac host.runs json).keep w p in
      elim (Result-cases (vm_status mac json w).0) [
        | inr (e, failed) ↦ inl (rw (failed, after) q)
        | inl (found, reported) ↦ elim (Bool-cases (exists found)) [
          | inl there ↦ inr (found, reported, there)
          | inr missing ↦ inl (
              rw (reported, after, missing)
                ((set_up-Kept P mac host json).keep (vm_status mac json w).1 q))
        ]
      ]

  -- `vm recreate` deletes the VM only if it was allowed to: whatever every command but
  -- `limactl delete`, every access to a file and the terminal keep, holds after it on every way
  -- through it, unless the VM was found and the guard has let it pass, or the VM has appeared
  -- between two looks of one call.
  pub recreate-guarded :
      (yes_flag force : Bool) (w : W)
      → P w
      → P (recreate terminal mac json yes_flag force w).1
        ⊎ (MayDelete terminal mac json yes_flag force (vm_status mac json w).1
            ⊎ HasAppeared terminal mac json w)
  unfolding recreate ◌>>=◌ map_err pure
  recreate-guarded yes_flag force w p =
      let q = (vm_status-Kept P mac host.runs json).keep w p in
      let w1 : W = (vm_status mac json w).1 in
      elim (Result-cases (vm_status mac json w).0) [
        | inr (e, failed) ↦ inl (rw (failed, after) q)
        | inl (current, reported) ↦ elim (Bool-cases (exists current)) [
          | inl there ↦ elim (Result-cases (guard_existing terminal mac json yes_flag force w1).0) [
            | inl (_, passed) ↦
                inr (inl (guard_existing-eq-ok terminal mac json yes_flag force w1 passed))
            | inr (e, stopped) ↦ inl (
                rw (reported, after, there, stopped)
                  ((guard_existing-Kept yes_flag force).keep w1 q))
          ]
          | inr missing ↦ elim (recreate_missing w1 q) [
            | inl kept ↦ inl (rw (reported, after, missing) kept)
            | inr (found, again, appeared) ↦ inr (
                inr (record {
                  missing = current;
                  was_missing = reported;
                  not_there = missing;
                  found = found;
                  was_found = again;
                  there = appeared;
                }))
          ]
        ]
      ]
