-- ===== src/Lima/Pid/Kept.antt =====
-- When `repair_stale_pid` of src/lima.rs touches the host agent's PID file.
use clawstainer.Base.{
  ℕ, String, false, ◌≡◌, refl, ◌⊎◌, inl, inr, Option, none, some, Bool-cases, nat_eq, nat_eq→eq, ap,
  if◌then◌else◌,
}
use clawstainer.Base.Int.{ℤ}
use clawstainer.Base.Text.{eq_ignore_ascii_case, parse_i32, trim}
use clawstainer.Errors.{ok, Result-cases}
use clawstainer.Exec.{Exec, pure, map_err, after, ◌>>=◌}
use clawstainer.Exec.Kept.{Kept}
use clawstainer.Lima.{Json, Mac, VmStatus, is_running, vm_status}
use clawstainer.Lima.Kept.{RunKeeps, vm_status-Kept}
use clawstainer.Lima.Pid.{
  pid_file, owner_is_alive, alive_by_errno, repaired, live_process, remove_stale, process_is_alive,
  repair_owned, repair_with, repair_present, repair_stale_pid,
}

module _ {W : Type 0} (mac : Mac W) (json : Json) where
  -- The file holds no number, and then no process was asked about, or no process has the number.
  pub data IsUnowned (pid : Option ℤ) (w : W) : Type 0 where
    no_number : pid ≡ none → IsUnowned pid w
    dead : (id : ℤ) → pid ≡ some id → mac.kill id w ≡ some 3 → IsUnowned pid w

  -- The status of the VM is read and is not "running", in whatever case, and nothing is seen to own
  -- the file.
  pub record IsOrphan (pid : Option ℤ) (w : W) : Type 0 where
    pub status : VmStatus
    pub reported : (vm_status mac json w).0 ≡ ok status
    pub stopped : eq_ignore_ascii_case status.status "running" ≡ false
    pub unowned : IsUnowned pid (vm_status mac json w).1

  -- The file is read too, and `pid` is what it says.
  pub record IsStale (w : W) : Type 0 where
    pub raw : String
    pub content : (mac.read_to_string (pid_file mac) w).0 ≡ ok raw
    pub orphan : IsOrphan (parse_i32 (trim raw)) (mac.read_to_string (pid_file mac) w).1

module _ {W : Type 0} (mac : Mac W) (P : W → Type 0) where
  -- Only the answer that no such process exists goes on to the removal.
  alive_by_errno-Kept :
      {A : Type 0} (o : Option ℕ) (w : W) (here there : Exec W A)
      → P w
      → P (here w).1
      → P (after (alive_by_errno mac o) w (λ alive. if alive then here else there)).1 ⊎ (o ≡ some 3)
  alive_by_errno-Kept none w here there p q = inl q
  alive_by_errno-Kept (some n) w here there p q = elim (Bool-cases (nat_eq n 3)) [
    | inl e ↦ inr (ap some (nat_eq→eq n 3 e))
    | inr n3 ↦ elim (Bool-cases (nat_eq n 1)) [
      | inl e ↦ inl (rw (n3, e) q)
      | inr n1 ↦ inl (rw (n3, n1) p)
    ]
  ]

  repair_owned-Kept :
      (json : Json) (pid : Option ℤ) (w : W)
      → P w
      → P (repair_owned mac pid w).1 ⊎ IsUnowned mac json pid w
  unfolding repair_owned owner_is_alive process_is_alive ◌>>=◌ pure
  repair_owned-Kept json none w p = inr (no_number refl)
  repair_owned-Kept json (some pid) w p =
      elim (alive_by_errno-Kept (mac.kill pid w) w (pure (repaired mac live_process (some pid)))
        (remove_stale mac (some pid)) p p) [
          | inl kept ↦ inl kept
          | inr gone ↦ inr (dead pid refl gone)
        ]

  module _ (json : Json) (runs : RunKeeps P mac) where
    repair_with-Kept :
        (pid : Option ℤ) (w : W) → P w → P (repair_with mac json pid w).1 ⊎ IsOrphan mac json pid w
    unfolding repair_with is_running ◌>>=◌ pure
    repair_with-Kept pid w p =
        let q = (vm_status-Kept P mac runs json).keep w p in
        elim (Result-cases (vm_status mac json w).0) [
          | inr (e, failed) ↦ inl (rw (failed, after) q)
          | inl (status, reported) ↦
              elim (Bool-cases (eq_ignore_ascii_case status.status "running")) [
                | inl running ↦ inl (rw (reported, after, running) q)
                | inr stopped ↦ elim (repair_owned-Kept json pid (vm_status mac json w).1 q) [
                  | inl kept ↦ inl (rw (reported, after, stopped) kept)
                  | inr unowned ↦ inr (record {
                    status = status;
                    reported = reported;
                    stopped = stopped;
                    unowned = unowned;
                  })
                ]
              ]
        ]

    -- A repair removes the PID file only when the file could be read, the VM was then reported with
    -- a status that is not "running", and the file holds no number or one that no process has. On
    -- every other way through the repair, errors included, what reading and the commands keep still
    -- holds after it.
    pub repair_stale_pid-Kept :
        Kept P (mac.read_to_string (pid_file mac))
        → (w : W) → P w
        → P (repair_stale_pid mac json w).1 ⊎ IsStale mac json w
    unfolding repair_stale_pid repair_present ◌>>=◌ map_err
    repair_stale_pid-Kept reads w p = elim (Bool-cases (mac.exists (pid_file mac) w)) [
      | inr absent ↦ inl (rw absent p)
      | inl present ↦
          let q = reads.keep w p in
          elim (Result-cases (mac.read_to_string (pid_file mac) w).0) [
            | inr (e, failed) ↦ inl (rw (present, failed, after) q)
            | inl (raw, content) ↦
                elim (repair_with-Kept (parse_i32 (trim raw))
                  (mac.read_to_string (pid_file mac) w).1 q) [
                    | inl kept ↦ inl (rw (present, content, after) kept)
                    | inr orphan ↦ inr (record { raw = raw; content = content; orphan = orphan })
                  ]
          ]
    ]
