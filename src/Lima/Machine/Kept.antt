-- ===== src/Lima/Machine/Kept.antt =====
-- The operations of src/lima.rs that delete nothing: they keep what every command but
-- `limactl delete` and every access to a file keeps.
use clawstainer.Base.{String, false, refl, Option, none, some, List, [], inl, inr, Bool-cases}
use clawstainer.Base.Int.{ℤ}
use clawstainer.Exec.Kept.{
  Kept, Kept-pure, Kept-fail, Kept-map_err, Kept-ignore, Kept-attempt, Kept-if, Kept-bind,
}
use clawstainer.Lima.{Json, Mac}
use clawstainer.Lima.Kept.{
  RunKeeps, context_run-Kept, must_succeed-Kept, ensure_limactl-Kept, vm_status-Kept,
}
use clawstainer.Lima.Machine.{
  build_linux_binary, ensure_linux_binary, install_binary_in_vm, create_vm, set_up, start_vm,
  summaries, inspect_sandboxes, list_vm_sandboxes,
}
use clawstainer.Lima.Pid.{
  pid_file, owner_is_alive, process_is_alive, remove_stale, repair_owned, repair_with,
  repair_present, repair_stale_pid,
}

module _ {W : Type 0} (P : W → Type 0) (mac : Mac W) where
  pub record HostKeeps : Type 0 where
    pub runs : RunKeeps P mac
    pub reads : (path : String) → Kept P (mac.read_to_string path)
    pub writes : (path content : String) → Kept P (mac.write path content)
    pub removes : (path : String) → Kept P (mac.remove_file path)

module _ {W : Type 0} (P : W → Type 0) (mac : Mac W) (host : HostKeeps P mac) where
  open host use {runs, reads, writes, removes}

  owner_is_alive-Kept : (pid : Option ℤ) → Kept P (owner_is_alive mac pid)
  unfolding owner_is_alive process_is_alive
  owner_is_alive-Kept none = Kept-pure false
  owner_is_alive-Kept (some pid) = record { keep = λ w p. p }

  remove_stale-Kept : (pid : Option ℤ) → Kept P (remove_stale mac pid)
  unfolding remove_stale
  remove_stale-Kept pid =
      Kept-bind _ _ (Kept-map_err _ _ (removes (pid_file mac))) (λ _. Kept-pure _)

  repair_present-Kept : (json : Json) → Kept P (repair_present mac json)
  unfolding repair_present repair_with repair_owned
  repair_present-Kept json = Kept-bind _ _ (Kept-map_err _ _ (reads (pid_file mac))) (λ _.
      Kept-bind _ _ (vm_status-Kept P mac runs json) (λ _. Kept-if _ _ _ (Kept-pure _) (
        Kept-bind _ _ (owner_is_alive-Kept _)
          (λ _. Kept-if _ _ _ (Kept-pure _) (remove_stale-Kept _)))))

  pub repair-Kept : (json : Json) → Kept P (repair_stale_pid mac json)
  unfolding repair_stale_pid
  repair-Kept json = record {
    keep = λ w p. elim (Bool-cases (mac.exists (pid_file mac) w)) [
      | inl present ↦ rw present ((repair_present-Kept json).keep w p)
      | inr absent ↦ rw absent p
    ];
  }

  pub ensure_linux_binary-Kept :
      (project binary : String) → Kept P (ensure_linux_binary mac project binary)
  unfolding ensure_linux_binary build_linux_binary
  ensure_linux_binary-Kept project binary = Kept-bind _ _ (Kept-attempt _ (runs _ refl)) (λ check.
      Kept-if _ _ _ (Kept-pure tt) (
        Kept-bind _ _ (Kept-ignore _ (runs _ refl)) (λ _.
          Kept-bind _ _ (must_succeed-Kept P mac runs _ _ _ refl)
            (λ _. Kept-ignore _ (runs _ refl)))))

  create_vm-Kept : Kept P (create_vm mac)
  unfolding create_vm
  create_vm-Kept = Kept-bind _ _ (Kept-map_err _ _ (writes _ _)) (λ _.
      Kept-bind _ _ (must_succeed-Kept P mac runs _ _ _ refl) (λ _.
        Kept-bind _ _ (must_succeed-Kept P mac runs _ _ _ refl) (λ _. Kept-ignore _ (removes _))))

  pub set_up-Kept : (json : Json) → Kept P (set_up mac json)
  unfolding install_binary_in_vm
  set_up-Kept json = Kept-bind _ _ create_vm-Kept (λ _.
      Kept-bind _ _
        (Kept-bind _ _ (ensure_linux_binary-Kept _ _) (λ _. Kept-ignore _ (runs _ refl)))
        (λ _. vm_status-Kept P mac runs json))

  pub start_vm-Kept : (json : Json) → Kept P (start_vm mac json)
  unfolding start_vm
  start_vm-Kept json = Kept-bind _ _ (ensure_limactl-Kept P mac runs) (λ _.
      Kept-bind _ _ (repair-Kept json) (λ _.
        Kept-bind _ _ (vm_status-Kept P mac runs json) (λ status.
          Kept-if _ _ _
            (Kept-bind _ _ (Kept-if _ _ _ (Kept-pure tt) (must_succeed-Kept P mac runs _ _ _ refl))
              (λ _. vm_status-Kept P mac runs json))
            (set_up-Kept json))))

  summaries-Kept : (json : Json) (o : Option (List json.Value)) → Kept P (summaries mac json o)
  summaries-Kept json none = Kept-fail _
  summaries-Kept json (some values) = Kept-pure _

  pub list_vm_sandboxes-Kept : (json : Json) → Kept P (list_vm_sandboxes mac json)
  unfolding list_vm_sandboxes inspect_sandboxes
  list_vm_sandboxes-Kept json = Kept-bind _ _ (vm_status-Kept P mac runs json) (λ status.
      Kept-if _ _ _
        (Kept-bind _ _ (start_vm-Kept json) (λ _. Kept-bind _ _ (ensure_linux_binary-Kept _ _) (λ _.
          Kept-bind _ _ (context_run-Kept P mac runs _ _ refl)
            (λ o. Kept-if _ _ _ (summaries-Kept json _) (Kept-fail _)))))
        (Kept-pure []))
