-- ===== src/Witnesses/Machines.antt =====
-- The theorems at a concrete input, where their hypotheses hold.
use mathlib.Core.Option.{bind}
use clawstainer.Base.{eq_iff, false, ℕ, ◌≡◌, refl, true, none, some, [], ◌∷◌, arith}
use clawstainer.Base.Map.{get, insert}
use clawstainer.Base.Text.{has_text}
use clawstainer.Errors.{Result, err, other, is_ok}
use clawstainer.Exec.{pure}
use clawstainer.Network.{allocate, exhausted}
use clawstainer.Network.Pool.{Outcome, PoolOp, run, allocate-Outcome, exhausted_for_good}
use clawstainer.State.{Machine}
use clawstainer.State.Reconcile.{
  adopt, query, require_running, reconcile_machine, get_running_machine_live,
}
use clawstainer.State.Reconcile.Live.{Stored, get_running_machine_live-running}
use clawstainer.Runtime.Poll.{poll_with_backoff, Ended, poll_with_backoff-Ended}
use clawstainer.Runtime.Images.{Images}
use clawstainer.State.Consistent.{IsConsistent, insert-IsConsistent}
use clawstainer.State.Store.{with_lock, with_read_lock, on_host, get_machine}
use clawstainer.Runtime.Nspawn.Create.{
  create, machine_name, extract_snapshot, enable_linger, prepare_root, assign_ip, boot,
  insert_machine,
}
use clawstainer.Runtime.{MachineInfo, require_linux}
use clawstainer.Runtime.Naming.{generate_id}
use clawstainer.Runtime.Host.{random_word}
use clawstainer.Runtime.Nspawn.Create.Consistent.{Recorded, create-IsConsistent, create-Recorded}
use clawstainer.Runtime.Nspawn.Destroy.{destroy}
use clawstainer.Runtime.Nspawn.Destroy.Laws.{
  destroy-IsConsistent, IsDestroyed, destroy_frees, destroy_cleanup_failed,
}
use clawstainer.Base.Int.{pos}
use clawstainer.Runtime.{ExecResult}
use clawstainer.Component.Provisioner.{root_exec}
use clawstainer.Runtime.Nspawn.Exec.{exec, truncate, read_cgroup_stats, exec_result}
use clawstainer.Exec.{map_err, ◌>>=◌}
use clawstainer.Runtime.Nspawn.Exec.Bounded.{Bounded, exec-Bounded}
use clawstainer.Examples.{
  running_output, example_clock, ready_check, example_host, example_images, example_machine,
  example_network, full_network, example_state, example_sys, example_opts, example_runtime,
}

no_machines-IsConsistent : IsConsistent (record example_state { machines = [] })
unfolding get
no_machines-IsConsistent = record { owned = λ id ip m h e. absurd (cc h); small = omega arith }

pub example_state-IsConsistent : IsConsistent example_state
unfolding get insert
example_state-IsConsistent =
    insert-IsConsistent
      (record example_state { machines = ("sb-a", example_machine "sb-a" "10.0.0.2") ∷ [] }) "sb-b"
      (example_machine "sb-b" "10.0.0.3")
      (insert-IsConsistent (record example_state { machines = [] }) "sb-a"
        (example_machine "sb-a" "10.0.0.2") no_machines-IsConsistent (λ ip e. cc e))
      (λ ip e. cc e)

create-IsConsistent_example :
    IsConsistent (create example_host example_images example_opts example_sys).1.state
create-IsConsistent_example =
    create-IsConsistent example_host example_images example_opts example_sys
      example_state-IsConsistent

abbrev new_info : MachineInfo
new_info = record {
  id = "sb-00000007";
  name = "web";
  status = "running";
  ip = none;
  created_at = 0;
}

create-Recorded_example :
    Recorded example_host example_images
      (record { id = "sb-00000007"; name = "web"; status = "running"; ip = none; created_at = 0 })
      (create example_host example_images example_opts example_sys).1
unfolding create random_word machine_name extract_snapshot enable_linger prepare_root assign_ip boot
    insert_machine generate_id require_linux on_host pure with_lock has_text
create-Recorded_example =
    create-Recorded example_host example_images example_opts example_sys {info = new_info}
      example_state-IsConsistent refl

destroy-IsConsistent_example :
    IsConsistent (destroy example_host example_images "sb-a" example_sys).1.state
destroy-IsConsistent_example =
    destroy-IsConsistent example_host example_images "sb-a" example_sys example_state-IsConsistent

allocate-Outcome_example : Outcome example_network 4 "sb-c" (allocate "sb-c" example_network)
allocate-Outcome_example = allocate-Outcome example_network "sb-c" (omega arith)

exhausted_for_good_example :
    let ops = PoolOp.give_back "10.0.0.2" ∷ [] in
    allocate "sb-c" (run full_network ops) ≡ (err (other exhausted), run full_network ops)
exhausted_for_good_example =
    exhausted_for_good full_network (PoolOp.give_back "10.0.0.2" ∷ []) "sb-c" refl

abbrev m_a : Machine
m_a = example_machine "sb-a" "10.0.0.2"

destroy_frees_example :
    let end = destroy example_host example_images "sb-a" example_sys in
    let t = end.1.state in
    IsDestroyed example_host example_images "sb-a" example_sys end.0
    × (get "sb-a" t.machines ≡ none)
    × (get "10.0.0.2" t.network.allocated_ips ≡ none)
    × (get "sb-b" t.machines ≡ get "sb-b" example_sys.state.machines)
unfolding get
destroy_frees_example =
    destroy_frees example_host example_images "sb-a" example_sys m_a "10.0.0.2" "sb-b" refl refl
      refl refl (λ e. cc ((eq_iff "sb-a" "sb-b").1 e))

abbrev broken_images : Images ℕ
broken_images = record example_images {
  teardown = λ id t. (err (other "Failed to unmount overlay"), t);
}

destroy_cleanup_failed_example :
    let t = (destroy example_host broken_images "sb-a" example_sys).1.state in
    (get "sb-a" t.machines ≡ some (record m_a { status = "failed" }))
    × (t.network ≡ example_network)
    × (is_ok (destroy example_host broken_images "sb-a" example_sys).0 ≡ true)
unfolding get
destroy_cleanup_failed_example =
    destroy_cleanup_failed example_host broken_images "sb-a" example_sys m_a refl refl refl

get_running_machine_live-running_example :
    (m_a.status ≡ "running")
    × Stored "sb-a" (get_running_machine_live "sb-a" example_runtime example_sys).1 m_a
unfolding get_running_machine_live reconcile_machine query adopt get get_machine with_read_lock
    require_running
get_running_machine_live-running_example =
    get_running_machine_live-running "sb-a" example_runtime example_sys {m = m_a} refl

poll_with_backoff-Ended_example :
    (r : Result (Unit {0}) × ℕ) × (poll_with_backoff example_clock ready_check 50 1000 10000 "late"
        3
      ≡ some r)
    × Ended example_clock ready_check 1000 10000 3 "late" r
poll_with_backoff-Ended_example =
    poll_with_backoff-Ended example_clock ready_check 50 1000 10000 "late" 3 (omega arith)
      (omega arith)

abbrev printed : ExecResult
printed = record {
  machine_id = "sb-a";
  exit_code = pos 0;
  stdout = running_output.stdout;
  stderr = "";
  duration_ms = 0;
  timed_out = false;
  truncated = false;
  total_bytes = none;
  peak_memory_bytes = none;
  cpu_time_us = none;
}

exec-Bounded_example : Bounded printed
unfolding exec ◌>>=◌ require_linux map_err truncate read_cgroup_stats exec_result bind
exec-Bounded_example =
    exec-Bounded example_host "sb-a" (root_exec "uptime" 60 []) 0 {r = printed} refl
