-- ===== src/Witnesses/Handlers.antt =====
-- The theorems on copies, ports, lists and statistics.
use clawstainer.State.Reconcile.{adopt, get_running_machine_live, query, reconcile_machine}
use clawstainer.Main.{make_runtime, runtime_for_machine}
use clawstainer.Exec.{map_err, ◌>>=◌}
use clawstainer.Base.Text.{begins_with, split_once}
use clawstainer.Base.{String, ◌≡◌, refl, keep_if, ◌==◌}
use clawstainer.Base.Map.{values, get}
use clawstainer.Commands.Copy.{CpResult, pull, cp_run, machinectl, copy_live}
use clawstainer.Commands.Copy.Laws.{Sides, Copied, LiveCopy, cp_run-Sides}
use clawstainer.Commands.Listing.{print_list}
use clawstainer.Commands.Listing.Filtered.{print_list_stored}
use clawstainer.Errors.{ok}
use clawstainer.Runtime.Host.{Output}
use clawstainer.Examples.{example_host, example_runtime, example_sys}

abbrev no_text : Output → String
no_text o = ""

abbrev pulled_hosts : CpResult
pulled_hosts = record {
  machine_id = "sb-a";
  direction = pull;
  src = "/etc/hosts";
  dst = "/tmp/hosts";
}

cp_run-Sides_example :
    Sides pulled_hosts "sb-a:/etc/hosts" "/tmp/hosts"
    × Copied example_host example_runtime example_runtime pulled_hosts
        (cp_run example_host example_runtime example_runtime no_text "sb-a:/etc/hosts" "/tmp/hosts"
          example_sys).1.world
    × LiveCopy example_host example_runtime example_runtime "sb-a"
        (cp_run example_host example_runtime example_runtime no_text "sb-a:/etc/hosts" "/tmp/hosts"
          example_sys).1
unfolding cp_run ◌>>=◌ split_once begins_with copy_live runtime_for_machine get_running_machine_live
    reconcile_machine get query make_runtime adopt machinectl map_err
cp_run-Sides_example =
    cp_run-Sides example_host example_runtime example_runtime no_text "sb-a:/etc/hosts" "/tmp/hosts"
      example_sys pulled_hosts refl

print_list_stored_example :
    print_list example_runtime example_runtime "stopped" example_sys
    ≡ (ok (keep_if (λ m. m.status == "stopped") (values example_sys.state.machines)), example_sys)
print_list_stored_example =
    print_list_stored example_runtime example_runtime "stopped" example_sys refl refl

abbrev no_total : String
no_total = "MEM_AVAIL:3"
