-- ===== src/Witnesses/Commands.antt =====
-- The theorem on `destroy --all`, at a state of two machines.
use clawstainer.Base.{String, refl}
use clawstainer.Base.Map.{get, keys, remove}
use clawstainer.Commands.Destroy.{destroy_all, destroy_each}
use clawstainer.Commands.Destroy.Gone.{destroy_all_gone}
use clawstainer.Examples.{example_host, example_images, example_machine, example_sys}
use clawstainer.Exec.{◌>>=◌}
use clawstainer.Main.Backends.{nspawn}
use clawstainer.Runtime.Host.{Output}
use clawstainer.Runtime.Nspawn.Destroy.{
  destroy, forget_machine, shut_down, has_running, remove_networking, commit_destroy,
  remove_machine,
}
use clawstainer.Runtime.Nspawn.Destroy.Laws.{GoneOrFailed}
use clawstainer.State.Store.{with_read_lock}

abbrev no_text : Output → String
no_text o = ""

destroy_all_gone_example : GoneOrFailed (
    get "sb-b"
      (destroy_all (nspawn example_host example_images no_text) example_sys).1.state.machines)
unfolding destroy_all destroy_each keys get ◌>>=◌ with_read_lock destroy nspawn shut_down
    commit_destroy has_running forget_machine remove_machine remove remove_networking
destroy_all_gone_example =
    destroy_all_gone example_host example_images no_text example_sys "sb-b"
      {m = example_machine "sb-b" "10.0.0.3"} refl refl
