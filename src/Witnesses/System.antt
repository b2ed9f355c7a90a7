-- ===== src/Witnesses/System.antt =====
-- The theorems on reachable states, at a state reached by a creation.
use clawstainer.Base.{ℕ, String, ◌≡◌, refl, none}
use clawstainer.Base.Map.{get}
use clawstainer.State.{State, Machine, default_state}
use clawstainer.State.Consistent.{IsConsistent}
use clawstainer.State.Store.{Sys}
use clawstainer.Runtime.{CreateOpts, Runtime}
use clawstainer.Runtime.Nspawn.Create.{create}
use clawstainer.Fleet.{FleetCreateArgs}
use clawstainer.System.{Reachable, start, step, creates}
use clawstainer.System.Addresses.{Reachable-IsConsistent, Reachable-ip_unique}
use clawstainer.Examples.{
  example_host, example_images, example_opts, example_components, example_runtime, example_machine,
}
use clawstainer.Exec.{◌>>=◌}
use clawstainer.Runtime.{require_linux}
use clawstainer.State.Store.{on_host}
use clawstainer.Runtime.Host.{random_word}
use clawstainer.Runtime.Nspawn.Create.{machine_name}
use clawstainer.Runtime.Nspawn.Create.{prepare_root}
use clawstainer.Runtime.Nspawn.Create.{assign_ip}
use clawstainer.Runtime.Nspawn.Create.{allocated}
use clawstainer.Runtime.Nspawn.Create.{insert_machine}
use clawstainer.Base.Decimal.{decimal}
use clawstainer.Base.Map.{insert}
use clawstainer.Runtime.Nspawn.Create.{setup_network}
use clawstainer.State.Store.{with_lock}
use clawstainer.Runtime.Nspawn.Create.{allocate_ip}
use clawstainer.Network.{allocate}
use clawstainer.Network.{allocate_from}
use clawstainer.Base.Map.{contains_key}
use clawstainer.Runtime.Nspawn.Create.{boot}
use clawstainer.Base.Text.{has_text}
use clawstainer.Runtime.Naming.{generate_id}
use clawstainer.Network.{octet_ip}

abbrev now : ℕ → ℕ
now t = t

abbrev always : String → Runtime ℕ
always name = example_runtime

abbrev args : FleetCreateArgs
args = record { parallel = 1; network = "nat"; runtime = "nspawn" }

abbrev nat_opts : CreateOpts
nat_opts = record example_opts { network = "nat" }

abbrev empty_sys : Sys ℕ
empty_sys = record { state = default_state; world = 0 }

abbrev reached : State
reached = (create example_host example_images nat_opts empty_sys).1.state

reached-Reachable : Reachable example_images now example_components always args reached
reached-Reachable = step start (creates example_host nat_opts empty_sys)

Reachable-IsConsistent_example : IsConsistent reached
Reachable-IsConsistent_example =
    Reachable-IsConsistent example_images now example_components always args reached-Reachable

abbrev new_machine : Machine
new_machine = record (example_machine "sb-00000007" "10.0.0.2") { name = "web"; fleet_name = none }

Reachable-ip_unique_example : ◌≡◌ {A = String} "sb-00000007" "sb-00000007"
unfolding create get ◌>>=◌ require_linux on_host random_word machine_name prepare_root assign_ip
    allocated insert_machine decimal insert setup_network with_lock allocate_ip allocate
    allocate_from contains_key boot has_text generate_id octet_ip
Reachable-ip_unique_example =
    Reachable-ip_unique example_images now example_components always args {s = reached}
      {i = "sb-00000007"} {j = "sb-00000007"} {ip = "10.0.0.2"} {m = new_machine} {n = new_machine}
      reached-Reachable refl refl refl refl
