-- ===== src/Witnesses/Failures.antt =====
-- A creation that fails: the container of src/runtime/nspawn.rs cannot be launched.
use clawstainer.Base.Map.{contains_key, get}
use clawstainer.Network.{allocate, allocate_from, octet_ip}
use clawstainer.Base.{ℕ, String, false, some, none, refl}
use clawstainer.Base.Json.{Json}
use clawstainer.Commands.Machine.{CreateArgs, create_run, create_opts}
use clawstainer.Main.{make_runtime}
use clawstainer.Main.Backends.{nspawn, create_command}
use clawstainer.Main.Backends.Failed.{creates, create_command-LeftOver}
use clawstainer.Runtime.Firecracker.Client.{Socket}
use clawstainer.Errors.{other, ok, err}
use clawstainer.Exec.{pure, map_err, ◌>>=◌}
use clawstainer.Examples.{example_host, example_images, example_sys}
use clawstainer.Runtime.{require_linux}
use clawstainer.Runtime.Host.{Host, random_word}
use clawstainer.Runtime.Naming.{generate_id}
use clawstainer.Runtime.Nspawn.Create.{
  allocate_ip, allocated, assign_ip, setup_network, machine_name, extract_snapshot, enable_linger,
  prepare_root, boot, create,
}
use clawstainer.Runtime.Nspawn.Create.Failed.{LeftOver}
use clawstainer.State.Store.{on_host, with_lock}

abbrev no_launch : Host ℕ
no_launch = record example_host { spawn = λ cmd t. (err (other "no systemd-nspawn"), t) }

-- A VM that no socket reaches.
abbrev no_socket : Socket ℕ
no_socket = record {
  exists = λ path t. false;
  connect = λ path t. (err (other "refused"), t);
  write_all = λ sent t. (err (other "refused"), t);
  shutdown_write = λ t. (err (other "refused"), t);
  flush = λ t. (err (other "refused"), t);
  read_to_string = λ t. (err (other "refused"), t);
  read_line = λ t. (err (other "refused"), t);
  print_body = λ body. ok "{}";
}

abbrev text_json : Json
text_json = record {
  Value = String;
  from_str = λ s. some s;
  list_from_str = λ s. none;
  field = λ v key. some v;
  as_str = λ v. some v;
  as_u64 = λ v. none;
  as_i64 = λ v. none;
  as_bool = λ v. none;
}

abbrev nat_args : CreateArgs
nat_args = record {
  name = some "web";
  memory = 512;
  cpus = 1;
  network = "nat";
  timeout = 0;
  runtime = "nspawn";
  security = "strict";
  cap_add = none;
  cap_drop = none;
  env_file = none;
  from_snapshot = none;
  linger = false;
}

create_command-LeftOver_example :
    LeftOver example_sys.state
      (creates no_launch example_images no_socket text_json ok
        (λ opts. opts.command)
        "health"
        (λ o. o.stdout)
        nat_args
        example_sys).1.state
unfolding create random_word machine_name extract_snapshot enable_linger prepare_root assign_ip boot
    allocate_ip allocated setup_network generate_id require_linux on_host pure with_lock map_err
    ◌>>=◌ allocate allocate_from contains_key get octet_ip create_command create_run make_runtime
    nspawn create_opts
create_command-LeftOver_example =
    create_command-LeftOver no_launch example_images no_socket text_json ok (λ opts. opts.command)
      "health" (λ o. o.stdout) nat_args example_sys refl
