-- ===== src/Examples.antt =====
-- A small host, runtime and state to run the model on.
use clawstainer.Base.{ℕ, ◌+◌, String, true, false, none, some, [], ◌∷◌, arith}
use clawstainer.Base.Int.{pos}
use clawstainer.Errors.{ok}
use clawstainer.Network.{NetworkState}
use clawstainer.State.{Machine, State}
use clawstainer.State.Disk.{Codec, Disk}
use clawstainer.State.Store.{Sys}
use clawstainer.Runtime.{CreateOpts, ExecResult, Runtime}
use clawstainer.Runtime.Host.{Host, Output}
use clawstainer.Runtime.Images.{Images}
use clawstainer.Runtime.Poll.{Clock, Check}
use clawstainer.Runtime.Firecracker.{Api}
use clawstainer.Runtime.Firecracker.Create.{Guest}
use clawstainer.Component.{ComponentDef, ComponentsFile}

-- The world is a clock in milliseconds.
abbrev pub example_clock : Clock ℕ
example_clock = record { now = λ t. t; sleep = λ d t. t + d; now-sleep = λ d t. omega arith }

abbrev pub ready_check : Check ℕ example_clock
ready_check = record { test = λ t. (true, t); now-test = λ t. omega arith }

abbrev pub running_output : Output
running_output = record { code = some (pos 0); stdout = "State=running\nLeader=7\n"; stderr = "" }

-- Every command succeeds at once and prints that the machine is running.
abbrev pub example_host : Host ℕ
example_host = record {
  os = "linux";
  utc_now = λ t. t;
  clock = example_clock;
  random_word = λ t. (7, t);
  random_indices = λ t. ((0, 0), t);
  run = λ cmd t. (ok running_output, t);
  spawn = λ cmd t. (ok 7, t);
  exists = λ path t. true;
  read_to_string = λ path t. (ok "", t);
  create_file = λ path t. (ok tt, t);
  create_dir_all = λ path t. (ok tt, t);
  remove_file = λ path t. (ok tt, t);
  now-run = λ cmd t. omega arith;
}

abbrev pub example_images : Images ℕ
example_images = record {
  ensure_base_image = λ t. (ok "/base", t);
  extract = λ name t. (ok "/snapshot", t);
  setup = λ id base snapshot t. (ok "/merged", t);
  teardown = λ id t. (ok tt, t);
  ensure_assets = λ t. (ok ("/firecracker", "/vmlinux"), t);
  create_vm_rootfs = λ id t. (ok "/rootfs", t);
  cleanup_vm_rootfs = λ id t. (ok tt, t);
}

abbrev pub example_machine : String → String → Machine
example_machine id ip = record {
  id = id;
  name = "bold-otter";
  status = "running";
  pid = some 7;
  ip = some ip;
  memory_mb = 512;
  cpus = 1;
  network = "nat";
  created_at = 0;
  components = [];
  timeout = 0;
  root_path = "/merged";
  runtime = "nspawn";
  security = "strict";
  has_env_file = false;
  linger = false;
  fleet_name = some "web";
}

abbrev pub example_network : NetworkState
example_network = record {
  bridge = "claw-br0";
  subnet = "10.0.0.0/24";
  allocated_ips = ("10.0.0.2", "sb-a") ∷ ("10.0.0.3", "sb-b") ∷ [];
  next_octet = 4;
}

abbrev pub full_network : NetworkState
full_network = record example_network { next_octet = 255 }

-- Two machines, each with its address.
abbrev pub example_state : State
example_state = record {
  version = 1;
  machines =
      ("sb-a", example_machine "sb-a" "10.0.0.2")
      ∷ ("sb-b", example_machine "sb-b" "10.0.0.3")
      ∷ [];
  network = example_network;
}

abbrev pub example_sys : Sys ℕ
example_sys = record { state = example_state; world = 0 }

abbrev pub example_opts : CreateOpts
example_opts = record {
  name = some "web";
  memory_mb = 512;
  cpus = 1;
  network = "none";
  timeout = 0;
  runtime = "nspawn";
  security = "strict";
  cap_add = "CAP_MKNOD" ∷ [];
  cap_drop = [];
  env_file = none;
  from_snapshot = none;
  linger = false;
}

abbrev pub exited : ℕ → ExecResult
exited code = record {
  machine_id = "sb-a";
  exit_code = pos code;
  stdout = "";
  stderr = "";
  duration_ms = 0;
  timed_out = false;
  truncated = false;
  total_bytes = none;
  peak_memory_bytes = none;
  cpu_time_us = none;
}

-- A runtime in which each command exits with 0 and each machine runs.
abbrev pub example_runtime : Runtime ℕ
example_runtime = record {
  create = λ opts s.
      (ok (record { id = "sb-c"; name = "web"; status = "running"; ip = none; created_at = 0 }), s);
  exec = λ id opts t. (ok (exited 0), t);
  shell = λ id user t. (ok tt, t);
  destroy = λ id s. (ok (record { machine_id = id; status = "destroyed"; uptime_seconds = 0 }), s);
  status = λ id t. (ok (record { id = id; status = "running"; pid = some 7 }), t);
}

-- A codec of one state alone.
abbrev pub example_codec : State → Codec
example_codec s = record { print = λ t. "state"; parse = λ text. some s }

abbrev pub example_disk : Disk ℕ
example_disk = record { state_json = some "state"; state_tmp = none; world = 0 }

abbrev pub example_def : ComponentDef
example_def = record {
  install = "apt-get install -y git";
  verify = "git --version";
  tags = [];
  timeout = none;
}

abbrev pub example_components : ComponentsFile
example_components = record {
  components = ("git", example_def) ∷ ("curl", example_def) ∷ [];
  bundles = ("web", record { components = "git" ∷ "curl" ∷ [] }) ∷ [];
}

-- An API that accepts every request.
abbrev pub example_api : Api ℕ
example_api = record { put = λ socket path body t. (ok (record { status = 204; body = "" }), t) }

-- A guest that is ready at once.
abbrev pub example_guest : Guest ℕ
example_guest = record {
  wait_for_ready = λ socket timeout t. (ok tt, t);
  wait_for_agent = λ socket timeout t. (ok tt, t);
}
