-- ===== src/Witnesses/Lima.antt =====
-- The theorems on the Lima proxy, at a host whose one machine is `true` while it exists.
use clawstainer.Base.{
  String, Bool, true, false, ◌≡◌, refl, List, [], ◌∷◌, Option, none, some, ◌==◌, if◌then◌else◌, ◌⊎◌,
}
use clawstainer.Base.Int.{pos}
use clawstainer.Base.Text.{has_char, split_once}
use clawstainer.Commands.Vm.{Terminal, recreate}
use clawstainer.Commands.Vm.Guarded.{MayDelete, HasAppeared, recreate-guarded}
use clawstainer.Errors.{ok}
use clawstainer.Exec.{pure}
use clawstainer.Exec.Kept.{Kept-pure}
use clawstainer.Lima.{Json, Mac, vm_status}
use clawstainer.Lima.Escape.{needs_quotes, inner_command, linux_binary}
use clawstainer.Lima.Escape.Words.{gap, is_gap, is_special, read_words}
use clawstainer.Lima.Escape.Words.RoundTrip.{all_plain, read_words-inner_command}
use clawstainer.Lima.Kept.{is_delete}
use clawstainer.Lima.Machine.Kept.{HostKeeps}
use clawstainer.Lima.Pid.{repair_stale_pid}
use clawstainer.Lima.Pid.Kept.{IsStale, repair_stale_pid-Kept}
use clawstainer.Runtime.Host.{Output}

read_words-inner_command_example :
    read_words gap (inner_command ("exec" ∷ "it's $HOME" ∷ []))
    ≡ some ("sudo" ∷ linux_binary ∷ "exec" ∷ "it's $HOME" ∷ [])
unfolding needs_quotes has_char all_plain is_gap is_special
read_words-inner_command_example =
    read_words-inner_command ("exec" ∷ "it's $HOME" ∷ []) (refl, (refl, tt))

-- A line has a name and a status.
abbrev field_of : Option (String × String) → String → Option (String × String)
field_of none key = none
field_of (some (name, status)) key =
    if key == "name" then some (name, "") else if key == "status" then some (status, "") else none

abbrev example_json : Json
example_json = record {
  Value = String × String;
  from_str = split_once b' ';
  list_from_str = λ s. some [];
  field = λ v key. field_of (some v) key;
  as_str = λ v. some v.0;
  as_u64 = λ v. none;
  as_i64 = λ v. none;
  as_bool = λ v. none;
}

abbrev answer : List String → Bool → Output
answer cmd there = record {
  code = some (pos 0);
  stdout = if there then "clawstainer Stopped" else "";
  stderr = "";
}

abbrev example_mac : Mac Bool
example_mac = record {
  run = λ cmd w. (ok (answer cmd w), if is_delete cmd then false else w);
  exists = λ path w. w;
  read_to_string = λ path. pure "4711";
  write = λ path content. pure tt;
  remove_file = λ path w. (ok tt, w);
  kill = λ pid w. some 3;
  lima_home = none;
  home_dir = some "/Users/claw";
  temp_dir = "/tmp";
  project_dir = "/src/clawstainer";
  config = "mounts: __PROJECT_DIR__";
}

abbrev IsThere : Bool → Type 0
IsThere w = w ≡ true

example_mac-HostKeeps : HostKeeps IsThere example_mac
example_mac-HostKeeps = record {
  runs = λ cmd h. record { keep = λ w p. rw h p };
  reads = λ path. Kept-pure "4711";
  writes = λ path content. Kept-pure tt;
  removes = λ path. record { keep = λ w p. p };
}

repair_stale_pid-Kept_example :
    IsThere (repair_stale_pid example_mac example_json true).1
    ⊎ IsStale example_mac example_json true
repair_stale_pid-Kept_example =
    repair_stale_pid-Kept example_mac IsThere example_json example_mac-HostKeeps.runs
      (Kept-pure "4711") true refl

abbrev example_terminal : Terminal Bool
example_terminal = record { is_terminal = λ w. true; flush = pure tt; read_line = pure "no\n" }

recreate-guarded_example :
    IsThere (recreate example_terminal example_mac example_json false false true).1
    ⊎ (MayDelete example_terminal example_mac example_json false false
          (vm_status example_mac example_json true).1
        ⊎ HasAppeared example_terminal example_mac example_json true)
recreate-guarded_example =
    recreate-guarded IsThere example_terminal example_mac example_json example_mac-HostKeeps
      (Kept-pure tt) (Kept-pure "no\n") false false true refl
