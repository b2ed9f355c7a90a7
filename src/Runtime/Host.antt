-- ===== src/Runtime/Host.antt =====
-- What the code takes from the host: the commands that it runs, files, clocks and random numbers.
-- Also the network commands of src/network/bridge.rs, nat.rs and tap.rs.
use clawstainer.Base.{ℕ, ◌≤◌, String, Bool, false, Option, none, some, List, [], ◌∷◌, if◌then◌else◌}
use clawstainer.Base.Int.{ℤ, is_zero}
use clawstainer.Errors.{other, Result, ok, err}
use clawstainer.Exec.{Exec, pure, map_err, ignore, attempt, ◌>>=◌, ◌>>◌}
use clawstainer.Runtime.Poll.{Clock, Check, poll_with_backoff}

-- `std::process::Output`; a process killed by a signal has no code.
pub record Output : Type 0 where
  pub code : Option ℤ
  pub stdout : String
  pub stderr : String

-- `status.success()`
abbrev pub exited_ok : Option ℤ → Bool
exited_ok none = false
exited_ok (some code) = is_zero code

abbrev pub success : Output → Bool
success o = exited_ok o.code

pub record Host (W : Type 0) : Type 0 where
  pub os : String  -- `std::env::consts::OS`
  pub utc_now : W → ℕ  -- seconds
  pub clock : Clock W
  pub random_word : W → ℕ × W
  pub random_indices : W → (ℕ × ℕ) × W
  pub run : List String → Exec W Output  -- a command, until it ends
  pub spawn : List String → Exec W ℕ  -- a command in the background: its process id
  pub exists : String → W → Bool
  pub read_to_string : String → Exec W String
  pub create_file : String → Exec W Unit
  pub create_dir_all : String → Exec W Unit
  pub remove_file : String → Exec W Unit
  pub now-run : (cmd : List String) (w : W) → clock.now w ≤ clock.now (run cmd w).1

-- `.context(msg)`
abbrev pub context : {S A : Type 0} → String → Exec S A → Exec S A
context msg m = map_err (λ _. other msg) m

abbrev pub ran_ok : Result Output → Bool
ran_ok (ok o) = success o
ran_ok (err e) = false

module _ {W : Type 0} (host : Host W) where
  unfoldable pub random_word : Exec W ℕ
  random_word w = let (word, w') = host.random_word w in (ok word, w')

  -- The commands below ignore what the command says: only a failure to run it is an error.
  unfoldable pub must_run : String → List String → Exec W Unit
  unfolding ◌>>=◌ map_err pure
  must_run failed cmd = do context failed (host.run cmd); pure tt

  -- `if let Ok(o) = output { if o.status.success() { return Ok(()) } }`
  unfoldable pub unless_ok : List String → Exec W Unit → Exec W Unit
  unfolding ◌>>=◌ attempt pure
  unless_ok cmd rest = do output ← attempt (host.run cmd); if ran_ok output then pure tt else rest

  unfoldable pub ensure_bridge : Exec W Unit
  unfolding ◌>>=◌ unless_ok must_run
  ensure_bridge = unless_ok ("ip" ∷ "link" ∷ "show" ∷ "claw-br0" ∷ []) do
    must_run "Failed to create bridge" ("ip" ∷ "link" ∷ "add" ∷ "claw-br0" ∷ "type" ∷ "bridge" ∷ [])
    must_run "Failed to assign IP to bridge"
        ("ip" ∷ "addr" ∷ "add" ∷ "10.0.0.1/24" ∷ "dev" ∷ "claw-br0" ∷ [])
    must_run "Failed to bring up bridge" ("ip" ∷ "link" ∷ "set" ∷ "claw-br0" ∷ "up" ∷ [])

  unfoldable pub remove_bridge : Exec W Unit
  unfolding ◌>>=◌ must_run
  remove_bridge = do
    must_run "Failed to bring down bridge" ("ip" ∷ "link" ∷ "set" ∷ "claw-br0" ∷ "down" ∷ [])
    must_run "Failed to delete bridge" ("ip" ∷ "link" ∷ "delete" ∷ "claw-br0" ∷ [])

  unfoldable pub ensure_nat : Exec W Unit
  unfolding ◌>>=◌ unless_ok must_run ignore
  ensure_nat = do
    must_run "Failed to enable IP forwarding" ("sysctl" ∷ "-w" ∷ "net.ipv4.ip_forward=1" ∷ [])
    unless_ok
        ("iptables" ∷ "-t" ∷ "nat" ∷ "-C" ∷ "POSTROUTING" ∷ "-s" ∷ "10.0.0.0/24" ∷ "-j"
          ∷ "MASQUERADE" ∷ [])
        do
          must_run "Failed to add masquerade rule" (
              "iptables" ∷ "-t" ∷ "nat" ∷ "-A" ∷ "POSTROUTING" ∷ "-s" ∷ "10.0.0.0/24" ∷ "-j"
              ∷ "MASQUERADE" ∷ [])
          ignore (
              host.run (
                "iptables" ∷ "-I" ∷ "FORWARD" ∷ "-s" ∷ "10.0.0.0/24" ∷ "-d" ∷ "10.0.0.0/24" ∷ "-j"
                ∷ "DROP" ∷ []))

  unfoldable pub remove_nat : Exec W Unit
  unfolding ◌>>=◌ ignore
  remove_nat = do
    ignore (
        host.run (
          "iptables" ∷ "-t" ∷ "nat" ∷ "-D" ∷ "POSTROUTING" ∷ "-s" ∷ "10.0.0.0/24" ∷ "-j"
          ∷ "MASQUERADE" ∷ []))
    ignore (
        host.run (
          "iptables" ∷ "-D" ∷ "FORWARD" ∷ "-s" ∷ "10.0.0.0/24" ∷ "-d" ∷ "10.0.0.0/24" ∷ "-j"
          ∷ "DROP" ∷ []))

  unfoldable pub create_tap : String → Exec W Unit
  unfolding ◌>>=◌ must_run
  create_tap name = do
    must_run "Failed to create TAP device" ("ip" ∷ "tuntap" ∷ "add" ∷ name ∷ "mode" ∷ "tap" ∷ [])
    must_run "Failed to attach TAP to bridge"
        ("ip" ∷ "link" ∷ "set" ∷ name ∷ "master" ∷ "claw-br0" ∷ [])
    must_run "Failed to bring up TAP device" ("ip" ∷ "link" ∷ "set" ∷ name ∷ "up" ∷ [])

  unfoldable pub delete_tap : String → Exec W Unit
  unfolding ignore
  delete_tap name = ignore (host.run ("ip" ∷ "link" ∷ "delete" ∷ name ∷ []))

  -- A command whose output decides a poll: `test` reads what it gave.
  unfoldable pub command_check : List String → (Result Output → Bool) → Check W host.clock
  command_check cmd test = record {
    test = λ w. let (r, w') = host.run cmd w in (test r, w');
    now-test = λ w. host.now-run cmd w;
  }

  polled : Option (Result (Unit {0}) × W) → W → Result (Unit {0}) × W
  polled none w = (err (other "out of fuel"), w)
  polled (some r) w = r

  -- `poll_with_backoff`, whose fuel never runs out: see Runtime/Poll.
  unfoldable pub poll_command :
      List String → (Result Output → Bool) → ℕ → ℕ → ℕ → String → Exec W Unit
  unfolding polled command_check poll_with_backoff
  poll_command cmd test initial_delay max_delay timeout timeout_msg w =
      polled
        (poll_with_backoff host.clock (command_check cmd test) initial_delay max_delay timeout
          timeout_msg w)
        w
