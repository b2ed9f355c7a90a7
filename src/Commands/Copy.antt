-- ===== src/Commands/Copy.antt =====
-- src/commands/cp.rs and port_forward.rs: copies to and from a machine, and forwarded ports.
pub mod Laws
use clawstainer.Base.{
  ℕ, String, Bool, true, false, Option, none, some, List, [], ◌∷◌, if◌then◌else◌,
}
use clawstainer.Base.Decimal.{decimal}
use clawstainer.Base.Text.{begins_with, split_once, parse_uint}
use clawstainer.Errors.{Failure, claw, copy_failed, exec_failed, display, Result, ok, err}
use clawstainer.Exec.{Exec, pure, fail, lift, map_err, ignore, attempt, ◌>>=◌, ◌>>◌}
use clawstainer.Main.{runtime_for_machine}
use clawstainer.Runtime.{Runtime}
use clawstainer.Runtime.Host.{Host, Output, success, ran_ok}
use clawstainer.State.Reconcile.{get_running_machine_live, get_machine_ip_live}
use clawstainer.State.Store.{Sys, on_host}
use Prim.Native.String.{◌++◌}

pub data Direction : Type 0 where
  pull push : Direction

pub record CpResult : Type 0 where
  pub machine_id : String
  pub direction : Direction
  pub src : String
  pub dst : String

abbrev machine_of : String → Option (String × String) → Option String × String
machine_of s none = (none, s)
machine_of s (some (left, right)) = if begins_with "sb-" left then (some left, right) else (none, s)

unfoldable pub parse_path : String → Option String × String
parse_path s = machine_of s (split_once b':' s)

abbrev copy_error : String → Failure
copy_error msg = claw (copy_failed msg)

unfoldable pub direction_of : Option String → Option String → Result (String × Direction)
direction_of (some id) none = ok (id, pull)
direction_of none (some id) = ok (id, push)
direction_of (some _) (some _) = err (copy_error "Cannot copy directly between two sandboxes")
direction_of none none =
    err (copy_error "One of src or dst must be a sandbox path (MACHINE_ID:/path)")

abbrev verb : Direction → String
verb pull = "copy-from"
verb push = "copy-to"

-- The ports of a mapping, as `u16` values.
abbrev port_or : Failure → Option ℕ → Result ℕ
port_or e none = err e
port_or e (some p) = ok p

abbrev parse_u16 : String → String → Result ℕ
parse_u16 what s = port_or (claw (exec_failed (what ++ s))) (parse_uint 65536 s)

abbrev second_port : ℕ → Result ℕ → Result (ℕ × ℕ)
second_port host (ok sandbox) = ok (host, sandbox)
second_port host (err e) = err e

abbrev both_ports : Result ℕ → Result ℕ → Result (ℕ × ℕ)
both_ports (ok host) sandbox = second_port host sandbox
both_ports (err e) sandbox = err e

abbrev same_port : Result ℕ → Result (ℕ × ℕ)
same_port (ok p) = ok (p, p)
same_port (err e) = err e

abbrev ports_of : String → Option (String × String) → Result (ℕ × ℕ)
ports_of s (some (host, sandbox)) =
    both_ports (parse_u16 "Invalid host port: " host) (parse_u16 "Invalid sandbox port: " sandbox)
ports_of s none = same_port (parse_u16 "Invalid port: " s)

unfoldable pub parse_port : String → Result (ℕ × ℕ)
parse_port s = ports_of s (split_once b':' s)

abbrev dnat_rule : String → ℕ → String → ℕ → List String
dnat_rule chain host_port ip sandbox_port =
    "iptables"
    ∷ "-t"
    ∷ "nat"
    ∷ "-A"
    ∷ chain
    ∷ "-p"
    ∷ "tcp"
    ∷ "--dport"
    ∷ decimal host_port
    ∷ "-j"
    ∷ "DNAT"
    ∷ "--to-destination"
    ∷ (ip ++ ":" ++ decimal sandbox_port)
    ∷ []

abbrev accept_rule : String → ℕ → List String
accept_rule ip sandbox_port =
    "iptables"
    ∷ "-A"
    ∷ "FORWARD"
    ∷ "-p"
    ∷ "tcp"
    ∷ "-d"
    ∷ ip
    ∷ "--dport"
    ∷ decimal sandbox_port
    ∷ "-j"
    ∷ "ACCEPT"
    ∷ []

module _ {W : Type 0} (host : Host W) (nspawn firecracker : Runtime W) where
  -- The message names the exit status, which is the host's to print.
  unfoldable pub machinectl : (Output → String) → Direction → String → String → String → Exec W Unit
  machinectl print_status direction id src dst = do
    o ←
        map_err (λ e. copy_error ("Failed to run machinectl: " ++ display e))
          (host.run ("machinectl" ∷ verb direction ∷ id ∷ src ∷ dst ∷ []))
    if success o
        then pure tt
        else fail (
            copy_error
              ("machinectl " ++ verb direction ++ " exited with status: " ++ print_status o))

  unfoldable pub copy_live :
      (Output → String) → String → Direction → String → String → Exec (Sys W) CpResult
  copy_live print_status id direction src dst = do
    runtime ← runtime_for_machine nspawn firecracker id
    machine ← get_running_machine_live id runtime
    on_host (machinectl print_status direction id src dst)
    pure (record { machine_id = id; direction = direction; src = src; dst = dst })

  unfoldable pub cp_run : (Output → String) → String → String → Exec (Sys W) CpResult
  unfolding direction_of parse_path
  cp_run print_status src dst = do
    target ← lift (direction_of (parse_path src).0 (parse_path dst).0)
    copy_live print_status target.0 target.1 (parse_path src).1 (parse_path dst).1

  unfoldable pub add_rules : ℕ → String → ℕ → Exec W Unit
  add_rules host_port ip sandbox_port = do
    status ← attempt (host.run (dnat_rule "PREROUTING" host_port ip sandbox_port))
    (if ran_ok status
        then ignore (host.run (dnat_rule "OUTPUT" host_port ip sandbox_port))
        else pure tt)
    ignore (host.run (accept_rule ip sandbox_port))

  -- The result is what is said to be forwarded: the host's port, the address and its port.
  unfoldable pub forward : String → ℕ × ℕ → Exec (Sys W) (ℕ × String × ℕ)
  forward machine_id ports = do
    runtime ← runtime_for_machine nspawn firecracker machine_id
    ip ← get_machine_ip_live machine_id runtime
    on_host (add_rules ports.0 ip ports.1)
    pure (ports.0, ip, ports.1)

  unfoldable pub port_forward_run : String → String → Exec (Sys W) (ℕ × String × ℕ)
  port_forward_run port machine_id = lift (parse_port port) >>= forward machine_id
