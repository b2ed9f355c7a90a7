-- ===== src/Runtime/Nspawn/Exec.antt =====
-- `NspawnRuntime::exec` and `read_cgroup_stats` of src/runtime/nspawn.rs.
pub mod Bounded
use Prim.Native.String.{◌++◌, len, slice}
use text.Mathlib.Text.{is_char_boundary}
use mathlib.Core.List.{◌++◌ as append}
use mathlib.Core.Option
use clawstainer.Base.{
  ℕ, ◌-◌, ◌%◌, ◌^◌, String, Bool, true, false, List, [], ◌∷◌, map, ◌==◌, ltb, if◌then◌else◌, Option,
  none, some,
}
use clawstainer.Base.Decimal.{decimal}
use clawstainer.Base.Int.{ℤ, pos, negsuc}
use clawstainer.Base.Map.{Map, contains_key}
use clawstainer.Base.Text.{trim, lines, replace, parse_uint, begins_with, split_whitespace}
use clawstainer.Errors.{claw, exec_failed, panic, Result, ok, err, display}
use clawstainer.Exec.{Exec, pure, lift, map_err, attempt, ◌>>=◌, ◌>>◌}
use clawstainer.Runtime.{ExecOpts, ExecResult, require_linux}
use clawstainer.Runtime.Host.{Host, Output}

abbrev pub max_output_bytes : ℕ
max_output_bytes = 1048576

-- `--setenv` for the standard variables that the caller does not set, then for the caller's.
unfoldable pub setenv : String × String → String
setenv (k, v) = "--setenv=" ++ k ++ "=" ++ v

unfoldable pub defaults_left : Map String → List (String × String) → List (String × String)
defaults_left env [] = []
defaults_left env ((k, v) ∷ rest) =
    let others = defaults_left env rest in if contains_key k env then others else (k, v) ∷ others

unfoldable pub default_env : String → List (String × String)
default_env user =
    ("HOME", if user == "root" then "/root" else "/home/" ++ user)
    ∷ ("USER", user)
    ∷ ("PATH", "/usr/local/sbin:/usr/local/bin:/usr/sbin:/usr/bin:/sbin:/bin")
    ∷ ("LANG", "C.UTF-8")
    ∷ ("TERM", "xterm-256color")
    ∷ []

unfoldable pub env_args : ExecOpts → List String
unfolding setenv defaults_left default_env
env_args opts = map setenv (append (defaults_left opts.env (default_env opts.user)) opts.env)

unfoldable pub exec_command : String → ExecOpts → List String
unfolding env_args decimal
exec_command machine_id opts =
    append
      ("systemd-run"
        ∷ ("--machine=" ++ machine_id)
        ∷ "--wait"
        ∷ "--pipe"
        ∷ "--collect"
        ∷ "--service-type=exec"
        ∷ ("--property=RuntimeMaxSec=" ++ decimal opts.timeout)
        ∷ [])
      (append (if opts.user == "root" then [] else ("--uid=" ++ opts.user) ∷ []) (
        append
          (if opts.workdir == "/root" then [] else ("--working-directory=" ++ opts.workdir) ∷ [])
          (append (env_args opts) ("--" ∷ "sh" ∷ "-c" ∷ opts.command ∷ []))))

-- `s.truncate(MAX_OUTPUT_BYTES)` of a text that is longer: a panic inside a character.
unfoldable pub truncate : String → Result String
truncate s =
    if ltb max_output_bytes (len s)
    then if is_char_boundary s max_output_bytes
      then ok (slice s 0 max_output_bytes)
      else err (panic "assertion failed: self.is_char_boundary(new_len)")
    else ok s

-- `output.status.code() == Some(255)`
unfoldable pub timed_out_code : Option ℤ → Bool
timed_out_code none = false
timed_out_code (some (negsuc n)) = false
timed_out_code (some (pos n)) = if ltb n 255 then false else if ltb 255 n then false else true

abbrev code_or_minus_one : Option ℤ → ℤ
code_or_minus_one none = negsuc 0
code_or_minus_one (some code) = code

abbrev result_option {ℓ} : {A : Type ℓ} → Result A → Option A
result_option (ok a) = some a
result_option (err e) = none

abbrev second : List String → Option String
second (_ ∷ word ∷ _) = some word
second _ = none

cpu_line : List String → Option String
cpu_line [] = none
cpu_line (l ∷ ls) = if begins_with "usage_usec" l then some l else cpu_line ls

module _ {W : Type 0} (host : Host W) where
  unfoldable pub read_cgroup_stats : String → Exec W (Option ℕ × Option ℕ)
  unfolding ◌>>=◌ pure attempt replace parse_uint trim lines cpu_line split_whitespace
  read_cgroup_stats machine_id = do
    let cgroup_base =
        "/sys/fs/cgroup/machine.slice/machine-" ++ replace b'-' "\\x2d" machine_id ++ ".scope"
    peak ← attempt (host.read_to_string (cgroup_base ++ "/memory.peak"))
    stat ← attempt (host.read_to_string (cgroup_base ++ "/cpu.stat"))
    pure (
      Option.bind (result_option peak) (λ s. parse_uint (2 ^ 64) (trim s)),
      Option.bind (result_option stat) (λ content.
          Option.bind (cpu_line (lines content))
            (λ l. Option.bind (second (split_whitespace l)) (λ v. parse_uint (2 ^ 64) v))),
    )

  -- What the finished command is turned into.
  unfoldable pub exec_result :
      String → ℕ → Output → Option ℕ × Option ℕ → String → String → ExecResult
  unfolding timed_out_code
  exec_result machine_id duration_ms output stats stdout stderr = record {
    machine_id = machine_id;
    exit_code = code_or_minus_one output.code;
    stdout = stdout;
    stderr = stderr;
    duration_ms = duration_ms;
    timed_out = timed_out_code output.code;
    truncated = ltb max_output_bytes (len output.stdout);
    total_bytes =
        if ltb max_output_bytes (len output.stdout)
        then some (len output.stdout % 2 ^ 64)
        else none;
    peak_memory_bytes = stats.0;
    cpu_time_us = stats.1;
  }

  elapsed_since : ℕ → Exec W ℕ
  elapsed_since start w = (ok (host.clock.now w - start), w)

  unfoldable pub exec : String → ExecOpts → Exec W ExecResult
  unfolding elapsed_since display
  exec machine_id opts = do
    require_linux host.os
    start ← elapsed_since 0
    output ←
        map_err (λ e. claw (exec_failed ("Failed to execute systemd-run: " ++ display e)))
          (host.run (exec_command machine_id opts))
    duration_ms ← elapsed_since start
    stdout ← lift (truncate output.stdout)
    stderr ← lift (truncate output.stderr)
    stats ← read_cgroup_stats machine_id
    pure (exec_result machine_id duration_ms output stats stdout stderr)
