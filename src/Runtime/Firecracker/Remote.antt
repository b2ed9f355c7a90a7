-- ===== src/Runtime/Firecracker/Remote.antt =====
-- `exec` and `shell` of src/runtime/firecracker.rs: a command through the agent in the microVM, and
-- the serial console.
pub mod Faithful
use clawstainer.Base.{
  ℕ, ◌-◌, ◌%◌, ◌^◌, String, Bool, true, false, Option, none, some, List, [], ◌∷◌, ◌==◌, ltb,
  if◌then◌else◌,
}
use clawstainer.Base.Int.{ℤ, pos, negsuc}
use clawstainer.Base.Json.{Json}
use clawstainer.Errors.{Failure, claw, exec_failed, display, Result, ok, err}
use clawstainer.Exec.{Exec, pure, fail, lift, map_err, ◌>>=◌, ◌>>◌}
use clawstainer.Runtime.{ExecOpts, ExecResult, require_linux}
use clawstainer.Runtime.Firecracker.{socket_path, vsock_path}
use clawstainer.Runtime.Firecracker.Client.{Socket, connect, request}
use clawstainer.Runtime.Host.{Host, success}
use Prim.Native.String.{◌++◌}
use mathlib.Core.Option

-- `as i32` of an `i64`.
abbrev low_word : ℤ → ℕ
low_word (pos n) = n % 2 ^ 32
low_word (negsuc n) = 2 ^ 32 - 1 - n % 2 ^ 32

unfoldable pub to_i32 : ℤ → ℤ
to_i32 i = if ltb (low_word i) (2 ^ 31) then pos (low_word i) else negsuc (2 ^ 32 - 1 - low_word i)

abbrev or_value {ℓ} : {A : Type ℓ} → A → Option A → A
or_value d none = d
or_value d (some a) = a

abbrev wrapped : (Failure → String) → Failure → Failure
wrapped msg e = claw (exec_failed (msg e))

module _ (json : Json) where
  abbrev pub string_at : json.Value → String → Option String
  string_at v key = Option.bind (json.field v key) json.as_str

  abbrev is_error : Option String → Bool
  is_error none = false
  is_error (some kind) = kind == "error"

  abbrev success_of : String → ℕ → json.Value → ExecResult
  success_of machine_id duration_ms v = record {
    machine_id = machine_id;
    exit_code = to_i32 (or_value (negsuc 0) (Option.bind (json.field v "exit_code") json.as_i64));
    stdout = or_value "" (string_at v "stdout");
    stderr = or_value "" (string_at v "stderr");
    duration_ms = or_value duration_ms (Option.bind (json.field v "duration_ms") json.as_u64);
    timed_out = or_value false (Option.bind (json.field v "timed_out") json.as_bool);
    truncated = false;
    total_bytes = none;
    peak_memory_bytes = none;
    cpu_time_us = none;
  }

  -- What the host makes of the agent's response.
  unfoldable pub result_of : String → ℕ → json.Value → Result ExecResult
  result_of machine_id duration_ms v =
      if is_error (string_at v "type")
      then err (claw (exec_failed (or_value "unknown error" (string_at v "message"))))
      else ok (success_of machine_id duration_ms v)

module _ {W : Type 0} (host : Host W) (socket : Socket W) (json : Json)
    (print : json.Value → Result String) (exec_request : ExecOpts → json.Value) where
  unfoldable pub elapsed_since : ℕ → Exec W ℕ
  elapsed_since start w = (ok (host.clock.now w - start), w)

  unfoldable pub exec : String → ExecOpts → Exec W ExecResult
  unfolding result_of
  exec machine_id opts = do
    require_linux host.os
    start ← elapsed_since 0
    map_err (wrapped (λ e. "Cannot reach guest agent: " ++ display e))
        (connect socket (vsock_path machine_id))
    resp ←
        map_err (wrapped (λ e. "Agent communication failed: " ++ display e))
          (request socket json print (exec_request opts))
    duration_ms ← elapsed_since start
    lift (result_of json machine_id duration_ms resp)

  unfoldable pub shell : String → String → Exec W Unit
  shell machine_id user = do
    require_linux host.os
    status ←
        map_err (wrapped (λ e. "Failed to attach to console (is socat installed?): " ++ display e))
          (host.run (
            "socat"
            ∷ "STDIN,raw,echo=0,escape=0x1d"
            ∷ ("UNIX-CONNECT:" ++ socket_path machine_id)
            ∷ []))
    if success status then pure tt else fail (claw (exec_failed "Console session ended"))
