-- ===== src/Runtime/Firecracker/Remote/Faithful.antt =====
-- The result of a command in a microVM against what the agent, src/agent, has answered.
use clawstainer.Agent.{ExecReply}
use clawstainer.Base.{ℕ, ◌<◌, ◌^◌, String, false, ◌≡◌, refl, none, some, arith}
use clawstainer.Base.Int.{ℤ, pos, negsuc}
use clawstainer.Base.Json.{Json}
use clawstainer.Errors.{ok}
use clawstainer.Runtime.Firecracker.Remote.{to_i32, string_at, result_of}
use mathlib.Core.Option

-- An `i32` value.
abbrev pub IsI32 : ℤ → Type 0
IsI32 (pos n) = n < 2 ^ 31
IsI32 (negsuc n) = n < 2 ^ 31

to_i32-IsI32 : (i : ℤ) → IsI32 i → to_i32 i ≡ i
unfolding to_i32
to_i32-IsI32 (pos n) h = ground arith
to_i32-IsI32 (negsuc n) h = ground arith

-- The JSON object that serde makes of a reply.
pub record Encodes (json : Json) (v : json.Value) (r : ExecReply) : Type 0 where
  pub kind : string_at json v "type" ≡ some "exec_result"
  pub exit_code : Option.bind (json.field v "exit_code") json.as_i64 ≡ some r.exit_code
  pub stdout : string_at json v "stdout" ≡ some r.stdout
  pub stderr : string_at json v "stderr" ≡ some r.stderr
  pub duration : Option.bind (json.field v "duration_ms") json.as_u64 ≡ some r.duration_ms
  pub timed_out : Option.bind (json.field v "timed_out") json.as_bool ≡ some r.timed_out

-- The host's result carries over the exit code, the streams, the duration and the timeout of the
-- agent's reply, when its exit code is an `i32`; and it says that nothing was cut, whatever the
-- agent has cut off.
pub result_of-Encodes :
    (json : Json) (machine_id : String) (duration_ms : ℕ) (v : json.Value) (r : ExecReply)
    → IsI32 r.exit_code
    → Encodes json v r
    → result_of json machine_id duration_ms v
      ≡ ok (record {
        machine_id = machine_id;
        exit_code = r.exit_code;
        stdout = r.stdout;
        stderr = r.stderr;
        duration_ms = r.duration_ms;
        timed_out = r.timed_out;
        truncated = false;
        total_bytes = none;
        peak_memory_bytes = none;
        cpu_time_us = none;
      })
unfolding result_of
result_of-Encodes json machine_id duration_ms v r fits e =
    rw
      (
        e.kind,
        e.exit_code,
        e.stdout,
        e.stderr,
        e.duration,
        e.timed_out,
        to_i32-IsI32 r.exit_code fits,
      )
      refl
