-- ===== src/Witnesses/Guests.antt =====
-- The theorems on the agent, on the client of a microVM and on the log of commands.
use clawstainer.Agent.{
  Request, health, shutdown, ExecReply, Guest, Connection, handle_connection, handle_request,
  answer, send, note_sent,
}
use clawstainer.Agent.Answers.{AnsweredSince, handle_connection-Answered}
use clawstainer.Base.{
  ℕ, ◌+◌, String, Bool, true, false, ◌≡◌, refl, List, Option, none, some, [], ◌∷◌, ◌==◌, leb, ◌++◌,
  ap, subst, if◌then◌else◌, arith,
}
use clawstainer.Base.Text.{has_char, is_blank}
use clawstainer.Exec.{◌>>=◌, ignore, lift, map_err}
use mathlib.Core.Option.{bind}
use clawstainer.Base.Int.{negsuc}
use clawstainer.Base.Json.{Json}
use clawstainer.Errors.{Result, ok, err, other, result_inj}
use clawstainer.Examples.{running_output, example_clock, exited}
use clawstainer.ExecLog.{
  ExecLogEntry, LogHost, entry_of, utc_now, append_to_dir, read_last_from_dir,
}
use clawstainer.ExecLog.RoundTrip.{
  IsLine, LastOf, logged, empty, Contains, Holds, missing, present, KeepsLog, append-read_last,
}
use clawstainer.Runtime.Firecracker.Client.{wait_until}
use clawstainer.Runtime.Firecracker.Client.Wait.{WaitEnds, wait_until-WaitEnds}
use clawstainer.Runtime.Firecracker.Remote.{result_of}
use clawstainer.Runtime.Firecracker.Remote.Faithful.{result_of-Encodes}
use Prim.Native.String.{◌++◌ as append}

abbrev parse_word : String → Result Request
parse_word s =
    if s == "health" then ok health else if s == "shutdown" then ok shutdown else err (other "json")

abbrev example_agent : Guest ℕ
example_agent = record {
  now_ms = λ w. w;
  output = λ command w. (ok running_output, w);
  poweroff = λ w. (ok tt, w);
  parse = parse_word;
  print = λ response. ok "{}";
  write_line = λ line w. (ok tt, w + 1);
  flush = λ w. (ok tt, w);
}

abbrev example_lines : List (Result String)
example_lines = ok "health" ∷ ok " " ∷ ok "what" ∷ ok "shutdown" ∷ ok "health" ∷ []

abbrev new_connection : Connection example_agent
new_connection = record { sent = []; world = 0 }

handle_connection-Answered_example :
    AnsweredSince example_agent example_lines new_connection
      (handle_connection example_agent example_lines new_connection).1
unfolding handle_connection is_blank ◌>>=◌ handle_request answer send note_sent ignore
handle_connection-Answered_example =
    handle_connection-Answered example_agent example_lines new_connection refl

abbrev test_at_30 : ℕ → Bool × ℕ
test_at_30 w = (leb 30 w, w)

wait_until-WaitEnds_example :
    WaitEnds example_clock test_at_30 10 100 "late"
      (λ w. omega arith)
      (omega arith)
      0
      (some (wait_until example_clock test_at_30 10 100 "late" 0))
wait_until-WaitEnds_example =
    wait_until-WaitEnds example_clock test_at_30 10 100 "late" (λ w. omega arith) (omega arith) 0

abbrev example_reply : ExecReply
example_reply = record {
  exit_code = negsuc 0;
  stdout = "out";
  stderr = "";
  duration_ms = 12;
  timed_out = false;
}

abbrev text_at : ExecReply → String → Option String
text_at r key =
    if key == "type"
    then some "exec_result"
    else if key == "stdout"
    then some r.stdout
    else some r.stderr

-- A value is a field of the reply.
abbrev reply_json : Json
reply_json = record {
  Value = ExecReply × String;
  from_str = λ s. none;
  list_from_str = λ s. none;
  field = λ v key. some (v.0, key);
  as_str = λ v. text_at v.0 v.1;
  as_u64 = λ v. some v.0.duration_ms;
  as_i64 = λ v. some v.0.exit_code;
  as_bool = λ v. some v.0.timed_out;
}

result_of-Encodes_example :
    result_of reply_json "sb-a" 20 (example_reply, "")
    ≡ ok (record {
      machine_id = "sb-a";
      exit_code = negsuc 0;
      stdout = "out";
      stderr = "";
      duration_ms = 12;
      timed_out = false;
      truncated = false;
      total_bytes = none;
      peak_memory_bytes = none;
      cpu_time_us = none;
    })
unfolding bind
result_of-Encodes_example =
    result_of-Encodes reply_json "sb-a" 20 (example_reply, "") example_reply (omega arith)
      (record {
        kind = refl;
        exit_code = refl;
        stdout = refl;
        stderr = refl;
        duration = refl;
        timed_out = refl;
      })

abbrev example_entry : ExecLogEntry
example_entry = entry_of 0 "ls" (exited 0)

-- The world is the text of the log.
abbrev example_log : LogHost String
example_log = record {
  to_string = λ e. ok "{}";
  from_str = λ line. some example_entry;
  home_dir = some "/root";
  utc_now = λ w. 0;
  create_dir_all = λ path w. (ok tt, w);
  exists = λ path w. true;
  read_to_string = λ path w. (ok w, w);
  open_append = λ path w. (ok tt, w);
  write_end = λ path text w. (ok tt, append w text);
}

braces-IsLine : IsLine example_log "{}" example_entry
unfolding has_char is_blank
braces-IsLine = record {
  no_line_feed = refl;
  no_return = refl;
  not_blank = refl;
  reads_back = refl;
}

example-IsLine :
    (line : String)
    → example_log.to_string example_entry ≡ ok line
    → IsLine example_log line example_entry
example-IsLine line e = subst (λ l. IsLine example_log l example_entry) (result_inj e) braces-IsLine

opens :
    (path content w : String)
    → Contains example_log path content w
    → Holds example_log path content w
opens path _ w (missing absent) = absurd (cc absent)
opens path content w (present holds) = holds

example_log-KeepsLog : KeepsLog example_log
example_log-KeepsLog = record {
  opened = λ path content w contains e. opens path content w contains;
  written = λ path content text w holds e.
      (refl, ap (λ (t : String). ok (append t text)) (result_inj holds.1));
}

append-read_last_example :
    (tail : List ExecLogEntry) × ((read_last_from_dir example_log "/logs" "sb-a" 3
        (append_to_dir example_log "/logs" "sb-a" "ls" (exited 0) "").1).0
      ≡ ok tail)
    × LastOf 3 ([] ++ logged 0 "ls" (exited 0) ∷ []) tail
unfolding append_to_dir utc_now lift map_err ◌>>=◌
append-read_last_example =
    append-read_last example_log example_log-KeepsLog "/logs" "sb-a" "ls" "" (exited 0) [] 3 ""
      example-IsLine (present (refl, refl)) empty refl
