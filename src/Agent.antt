-- ===== src/Agent.antt =====
-- src/agent: the agent in a microVM. A connection is the list of the lines that are read from it and
-- the responses that have been sent on it; the commands that it runs and serde_json are parameters.
pub mod Answers
use clawstainer.Base.{
  ℕ, ◌-◌, String, Bool, true, false, Option, none, some, List, [], ◌∷◌, ◌++◌, ◌==◌, ltb,
  if◌then◌else◌,
}
use clawstainer.Base.Decimal.{decimal}
use clawstainer.Base.Int.{ℤ, pos, negsuc}
use clawstainer.Base.Map.{Map, insert}
use clawstainer.Base.Text.{is_blank}
use clawstainer.Errors.{other, panic, display, Failure, Result, ok, err}
use clawstainer.Exec.{Exec, pure, lift, ignore, ◌>>=◌, ◌>>◌}
use clawstainer.Runtime.Host.{Output}
use clawstainer.Runtime.Nspawn.Exec.{truncate}
use Prim.Native.Nat.{Ordering, compare}
use Prim.Native.String.{◌++◌ as append_text}

pub record ExecRequest : Type 0 where
  pub command : String
  pub timeout : ℕ
  pub workdir : String
  pub env : Map String
  pub user : String

pub data Request : Type 0 where
  exec_request : ExecRequest → Request
  health : Request
  shutdown : Request

pub record ExecReply : Type 0 where
  pub exit_code : ℤ
  pub stdout : String
  pub stderr : String
  pub duration_ms : ℕ
  pub timed_out : Bool

pub data Response : Type 0 where
  exec_result : ExecReply → Response
  health_result : String → Response
  error_reply : String → Response
  acknowledged : Response

-- A command with its directory and environment.
pub record Command : Type 0 where
  pub args : List String
  pub current_dir : String
  pub env : Map String

pub record Guest (W : Type 0) : Type 0 where
  pub now_ms : W → ℕ
  pub output : Command → Exec W Output
  pub poweroff : Exec W Unit
  pub parse : String → Result Request  -- `serde_json::from_str`
  pub print : Response → Result String  -- `serde_json::to_string`
  pub write_line : String → Exec W Unit
  pub flush : Exec W Unit

abbrev as_user : String → String → List String
as_user user command =
    if user == "root" then "sh" ∷ "-c" ∷ command ∷ [] else "su" ∷ "-" ∷ user ∷ "-c" ∷ command ∷ []

abbrev home_of : String → String
home_of user = if user == "root" then "/root" else append_text "/home/" user

-- `for (k, v) in &env { cmd.env(k, v) }`
unfoldable pub set_all : Map String → Map String → Map String
set_all env [] = env
set_all env ((k, v) ∷ more) = set_all (insert k v env) more

abbrev base_env : String → Map String
base_env user =
    ("HOME", home_of user)
    ∷ ("USER", user)
    ∷ ("PATH", "/usr/local/sbin:/usr/local/bin:/usr/sbin:/usr/bin:/sbin:/bin")
    ∷ ("LANG", "C.UTF-8")
    ∷ ("TERM", "xterm-256color")
    ∷ []

unfoldable pub command_of : ExecRequest → Command
command_of r = record {
  args =
      if ltb 0 r.timeout
      then "timeout" ∷ append_text (decimal r.timeout) "s" ∷ as_user r.user r.command
      else as_user r.user r.command;
  current_dir = r.workdir;
  env = set_all (base_env r.user) r.env;
}

abbrev code_or_minus_one : Option ℤ → ℤ
code_or_minus_one none = negsuc 0
code_or_minus_one (some code) = code

abbrev is_124 : ℤ → Bool
is_124 (pos n) = elim (compare n 124) [ Ordering.eq ↦ true | _ ↦ false ]
is_124 (negsuc n) = false

abbrev reply_of : Option ℤ → ℕ → String → String → Response
reply_of code duration_ms stdout stderr = exec_result (record {
  exit_code = code_or_minus_one code;
  stdout = stdout;
  stderr = stderr;
  duration_ms = duration_ms;
  timed_out = is_124 (code_or_minus_one code);
})

module _ {W : Type 0} (guest : Guest W) where
  -- The streams are cut by `String::truncate`, as NspawnRuntime::exec does.
  abbrev finish : ℕ → Result Output → Exec W Response
  finish duration_ms (err e) =
      pure (error_reply (append_text "Failed to execute command: " (display e)))
  finish duration_ms (ok o) = do
    stdout ← lift (truncate o.stdout)
    stderr ← lift (truncate o.stderr)
    pure (reply_of o.code duration_ms stdout stderr)

  unfoldable pub exec : ExecRequest → Exec W Response
  exec r w =
      let ended = guest.output (command_of r) w in
      finish (guest.now_ms ended.1 - guest.now_ms w) ended.0 ended.1

  -- A connection: what has been sent, and the machine.
  pub record Connection : Type 0 where
    pub sent : List Response
    pub world : W

  abbrev on_guest : {A : Type 0} → Exec W A → Exec Connection A
  on_guest m c = let (r, w) = m c.world in (r, record c { world = w })

  unfoldable pub note_sent : Response → Exec Connection Unit
  note_sent response c = (ok tt, record c { sent = c.sent ++ (response ∷ []) })

  -- `writeln!(writer, "{resp_json}")?`
  unfoldable pub send : Response → Exec Connection Unit
  send response = do
    line ← lift (guest.print response)
    on_guest (guest.write_line line)
    note_sent response

  unfoldable pub answer : Request → Exec W Response
  answer (exec_request r) = exec r
  answer health = pure (health_result "ok")
  answer shutdown = pure acknowledged

  abbrev invalid : Failure → Response
  invalid e = error_reply (append_text "Invalid request: " (display e))

  -- One line that is not blank; whether the loop goes on.
  unfoldable pub handle_request : Result Request → Exec Connection Bool
  handle_request (err e) = do send (invalid e); pure true
  handle_request (ok shutdown) = do
    send acknowledged
    on_guest guest.flush
    ignore (on_guest guest.poweroff)
    pure false
  handle_request (ok request) = do
    response ← on_guest (answer request)
    send response
    on_guest guest.flush
    pure true

  unfoldable pub handle_connection : List (Result String) → Exec Connection Unit
  handle_connection [] = pure tt
  handle_connection (err e ∷ lines) = lift (err e)
  handle_connection (ok line ∷ lines) =
      let later = handle_connection lines in
      if is_blank line
      then later
      else do goes_on ← handle_request (guest.parse line); if goes_on then later else pure tt
