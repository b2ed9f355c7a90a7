-- ===== src/ExecLog.antt =====
-- src/execlog: the log of the commands of a machine, a file of one JSON object to a line.
pub mod RoundTrip
use clawstainer.Base.{
  ℕ, ◌-◌, String, Bool, true, false, Option, none, some, List, [], ◌∷◌, length, drop, if◌then◌else◌,
}
use clawstainer.Base.Int.{ℤ}
use clawstainer.Base.Text.{is_blank, lines}
use clawstainer.Errors.{other, Result, ok, err}
use clawstainer.Exec.{Exec, pure, lift, ◌>>=◌, ◌>>◌}
use clawstainer.Runtime.{ExecResult}
use clawstainer.Runtime.Host.{context}
use Prim.Native.String.{◌++◌}

pub record ExecLogEntry : Type 0 where
  pub timestamp : ℕ  -- seconds since 1970
  pub command : String
  pub exit_code : ℤ
  pub duration_ms : ℕ
  pub timed_out : Bool

-- serde_json at `ExecLogEntry`, and the files.
pub record LogHost (W : Type 0) : Type 0 where
  pub to_string : ExecLogEntry → Result String
  pub from_str : String → Option ExecLogEntry
  pub home_dir : Option String
  pub utc_now : W → ℕ
  pub create_dir_all : String → Exec W Unit
  pub exists : String → W → Bool
  pub read_to_string : String → Exec W String
  pub open_append : String → Exec W Unit  -- made if it is not there
  pub write_end : String → String → Exec W Unit  -- at the end of an open file

abbrev log_dir_of : Option String → Result String
log_dir_of none = err (other "Cannot determine home directory")
log_dir_of (some home) = ok (home ++ "/.clawstainer/logs")

abbrev pub log_path : String → String → String
log_path dir id = dir ++ "/" ++ id ++ ".jsonl"

abbrev pub entry_of : ℕ → String → ExecResult → ExecLogEntry
entry_of now command result = record {
  timestamp = now;
  command = command;
  exit_code = result.exit_code;
  duration_ms = result.duration_ms;
  timed_out = result.timed_out;
}

-- `&entries[entries.len().saturating_sub(n)..]`
unfoldable pub last : ℕ → List ExecLogEntry → List ExecLogEntry
last n entries = drop (length entries - n) entries

module _ {W : Type 0} (host : LogHost W) where
  unfoldable pub utc_now : Exec W ℕ
  utc_now w = (ok (host.utc_now w), w)

  unfoldable pub append_to_dir : String → String → String → ExecResult → Exec W Unit
  append_to_dir dir id command result = do
    now ← utc_now
    line ←
        context "Failed to serialize exec log entry"
          (lift (host.to_string (entry_of now command result)))
    context "Failed to open exec log file" (host.open_append (log_path dir id))
    context "Failed to write exec log entry" (host.write_end (log_path dir id) (line ++ "\n"))

  unfoldable pub append : String → String → ExecResult → Exec W Unit
  append id command result = do
    dir ← lift (log_dir_of host.home_dir)
    host.create_dir_all dir
    append_to_dir dir id command result

  abbrev keep_entry : Option ExecLogEntry → List ExecLogEntry → List ExecLogEntry
  keep_entry none rest = rest
  keep_entry (some e) rest = e ∷ rest

  -- `filter` and `filter_map`: a line that is blank or does not parse is passed over.
  unfoldable pub entries_of : List String → List ExecLogEntry
  entries_of [] = []
  entries_of (line ∷ rest) =
      let later = entries_of rest in
      if is_blank line then later else keep_entry (host.from_str line) later

  unfoldable pub read_entries : String → List ExecLogEntry
  read_entries content = entries_of (lines content)

  unfoldable pub read_present : String → ℕ → Exec W (List ExecLogEntry)
  read_present path n = do
    content ← context "Failed to read exec log file" (host.read_to_string path)
    pure (last n (read_entries content))

  unfoldable pub read_last_from_dir : String → String → ℕ → Exec W (List ExecLogEntry)
  read_last_from_dir dir id n w =
      if host.exists (log_path dir id) w then read_present (log_path dir id) n w else (ok [], w)

  unfoldable pub read_last : String → ℕ → Exec W (List ExecLogEntry)
  read_last id n = do dir ← lift (log_dir_of host.home_dir); read_last_from_dir dir id n
