-- ===== src/Commands/Logs.antt =====
-- src/commands/logs.rs: what is listed, and the column of the commands in the table.
use clawstainer.Base.{ℕ, ◌-◌, String, List, if◌then◌else◌, leb}
use clawstainer.Errors.{panic, Result, ok, err}
use clawstainer.Exec.{Exec}
use clawstainer.ExecLog.{ExecLogEntry, LogHost, read_last}
use Prim.Native.String.{◌++◌, len, slice}
use text.Mathlib.Text.{is_char_boundary}

-- `&s[..max - 3]` panics inside a character.
unfoldable pub truncate_str : String → ℕ → Result String
truncate_str s max =
    if leb (len s) max
    then ok s
    else if is_char_boundary s (max - 3)
    then ok (slice s 0 (max - 3) ++ "...")
    else err (panic "byte index is not a char boundary")

unfoldable pub run : {W : Type 0} → LogHost W → String → ℕ → Exec W (List ExecLogEntry)
run host machine_id last = read_last host machine_id last
