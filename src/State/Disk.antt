-- ===== src/State/Disk.antt =====
-- `StateStore` of src/state/mod.rs with its files, and the lock of src/state/lock.rs: `state.json`
-- is read and parsed, a transaction runs, and the new state goes to `state.tmp`, which is renamed.
-- `serde_json` is the codec, a parameter; whether each call of the file
-- system succeeds is given by `Calls`.
pub mod Refinement
use clawstainer.Base.{
  String, ◌≡◌, refl, ◌⊎◌, inl, inr, Bool, true, false, not, Option, none, some, arith,
  if◌then◌else◌, Bool-cases,
}
use clawstainer.Base.Text.{is_blank}
use clawstainer.Errors.{Failure, other, Result, ok, err}
use clawstainer.Exec.{Exec, ◌>>=◌, ◌>>◌, fail, pure, lift}
use clawstainer.State.{State, default_state}
use clawstainer.State.Store.{Sys, with_lock, with_read_lock}

-- `serde_json::to_string_pretty` and `serde_json::from_str` at the type `State`.
pub record Codec : Type 0 where
  pub print : State → String
  pub parse : String → Option State

-- What `serde_json` promises of a state: its text is read back as that state, and it is not blank.
abbrev pub RoundTrips : Codec → State → Type 0
RoundTrips codec s = (codec.parse (codec.print s) ≡ some s) × (is_blank (codec.print s) ≡ false)

-- Whether the calls of the file system succeed in one transaction.
pub record Calls : Type 0 where
  pub opened : Bool
  pub locked : Bool
  pub readable : Bool
  pub written : Bool
  pub renamed : Bool
  pub unlocked : Bool

abbrev pub all_succeed : Calls
all_succeed = record {
  opened = true;
  locked = true;
  readable = true;
  written = true;
  renamed = true;
  unlocked = true;
}

pub record Disk (W : Type 0) : Type 0 where
  pub state_json : Option String
  pub state_tmp : Option String
  pub world : W

-- A call that can fail, with its `.context(…)`.
abbrev call : {S : Type 0} → Bool → String → Exec S Unit
call true context s = (ok tt, s)
call false context s = (err (other context), s)

parsed : Option State → Result State
parsed none = err (other "Failed to parse state file")
parsed (some s) = ok s

unfoldable pub read_text : Codec → Calls → Option String → Result State
unfolding parsed
read_text codec calls none = ok default_state
read_text codec calls (some text) =
    if not calls.readable
    then err (other "Failed to read state file")
    else if is_blank text
    then ok default_state
    else parsed (codec.parse text)

abbrev pair_result : {A W : Type 0} → Result A × Sys W → Disk W → Result (A × State) × Disk W
pair_result (ok a, s) d = (ok (a, s.state), record d { world = s.world })
pair_result (err e, s) d = (err e, record d { world = s.world })

module _ {W : Type 0} (codec : Codec) (calls : Calls) where
  -- `FileLock::new`, then `lock_exclusive` or `lock_shared`.
  acquire : String → Exec (Disk W) Unit
  unfolding ◌>>=◌
  acquire failed = do call calls.opened "Failed to open lock file"; call calls.locked failed

  read_state : Exec (Disk W) State
  unfolding read_text
  read_state d = (read_text codec calls d.state_json, d)

  -- A write to the temporary file that fails leaves it with unknown contents.
  write_tmp : State → Exec (Disk W) Unit
  write_tmp s d =
      if calls.written
      then (ok tt, record d { state_tmp = some (codec.print s) })
      else (err (other "Failed to write temp state file"), record d { state_tmp = none })

  rename_tmp : Exec (Disk W) Unit
  rename_tmp d =
      if calls.renamed
      then (ok tt, record d { state_json = d.state_tmp; state_tmp = none })
      else (err (other "Failed to rename temp state file"), d)

  write_state : State → Exec (Disk W) Unit
  unfolding ◌>>=◌ write_tmp rename_tmp
  write_state s = do write_tmp s; rename_tmp

  -- The closure runs on the state that was read, and on the host.
  run_on : {A : Type 0} → Exec (Sys W) A → State → Exec (Disk W) (A × State)
  run_on f s d = pair_result (f (record { state = s; world = d.world })) d

  unfoldable pub on_disk_with_lock : {A : Type 0} → Exec (Sys W) A → Exec (Disk W) A
  unfolding ◌>>=◌ acquire read_state run_on write_state pure
  on_disk_with_lock f = do
    acquire "Failed to acquire exclusive lock"
    s ← read_state
    (a, s') ← run_on f s
    write_state s'
    call calls.unlocked "Failed to release lock"
    pure a

  unfoldable pub on_disk_with_read_lock : {A : Type 0} → (State → Result A) → Exec (Disk W) A
  unfolding ◌>>=◌ acquire read_state lift pure
  on_disk_with_read_lock f = do
    acquire "Failed to acquire shared lock"
    s ← read_state
    a ← lift (f s)
    call calls.unlocked "Failed to release lock"
    pure a
