-- ===== src/ExecLog/RoundTrip.antt =====
-- What is appended to a log of src/execlog is read back.
use clawstainer.Base.{
  ℕ, zero, suc, ◌-◌, ◌<◌, String, true, false, ◌≡◌, ◌⊎◌, refl, ap, ◌∙◌, some, List, [], ◌∷◌, ◌++◌,
  inl, inr, arith, length, take, drop, leb, Bool-cases,
}
use clawstainer.Base.Put.{put, append-put, put_assoc}
use clawstainer.Base.Text.{has_char, is_blank}
use clawstainer.Base.Text.Lines.{lines-put, lines_nil}
use clawstainer.Errors.{ok, Result-cases}
use clawstainer.Exec.{lift, map_err, pure, ◌>>=◌}
use clawstainer.ExecLog.{
  ExecLogEntry, LogHost, log_path, entry_of, last, utc_now, append_to_dir, entries_of, read_entries,
  read_present, read_last_from_dir,
}
use clawstainer.Runtime.{ExecResult}
use Prim.Native.String.{◌++◌ as append_text}

-- serde_json on an entry: a line with no control character in it, which reads back.
pub record IsLine {W : Type 0} (host : LogHost W) (line : String) (e : ExecLogEntry) : Type 0 where
  pub no_line_feed : has_char 10 line ≡ false
  pub no_return : has_char 13 line ≡ false
  pub not_blank : is_blank line ≡ false
  pub reads_back : host.from_str line ≡ some e

-- A file that holds these entries, a line to each.
pub data IsLog {W : Type 0} (host : LogHost W) : String → List ExecLogEntry → Type 0 where
  empty : IsLog host "" []
  entry :
      {line rest : String} {e : ExecLogEntry} {es : List ExecLogEntry}
      → IsLine host line e
      → IsLog host rest es
      → IsLog host (put line (String.◌∷◌ "\n" rest)) (e ∷ es)

-- The last `n` of a list: its end, of length `n`, or the whole list where it is not as long.
pub record LastOf (n : ℕ) (all tail : List ExecLogEntry) : Type 0 where
  pub front : List ExecLogEntry
  pub split : front ++ tail ≡ all
  pub size : (length tail ≡ n) ⊎ ((length tail < n) × (front ≡ []))

-- What a log has to say of a command: when and how it ended.
abbrev pub logged : ℕ → String → ExecResult → ExecLogEntry
logged now command result = record {
  timestamp = now;
  command = command;
  exit_code = result.exit_code;
  duration_ms = result.duration_ms;
  timed_out = result.timed_out;
}

take-drop : (k : ℕ) (es : List ExecLogEntry) → take k es ++ drop k es ≡ es
take-drop zero es = refl
take-drop (suc k) [] = refl
take-drop (suc k) (e ∷ es) = ap (λ xs. e ∷ xs) (take-drop k es)

length-drop : (k : ℕ) (es : List ExecLogEntry) → length (drop k es) ≡ length es - k
length-drop zero es = omega arith
length-drop (suc k) [] = omega arith
length-drop (suc k) (e ∷ es) = omega (arith, length-drop k es)

last-LastOf : (n : ℕ) (es : List ExecLogEntry) → LastOf n es (last n es)
unfolding last
last-LastOf n es =
    let k = length es - n in
    record {
      front = take k es;
      split = take-drop k es;
      size = elim (Bool-cases (leb n (length es))) [
        | inl long ↦ inl (ground (arith, length-drop k es))
        | inr short ↦
            let none_left : k ≡ 0 = ground arith in
            inr (ground (arith, length-drop k es), ap (λ i. take i es) none_left)
      ];
    }

module _ {W : Type 0} (host : LogHost W) where
  read_entries-log :
      {content : String} {es : List ExecLogEntry}
      → IsLog host content es
      → read_entries host content ≡ es
  unfolding read_entries entries_of
  read_entries-log empty = rw lines_nil refl
  read_entries-log (entry {line} {rest} {e} {es} is_line log) =
      rw
        (
          lines-put line rest is_line.no_line_feed is_line.no_return,
          is_line.not_blank,
          is_line.reads_back,
        )
        (ap (λ later. e ∷ later) (read_entries-log log))

  IsLog-append :
      {content line : String} {es : List ExecLogEntry} {e : ExecLogEntry}
      → IsLog host content es
      → IsLine host line e
      → IsLog host (put content (put line "\n")) (es ++ e ∷ [])
  IsLog-append empty is_line = entry is_line empty
  IsLog-append {line = l} {e = x} (entry {line} {rest} {e} {es} first log) is_line =
      rw (put_assoc line (String.◌∷◌ "\n" rest) (put l "\n"))
        (entry first (IsLog-append log is_line))

  -- What a path holds: nothing before the file is made.
  abbrev pub Holds : String → String → W → Type 0
  Holds path content w = (host.exists path w ≡ true) × ((host.read_to_string path w).0 ≡ ok content)

  pub data Contains (path : String) : String → W → Type 0 where
    missing : {w : W} → host.exists path w ≡ false → Contains path "" w
    present : {content : String} {w : W} → Holds path content w → Contains path content w

  pub record KeepsLog : Type 0 where
    pub opened :
        (path content : String) (w : W)
        → Contains path content w
        → (host.open_append path w).0 ≡ ok tt
        → Holds path content (host.open_append path w).1
    pub written :
        (path content text : String) (w : W)
        → Holds path content w
        → (host.write_end path text w).0 ≡ ok tt
        → Holds path (append_text content text) (host.write_end path text w).1

  -- A success has written the line of the entry to the opened file.
  pub record Wrote (path : String) (e : ExecLogEntry) (w w' : W) : Type 0 where
    pub line : String
    pub serialized : host.to_string e ≡ ok line
    pub was_opened : (host.open_append path w).0 ≡ ok tt
    pub was_written :
        (host.write_end path (append_text line "\n") (host.open_append path w).1).0 ≡ ok tt
    pub ends : w' ≡ (host.write_end path (append_text line "\n") (host.open_append path w).1).1

  append_to_dir-Wrote :
      (dir id command : String) (result : ExecResult) (w : W)
      → (append_to_dir host dir id command result w).0 ≡ ok tt
      → Wrote
          (log_path dir id)
          (entry_of (host.utc_now w) command result)
          w
          (append_to_dir host dir id command result w).1
  unfolding append_to_dir utc_now lift map_err ◌>>=◌
  append_to_dir-Wrote dir id command result w done =
      let path : String = log_path dir id in
      let e : ExecLogEntry = entry_of (host.utc_now w) command result in
      let w1 : W = (host.open_append path w).1 in
      elim (Result-cases (host.to_string e)) [
        | inr (f, failed) ↦ absurd (ground arith)
        | inl (line, serialized) ↦ elim (Result-cases (host.open_append path w).0) [
          | inr (f, failed) ↦ absurd (ground arith)
          | inl (_, opens) ↦
              elim (Result-cases (host.write_end path (append_text line "\n") w1).0) [
                | inr (f, failed) ↦ absurd (ground arith)
                | inl (_, writes) ↦ record {
                  line = line;
                  serialized = serialized;
                  was_opened = opens;
                  was_written = writes;
                  ends = rw (serialized, opens) refl;
                }
              ]
        ]
      ]

  read_last-Holds :
      (dir id content : String) (es : List ExecLogEntry) (n : ℕ) (w : W)
      → Holds (log_path dir id) content w
      → IsLog host content es
      → (read_last_from_dir host dir id n w).0 ≡ ok (last n es)
  unfolding read_last_from_dir read_present map_err ◌>>=◌ pure
  read_last-Holds dir id content es n w holds log = rw (holds.0, holds.1, read_entries-log log) refl

  module _ (keeps : KeepsLog) where
    -- After a command has been appended to a log that holds `es`, or to no log yet, what is read is
    -- the end, of `n` entries or all where there are fewer, of `es` with a new entry behind: the time,
    -- the command, its exit code, its duration and whether it timed out. It needs that this entry is
    -- written as a line that reads back as it.
    pub append-read_last :
        (dir id command content : String) (result : ExecResult) (es : List ExecLogEntry) (n : ℕ)
        (w : W)
        → ((line : String)
            → host.to_string (logged (host.utc_now w) command result) ≡ ok line
            → IsLine host line (logged (host.utc_now w) command result))
        → Contains (log_path dir id) content w
        → IsLog host content es
        → (append_to_dir host dir id command result w).0 ≡ ok tt
        → (tail : List ExecLogEntry) × ((read_last_from_dir host dir id n
              (append_to_dir host dir id command result w).1).0
            ≡ ok tail)
          × LastOf n (es ++ logged (host.utc_now w) command result ∷ []) tail
    append-read_last dir id command content result es n w line_of contains log done =
        let wrote = append_to_dir-Wrote dir id command result w done in
        let path : String = log_path dir id in
        let line : String = wrote.line in
        let opened = keeps.opened path content w contains wrote.was_opened in
        let written =
          keeps.written path content (append_text line "\n") (host.open_append path w).1 opened
            wrote.was_written in
        let same : append_text content (append_text line "\n") ≡ put content (put line "\n") =
          append-put content (append_text line "\n") ∙ ap (put content) (append-put line "\n") in
        let all = es ++ logged (host.utc_now w) command result ∷ [] in
        (
          last n all,
          rw wrote.ends (
              read_last-Holds dir id (append_text content (append_text line "\n")) all n _ written
                (rw same (IsLog-append log (line_of line wrote.serialized)))),
          last-LastOf n all,
        )
