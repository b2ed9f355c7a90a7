-- ===== src/Commands/Stats.antt =====
-- src/commands/stats.rs: the use of memory, processor and disk, of one machine and of the host.
-- Floating-point numbers are a parameter; a subtraction of `u64` values and a sum of them wrap
-- around, as in a release build. `--watch` repeats what is modelled here.
pub mod Memory
pub mod Global
use clawstainer.Base.{
  ℕ, zero, suc, ◌+◌, ◌-◌, ◌%◌, ◌^◌, String, Bool, true, false, Option, none, some, List, [], ◌∷◌,
  ◌&&◌, length, leb, ltb, nat_eq, get_elem?, ◌==◌, if◌then◌else◌,
}
use clawstainer.Base.Map.{Map, insert}
use clawstainer.Base.Text.{
  begins_with, count_chars, lines, parse_uint, replace, split_whitespace, strip_prefix, trim,
}
use clawstainer.Errors.{Result, ok, err}
use clawstainer.Exec.{Exec, pure, attempt, ◌>>=◌, ◌>>◌}
use clawstainer.Main.{runtime_for_machine}
use clawstainer.Runtime.{ExecOpts, Runtime}
use clawstainer.Runtime.Host.{Host, Output, success, context}
use clawstainer.State.{Machine}
use clawstainer.State.Reconcile.{reconcile_machine, get_running_machine_live}
use clawstainer.State.Store.{Sys, with_read_lock, on_host}
use Prim.Native.String.{◌++◌ as append}
use mathlib.Core.Option

-- `s.trim_start_matches(prefix)`: the fuel is the number of characters.
trim_matches : ℕ → String → String → String
trim_matches zero prefix s = s
trim_matches (suc fuel) prefix s = elim (strip_prefix prefix s) [
  | none ↦ s
  | some rest ↦ trim_matches fuel prefix rest
]

unfoldable pub trim_start_matches : String → String → String
unfolding trim_matches strip_prefix count_chars
trim_start_matches prefix s = trim_matches (count_chars s) prefix s

abbrev find_line : String → List String → Option String
find_line prefix [] = none
find_line prefix (line ∷ rest) =
    let later = find_line prefix rest in if begins_with prefix line then some line else later

-- The rest of the first line with the prefix.
unfoldable pub field_text : String → String → Option String
field_text stdout prefix = Option.map (trim_start_matches prefix) (find_line prefix (lines stdout))

abbrev number_or_zero : Option ℕ → ℕ
number_or_zero none = 0
number_or_zero (some n) = n

unfoldable pub parse_field : String → String → ℕ
parse_field stdout prefix =
    number_or_zero (Option.bind (field_text stdout prefix) (λ s. parse_uint (2 ^ 64) (trim s)))

abbrev parse_all : List String → List ℕ
parse_all [] = []
parse_all (word ∷ words) = elim (parse_uint (2 ^ 64) word) [
  | none ↦ parse_all words
  | some n ↦ n ∷ parse_all words
]

-- `.skip(1)`: the word "cpu".
abbrev columns : Option String → List ℕ
columns none = []
columns (some s) = elim (split_whitespace s) [ [] ↦ [] | cpu ∷ words ↦ parse_all words ]

unfoldable pub parse_cpu_line : String → String → List ℕ
parse_cpu_line stdout prefix = columns (field_text stdout prefix)

unfoldable pub sum_u64 : List ℕ → ℕ
sum_u64 [] = 0
sum_u64 (n ∷ ns) = (n + sum_u64 ns) % 2 ^ 64

-- `mem_total_kb - mem_avail_kb`
unfoldable pub mem_used : ℕ → ℕ → ℕ
mem_used total avail = (total + 2 ^ 64 - avail) % 2 ^ 64

pub record Floats : Type 1 where
  pub Float : Type 0
  pub of_ℕ : ℕ → Float
  pub parse : String → Option Float
  pub sub : Float → Float → Float
  pub mul : Float → Float → Float
  pub div : Float → Float → Float
  pub round : Float → Float
  pub is_positive : Float → Bool
  pub is_zero : Float → Bool

abbrev uptime_of : Option String → String
uptime_of none = "-"
uptime_of (some s) = trim s

abbrev stats_script : String
stats_script =
    "\necho \"MEM_TOTAL:$(grep MemTotal /proc/meminfo | awk '{print $2}')\"\necho \"MEM_AVAIL:$(grep MemAvailable /proc/meminfo | awk '{print $2}')\"\necho \"CPU:$(head -1 /proc/stat)\"\necho \"PROCS:$(ls -1d /proc/[0-9]* 2>/dev/null | wc -l)\"\necho \"DISK:$(df -k / | tail -1)\"\necho \"UPTIME:$(uptime -p 2>/dev/null || cat /proc/uptime | awk '{printf \"up %d min\", $1/60}')\"\nsleep 0.1\necho \"CPU2:$(head -1 /proc/stat)\"\n"

abbrev stats_opts : ExecOpts
stats_opts = record {
  command = stats_script;
  timeout = 10;
  workdir = "/root";
  env = [];
  user = "root";
}

module _ (floats : Floats) where
  open floats use {Float, of_ℕ, parse, sub, mul, div, round, is_positive, is_zero}

  pub record MachineStats : Type 0 where
    pub machine_id : String
    pub cpu_percent : Float
    pub memory_used_mb : Float
    pub memory_limit_mb : ℕ
    pub memory_percent : Float
    pub disk_used_mb : Float
    pub disk_total_mb : Float
    pub processes : ℕ
    pub uptime : String

  -- `(x * 10.0).round() / 10.0`
  abbrev pub tenths : Float → Float
  tenths x = div (round (mul x (of_ℕ 10))) (of_ℕ 10)

  abbrev float_or_zero : Option Float → Float
  float_or_zero none = of_ℕ 0
  float_or_zero (some x) = x

  abbrev pub kb_to_mb : Option String → Float
  kb_to_mb s = div (float_or_zero (Option.bind s parse)) (of_ℕ 1024)

  abbrev busy_percent : Float → Float → Float
  busy_percent total_delta idle_delta =
      if is_zero total_delta
      then of_ℕ 0
      else mul (div (sub total_delta idle_delta) total_delta) (of_ℕ 100)

  unfoldable pub calculate_cpu_percent : List ℕ → List ℕ → Float
  calculate_cpu_percent cpu1 cpu2 =
      if leb 4 (length cpu1) && leb 4 (length cpu2)
      then busy_percent (of_ℕ (sum_u64 cpu2 - sum_u64 cpu1))
          (of_ℕ (number_or_zero (get_elem? cpu2 3) - number_or_zero (get_elem? cpu1 3)))
      else of_ℕ 0

  -- The columns of `df`: total, used and available.
  abbrev df_columns : List String → Float × Float × Float
  df_columns parts =
      if leb 4 (length parts)
      then (
        kb_to_mb (get_elem? parts 1),
        kb_to_mb (get_elem? parts 2),
        kb_to_mb (get_elem? parts 3),
      )
      else (of_ℕ 0, of_ℕ 0, of_ℕ 0)

  abbrev pub df_line : Option String → Float × Float × Float
  df_line none = (of_ℕ 0, of_ℕ 0, of_ℕ 0)
  df_line (some line) = df_columns (split_whitespace line)

  -- Used and total.
  unfoldable pub parse_disk : String → Float × Float
  parse_disk stdout =
      let (total, used, avail) = df_line (field_text stdout "DISK:") in (used, total)

  abbrev percent_of : ℕ → ℕ → Float
  percent_of used total =
      if ltb 0 total then mul (div (of_ℕ used) (of_ℕ total)) (of_ℕ 100) else of_ℕ 0

  unfoldable pub stats_of : String → ℕ → String → MachineStats
  stats_of machine_id memory_limit stdout =
      let total = parse_field stdout "MEM_TOTAL:" in
      let used = mem_used total (parse_field stdout "MEM_AVAIL:") in
      let cpu_percent =
        calculate_cpu_percent (parse_cpu_line stdout "CPU:") (parse_cpu_line stdout "CPU2:") in
      record {
        machine_id = machine_id;
        cpu_percent = tenths cpu_percent;
        memory_used_mb = tenths (div (of_ℕ used) (of_ℕ 1024));
        memory_limit_mb = memory_limit;
        memory_percent = tenths (percent_of used total);
        disk_used_mb = (parse_disk stdout).0;
        disk_total_mb = (parse_disk stdout).1;
        processes = parse_field stdout "PROCS:" % 2 ^ 32;
        uptime = uptime_of (field_text stdout "UPTIME:");
      }

  module _ {W : Type 0} where
    unfoldable pub collect_stats : String → ℕ → Runtime W → Exec W MachineStats
    collect_stats machine_id memory_limit runtime = do
      result ← runtime.exec machine_id stats_opts
      pure (stats_of machine_id memory_limit result.stdout)

    unfoldable pub run : String → Runtime W → Exec (Sys W) MachineStats
    run machine_id runtime = do
      machine ← get_running_machine_live machine_id runtime
      on_host (collect_stats machine_id machine.memory_mb runtime)
