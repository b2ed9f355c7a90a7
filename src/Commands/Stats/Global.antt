-- ===== src/Commands/Stats/Global.antt =====
-- `print_global_stats` of src/commands/stats.rs: the use of memory and disk by all machines, without
-- the printing.
use clawstainer.Base.{ℕ, String, Option, none, some, List, [], ◌∷◌, get_elem?, ◌==◌, if◌then◌else◌}
use clawstainer.Base.Map.{Map, insert}
use clawstainer.Base.Text.{lines, replace, split_whitespace, trim}
use clawstainer.Commands.Stats.{Floats, tenths, kb_to_mb, df_line}
use clawstainer.Errors.{Result, ok, err}
use clawstainer.Exec.{Exec, pure, attempt, ◌>>=◌}
use clawstainer.Main.{runtime_for_machine}
use clawstainer.Runtime.{Runtime}
use clawstainer.Runtime.Host.{Host, Output, success, context}
use clawstainer.State.{Machine}
use clawstainer.State.Reconcile.{reconcile_machine}
use clawstainer.State.Store.{Sys, with_read_lock, on_host}
use Prim.Native.String.{◌++◌ as append}
use mathlib.Core.Option

abbrev du_command : String → List String
du_command id = "du" ∷ "-sk" ∷ append "/var/lib/clawstainer/machines/" id ∷ []

abbrev cgroup_path : String → String
cgroup_path id =
    append "/sys/fs/cgroup/machine.slice/machine-"
      (append (replace b'-' "\\x2d" id) ".scope/memory.current")

module _ (floats : Floats) where
  open floats use {Float, of_ℕ, parse, mul, div, is_positive}

  pub record SandboxSummary : Type 0 where
    pub machine_id : String
    pub name : String
    pub status : String
    pub memory_used_mb : Float
    pub memory_limit_mb : ℕ
    pub disk_used_mb : Float

  pub record GlobalStats : Type 0 where
    pub host_disk_total_mb : Float
    pub host_disk_used_mb : Float
    pub host_disk_avail_mb : Float
    pub host_disk_percent : Float
    pub sandboxes : List SandboxSummary

  unfoldable pub parse_df_output : String → Float × Float × Float
  parse_df_output output = df_line floats (get_elem? (lines output) 1)

  module _ {W : Type 0} (host : Host W) (nspawn firecracker : Runtime W) where
    abbrev or_else : Result Output → Exec W Output
    or_else (ok o) = pure o
    or_else (err e) = host.run ("df" ∷ "-k" ∷ "/" ∷ [])

    unfoldable pub disk_usage : Exec W Output
    disk_usage = do
      first ← attempt (host.run ("df" ∷ "-k" ∷ "/var/lib/clawstainer" ∷ []))
      context "Failed to get disk usage" (or_else first)

    abbrev du_kb : Result Output → Option String
    du_kb (ok o) = if success o then get_elem? (split_whitespace o.stdout) 0 else none
    du_kb (err e) = none

    abbrev text_of : Result String → Option String
    text_of (ok s) = some (trim s)
    text_of (err e) = none

    abbrev bytes_to_mb : Option Float → Float
    bytes_to_mb none = of_ℕ 0
    bytes_to_mb (some bytes) = tenths floats (div (div bytes (of_ℕ 1024)) (of_ℕ 1024))

    unfoldable pub read_memory : String → Exec W Float
    read_memory id = do
      s ← attempt (host.read_to_string (cgroup_path id))
      pure (bytes_to_mb (Option.bind (text_of s) parse))

    unfoldable pub memory_of : String → Machine → Exec W Float
    memory_of id machine = if machine.status == "running" then read_memory id else pure (of_ℕ 0)

    unfoldable pub summarize : String → Machine → Exec W SandboxSummary
    summarize id machine = do
      du ← attempt (host.run (du_command id))
      memory ← memory_of id machine
      pure (record {
        machine_id = id;
        name = machine.name;
        status = machine.status;
        memory_used_mb = memory;
        memory_limit_mb = machine.memory_mb;
        disk_used_mb = tenths floats (kb_to_mb floats (du_kb du));
      })

    unfoldable pub summarize_all : Map Machine → Exec W (List SandboxSummary)
    summarize_all [] = pure []
    summarize_all ((id, machine) ∷ machines) = do
      summary ← summarize id machine
      rest ← summarize_all machines
      pure (summary ∷ rest)

    abbrev running_ids : Map Machine → List String
    running_ids [] = []
    running_ids ((id, machine) ∷ machines) =
        let later = running_ids machines in
        if machine.status == "running" then id ∷ later else later

    unfoldable pub refresh_running : List String → Map Machine → Exec (Sys W) (Map Machine)
    refresh_running [] machines = pure machines
    refresh_running (id ∷ ids) machines = do
      runtime ← runtime_for_machine nspawn firecracker id
      machine ← reconcile_machine id runtime
      refresh_running ids (insert id machine machines)

    unfoldable pub global_stats : Exec (Sys W) GlobalStats
    global_stats = do
      df ← on_host disk_usage
      machines ← with_read_lock (λ s. ok s.machines)
      live ← refresh_running (running_ids machines) machines
      sandboxes ← on_host (summarize_all live)
      let disk = parse_df_output df.stdout
      pure (record {
        host_disk_total_mb = disk.0;
        host_disk_used_mb = disk.1;
        host_disk_avail_mb = disk.2;
        host_disk_percent =
            if is_positive disk.0
            then tenths floats (mul (div disk.1 disk.0) (of_ℕ 100))
            else of_ℕ 0;
        sandboxes = sandboxes;
      })
