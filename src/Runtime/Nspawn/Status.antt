-- ===== src/Runtime/Nspawn/Status.antt =====
-- `NspawnRuntime::status` and `shell` of src/runtime/nspawn.rs.
use Prim.Native.String.{◌++◌}
use clawstainer.Base.{ℕ, ◌^◌, String, List, [], ◌∷◌, if◌then◌else◌, Option, none, some}
use clawstainer.Base.Text.{lines, parse_uint, strip_prefix}
use clawstainer.Errors.{claw, exec_failed, display}
use clawstainer.Exec.{Exec, pure, fail, map_err, ◌>>=◌, ◌>>◌}
use clawstainer.Runtime.{MachineStatus, require_linux}
use clawstainer.Runtime.Host.{Host, Output, success, context}

abbrev or_else : Option String → String → String
or_else none s = s
or_else (some t) s = t

-- A line `Leader=…` sets the process id, to none if it is no `u32`.
abbrev leader : Option String → Option ℕ → Option ℕ
leader none pid = pid
leader (some val) pid = parse_uint (2 ^ 32) val

-- The loop over the lines of `machinectl show`.
unfoldable pub read_properties : List String → String × Option ℕ → String × Option ℕ
unfolding strip_prefix
read_properties [] found = found
read_properties (line ∷ rest) (status, pid) =
    read_properties rest
      (or_else (strip_prefix "State=" line) status, leader (strip_prefix "Leader=" line) pid)

unfoldable pub status_of_output : String → Output → MachineStatus
unfolding read_properties lines parse_uint
status_of_output machine_id output =
    if success output
    then (let (status, pid) = read_properties (lines output.stdout) ("unknown", none) in
        record { id = machine_id; status = status; pid = pid })
    else record { id = machine_id; status = "stopped"; pid = none }

module _ {W : Type 0} (host : Host W) where
  unfoldable pub status : String → Exec W MachineStatus
  unfolding ◌>>=◌ pure map_err require_linux status_of_output
  status machine_id = do
    require_linux host.os
    output ← context "Failed to query machine status" (
        host.run
          ("machinectl" ∷ "show" ∷ machine_id ∷ "--property=State" ∷ "--property=Leader" ∷ []))
    pure (status_of_output machine_id output)

  -- The message names the exit status, which is the host's to print.
  unfoldable pub shell : (Output → String) → String → String → Exec W Unit
  unfolding ◌>>=◌ pure fail map_err require_linux display
  shell print_status machine_id user = do
    require_linux host.os
    output ←
        map_err (λ e. claw (exec_failed ("Failed to launch machinectl shell: " ++ display e)))
          (host.run ("machinectl" ∷ "shell" ∷ (user ++ "@" ++ machine_id) ∷ []))
    if success output
        then pure tt
        else fail (claw (exec_failed ("Shell exited with status: " ++ print_status output)))
