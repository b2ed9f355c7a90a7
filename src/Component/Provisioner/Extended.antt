-- ===== src/Component/Provisioner/Extended.antt =====
-- How a successful `provision` (src/component/provisioner.rs) extends the components of a machine.
use mathlib.Core.List.{◌++◌ as append, append-nil}
use mathlib.Core.Option
use clawstainer.Base.{
  String, ◌≡◌, refl, ap, Option, none, some, List, [], arith, if◌then◌else◌, ◌==◌,
}
use clawstainer.Base.Map.{get, modify, get-modify}
use clawstainer.State.{Machine, State}

-- The components recorded for a machine have `names` at their end; all else is as before.
abbrev pub extend : List String → Machine → Machine
extend names m = record m { components = append m.components names }

abbrev pub Extended : String → List String → State → State → Type 0
Extended machine_id names before after =
    (after.network ≡ before.network)
    × ((id : String)
        → get id after.machines ≡ (
            if machine_id == id
            then Option.map (extend names) (get id before.machines)
            else get id before.machines))

extend-nothing : (o : Option Machine) → Option.map (extend []) o ≡ o
extend-nothing none = refl
extend-nothing (some m) =
    ap (λ components. some (record m { components = components })) (append-nil m.components)

pub Extended-nothing : (machine_id : String) (before : State) → Extended machine_id [] before before
Extended-nothing machine_id before =
    (refl, λ id. ground (arith, extend-nothing (get id before.machines)))

pub Extended-modify :
    (machine_id : String) (names : List String) (before : State)
    → Extended machine_id names before
        (record before { machines = modify machine_id (extend names) before.machines })
Extended-modify machine_id names before =
    (refl, λ id. get-modify machine_id id (extend names) before.machines)
