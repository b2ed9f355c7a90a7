-- ===== src/Fleet.antt =====
-- src/commands/fleet.rs: fleets of machines. This file has the types; the creation of the machines
-- is in Fleet/Create, their provisioning in Fleet/Provision, the commands in Fleet/Commands.
pub mod Create
pub mod Provision
pub mod Commands
use Prim.Native.String.{◌++◌}
use clawstainer.Base.{
  ℕ, ◌+◌, ◌%◌, ◌^◌, String, Bool, Option, none, List, [], ◌∷◌, nat_eq, if◌then◌else◌,
}
use clawstainer.Base.Decimal.{decimal}

pub record FleetMachineDef : Type 0 where
  pub name : String
  pub count : ℕ
  pub memory : ℕ
  pub cpus : ℕ
  pub provision : Option String
  pub security : String
  pub cap_add : List String
  pub cap_drop : List String
  pub env_file : Option String
  pub linger : Bool

pub record FleetFile : Type 0 where
  pub machines : List FleetMachineDef

pub record FleetCreateArgs : Type 0 where
  pub parallel : ℕ
  pub network : String
  pub runtime : String

pub record FleetDestroyArgs : Type 0 where
  pub name : Option String
  pub all : Bool

pub record FleetMachineResult : Type 0 where
  pub name : String
  pub id : Option String
  pub status : String
  pub ip : Option String
  pub provision_status : Option String
  pub error : Option String

pub record PendingProvision : Type 0 where
  pub machine_name : String
  pub machine_id : String
  pub provision : String
  pub runtime_name : String
  pub result_index : ℕ

pub record FleetCreateResult : Type 0 where
  pub fleet : List FleetMachineResult
  pub total : ℕ
  pub created : ℕ
  pub provisioned : ℕ
  pub failed : ℕ

pub record FleetDestroyResult : Type 0 where
  pub destroyed : ℕ
  pub failed : ℕ
  pub machines : List String

-- `+= 1` at `u32`
abbrev pub increment : ℕ → ℕ
increment n = (n + 1) % 2 ^ 32

-- How many machines the definitions ask for.
abbrev pub count_all : List FleetMachineDef → ℕ
count_all [] = 0
count_all (def ∷ defs) = def.count + count_all defs

-- `fleet.machines.iter().map(|d| d.count).sum()` at `u32`
abbrev pub total_of : FleetFile → ℕ
total_of fleet = count_all fleet.machines % 2 ^ 32

-- A machine that is alone has the name of its definition; the others have their index behind it.
unfoldable pub indexed_name : FleetMachineDef → ℕ → String
unfolding decimal
indexed_name def index = if nat_eq def.count 1 then def.name else def.name ++ "-" ++ decimal index
