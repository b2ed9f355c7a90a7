-- ===== src/Image/Paths.antt =====
-- The file system as the modules of src/image and src/firecracker use it, and the ways to run a
-- command that they share.
use clawstainer.Base.{ℕ, String, Bool, List, if◌then◌else◌}
use clawstainer.Errors.{Failure, Result}
use clawstainer.Exec.{Exec, pure, fail, ◌>>=◌}
use clawstainer.Runtime.Host.{Output, success, context}
use Prim.Native.String.{◌++◌}

pub record FileHost (W : Type 0) : Type 0 where
  pub run : List String → Exec W Output  -- a command, until it ends
  pub exists : String → W → Bool
  pub is_symlink : String → W → Bool
  pub create_dir_all : String → Exec W Unit
  pub remove_dir_all : String → Exec W Unit
  pub remove_dir : String → Exec W Unit
  pub remove_file : String → Exec W Unit
  pub read_to_string : String → Exec W String
  pub write : String → String → Exec W Unit
  pub copy : String → String → Exec W Unit
  pub symlink : String → String → Exec W Unit
  pub metadata : String → Exec W (ℕ × String)  -- size, date of the last change or ""
  pub read_dir : String → Exec W (List (Result String))  -- the names of the entries
  pub sleep : ℕ → Exec W Unit  -- milliseconds
  pub arch : String  -- `std::env::consts::ARCH`
  pub project_dir : String  -- CARGO_MANIFEST_DIR

infixr 66 ◌^◌
abbrev pub ◌^◌ : String → String → String
a ^ b = a ++ b

-- `PathBuf::join`, under a directory that ends in no slash.
infixr 66 ◌//◌
abbrev pub ◌//◌ : String → String → String
dir // part = dir ++ "/" ++ part

abbrev pub machine_dir : String → String
machine_dir id = "/var/lib/clawstainer/machines" // id

abbrev pub firecracker_dir : String
firecracker_dir = "/var/lib/clawstainer/firecracker"

module _ {W : Type 0} (files : FileHost W) where
  -- `status().context(not_run)?`, and `failed` when the command has failed.
  unfoldable pub run_or : String → Failure → List String → Exec W Unit
  run_or not_run failed cmd = do
    o ← context not_run (files.run cmd)
    if success o then pure tt else fail failed
