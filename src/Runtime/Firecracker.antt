-- ===== src/Runtime/Firecracker.antt =====
-- src/runtime/firecracker.rs: the backend that runs each machine in a microVM. The socket of the
-- VM's API, src/firecracker/api.rs, is a parameter.
pub mod Create
pub mod Status
pub mod Destroy
pub mod Forgotten
pub mod Client
pub mod Remote
use Prim.Native.String.{◌++◌}
use clawstainer.Base.{ℕ, String, Bool, ◌&&◌, leb, ltb}
use clawstainer.Base.Map.{Map}
use clawstainer.Exec.{Exec}

-- `json!` values, as far as the requests need them.
pub data Value : Type 0 where
  text : String → Value
  number : ℕ → Value
  boolean : Bool → Value

pub record ApiResponse : Type 0 where
  pub status : ℕ
  pub body : String

-- `(200..300).contains(&self.status)`
abbrev pub is_success : ApiResponse → Bool
is_success r = leb 200 r.status && ltb r.status 300

-- A request to the API at a socket.
pub record Api (W : Type 0) : Type 0 where
  pub put : String → String → Map Value → Exec W ApiResponse

abbrev pub machines_dir : String
machines_dir = "/var/lib/clawstainer/machines"

abbrev pub socket_path : String → String
socket_path machine_id = machines_dir ++ "/" ++ machine_id ++ "/firecracker.sock"

abbrev pub vsock_path : String → String
vsock_path machine_id = machines_dir ++ "/" ++ machine_id ++ "/vsock.sock"
