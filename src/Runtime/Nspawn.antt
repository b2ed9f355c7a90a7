-- ===== src/Runtime/Nspawn.antt =====
-- src/runtime/nspawn.rs: the systemd-nspawn backend, one module for each method and its helpers.
pub mod Caps
pub mod Env
pub mod Create
pub mod Exec
pub mod Status
pub mod Destroy
