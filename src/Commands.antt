-- ===== src/Commands.antt =====
-- src/commands: the handlers of the commands on single machines and on the Lima VM.
pub mod Destroy
pub mod Vm
pub mod Logs
pub mod Machine
pub mod Copy
pub mod Listing
pub mod Stats
