-- ===== src/Witnesses.antt =====
-- The theorems at concrete inputs where their hypotheses hold.
mod Machines
mod Store
mod Components
mod Fleet
mod System
mod Firecracker
mod Commands
mod Lima
mod Images
mod Guests
mod Handlers
mod Failures
