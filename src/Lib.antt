-- ===== src/Lib.antt =====
-- clawstainer creates sandboxes for agents, runs commands in them, installs components and takes
-- them away again. This library models its core and proves what makes it correct.
--
-- The parts of the program, and where they are:
--   Errors      src/error.rs: `ClawError` with its texts, codes, exit codes and hints; `Result`.
--   Base        helpers on numbers, lists, maps, texts and JSON values that the parts share.
--   Exec        sequencing with `?` over a state; Exec/Hoare, Exec/Returned and Exec/Kept reason
--               about it.
--   Network     src/network/ipam.rs: the pool of addresses. Network/Pool has its laws.
--   State       src/state/mod.rs: the machines and the network. State/Store has the transactions
--               `with_lock` and `with_read_lock`, State/Disk the same down to the files and the lock,
--               State/Reconcile the comparison with the runtime, State/Consistent the invariant.
--   Runtime     src/runtime/mod.rs: the interface `Runtime`, names, polling. Runtime/Host is what
--               the code asks of the host, with src/network/bridge.rs, nat.rs and tap.rs;
--               Runtime/Nspawn is src/runtime/nspawn.rs, a module for each method;
--               Runtime/Firecracker is src/runtime/firecracker.rs, with Remote for `exec` and
--               `shell`, and Client for src/firecracker/api.rs and vsock.rs.
--   Component   src/component/mod.rs and provisioner.rs: resolution of names, and provisioning.
--   Main        `make_runtime` and `runtime_for_machine` of src/main.rs; Main/Backends puts the two
--               backends together with their images and sockets.
--   Fleet       src/commands/fleet.rs: Fleet/Create and Fleet/Provision are the two passes of the
--               creation, Fleet/Commands has `run_create` and `run_destroy`.
--   Image       src/image: Image/Bootstrap, Image/Overlay and Image/Snapshot are its files, `images`
--               fills the record that the runtimes take; Image/Assets and Image/Rootfs are
--               src/firecracker/assets.rs and rootfs.rs.
--   ExecLog     src/execlog: the log of the commands of a machine.
--   Agent       src/agent: the protocol, the execution of a command and the loop of a connection.
--   Lima        src/lima.rs: Lima/Machine has the commands on the VM, Lima/Pid the repair of its pid
--               file, Lima/Escape the command line of the proxy; Lima/Escape/Words is how a shell
--               reads the quotes, backslashes and blanks of that line, which is not code of the
--               program but what it relies on.
--   Commands    src/commands: Destroy, Vm and Logs are the files of that name; Machine has exec, shell,
--               create and provision, Copy has cp.rs and port_forward.rs, Listing has list.rs and
--               snapshot.rs, Stats and Stats/Global have stats.rs.
--   Output      src/output.rs and `exit_on_error` of src/main.rs: formats and exit statuses.
--   System      the states that are reached by creating, destroying, provisioning and reconciling
--               machines, and System/Addresses their invariant.
--   Examples    a host, a runtime and a state to run the model on; Witnesses has the theorems there.
--
-- Commands act on `Sys W`: the stored state beside a world `W`, which stands for the host. Commands
-- of the host, files, clocks and random numbers are the fields of the parameters `Host W`,
-- `FileHost W`, `LogHost W`, `Mac W` and `Guest W`; the sockets of a microVM are parameters of the
-- client, and what `serde_json` does is `Codec` and `Json`. A `HashMap` is an association list whose
-- order stands for the order of iteration. Texts that only report progress are not modelled. Numbers
-- are natural numbers; where the code wraps at a width, the model says so.
--
-- Operations run one after the other: a step of System is a whole operation, and the threads that
-- provision a fleet take turns.
--
-- Loops: `allocate` runs on 256 rounds of fuel, one for each value of a `u8`; `poll_with_backoff` and
-- `wait_until` run on a round for each millisecond of their timeout and two more, which are enough as
-- each round sleeps for a millisecond at least; `chunks` runs on the length of its list, which each
-- chunk shortens; `trim_matches` runs on the number of characters of its text. All other loops go
-- through a list or count down.
--
-- Simplified: `with_lock` and `with_read_lock` of State/Store have no failures of the lock and of the
-- files, which State/Disk has; a round of `poll_with_backoff` reads its clock once, in milliseconds;
-- the two waits of the microVM's client are one loop, whose tries return; sums and differences wrap
-- around, as in a release build.
--
-- Not modelled: the parser of the command line, which clap derives from src/cli.rs; the system
-- calls of src/agent/vsock.rs; the printing of tables, JSON and progress; the loop of
-- `stats --watch`; and the thread of `create` that destroys a machine after a timeout, which ends
-- with the process.
pub mod Base
pub mod Errors
pub mod Exec
pub mod Network
pub mod State
pub mod Runtime
pub mod Component
pub mod Output
pub mod Main
pub mod Lima
pub mod Agent
pub mod ExecLog
pub mod Image
pub mod Fleet
pub mod Commands
pub mod System
pub mod Examples
mod Witnesses
