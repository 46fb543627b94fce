-- ===== src/Lib.antt =====
-- Vestigium records the run of a guest on the Windows Hypervisor Platform and replays it. This
-- library models its crates and proves what they promise.
--
-- The program's parts, and the files that model them:
-- - crates/trace/src/format.rs, the recorded events: Trace.
-- - crates/vmm/src, a partition (partition.rs: Vmm/Partition, and Vmm/Partition/Life for the
--   partitions that exist), its virtual processors (vcpu.rs: Vmm/Vcpu), the mapping of host
--   memory into the guest (ept.rs: Vmm/Ept) and the page tables of long mode (paging.rs:
--   Vmm/Paging, with its bytes in Vmm/Paging/Words, a walk of page tables in Vmm/Paging/Walk and
--   the proof in Vmm/Paging/Build).
-- - crates/engine/src/loader.rs, a PE file laid out as an image: Engine/Loader, and below it
--   Image (what the copy of the sections leaves) and Mapping (the whole call).
-- - crates/engine/src/runner.rs, one run up to an exit: Engine/Runner.
-- - crates/engine/src/record.rs: host buffers (Engine/Memory), snapshots and their hash
--   (Engine/Snapshot, Engine/Snapshot/Hash), their form in the trace file
--   (Engine/Snapshot/Serde), the recorder (Engine/Record). One function per arm of the match in
--   `RecordEngine::run`: `record_halt`, `record_cpuid`, `record_rdtsc`, `record_vmcall`;
--   `record_exit` is the match, `record_round` the body of the loop, `record_loop` the loop; when
--   and how it ends is in Engine/Record/Rounds, and what its rounds leave alone in
--   Engine/Record/Memory.
-- - crates/engine/src/replay.rs: Engine/Replay. `replay_exit` is the match of `replay_event`,
--   `inject` that of `inject_event`. What the guest reads after `restore_snapshot` is in
--   Engine/Replay/Restored.
-- - target_app/src/main.rs and crates/test_target/src/main.rs, the programs that run in the
--   guest: Guest/TargetApp and Guest/TestTarget, as machines that stop at intercepted
--   instructions (Guest). Guest/Spec is an abstract recorder of such machines, Guest/Hosts what
--   it means that a processor runs one, and Guest/Recorded compares `RecordEngine::run` with the
--   abstract recorder.
-- - crates/cli/src/main.rs: the guest's memory in Cli/Layout (where its parts lie in Bounds, what
--   the mapping leaves in Mapped and Total, where the guest sees it in Placed, its capture in
--   Capture), the two commands in Cli/Record (`start_guest` up to the start of the engine,
--   `finish_guest` from there to the archive, `save_guest` to the end) and Cli/Replay (how it
--   ends in Verdict and Report), the files they share in Cli/Files, the choice of the command in
--   Cli/Main and how it ends in Cli/Saved, the loop over the events in Cli/Events, and the two
--   engines one after the other in Cli/Determinism, with Engine/Simulation and Engine/Determinism
--   below it, with the hashes in Cli/Verification, with the archive between them in Cli/Archive,
--   and from the start of the recorder to the end of the replay in Cli/Recorded.
-- - the tests of the crates, as programs over the components: Scenarios/Foundation (phase 1,
--   crates/vmm/src/lib.rs), Scenarios/Engines (phases 2 and 3, crates/engine/src/lib.rs) and
--   Scenarios/Pipeline (phase 4). An assertion that does not hold is a panic (`assert`).
--   Scenarios/Hypervisor and Scenarios/Execution say what the tests need of the hypervisor; the
--   proofs are in Passed, and for phase 4 also in Captured, Fetching and Replayed.
--
-- The abstract view of a snapshot's memory is a map from addresses to bytes; `Holds`
-- (Engine/Snapshot/Holds) relates the buffers on the heap to it. Capture, hash, serialisation and drop
-- are stated over it.
--
-- Calls return an `Outcome` (Common/Exec): a value, an error of the API (`err`), a panic, undefined
-- behaviour (`fault`), or `stuck` where fuel has run out. The state is `World` (Platform/State): the
-- hypervisor's machine, the host's heap as a list of blocks, and the lines printed. The recorder's
-- `&mut self` is a field of `RecordState`.
--
-- Parameters: the hypervisor's API, the guest that runs in it, the allocator's room, the layout
-- of a segment register and the build profile's overflow checks are the record `Platform`; the
-- hasher of the standard library is the record `Hasher`; the files are the record `FileSystem`;
-- the PE parser and the format of the trace are arguments of `parse` and of the commands. A
-- theorem that needs more of them says so: `IsSimulation` states that two processors answer
-- alike, `Hosts` that a processor runs a program, `Tracks` and `Translates` how the calls change
-- the partitions and the mappings, `Serves` that no call fails and a register reads as it was
-- written, `Configures` that a partition's exits are those it was last configured for, `Executes`
-- how a processor in long mode fetches and executes, `RunsKeep` that a run of the guest keeps its
-- memory live, `ReadsBack` that a file reads as it was written, `Decodes` that the format decodes
-- what it has encoded. A small platform with a guest of four instructions (Tests/Toy) satisfies
-- the first, a platform made of any program (Tests/Host) the second, platforms that list their
-- partitions (Tests/Life) and their mappings (Tests/Restored) the next two, and a machine that
-- walks its page tables and executes two instructions (Tests/Machine) `Serves`, `Configures` and
-- `Executes`, a disk of two files (Tests/Commands) `ReadsBack`, and a format with lengths before
-- its lists (Tests/Codec) `Decodes`.
--
-- Numbers are natural numbers; 64-bit sums panic or wrap (`add_u64`), as the profile says, and
-- casts to 32 bits are written out. The bytes of a page table are written and read as such. A
-- register value that is made through the 8-byte member of its union has 0 in the other 8 bytes,
-- which the source leaves uninitialised.
--
-- Fuel: the loops of `RecordEngine::run` and of `replay_event` have no bound, since a guest need not
-- stop. `record_loop` and `replay_event` take fuel, one unit for each run of the guest, and end as
-- `stuck` without it. One unit is enough for an event that meets its own exit.
--
-- Not modelled: what a file system holds, the parsing of the arguments of the command line, the
-- bytes of the trace file, the panic handlers of the target programs and the build scripts, and
-- the loader's test, which asserts what the PE parser answers on four bytes, and the three tests
-- that send one value through bincode.
pub mod Common
pub mod Platform
pub mod Trace
pub mod Vmm
pub mod Engine
pub mod Guest
pub mod Cli
pub mod Scenarios
pub mod Tests
