-- ===== src/Scenarios/Engines.antt =====
-- The tests of crates/engine/src/lib.rs: the logger, and the injection of events.
pub mod Passed
use vestigium.Common.{ℕ, some, [], ◌∷◌, ◌++◌, length, ◌==◌}
use vestigium.Common.Exec.{ok, panic, Exec, pure, raise, assert, expect, ◌>>=◌, ◌>>◌}
use vestigium.Common.HashMap.{get}
use vestigium.Platform.{Platform, World, Bytes, zero_value, rax, dealloc}
use vestigium.Trace.{TraceEvent, syscall, context_switch}
use vestigium.Vmm.Partition
use vestigium.Vmm.Partition.{VmPartition, configure_interceptions, as_raw, drop_partition}
use vestigium.Vmm.Vcpu
use vestigium.Vmm.Vcpu.{Vcpu, first, get_registers, drop_vcpu}
use vestigium.Engine.Memory.{len}
use vestigium.Engine.Snapshot
use vestigium.Engine.Snapshot.{Snapshot, capture_region}
use vestigium.Engine.Snapshot.Hash.{unwrap}
use vestigium.Engine.Record.{TraceLogger, new_logger, log_event}
use vestigium.Engine.Replay
use vestigium.Engine.Replay.{register_vcpu, inject_event}
use vestigium.Cli.Layout.{drop_regions}

abbrev pub logged_event : TraceEvent
logged_event = record {
  instruction_count = 150;
  event = syscall 0 ((0x2000, 0xAA ∷ 0xBB ∷ []) ∷ []);
}

abbrev pub injected_event : TraceEvent
injected_event = record { instruction_count = 0; event = syscall 0xDEADBEEF [] }

abbrev pub switch_event : TraceEvent
switch_event = record { instruction_count = 500; event = context_switch 1 }

module _ {p : Platform} where
  -- An array of the test's own, while it is in scope: a block of the heap.
  abbrev pub local_array : Bytes → Exec (World p) ℕ
  local_array bytes w = (ok (length w.heap), record w { heap = w.heap ++ some bytes ∷ [] })

  -- `events[0]`.
  abbrev pub first_event : TraceLogger → Exec (World p) TraceEvent
  first_event logger = elim logger.events [ [] ↦ raise panic | e ∷ es ↦ pure e ]

  unfoldable pub test_phase2_record_engine : Exec (World p) (Unit {0})
  test_phase2_record_engine = do
    dummy_memory ← local_array (0x90 ∷ 0x90 ∷ 0xCC ∷ [])
    snapshot ← capture_region Snapshot.new 0x1000 dummy_memory 3
    mem ← unwrap (get 0x1000 snapshot.memory_regions)
    assert (len mem == 3)
    let logger = log_event new_logger logged_event
    assert (length logger.events == 1)
    event ← first_event logger
    assert (event.instruction_count == 150)
    drop_regions snapshot.memory_regions
    dealloc dummy_memory

  -- A partition with its first processor, as the tests make them.
  unfoldable pub set_up : Exec (World p) (VmPartition × Vcpu)
  set_up = do
    partition ← expect Partition.new
    expect (configure_interceptions partition)
    vcpu ← expect (Vcpu.new (as_raw partition) 0)
    pure (partition, vcpu)

  -- What goes out of scope at the end.
  unfoldable pub tear_down : VmPartition → Vcpu → Exec (World p) (Unit {0})
  tear_down partition vcpu = do drop_vcpu vcpu; drop_partition partition

  unfoldable pub test_phase3_replay_engine_injection : Exec (World p) (Unit {0})
  test_phase3_replay_engine_injection = do
    made ← set_up
    let replay = register_vcpu (Replay.new made.0 0) 0 made.1
    expect (inject_event replay injected_event)
    values ← expect (get_registers made.1 (rax ∷ []) (zero_value ∷ []))
    assert ((first values).reg64 == 0xDEADBEEF)
    tear_down made.0 made.1

  unfoldable pub test_phase3_replay_engine_interleaving : Exec (World p) (Unit {0})
  test_phase3_replay_engine_interleaving = do
    made ← set_up
    let replay = register_vcpu (Replay.new made.0 0) 0 made.1
    assert (replay.active_vcpu_id == 0)
    expect (inject_event replay switch_event)
    assert (replay.active_vcpu_id == 0)
    tear_down made.0 made.1
