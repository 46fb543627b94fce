-- ===== src/Scenarios/Pipeline.antt =====
-- The test of crates/engine/src/lib.rs of the whole pipeline: a guest of RDTSC and HLT is captured,
-- restored and replayed.
pub mod Captured
pub mod Replayed
pub mod Fetching
pub mod Passed
use vestigium.Common.{ℕ, ◌*◌, List, [], ◌∷◌, ◌==◌}
use vestigium.Common.Exec.{Exec, pure, assert, expect, ◌>>=◌, ◌>>◌}
use vestigium.Platform.{
  Platform, World, page_layout, alloc_zeroed, unchecked, store, of_reg64, zero_value, rax, rip,
}
use vestigium.Trace.{TraceEvent, rdtsc, context_switch}
use vestigium.Vmm.Paging.{PageTable, create_identity_mapping}
use vestigium.Vmm.Vcpu.{Vcpu, first, get_registers, set_registers, setup_long_mode}
use vestigium.Engine.Snapshot
use vestigium.Engine.Snapshot.{Snapshot, capture_region}
use vestigium.Engine.Record.{TraceLogger, new_logger, log_event}
use vestigium.Engine.Replay
use vestigium.Engine.Replay.{ReplayEngine, register_vcpu, restore_snapshot}
use vestigium.Cli.Events.{replay_events}
use vestigium.Cli.Layout.{drop_regions}
use vestigium.Scenarios.Engines.{set_up, tear_down}

-- What the logger holds.
abbrev pub recorded_events : List TraceEvent
recorded_events =
    (log_event (log_event new_logger (record { instruction_count = 0; event = rdtsc 0x1111 0x0 }))
      (record { instruction_count = 0; event = context_switch 1 })).events

module _ {p : Platform} where
  -- The record phase: the code page and the page tables.
  unfoldable pub record_phase : Exec (World p) Snapshot
  record_phase = do
    page_layout 4096
    allocated ← alloc_zeroed 4096
    host_memory ← unchecked allocated
    store host_memory 0 (0x0F ∷ [])
    store host_memory 1 (0x31 ∷ [])
    store host_memory 2 (0xF4 ∷ [])
    snapshot ← capture_region Snapshot.new 0x1000 host_memory 4096
    page_table ← create_identity_mapping 0x2000
    capture_region snapshot 0x2000 page_table.host_ptr page_table.size

  -- The replay phase and the verification.
  unfoldable pub replay_phase : ℕ → ReplayEngine → Vcpu → Snapshot → Exec (World p) (Unit {0})
  replay_phase fuel replay vcpu0 snapshot = do
    expect (setup_long_mode vcpu0 0x2000)
    expect (set_registers vcpu0 (rip ∷ []) (of_reg64 0x1000 ∷ []))
    expect (restore_snapshot replay snapshot [])
    replay_events fuel replay recorded_events
    values ← expect (get_registers vcpu0 (rax ∷ []) (zero_value ∷ []))
    assert ((first values).reg64 == 0x1111)
    assert (replay.active_vcpu_id == 0)

  unfoldable pub test_phase4_e2e_record_replay_pipeline : ℕ → Exec (World p) (Unit {0})
  test_phase4_e2e_record_replay_pipeline fuel = do
    snapshot ← record_phase
    made ← set_up
    replay_phase fuel (register_vcpu (Replay.new made.0 0) 0 made.1) made.1 snapshot
    tear_down made.0 made.1
    drop_regions snapshot.memory_regions
