-- ===== src/Cli/Record.antt =====
-- crates/cli/src/main.rs, the command `record`. The formats are parameters.
use vestigium.Common.{ℕ, List, [], ◌∷◌, length}
use vestigium.Common.Exec.{Outcome, ok, err, panic, fault, stuck, Exec, pure, expect, ◌>>=◌, ◌>>◌}
use vestigium.Platform.{
  Platform, World, Bytes, Answer, println, add_u64, of_reg64, rip, rsp, mapped_at, starting,
  record_hash, captured, destination, saved, recording,
}
use vestigium.Trace.{TraceEvent}
use vestigium.Vmm.Partition
use vestigium.Vmm.Partition.{VmPartition, configure_interceptions, as_raw, drop_partition}
use vestigium.Vmm.Ept
use vestigium.Vmm.Vcpu
use vestigium.Vmm.Vcpu.{Vcpu, set_registers, setup_long_mode, drop_vcpu}
use vestigium.Engine.Loader.{Pe, PeLoader, parse, entry_point, map_into_memory}
use vestigium.Engine.Memory.{drop_memory}
use vestigium.Engine.Record
use vestigium.Engine.Record.{RecordEngine, RecordState, finalize}
use vestigium.Engine.Snapshot.{Snapshot, capture_registers}
use vestigium.Engine.Snapshot.Hash.{Hasher, hash_state}
use vestigium.Engine.Snapshot.Serde.{SavedSnapshot, serialize}
use vestigium.Cli.Files.{FileSystem, Session, outside, on_host, read_file, write_file}
use vestigium.Cli.Layout.{
  Layout, base_gpa, stack_size, pt_gpa, capture_names, map_guest, capture_memory_layout,
  drop_regions,
}

-- What the trace file holds.
pub record Archive : Type 0 where
  pub snapshot : SavedSnapshot
  pub events : List TraceEvent
  pub hash : ℕ

-- A guest before its first run: what the command has made for it.
pub record Started : Type 0 where
  pub partition : VmPartition
  pub layout : Layout
  pub vcpu : Vcpu
  pub snapshot : Snapshot

abbrev pub returning : {A B : Type 0} → B → Outcome A → Outcome B
returning b (ok a) = ok b
returning b (err e) = err e
returning b panic = panic
returning b fault = fault
returning b stuck = stuck

module _ {p : Platform} where
  -- `record_engine.run()`, and the engine after it.
  unfoldable pub run_engine : ℕ → RecordEngine → Exec (World p) RecordEngine
  run_engine fuel engine w =
      let (r, s) = Record.run fuel (record { engine = engine; world = w }) in
      (returning s.engine r, s.world)

  -- The first registers of the guest.
  unfoldable pub set_entry : Vcpu → PeLoader → Layout → Exec (World p) (Unit {0})
  set_entry vcpu loader layout = do
    expect (setup_long_mode vcpu pt_gpa)
    entry_gpa ← add_u64 base_gpa (entry_point loader)
    stack_gpa ← add_u64 layout.stack_base_gpa stack_size
    expect (set_registers vcpu (rip ∷ rsp ∷ []) (of_reg64 entry_gpa ∷ of_reg64 stack_gpa ∷ []))

  -- The final snapshot, and its hash.
  unfoldable pub final_state : Hasher → Vcpu → Layout → Exec (World p) (Snapshot × ℕ)
  final_state h vcpu layout = do
    final_snapshot ← capture_memory_layout layout
    final_snapshot ← expect (capture_registers final_snapshot vcpu capture_names)
    final_hash ← hash_state h final_snapshot
    pure (final_snapshot, final_hash)

  -- From the capture of the memory to the start of the run.
  unfoldable pub prepare_guest : VmPartition → PeLoader → Layout → Exec (World p) (Vcpu × Snapshot)
  prepare_guest partition loader layout = do
    snapshot ← capture_memory_layout layout
    println (mapped_at base_gpa (entry_point loader))
    vcpu ← expect (Vcpu.new (as_raw partition) 0)
    set_entry vcpu loader layout
    snapshot ← expect (capture_registers snapshot vcpu capture_names)
    println starting
    pure (vcpu, snapshot)

  -- From the run to the archive, with the final snapshot.
  unfoldable pub finish_guest :
      ℕ → Hasher → VmPartition → Layout → Vcpu → Snapshot → Exec (World p) (Snapshot × Archive)
  finish_guest fuel h partition layout vcpu snapshot = do
    engine ← expect (run_engine fuel (Record.new partition vcpu))
    last ← final_state h vcpu layout
    println (record_hash last.1)
    println (captured (length (finalize engine)))
    println destination
    saved_snapshot ← serialize snapshot
    pure (last.0, record { snapshot = saved_snapshot; events = finalize engine; hash = last.1 })

  -- From the parsing of the target to the start of the run.
  unfoldable pub start_guest : (Bytes → Answer Pe) → Bytes → Exec (World p) Started
  start_guest parser binary_data = do
    loader ← expect (outside (parse parser binary_data))
    image ← map_into_memory loader
    partition ← expect Partition.new
    expect (configure_interceptions partition)
    layout ← map_guest (Ept.new (as_raw partition)) image.0 image.1
    made ← prepare_guest partition loader layout
    pure (record { partition = partition; layout = layout; vcpu = made.0; snapshot = made.1 })

  -- The end of the scope: the last snapshot, the processor, the first snapshot, and the memory.
  unfoldable pub drop_guest : Started → Snapshot → Exec (World p) (Unit {0})
  drop_guest guest final_snapshot = do
    drop_regions final_snapshot.memory_regions
    drop_vcpu guest.vcpu
    drop_regions guest.snapshot.memory_regions
    drop_memory guest.layout.null_page
    drop_memory guest.layout.stack_memory
    drop_partition guest.partition

  module _ {fs : FileSystem} (encode : Archive → Answer Bytes) where
    -- From the archive to the end of the command.
    unfoldable pub save_guest :
        fs.FileName → Started → Snapshot × Archive → Exec (Session p fs) (Unit {0})
    save_guest output guest ended = do
      encoded ← expect (outside (encode ended.1))
      expect (write_file output encoded)
      on_host (println saved)
      on_host (drop_guest guest ended.0)

  module _ {fs : FileSystem} (parser : Bytes → Answer Pe) (encode : Archive → Answer Bytes) where
    unfoldable pub record_command :
        ℕ → Hasher → fs.FileName → fs.FileName → Exec (Session p fs) (Unit {0})
    record_command fuel h target output = do
      on_host (println recording)
      binary_data ← expect (read_file target)
      guest ← on_host (start_guest parser binary_data)
      ended ← on_host (finish_guest fuel h guest.partition guest.layout guest.vcpu guest.snapshot)
      save_guest encode output guest ended
