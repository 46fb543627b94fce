-- ===== src/Scenarios/Pipeline/Passed.antt =====
-- The test of the whole pipeline passes.
use Prim.Native.Nat.{bit_and}
use vestigium.Common.{ℕ, suc, ◌≡◌, refl, sym, ap, ◌∙◌, [], ◌∷◌, Option, some}
use mathlib.Core.Path.{subst}
use vestigium.Common.Exec.{ok}
use vestigium.Platform.{Platform, World, Heap, of_reg64, rax, rip, cr0, cr3, cr4, efer}
use vestigium.Platform.Registers.{Registers}
use vestigium.Trace.{context_switch}
use vestigium.Vmm.Partition.{intercepted}
use vestigium.Vmm.Vcpu.{
  get_registers, set_registers, setup_long_mode, long_mode_names, long_mode_values,
}
use vestigium.Engine.Memory.Alloc.{Allocates}
use vestigium.Engine.Snapshot.{Snapshot}
use vestigium.Engine.Snapshot.Holds.{Holds}
use vestigium.Engine.Replay.Translation.{Translates, byte_at, host_byte}
use vestigium.Engine.Replay.Restored.{restore_snapshot-Reads}
use vestigium.Cli.Events.{replay_events}
use vestigium.Cli.Layout.Drop.{drop_regions-AreFreed}
use vestigium.Scenarios.Hypervisor.{Serves}
use vestigium.Scenarios.Execution.{Configures, Executes}
use vestigium.Scenarios.Engines.Passed.{with_machine, set_up-ok, tear_down-ok}
use vestigium.Scenarios.Pipeline.{replay_phase, test_phase4_e2e_record_replay_pipeline}
use vestigium.Scenarios.Pipeline.Captured.{Captured, record_phase-Captured}
use vestigium.Scenarios.Pipeline.Fetching.{
  memory, captured-AreDisjoint, InLongMode, rdtsc-Fetches, hlt-Fetches,
}
use vestigium.Scenarios.Pipeline.Replayed.{cpu, engine_of, restored, rdtsc-Injected, hlt-left}

module _ {p : Platform} (file : p.Machine → ℕ → ℕ → Registers)
    (at : ℕ → p.Machine → ℕ → Option (ℕ × ℕ)) (serves : Serves p file)
    (translates : (h : ℕ) → Translates p h (at h)) (exits : p.Machine → ℕ → ℕ)
    (configures : Configures p exits) (executes : Executes p file at exits) where
  replay_phase-ok :
      (k h : ℕ) (s : Snapshot) (w : World p)
      → Captured s w.heap
      → exits w.machine h ≡ intercepted
      → (w' : World p) × (replay_phase (suc k) (engine_of h) (cpu h) s w ≡ (ok tt, w'))
        × (w'.heap ≡ w.heap)
  unfolding replay_phase setup_long_mode set_registers get_registers replay_events
  replay_phase-ok k h s w cap set =
      let v = cpu h in
      let m1 = (p.write_registers h 0 long_mode_names (long_mode_values p 0x2000) w.machine).1 in
      let m2 = (p.write_registers h 0 (rip ∷ []) (of_reg64 0x1000 ∷ []) m1).1 in
      let first_writes = serves.written h 0 long_mode_names (long_mode_values p 0x2000) w.machine in
      let second_writes = serves.written h 0 (rip ∷ []) (of_reg64 0x1000 ∷ []) m1 in
      let w2 = with_machine m2 w in
      let (m3, mapped, same, keeps) = restored file serves (engine_of h) s w2 cap.no_registers in
      let w3 = with_machine m3 w in
      let reads = λ (a b : ℕ) (e : byte_at (memory s w.heap cap) a ≡ some b).
        restore_snapshot-Reads h (at h) (translates h) (engine_of h) s [] (memory s w.heap cap) a b
          w2 w3 refl cap.holds (captured-AreDisjoint s w.heap cap) mapped e in
      let long3 : InLongMode (file m3 h 0) = record {
        protected = same h 0 cr0 ∙ second_writes cr0 ∙ first_writes cr0;
        extended = same h 0 cr4 ∙ second_writes cr4 ∙ first_writes cr4;
        long = same h 0 efer ∙ second_writes efer ∙ first_writes efer;
        tables = same h 0 cr3 ∙ second_writes cr3 ∙ first_writes cr3;
      } in
      let rip3 : file m3 h 0 rip ≡ of_reg64 0x1000 = same h 0 rip ∙ second_writes rip in
      let set3 : exits m3 h ≡ intercepted =
        keeps exits configures h
        ∙ configures.written h 0 (rip ∷ []) (of_reg64 0x1000 ∷ []) m1 h
        ∙ configures.written h 0 long_mode_names (long_mode_values p 0x2000) w.machine h
        ∙ set in
      let bit : bit_and (exits m3 h) 0x8 ≡ 0x8 = ap (λ n. bit_and n 0x8) set3 in
      let (m4, replayed, inj) =
        rdtsc-Injected file serves at translates exits executes h k w3 bit
          (rdtsc-Fetches s w.heap cap (at h m3) reads (file m3 h 0) long3 rip3) rip3 in
      let w4 = with_machine m4 w in
      let reads4 = λ (a b : ℕ) (e : byte_at (memory s w.heap cap) a ≡ some b).
        ap (host_byte w.heap) (inj.mapped a) ∙ reads a b e in
      let long4 : InLongMode (file m4 h 0) = record {
        protected = inj.protected ∙ long3.protected;
        extended = inj.extended ∙ long3.extended;
        long = inj.long ∙ long3.long;
        tables = inj.tables ∙ long3.tables;
      } in
      let (w5, left, heap5, rax5) =
        hlt-left file serves at translates exits executes h k
          (record { instruction_count = 0; event = context_switch 1 }) w4
          (hlt-Fetches s w.heap cap (at h m4) reads4 (file m4 h 0) long4 inj.rip_written) in
      let answer : file w5.machine h 0 rax ≡ of_reg64 0x1111 = rax5 ∙ inj.rax_written in
      (
        w5,
        rw
            (
              serves.writes h 0 long_mode_names (long_mode_values p 0x2000) w.machine,
              serves.writes h 0 (rip ∷ []) (of_reg64 0x1000 ∷ []) m1,
              mapped,
              replayed,
              left,
              serves.reads h 0 (rax ∷ []) w5.machine,
              answer,
            )
            refl,
        heap5,
      )

  -- The test of the pipeline passes on every platform that behaves as documented: where nothing
  -- fails (`Serves`), mappings translate (`Translates`), the extended exits are those last configured
  -- (`Configures`), and, fetched in long mode, HLT is intercepted, and RDTSC in a partition configured
  -- for it (`Executes`), with room for its pages and tables.
  pub pipeline_test-passes :
      (k : ℕ) (w : World p)
      → ((heap : Heap) → Allocates p heap 4096)
      → ((heap : Heap) → Allocates p heap 12288)
      → (w' : World p) × (test_phase4_e2e_record_replay_pipeline (suc k) w ≡ (ok tt, w'))
  unfolding test_phase4_e2e_record_replay_pipeline
  pipeline_test-passes k w room tables_room =
      let (s, w1, captured, cap) = record_phase-Captured w room tables_room in
      let (partition, m, made, set) = set_up-ok file serves w1 in
      let h = partition.handle in
      let w2 = with_machine m w1 in
      let (w3, replayed, heap3) = replay_phase-ok k h s w2 cap (set exits configures) in
      let (m4, down) = tear_down-ok file serves partition (cpu h) w3 in
      let (w5, dropped, _, _, _) =
        drop_regions-AreFreed s.memory_regions (memory s w1.heap cap) (with_machine m4 w3) (
          subst (λ heap. Holds heap s.memory_regions (memory s w1.heap cap)) (sym heap3)
            cap.holds) in
      (w5, rw (captured, made, replayed, down) dropped)
