-- ===== src/Scenarios/Pipeline/Replayed.antt =====
-- The replay of the two events of the pipeline's test.
use Prim.Native.Nat.{bit_and}
use vestigium.Common.{ℕ, suc, ◌≡◌, refl, ap, ◌∙◌, [], ◌∷◌, Option}
use vestigium.Common.Exec.{ok}
use vestigium.Common.HashMap.{HashMap}
use vestigium.Platform.{
  Platform, World, RegisterName, of_reg64, rax, rdx, rip, cr0, cr3, cr4, efer, halted_replay, say,
}
use vestigium.Platform.Registers.{Registers}
use vestigium.Trace.{TraceEvent, rdtsc}
use vestigium.Vmm.Ept
use vestigium.Vmm.Ept.{EptManager, map_gpa_range}
use vestigium.Vmm.Vcpu.{Vcpu, get_registers, set_registers}
use vestigium.Engine.Memory.{AlignedMemory}
use vestigium.Engine.Runner
use vestigium.Engine.Snapshot.{Snapshot}
use vestigium.Engine.Replay
use vestigium.Engine.Replay.{
  ReplayEngine, register_vcpu, active_vcpu, map_regions, restore_registers, restore_snapshot,
  replay_event, replay_round, replay_exit, replay_halt, inject_and_advance, inject_event, inject,
}
use vestigium.Engine.Replay.Translation.{Translates}
use vestigium.Scenarios.Engines.Passed.{with_machine}
use vestigium.Scenarios.Hypervisor.{Serves}
use vestigium.Scenarios.Execution.{Fetches, Configures, Executes}

abbrev pub cpu : ℕ → Vcpu
cpu h = record { partition = h; index = 0 }

abbrev pub engine_of : ℕ → ReplayEngine
engine_of h = register_vcpu (Replay.new (record { handle = h }) 0) 0 (cpu h)

module _ {p : Platform} (file : p.Machine → ℕ → ℕ → Registers) (serves : Serves p file) where
  -- The regions of a snapshot are mapped, and the registers stay.
  regions-mapped :
      (ept : EptManager) (regions : HashMap AlignedMemory) (w : World p)
      → (m : p.Machine) × (map_regions ept regions w ≡ (ok tt, with_machine m w))
        × ((h i : ℕ) (n : RegisterName) → file m h i n ≡ file w.machine h i n)
        × ((exits : p.Machine → ℕ → ℕ)
            → Configures p exits
            → (h : ℕ) → exits m h ≡ exits w.machine h)
  unfolding map_regions map_gpa_range
  regions-mapped ept [] w = (w.machine, refl, (λ h i n. refl), λ exits c h. refl)
  regions-mapped ept ((gpa, mem) ∷ regions) w =
      let m = (p.map_range ept.partition mem.ptr gpa mem.size 0x7 w.machine).1 in
      let (m', run, same, set) = regions-mapped ept regions (with_machine m w) in
      (
        m',
        rw (serves.maps ept.partition mem.ptr gpa mem.size 0x7 w.machine) run,
        (λ h i n. same h i n ∙ serves.kept ept.partition mem.ptr gpa mem.size 0x7 w.machine h i n),
        λ exits c h. set exits c h ∙ c.mapped ept.partition mem.ptr gpa mem.size 0x7 w.machine h,
      )

  pub restored :
      (engine : ReplayEngine) (s : Snapshot) (w : World p)
      → s.registers ≡ []
      → (m : p.Machine) × (restore_snapshot engine s [] w ≡ (ok tt, with_machine m w))
        × ((h i : ℕ) (n : RegisterName) → file m h i n ≡ file w.machine h i n)
        × ((exits : p.Machine → ℕ → ℕ)
            → Configures p exits
            → (h : ℕ) → exits m h ≡ exits w.machine h)
  unfolding restore_snapshot restore_registers
  restored engine s w none_saved =
      let (m, run, same, set) =
        regions-mapped (Ept.new engine.partition.handle) s.memory_regions w in
      (m, rw (run, none_saved) refl, same, set)

  module _ (at : ℕ → p.Machine → ℕ → Option (ℕ × ℕ)) (translates : (h : ℕ) → Translates p h (at h))
      (exits : p.Machine → ℕ → ℕ) (executes : Executes p file at exits) (h : ℕ) where
    -- The state after RDTSC has been injected and stepped over.
    pub record Injected (m m' : p.Machine) : Type 0 where
      pub rax_written : file m' h 0 rax ≡ of_reg64 0x1111
      pub rip_written : file m' h 0 rip ≡ of_reg64 0x1002
      pub protected : file m' h 0 cr0 ≡ file m h 0 cr0
      pub extended : file m' h 0 cr4 ≡ file m h 0 cr4
      pub long : file m' h 0 efer ≡ file m h 0 efer
      pub tables : file m' h 0 cr3 ≡ file m h 0 cr3
      pub mapped : (a : ℕ) → at h m' a ≡ at h m a

    pub rdtsc-Injected :
        (k : ℕ) (w : World p)
        → bit_and (exits w.machine h) 0x8 ≡ 0x8
        → Fetches (file w.machine h 0) (at h w.machine) w.heap (0x0F ∷ 0x31 ∷ [])
        → file w.machine h 0 rip ≡ of_reg64 0x1000
        → (m' : p.Machine) × (replay_event
              (suc k)
              (engine_of h)
              (record { instruction_count = 0; event = rdtsc 0x1111 0x0 })
              w
            ≡ (ok tt, with_machine m' w))
          × Injected w.machine m'
    unfolding replay_event replay_round replay_exit Runner.run active_vcpu inject_and_advance
        inject_event inject Replay.advance_rip get_registers set_registers
    rdtsc-Injected k w set fetches at_rip =
        let (e, reason, len, same) = executes.rdtsc h 0 w.machine w.heap set fetches in
        let values = of_reg64 0x1111 ∷ of_reg64 0 ∷ [] in
        let m1 = e.after in
        let m2 = (p.write_registers h 0 (rax ∷ rdx ∷ []) values m1).1 in
        let m3 = (p.write_registers h 0 (rip ∷ []) (of_reg64 0x1002 ∷ []) m2).1 in
        let after = serves.written h 0 (rax ∷ rdx ∷ []) values m1 in
        let last = serves.written h 0 (rip ∷ []) (of_reg64 0x1002 ∷ []) m2 in
        let rip2 : file m2 h 0 rip ≡ of_reg64 0x1000 = after rip ∙ same rip ∙ at_rip in
        (
          m3,
          rw
              (
                e.run,
                reason,
                serves.writes h 0 (rax ∷ rdx ∷ []) values m1,
                serves.reads h 0 (rip ∷ []) m2,
                rip2,
                len,
                serves.writes h 0 (rip ∷ []) (of_reg64 0x1002 ∷ []) m2,
              )
              refl,
          record {
            rax_written = last rax ∙ after rax;
            rip_written = last rip;
            protected = last cr0 ∙ after cr0 ∙ same cr0;
            extended = last cr4 ∙ after cr4 ∙ same cr4;
            long = last efer ∙ after efer ∙ same efer;
            tables = last cr3 ∙ after cr3 ∙ same cr3;
            mapped = λ a.
                (translates h).written h 0 (rip ∷ []) (of_reg64 0x1002 ∷ []) m2 a
                ∙ (translates h).written h 0 (rax ∷ rdx ∷ []) values m1 a
                ∙ ap (λ f. f a) e.mapped;
          },
        )

    -- HLT ends the replay of any event, with a line for RAX.
    pub hlt-left :
        (k : ℕ) (event : TraceEvent) (w : World p)
        → Fetches (file w.machine h 0) (at h w.machine) w.heap (0xF4 ∷ [])
        → (w' : World p) × (replay_event (suc k) (engine_of h) event w ≡ (ok tt, w'))
          × (w'.heap ≡ w.heap)
          × (file w'.machine h 0 rax ≡ file w.machine h 0 rax)
    unfolding replay_event replay_round replay_exit replay_halt Runner.run active_vcpu get_registers
    hlt-left k event w fetches =
        let (e, reason, same) = executes.hlt h 0 w.machine w.heap fetches in
        (
          say (halted_replay (file e.after h 0 rax).reg64 ∷ []) (with_machine e.after w),
          rw (e.run, reason, serves.reads h 0 (rax ∷ []) e.after) refl,
          refl,
          same,
        )
