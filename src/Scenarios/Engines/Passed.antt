-- ===== src/Scenarios/Engines/Passed.antt =====
-- The tests of the engines pass.
use vestigium.Common.{
  ℕ, ◌≡◌, refl, ◌∙◌, none, some, [], ◌∷◌, ◌++◌, length, ◌==◌, Bool-cases, inl, inr,
}
use vestigium.Common.Exec.{ok}
use vestigium.Platform.{
  Platform, World, Bytes, of_reg64, rax, processor_count, extended_vm_exits, dealloc,
}
use vestigium.Platform.Whole.{with_block, load-whole, store-fresh, set_block-middle, block-middle}
use vestigium.Platform.Access.{block-append, block-append_left}
use mathlib.Core.List.{append_assoc}
use vestigium.Engine.Memory.{AlignedMemory, drop_memory}
use vestigium.Engine.Memory.Alloc.{Allocates, new-ok, drop_memory-ok}
use vestigium.Platform.{Heap, zeroed}
use vestigium.Platform.Registers.{Registers}
use vestigium.Vmm.Partition
use vestigium.Vmm.Partition.{
  VmPartition, intercepted, configure_interceptions, as_raw, drop_partition,
}
use vestigium.Vmm.Vcpu
use vestigium.Vmm.Vcpu.{Vcpu, first, get_registers, set_registers, drop_vcpu}
use vestigium.Engine.Snapshot.{capture_region}
use vestigium.Engine.Replay.{active_vcpu, inject_event, inject, write_all}
use vestigium.Cli.Layout.{drop_regions}
use vestigium.Scenarios.Hypervisor.{Serves}
use vestigium.Scenarios.Execution.{Configures}
use vestigium.Scenarios.Engines.{
  test_phase2_record_engine, set_up, tear_down, test_phase3_replay_engine_injection,
  test_phase3_replay_engine_interleaving,
}

abbrev dummy : Bytes
dummy = 0x90 ∷ 0x90 ∷ 0xCC ∷ []

module _ {p : Platform} where
  -- The array and the captured copy are freed.
  record_engine-ok :
      (w : World p)
      → ((heap : Heap) → Allocates p heap 3)
      → test_phase2_record_engine w ≡ (ok tt, record w { heap = w.heap ++ none ∷ none ∷ [] })
  unfolding test_phase2_record_engine capture_region drop_regions
  record_engine-ok w room =
      let w1 = with_block dummy w in
      let w2 = with_block dummy w1 in
      let ptr = length w.heap in
      let copy : AlignedMemory = record { ptr = length w1.heap; size = 3 } in
      let live =
        block-append_left ptr w1.heap (some (zeroed 3) ∷ []) (block-append w.heap (some dummy)) in
      let after_copy : World p = record w { heap = w.heap ++ some dummy ∷ none ∷ [] } in
      let dropped : drop_memory copy w2 ≡ (ok tt, after_copy) =
        drop_memory-ok copy dummy w2 (block-append w1.heap (some dummy)) ∙ λ i. (
          ok tt,
          record w {
            heap =
                (set_block-middle none (some dummy) w1.heap []
                    ∙ append_assoc w.heap (some dummy ∷ []) (none ∷ []))
                  i;
          },
        ) in
      let last : dealloc ptr after_copy ≡ (ok tt, record w { heap = w.heap ++ none ∷ none ∷ [] }) =
        rw
          (
            block-middle dummy w.heap (none ∷ []),
            set_block-middle none (some dummy) w.heap (none ∷ []),
          )
          refl in
      rw
        (
          new-ok 3 w1 (room w1.heap),
          load-whole ptr 3 dummy (with_block (zeroed 3) w1) live refl,
          store-fresh dummy 3 w1 refl,
          dropped,
          last,
        )
        refl

module _ {p : Platform} where
  -- The world but for the machine.
  abbrev pub with_machine : p.Machine → World p → World p
  with_machine m w = record w { machine = m }

module _ {p : Platform} (file : p.Machine → ℕ → ℕ → Registers) (serves : Serves p file) where
  pub set_up-ok :
      (w : World p)
      → (partition : VmPartition) × (m : p.Machine) × (set_up w
          ≡ (ok (partition, record { partition = partition.handle; index = 0 }), with_machine m w))
        × ((exits : p.Machine → ℕ → ℕ)
            → Configures p exits
            → exits m partition.handle ≡ intercepted)
  unfolding set_up Partition.new configure_interceptions Vcpu.new
  set_up-ok w =
      let (h, created) = serves.creates w.machine in
      let m1 = (p.create_partition w.machine).1 in
      let m2 = (p.set_property h (processor_count 4) m1).1 in
      let m3 = (p.setup_partition h m2).1 in
      let m4 = (p.set_property h (extended_vm_exits intercepted) m3).1 in
      (
        record { handle = h },
        (p.create_processor h 0 m4).1,
        rw
            (
              created,
              serves.sets h (processor_count 4) m1,
              serves.sets_up h m2,
              serves.sets h (extended_vm_exits intercepted) m3,
              serves.creates_processor h 0 m4,
            )
            refl,
        λ exits c.
            c.created h 0 m4 h
            ∙ c.configured h intercepted m3 (serves.sets h (extended_vm_exits intercepted) m3),
      )

  pub tear_down-ok :
      (partition : VmPartition) (v : Vcpu) (w : World p)
      → (m : p.Machine) × (tear_down partition v w ≡ (ok tt, with_machine m w))
  unfolding tear_down drop_vcpu drop_partition
  tear_down-ok partition v w =
      let m = p.delete_processor v.partition v.index w.machine in
      elim (Bool-cases (partition.handle == 0)) [
        | inl zero_handle ↦ (m, rw zero_handle refl)
        | inr other ↦ (p.delete_partition partition.handle m, rw other refl)
      ]

  injection-ok :
      (w : World p)
      → (m : p.Machine) × (test_phase3_replay_engine_injection w ≡ (ok tt, with_machine m w))
  unfolding test_phase3_replay_engine_injection inject_event inject active_vcpu write_all
      set_registers get_registers
  injection-ok w =
      let (partition, m, made, _) = set_up-ok w in
      let h = partition.handle in
      let m' = (p.write_registers h 0 (rax ∷ []) (of_reg64 0xDEADBEEF ∷ []) m).1 in
      let (m'', down) =
        tear_down-ok partition (record { partition = h; index = 0 }) (with_machine m' w) in
      (
        m'',
        rw
            (
              made,
              serves.writes h 0 (rax ∷ []) (of_reg64 0xDEADBEEF ∷ []) m,
              serves.reads h 0 (rax ∷ []) m',
              serves.written h 0 (rax ∷ []) (of_reg64 0xDEADBEEF ∷ []) m rax,
            )
            down,
      )

  interleaving-ok :
      (w : World p)
      → (m : p.Machine) × (test_phase3_replay_engine_interleaving w ≡ (ok tt, with_machine m w))
  unfolding test_phase3_replay_engine_interleaving inject_event inject active_vcpu
  interleaving-ok w =
      let (partition, m, made, _) = set_up-ok w in
      let (m', down) =
        tear_down-ok partition (record { partition = partition.handle; index = 0 })
          (with_machine m w) in
      (m', rw made down)

  -- On a hypervisor where nothing fails and a register reads as it was written, and with room for
  -- three bytes, the tests of the logger and of the injection pass. They leave memory and output as
  -- they were, but for two blocks of the first, which are freed.
  pub engine_tests_pass :
      (w : World p)
      → ((heap : Heap) → Allocates p heap 3)
      → (test_phase2_record_engine w ≡ (ok tt, record w { heap = w.heap ++ none ∷ none ∷ [] }))
        × ((m : p.Machine) × (test_phase3_replay_engine_injection w ≡ (ok tt, with_machine m w)))
        × ((m : p.Machine) × (test_phase3_replay_engine_interleaving w ≡ (ok tt, with_machine m w)))
  engine_tests_pass w room = (record_engine-ok w room, injection-ok w, interleaving-ok w)
