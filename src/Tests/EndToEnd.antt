-- ===== src/Tests/EndToEnd.antt =====
-- The verification of a replay of the small guest, with the memory of both commands on the heap.
use vestigium.Common.{ℕ, ◌≡◌, refl, sym, ap, ◌∙◌, some, List, [], ◌∷◌, length, take, map, arith}
use mathlib.Core.Path.{subst}
use vestigium.Common.Exec.{ok}
use vestigium.Common.Bytes.{length-take}
use vestigium.Platform.{World, Bytes, Heap, block, zeroed, RegisterValue}
use vestigium.Platform.Access.{length-zeroed}
use vestigium.Vmm.Ept.{map_gpa_range}
use vestigium.Vmm.Vcpu.{get_registers, set_registers}
use vestigium.Engine.Runner
use vestigium.Engine.Record
use vestigium.Engine.Record.{RecordState, finalize}
use vestigium.Engine.Replay.{restore_snapshot, map_regions, restore_registers}
use vestigium.Engine.Simulation.{IsSimulation}
use vestigium.Engine.Snapshot.{Snapshot}
use vestigium.Engine.Snapshot.Holds.{Holds}
use vestigium.Cli.Layout.{Layout, capture_names, stack_size}
use vestigium.Cli.Layout.Capture.{HasBytes, HasRoom, contents_of}
use vestigium.Cli.Record.{final_state}
use vestigium.Cli.Replay.{replay_guest}
use vestigium.Cli.Verification.{IsObserved, record_verified, replayer}
use vestigium.Platform.Registers.{number}
use vestigium.Tests.Toy.{toy, start, exit_at, write}
use vestigium.Tests.Pipeline.{partition, vcpu}
use vestigium.Tests.Hashing.{hasher}

abbrev pub null : Bytes
null = zeroed 0x1000

abbrev pub image : Bytes
image = 0x0F ∷ 0x31 ∷ 0xF4 ∷ []

abbrev pub stack : Bytes
stack = zeroed stack_size

abbrev pub table : Bytes
table = zeroed 12288

abbrev pub layout : Layout
layout = record {
  host_ptr = 1;
  size = 3;
  stack_memory = record { ptr = 2; size = stack_size };
  stack_base_gpa = 0x101000;
  null_page = record { ptr = 0; size = 0x1000 };
  page_table = record { pml4_gpa = 0x200000; host_ptr = 3; size = 12288 };
}

-- the memory of the recorded guest, and the buffers of the snapshot
abbrev pub guest : Heap
guest = some null ∷ some image ∷ some stack ∷ some table ∷ []

abbrev pub buffers : Heap
buffers =
    some (take 0x1000 null)
    ∷ some image
    ∷ some (take stack_size stack)
    ∷ some (take 12288 table)
    ∷ []

abbrev pub snapshot : Snapshot
snapshot = record {
  memory_regions =
      (0, record { ptr = 0; size = 0x1000 })
      ∷ (0x100000, record { ptr = 1; size = 3 })
      ∷ (0x101000, record { ptr = 2; size = stack_size })
      ∷ (0x200000, record { ptr = 3; size = 12288 })
      ∷ [];
  registers = [];
}

abbrev pub Related : World toy → World toy → Type 0
Related u u' = (u.machine ≡ u'.machine) × (u.heap ≡ guest) × (u'.heap ≡ buffers)

pub Related-IsSimulation : IsSimulation {p = toy} Related partition partition vcpu vcpu
unfolding Runner.run
Related-IsSimulation = record {
  prints = λ ms w w' r. r;
  reads = λ names w w' r. ap (toy.read_registers 1 0 names) r.0;
  writes = λ names values. record {
    outcome = λ w w' r. refl;
    related = λ w w' r. (ap (write names values) r.0, r.1, r.2);
  };
  runs = record {
    outcome = λ w w' r. ap (λ m. ok (exit_at (m 4).reg64)) r.0;
    related = λ w w' r. r;
  };
}

same : {a b : Bytes} → some a ≡ some b → a ≡ b
same e = cc e

length-part : (n : ℕ) → length (take n (zeroed n)) ≡ n
length-part n = length-take n (zeroed n) (omega (arith, length-zeroed n))

pub buffers-Holds :
    Holds buffers snapshot.memory_regions (contents_of layout null image stack table)
buffers-Holds = (
  refl,
  refl,
  length-part 0x1000,
  (λ e. omega arith, (λ e. omega arith, (λ e. omega arith, tt))),
  (
    refl,
    refl,
    refl,
    (λ e. omega arith, (λ e. omega arith, tt)),
    (
      refl,
      refl,
      length-part stack_size,
      (λ e. omega arith, tt),
      (refl, refl, length-part 12288, tt, tt),
    ),
  ),
)

pub Related-IsObserved : IsObserved {p = toy} Related layout snapshot.memory_regions
Related-IsObserved = record {
  prints_right = λ ms w w' r. r;
  same_memory = λ u u' n i s t r b.
      let at0 : null ≡ n = same (ap (block 0) (sym r.1) ∙ b.null_live) in
      let at1 : image ≡ i = same (ap (block 1) (sym r.1) ∙ b.image_live) in
      let at2 : stack ≡ s = same (ap (block 2) (sym r.1) ∙ b.stack_live) in
      let at3 : table ≡ t = same (ap (block 3) (sym r.1) ∙ b.table_live) in
      subst
        (λ (x : Heap × Bytes × Bytes × Bytes × Bytes).
          Holds x.0 snapshot.memory_regions (contents_of layout x.1 x.2 x.3 x.4))
        (λ j. (sym r.2 j, at0 j, at1 j, at2 j, at3 j)) buffers-Holds;
}

abbrev pub begun : World toy
begun = record start { heap = guest }

abbrev pub restored : World toy
restored = record start { heap = buffers }

abbrev pub recording : RecordState toy
recording = record { engine = Record.new partition vcpu; world = begun }

abbrev pub recorded : RecordState toy
recorded = (Record.run 9 recording).1

pub ran : Record.run 9 recording ≡ (ok tt, recorded)
unfolding Record.run Record.record_loop Record.record_round Runner.run Record.record_exit
    Record.record_rdtsc set_registers Record.advance_rip get_registers Record.record_cpuid
    Record.record_vmcall Record.record_halt
ran = refl

pub roomy : HasRoom toy layout
roomy = record {
  null_room = λ heap. record { positive = omega arith; small = omega arith; room = refl };
  image_room = λ heap. record { positive = omega arith; small = omega arith; room = refl };
  stack_room = λ heap. record { positive = omega arith; small = omega arith; room = refl };
  table_room = λ heap. record { positive = omega arith; small = omega arith; room = refl };
}

pub ends_with : HasBytes layout recorded.world.heap null image stack table
unfolding Record.run Record.record_loop Record.record_round Runner.run Record.record_exit
    Record.record_rdtsc set_registers Record.advance_rip get_registers Record.record_cpuid
    Record.record_vmcall Record.record_halt
ends_with = record {
  null_live = refl;
  null_size = omega (arith, length-zeroed 0x1000);
  image_live = refl;
  image_size = omega arith;
  stack_live = refl;
  stack_sized = omega (arith, length-zeroed stack_size);
  table_live = refl;
  table_size = omega (arith, length-zeroed 12288);
}

pub restores :
    restore_snapshot (replayer partition vcpu) snapshot capture_names restored ≡ (ok tt, restored)
unfolding restore_snapshot map_regions restore_registers map_gpa_range
restores = refl

abbrev pub answers : List RegisterValue
answers = map (λ n. recorded.world.machine (number n)) capture_names

record_verified_example :
    (hash : ℕ) × (last : Snapshot) × (w' : World toy) × (final_state hasher vcpu layout
        recorded.world
      ≡ (ok (last, hash), w'))
    × (final : Snapshot) × (x' : World toy) × (replay_guest 1 hasher partition vcpu snapshot
          (record {
            snapshot = record { memory_regions = []; registers = [] };
            events = finalize recorded.engine;
            hash = hash;
          })
          restored
        ≡ (ok final, x'))
record_verified_example =
    record_verified Related partition partition vcpu vcpu layout snapshot 0 9 hasher
      (record { memory_regions = []; registers = [] }) begun restored restored recorded null image
      stack table answers Related-IsSimulation Related-IsObserved ran roomy ends_with refl restores
      (refl, refl, refl)
