-- ===== src/Tests/Restored.antt =====
-- A restored snapshot, on a hypervisor that lists its mappings.
use vestigium.Common.{
  ℕ, ◌+◌, ◌-◌, ◌≤◌, ◌<◌, ◌≡◌, ◌⊎◌, refl, true, false, ltb, Option, none, some, [], ◌∷◌, map,
  if◌then◌else◌, arith,
}
use vestigium.Common.Exec.{ok}
use vestigium.Common.HashMap.{HashMap}
use vestigium.Platform.{Platform, World, Bytes, done, zero_value, rip}
use vestigium.Vmm.Ept.{map_gpa_range}
use vestigium.Vmm.Vcpu.{set_registers}
use vestigium.Engine.Snapshot.{Snapshot}
use vestigium.Engine.Replay
use vestigium.Engine.Replay.{
  ReplayEngine, active_vcpu, map_regions, restore_registers, restore_snapshot,
}
use vestigium.Engine.Replay.Translation.{Translates, AreDisjoint, host_byte}
use vestigium.Engine.Replay.Restored.{restore_snapshot-Reads}
use vestigium.Platform.{load, store, zeroed}
use vestigium.Engine.Memory
use vestigium.Engine.Snapshot.Holds.{Holds}
use vestigium.Engine.Snapshot.Serde.{
  SavedSnapshot, serialize_registers, serialize, serialize_regions, serialize_memory, deserialize,
  deserialize_regions, deserialize_memory,
}
use vestigium.Cli.Archive.{archive-Reads}
use vestigium.Tests.Pipeline.{partition, vcpu}
use vestigium.Tests.Toy.{exit_at}

abbrev pub Mappings : Type 0
Mappings = ℕ → Option (ℕ × ℕ)

abbrev pub with_range : ℕ → ℕ → ℕ → Mappings → Mappings
with_range host gpa size m a =
    if ltb a gpa then m a else if ltb a (gpa + size) then some (host, a - gpa) else m a

abbrev pub mapper : Platform
mapper = record {
  Machine = Mappings;
  create_partition = λ m. (done 1, m);
  set_property = λ h q m. (done tt, m);
  setup_partition = λ h m. (done tt, m);
  delete_partition = λ h m. m;
  create_processor = λ h i m. (done tt, m);
  delete_processor = λ h i m. m;
  read_registers = λ h i names m. done (map (λ n. zero_value) names);
  write_registers = λ h i names values m. (done tt, m);
  map_range = λ h host gpa size flags m. (done tt, with_range host gpa size m);
  run_processor = λ h i m heap. (done (exit_at 7), m, heap);
  segment = λ s. zero_value;
  has_room = λ heap size. true;
  overflow_checks = false;
}

pub with_range-mapped :
    (host gpa size : ℕ) (m : Mappings) (a : ℕ)
    → gpa ≤ a
    → a < gpa + size
    → with_range host gpa size m a ≡ some (host, a - gpa)
with_range-mapped host gpa size m a low high =
    let above : ltb a gpa ≡ false = ground arith in
    let within : ltb a (gpa + size) ≡ true = ground arith in rw (above, within) refl

pub with_range-beside :
    (host gpa size : ℕ) (m : Mappings) (a : ℕ)
    → (a < gpa) ⊎ (gpa + size ≤ a)
    → with_range host gpa size m a ≡ m a
with_range-beside host gpa size m a out = ground arith

pub mapper-Translates : Translates mapper partition.handle (λ m a. m a)
mapper-Translates = record {
  mapped = λ host gpa size flags m a e low high. with_range-mapped host gpa size m a low high;
  beside = λ host gpa size flags m a out. with_range-beside host gpa size m a out;
  written = λ h' i names values m a. refl;
}

abbrev two_regions : Snapshot
two_regions = record {
  memory_regions =
      (0x1000, record { ptr = 1; size = 2 }) ∷ (0x2000, record { ptr = 0; size = 3 }) ∷ [];
  registers = zero_value ∷ [];
}

abbrev contents : HashMap Bytes
contents = (0x1000, 5 ∷ 6 ∷ []) ∷ (0x2000, 7 ∷ 8 ∷ 9 ∷ []) ∷ []

abbrev unmapped : World mapper
unmapped = record {
  machine = λ a. none;
  heap = some (7 ∷ 8 ∷ 9 ∷ []) ∷ some (5 ∷ 6 ∷ []) ∷ [];
  printed = [];
}

abbrev engine : ReplayEngine
engine = Replay.register_vcpu (Replay.new partition 0) 0 vcpu

abbrev restored : World mapper
restored = (restore_snapshot engine two_regions (rip ∷ []) unmapped).1

restores : restore_snapshot engine two_regions (rip ∷ []) unmapped ≡ (ok tt, restored)
unfolding restore_snapshot map_regions restore_registers map_gpa_range active_vcpu set_registers
restores = refl

two_regions-Holds : Holds unmapped.heap two_regions.memory_regions contents
two_regions-Holds = (refl, refl, refl, (λ e. omega (arith, e), tt), (refl, refl, refl, tt, tt))

two_regions-AreDisjoint : AreDisjoint two_regions.memory_regions
two_regions-AreDisjoint = ((λ a low high. (omega (arith, low, high), tt)), ((λ a low high. tt), tt))

restore_snapshot-Reads_example : host_byte restored.heap (restored.machine 0x2001) ≡ some 8
restore_snapshot-Reads_example =
    restore_snapshot-Reads partition.handle (λ m a. m a) mapper-Translates engine two_regions
      (rip ∷ []) contents 0x2001 8 unmapped restored refl two_regions-Holds two_regions-AreDisjoint
      restores refl

-- the same snapshot, saved and read back in an empty process
abbrev read_back : Snapshot
read_back = record two_regions {
  memory_regions =
      (0x1000, record { ptr = 0; size = 2 }) ∷ (0x2000, record { ptr = 1; size = 3 }) ∷ [];
}

abbrev saved : SavedSnapshot
saved = record { memory_regions = contents; registers = serialize_registers (zero_value ∷ []) }

abbrev empty : World mapper
empty = record { machine = λ a. none; heap = []; printed = [] }

abbrev filled : World mapper
filled = record empty { heap = some (5 ∷ 6 ∷ []) ∷ some (7 ∷ 8 ∷ 9 ∷ []) ∷ [] }

abbrev restored_there : World mapper
restored_there = (restore_snapshot engine read_back (rip ∷ []) filled).1

written : serialize two_regions unmapped ≡ (ok saved, unmapped)
unfolding serialize serialize_regions serialize_memory load
written = refl

read : deserialize saved empty ≡ (ok read_back, filled)
unfolding deserialize deserialize_regions deserialize_memory Memory.new store zeroed
read = refl

restores_there : restore_snapshot engine read_back (rip ∷ []) filled ≡ (ok tt, restored_there)
unfolding restore_snapshot map_regions restore_registers map_gpa_range active_vcpu set_registers
restores_there = refl

archive-Reads_example : host_byte restored_there.heap (restored_there.machine 0x2001) ≡ some 8
archive-Reads_example =
    archive-Reads partition.handle (λ m a. m a) engine (rip ∷ []) two_regions read_back saved
      contents 0x2001 8 unmapped unmapped empty filled filled restored_there mapper-Translates refl
      two_regions-Holds (refl, (refl, tt)) (record { low = omega arith; high = omega arith }, tt)
      (
        (λ heap. record { positive = omega arith; small = omega arith; room = refl }),
        ((λ heap. record { positive = omega arith; small = omega arith; room = refl }), tt),
      )
      two_regions-AreDisjoint written read refl restores_there refl
