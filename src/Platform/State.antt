-- ===== src/Platform/State.antt =====
-- The parameter, and the state that the program's calls change.
use vestigium.Common.{ℕ, ◌+◌, ◌%◌, ◌^◌, Bool, List, [], ◌∷◌, ◌++◌, ltb, if◌then◌else◌}
use vestigium.Common.Exec.{Outcome, ok, err, panic, Exec}
use vestigium.Platform.Types.{
  RegisterName, RegisterValue, SegmentRegister, Property, ExitContext, Answer, done, failed,
}
use vestigium.Platform.Blocks.{Heap}

-- A partition is its handle, a virtual processor is a partition and an index.
pub record Platform : Type 1 where
  -- what the hypervisor holds: partitions, mappings, registers
  pub Machine : Type 0
  -- WHvCreatePartition, WHvSetPartitionProperty, WHvSetupPartition, WHvDeletePartition
  pub create_partition : Machine → Answer ℕ × Machine
  pub set_property : ℕ → Property → Machine → Answer (Unit {0}) × Machine
  pub setup_partition : ℕ → Machine → Answer (Unit {0}) × Machine
  pub delete_partition : ℕ → Machine → Machine
  -- WHvCreateVirtualProcessor, WHvDeleteVirtualProcessor
  pub create_processor : ℕ → ℕ → Machine → Answer (Unit {0}) × Machine
  pub delete_processor : ℕ → ℕ → Machine → Machine
  -- WHvGetVirtualProcessorRegisters, WHvSetVirtualProcessorRegisters
  pub read_registers : ℕ → ℕ → List RegisterName → Machine → Answer (List RegisterValue)
  pub write_registers :
      ℕ → ℕ → List RegisterName → List RegisterValue → Machine → Answer (Unit {0}) × Machine
  -- WHvMapGpaRange: partition, host address, guest address, size, flags
  pub map_range : ℕ → ℕ → ℕ → ℕ → ℕ → Machine → Answer (Unit {0}) × Machine
  -- WHvRunVirtualProcessor: the guest reads and writes the host blocks that are mapped
  pub run_processor : ℕ → ℕ → Machine → Heap → Answer ExitContext × Machine × Heap
  -- the union's `Segment` member as 16 bytes
  pub segment : SegmentRegister → RegisterValue
  -- whether the allocator has room for a block of this size
  pub has_room : Heap → ℕ → Bool
  -- `overflow-checks` of the build profile
  pub overflow_checks : Bool

-- The lines that the program prints, with the values in them.
pub data Message : Type 0 where
  ept_violation halted_record unhandled_record : ℕ → Message
  halted_replay unhandled_replay : ℕ → Message
  switch_mismatch : ℕ → ℕ → Message
  unexpected_vmcall : Message
  recording : Message
  mapped_at : ℕ → ℕ → Message
  starting : Message
  record_hash captured : ℕ → Message
  destination saved : Message
  replaying : Message
  loaded : ℕ → ℕ → Message
  restored : Message
  replaying_events : ℕ → Message
  replay_finished : Message
  exit_violation : Message
  exit_gpa exit_gva : ℕ → Message
  halted_unreadable : Message
  stopped : ℕ → Message
  run_failed : ℕ → Message
  expected_hash replay_hash : ℕ → Message
  verified : Message

pub record World (p : Platform) : Type 0 where
  pub machine : p.Machine
  pub heap : Heap
  pub printed : List Message

-- `?` on an answer.
abbrev pub answer : {A : Type 0} → Answer A → Outcome A
answer (done a) = ok a
answer (failed e) = err e

module _ {p : Platform} where
  -- `println!`.
  abbrev pub say : List Message → World p → World p
  say ms w = record w { printed = w.printed ++ ms }

  abbrev pub println : Message → Exec (World p) (Unit {0})
  println m w = (ok tt, say (m ∷ []) w)

  -- A call of the API that changes only the machine.
  abbrev pub api : {A : Type 0} → (p.Machine → Answer A × p.Machine) → Exec (World p) A
  api f w = let (r, m) = f w.machine in (answer r, record w { machine = m })

  -- A call of the API that only reads.
  abbrev pub query : {A : Type 0} → (p.Machine → Answer A) → Exec (World p) A
  query f w = (answer (f w.machine), w)

  -- A call of the API whose result the program drops.
  abbrev pub ignored : (p.Machine → p.Machine) → Exec (World p) (Unit {0})
  ignored f w = (ok tt, record w { machine = f w.machine })

abbrev pub u64_mod : ℕ
u64_mod = 2 ^ 64

-- `a + b` on `u64` or `usize`: it panics or wraps on overflow, as the profile says.
abbrev pub add_u64 : {p : Platform} → ℕ → ℕ → Exec (World p) ℕ
add_u64 {p} a b w =
    if ltb (a + b) u64_mod
    then (ok (a + b), w)
    else if p.overflow_checks
    then (panic, w)
    else (ok ((a + b) % u64_mod), w)
