-- ===== src/Tests/Formats.antt =====
-- A buffer and registers through the format.
use vestigium.Common.{◌≡◌, refl, arith, some, List, [], ◌∷◌}
use vestigium.Common.Exec.{ok, ◌>>=◌}
use vestigium.Platform.{World, RegisterValue, of_reg64}
use vestigium.Engine.Memory.{AlignedMemory}
use vestigium.Engine.Snapshot.Serde.{
  serialize_memory, deserialize_memory, serialize_registers, deserialize_registers,
}
use vestigium.Engine.Snapshot.Serde.RoundTrip.{
  deserialize_registers-serialize_registers, memory-round_trip,
}
use vestigium.Tests.Toy.{toy, start}

abbrev registers : List RegisterValue
registers = of_reg64 0xDEADBEEFCAFEBABE ∷ record { reg64 = 7; high = 9 } ∷ []

deserialize_registers-serialize_registers_example :
    deserialize_registers (serialize_registers registers) ≡ registers
deserialize_registers-serialize_registers_example =
    deserialize_registers-serialize_registers registers (
      record { low = omega arith; high = omega arith },
      (record { low = omega arith; high = omega arith }, tt),
    )

abbrev buffer : AlignedMemory
buffer = record { ptr = 0; size = 3 }

abbrev holding : World toy
holding = record start { heap = some (1 ∷ 2 ∷ 3 ∷ []) ∷ [] }

memory-round_trip_example :
    (mem' : AlignedMemory) × (w' : World toy) × ((serialize_memory buffer >>= deserialize_memory)
        holding
      ≡ (ok mem', w'))
    × (mem'.size ≡ 3)
    × (serialize_memory mem' w' ≡ (ok (1 ∷ 2 ∷ 3 ∷ []), w'))
memory-round_trip_example =
    memory-round_trip buffer (1 ∷ 2 ∷ 3 ∷ []) holding refl refl (omega arith) (omega arith) refl
