-- ===== src/Engine/Snapshot/Serde.antt =====
-- crates/engine/src/record.rs, the serialisation of a snapshot: what its `Serialize` and
-- `Deserialize` give to and take from the format, which is bincode's.
pub mod RoundTrip
pub mod Snapshots
use vestigium.Common.{ℕ, Option, none, some, List, [], ◌∷◌, ◌++◌, length, map}
use vestigium.Common.Exec.{Exec, pure, ◌>>=◌, ◌>>◌}
use vestigium.Common.Bytes.{le_read}
use vestigium.Common.HashMap.{HashMap, get, insert}
use vestigium.Common.Words.{u64_bytes}
use vestigium.Platform.{Platform, World, Bytes, RegisterValue, load, store}
use vestigium.Engine.Memory
use vestigium.Engine.Memory.{AlignedMemory, len, drop_memory}
use vestigium.Engine.Snapshot.{Snapshot, drop_replaced}

-- What the format holds of a snapshot.
pub record SavedSnapshot : Type 0 where
  pub memory_regions : List (ℕ × Bytes)
  pub registers : List Bytes

-- `transmute_copy` of a register value to 16 bytes, and back.
abbrev pub register_bytes : RegisterValue → Bytes
register_bytes r = u64_bytes r.reg64 ++ u64_bytes r.high

abbrev pub register_of : Bytes → RegisterValue
register_of b = record { reg64 = le_read 8 b 0; high = le_read 8 b 8 }

-- `register_serde`.
abbrev pub serialize_registers : List RegisterValue → List Bytes
serialize_registers regs = map register_bytes regs

abbrev pub deserialize_registers : List Bytes → List RegisterValue
deserialize_registers byte_regs = map register_of byte_regs

module _ {p : Platform} where
  -- `Serialize for AlignedMemory`.
  unfoldable pub serialize_memory : AlignedMemory → Exec (World p) Bytes
  serialize_memory mem = load mem.ptr 0 (len mem)

  -- `Deserialize for AlignedMemory`, on the bytes that the format held.
  unfoldable pub deserialize_memory : Bytes → Exec (World p) AlignedMemory
  deserialize_memory bytes = do mem ← Memory.new (length bytes); store mem.ptr 0 bytes; pure mem

  unfoldable pub serialize_regions : HashMap AlignedMemory → Exec (World p) (List (ℕ × Bytes))
  serialize_regions [] = pure []
  serialize_regions ((gpa, mem) ∷ regions) = do
    bytes ← serialize_memory mem
    saved ← serialize_regions regions
    pure ((gpa, bytes) ∷ saved)

  -- The entries are read one after the other and inserted into the map.
  unfoldable pub deserialize_regions :
      HashMap AlignedMemory → List (ℕ × Bytes) → Exec (World p) (HashMap AlignedMemory)
  deserialize_regions regions [] = pure regions
  deserialize_regions regions ((gpa, bytes) ∷ saved) = do
    mem ← deserialize_memory bytes
    drop_replaced (get gpa regions)
    deserialize_regions (insert gpa mem regions) saved

  unfoldable pub serialize : Snapshot → Exec (World p) SavedSnapshot
  serialize snapshot = do
    regions ← serialize_regions snapshot.memory_regions
    pure (record { memory_regions = regions; registers = serialize_registers snapshot.registers })

  unfoldable pub deserialize : SavedSnapshot → Exec (World p) Snapshot
  deserialize saved = do
    regions ← deserialize_regions [] saved.memory_regions
    pure (record { memory_regions = regions; registers = deserialize_registers saved.registers })
