-- ===== src/Engine/Snapshot.antt =====
-- crates/engine/src/record.rs, `Snapshot`: guest memory and registers at a point in time.
pub mod Hash
pub mod Order
pub mod Serde
pub mod Holds
pub mod Capture
pub mod Reference
use vestigium.Common.{ℕ, Option, none, some, List, [], length, replicate}
use vestigium.Common.Exec.{Exec, pure, ◌>>=◌, ◌>>◌}
use vestigium.Common.HashMap.{HashMap, get, insert}
use vestigium.Platform.{Platform, World, RegisterName, RegisterValue, zero_value, load, store}
use vestigium.Vmm.Vcpu.{Vcpu, get_registers}
use vestigium.Engine.Memory
use vestigium.Engine.Memory.{AlignedMemory, drop_memory}

pub record Snapshot : Type 0 where
  pub memory_regions : HashMap AlignedMemory
  pub registers : List RegisterValue

-- `Snapshot::new`, and `Default`.
abbrev pub new : Snapshot
new = record { memory_regions = []; registers = [] }

module _ {p : Platform} where
  -- The value that `insert` returns is dropped.
  abbrev pub drop_replaced : Option AlignedMemory → Exec (World p) (Unit {0})
  drop_replaced none = pure tt
  drop_replaced (some old) = drop_memory old

  unfoldable pub capture_region : Snapshot → ℕ → ℕ → ℕ → Exec (World p) Snapshot
  unfolding Memory.new load store drop_memory
  capture_region snapshot gpa host_ptr size = do
    buffer ← Memory.new size
    bytes ← load host_ptr 0 size
    store buffer.ptr 0 bytes
    drop_replaced (get gpa snapshot.memory_regions)
    pure (record snapshot { memory_regions = insert gpa buffer snapshot.memory_regions })

  unfoldable pub capture_registers : Snapshot → Vcpu → List RegisterName → Exec (World p) Snapshot
  unfolding get_registers
  capture_registers snapshot vcpu names = do
    values ← get_registers vcpu names (replicate (length names) zero_value)
    pure (record snapshot { registers = values })
