-- ===== src/Vmm/Partition.antt =====
-- crates/vmm/src/partition.rs: the life of a partition.
pub mod Life
use Prim.Native.Nat.{bit_or}
use vestigium.Common.{ℕ, ◌^◌, ◌==◌, if◌then◌else◌}
use vestigium.Common.Exec.{Exec, pure, ◌>>=◌, ◌>>◌}
use vestigium.Platform.{Platform, World, processor_count, extended_vm_exits, api, ignored}

pub record VmPartition : Type 0 where
  pub handle : ℕ

-- The exits for CPUID (bit 0), exceptions (bit 2) and RDTSC (bit 3).
abbrev pub intercepted : ℕ
intercepted = bit_or (bit_or (2 ^ 0) (2 ^ 2)) (2 ^ 3)

abbrev pub as_raw : VmPartition → ℕ
as_raw partition = partition.handle

module _ {p : Platform} where
  -- `VmPartition::new`.
  unfoldable pub new : Exec (World p) VmPartition
  new = do
    handle ← api p.create_partition
    api (p.set_property handle (processor_count 4))
    api (p.setup_partition handle)
    pure (record { handle = handle })

  unfoldable pub configure_interceptions : VmPartition → Exec (World p) (Unit {0})
  configure_interceptions partition =
      api (p.set_property partition.handle (extended_vm_exits intercepted))

  -- `Drop for VmPartition`.
  unfoldable pub drop_partition : VmPartition → Exec (World p) (Unit {0})
  drop_partition partition =
      if partition.handle == 0 then pure tt else ignored (p.delete_partition partition.handle)
