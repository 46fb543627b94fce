-- ===== src/Vmm.antt =====
-- crates/vmm: the partition, its virtual processors, and the guest's memory maps.
pub mod Vcpu
pub mod Partition
pub mod Ept
pub mod Paging
