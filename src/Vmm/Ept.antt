-- ===== src/Vmm/Ept.antt =====
-- crates/vmm/src/ept.rs: host memory mapped into the guest's physical addresses.
use vestigium.Common.{ℕ}
use vestigium.Common.Exec.{Exec}
use vestigium.Platform.{Platform, World, api}

pub record EptManager : Type 0 where
  pub partition : ℕ

-- `EptManager::new`.
abbrev pub new : ℕ → EptManager
new partition = record { partition = partition }

module _ {p : Platform} where
  unfoldable pub map_gpa_range : EptManager → ℕ → ℕ → ℕ → ℕ → Exec (World p) (Unit {0})
  map_gpa_range ept guest_address host_address size flags =
      api (p.map_range ept.partition host_address guest_address size flags)
