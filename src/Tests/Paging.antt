-- ===== src/Tests/Paging.antt =====
-- `create_identity_mapping` at the address that the command uses.
use vestigium.Common.{◌≡◌, refl, arith}
use vestigium.Common.Exec.{ok}
use vestigium.Platform.{World}
use vestigium.Vmm.Paging.{PageTable, create_identity_mapping}
use vestigium.Vmm.Paging.Build.{IsIdentityMap, identity_mapping}
use vestigium.Tests.Toy.{toy, start}

identity_mapping_example :
    (table : PageTable) × (w' : World toy) × (create_identity_mapping 0x200000 start
      ≡ (ok table, w'))
    × IsIdentityMap 0x200000 table w'
identity_mapping_example = identity_mapping 0x200000 start (omega arith) (omega arith) refl
