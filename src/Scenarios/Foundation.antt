-- ===== src/Scenarios/Foundation.antt =====
-- The test of crates/vmm/src/lib.rs: a page of the host, mapped into a partition.
use vestigium.Common.{ℕ, ◌≡◌, refl, Option, none, some, [], ◌∷◌, ◌++◌, length, true, if◌then◌else◌}
use vestigium.Common.Exec.{ok, panic, Exec, pure, raise, expect, ◌>>=◌, ◌>>◌}
use vestigium.Platform.{Platform, World, Bytes, zero_value, rip, page_layout, dealloc}
use vestigium.Platform.Whole.{set_block-middle, block-middle}
use vestigium.Platform.Registers.{Registers}
use vestigium.Vmm.Partition.{as_raw}
use vestigium.Vmm.Ept
use vestigium.Vmm.Ept.{map_gpa_range}
use vestigium.Vmm.Vcpu.{get_registers}
use vestigium.Scenarios.Engines.{set_up, tear_down}
use vestigium.Scenarios.Engines.Passed.{set_up-ok, tear_down-ok}
use vestigium.Scenarios.Hypervisor.{Serves}

module _ {p : Platform} where
  -- `alloc` of a page: what is in it is not known, and an argument; a null pointer is `none`.
  abbrev pub alloc_page : Bytes → Exec (World p) (Option ℕ)
  alloc_page bytes w =
      if p.has_room w.heap 4096
      then (ok (some (length w.heap)), record w { heap = w.heap ++ some bytes ∷ [] })
      else (ok none, w)

  -- The API refuses a null pointer, and the test panics at its `expect`.
  abbrev pub mappable : Option ℕ → Exec (World p) ℕ
  mappable none = raise panic
  mappable (some ptr) = pure ptr

  unfoldable pub test_phase1_interception_foundation : Bytes → Exec (World p) (Unit {0})
  test_phase1_interception_foundation page = do
    made ← set_up
    let ept = Ept.new (as_raw made.0)
    page_layout 4096
    allocated ← alloc_page page
    host_ptr ← mappable allocated
    expect (map_gpa_range ept 0x1000 host_ptr 4096 0x3)
    values ← expect (get_registers made.1 (rip ∷ []) (zero_value ∷ []))
    dealloc host_ptr
    tear_down made.0 made.1

module _ {p : Platform} (file : p.Machine → ℕ → ℕ → Registers) (serves : Serves p file) where
  -- Whatever the page holds, the test passes and frees it.
  pub foundation-ok :
      (page : Bytes) (w : World p)
      → p.has_room w.heap 4096 ≡ true
      → (m : p.Machine) × (test_phase1_interception_foundation page w
          ≡ (ok tt, record w { machine = m; heap = w.heap ++ none ∷ [] }))
  unfolding test_phase1_interception_foundation map_gpa_range get_registers dealloc
  foundation-ok page w room =
      let (partition, m, made, _) = set_up-ok file serves w in
      let h = partition.handle in
      let ptr = length w.heap in
      let m1 = (p.map_range h ptr 0x1000 4096 0x3 m).1 in
      let w1 : World p = record w { machine = m1; heap = w.heap ++ some page ∷ [] } in
      let w2 : World p = record w { machine = m1; heap = w.heap ++ none ∷ [] } in
      let freed : dealloc ptr w1 ≡ (ok tt, w2) =
        rw (block-middle page w.heap [], set_block-middle none (some page) w.heap []) refl in
      let (m2, down) =
        tear_down-ok file serves partition (record { partition = h; index = 0 }) w2 in
      (
        m2,
        rw (made, room, serves.maps h ptr 0x1000 4096 0x3 m, serves.reads h 0 (rip ∷ []) m1, freed)
            down,
      )
