-- ===== src/Cli/Layout/Total.antt =====
-- `map_guest` on a host that has room, with a hypervisor that maps what it is asked to.
use vestigium.Common.{
  ℕ, ◌+◌, ◌*◌, ◌/◌, Option, ◌^◌, ◌≤◌, ◌<◌, ◌≡◌, refl, ap, ◌∙◌, some, length, arith,
}
use vestigium.Common.Exec.{ok, Exec, pure, expect, expected, ◌>>=◌}
use vestigium.Common.Steps.{bind-step}
use vestigium.Platform.{Platform, World, Bytes, done, block, zeroed, answer}
use vestigium.Vmm.Ept.{EptManager, map_gpa_range}
use vestigium.Vmm.Paging.{create_identity_mapping}
use vestigium.Vmm.Paging.Build.{IsIdentityMap, identity_mapping}
use vestigium.Engine.Memory
use vestigium.Engine.Memory.{AlignedMemory}
use vestigium.Engine.Memory.Alloc.{new-ok}
use vestigium.Cli.Layout.{
  Layout, base_gpa, stack_size, pt_gpa, stack_base, map_stack, map_null_page, map_page_table,
  map_guest,
}
use vestigium.Cli.Layout.Bounds.{stack_base_lem}
use vestigium.Cli.Layout.Capture.{HasBytes}
use vestigium.Cli.Layout.Parts.{HasSpace}
use vestigium.Engine.Replay.Translation.{Translates}
use vestigium.Cli.Layout.Placed.{guest_view, map_guest-over}
use vestigium.Cli.Layout.Mapped.{laid, map_guest-HasBytes}

-- The hypervisor maps every range it is asked to map.
abbrev pub Maps : Platform → Type 0
Maps p =
    (h host gpa size flags : ℕ) (m : p.Machine) → (p.map_range h host gpa size flags m).0 ≡ done tt

module _ {p : Platform} where
  abbrev Succeeds : {A : Type 0} → Exec (World p) A → World p → Type 0
  Succeeds {A = A} m w = (a : A) × (u : World p) × (m w ≡ (ok a, u))

  then-Succeeds :
      {A B : Type 0} (m : Exec (World p) A) (f : A → Exec (World p) B) (w : World p)
      → Succeeds m w
      → ((a : A) (u : World p) → Succeeds (f a) u)
      → Succeeds (m >>= f) w
  then-Succeeds m f w (a, u, e) k = let (b, v, e') = k a u in (b, v, bind-step m f w e ∙ e')

  map-Succeeds :
      (ept : EptManager) (gpa host size : ℕ) (w : World p)
      → Maps p
      → Succeeds (expect (map_gpa_range ept gpa host size 0x7)) w
  unfolding map_gpa_range
  map-Succeeds ept gpa host size w maps = (
    tt,
    record w { machine = (p.map_range ept.partition host gpa size 0x7 w.machine).1 },
    ap
        (λ x. (
          expected (answer x),
          record w { machine = (p.map_range ept.partition host gpa size 0x7 w.machine).1 },
        ))
        (maps ept.partition host gpa size 0x7 w.machine),
  )

  mapping-Succeeds :
      {A : Type 0} (ept : EptManager) (gpa host size : ℕ) (a : A) (w : World p)
      → Maps p
      → Succeeds (expect (map_gpa_range ept gpa host size 0x7) >>= λ _. pure a) w
  mapping-Succeeds ept gpa host size a w maps =
      then-Succeeds (expect (map_gpa_range ept gpa host size 0x7)) (λ _. pure a) w
        (map-Succeeds ept gpa host size w maps) (λ _ u. (a, u, refl))

  stack-Succeeds :
      (ept : EptManager) (size : ℕ) (w : World p)
      → Maps p
      → HasSpace p
      → size < 2 ^ 63
      → Succeeds (map_stack ept size) w
  unfolding map_stack
  stack-Succeeds ept size w maps space small =
      then-Succeeds (Memory.new stack_size) _ w
        (_, _, new-ok stack_size w (space.stack_room w.heap))
        (λ m u.
          then-Succeeds (stack_base size)
            (λ gpa. expect (map_gpa_range ept gpa m.ptr stack_size 0x7) >>= λ _. pure (m, gpa)) u
            (_, _, stack_base_lem size u small)
            (λ gpa v. mapping-Succeeds ept gpa m.ptr stack_size (m, gpa) v maps))

  null_page-Succeeds :
      (ept : EptManager) (w : World p) → Maps p → HasSpace p → Succeeds (map_null_page ept) w
  unfolding map_null_page
  null_page-Succeeds ept w maps space =
      then-Succeeds (Memory.new 0x1000)
        (λ m. expect (map_gpa_range ept 0x0 m.ptr 0x1000 0x7) >>= λ _. pure m) w
        (_, _, new-ok 0x1000 w (space.null_room w.heap))
        (λ m u. mapping-Succeeds ept 0x0 m.ptr 0x1000 m u maps)

  table-Succeeds :
      (ept : EptManager) (w : World p) → Maps p → HasSpace p → Succeeds (map_page_table ept) w
  unfolding map_page_table
  table-Succeeds ept w maps space =
      let (table, u, built, is_map) =
        identity_mapping pt_gpa w (omega arith) (omega arith) ((space.tables_room w.heap).room) in
      then-Succeeds (create_identity_mapping pt_gpa)
        (λ t. expect (map_gpa_range ept pt_gpa t.host_ptr t.size 0x7) >>= λ _. pure t) w
        (table, u, built) (λ t v. mapping-Succeeds ept pt_gpa t.host_ptr t.size t v maps)

  map_guest-Succeeds :
      (ept : EptManager) (host_ptr size : ℕ) (w : World p)
      → Maps p
      → HasSpace p
      → size < 2 ^ 63
      → Succeeds (map_guest ept host_ptr size) w
  unfolding map_guest
  map_guest-Succeeds ept host_ptr size w maps space small =
      then-Succeeds (expect (map_gpa_range ept base_gpa host_ptr size 0x7)) _ w
        (map-Succeeds ept base_gpa host_ptr size w maps)
        (λ _ w1.
          then-Succeeds (map_stack ept size)
            (λ stack. map_null_page ept >>= λ null_page.
              map_page_table ept >>= λ t. pure (laid host_ptr size stack null_page t))
            w1 (stack-Succeeds ept size w1 maps space small)
            (λ stack w2.
              then-Succeeds (map_null_page ept)
                (λ null_page.
                  map_page_table ept >>= λ t. pure (laid host_ptr size stack null_page t))
                w2 (null_page-Succeeds ept w2 maps space)
                (λ null_page w3.
                  then-Succeeds (map_page_table ept)
                    (λ t. pure (laid host_ptr size stack null_page t)) w3
                    (table-Succeeds ept w3 maps space)
                    (λ t w4. (laid host_ptr size stack null_page t, w4, refl)))))

  -- With room for its blocks, on a hypervisor that maps every range and translates as documented, and
  -- for a live image of fewer than 2^63 bytes, `map_guest` succeeds. It leaves a layout whose four parts
  -- are live: the image as it was, a stack and a null page of zeroes, and tables that map the first
  -- gigabyte to itself. The stack is at the page after the image, and the guest's addresses lead to the
  -- tables at 0x200000, else to the null page at 0, else to the stack, else to the image at 0x100000,
  -- and where none of them is, to what was mapped before.
  pub map_guest-IsLaid :
      (ept : EptManager) (host_ptr size : ℕ) (image : Bytes) (w : World p)
      (at : p.Machine → ℕ → Option (ℕ × ℕ))
      → Maps p
      → Translates p ept.partition at
      → HasSpace p
      → size < 2 ^ 63
      → block host_ptr w.heap ≡ some image
      → size ≤ length image
      → (layout : Layout) × (w' : World p) × (table : Bytes) × (map_guest ept host_ptr size w
          ≡ (ok layout, w'))
        × HasBytes layout w'.heap (zeroed 0x1000) image (zeroed stack_size) table
        × IsIdentityMap pt_gpa layout.page_table w'
        × (layout.size ≡ size)
        × (layout.stack_base_gpa ≡ 0x100000 + (size + 4095) / 4096 * 4096)
        × ((a : ℕ) → at w'.machine a ≡ guest_view layout (at w.machine) a)
  map_guest-IsLaid ept host_ptr size image w at maps translates space small live le =
      let (layout, w', run) = map_guest-Succeeds ept host_ptr size w maps space small in
      let (table, parts, tables, sized) =
        map_guest-HasBytes ept host_ptr size image w w' space live le run in
      let (base, view) =
        map_guest-over ept at translates host_ptr size w w' layout space small run in
      (layout, w', table, run, parts, tables, sized, base, view)
