-- ===== src/Cli/Layout/Mapped.antt =====
-- `map_guest` allocates what it maps.
use vestigium.Common.{ℕ, ◌≤◌, ◌≡◌, sym, ap, some, length, arith}
use mathlib.Core.Path.{subst}
use vestigium.Common.Exec.{ok, Exec, pure, expect, ◌>>=◌}
use vestigium.Common.Steps.{bind-ok}
use vestigium.Platform.{Platform, World, Bytes, block, zeroed}
use vestigium.Platform.Access.{length-zeroed}
use vestigium.Vmm.Ept.{EptManager, map_gpa_range}
use vestigium.Vmm.Paging.{PageTable}
use vestigium.Vmm.Paging.Build.{IsIdentityMap}
use vestigium.Engine.Memory.{AlignedMemory}
use vestigium.Cli.Layout.{
  Layout, base_gpa, stack_size, pt_gpa, map_stack, map_null_page, map_page_table, map_guest,
}
use vestigium.Cli.Layout.Parts.{
  HasSpace, map-Keeps, Keeps-Retains, null_page-live, stack-live, table-live, result-same,
}
use vestigium.Cli.Layout.Capture.{HasBytes}

abbrev pub laid : ℕ → ℕ → AlignedMemory × ℕ → AlignedMemory → PageTable → Layout
laid host_ptr size stack null_page page_table = record {
  host_ptr = host_ptr;
  size = size;
  stack_memory = stack.0;
  stack_base_gpa = stack.1;
  null_page = null_page;
  page_table = page_table;
}

module _ {p : Platform} where
  -- the calls after the image, after the stack, and after the null page
  abbrev after_null : EptManager → ℕ → ℕ → AlignedMemory × ℕ → AlignedMemory → Exec (World p) Layout
  after_null ept host_ptr size stack null_page =
      map_page_table ept >>= λ page_table. pure (laid host_ptr size stack null_page page_table)

  abbrev after_stack : EptManager → ℕ → ℕ → AlignedMemory × ℕ → Exec (World p) Layout
  after_stack ept host_ptr size stack = map_null_page ept >>= after_null ept host_ptr size stack

  abbrev after_image : EptManager → ℕ → ℕ → Exec (World p) Layout
  after_image ept host_ptr size = map_stack ept size >>= after_stack ept host_ptr size

  -- With room for its blocks, a call of `map_guest` that succeeds leaves a layout whose four parts
  -- are live: the image as it was, a stack and a null page of zeroes, and tables that map the first
  -- gigabyte to itself.
  pub map_guest-HasBytes :
      (ept : EptManager) (host_ptr size : ℕ) (image : Bytes) (w w' : World p) {layout : Layout}
      → HasSpace p
      → block host_ptr w.heap ≡ some image
      → size ≤ length image
      → map_guest ept host_ptr size w ≡ (ok layout, w')
      → (table : Bytes) × HasBytes layout w'.heap (zeroed 0x1000) image (zeroed stack_size) table
        × IsIdentityMap pt_gpa layout.page_table w'
        × (layout.size ≡ size)
  unfolding map_guest
  map_guest-HasBytes ept host_ptr size image w w' {layout = layout} space live le e =
      let (_, w1, e1, k1) =
        bind-ok (expect (map_gpa_range ept base_gpa host_ptr size 0x7))
          (λ _. after_image ept host_ptr size) w e in
      let (stack, w2, e2, k2) =
        bind-ok (map_stack ept size) (after_stack ept host_ptr size) w1 k1 in
      let (null_page, w3, e3, k3) =
        bind-ok (map_null_page ept) (after_null ept host_ptr size stack) w2 k2 in
      let (page_table, w4, e4, k4) =
        bind-ok (map_page_table ept) (λ t. pure (laid host_ptr size stack null_page t)) w3 k3 in
      let keep1 =
        Keeps-Retains (expect (map_gpa_range ept base_gpa host_ptr size 0x7)) w
          (λ q. map-Keeps q ept base_gpa host_ptr size 0x7) e1 in
      let (stack_live, keep2) = stack-live ept size w1 (space.stack_room w1.heap) e2 in
      let (null_live, keep3) = null_page-live ept w2 (space.null_room w2.heap) e3 in
      let (is_map, keep4) = table-live ept w3 ((space.tables_room w3.heap).room) e4 in
      let parts : HasBytes (laid host_ptr size stack null_page page_table) w4.heap (zeroed 0x1000)
          image (zeroed stack_size) is_map.content =
        record {
          null_live = keep4 null_page.ptr (zeroed 0x1000) null_live;
          null_size = omega (arith, length-zeroed 0x1000);
          image_live =
              keep4 host_ptr image
                (keep3 host_ptr image (keep2 host_ptr image (keep1 host_ptr image live)));
          image_size = le;
          stack_live =
              keep4 stack.0.ptr (zeroed stack_size)
                (keep3 stack.0.ptr (zeroed stack_size) stack_live);
          stack_sized = omega (arith, length-zeroed stack_size);
          table_live = is_map.live;
          table_size = omega (arith, is_map.size_known, is_map.sized);
        } in
      let done_same : laid host_ptr size stack null_page page_table ≡ layout = result-same k4 in
      let world_same : w4 ≡ w' = ap (λ x. x.1) k4 in
      (
        is_map.content,
        subst
            (λ (x : Layout × World p).
              HasBytes x.0 x.1.heap (zeroed 0x1000) image (zeroed stack_size) is_map.content)
            (λ i. (done_same i, world_same i)) parts,
        subst (λ (x : Layout × World p). IsIdentityMap pt_gpa x.0.page_table x.1)
            (λ i. (done_same i, world_same i)) is_map,
        ap (λ (l : Layout). l.size) (sym done_same),
      )
