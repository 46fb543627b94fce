-- ===== src/Cli/Layout/Capture.antt =====
-- `capture_memory_layout` copies the four parts of the guest's memory.
use vestigium.Common.{◌≤◌, ◌≡◌, ◌∙◌, some, [], length, take}
use vestigium.Common.Exec.{ok}
use vestigium.Common.HashMap.{HashMap, insert, IsDistinct, insert-IsDistinct}
use vestigium.Platform.{Platform, World, Bytes, Heap, block}
use vestigium.Engine.Memory.Alloc.{Allocates}
use vestigium.Engine.Snapshot
use vestigium.Engine.Snapshot.{Snapshot, capture_region}
use vestigium.Engine.Snapshot.Holds.{Holds}
use vestigium.Engine.Snapshot.Capture.{capture_region-Holds}
use vestigium.Cli.Layout.{Layout, base_gpa, stack_size, pt_gpa, capture_memory_layout}

-- The blocks of the guest's memory, at least as long as the command says.
pub record HasBytes (layout : Layout) (heap : Heap) (null image stack table : Bytes) : Type 0 where
  pub null_live : block layout.null_page.ptr heap ≡ some null
  pub null_size : 0x1000 ≤ length null
  pub image_live : block layout.host_ptr heap ≡ some image
  pub image_size : layout.size ≤ length image
  pub stack_live : block layout.stack_memory.ptr heap ≡ some stack
  pub stack_sized : stack_size ≤ length stack
  pub table_live : block layout.page_table.host_ptr heap ≡ some table
  pub table_size : layout.page_table.size ≤ length table

-- The bytes by guest address. At one address, a later part replaces an earlier one.
abbrev pub contents_of : Layout → Bytes → Bytes → Bytes → Bytes → HashMap Bytes
contents_of layout null image stack table = insert pt_gpa (take layout.page_table.size table) (
    insert layout.stack_base_gpa (take stack_size stack)
      (insert base_gpa (take layout.size image) (insert 0x0 (take 0x1000 null) [])))

pub contents_of-IsDistinct :
    (layout : Layout) (null image stack table : Bytes)
    → IsDistinct (contents_of layout null image stack table)
contents_of-IsDistinct layout null image stack table =
    let one : HashMap Bytes = insert 0x0 (take 0x1000 null) [] in
    let two = insert base_gpa (take layout.size image) one in
    let three = insert layout.stack_base_gpa (take stack_size stack) two in
    insert-IsDistinct pt_gpa (take layout.page_table.size table) three (
      insert-IsDistinct layout.stack_base_gpa (take stack_size stack) two (
        insert-IsDistinct base_gpa (take layout.size image) one
          (insert-IsDistinct 0x0 (take 0x1000 null) [] tt)))

-- There is room for copies of the four parts, on any heap.
pub record HasRoom (p : Platform) (layout : Layout) : Type 0 where
  pub null_room : (heap : Heap) → Allocates p heap 0x1000
  pub image_room : (heap : Heap) → Allocates p heap layout.size
  pub stack_room : (heap : Heap) → Allocates p heap stack_size
  pub table_room : (heap : Heap) → Allocates p heap layout.page_table.size

module _ {p : Platform} (layout : Layout) (null image stack table : Bytes) (w : World p) where
  -- With room for the copies, the capture of a guest whose four parts are live succeeds, and its
  -- buffers stand for the bytes of the parts at their guest addresses. Machine and output stay.
  pub capture_memory_layout-Holds :
      HasRoom p layout
      → HasBytes layout w.heap null image stack table
      → (s : Snapshot) × (w' : World p) × (capture_memory_layout layout w ≡ (ok s, w'))
        × Holds w'.heap s.memory_regions (contents_of layout null image stack table)
        × (w'.machine ≡ w.machine)
        × (w'.printed ≡ w.printed)
  unfolding capture_memory_layout
  capture_memory_layout-Holds r b =
      let (s1, w1, run1, h1, _, m1, o1, keep1) =
        capture_region-Holds Snapshot.new [] 0x0 layout.null_page.ptr 0x1000 null w tt b.null_live
          b.null_size (r.null_room w.heap) in
      let image1 = keep1 layout.host_ptr image (b.image_live, tt) in
      let stack1 = keep1 layout.stack_memory.ptr stack (b.stack_live, tt) in
      let table1 = keep1 layout.page_table.host_ptr table (b.table_live, tt) in
      let (s2, w2, run2, h2, _, m2, o2, keep2) =
        capture_region-Holds s1 (insert 0x0 (take 0x1000 null) []) base_gpa layout.host_ptr
          layout.size image w1 h1 image1.0 b.image_size (r.image_room w1.heap) in
      let stack2 = keep2 layout.stack_memory.ptr stack stack1 in
      let table2 = keep2 layout.page_table.host_ptr table table1 in
      let (s3, w3, run3, h3, _, m3, o3, keep3) =
        capture_region-Holds s2
          (insert base_gpa (take layout.size image) (insert 0x0 (take 0x1000 null) []))
          layout.stack_base_gpa layout.stack_memory.ptr stack_size stack w2 h2 stack2.0
          b.stack_sized (r.stack_room w2.heap) in
      let table3 = keep3 layout.page_table.host_ptr table table2 in
      let (s4, w4, run4, h4, _, m4, o4, _) =
        capture_region-Holds s3
          (insert layout.stack_base_gpa (take stack_size stack)
            (insert base_gpa (take layout.size image) (insert 0x0 (take 0x1000 null) [])))
          pt_gpa layout.page_table.host_ptr layout.page_table.size table w3 h3 table3.0 b.table_size
          (r.table_room w3.heap) in
      (s4, w4, rw (run1, run2, run3, run4), h4, m4 ∙ m3 ∙ m2 ∙ m1, o4 ∙ o3 ∙ o2 ∙ o1)
