-- ===== src/Cli/Layout.antt =====
-- crates/cli/src/main.rs: the guest's memory as the record command lays it out.
pub mod Capture
pub mod Drop
pub mod Bounds
pub mod Parts
pub mod Mapped
pub mod Total
pub mod Placed
use Prim.Native.Nat.{bit_and}
use vestigium.Common.{ℕ, ◌^◌, ◌-◌, List, [], ◌∷◌}
use vestigium.Common.Exec.{Exec, pure, expect, ◌>>=◌, ◌>>◌}
use vestigium.Common.HashMap.{HashMap}
use vestigium.Platform.{Platform, World, RegisterName, add_u64, rip, rsp, rflags, cr0, cr3, cr4}
use vestigium.Vmm.Ept.{EptManager, map_gpa_range}
use vestigium.Vmm.Paging.{PageTable, create_identity_mapping}
use vestigium.Engine.Memory
use vestigium.Engine.Memory.{AlignedMemory, drop_memory}
use vestigium.Engine.Snapshot
use vestigium.Engine.Snapshot.{Snapshot, capture_region}

abbrev pub base_gpa : ℕ
base_gpa = 0x100000

abbrev pub stack_size : ℕ
stack_size = 0x10000

abbrev pub pt_gpa : ℕ
pt_gpa = 0x200000

-- `capture_names`, and `restore_names`.
abbrev pub capture_names : List RegisterName
capture_names = rip ∷ rsp ∷ rflags ∷ cr0 ∷ cr3 ∷ cr4 ∷ []

-- What the command has mapped: the image, the stack, the null page and the page tables.
pub record Layout : Type 0 where
  pub host_ptr : ℕ
  pub size : ℕ
  pub stack_memory : AlignedMemory
  pub stack_base_gpa : ℕ
  pub null_page : AlignedMemory
  pub page_table : PageTable

module _ {p : Platform} where
  -- `base_gpa + ((size + 0xFFF) & !0xFFF)`.
  unfoldable pub stack_base : ℕ → Exec (World p) ℕ
  stack_base size = do end ← add_u64 size 0xFFF; add_u64 base_gpa (bit_and end (2 ^ 64 - 1 - 0xFFF))

  -- The stack, with the address at which it is mapped.
  unfoldable pub map_stack : EptManager → ℕ → Exec (World p) (AlignedMemory × ℕ)
  map_stack ept size = do
    stack_memory ← Memory.new stack_size
    stack_base_gpa ← stack_base size
    expect (map_gpa_range ept stack_base_gpa stack_memory.ptr stack_size 0x7)
    pure (stack_memory, stack_base_gpa)

  unfoldable pub map_null_page : EptManager → Exec (World p) AlignedMemory
  map_null_page ept = do
    null_page ← Memory.new 0x1000
    expect (map_gpa_range ept 0x0 null_page.ptr 0x1000 0x7)
    pure null_page

  unfoldable pub map_page_table : EptManager → Exec (World p) PageTable
  map_page_table ept = do
    page_table ← create_identity_mapping pt_gpa
    expect (map_gpa_range ept pt_gpa page_table.host_ptr page_table.size 0x7)
    pure page_table

  unfoldable pub map_guest : EptManager → ℕ → ℕ → Exec (World p) Layout
  map_guest ept host_ptr size = do
    expect (map_gpa_range ept base_gpa host_ptr size 0x7)
    stack ← map_stack ept size
    null_page ← map_null_page ept
    page_table ← map_page_table ept
    pure (record {
      host_ptr = host_ptr;
      size = size;
      stack_memory = stack.0;
      stack_base_gpa = stack.1;
      null_page = null_page;
      page_table = page_table;
    })

  -- The closure `capture_memory_layout`.
  unfoldable pub capture_memory_layout : Layout → Exec (World p) Snapshot
  capture_memory_layout layout = do
    snap ← capture_region Snapshot.new 0x0 layout.null_page.ptr 0x1000
    snap ← capture_region snap base_gpa layout.host_ptr layout.size
    snap ← capture_region snap layout.stack_base_gpa layout.stack_memory.ptr stack_size
    capture_region snap pt_gpa layout.page_table.host_ptr layout.page_table.size

  -- The drop of a snapshot drops its buffers.
  unfoldable pub drop_regions : HashMap AlignedMemory → Exec (World p) (Unit {0})
  drop_regions [] = pure tt
  drop_regions ((gpa, mem) ∷ regions) = do drop_memory mem; drop_regions regions
