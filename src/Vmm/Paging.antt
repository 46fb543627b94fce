-- ===== src/Vmm/Paging.antt =====
-- crates/vmm/src/paging.rs: page tables that map the first gigabyte to itself.
pub mod Words
pub mod Walk
pub mod Build
pub mod Frame
use Prim.Native.Nat.{bit_or}
use vestigium.Common.{ℕ, zero, suc, ◌+◌, ◌*◌}
use vestigium.Common.Exec.{Exec, pure, ◌>>=◌, ◌>>◌}
use vestigium.Common.Words.{u64_bytes}
use vestigium.Platform.{Platform, World, page_layout, alloc_zeroed, unchecked, store, add_u64}

pub record PageTable : Type 0 where
  pub pml4_gpa : ℕ
  pub host_ptr : ℕ
  pub size : ℕ

-- The entry of the page directory at an index.
abbrev pub huge_page : ℕ → ℕ
huge_page i = bit_or (i * 0x200000) 0x83

module _ {p : Platform} where
  -- The loop over the entries of the page directory: the rounds left, and the index.
  unfoldable pub fill_directory : ℕ → ℕ → ℕ → Exec (World p) (Unit {0})
  fill_directory host_ptr zero i = pure tt
  fill_directory host_ptr (suc rounds) i = do
    store host_ptr (8192 + i * 8) (u64_bytes (huge_page i))
    fill_directory host_ptr rounds (i + 1)

  -- The null check that is missing in the source: the first write through the pointer faults.
  unfoldable pub create_identity_mapping : ℕ → Exec (World p) PageTable
  create_identity_mapping base_gpa = do
    page_layout (4096 * 3)
    allocated ← alloc_zeroed (4096 * 3)
    host_ptr ← unchecked allocated
    pdpt_gpa ← add_u64 base_gpa 4096
    store host_ptr 0 (u64_bytes (bit_or pdpt_gpa 0x3))
    pd_gpa ← add_u64 base_gpa 8192
    store host_ptr 4096 (u64_bytes (bit_or pd_gpa 0x3))
    fill_directory host_ptr 512 0
    pure (record { pml4_gpa = base_gpa; host_ptr = host_ptr; size = 4096 * 3 })
