-- ===== src/Engine/Memory.antt =====
-- crates/engine/src/record.rs, `AlignedMemory`: a page-aligned host buffer.
pub mod Alloc
use vestigium.Common.{ℕ, Bool, ◌==◌}
use vestigium.Common.Exec.{Exec, pure, ◌>>=◌, ◌>>◌}
use vestigium.Platform.{Platform, World, page_layout, alloc_zeroed, not_null, dealloc}

pub record AlignedMemory : Type 0 where
  pub ptr : ℕ
  pub size : ℕ

abbrev pub len : AlignedMemory → ℕ
len mem = mem.size

abbrev pub is_empty : AlignedMemory → Bool
is_empty mem = mem.size == 0

module _ {p : Platform} where
  -- `AlignedMemory::new`.
  unfoldable pub new : ℕ → Exec (World p) AlignedMemory
  new size = do
    page_layout size
    allocated ← alloc_zeroed size
    ptr ← not_null allocated
    pure (record { ptr = ptr; size = size })

  -- `Drop for AlignedMemory`.
  unfoldable pub drop_memory : AlignedMemory → Exec (World p) (Unit {0})
  unfolding dealloc
  drop_memory mem = dealloc mem.ptr
