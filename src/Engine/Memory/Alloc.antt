-- ===== src/Engine/Memory/Alloc.antt =====
-- When `AlignedMemory::new` succeeds, and when a buffer can be dropped.
use vestigium.Common.{ℕ, ◌-◌, ◌^◌, ◌≤◌, ◌<◌, ◌≡◌, true, false, none, some, length, leb, ◌==◌, arith}
use vestigium.Common.Exec.{ok}
use vestigium.Platform.{Platform, World, Bytes, Heap, block, set_block, zeroed, dealloc}
use vestigium.Platform.Whole.{with_block}
use vestigium.Engine.Memory.{AlignedMemory, new, drop_memory}

-- A size that a page-aligned layout allows and that the allocator has room for.
pub record Allocates (p : Platform) (heap : Heap) (n : ℕ) : Type 0 where
  pub positive : 0 < n
  pub small : n ≤ 2 ^ 63 - 4096
  pub room : p.has_room heap n ≡ true

module _ {p : Platform} where
  -- The buffer is a fresh block of zeroes.
  pub new-ok :
      (n : ℕ) (w : World p)
      → Allocates p w.heap n
      → new n w ≡ (ok (record { ptr = length w.heap; size = n }), with_block (zeroed n) w)
  unfolding new
  new-ok n w a =
      let small : leb n (2 ^ 63 - 4096) ≡ true = ground (arith, a.small) in
      let positive : (n == 0) ≡ false = ground (arith, a.positive) in rw (small, positive, a.room)

  pub drop_memory-ok :
      (mem : AlignedMemory) (b : Bytes) (w : World p)
      → block mem.ptr w.heap ≡ some b
      → drop_memory mem w ≡ (ok tt, record w { heap = set_block mem.ptr none w.heap })
  unfolding drop_memory dealloc
  drop_memory-ok mem b w live = rw live
