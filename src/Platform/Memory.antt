-- ===== src/Platform/Memory.antt =====
-- `std::alloc` and the copies through raw pointers, on the host heap.
use vestigium.Common.{
  ℕ, ◌-◌, ◌^◌, Option, none, some, [], ◌∷◌, ◌++◌, length, leb, ◌==◌, if◌then◌else◌,
}
use vestigium.Common.Exec.{ok, panic, fault, Exec, assert, ◌>>=◌}
use vestigium.Platform.Blocks.{Bytes, block, set_block, read_bytes, write_bytes, zeroed}
use vestigium.Platform.State.{Platform, World}

module _ {p : Platform} where
  -- `Layout::from_size_align(size, 4096).expect(…)`: the size, rounded up, has to fit `isize`.
  abbrev pub page_layout : ℕ → Exec (World p) (Unit {0})
  page_layout size = assert (leb size (2 ^ 63 - 4096))

  -- `alloc_zeroed`: a null pointer is `none`; a layout of size 0 is undefined behaviour.
  abbrev pub alloc_zeroed : ℕ → Exec (World p) (Option ℕ)
  alloc_zeroed size w =
      if size == 0
      then (fault, w)
      else if p.has_room w.heap size
      then (ok (some (length w.heap)), record w { heap = w.heap ++ some (zeroed size) ∷ [] })
      else (ok none, w)

  -- `assert!(!ptr.is_null(), …)`.
  abbrev pub not_null : Option ℕ → Exec (World p) ℕ
  not_null none w = (panic, w)
  not_null (some ptr) w = (ok ptr, w)

  -- A pointer that is used unchecked.
  abbrev pub unchecked : Option ℕ → Exec (World p) ℕ
  unchecked none w = (fault, w)
  unchecked (some ptr) w = (ok ptr, w)

  abbrev pub or_fault : {A : Type 0} → Option A → Exec (World p) A
  or_fault none w = (fault, w)
  or_fault (some a) w = (ok a, w)

  -- The bytes behind a pointer, while it is live.
  abbrev pub deref : ℕ → Exec (World p) Bytes
  deref ptr w = or_fault (block ptr w.heap) w

  -- `n` bytes behind a pointer at an offset.
  unfoldable pub load : ℕ → ℕ → ℕ → Exec (World p) Bytes
  unfolding read_bytes
  load ptr off n = do b ← deref ptr; or_fault (read_bytes off n b)

  abbrev pub put : ℕ → Bytes → Exec (World p) (Unit {0})
  put ptr b w = (ok tt, record w { heap = set_block ptr (some b) w.heap })

  -- A write of bytes behind a pointer at an offset.
  unfoldable pub store : ℕ → ℕ → Bytes → Exec (World p) (Unit {0})
  unfolding write_bytes
  store ptr off src = do b ← deref ptr; b' ← or_fault (write_bytes off src b); put ptr b'

  -- `dealloc`: of a block that is live.
  unfoldable pub dealloc : ℕ → Exec (World p) (Unit {0})
  dealloc ptr = do b ← deref ptr; λ w. (ok tt, record w { heap = set_block ptr none w.heap })
