-- ===== src/Platform/Blocks.antt =====
-- Host memory: numbered blocks of bytes. A freed block is `none`; a block's number is its address.
use vestigium.Common.{
  ℕ, zero, suc, ◌+◌, Option, none, some, List, [], ◌∷◌, length, take, drop, replicate, leb,
  if◌then◌else◌,
}
use vestigium.Common.Bytes.{splice}

abbrev pub Bytes : Type 0
Bytes = List ℕ

abbrev pub Heap : Type 0
Heap = List (Option Bytes)

-- The bytes of a live block.
abbrev pub block : ℕ → Heap → Option Bytes
block p [] = none
block zero (b ∷ h) = b
block (suc p) (b ∷ h) = block p h

abbrev pub set_block : ℕ → Option Bytes → Heap → Heap
set_block p v [] = []
set_block zero v (b ∷ h) = v ∷ h
set_block (suc p) v (b ∷ h) = b ∷ set_block p v h

-- A copy of `n` bytes out of a block at an offset; `none` is a read out of bounds.
unfoldable pub read_bytes : ℕ → ℕ → Bytes → Option Bytes
read_bytes off n b = if leb (off + n) (length b) then some (take n (drop off b)) else none

-- A copy into a block at an offset; `none` is a write out of bounds.
unfoldable pub write_bytes : ℕ → Bytes → Bytes → Option Bytes
write_bytes off src b = if leb (off + length src) (length b) then some (splice off src b) else none

-- A fresh block of zeroes.
unfoldable pub zeroed : ℕ → Bytes
zeroed size = replicate size 0
