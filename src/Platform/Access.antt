-- ===== src/Platform/Access.antt =====
-- What `store` and `load` do to a live block, in bounds.
use vestigium.Common.{
  ℕ, zero, suc, ◌+◌, ◌≤◌, ◌<◌, ◌≡◌, ◌≢◌, ap, refl, true, false, Option, none, some, [], ◌∷◌, ◌++◌,
  arith, length, length-replicate, replicate, leb,
}
use vestigium.Common.Bytes.{splice, byte}
use vestigium.Common.Exec.{ok, fault}
use vestigium.Platform.Blocks.{Bytes, Heap, block, set_block, write_bytes, zeroed}
use vestigium.Platform.State.{Platform, World}
use vestigium.Platform.Memory.{store}

block-set_block_self :
    (ptr : ℕ) (b b' : Bytes) (h : Heap)
    → block ptr h ≡ some b
    → block ptr (set_block ptr (some b') h) ≡ some b'
block-set_block_self ptr b b' [] e = cc
block-set_block_self zero b b' (x ∷ h) e = refl
block-set_block_self (suc ptr) b b' (x ∷ h) e = block-set_block_self ptr b b' h e

pub block-append : (h : Heap) (b : Option Bytes) → block (length h) (h ++ b ∷ []) ≡ b
block-append [] b = refl
block-append (x ∷ h) b = block-append h b

write_bytes-fits :
    (off : ℕ) (src b : Bytes)
    → off + length src ≤ length b
    → write_bytes off src b ≡ some (splice off src b)
unfolding write_bytes
write_bytes-fits off src b h =
    let e : leb (off + length src) (length b) ≡ true = ground arith in rw e

pub length-zeroed : (n : ℕ) → length (zeroed n) ≡ n
unfolding zeroed
length-zeroed n = length-replicate n 0

byte-replicate : (n i : ℕ) → byte (replicate n 0) i ≡ 0
byte-replicate zero i = refl
byte-replicate (suc n) zero = refl
byte-replicate (suc n) (suc i) = byte-replicate n i

pub byte-zeroed : (n i : ℕ) → byte (zeroed n) i ≡ 0
unfolding zeroed
byte-zeroed = byte-replicate

module _ {p : Platform} (ptr off : ℕ) (src b : Bytes) (w : World p)
    (live : block ptr w.heap ≡ some b) (fits : off + length src ≤ length b) where
  abbrev pub stored : World p
  stored = record w { heap = set_block ptr (some (splice off src b)) w.heap }

  pub store-ok : store ptr off src w ≡ (ok tt, stored)
  unfolding store
  store-ok = rw (live, write_bytes-fits off src b fits)

  pub block-store : block ptr stored.heap ≡ some (splice off src b)
  block-store = block-set_block_self ptr b (splice off src b) w.heap live

write_bytes_out :
    (off : ℕ) (src b : Bytes) → length b < off + length src → write_bytes off src b ≡ none
unfolding write_bytes
write_bytes_out off src b h =
    let e : leb (off + length src) (length b) ≡ false = ground arith in rw e

-- Past the end of the block the write faults.
pub store_out :
    {p : Platform} (ptr off : ℕ) (src b : Bytes) (w : World p)
    → block ptr w.heap ≡ some b
    → length b < off + length src
    → store ptr off src w ≡ (fault, w)
unfolding store
store_out ptr off src b w live h = rw (live, write_bytes_out off src b h)

-- Blocks at other addresses.
pub block-set_block_ne :
    (ptr q : ℕ) (v : Option Bytes) (h : Heap) → ptr ≢ q → block q (set_block ptr v h) ≡ block q h
block-set_block_ne ptr q v [] ne = refl
block-set_block_ne zero zero v (x ∷ h) ne = absurd (ne refl)
block-set_block_ne zero (suc q) v (x ∷ h) ne = refl
block-set_block_ne (suc ptr) zero v (x ∷ h) ne = refl
block-set_block_ne (suc ptr) (suc q) v (x ∷ h) ne =
    block-set_block_ne ptr q v h (λ e. ne (ap suc e))

pub block-lt : (q : ℕ) (h : Heap) {b : Bytes} → block q h ≡ some b → q < length h
block-lt q [] e = cc
block-lt zero (x ∷ h) e = omega arith
block-lt (suc q) (x ∷ h) e = omega (arith, block-lt q h e)

pub block-append_left :
    (q : ℕ) (h more : Heap) {b : Bytes} → block q h ≡ some b → block q (h ++ more) ≡ some b
block-append_left q [] more e = cc
block-append_left zero (x ∷ h) more e = e
block-append_left (suc q) (x ∷ h) more e = block-append_left q h more e
