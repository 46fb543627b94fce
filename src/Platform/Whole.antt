-- ===== src/Platform/Whole.antt =====
-- Copies of whole blocks: what a fresh block holds once it has been filled.
use vestigium.Common.{
  ℕ, zero, suc, ◌+◌, ◌≤◌, ◌≡◌, refl, sym, ap, ◌∙◌, true, Option, some, [], ◌∷◌, ◌++◌, length, take,
  drop, leb, arith,
}
use mathlib.Core.List.{append-nil}
use vestigium.Common.Bytes.{splice}
use vestigium.Common.Exec.{ok}
use vestigium.Platform.Blocks.{Bytes, Heap, block, set_block, read_bytes, zeroed}
use vestigium.Platform.State.{Platform, World}
use vestigium.Platform.Memory.{load, store}
use vestigium.Platform.Access.{store-ok, block-append, length-zeroed}

pub take-all : (b : Bytes) (n : ℕ) → n ≡ length b → take n b ≡ b
take-all [] zero e = refl
take-all [] (suc n) e = refl
take-all (x ∷ b) zero e = absurd (omega arith)
take-all (x ∷ b) (suc n) e = ap (λ l. x ∷ l) (take-all b n (omega arith))

drop-all : (b : Bytes) (n : ℕ) → length b ≤ n → drop n b ≡ []
drop-all [] zero e = refl
drop-all [] (suc n) e = refl
drop-all (x ∷ b) zero e = absurd (omega arith)
drop-all (x ∷ b) (suc n) e = drop-all b n (omega arith)

splice-whole : (src b : Bytes) → length src ≡ length b → splice 0 src b ≡ src
splice-whole src b same = rw (drop-all b (0 + length src) (omega arith)) (append-nil src)

set_block-append :
    (v v' : Option Bytes) (h : Heap) → set_block (length h) v (h ++ v' ∷ []) ≡ h ++ v ∷ []
set_block-append v v' [] = refl
set_block-append v v' (x ∷ h) = ap (λ l. x ∷ l) (set_block-append v v' h)

-- A block with others on both sides.
pub set_block-middle :
    (v v' : Option Bytes) (h rest : Heap) → set_block (length h) v (h ++ v' ∷ rest) ≡ h ++ v ∷ rest
set_block-middle v v' [] rest = refl
set_block-middle v v' (x ∷ h) rest = ap (λ l. x ∷ l) (set_block-middle v v' h rest)

pub block-middle : (b : Bytes) (h rest : Heap) → block (length h) (h ++ some b ∷ rest) ≡ some b
block-middle b [] rest = refl
block-middle b (x ∷ h) rest = block-middle b h rest

module _ {p : Platform} where
  -- The world with one more block.
  abbrev pub with_block : Bytes → World p → World p
  with_block b w = record w { heap = w.heap ++ some b ∷ [] }

  -- The first bytes of a live block.
  pub load-prefix :
      (ptr n : ℕ) (b : Bytes) (w : World p)
      → block ptr w.heap ≡ some b
      → n ≤ length b
      → load ptr 0 n w ≡ (ok (take n b), w)
  unfolding load read_bytes
  load-prefix ptr n b w live le =
      let fits : leb (0 + n) (length b) ≡ true = ground arith in rw (live, fits)

  -- The whole of a live block.
  pub load-whole :
      (ptr n : ℕ) (b : Bytes) (w : World p)
      → block ptr w.heap ≡ some b
      → length b ≡ n
      → load ptr 0 n w ≡ (ok b, w)
  load-whole ptr n b w live sized =
      load-prefix ptr n b w live (omega arith) ∙ ap (λ l. (ok l, w)) (take-all b n (sym sized))

  -- A fresh block of zeroes is filled.
  pub store-fresh :
      (src : Bytes) (n : ℕ) (w : World p)
      → length src ≡ n
      → store (length w.heap) 0 src (with_block (zeroed n) w) ≡ (ok tt, with_block src w)
  store-fresh src n w sized =
      store-ok (length w.heap) 0 src (zeroed n) (with_block (zeroed n) w)
        (block-append w.heap (some (zeroed n))) (omega (arith, length-zeroed n))
      ∙ λ i. (
        ok tt,
        record w {
          heap =
              (ap (λ b. set_block (length w.heap) (some b) (w.heap ++ some (zeroed n) ∷ []))
                    (splice-whole src (zeroed n) (sized ∙ sym (length-zeroed n)))
                  ∙ set_block-append (some src) (some (zeroed n)) w.heap)
                i;
        },
      )
