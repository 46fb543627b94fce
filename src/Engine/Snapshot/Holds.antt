-- ===== src/Engine/Snapshot/Holds.antt =====
-- The abstract view of a snapshot's memory: bytes by address. `Holds` says that the buffers of the
-- snapshot, on the heap, stand for it.
use vestigium.Common.{
  ℕ, ◌≡◌, ◌≢◌, refl, sym, ap, ◌∙◌, true, false, Bool-cases, inl, inr, Option, none, some, [], ◌∷◌,
  ◌++◌, arith, length, ◌==◌, if◌then◌else◌,
}
use vestigium.Common.HashMap.{HashMap, get, insert, keys}
use vestigium.Platform.{Bytes, Heap, block, set_block}
use vestigium.Platform.Access.{block-set_block_ne, block-append_left, block-lt}
use vestigium.Engine.Memory.{AlignedMemory}

-- A pointer that none of the buffers has.
abbrev pub Apart : ℕ → HashMap AlignedMemory → Type 0
Apart ptr [] = Unit
Apart ptr ((gpa, mem) ∷ regions) = (ptr ≢ mem.ptr) × Apart ptr regions

-- Every buffer is live, has its size, and is no other's; its bytes are those of `contents`.
abbrev pub Holds : Heap → HashMap AlignedMemory → HashMap Bytes → Type 0
Holds heap [] [] = Unit
Holds heap [] (c ∷ contents) = ⊥
Holds heap (r ∷ regions) [] = ⊥
Holds heap ((gpa, mem) ∷ regions) ((at, bytes) ∷ contents) =
    (gpa ≡ at)
    × (block mem.ptr heap ≡ some bytes)
    × (length bytes ≡ mem.size)
    × Apart mem.ptr regions
    × Holds heap regions contents

pub Holds-keys :
    (heap : Heap) (regions : HashMap AlignedMemory) (contents : HashMap Bytes)
    → Holds heap regions contents
    → keys regions ≡ keys contents
Holds-keys heap [] [] h = refl
Holds-keys heap [] (c ∷ contents) h = elim h [ ]
Holds-keys heap (r ∷ regions) [] h = elim h [ ]
Holds-keys heap ((gpa, mem) ∷ regions) ((at, bytes) ∷ contents) (e, live, sized, apart, h) =
    λ i. e i ∷ Holds-keys heap regions contents h i

-- What the buffers do not have can change.
pub Holds-set_block :
    (ptr : ℕ) (v : Option Bytes) (heap : Heap) (regions : HashMap AlignedMemory)
    (contents : HashMap Bytes)
    → Apart ptr regions
    → Holds heap regions contents
    → Holds (set_block ptr v heap) regions contents
Holds-set_block ptr v heap [] [] a h = tt
Holds-set_block ptr v heap [] (c ∷ contents) a h = h
Holds-set_block ptr v heap (r ∷ regions) [] a h = h
Holds-set_block ptr v heap ((gpa, mem) ∷ regions) ((at, bytes) ∷ contents) (ne, a)
      (e, live, sized, apart, h) =
    (
      e,
      block-set_block_ne ptr mem.ptr v heap ne ∙ live,
      sized,
      apart,
      Holds-set_block ptr v heap regions contents a h,
    )

pub Holds-append :
    (heap more : Heap) (regions : HashMap AlignedMemory) (contents : HashMap Bytes)
    → Holds heap regions contents
    → Holds (heap ++ more) regions contents
Holds-append heap more [] [] h = tt
Holds-append heap more [] (c ∷ contents) h = h
Holds-append heap more (r ∷ regions) [] h = h
Holds-append heap more ((gpa, mem) ∷ regions) ((at, bytes) ∷ contents) (e, live, sized, apart, h) =
    (
      e,
      block-append_left mem.ptr heap more live,
      sized,
      apart,
      Holds-append heap more regions contents h,
    )

-- A fresh block is apart from all.
pub Apart-fresh :
    (heap : Heap) (regions : HashMap AlignedMemory) (contents : HashMap Bytes)
    → Holds heap regions contents
    → Apart (length heap) regions
Apart-fresh heap [] contents h = tt
Apart-fresh heap (r ∷ regions) [] h = elim h [ ]
Apart-fresh heap ((gpa, mem) ∷ regions) ((at, bytes) ∷ contents) (e, live, sized, apart, h) =
    (λ q. omega (arith, block-lt mem.ptr heap live, q), Apart-fresh heap regions contents h)

-- The heap once the buffer at an address is freed.
abbrev pub freed : Option AlignedMemory → Heap → Heap
freed none heap = heap
freed (some old) heap = set_block old.ptr none heap

pub block-freed :
    (q gpa : ℕ) (heap : Heap) (regions : HashMap AlignedMemory)
    → Apart q regions
    → block q (freed (get gpa regions) heap) ≡ block q heap
block-freed q gpa heap [] a = refl
block-freed q gpa heap ((at, mem) ∷ regions) (ne, a) = elim (Bool-cases (at == gpa)) [
  | inl same ↦ rw same (block-set_block_ne mem.ptr q none heap (λ e. ne (sym e)))
  | inr other ↦ rw other (block-freed q gpa heap regions a)
]

pub Apart-insert :
    (q gpa : ℕ) (mem : AlignedMemory) (regions : HashMap AlignedMemory)
    → q ≢ mem.ptr
    → Apart q regions
    → Apart q (insert gpa mem regions)
Apart-insert q gpa mem [] ne a = (ne, tt)
Apart-insert q gpa mem ((at, old) ∷ regions) ne (ne', a) = elim (Bool-cases (at == gpa)) [
  | inl same ↦ rw same (ne, a)
  | inr other ↦ rw other (ne', Apart-insert q gpa mem regions ne a)
]

-- The buffer that is replaced is live.
pub Holds-get :
    (gpa : ℕ) (heap : Heap) (regions : HashMap AlignedMemory) (contents : HashMap Bytes)
    → Holds heap regions contents
    → (old : AlignedMemory) → get gpa regions ≡ some old
    → (b : Bytes) × (get gpa contents ≡ some b)
      × (block old.ptr heap ≡ some b)
      × (length b ≡ old.size)
Holds-get gpa heap [] contents h old g = cc
Holds-get gpa heap (r ∷ regions) [] h old g = elim h [ ]
Holds-get gpa heap ((at, mem) ∷ regions) ((at', bytes) ∷ contents) (e, live, sized, apart, h) old
      g =
    elim (Bool-cases (at == gpa)) [
      | inl same ↦
          let here : some mem ≡ some old =
            sym (ap (λ t. if t then some mem else get gpa regions) same) ∙ g in
          let q : mem ≡ old = cc here in
          let same' : (at' == gpa) ≡ true = ap (λ k. k == gpa) (sym e) ∙ same in
          (
            bytes,
            rw same',
            ap (λ (m : AlignedMemory). block m.ptr heap) (sym q) ∙ live,
            sized ∙ ap (λ (m : AlignedMemory). m.size) q,
          )
      | inr other ↦
          let there : get gpa regions ≡ some old =
            sym (ap (λ t. if t then some mem else get gpa regions) other) ∙ g in
          let other' : (at' == gpa) ≡ false = ap (λ k. k == gpa) (sym e) ∙ other in
          let (b, got, live', sized') = Holds-get gpa heap regions contents h old there in
          (b, rw other' got, live', sized')
    ]

-- A new buffer replaces the one at its address, which is freed.
pub Holds-insert :
    (gpa : ℕ) (mem : AlignedMemory) (bytes : Bytes) (heap : Heap) (regions : HashMap AlignedMemory)
    (contents : HashMap Bytes)
    → block mem.ptr heap ≡ some bytes
    → length bytes ≡ mem.size
    → Apart mem.ptr regions
    → Holds heap regions contents
    → Holds (freed (get gpa regions) heap) (insert gpa mem regions) (insert gpa bytes contents)
Holds-insert gpa mem bytes heap [] [] live sized a h = (refl, live, sized, tt, tt)
Holds-insert gpa mem bytes heap [] (c ∷ contents) live sized a h = elim h [ ]
Holds-insert gpa mem bytes heap (r ∷ regions) [] live sized a h = elim h [ ]
Holds-insert gpa mem bytes heap ((at, old) ∷ regions) ((at', b) ∷ contents) live sized (ne, a)
      (e, live', sized', apart, h) =
    elim (Bool-cases (at == gpa)) [
      | inl same ↦
          let same' : (at' == gpa) ≡ true = ap (λ k. k == gpa) (sym e) ∙ same in
          rw (same, same')
            (
              refl,
              block-set_block_ne old.ptr mem.ptr none heap (λ q. ne (sym q)) ∙ live,
              sized,
              a,
              Holds-set_block old.ptr none heap regions contents apart h,
            )
      | inr other ↦
          let other' : (at' == gpa) ≡ false = ap (λ k. k == gpa) (sym e) ∙ other in
          rw (other, other')
            (
              e,
              block-freed old.ptr gpa heap regions apart ∙ live',
              sized',
              Apart-insert old.ptr gpa mem regions (λ q. ne (sym q)) apart,
              Holds-insert gpa mem bytes heap regions contents live sized a h,
            )
    ]

-- The buffer of an address that `contents` has.
pub Holds-find :
    (gpa : ℕ) (heap : Heap) (regions : HashMap AlignedMemory) (contents : HashMap Bytes) (b : Bytes)
    → Holds heap regions contents
    → get gpa contents ≡ some b
    → (mem : AlignedMemory) × (get gpa regions ≡ some mem)
      × (block mem.ptr heap ≡ some b)
      × (length b ≡ mem.size)
Holds-find gpa heap [] [] b h g = cc
Holds-find gpa heap (r ∷ regions) [] b h g = elim h [ ]
Holds-find gpa heap [] (c ∷ contents) b h g = elim h [ ]
Holds-find gpa heap ((at, mem) ∷ regions) ((at', bytes) ∷ contents) b (e, live, sized, apart, h) g =
    elim (Bool-cases (at == gpa)) [
      | inl same ↦
          let same' : (at' == gpa) ≡ true = ap (λ k. k == gpa) (sym e) ∙ same in
          let here : some bytes ≡ some b =
            sym (ap (λ t. if t then some bytes else get gpa contents) same') ∙ g in
          let q : bytes ≡ b = cc here in (mem, rw same, live ∙ ap some q, sym (ap length q) ∙ sized)
      | inr other ↦
          let other' : (at' == gpa) ≡ false = ap (λ k. k == gpa) (sym e) ∙ other in
          let there : get gpa contents ≡ some b =
            sym (ap (λ t. if t then some bytes else get gpa contents) other') ∙ g in
          let (found, got, live', sized') = Holds-find gpa heap regions contents b h there in
          (found, rw other got, live', sized')
    ]
