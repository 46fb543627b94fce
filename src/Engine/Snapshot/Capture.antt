-- ===== src/Engine/Snapshot/Capture.antt =====
-- `capture_region` refines an insertion into the abstract view.
use vestigium.Common.{ℕ, ◌≤◌, ◌≡◌, refl, ◌∙◌, Option, none, some, [], ◌∷◌, length, take, arith}
use vestigium.Common.Exec.{ok}
use vestigium.Common.Bytes.{length-take}
use vestigium.Common.HashMap.{HashMap, get, insert}
use vestigium.Platform.{Platform, World, Bytes, block}
use vestigium.Platform.Access.{block-append, block-append_left, block-lt}
use vestigium.Platform.Whole.{with_block, load-prefix, store-fresh}
use vestigium.Engine.Memory.{AlignedMemory}
use vestigium.Engine.Memory.Alloc.{Allocates, new-ok, drop_memory-ok}
use vestigium.Engine.Snapshot.{Snapshot, capture_region, drop_replaced}
use vestigium.Engine.Snapshot.Holds.{
  Apart, Holds, Holds-append, Apart-fresh, Holds-get, Holds-insert, freed, block-freed,
  Apart-insert,
}

module _ {p : Platform} where
  -- The world without the buffer at an address.
  abbrev pub without : HashMap AlignedMemory → ℕ → World p → World p
  without regions gpa w = record w { heap = freed (get gpa regions) w.heap }

  -- The buffer that an insertion replaces is dropped without fault.
  pub drop_replaced-ok :
      (gpa : ℕ) (regions : HashMap AlignedMemory) (contents : HashMap Bytes) (w : World p)
      → Holds w.heap regions contents
      → drop_replaced (get gpa regions) w ≡ (ok tt, without regions gpa w)
  drop_replaced-ok gpa regions contents w h = go (get gpa regions) refl
    where
      go :
          (old : Option AlignedMemory)
          → get gpa regions ≡ old
          → drop_replaced old w ≡ (ok tt, record w { heap = freed old w.heap })
      go none e = refl
      go (some old) e =
          let (b, _, live, _) = Holds-get gpa w.heap regions contents h old e in
          drop_memory-ok old b w live

  -- A live block that is no buffer of the snapshot.
  abbrev pub IsOther : ℕ → Bytes → Snapshot → World p → Type 0
  IsOther q c s w = (block q w.heap ≡ some c) × Apart q s.memory_regions

  -- The snapshot and the world after a capture.
  abbrev pub captured : Snapshot → ℕ → ℕ → World p → Snapshot
  captured snapshot gpa size w = record snapshot {
    memory_regions =
        insert gpa (record { ptr = length w.heap; size = size }) snapshot.memory_regions;
  }

  -- If the buffers of a snapshot stand for `contents`, and the block at `host_ptr` has `size` bytes,
  -- with room for a copy, then `capture_region` succeeds, the new buffers stand for `contents` with
  -- the first `size` bytes of the block at `gpa`, in place of what was there. Registers, machine and
  -- output stay, and every live block that is no buffer of the snapshot stays live and no buffer.
  pub capture_region-Holds :
      (snapshot : Snapshot) (contents : HashMap Bytes) (gpa host_ptr size : ℕ) (b : Bytes)
      (w : World p)
      → Holds w.heap snapshot.memory_regions contents
      → block host_ptr w.heap ≡ some b
      → size ≤ length b
      → Allocates p w.heap size
      → (s' : Snapshot) × (w' : World p) × (capture_region snapshot gpa host_ptr size w
          ≡ (ok s', w'))
        × Holds w'.heap s'.memory_regions (insert gpa (take size b) contents)
        × (s'.registers ≡ snapshot.registers)
        × (w'.machine ≡ w.machine)
        × (w'.printed ≡ w.printed)
        × ((q : ℕ) (c : Bytes) → IsOther q c snapshot w → IsOther q c s' w')
  unfolding capture_region
  capture_region-Holds snapshot contents gpa host_ptr size b w h live le a =
      let regions = snapshot.memory_regions in
      let bytes = take size b in
      let sized : length bytes ≡ size = length-take size b le in
      let w1 = with_block bytes w in
      let h1 = Holds-append w.heap (some bytes ∷ []) regions contents h in
      let fresh = Apart-fresh w.heap regions contents h in
      let mem : AlignedMemory = record { ptr = length w.heap; size = size } in
      (
        captured snapshot gpa size w,
        without regions gpa w1,
        rw (
          new-ok size w a,
          load-prefix host_ptr size b (with_block _ w) (block-append_left host_ptr w.heap _ live)
              le,
          store-fresh bytes size w sized,
          drop_replaced-ok gpa regions contents w1 h1,
        ),
        Holds-insert gpa mem bytes w1.heap regions contents (block-append w.heap (some bytes)) sized
            fresh h1,
        refl,
        refl,
        refl,
        λ q c (here, apart). (
          block-freed q gpa w1.heap regions apart ∙ block-append_left q w.heap _ here,
          Apart-insert q gpa mem regions (λ e. omega (arith, block-lt q w.heap here, e)) apart,
        ),
      )
