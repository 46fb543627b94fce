-- ===== src/Engine/Snapshot/Serde/Snapshots.antt =====
-- A whole snapshot, with its buffers, through the trace file.
use vestigium.Common.{◌≡◌, refl, some, [], ◌∷◌, ◌++◌, map, length}
use mathlib.Core.Path.{subst}
use vestigium.Common.Exec.{ok}
use vestigium.Common.HashMap.{HashMap, insert, IsDistinct, insert_all, insert_all-same}
use vestigium.Common.Words.{u64_bytes}
use vestigium.Platform.{Platform, World, Bytes, Heap, RegisterValue}
use vestigium.Platform.Access.{block-append}
use vestigium.Platform.Whole.{with_block}
use vestigium.Engine.Memory.{AlignedMemory}
use vestigium.Engine.Memory.Alloc.{Allocates}
use vestigium.Engine.Snapshot.{Snapshot}
use vestigium.Engine.Snapshot.Capture.{drop_replaced-ok, without}
use vestigium.Engine.Snapshot.Holds.{Holds, Holds-append, Apart-fresh, Holds-insert}
use vestigium.Engine.Snapshot.Serde.{
  SavedSnapshot, serialize_regions, deserialize_regions, serialize, deserialize,
  serialize_registers, deserialize_registers,
}
use vestigium.Engine.Snapshot.Serde.RoundTrip.{
  AreValues, serialize_memory-ok, deserialize_memory-ok, deserialize_registers-serialize_registers,
}

-- Buffers for these bytes can be allocated on any heap.
abbrev pub AllAllocate : Platform → HashMap Bytes → Type 0
AllAllocate p [] = Unit
AllAllocate p ((gpa, b) ∷ contents) =
    ((heap : Heap) → Allocates p heap (length b)) × AllAllocate p contents

module _ {p : Platform} where
  serialize_regions-Holds :
      (regions : HashMap AlignedMemory) (contents : HashMap Bytes) (w : World p)
      → Holds w.heap regions contents
      → serialize_regions regions w ≡ (ok contents, w)
  unfolding serialize_regions
  serialize_regions-Holds [] [] w h = refl
  serialize_regions-Holds [] (c ∷ contents) w h = elim h [ ]
  serialize_regions-Holds (r ∷ regions) [] w h = elim h [ ]
  serialize_regions-Holds ((gpa, mem) ∷ regions) ((at, b) ∷ contents) w (e, live, sized, apart, h) =
      rw (serialize_memory-ok mem b w live sized, serialize_regions-Holds regions contents w h, e)

  -- The entries are added to what the buffers made so far stand for.
  deserialize_regions-Holds :
      (regions : HashMap AlignedMemory) (contents saved : HashMap Bytes) (w : World p)
      → Holds w.heap regions contents
      → AllAllocate p saved
      → (regions' : HashMap AlignedMemory) × (w' : World p) × (deserialize_regions regions saved w
          ≡ (ok regions', w'))
        × Holds w'.heap regions' (insert_all contents saved)
        × (w'.machine ≡ w.machine)
        × (w'.printed ≡ w.printed)
  unfolding deserialize_regions
  deserialize_regions-Holds regions contents [] w h a = (regions, w, refl, h, refl, refl)
  deserialize_regions-Holds regions contents ((gpa, b) ∷ saved) w h (a, rest) =
      let mem : AlignedMemory = record { ptr = length w.heap; size = length b } in
      let w1 = with_block b w in
      let h1 = Holds-append w.heap (some b ∷ []) regions contents h in
      let (regions', w', run, held, m, o) =
        deserialize_regions-Holds (insert gpa mem regions) (insert gpa b contents) saved
          (without regions gpa w1)
          (Holds-insert gpa mem b w1.heap regions contents (block-append w.heap (some b)) refl
            (Apart-fresh w.heap regions contents h) h1)
          rest in
      (
        regions',
        w',
        rw (deserialize_memory-ok b w (a w.heap), drop_replaced-ok gpa regions contents w1 h1) run,
        held,
        m,
        o,
      )

  -- A snapshot whose buffers stand for `contents` is saved as `contents` and the 16 bytes of each register, low half first; read back
  -- in any world with room for its buffers, it has the same registers, and buffers of its own that
  -- stand for the same contents. Machine and output are left as they are.
  pub snapshot-round_trip :
      (s : Snapshot) (contents : HashMap Bytes) (w x : World p)
      → Holds w.heap s.memory_regions contents
      → IsDistinct contents
      → AreValues s.registers
      → AllAllocate p contents
      → (saved : SavedSnapshot) × (s' : Snapshot) × (x' : World p) × (serialize s w ≡ (ok saved, w))
        × (saved.memory_regions ≡ contents)
        × (saved.registers
            ≡ map (λ (r : RegisterValue). u64_bytes r.reg64 ++ u64_bytes r.high) s.registers)
        × (deserialize saved x ≡ (ok s', x'))
        × Holds x'.heap s'.memory_regions contents
        × (s'.registers ≡ s.registers)
        × (x'.machine ≡ x.machine)
        × (x'.printed ≡ x.printed)
  unfolding serialize deserialize
  snapshot-round_trip s contents w x h d v a =
      let (regions, x', run, held, m, o) = deserialize_regions-Holds [] [] contents x tt a in
      (
        record { memory_regions = contents; registers = serialize_registers s.registers },
        record {
          memory_regions = regions;
          registers = deserialize_registers (serialize_registers s.registers);
        },
        x',
        rw (serialize_regions-Holds s.memory_regions contents w h),
        refl,
        refl,
        rw run,
        subst (λ c. Holds x'.heap regions c) (insert_all-same contents d) held,
        deserialize_registers-serialize_registers s.registers v,
        m,
        o,
      )
