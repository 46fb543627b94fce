-- ===== src/Cli/Archive.antt =====
-- From the recorder's snapshot, through the archive, to the memory of the replayed guest.
use vestigium.Common.{ℕ, ◌≡◌, sym, ap, ◌∙◌, some, Option, [], ◌∷◌, List, arith}
use mathlib.Core.Path.{subst}
use vestigium.Common.Steps.{ok-same}
use vestigium.Common.Exec.{ok}
use vestigium.Common.HashMap.{HashMap, IsDistinct}
use vestigium.Platform.{Platform, World, Bytes, Heap, RegisterName}
use vestigium.Vmm.Partition.{as_raw}
use vestigium.Engine.Memory.{AlignedMemory}
use vestigium.Engine.Snapshot.{Snapshot}
use vestigium.Engine.Snapshot.Holds.{Holds}
use vestigium.Engine.Snapshot.Serde.{SavedSnapshot, serialize, deserialize}
use vestigium.Engine.Snapshot.Serde.Snapshots.{AllAllocate, snapshot-round_trip}
use vestigium.Engine.Snapshot.Serde.RoundTrip.{AreValues}
use vestigium.Engine.Replay.{ReplayEngine, restore_snapshot}
use vestigium.Engine.Replay.Translation.{Translates, Outside, AreDisjoint, byte_at, host_byte}
use vestigium.Engine.Replay.Restored.{restore_snapshot-Reads}

-- Buffers that stand for the same contents lie at the same addresses.
Holds-Outside :
    (a : ℕ) (heap heap' : Heap) (regions regions' : HashMap AlignedMemory)
    (contents : HashMap Bytes)
    → Holds heap regions contents
    → Holds heap' regions' contents
    → Outside a regions
    → Outside a regions'
Holds-Outside a heap heap' regions [] contents h h' out = tt
Holds-Outside a heap heap' [] (r ∷ regions') [] h h' out = elim h' [ ]
Holds-Outside a heap heap' [] (r ∷ regions') (c ∷ contents) h h' out = elim h [ ]
Holds-Outside a heap heap' (r ∷ regions) (r' ∷ regions') [] h h' out = elim h [ ]
Holds-Outside a heap heap' ((gpa, mem) ∷ regions) ((gpa', mem') ∷ regions') ((at, bytes) ∷ contents)
      (e, live, sized, apart, h) (e', live', sized', apart', h') (o, out) =
    (
      ground (arith, e, e', sized, sized', o),
      Holds-Outside a heap heap' regions regions' contents h h' out,
    )

pub Holds-AreDisjoint :
    (heap heap' : Heap) (regions regions' : HashMap AlignedMemory) (contents : HashMap Bytes)
    → Holds heap regions contents
    → Holds heap' regions' contents
    → AreDisjoint regions
    → AreDisjoint regions'
Holds-AreDisjoint heap heap' regions [] contents h h' d = tt
Holds-AreDisjoint heap heap' [] (r ∷ regions') [] h h' d = elim h' [ ]
Holds-AreDisjoint heap heap' [] (r ∷ regions') (c ∷ contents) h h' d = elim h [ ]
Holds-AreDisjoint heap heap' (r ∷ regions) (r' ∷ regions') [] h h' d = elim h [ ]
Holds-AreDisjoint heap heap' ((gpa, mem) ∷ regions) ((gpa', mem') ∷ regions')
      ((at, bytes) ∷ contents) (e, live, sized, apart, h) (e', live', sized', apart', h')
      (alone, d) =
    (
      λ a low high.
          Holds-Outside a heap heap' regions regions' contents h h'
            (alone a (ground (arith, e, e', low)) (ground (arith, e, e', sized, sized', high))),
      Holds-AreDisjoint heap heap' regions regions' contents h h' d,
    )

-- The buffers of a snapshot stand for some contents, and no two of its regions share an address. The
-- snapshot is saved, read back with room for its buffers, and restored, by calls that succeed, the
-- last in a world with the heap that the reading has left, on a partition whose mappings translate as
-- documented. The guest then reads at each address of the contents the byte they have there.
pub archive-Reads :
    {p : Platform} (h : ℕ) (at : p.Machine → ℕ → Option (ℕ × ℕ)) (engine : ReplayEngine)
    (names : List RegisterName) (s s' : Snapshot) (saved : SavedSnapshot) (contents : HashMap Bytes)
    (a b : ℕ) (w w' x x' y y' : World p)
    → Translates p h at
    → as_raw engine.partition ≡ h
    → Holds w.heap s.memory_regions contents
    → IsDistinct contents
    → AreValues s.registers
    → AllAllocate p contents
    → AreDisjoint s.memory_regions
    → serialize s w ≡ (ok saved, w')
    → deserialize saved x ≡ (ok s', x')
    → y.heap ≡ x'.heap
    → restore_snapshot engine s' names y ≡ (ok tt, y')
    → byte_at contents a ≡ some b
    → host_byte y'.heap (at y'.machine a) ≡ some b
archive-Reads h at engine names s s' saved contents a b w w' x x' y y' translates same holds
      distinct values room disjoint written read heap_same restored found =
    let (saved2, s2, x2, written2, _, _, read2, holds2, _, _, _) =
      snapshot-round_trip s contents w x holds distinct values room in
    let saved_same : saved2 ≡ saved = ok-same (ap (λ r. r.0) (sym written2 ∙ written)) in
    let read_same : (ok s2, x2) ≡ (ok s', x') =
      sym read2 ∙ ap (λ v. deserialize v x) saved_same ∙ read in
    let s_same : s2 ≡ s' = ok-same (ap (λ r. r.0) read_same) in
    let x_same : x2.heap ≡ y.heap = ap (λ r. r.1.heap) read_same ∙ sym heap_same in
    let holds' : Holds y.heap s'.memory_regions contents =
      subst (λ (k : Snapshot × Heap). Holds k.1 k.0.memory_regions contents)
        (λ i. (s_same i, x_same i)) holds2 in
    restore_snapshot-Reads h at translates engine s' names contents a b y y' same holds'
      (Holds-AreDisjoint w.heap y.heap s.memory_regions s'.memory_regions contents holds holds'
        disjoint)
      restored found
