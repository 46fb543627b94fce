-- ===== src/Tests/Snapshots.antt =====
-- Snapshots on concrete heaps.
use vestigium.Common.{ℕ, ◌+◌, ◌*◌, ◌/◌, ◌≤◌, ◌≡◌, ◌↔◌, refl, some, [], ◌∷◌, arith}
use vestigium.Common.Exec.{ok}
use vestigium.Common.HashMap.{HashMap}
use mathlib.Core.List.Perm
use vestigium.Platform.{World, Bytes, block, of_reg64}
use vestigium.Platform.Access.{length-zeroed}
use vestigium.Engine.Snapshot.{Snapshot, capture_region}
use vestigium.Engine.Snapshot.Hash.{hash_state}
use vestigium.Engine.Snapshot.Holds.{Apart, Holds}
use vestigium.Engine.Snapshot.Capture.{IsOther, capture_region-Holds}
use vestigium.Engine.Snapshot.Reference.{reference_hash, hash_state-reference}
use vestigium.Engine.Snapshot.Serde.{SavedSnapshot, serialize, deserialize}
use vestigium.Engine.Snapshot.Serde.Snapshots.{snapshot-round_trip}
use vestigium.Cli.Layout.{stack_size, base_gpa, stack_base, capture_memory_layout, drop_regions}
use vestigium.Cli.Layout.Bounds.{AreSeparate, layout-AreSeparate}
use vestigium.Cli.Layout.Capture.{HasBytes, contents_of, capture_memory_layout-Holds}
use vestigium.Cli.Layout.Drop.{AreFreed, drop_regions-AreFreed}
use vestigium.Tests.Toy.{toy, start}
use vestigium.Tests.Hashing.{hasher}
use vestigium.Tests.EndToEnd.{
  null, image, stack, table, layout, snapshot, begun, restored, roomy, buffers-Holds,
}

-- a snapshot of one region, which is captured again
abbrev old : Snapshot
old = record { memory_regions = (16, record { ptr = 0; size = 2 }) ∷ []; registers = [] }

abbrev old_contents : HashMap Bytes
old_contents = (16, 1 ∷ 2 ∷ []) ∷ []

abbrev two_blocks : World toy
two_blocks = record start { heap = some (1 ∷ 2 ∷ []) ∷ some (7 ∷ 8 ∷ 9 ∷ []) ∷ [] }

old-Holds : Holds two_blocks.heap old.memory_regions old_contents
old-Holds = (refl, refl, refl, tt, tt)

capture_region-Holds_example :
    (s' : Snapshot) × (w' : World toy) × (capture_region old 16 1 2 two_blocks ≡ (ok s', w'))
    × Holds w'.heap s'.memory_regions ((16, 7 ∷ 8 ∷ []) ∷ [])
    × (s'.registers ≡ [])
    × (w'.machine ≡ start.machine)
    × (w'.printed ≡ [])
    × ((q : ℕ) (c : Bytes) → IsOther q c old two_blocks → IsOther q c s' w')
capture_region-Holds_example =
    capture_region-Holds old old_contents 16 1 2 (7 ∷ 8 ∷ 9 ∷ []) two_blocks old-Holds refl
      (omega arith) (record { positive = omega arith; small = omega arith; room = refl })

-- two regions, the higher address first, and a register
abbrev two_regions : Snapshot
two_regions = record {
  memory_regions = (32, record { ptr = 1; size = 3 }) ∷ (16, record { ptr = 0; size = 2 }) ∷ [];
  registers = of_reg64 5 ∷ [];
}

abbrev two_contents : HashMap Bytes
two_contents = (32, 7 ∷ 8 ∷ 9 ∷ []) ∷ (16, 1 ∷ 2 ∷ []) ∷ []

hash_state-reference_example : hash_state hasher two_regions two_blocks ≡ (
  ok (reference_hash hasher (5 ∷ []) ((16, 1 ∷ 2 ∷ []) ∷ (32, 7 ∷ 8 ∷ 9 ∷ []) ∷ [])),
  two_blocks,
)
hash_state-reference_example =
    hash_state-reference hasher two_regions two_contents two_blocks
      (refl, refl, refl, ((omega arith), tt), (refl, refl, refl, tt, tt))
      ((16, 1 ∷ 2 ∷ []) ∷ (32, 7 ∷ 8 ∷ 9 ∷ []) ∷ [])
      (record {
        addresses = Perm.swap 16 32 [];
        ascending = (omega arith, tt);
        bytes = (refl, (refl, tt));
      })

snapshot-round_trip_example :
    (saved : SavedSnapshot) × (s' : Snapshot) × (x' : World toy) × (serialize old two_blocks
      ≡ (ok saved, two_blocks))
    × (saved.memory_regions ≡ old_contents)
    × (saved.registers ≡ [])
    × (deserialize saved start ≡ (ok s', x'))
    × Holds x'.heap s'.memory_regions old_contents
    × (s'.registers ≡ [])
    × (x'.machine ≡ start.machine)
    × (x'.printed ≡ [])
snapshot-round_trip_example =
    snapshot-round_trip old old_contents two_blocks start old-Holds (refl, tt) tt
      (λ heap. record { positive = omega arith; small = omega arith; room = refl }, tt)

drop_regions-AreFreed_example :
    (w' : World toy) × (drop_regions snapshot.memory_regions restored ≡ (ok tt, w'))
    × AreFreed w'.heap snapshot.memory_regions
    × (w'.machine ≡ restored.machine)
    × ((q : ℕ) → Apart q snapshot.memory_regions → block q w'.heap ≡ block q restored.heap)
drop_regions-AreFreed_example =
    drop_regions-AreFreed snapshot.memory_regions (contents_of layout null image stack table)
      restored buffers-Holds

pub begun-HasBytes : HasBytes layout begun.heap null image stack table
begun-HasBytes = record {
  null_live = refl;
  null_size = omega (arith, length-zeroed 0x1000);
  image_live = refl;
  image_size = omega arith;
  stack_live = refl;
  stack_sized = omega (arith, length-zeroed stack_size);
  table_live = refl;
  table_size = omega (arith, length-zeroed 12288);
}

capture_memory_layout-Holds_example :
    (s : Snapshot) × (w' : World toy) × (capture_memory_layout layout begun ≡ (ok s, w'))
    × Holds w'.heap s.memory_regions (contents_of layout null image stack table)
    × (w'.machine ≡ begun.machine)
    × (w'.printed ≡ [])
capture_memory_layout-Holds_example =
    capture_memory_layout-Holds layout null image stack table begun roomy begun-HasBytes

layout-AreSeparate_example :
    (s : ℕ) × (stack_base 0xF1000 start ≡ (ok s, start))
    × (s ≡ base_gpa + (0xF1000 + 4095) / 4096 * 4096)
    × (AreSeparate 0xF1000 s ↔ ((0xF1000 + 4095) / 4096 * 4096 ≤ 0xF0000))
layout-AreSeparate_example = layout-AreSeparate 0xF1000 start (omega arith)
