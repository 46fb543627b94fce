-- ===== src/Tests/Hashing.antt =====
-- Two snapshots of the same state, with the regions and the host buffers in another order.
use vestigium.Common.{
  ℕ, ◌+◌, ◌*◌, ◌≡◌, refl, arith, some, [], ◌∷◌, ◌==◌, false, Bool-cases, inl, inr,
}
use mathlib.Core.List.{Permᴰ, foldr}
use vestigium.Platform.{World, of_reg64, load}
use vestigium.Engine.Snapshot.{Snapshot}
use vestigium.Engine.Snapshot.Hash.{Hasher, hash_state, region}
use vestigium.Engine.Snapshot.Order.{hash_state-SameState}
use vestigium.Tests.Toy.{toy, start}

abbrev pub hasher : Hasher
hasher = record {
  State = ℕ;
  start = 17;
  write_u64 = λ x st. st * 31 + x;
  write_slice = λ bytes st. foldr (λ x n. n * 31 + x) st bytes;
  finish = λ st. st;
}

abbrev recorded_state : Snapshot
recorded_state = record {
  memory_regions = (0, record { ptr = 0; size = 2 }) ∷ (16, record { ptr = 1; size = 1 }) ∷ [];
  registers = of_reg64 3 ∷ [];
}

abbrev replayed_state : Snapshot
replayed_state = record {
  memory_regions = (16, record { ptr = 0; size = 1 }) ∷ (0, record { ptr = 1; size = 2 }) ∷ [];
  registers = record { reg64 = 3; high = 9 } ∷ [];
}

abbrev recorded_world : World toy
recorded_world = record start { heap = some (1 ∷ 2 ∷ []) ∷ some (7 ∷ []) ∷ [] }

abbrev replayed_world : World toy
replayed_world = record start { heap = some (7 ∷ []) ∷ some (1 ∷ 2 ∷ []) ∷ [] }

same_regions :
    (gpa : ℕ)
    → (region recorded_state gpa recorded_world).0 ≡ (region replayed_state gpa replayed_world).0
unfolding region load
same_regions gpa = elim (Bool-cases (0 == gpa)) [
  | inl a ↦ let b : (16 == gpa) ≡ false = ground arith in rw (a, b)
  | inr a ↦ elim (Bool-cases (16 == gpa)) [ inl b ↦ rw (a, b) | inr b ↦ rw (a, b) ]
]

hash_state-SameState_example :
    (hash_state hasher recorded_state recorded_world).0
    ≡ (hash_state hasher replayed_state replayed_world).0
hash_state-SameState_example =
    hash_state-SameState hasher recorded_state replayed_state recorded_world replayed_world
      (record { registers = refl; gpas = ∣ Permᴰ.swap refl refl ∣₁; bytes = same_regions })
