-- ===== src/Tests/Images.antt =====
-- A file of six bytes with one section, and one whose section lies outside of its image.
use vestigium.Common.{ℕ, ◌<◌, ◌≤◌, ◌+◌, ◌%◌, ◌≡◌, refl, arith, [], ◌∷◌, some, inr}
use vestigium.Common.Exec.{ok, fault}
use vestigium.Platform.{World}
use vestigium.Engine.Loader.{Section, PeLoader, image_size, map_into_memory}
use vestigium.Engine.Loader.Mapping.{IsImage, map_into_memory-IsImage, map_into_memory-bad}
use vestigium.Tests.Toy.{toy, start}

abbrev loader_of : Section → PeLoader
loader_of s = record {
  pe = record { entry = 4; size_of_image = some 5000; sections = s ∷ [] };
  raw_bytes = 10 ∷ 20 ∷ 30 ∷ 40 ∷ 50 ∷ 60 ∷ [];
}

abbrev pub inside : PeLoader
inside =
    loader_of (record { virtual_address = 4096; pointer_to_raw_data = 2; size_of_raw_data = 3 })

abbrev outside : Section
outside = record { virtual_address = 9000; pointer_to_raw_data = 2; size_of_raw_data = 3 }

map_into_memory-IsImage_example :
    (ptr size : ℕ) × (w' : World toy) × (map_into_memory inside start ≡ (ok (ptr, size), w'))
    × (size % 4096 ≡ 0)
    × (image_size inside ≤ size)
    × (size < image_size inside + 4096)
    × IsImage inside ptr size w'
map_into_memory-IsImage_example =
    map_into_memory-IsImage inside start (omega arith) (omega arith) refl
      (λ _. record { in_file = omega arith; in_image = omega arith }, tt)

map_into_memory-bad_example : (map_into_memory (loader_of outside) start).0 ≡ fault
map_into_memory-bad_example =
    map_into_memory-bad (loader_of outside) start [] outside [] refl (omega arith) (omega arith)
      refl tt refl (inr (omega arith))
