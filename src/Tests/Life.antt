-- ===== src/Tests/Life.antt =====
-- The life of a partition, on a hypervisor that lists its partitions.
use vestigium.Common.{ℕ, Bool, true, false, ◌≡◌, refl, ap, List, [], ◌∷◌, map, if◌then◌else◌, arith}
use vestigium.Common.Exec.{ok, err}
use vestigium.Platform.{Platform, World, done, failed, zero_value}
use vestigium.Vmm.Partition.{new, drop_partition}
use vestigium.Vmm.Partition.Life.{Tracks, remove, new-leaks, new-drop_partition}
use vestigium.Tests.Toy.{exit_at}

abbrev listing : Bool → Platform
listing refuses = record {
  Machine = List ℕ;
  create_partition = λ m. (done 7, 7 ∷ m);
  set_property = λ h q m. (done tt, m);
  setup_partition = λ h m. (if refuses then failed 5 else done tt, m);
  delete_partition = λ h m. remove h m;
  create_processor = λ h i m. (done tt, m);
  delete_processor = λ h i m. m;
  read_registers = λ h i names m. done (map (λ n. zero_value) names);
  write_registers = λ h i names values m. (done tt, m);
  map_range = λ h a g s f m. (done tt, m);
  run_processor = λ h i m heap. (done (exit_at 7), m, heap);
  segment = λ s. zero_value;
  has_room = λ heap size. true;
  overflow_checks = false;
}

seven : {h : ℕ} → done 7 ≡ done h → 7 ≡ h
seven e = cc e

listing-Tracks : (refuses : Bool) → Tracks (listing refuses) (λ m. m)
listing-Tracks refuses = record {
  created = λ h m e. ap (λ k. k ∷ m) (seven e);
  set = λ h q m. refl;
  set_up = λ h m. refl;
  deleted = λ h m. refl;
}

abbrev empty : (refuses : Bool) → World (listing refuses)
empty refuses = record { machine = 3 ∷ []; heap = []; printed = [] }

abbrev after : (refuses : Bool) → World (listing refuses)
after refuses = record { machine = 7 ∷ 3 ∷ []; heap = []; printed = [] }

refused : new (empty true) ≡ (err 5, after true)
unfolding new
refused = refl

made : new (empty false) ≡ (ok (record { handle = 7 }), after false)
unfolding new
made = refl

new-leaks_example : (after true).machine ≡ 7 ∷ 3 ∷ []
new-leaks_example =
    new-leaks (λ m. m) (listing-Tracks true) 7 5 (empty true) (after true) refl refused

new-drop_partition_example :
    (w'' : World (listing false)) × ((after false).machine ≡ 7 ∷ 3 ∷ [])
    × (drop_partition (record { handle = 7 }) (after false) ≡ (ok tt, w''))
    × (w''.machine ≡ 3 ∷ [])
new-drop_partition_example =
    new-drop_partition (λ m. m) (listing-Tracks false) (record { handle = 7 }) (empty false)
      (after false) made (omega arith)
