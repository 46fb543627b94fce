-- ===== src/Tests/Recorded.antt =====
-- An archive that the recorder has finished, and its replay.
use vestigium.Common.{ℕ, ◌≡◌, refl, [], ◌∷◌, length}
use vestigium.Common.Exec.{ok}
use vestigium.Platform.{World, say, destination, captured, record_hash}
use vestigium.Engine.Record.{finalize}
use vestigium.Engine.Snapshot
use vestigium.Engine.Snapshot.{Snapshot}
use vestigium.Engine.Snapshot.Serde.{serialize, serialize_regions}
use vestigium.Cli.Record.{Archive, run_engine, final_state, finish_guest}
use vestigium.Cli.Replay.{replay_guest}
use vestigium.Cli.Verification.{final_state-ok}
use vestigium.Cli.Recorded.{finish_guest-verified}
use vestigium.Tests.Toy.{toy}
use vestigium.Tests.Hashing.{hasher}
use vestigium.Tests.Pipeline.{partition, vcpu}
use vestigium.Tests.EndToEnd.{
  null, image, stack, table, layout, snapshot, begun, restored, recorded, ran, roomy, ends_with,
  restores, answers, Related, Related-IsSimulation, Related-IsObserved,
}
use vestigium.Tests.Snapshots.{begun-HasBytes}

ended :
    (last : Snapshot) × (hash : ℕ) × (w : World toy) × (final_state hasher vcpu layout
        recorded.world
      ≡ (ok (last, hash), w))
ended =
    let (last, w, e) =
      final_state-ok hasher vcpu layout null image stack table answers recorded.world roomy
        ends_with refl in
    (last, _, w, e)

finished :
    (last : Snapshot) × (archive : Archive) × (w : World toy) × (finish_guest 9 hasher partition
        layout vcpu Snapshot.new begun
      ≡ (ok (last, archive), w))
unfolding finish_guest run_engine serialize serialize_regions
finished =
    let (last, hash, w, e) = ended in
    (
      last,
      record {
        snapshot = record { memory_regions = []; registers = [] };
        events = finalize recorded.engine;
        hash = hash;
      },
      say (destination ∷ [])
          (say (captured (length (finalize recorded.engine)) ∷ []) (say (record_hash hash ∷ []) w)),
      rw (ran, e) refl,
    )

finish_guest-verified_example :
    (final : Snapshot) × (x' : World toy) × (replay_guest 1 hasher partition vcpu snapshot
        finished.1 restored
      ≡ (ok final, x'))
finish_guest-verified_example =
    finish_guest-verified Related partition partition vcpu vcpu layout Snapshot.new snapshot 0 9
      hasher finished.0 finished.1 begun finished.2 restored restored Related-IsSimulation
      Related-IsObserved roomy (λ h i m heap live. live) (null, image, stack, table, begun-HasBytes)
      finished.3 restores (refl, refl, refl)
