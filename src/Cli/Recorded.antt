-- ===== src/Cli/Recorded.antt =====
-- Every archive that the recorder finishes is verified by the replay.
use vestigium.Common.{
  ℕ, suc, ◌≡◌, refl, sym, ap, ◌∙◌, Bool, true, false, List, [], ◌∷◌, length, replicate, ◌==◌,
}
use mathlib.Core.Path.{subst}
use vestigium.Common.Exec.{
  Outcome, ok, err, panic, fault, stuck, Exec, pure, assert, expect, expected, ◌>>=◌,
}
use vestigium.Common.Steps.{bind-ok, bind-step, ok-same}
use vestigium.Platform.{
  Platform, World, Bytes, Heap, done, RegisterValue, RegisterName, query, zero_value, record_hash,
  captured, destination, say, println,
}
use vestigium.Platform.Frame.{answered}
use vestigium.Vmm.Partition.{VmPartition}
use vestigium.Vmm.Vcpu.{Vcpu, get_registers, overwrite}
use vestigium.Engine.Record
use vestigium.Engine.Record.{RecordEngine, RecordState, finalize}
use vestigium.Engine.Record.Memory.{RunsKeep, run-keeps}
use vestigium.Engine.Replay.{restore_snapshot}
use vestigium.Engine.Simulation.{IsSimulation}
use vestigium.Engine.Snapshot.{Snapshot, capture_registers}
use vestigium.Engine.Snapshot.Hash.{Hasher, hash_state}
use vestigium.Engine.Snapshot.Serde.{SavedSnapshot, serialize}
use vestigium.Cli.Layout.{Layout, capture_names, capture_memory_layout}
use vestigium.Cli.Layout.Capture.{HasBytes, HasRoom, capture_memory_layout-Holds}
use vestigium.Cli.Record.{Archive, returning, run_engine, final_state, finish_guest}
use vestigium.Cli.Replay.{replay_guest}
use vestigium.Cli.Verification.{IsObserved, replayer, record_verified}

expected-ok : {A : Type 0} (r : Outcome A) {a : A} → expected r ≡ ok a → r ≡ ok a
expected-ok (ok b) e = e
expected-ok (err c) e = cc e
expected-ok panic e = cc e
expected-ok fault e = cc e
expected-ok stuck e = cc e

expect-ok :
    {S A : Type 0} (m : Exec S A) (s : S) {a : A} {u : S} → expect m s ≡ (ok a, u) → m s ≡ (ok a, u)
expect-ok m s e = λ i. (expected-ok (m s).0 (ap (λ x. x.0) e) i, (e i).1)

returning-ok :
    {B : Type 0} (b : B) (r : Outcome (Unit {0})) {c : B}
    → returning b r ≡ ok c
    → (r ≡ ok tt) × (b ≡ c)
returning-ok b (ok tt) e = (refl, ok-same e)
returning-ok b (err c) e = cc e
returning-ok b panic e = cc e
returning-ok b fault e = cc e
returning-ok b stuck e = cc e

-- The four parts of the guest's memory are live on a heap, with enough bytes.
abbrev pub IsLive : Layout → Heap → Type 0
IsLive layout heap =
    (null : Bytes) × (image : Bytes) × (stack : Bytes) × (table : Bytes) × HasBytes layout heap null
      image stack table

module _ {p : Platform} where
  -- An engine that has run.
  run_engine-ok :
      (fuel : ℕ) (engine engine' : RecordEngine) (w w' : World p)
      → run_engine fuel engine w ≡ (ok engine', w')
      → Record.run fuel (record { engine = engine; world = w })
        ≡ (ok tt, record { engine = engine'; world = w' })
  unfolding run_engine
  run_engine-ok fuel engine engine' w w' e =
      let s = (Record.run fuel (record { engine = engine; world = w })).1 in
      let (ran, same) =
        returning-ok s.engine (Record.run fuel (record { engine = engine; world = w })).0
          (ap (λ x. x.0) e) in
      λ i. (ran i, record { engine = same i; world = (e i).1 })

  assert-same : (b : Bool) (w : World p) → (assert b w).1 ≡ w
  assert-same true w = refl
  assert-same false w = refl

  get_registers-reads :
      (v : Vcpu) (names : List RegisterName) (values : List RegisterValue) (w : World p)
      {r : List RegisterValue} {u : World p}
      → get_registers v names values w ≡ (ok r, u)
      → (answers : List RegisterValue) × (p.read_registers v.partition v.index names w.machine
          ≡ done answers)
  unfolding get_registers
  get_registers-reads v names values w e =
      let b = length names == length values in
      let read = query (p.read_registers v.partition v.index names) in
      let (_, w1, passed, k) =
        bind-ok (assert b) (λ _. read >>= λ answers. pure (overwrite values answers)) w e in
      let (answers, _, got, _) = bind-ok read (λ answers. pure (overwrite values answers)) w1 k in
      let same : w1 ≡ w = ap (λ x. x.1) (sym passed) ∙ assert-same b w in
      (
        answers,
        ap (λ u. p.read_registers v.partition v.index names u.machine) (sym same)
            ∙ answered (p.read_registers v.partition v.index names w1.machine) (ap (λ x. x.0) got),
      )

  -- A capture of registers that succeeds has read them.
  capture_registers-reads :
      (s : Snapshot) (v : Vcpu) (names : List RegisterName) (w : World p) {s' : Snapshot}
      {u : World p}
      → capture_registers s v names w ≡ (ok s', u)
      → (answers : List RegisterValue) × (p.read_registers v.partition v.index names w.machine
          ≡ done answers)
  unfolding capture_registers
  capture_registers-reads s v names w e =
      let values = replicate (length names) zero_value in
      let (_, _, read, _) =
        bind-ok (get_registers v names values) (λ values. pure (record s { registers = values })) w
          e in
      get_registers-reads v names values w read

  -- The calls after the final registers, after the run, after the final state, and after the save.
  abbrev with_hash : Hasher → Snapshot → Exec (World p) (Snapshot × ℕ)
  with_hash h s = hash_state h s >>= λ hash. pure (s, hash)

  abbrev made : RecordEngine → Snapshot × ℕ → SavedSnapshot → Exec (World p) (Snapshot × Archive)
  made engine last saved =
      pure (last.0, record { snapshot = saved; events = finalize engine; hash = last.1 })

  abbrev archiving : Snapshot → RecordEngine → Snapshot × ℕ → Exec (World p) (Snapshot × Archive)
  archiving snapshot engine last = println (record_hash last.1) >>= λ _.
      println (captured (length (finalize engine))) >>= λ _.
      println destination >>= λ _. serialize snapshot >>= made engine last

  abbrev ending :
      Hasher → Vcpu → Layout → Snapshot → RecordEngine → Exec (World p) (Snapshot × Archive)
  ending h v layout snapshot engine = final_state h v layout >>= archiving snapshot engine

  -- The registers that a final state holds have been read, from the world after the run.
  final_state-reads :
      (h : Hasher) (v : Vcpu) (layout : Layout) (null image stack table : Bytes) (w : World p)
      {r : Snapshot × ℕ} {u : World p}
      → HasRoom p layout
      → HasBytes layout w.heap null image stack table
      → final_state h v layout w ≡ (ok r, u)
      → (answers : List RegisterValue) × (p.read_registers v.partition v.index capture_names
            w.machine
          ≡ done answers)
  unfolding final_state
  final_state-reads h v layout null image stack table w room bytes e =
      let (s, w1, run, _, machine, _) =
        capture_memory_layout-Holds layout null image stack table w room bytes in
      let (_, _, took, _) =
        bind-ok (expect (capture_registers s v capture_names)) (with_hash h) w1 (
          sym (
            bind-step (capture_memory_layout layout)
              (λ s. expect (capture_registers s v capture_names) >>= with_hash h) w run)
          ∙ e) in
      let (answers, reads) =
        capture_registers-reads s v capture_names w1
          (expect-ok (capture_registers s v capture_names) w1 took) in
      (
        answers,
        ap (λ m. p.read_registers v.partition v.index capture_names m) (sym machine) ∙ reads,
      )

module _ {p : Platform} (R : World p → World p → Type 0) (part part' : VmPartition) (v v' : Vcpu)
    (layout : Layout) (snapshot snapshot' : Snapshot) where
  -- Let the two processors answer alike in worlds related by `R`, which also relates the recorded
  -- guest's memory to the buffers of a snapshot that is restored, and let the guest's runs keep that
  -- memory live. If the recorder, started with live memory and with room to copy it, has made an
  -- archive, then the replay of the archive succeeds from every restored snapshot that is related to
  -- the start of the recording: its verification finds the archive's hash.
  pub finish_guest-verified :
      (k fuel : ℕ) (h : Hasher) (last : Snapshot) (archive : Archive) (w w' x0 x : World p)
      → IsSimulation R part part' v v'
      → IsObserved R layout snapshot'.memory_regions
      → HasRoom p layout
      → RunsKeep p (IsLive layout)
      → IsLive layout w.heap
      → finish_guest fuel h part layout v snapshot w ≡ (ok (last, archive), w')
      → restore_snapshot (replayer part' v') snapshot' capture_names x0 ≡ (ok tt, x)
      → R w x
      → (final : Snapshot) × (x' : World p) × (replay_guest (suc k) h part' v' snapshot' archive x0
          ≡ (ok final, x'))
  unfolding finish_guest
  finish_guest-verified k fuel h last archive w w' x0 x sim obs room keep live e restore r =
      let start : RecordState p = record { engine = Record.new part v; world = w } in
      let (engine, w1, e1, k1) =
        bind-ok (expect (run_engine fuel (Record.new part v))) (ending h v layout snapshot) w e in
      let ran =
        run_engine-ok fuel (Record.new part v) engine w w1
          (expect-ok (run_engine fuel (Record.new part v)) w e1) in
      let (null, image, stack, table, bytes) =
        subst (λ (s : Outcome (Unit {0}) × RecordState p). IsLive layout s.1.world.heap) ran
          (run-keeps (IsLive layout) keep fuel start live) in
      let (pair, w2, e2, k2) = bind-ok (final_state h v layout) (archiving snapshot engine) w1 k1 in
      let (answers, reads) = final_state-reads h v layout null image stack table w1 room bytes e2 in
      let (saved, w3, e3, k3) =
        bind-ok (serialize snapshot) (made engine pair)
          (say (destination ∷ [])
            (say (captured (length (finalize engine)) ∷ []) (say (record_hash pair.1 ∷ []) w2)))
          k2 in
      let (hash, last', _, ends, final, x', verified) =
        record_verified R part part' v v' layout snapshot' k fuel h saved w x0 x
          (record { engine = engine; world = w1 }) null image stack table answers sim obs ran room
          bytes reads restore r in
      let same_hash : hash ≡ pair.1 =
        ap (λ (q : Snapshot × ℕ). q.1) (ok-same (ap (λ q. q.0) (sym ends ∙ e2))) in
      let same : record { snapshot = saved; events = finalize engine; hash = hash } ≡ archive =
        ap (λ n. record { snapshot = saved; events = finalize engine; hash = n }) same_hash
        ∙ ap (λ (q : Snapshot × Archive). q.1) (ok-same (ap (λ q. q.0) k3)) in
      (final, x', ap (λ a. replay_guest (suc k) h part' v' snapshot' a x0) (sym same) ∙ verified)
