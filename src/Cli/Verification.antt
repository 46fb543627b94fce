-- ===== src/Cli/Verification.antt =====
-- The two commands end to end: the replay's verification succeeds on what was recorded.
use vestigium.Common.{
  ℕ, suc, ◌≡◌, refl, sym, ap, ◌∙◌, true, Bool-cases, inl, inr, List, [], ◌∷◌, length, replicate,
  ◌==◌, ==_refl,
}
use mathlib.Core.Path.{subst}
use vestigium.Common.Exec.{ok, Exec, continue, pure}
use vestigium.Common.HashMap.{HashMap}
use vestigium.Platform.{
  Platform, World, Bytes, Answer, done, failed, answer, Message, say, ExitContext, RegisterValue,
  zero_value, rax, restored, replaying_events, replay_finished, expected_hash, replay_hash,
  verified,
}
use vestigium.Vmm.Partition.{VmPartition}
use vestigium.Vmm.Vcpu.{Vcpu, overwrite, get_registers}
use vestigium.Engine.Runner
use vestigium.Engine.Record
use vestigium.Engine.Record.{RecordState, finalize}
use vestigium.Engine.Replay
use vestigium.Engine.Replay.{ReplayEngine, register_vcpu, restore_snapshot}
use vestigium.Engine.Simulation.{IsSimulation}
use vestigium.Engine.Memory.{AlignedMemory}
use vestigium.Engine.Snapshot.{Snapshot, capture_registers}
use vestigium.Engine.Snapshot.Hash.{Hasher}
use vestigium.Engine.Snapshot.Holds.{Holds}
use vestigium.Engine.Snapshot.Reference.{contents_hash, hash_state-contents}
use vestigium.Engine.Snapshot.Serde.{SavedSnapshot}
use vestigium.Cli.Determinism.{record_replay}
use vestigium.Cli.Layout.{Layout, capture_names}
use vestigium.Cli.Layout.Capture.{HasBytes, HasRoom, contents_of, capture_memory_layout-Holds}
use vestigium.Cli.Record.{Archive, final_state}
use vestigium.Cli.Replay.{halt_line, handle_vm_exit, run_rest, verify, replay_guest}

-- The registers of a capture, from what the processor answers.
abbrev pub captured_values : List RegisterValue → List RegisterValue
captured_values answers = overwrite (replicate (length capture_names) zero_value) answers

module _ {p : Platform} where
  capture_registers-ok :
      (s : Snapshot) (v : Vcpu) (answers : List RegisterValue) (w : World p)
      → p.read_registers v.partition v.index capture_names w.machine ≡ done answers
      → capture_registers s v capture_names w
        ≡ (ok (record s { registers = captured_values answers }), w)
  unfolding capture_registers get_registers
  capture_registers-ok s v answers w e = rw e

  -- What the run after the trace leaves, but for what it prints.
  abbrev SameBut : World p → World p → Type 0
  SameBut u w = (u.machine ≡ w.machine) × (u.heap ≡ w.heap)

  abbrev Prints : Exec (World p) (Unit {0}) → World p → Type 0
  Prints m u = (t : World p) × (m u ≡ (ok tt, t)) × SameBut t u

  halt_read : Vcpu → Exec (World p) (Unit {0})
  halt_read v w = let (r, w') = get_registers v (rax ∷ []) (zero_value ∷ []) w in halt_line r w'

  halt_read-Prints : (v : Vcpu) (u : World p) → Prints (halt_read v) u
  unfolding halt_read get_registers
  halt_read-Prints v u =
      elim (p.read_registers v.partition v.index (rax ∷ []) u.machine)
        as (λ (a : Answer (List RegisterValue)).
          Prints
            (λ w.
              let (r, w') =
                continue (answer a) (λ answers. pure (overwrite (zero_value ∷ []) answers)) w in
              halt_line r w')
            u) [ done values ↦ (_, refl, (refl, refl)) | failed e ↦ (_, refl, (refl, refl)) ]

  handled-Prints :
      (v : Vcpu) (exit : ExitContext) (u : World p) → Prints (handle_vm_exit v (ok exit)) u
  unfolding handle_vm_exit halt_read
  handled-Prints v exit u = elim (Bool-cases (exit.exit_reason == 1)) [
    | inl a ↦ rw a (_, refl, (refl, refl))
    | inr a ↦ elim (Bool-cases (exit.exit_reason == 8)) [
      | inl b ↦ rw (a, b) (halt_read-Prints v u)
      | inr b ↦ rw (a, b) (_, refl, (refl, refl))
    ]
  ]

  run_rest-SameBut :
      (part : VmPartition) (v : Vcpu) (exit : ExitContext) (w u : World p)
      → Runner.run (Runner.new part v) w ≡ (ok exit, u)
      → (t : World p) × (run_rest part v w ≡ (ok tt, t)) × SameBut t u
  unfolding run_rest
  run_rest-SameBut part v exit w u e =
      let (t, run, same) = handled-Prints v exit u in
      (t, ap (λ r. handle_vm_exit v r.0 r.1) e ∙ run, same)

  verify-ok :
      (h : Hasher) (v : Vcpu) (s : Snapshot) (contents : HashMap Bytes)
      (answers : List RegisterValue) (archive : Archive) (w : World p)
      → p.read_registers v.partition v.index capture_names w.machine ≡ done answers
      → Holds w.heap s.memory_regions contents
      → archive.hash ≡ contents_hash h (captured_values answers) contents
      → (final : Snapshot) × (w' : World p) × (verify h v s archive w ≡ (ok final, w'))
  unfolding verify
  verify-ok h v s contents answers archive w e held same =
      let final : Snapshot = record s { registers = captured_values answers } in
      let equal : (contents_hash h (captured_values answers) contents == archive.hash) ≡ true =
        ap (λ n. contents_hash h (captured_values answers) contents == n) same ∙ ==_refl _ in
      (
        final,
        say (verified ∷ []) (
            say (replay_hash (contents_hash h final.registers contents) ∷ [])
              (say (expected_hash archive.hash ∷ []) w)),
        rw (
          capture_registers-ok s v answers w e,
          hash_state-contents h final contents w held,
          equal,
        ),
      )

  run-say :
      (part : VmPartition) (v : Vcpu) (ms : List Message) (w u : World p) {exit : ExitContext}
      → Runner.run (Runner.new part v) w ≡ (ok exit, u)
      → Runner.run (Runner.new part v) (say ms w) ≡ (ok exit, say ms u)
  unfolding Runner.run
  run-say part v ms w u e = λ i. ((e i).0, say ms (e i).1)

  pub final_state-ok :
      (h : Hasher) (v : Vcpu) (layout : Layout) (null image stack table : Bytes)
      (answers : List RegisterValue) (w : World p)
      → HasRoom p layout
      → HasBytes layout w.heap null image stack table
      → p.read_registers v.partition v.index capture_names w.machine ≡ done answers
      → (last : Snapshot) × (w' : World p) × (final_state h v layout w ≡ (
        ok (
          last,
          contents_hash h (captured_values answers) (contents_of layout null image stack table),
        ),
        w',
      ))
  unfolding final_state
  final_state-ok h v layout null image stack table answers w room bytes e =
      let (s, w1, run, held, m, o) =
        capture_memory_layout-Holds layout null image stack table w room bytes in
      let last : Snapshot = record s { registers = captured_values answers } in
      let e1 : p.read_registers v.partition v.index capture_names w1.machine ≡ done answers =
        ap (λ k. p.read_registers v.partition v.index capture_names k) m ∙ e in
      (
        last,
        w1,
        rw (
          run,
          capture_registers-ok s v answers w1 e1,
          hash_state-contents h last (contents_of layout null image stack table) w1 held,
        ),
      )

-- What the relation between the two worlds says of the guest's memory: the snapshot's buffers, which
-- the replayed guest runs on, stand for the bytes of the recorded guest's memory. Lines printed do
-- not matter.
pub record IsObserved {p : Platform} (R : World p → World p → Type 0) (layout : Layout)
    (regions : HashMap AlignedMemory) : Type 0 where
  pub prints_right : (ms : List Message) (w w' : World p) → R w w' → R w (say ms w')
  pub same_memory :
      (u u' : World p) (null image stack table : Bytes)
      → R u u'
      → HasBytes layout u.heap null image stack table
      → Holds u'.heap regions (contents_of layout null image stack table)

-- The engine of the replay command.
abbrev pub replayer : VmPartition → Vcpu → ReplayEngine
replayer part v = register_vcpu (Replay.new part 0) 0 v

module _ {p : Platform} (R : World p → World p → Type 0) (part part' : VmPartition) (v v' : Vcpu)
    (layout : Layout) (snapshot : Snapshot) where
  -- Let the two processors answer alike in worlds related by `R`, which also relates the memory of
  -- the recorded guest to the buffers of the snapshot. If a recording ends, its guest's memory is
  -- live, there is room to copy it, its registers can be read, and the restored snapshot is related to
  -- the start of the recording, then the recorder's final state has a hash, and the replay of the
  -- archive with the recorder's events and that hash succeeds: its verification finds the same hash.
  pub record_verified :
      (k fuel : ℕ) (h : Hasher) (saved : SavedSnapshot) (w x0 x : World p) (s' : RecordState p)
      (null image stack table : Bytes) (answers : List RegisterValue)
      → IsSimulation R part part' v v'
      → IsObserved R layout snapshot.memory_regions
      → Record.run fuel (record { engine = Record.new part v; world = w }) ≡ (ok tt, s')
      → HasRoom p layout
      → HasBytes layout s'.world.heap null image stack table
      → p.read_registers v.partition v.index capture_names s'.world.machine ≡ done answers
      → restore_snapshot (replayer part' v') snapshot capture_names x0 ≡ (ok tt, x)
      → R w x
      → (hash : ℕ) × (last : Snapshot) × (w' : World p) × (final_state h v layout s'.world
          ≡ (ok (last, hash), w'))
        × (final : Snapshot) × (x' : World p) × (replay_guest
              (suc k)
              h
              part'
              v'
              snapshot
              (record { snapshot = saved; events = finalize s'.engine; hash = hash })
              x0
            ≡ (ok final, x'))
  unfolding replay_guest
  record_verified k fuel h saved w x0 x s' null image stack table answers sim obs ran room bytes
        reads restore r =
      let events = finalize s'.engine in
      let contents = contents_of layout null image stack table in
      let hash = contents_hash h (captured_values answers) contents in
      let archive : Archive = record { snapshot = saved; events = events; hash = hash } in
      let (last, w', ends) =
        final_state-ok h v layout null image stack table answers s'.world room bytes reads in
      let y : World p = say (restored ∷ []) x in
      let z : World p = say (replaying_events (length events) ∷ []) y in
      let related =
        obs.prints_right (replaying_events (length events) ∷ []) w y
          (obs.prints_right (restored ∷ []) w x r) in
      let (mid, exit, u, replayed, ran', q, stops) =
        record_replay R part v v' (replayer part' v') refl sim k fuel w z s' ran related in
      let (t, rested, (same_machine, same_heap)) =
        run_rest-SameBut part' v' exit (say (replay_finished ∷ []) mid)
          (say (replay_finished ∷ []) u) (run-say part' v' (replay_finished ∷ []) mid u ran') in
      let reads' : p.read_registers v'.partition v'.index capture_names t.machine ≡ done answers =
        ap (λ m. p.read_registers v'.partition v'.index capture_names m) same_machine
        ∙ sym (sim.reads capture_names s'.world u q)
        ∙ reads in
      let held : Holds t.heap snapshot.memory_regions contents =
        subst (λ heap. Holds heap snapshot.memory_regions contents) (sym same_heap)
          (obs.same_memory s'.world u null image stack table q bytes) in
      let (final, x', checked) =
        verify-ok h v' snapshot contents answers archive t reads' held refl in
      (hash, last, w', ends, final, x', rw (restore, replayed, rested) checked)
