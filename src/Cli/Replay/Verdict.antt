-- ===== src/Cli/Replay/Verdict.antt =====
-- What the replay command's verification tells of the world it ends in.
use vestigium.Common.{
  ℕ, ◌≡◌, refl, sym, ap, ◌∙◌, Bool, true, false, Option, none, some, List, [], ◌∷◌, length,
  replicate, ◌==◌, ==_iff,
}
use mathlib.Core.Path.{subst}
use vestigium.Common.Exec.{ok, Exec, pure, assert, expect, ◌>>=◌, ◌>>◌}
use vestigium.Common.Steps.{bind-ok, ok-same}
use vestigium.Common.HashMap.{get, keys}
use vestigium.Platform.{
  Platform, World, RegisterName, RegisterValue, println, say, query, load, verified, zero_value,
  restored, replaying_events, replay_finished, expected_hash, replay_hash,
}
use vestigium.Platform.Quiet.{
  with_lines, IsQuiet, IsQuiet-same, bind-IsQuiet, expect-IsQuiet, assert-IsQuiet, load-IsQuiet,
}
use vestigium.Vmm.Partition.{VmPartition}
use vestigium.Vmm.Vcpu.{Vcpu, overwrite, get_registers}
use vestigium.Engine.Memory.{len}
use vestigium.Engine.Replay
use vestigium.Engine.Replay.{register_vcpu, restore_snapshot}
use vestigium.Engine.Snapshot.{Snapshot, capture_registers}
use vestigium.Engine.Snapshot.Hash.{
  Hasher, sort, hash_registers, unwrap, region, hash_regions, hash_state,
}
use vestigium.Cli.Events.{replay_events}
use vestigium.Cli.Layout.{capture_names}
use vestigium.Cli.Record.{Archive}
use vestigium.Cli.Replay.{run_rest, verify, replay_guest}

module _ {p : Platform} where
  -- the steps after the hash, and those after the events
  abbrev compared : Archive → Snapshot → ℕ → Exec (World p) Snapshot
  compared archive final hash = do
    println (expected_hash archive.hash)
    println (replay_hash hash)
    assert (hash == archive.hash)
    println verified
    pure final

  abbrev finished : Hasher → VmPartition → Vcpu → Snapshot → Archive → Exec (World p) Snapshot
  finished h partition vcpu snapshot archive = do
    println replay_finished
    run_rest partition vcpu
    verify h vcpu snapshot archive

  -- the end, once the hashes are compared
  abbrev passed : Snapshot → Bool → Exec (World p) Snapshot
  passed final b = assert b >>= λ _. println verified >>= λ _. pure final

  passed-ok :
      (b : Bool) (final : Snapshot) (w w' : World p) {result : Snapshot}
      → passed final b w ≡ (ok result, w')
      → (b ≡ true) × (final ≡ result) × (w' ≡ with_lines w'.printed w)
  passed-ok true final w w' e = (
    refl,
    ok-same (ap (λ x. x.0) e),
    ap (λ (x : World p). with_lines w'.printed x) (ap (λ x. x.1) (sym e)),
  )
  passed-ok false final w w' e = cc (ap (λ x. x.0) e)

  get_registers-IsQuiet :
      (v : Vcpu) (names : List RegisterName) (values : List RegisterValue)
      → IsQuiet (get_registers {p = p} v names values)
  unfolding get_registers
  get_registers-IsQuiet v names values =
      bind-IsQuiet (assert (length names == length values)) _ (assert-IsQuiet _) (λ _.
        bind-IsQuiet (query (p.read_registers v.partition v.index names))
          (λ answers. pure (overwrite values answers)) (λ w lines. refl) (λ _ w lines. refl))

  capture_registers-IsQuiet :
      (s : Snapshot) (v : Vcpu) (names : List RegisterName)
      → IsQuiet (capture_registers {p = p} s v names)
  unfolding capture_registers
  capture_registers-IsQuiet s v names =
      bind-IsQuiet (get_registers v names (replicate (length names) zero_value))
        (λ values. pure (record s { registers = values })) (get_registers-IsQuiet v names _)
        (λ _ w lines. refl)

  unwrap-IsQuiet : {A : Type 0} (o : Option A) → IsQuiet (unwrap {p = p} o)
  unwrap-IsQuiet none w lines = refl
  unwrap-IsQuiet (some a) w lines = refl

  region-IsQuiet : (s : Snapshot) (gpa : ℕ) → IsQuiet (region {p = p} s gpa)
  unfolding region
  region-IsQuiet s gpa =
      bind-IsQuiet (unwrap (get gpa s.memory_regions)) (λ mem. load mem.ptr 0 (len mem))
        (unwrap-IsQuiet _) (λ mem. load-IsQuiet mem.ptr 0 (len mem))

  hash_regions-IsQuiet :
      (h : Hasher) (s : Snapshot) (gpas : List ℕ) (st : h.State)
      → IsQuiet (hash_regions {p = p} h s gpas st)
  unfolding hash_regions
  hash_regions-IsQuiet h s [] st = λ w lines. refl
  hash_regions-IsQuiet h s (gpa ∷ gpas) st =
      bind-IsQuiet (region s gpa)
        (λ slice. hash_regions h s gpas (h.write_slice slice (h.write_u64 gpa st)))
        (region-IsQuiet s gpa)
        (λ slice. hash_regions-IsQuiet h s gpas (h.write_slice slice (h.write_u64 gpa st)))

  hash_state-IsQuiet : (h : Hasher) (s : Snapshot) → IsQuiet (hash_state {p = p} h s)
  unfolding hash_state
  hash_state-IsQuiet h s =
      bind-IsQuiet
        (hash_regions h s (sort (keys s.memory_regions)) (hash_registers h s.registers h.start))
        (λ st. pure (h.finish st)) (hash_regions-IsQuiet h s _ _) (λ _ w lines. refl)

  -- A quiet call that has returned a value returns it in every world that differs in its lines.
  quiet-again :
      {A : Type 0} (m : Exec (World p) A) (w u t : World p) {a : A}
      → IsQuiet m
      → m w ≡ (ok a, u)
      → t ≡ with_lines t.printed w
      → m t ≡ (ok a, t)
  quiet-again m w u t quiet e same = ap m same ∙ quiet w t.printed ∙ (λ i. ((e i).0, sym same i))

  -- What the verification compares: the registers and the memory of the world it ends in.
  pub record IsVerified (h : Hasher) (vcpu : Vcpu) (snapshot final : Snapshot) (hash : ℕ)
      (w : World p) : Type 0 where
    pub registers : expect (capture_registers snapshot vcpu capture_names) w ≡ (ok final, w)
    pub hashed : hash_state h final w ≡ (ok hash, w)

  verify-IsVerified :
      (h : Hasher) (vcpu : Vcpu) (snapshot : Snapshot) (archive : Archive) (w w' : World p)
      {final : Snapshot}
      → verify h vcpu snapshot archive w ≡ (ok final, w')
      → IsVerified h vcpu snapshot final archive.hash w'
  unfolding verify
  verify-IsVerified h vcpu snapshot archive w w' {final = final} e =
      let capture = expect (capture_registers {p = p} snapshot vcpu capture_names) in
      let capture_quiet : IsQuiet capture =
        expect-IsQuiet (capture_registers snapshot vcpu capture_names)
          (capture_registers-IsQuiet snapshot vcpu capture_names) in
      let (taken, u, took, rest) =
        bind-ok capture (λ s. hash_state h s >>= compared archive s) w e in
      let (hash, v, hashed, last) = bind-ok (hash_state h taken) (compared archive taken) u rest in
      let (same, kept, ends) =
        passed-ok (hash == archive.hash) taken
          (say (replay_hash hash ∷ []) (say (expected_hash archive.hash ∷ []) v)) w' last in
      let u_same : u ≡ w = ap (λ x. x.1) (sym took) ∙ IsQuiet-same capture capture_quiet w in
      let v_same : v ≡ u =
        ap (λ x. x.1) (sym hashed)
        ∙ IsQuiet-same (hash_state h taken) (hash_state-IsQuiet h taken) u in
      let from_u : w' ≡ with_lines w'.printed u = ends ∙ ap (with_lines w'.printed) v_same in
      let from_w : w' ≡ with_lines w'.printed w = from_u ∙ ap (with_lines w'.printed) u_same in
      subst (λ s. IsVerified h vcpu snapshot s archive.hash w') kept
        (record {
          registers = quiet-again capture w u w' capture_quiet took from_w;
          hashed =
              quiet-again (hash_state h taken) u v w' (hash_state-IsQuiet h taken) hashed from_u
              ∙ ap (λ n. (ok n, w')) ((==_iff hash archive.hash).0 same);
        })

  -- A replay that succeeds ends in a world whose registers and memory are verified: read there, the
  -- registers are those of the snapshot that is returned, and the hash of the snapshot there, its
  -- buffers as the replayed guest has left them, is the archive's.
  pub replay_guest-IsVerified :
      (fuel : ℕ) (h : Hasher) (partition : VmPartition) (vcpu : Vcpu) (snapshot : Snapshot)
      (archive : Archive) (w w' : World p) {final : Snapshot}
      → replay_guest fuel h partition vcpu snapshot archive w ≡ (ok final, w')
      → IsVerified h vcpu snapshot final archive.hash w'
  unfolding replay_guest
  replay_guest-IsVerified fuel h partition vcpu snapshot archive w w' e =
      let engine = register_vcpu (Replay.new partition 0) 0 vcpu in
      let (_, u, _, rest) =
        bind-ok (expect (restore_snapshot engine snapshot capture_names))
          (λ _. do
            println restored
            println (replaying_events (length archive.events))
            replay_events fuel engine archive.events
            finished h partition vcpu snapshot archive)
          w e in
      let (_, v, _, rest) =
        bind-ok (replay_events fuel engine archive.events)
          (λ _. finished h partition vcpu snapshot archive)
          (say (replaying_events (length archive.events) ∷ []) (say (restored ∷ []) u)) rest in
      let (_, t, _, rest) =
        bind-ok (run_rest partition vcpu) (λ _. verify h vcpu snapshot archive)
          (say (replay_finished ∷ []) v) rest in
      verify-IsVerified h vcpu snapshot archive t w' rest
