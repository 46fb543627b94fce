-- ===== src/Engine/Record/Rounds.antt =====
-- When `RecordEngine::run` ends, and how.
use vestigium.Common.{ℕ, zero, suc, ◌<◌, ◌≡◌, ap, ◌∙◌, ◌↔◌, [], ◌∷◌, arith}
use vestigium.Common.Exec.{ok, Exec, pure, Flow, leave, again}
use vestigium.Common.Steps.{bind-ok, bind-step}
use vestigium.Platform.{Platform, World, ExitContext, Message, say}
use vestigium.Engine.Runner
use vestigium.Engine.Record
use vestigium.Engine.Record.{
  RecordState, RecordEngine, finalize, on_world, record_exit, record_round, record_loop,
}
use vestigium.Engine.Record.Steps.{on_world-ok}
use vestigium.Engine.Record.Exits.{IsLine, record_exit-leave}

module _ {p : Platform} where
  -- `k` rounds of the loop, each of which goes on.
  pub data Rounds : ℕ → ℕ → RecordState p → ℕ → RecordState p → Type 0 where
    here : {count : ℕ} {s : RecordState p} → Rounds zero count s count s
    more :
        {k count n count' : ℕ} {s u s' : RecordState p}
        → record_round count s ≡ (ok (again n), u)
        → Rounds k n u count' s'
        → Rounds (suc k) count s count' s'

  -- A run of fewer than `fuel` rounds that go on, and one that does not.
  pub record Stops (fuel count : ℕ) (s s' : RecordState p) : Type 0 where
    pub rounds : ℕ
    pub within : rounds < fuel
    pub last_count : ℕ
    pub last : RecordState p
    pub goes : Rounds rounds count s last_count last
    pub ends : record_round last_count last ≡ (ok leave, s')

  abbrev next_round : ℕ → Flow ℕ → Exec (RecordState p) (Unit {0})
  next_round fuel flow = elim flow [ leave ↦ pure tt | again n ↦ record_loop fuel n ]

  ok-flow :
      (fuel : ℕ) (flow : Flow ℕ) (count : ℕ) (s u s' : RecordState p)
      → record_round count s ≡ (ok flow, u)
      → next_round fuel flow u ≡ (ok tt, s')
      → ((n : ℕ) → record_loop fuel n u ≡ (ok tt, s') → Stops fuel n u s')
      → Stops (suc fuel) count s s'
  ok-flow fuel leave count s u s' e k ih = record {
    rounds = 0;
    within = omega arith;
    last_count = count;
    last = s;
    goes = here;
    ends = e ∙ ap (λ x. (ok leave, x.1)) k;
  }
  ok-flow fuel (again n) count s u s' e k ih =
      let t = ih n k in
      record {
        rounds = suc t.rounds;
        within = omega (arith, t.within);
        last_count = t.last_count;
        last = t.last;
        goes = more e t.goes;
        ends = t.ends;
      }

  loop-Stops :
      (fuel count : ℕ) (s s' : RecordState p)
      → record_loop fuel count s ≡ (ok tt, s')
      → Stops fuel count s s'
  unfolding record_loop
  loop-Stops zero count s s' e = cc (ap (λ x. x.0) e)
  loop-Stops (suc fuel) count s s' e =
      let (flow, u, e1, k) = bind-ok (record_round count) (next_round fuel) s e in
      ok-flow fuel flow count s u s' e1 k (λ n. loop-Stops fuel n u s')

  Stops-loop :
      (fuel : ℕ) {k count last_count : ℕ} {s last s' : RecordState p}
      → Rounds k count s last_count last
      → k < fuel
      → record_round last_count last ≡ (ok leave, s')
      → record_loop fuel count s ≡ (ok tt, s')
  unfolding record_loop
  Stops-loop zero here lt e = ground (arith, lt)
  Stops-loop zero (more a r) lt e = ground (arith, lt)
  Stops-loop (suc fuel) (here {count} {s}) lt e =
      bind-step (record_round count) (next_round fuel) s e
  Stops-loop (suc fuel) (more {k} {count} {n} {s = s} a r) lt e =
      bind-step (record_round count) (next_round fuel) s a ∙ Stops-loop fuel r (omega (arith, lt)) e

  -- On `fuel`, `RecordEngine::run` succeeds with a state exactly when fewer than `fuel` rounds of its
  -- loop go on and the round after them ends the loop in that state.
  pub run-Stops :
      (fuel : ℕ) (s s' : RecordState p) → (Record.run fuel s ≡ (ok tt, s')) ↔ Stops fuel 0 s s'
  unfolding Record.run
  run-Stops fuel s s' = (loop-Stops fuel 0 s s', λ t. Stops-loop fuel t.goes t.within t.ends)

  -- The exit that ends a run, after the rounds that went on.
  pub record LastExit (s s' : RecordState p) : Type 0 where
    pub rounds : ℕ
    pub last_count : ℕ
    pub last : RecordState p
    pub goes : Rounds rounds 0 s last_count last
    pub exit : ExitContext
    pub world : World p
    pub ran : Runner.run last.engine.runner last.world ≡ (ok exit, world)
    pub line : Message
    pub is_line : IsLine last.engine.vcpu exit world line
    pub done : s' ≡ record last { world = say (line ∷ []) world }

  -- A run that succeeds has ended at an exit that is not intercepted. Nothing is logged for the exit:
  -- the engine is the one after the rounds that went on. One line is printed for it: the address of
  -- an access to memory (reason 1), RAX at a halt (reason 8), and else the reason.
  pub run-LastExit :
      (fuel : ℕ) (s s' : RecordState p) → Record.run fuel s ≡ (ok tt, s') → LastExit s s'
  unfolding record_round
  run-LastExit fuel s s' e =
      let t = (run-Stops fuel s s').0 e in
      let (exit, u, ran, k) =
        bind-ok (on_world (Runner.run t.last.engine.runner))
          (λ exit. record_exit t.last.engine.vcpu exit t.last_count) t.last t.ends in
      let (ran', same) = on_world-ok (Runner.run t.last.engine.runner) t.last ran in
      let (line, done, is_line) = record_exit-leave t.last.engine.vcpu exit t.last_count u k in
      record {
        rounds = t.rounds;
        last_count = t.last_count;
        last = t.last;
        goes = t.goes;
        exit = exit;
        world = u.world;
        ran = ran';
        line = line;
        is_line = is_line;
        done =
            done
            ∙ ap (λ (x : RecordEngine). record { engine = x; world = say (line ∷ []) u.world })
                same;
      }
