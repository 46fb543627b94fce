-- ===== src/Cli/Events.antt =====
-- crates/cli/src/main.rs, the loop of the replay command over the recorded events.
use vestigium.Common.{ℕ, List, [], ◌∷◌}
use vestigium.Common.Exec.{Exec, pure, expect, ◌>>◌}
use vestigium.Platform.{Platform, World}
use vestigium.Trace.{TraceEvent}
use vestigium.Engine.Replay.{ReplayEngine, replay_event}

module _ {p : Platform} where
  -- `for event in &events`, with fuel for the loop inside each `replay_event`.
  unfoldable pub replay_events : ℕ → ReplayEngine → List TraceEvent → Exec (World p) (Unit {0})
  replay_events fuel engine [] = pure tt
  replay_events fuel engine (event ∷ events) = do
    expect (replay_event fuel engine event)
    replay_events fuel engine events
