-- ===== src/Cli/Main.antt =====
-- crates/cli/src/main.rs: `main`, and what the two commands pass on through the trace file.
use vestigium.Common.{ℕ}
use vestigium.Common.Exec.{Exec}
use vestigium.Platform.{Platform, Bytes, Answer}
use vestigium.Engine.Loader.{Pe}
use vestigium.Engine.Snapshot.Hash.{Hasher}
use vestigium.Cli.Files.{FileSystem, Session}
use vestigium.Cli.Record.{Archive, record_command}
use vestigium.Cli.Replay.{replay_command}

pub data Commands (FileName : Type 0) : Type 0 where
  record_target : FileName → FileName → Commands FileName
  replay_trace : FileName → Commands FileName

module _ {p : Platform} {fs : FileSystem} (parser : Bytes → Answer Pe)
    (encode : Archive → Answer Bytes) (decode : Bytes → Answer Archive) where
  -- `main`, on a command line that is parsed.
  unfoldable pub main : ℕ → Hasher → Commands fs.FileName → Exec (Session p fs) (Unit {0})
  main fuel h (record_target target output) = record_command parser encode fuel h target output
  main fuel h (replay_trace trace) = replay_command decode fuel h trace
