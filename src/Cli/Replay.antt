-- ===== src/Cli/Replay.antt =====
-- crates/cli/src/main.rs, the command `replay`, and `handle_vm_exit`.
pub mod Verdict
pub mod Report
use vestigium.Common.{ℕ, List, [], ◌∷◌, length, ◌==◌, if◌then◌else◌}
use vestigium.Common.Exec.{
  Outcome, ok, err, panic, fault, stuck, Exec, pure, raise, assert, expect, ◌>>=◌, ◌>>◌,
}
use vestigium.Platform.{
  Platform, World, Bytes, Answer, ExitContext, RegisterValue, zero_value, rax, println, replaying,
  loaded, restored, replaying_events, replay_finished, exit_violation, exit_gpa, exit_gva,
  halted_replay, halted_unreadable, stopped, run_failed, expected_hash, replay_hash, verified,
}
use vestigium.Vmm.Partition
use vestigium.Vmm.Partition.{VmPartition, configure_interceptions, as_raw, drop_partition}
use vestigium.Vmm.Vcpu
use vestigium.Vmm.Vcpu.{Vcpu, first, get_registers, setup_long_mode, drop_vcpu}
use vestigium.Engine.Runner
use vestigium.Engine.Replay
use vestigium.Engine.Replay.{register_vcpu, restore_snapshot}
use vestigium.Engine.Snapshot.{Snapshot, capture_registers}
use vestigium.Engine.Snapshot.Hash.{Hasher, hash_state}
use vestigium.Engine.Snapshot.Serde.{deserialize}
use vestigium.Cli.Events.{replay_events}
use vestigium.Cli.Files.{FileSystem, Session, outside, on_host, read_file}
use vestigium.Cli.Layout.{pt_gpa, capture_names, drop_regions}
use vestigium.Cli.Record.{Archive}

module _ {p : Platform} where
  -- The lines at a halt, by the result of the read of RAX.
  abbrev pub halt_line : Outcome (List RegisterValue) → Exec (World p) (Unit {0})
  halt_line (ok values) = println (halted_replay (first values).reg64)
  halt_line (err e) = println halted_unreadable
  halt_line panic = raise panic
  halt_line fault = raise fault
  halt_line stuck = raise stuck

  abbrev report : Vcpu → ExitContext → Exec (World p) (Unit {0})
  report vcpu exit =
      if exit.exit_reason == 1
      then (do println exit_violation; println (exit_gpa exit.gpa); println (exit_gva exit.gva))
      else if exit.exit_reason == 8
      then (λ w. let (r, w') = get_registers vcpu (rax ∷ []) (zero_value ∷ []) w in halt_line r w')
      else println (stopped exit.exit_reason)

  unfoldable pub handle_vm_exit : Vcpu → Outcome ExitContext → Exec (World p) (Unit {0})
  unfolding get_registers
  handle_vm_exit vcpu (ok exit) = report vcpu exit
  handle_vm_exit vcpu (err e) = println (run_failed e)
  handle_vm_exit vcpu panic = raise panic
  handle_vm_exit vcpu fault = raise fault
  handle_vm_exit vcpu stuck = raise stuck

  -- `handle_vm_exit(&vcpu, runner.run())`.
  unfoldable pub run_rest : VmPartition → Vcpu → Exec (World p) (Unit {0})
  run_rest partition vcpu w =
      let (r, w') = Runner.run (Runner.new partition vcpu) w in handle_vm_exit vcpu r w'

  -- The final registers, and the comparison of the hashes; the snapshot comes back with the registers.
  unfoldable pub verify : Hasher → Vcpu → Snapshot → Archive → Exec (World p) Snapshot
  verify h vcpu snapshot archive = do
    snapshot ← expect (capture_registers snapshot vcpu capture_names)
    hash ← hash_state h snapshot
    println (expected_hash archive.hash)
    println (replay_hash hash)
    assert (hash == archive.hash)
    println verified
    pure snapshot

  -- From the restored snapshot to the comparison of the hashes.
  unfoldable pub replay_guest :
      ℕ → Hasher → VmPartition → Vcpu → Snapshot → Archive → Exec (World p) Snapshot
  replay_guest fuel h partition vcpu snapshot archive = do
    let engine = register_vcpu (Replay.new partition 0) 0 vcpu
    expect (restore_snapshot engine snapshot capture_names)
    println restored
    println (replaying_events (length archive.events))
    replay_events fuel engine archive.events
    println replay_finished
    run_rest partition vcpu
    verify h vcpu snapshot archive

  -- From the archive to the end of the command.
  unfoldable pub replay_archive : ℕ → Hasher → Archive → Exec (World p) (Unit {0})
  replay_archive fuel h archive = do
    snapshot ← deserialize archive.snapshot
    println (loaded (length snapshot.memory_regions) (length archive.events))
    partition ← expect Partition.new
    expect (configure_interceptions partition)
    vcpu ← expect (Vcpu.new (as_raw partition) 0)
    expect (setup_long_mode vcpu pt_gpa)
    snapshot ← replay_guest fuel h partition vcpu snapshot archive
    drop_vcpu vcpu
    drop_partition partition
    drop_regions snapshot.memory_regions

  module _ {fs : FileSystem} (decode : Bytes → Answer Archive) where
    unfoldable pub replay_command : ℕ → Hasher → fs.FileName → Exec (Session p fs) (Unit {0})
    replay_command fuel h trace = do
      on_host (println replaying)
      archive_data ← expect (read_file trace)
      archive ← expect (outside (decode archive_data))
      on_host (replay_archive fuel h archive)
