-- ===== src/Engine/Runner.antt =====
-- crates/engine/src/runner.rs: one run of a virtual processor, up to its next exit.
use vestigium.Common.Exec.{Exec}
use vestigium.Platform.{Platform, World, ExitContext, answer}
use vestigium.Vmm.Partition.{VmPartition, as_raw}
use vestigium.Vmm.Vcpu.{Vcpu}

pub record VmRunner : Type 0 where
  pub partition : VmPartition
  pub vcpu : Vcpu

-- `VmRunner::new`.
abbrev pub new : VmPartition → Vcpu → VmRunner
new partition vcpu = record { partition = partition; vcpu = vcpu }

module _ {p : Platform} where
  -- `VmRunner::run`.
  unfoldable pub run : VmRunner → Exec (World p) ExitContext
  run runner w =
      let (a, m, h) =
        p.run_processor (as_raw runner.partition) runner.vcpu.index w.machine w.heap in
      (answer a, record w { machine = m; heap = h })
