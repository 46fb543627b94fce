-- ===== src/Tests/Scenarios.antt =====
-- The crates' tests, on the hypervisor of Tests/Machine.
use vestigium.Common.{◌≡◌, refl, none, [], ◌∷◌, arith}
use vestigium.Common.Exec.{ok}
use vestigium.Platform.{World, zero_value}
use vestigium.Scenarios.Engines.{
  test_phase2_record_engine, test_phase3_replay_engine_injection,
  test_phase3_replay_engine_interleaving,
}
use vestigium.Scenarios.Engines.Passed.{with_machine, engine_tests_pass}
use vestigium.Scenarios.Pipeline.{test_phase4_e2e_record_replay_pipeline}
use vestigium.Scenarios.Pipeline.Passed.{pipeline_test-passes}
use vestigium.Tests.Machine.{
  State, executing, registers_of, executing-Serves, executing-Translates, executing-Configures,
  executing-Executes,
}

abbrev booted : World executing
booted = record {
  machine = record { registers = λ h i n. zero_value; mappings = λ h a. none; exits = λ h. 0 };
  heap = [];
  printed = [];
}

engine_tests_pass_example :
    (test_phase2_record_engine booted ≡ (ok tt, record booted { heap = none ∷ none ∷ [] }))
    × ((m : State) × (test_phase3_replay_engine_injection booted ≡ (ok tt, with_machine m booted)))
    × ((m : State) × (test_phase3_replay_engine_interleaving booted
          ≡ (ok tt, with_machine m booted)))
engine_tests_pass_example =
    engine_tests_pass registers_of executing-Serves booted
      (λ heap. record { positive = omega arith; small = omega arith; room = refl })

pipeline_test-passes_example :
    (w' : World executing) × (test_phase4_e2e_record_replay_pipeline 1 booted ≡ (ok tt, w'))
pipeline_test-passes_example =
    pipeline_test-passes registers_of (λ h m. m.mappings h) executing-Serves executing-Translates
      (λ m. m.exits) executing-Configures executing-Executes 0 booted
      (λ heap. record { positive = omega arith; small = omega arith; room = refl })
      (λ heap. record { positive = omega arith; small = omega arith; room = refl })
