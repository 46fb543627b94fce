-- ===== src/Scenarios/Hypervisor.antt =====
-- What the tests of the crates need of the hypervisor: its documented behaviour where nothing fails.
use vestigium.Common.{ℕ, ◌≡◌, List, map}
use vestigium.Platform.{Platform, Property, RegisterName, RegisterValue, done}
use vestigium.Platform.Registers.{Registers, assign}

-- Partitions, processors and mappings are created. A processor's registers read as they were last
-- written, and a mapping leaves them as they are.
pub record Serves (p : Platform) (file : p.Machine → ℕ → ℕ → Registers) : Type 0 where
  pub creates : (m : p.Machine) → (h : ℕ) × ((p.create_partition m).0 ≡ done h)
  pub sets : (h : ℕ) (q : Property) (m : p.Machine) → (p.set_property h q m).0 ≡ done tt
  pub sets_up : (h : ℕ) (m : p.Machine) → (p.setup_partition h m).0 ≡ done tt
  pub creates_processor : (h i : ℕ) (m : p.Machine) → (p.create_processor h i m).0 ≡ done tt
  pub maps :
      (h host gpa size flags : ℕ) (m : p.Machine)
      → (p.map_range h host gpa size flags m).0 ≡ done tt
  pub reads :
      (h i : ℕ) (names : List RegisterName) (m : p.Machine)
      → p.read_registers h i names m ≡ done (map (file m h i) names)
  pub writes :
      (h i : ℕ) (names : List RegisterName) (values : List RegisterValue) (m : p.Machine)
      → (p.write_registers h i names values m).0 ≡ done tt
  pub written :
      (h i : ℕ) (names : List RegisterName) (values : List RegisterValue) (m : p.Machine)
      (n : RegisterName)
      → file (p.write_registers h i names values m).1 h i n ≡ assign names values (file m h i) n
  pub kept :
      (h host gpa size flags : ℕ) (m : p.Machine) (h' i : ℕ) (n : RegisterName)
      → file (p.map_range h host gpa size flags m).1 h' i n ≡ file m h' i n
