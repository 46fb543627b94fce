-- ===== src/Engine/Replay/Translation.antt =====
-- The guest's addresses as the hypervisor translates them, and the bytes that are there.
use vestigium.Common.{
  ℕ, ◌+◌, ◌-◌, ◌≤◌, ◌<◌, ◌≡◌, refl, true, false, ltb, ◌⊎◌, Option, none, some, List, [], ◌∷◌,
  length, get_elem?, if◌then◌else◌,
}
use vestigium.Common.HashMap.{HashMap}
use vestigium.Platform.{Platform, done, Bytes, Heap, block, RegisterName, RegisterValue}
use vestigium.Engine.Memory.{AlignedMemory}

-- Where a state of the hypervisor maps a partition's addresses: to a block of the host, at an offset.
-- A mapping maps its range, and no address beside it; writing registers maps nothing.
pub record Translates (p : Platform) (h : ℕ) (at : p.Machine → ℕ → Option (ℕ × ℕ)) : Type 0 where
  pub mapped :
      (host gpa size flags : ℕ) (m : p.Machine) (a : ℕ)
      → (p.map_range h host gpa size flags m).0 ≡ done tt
      → gpa ≤ a
      → a < gpa + size
      → at (p.map_range h host gpa size flags m).1 a ≡ some (host, a - gpa)
  pub beside :
      (host gpa size flags : ℕ) (m : p.Machine) (a : ℕ)
      → (a < gpa) ⊎ (gpa + size ≤ a)
      → at (p.map_range h host gpa size flags m).1 a ≡ at m a
  pub written :
      (h' i : ℕ) (names : List RegisterName) (values : List RegisterValue) (m : p.Machine) (a : ℕ)
      → at (p.write_registers h' i names values m).1 a ≡ at m a

-- An address that no region has.
abbrev pub Outside : ℕ → HashMap AlignedMemory → Type 0
Outside a [] = Unit
Outside a ((gpa, mem) ∷ regions) = ((a < gpa) ⊎ (gpa + mem.size ≤ a)) × Outside a regions

-- No two regions share an address.
abbrev pub AreDisjoint : HashMap AlignedMemory → Type 0
AreDisjoint [] = Unit
AreDisjoint ((gpa, mem) ∷ regions) =
    ((a : ℕ) → gpa ≤ a → a < gpa + mem.size → Outside a regions) × AreDisjoint regions

-- The byte that some contents have at an address.
abbrev pub byte_at : HashMap Bytes → ℕ → Option ℕ
byte_at [] a = none
byte_at ((gpa, bytes) ∷ contents) a =
    let rest = byte_at contents a in
    if ltb a gpa
    then rest
    else if ltb a (gpa + length bytes)
    then get_elem? bytes (a - gpa)
    else rest

abbrev pub at_offset : ℕ → Option Bytes → Option ℕ
at_offset i none = none
at_offset i (some bytes) = get_elem? bytes i

-- The byte of the host's memory that a mapping leads to.
abbrev pub host_byte : Heap → Option (ℕ × ℕ) → Option ℕ
host_byte heap none = none
host_byte heap (some (q, i)) = at_offset i (block q heap)

module _ (gpa : ℕ) (bytes : Bytes) (contents : HashMap Bytes) (a : ℕ) where
  pub byte_at-below : ltb a gpa ≡ true → byte_at ((gpa, bytes) ∷ contents) a ≡ byte_at contents a
  byte_at-below e = rw e refl

  pub byte_at-beyond :
      ltb a gpa ≡ false
      → ltb a (gpa + length bytes) ≡ false
      → byte_at ((gpa, bytes) ∷ contents) a ≡ byte_at contents a
  byte_at-beyond e e' = rw (e, e') refl

  pub byte_at-within :
      ltb a gpa ≡ false
      → ltb a (gpa + length bytes) ≡ true
      → byte_at ((gpa, bytes) ∷ contents) a ≡ get_elem? bytes (a - gpa)
  byte_at-within e e' = rw (e, e') refl
