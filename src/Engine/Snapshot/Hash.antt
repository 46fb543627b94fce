-- ===== src/Engine/Snapshot/Hash.antt =====
-- crates/engine/src/record.rs, `Snapshot::hash_state`, over the hasher of the standard library.
use vestigium.Common.{ℕ, Option, none, some, List, [], ◌∷◌, leb, if◌then◌else◌}
use vestigium.Common.Exec.{panic, Exec, pure, raise, ◌>>=◌}
use vestigium.Common.HashMap.{get, keys}
use vestigium.Platform.{Platform, World, Bytes, RegisterValue, load}
use vestigium.Engine.Memory.{len}
use vestigium.Engine.Snapshot.{Snapshot}

-- `DefaultHasher`: what `hash` writes of a `u64` and of a slice of bytes.
pub record Hasher : Type 1 where
  pub State : Type 0
  pub start : State
  pub write_u64 : ℕ → State → State
  pub write_slice : Bytes → State → State
  pub finish : State → ℕ

-- `sort_unstable` on the keys.
unfoldable pub insert_sorted : ℕ → List ℕ → List ℕ
insert_sorted x [] = x ∷ []
insert_sorted x (y ∷ ys) = if leb x y then x ∷ y ∷ ys else y ∷ insert_sorted x ys

unfoldable pub sort : List ℕ → List ℕ
unfolding insert_sorted
sort [] = []
sort (x ∷ xs) = insert_sorted x (sort xs)

abbrev pub hash_registers : (h : Hasher) → List RegisterValue → h.State → h.State
hash_registers h [] st = st
hash_registers h (reg ∷ regs) st = hash_registers h regs (h.write_u64 reg.reg64 st)

module _ {p : Platform} where
  -- `.unwrap()` on a lookup.
  abbrev pub unwrap : {A : Type 0} → Option A → Exec (World p) A
  unwrap none = raise panic
  unwrap (some a) = pure a

  -- The bytes of the region at an address.
  unfoldable pub region : Snapshot → ℕ → Exec (World p) Bytes
  region snapshot gpa = do mem ← unwrap (get gpa snapshot.memory_regions); load mem.ptr 0 (len mem)

  unfoldable pub hash_regions : (h : Hasher) → Snapshot → List ℕ → h.State → Exec (World p) h.State
  hash_regions h snapshot [] st = pure st
  hash_regions h snapshot (gpa ∷ gpas) st = do
    slice ← region snapshot gpa
    hash_regions h snapshot gpas (h.write_slice slice (h.write_u64 gpa st))

  unfoldable pub hash_state : Hasher → Snapshot → Exec (World p) ℕ
  hash_state h snapshot = do
    st ←
        hash_regions h snapshot (sort (keys snapshot.memory_regions))
          (hash_registers h snapshot.registers h.start)
    pure (h.finish st)
