-- ===== src/Engine/Snapshot/Order.antt =====
-- The hash is a function of what the snapshot holds: not of the order of the hash map, not of
-- where the buffers lie, and of the low halves of the registers alone.
use mathlib.Core.List.{Perm, Permᴰ}
use mathlib.Core.Logic.{∥∥₁_elim}
use vestigium.Common.{ℕ, ◌≡◌, refl, ap, sym, ◌∙◌, Option, none, some, List, [], ◌∷◌, map, arith}
use vestigium.Common.Exec.{Outcome, ok, Exec, continue, pure, ◌>>=◌}
use vestigium.Common.HashMap.{keys, get}
use vestigium.Platform.{Platform, World, RegisterValue, load}
use vestigium.Engine.Snapshot.{Snapshot}
use vestigium.Engine.Snapshot.Hash.{
  Hasher, insert_sorted, sort, hash_registers, region, unwrap, hash_regions, hash_state,
}
use vestigium.Engine.Memory.{AlignedMemory, len}

insert_sorted_comm :
    (x y : ℕ) (l : List ℕ)
    → insert_sorted x (insert_sorted y l) ≡ insert_sorted y (insert_sorted x l)
unfolding insert_sorted
insert_sorted_comm x y [] = ground arith
insert_sorted_comm x y (z ∷ l) = ground (arith, insert_sorted_comm x y l)

sort-permᴰ : {xs ys : List ℕ} → Permᴰ xs ys → sort xs ≡ sort ys
unfolding sort
sort-permᴰ Permᴰ.nil = refl
sort-permᴰ (Permᴰ.cons e h) = cc (e, sort-permᴰ h)
sort-permᴰ (Permᴰ.swap {a = a} {b = b} {l = l} e f) = insert_sorted_comm a b (sort l) ∙ cc (e, f)
sort-permᴰ (Permᴰ.trans h k) = sort-permᴰ h ∙ sort-permᴰ k

pub sort-perm : (xs ys : List ℕ) → Perm xs ys → sort xs ≡ sort ys
sort-perm xs ys h = ∥∥₁_elim h (list_set (sort xs) (sort ys)) sort-permᴰ
  where
    list_set : IsSet (List ℕ)
    list_set = hlevel

module _ {p : Platform} where
  load-same : (ptr off n : ℕ) (w : World p) → (load ptr off n w).1 ≡ w
  unfolding load
  load-same ptr off n w = ground arith

  region-same : (snapshot : Snapshot) (gpa : ℕ) (w : World p) → (region snapshot gpa w).1 ≡ w
  unfolding region
  region-same snapshot gpa w = go (get gpa snapshot.memory_regions)
    where
      go : (o : Option AlignedMemory) → ((unwrap o >>= λ mem. load mem.ptr 0 (len mem)) w).1 ≡ w
      go none = refl
      go (some mem) = load-same mem.ptr 0 (len mem) w

-- Two snapshots, each with its host memory, hold the same: the low halves of their registers, the
-- addresses of their regions in any order, and the bytes of each region.
pub record SameState {p : Platform} (s s' : Snapshot) (w w' : World p) : Type 0 where
  pub registers :
      map (λ (v : RegisterValue). v.reg64) s.registers
      ≡ map (λ (v : RegisterValue). v.reg64) s'.registers
  pub gpas : Perm (keys s.memory_regions) (keys s'.memory_regions)
  pub bytes : (gpa : ℕ) → (region s gpa w).0 ≡ (region s' gpa w').0

-- Words, one after the other.
abbrev pub write_words : (h : Hasher) → List ℕ → h.State → h.State
write_words h [] st = st
write_words h (x ∷ xs) st = write_words h xs (h.write_u64 x st)

pub hash_registers-eq :
    (h : Hasher) (regs : List RegisterValue) (st : h.State)
    → hash_registers h regs st ≡ write_words h (map (λ v. v.reg64) regs) st
hash_registers-eq h [] st = refl
hash_registers-eq h (reg ∷ regs) st = hash_registers-eq h regs (h.write_u64 reg.reg64 st)

continue-same :
    {p : Platform} {A B : Type 0} (r r' : Outcome A) (f f' : A → Exec (World p) B)
    (w w' u u' : World p)
    → u ≡ w
    → u' ≡ w'
    → r ≡ r'
    → ((a : A) → (f a w).0 ≡ (f' a w').0)
    → (continue r f u).0 ≡ (continue r' f' u').0
continue-same r (ok a) f f' w w' u u' e e' q each =
    rw q (ap (λ x. (f a x).0) e ∙ each a ∙ ap (λ x. (f' a x).0) (sym e'))
continue-same r _ f f' w w' u u' e e' q each = rw q

hash_regions-eq :
    (h : Hasher) {p : Platform} (s s' : Snapshot) (w w' : World p) (gpas : List ℕ) (st : h.State)
    → ((gpa : ℕ) → (region s gpa w).0 ≡ (region s' gpa w').0)
    → (hash_regions h s gpas st w).0 ≡ (hash_regions h s' gpas st w').0
unfolding hash_regions
hash_regions-eq h s s' w w' [] st e = refl
hash_regions-eq h s s' w w' (gpa ∷ gpas) st e =
    continue-same (region s gpa w).0 (region s' gpa w').0
      (λ slice. hash_regions h s gpas (h.write_slice slice (h.write_u64 gpa st)))
      (λ slice. hash_regions h s' gpas (h.write_slice slice (h.write_u64 gpa st))) w w'
      (region s gpa w).1 (region s' gpa w').1 (region-same s gpa w) (region-same s' gpa w') (e gpa)
      (λ slice. hash_regions-eq h s s' w w' gpas (h.write_slice slice (h.write_u64 gpa st)) e)

finished :
    (h : Hasher) {p : Platform} (r r' : Outcome h.State) (u u' : World p)
    → r ≡ r'
    → (continue r (λ st. pure (h.finish st)) u).0 ≡ (continue r' (λ st. pure (h.finish st)) u').0
finished h r (ok st) u u' q = rw q
finished h r _ u u' q = rw q

-- Two snapshots that hold the same, with their host memories, have the same hash, or fail alike:
-- the hash reads neither the order of the map nor the addresses of the buffers, and of each
-- register its low 64 bits.
pub hash_state-SameState :
    (h : Hasher) {p : Platform} (s s' : Snapshot) (w w' : World p)
    → SameState s s' w w'
    → (hash_state h s w).0 ≡ (hash_state h s' w').0
unfolding hash_state
hash_state-SameState h s s' w w' same = finished h _ _ _ _ (
    hash_regions-eq h s s' w w' (sort (keys s.memory_regions))
      (hash_registers h s.registers h.start) same.bytes
    ∙ ap (λ l. (hash_regions h s' l (hash_registers h s.registers h.start) w').0)
        (sort-perm (keys s.memory_regions) (keys s'.memory_regions) same.gpas)
    ∙ ap (λ st. (hash_regions h s' (sort (keys s'.memory_regions)) st w').0)
        (hash_registers-eq h s.registers h.start
          ∙ ap (λ l. write_words h l h.start) same.registers
          ∙ sym (hash_registers-eq h s'.registers h.start)))
