-- ===== src/Engine/Replay/Restored.antt =====
-- What the guest reads once a snapshot is restored.
use vestigium.Common.{
  ℕ, ◌+◌, ◌-◌, ◌≤◌, ◌<◌, ◌≡◌, refl, sym, ap, ◌∙◌, true, false, Bool, Bool-cases, ltb, inl, inr, ◌⊎◌,
  Option, none, some, List, [], ◌∷◌, length, ◌==◌, get_elem?, arith,
}
use mathlib.Core.Path.{subst}
use vestigium.Common.Exec.{Outcome, ok, err, panic, fault, stuck, Exec, continue, assert, ◌>>=◌}
use vestigium.Common.HashMap.{HashMap, get}
use vestigium.Common.Steps.{bind-ok}
use vestigium.Platform.Frame.{answered}
use vestigium.Platform.{Platform, World, Bytes, RegisterName, RegisterValue, api}
use vestigium.Vmm.Ept
use vestigium.Vmm.Ept.{EptManager, map_gpa_range}
use vestigium.Vmm.Vcpu.{Vcpu, set_registers}
use vestigium.Vmm.Partition.{as_raw}
use vestigium.Engine.Memory.{AlignedMemory, len}
use vestigium.Engine.Snapshot.{Snapshot}
use vestigium.Engine.Snapshot.Holds.{Holds}
use vestigium.Engine.Replay.Translation.{
  Translates, Outside, AreDisjoint, byte_at, at_offset, host_byte, byte_at-below, byte_at-beyond,
  byte_at-within,
}
use vestigium.Engine.Replay.{
  ReplayEngine, found, active_vcpu, map_regions, restore_registers, restore_snapshot,
}

module _ {p : Platform} (h : ℕ) (at : p.Machine → ℕ → Option (ℕ × ℕ))
    (translates : Translates p h at) where
  -- A call that leaves an address mapped as it is, and the heap.
  abbrev Leaves : {A : Type 0} → ℕ → Exec (World p) A → Type 0
  Leaves a m = (w : World p) → (at (m w).1.machine a ≡ at w.machine a) × ((m w).1.heap ≡ w.heap)

  continue-Leaves :
      {A B : Type 0} (a : ℕ) (r : Outcome A) (f : A → Exec (World p) B) (w : World p)
      → ((x : A) → Leaves a (f x))
      → (at (continue r f w).1.machine a ≡ at w.machine a) × ((continue r f w).1.heap ≡ w.heap)
  continue-Leaves a (ok x) f w k = k x w
  continue-Leaves a (err e) f w k = (refl, refl)
  continue-Leaves a panic f w k = (refl, refl)
  continue-Leaves a fault f w k = (refl, refl)
  continue-Leaves a stuck f w k = (refl, refl)

  bind-Leaves :
      {A B : Type 0} (a : ℕ) (m : Exec (World p) A) (f : A → Exec (World p) B)
      → Leaves a m
      → ((x : A) → Leaves a (f x))
      → Leaves a (m >>= f)
  bind-Leaves a m f l k w =
      let (e1, h1) = continue-Leaves a (m w).0 f (m w).1 k in
      let (e2, h2) = l w in (e1 ∙ e2, h1 ∙ h2)

  found-Leaves : (a : ℕ) (o : Option Vcpu) → Leaves a (found o)
  found-Leaves a none w = (refl, refl)
  found-Leaves a (some v) w = (refl, refl)

  assert-Leaves : (a : ℕ) (b : Bool) → Leaves a (assert b)
  assert-Leaves a true w = (refl, refl)
  assert-Leaves a false w = (refl, refl)

  set_registers-Leaves :
      (a : ℕ) (vcpu : Vcpu) (names : List RegisterName) (values : List RegisterValue)
      → Leaves a (set_registers vcpu names values)
  unfolding set_registers
  set_registers-Leaves a vcpu names values =
      bind-Leaves a (assert (length names == length values))
        (λ _. api (p.write_registers vcpu.partition vcpu.index names values))
        (assert-Leaves a (length names == length values))
        (λ _ w. (translates.written vcpu.partition vcpu.index names values w.machine a, refl))

  registers-Leaves :
      (a : ℕ) (engine : ReplayEngine) (names : List RegisterName) (values : List RegisterValue)
      → Leaves a (restore_registers engine names values)
  unfolding restore_registers active_vcpu
  registers-Leaves a engine names [] w = (refl, refl)
  registers-Leaves a engine names (v ∷ values) w =
      bind-Leaves a (active_vcpu engine) (λ vcpu. set_registers vcpu names (v ∷ values))
        (found-Leaves a (get engine.active_vcpu_id engine.vcpus))
        (λ vcpu. set_registers-Leaves a vcpu names (v ∷ values)) w

  map-beside :
      (ept : EptManager) (a host gpa size : ℕ)
      → ept.partition ≡ h
      → (a < gpa) ⊎ (gpa + size ≤ a)
      → Leaves a (map_gpa_range ept gpa host size 0x7)
  unfolding map_gpa_range
  map-beside ept a host gpa size same out w = (
    ap (λ k. at (p.map_range k host gpa size 0x7 w.machine).1 a) same
        ∙ translates.beside host gpa size 0x7 w.machine a out,
    refl,
  )

  regions-Leaves :
      (ept : EptManager) (a : ℕ) (regions : HashMap AlignedMemory)
      → ept.partition ≡ h
      → Outside a regions
      → Leaves a (map_regions ept regions)
  unfolding map_regions
  regions-Leaves ept a [] same out w = (refl, refl)
  regions-Leaves ept a ((gpa, mem) ∷ regions) same (o, out) w =
      bind-Leaves a (map_gpa_range ept gpa mem.ptr (len mem) 0x7) (λ _. map_regions ept regions)
        (map-beside ept a mem.ptr gpa mem.size same o) (λ _. regions-Leaves ept a regions same out)
        w

  map-mapped :
      (ept : EptManager) (a host gpa size : ℕ) (w w' : World p)
      → ept.partition ≡ h
      → map_gpa_range ept gpa host size 0x7 w ≡ (ok tt, w')
      → gpa ≤ a
      → a < gpa + size
      → (at w'.machine a ≡ some (host, a - gpa)) × (w'.heap ≡ w.heap)
  unfolding map_gpa_range
  map-mapped ept a host gpa size w w' same e low high =
      let success =
        ap (λ k. (p.map_range k host gpa size 0x7 w.machine).0) (sym same)
        ∙ answered _ (ap (λ x. x.0) e) in
      (
        ap (λ x. at x.1.machine a) (sym e)
            ∙ ap (λ k. at (p.map_range k host gpa size 0x7 w.machine).1 a) same
            ∙ translates.mapped host gpa size 0x7 w.machine a success low high,
        ap (λ x. x.1.heap) (sym e),
      )

  map-heap :
      (ept : EptManager) (gpa host size : ℕ) (w : World p) {r : Outcome (Unit {0})} {w' : World p}
      → map_gpa_range ept gpa host size 0x7 w ≡ (r, w')
      → w'.heap ≡ w.heap
  unfolding map_gpa_range
  map-heap ept gpa host size w e = ap (λ x. x.1.heap) (sym e)

  regions-Reads :
      (ept : EptManager) (regions : HashMap AlignedMemory) (contents : HashMap Bytes) (a b : ℕ)
      (w w' : World p)
      → ept.partition ≡ h
      → Holds w.heap regions contents
      → AreDisjoint regions
      → map_regions ept regions w ≡ (ok tt, w')
      → byte_at contents a ≡ some b
      → host_byte w'.heap (at w'.machine a) ≡ some b
  unfolding map_regions
  regions-Reads ept [] [] a b w w' same holds disjoint e reads = cc reads
  regions-Reads ept [] (c ∷ contents) a b w w' same holds disjoint e reads = elim holds [ ]
  regions-Reads ept (r ∷ regions) [] a b w w' same holds disjoint e reads = elim holds [ ]
  regions-Reads ept ((gpa, mem) ∷ regions) ((at', bytes) ∷ contents) a b w w' same
        (same_gpa, live, sized, apart, holds) (alone, disjoint) e reads =
      let (_, u, e1, e2) =
        bind-ok (map_gpa_range ept gpa mem.ptr (len mem) 0x7) (λ _. map_regions ept regions) w e in
      let heap_same : u.heap ≡ w.heap = map-heap ept gpa mem.ptr (len mem) w e1 in
      let holds' : Holds u.heap regions contents =
        subst (λ x. Holds x regions contents) (sym heap_same) holds in
      let rest = λ (f : byte_at contents a ≡ some b).
        regions-Reads ept regions contents a b u w' same holds' disjoint e2 f in
      elim (Bool-cases (ltb a at')) [
        | inl below ↦ rest (sym (byte_at-below at' bytes contents a below) ∙ reads)
        | inr above ↦ elim (Bool-cases (ltb a (at' + length bytes))) [
          | inr beyond ↦ rest (sym (byte_at-beyond at' bytes contents a above beyond) ∙ reads)
          | inl within ↦
              let low : gpa ≤ a = ground (arith, above, same_gpa) in
              let high : a < gpa + mem.size = ground (arith, within, same_gpa, sized) in
              let (mapped, _) = map-mapped ept a mem.ptr gpa (len mem) w u same e1 low high in
              let (kept, heap_kept) = regions-Leaves ept a regions same (alone a low high) u in
              ap (λ x. host_byte x.1.heap (at x.1.machine a)) (sym e2)
              ∙ (λ i. host_byte (heap_kept i) (kept i))
              ∙ (λ i. host_byte (heap_same i) (mapped i))
              ∙ ap (at_offset (a - gpa)) live
              ∙ ap (λ x. get_elem? bytes (a - x)) same_gpa
              ∙ sym (byte_at-within at' bytes contents a above within)
              ∙ reads
        ]
      ]

  -- After a restore that succeeds, for a partition whose mappings translate as documented, and regions
  -- that share no address: the guest reads at each address of the snapshot the byte it holds there.
  pub restore_snapshot-Reads :
      (engine : ReplayEngine) (snapshot : Snapshot) (names : List RegisterName)
      (contents : HashMap Bytes) (a b : ℕ) (w w' : World p)
      → as_raw engine.partition ≡ h
      → Holds w.heap snapshot.memory_regions contents
      → AreDisjoint snapshot.memory_regions
      → restore_snapshot engine snapshot names w ≡ (ok tt, w')
      → byte_at contents a ≡ some b
      → host_byte w'.heap (at w'.machine a) ≡ some b
  unfolding restore_snapshot
  restore_snapshot-Reads engine snapshot names contents a b w w' same holds disjoint e reads =
      let ept = Ept.new (as_raw engine.partition) in
      let (_, u, e1, e2) =
        bind-ok (map_regions ept snapshot.memory_regions)
          (λ _. restore_registers engine names snapshot.registers) w e in
      let (kept, heap_kept) = registers-Leaves a engine names snapshot.registers u in
      ap (λ x. host_byte x.1.heap (at x.1.machine a)) (sym e2)
      ∙ (λ i. host_byte (heap_kept i) (kept i))
      ∙ regions-Reads ept snapshot.memory_regions contents a b w u same holds disjoint e1 reads
