-- ===== src/Vmm/Paging/Walk.antt =====
-- How the processor reads page tables in 64-bit long mode (four levels, with 1 GB and 2 MB pages),
-- stated apart from the code: the specification that the built tables meet.
use vestigium.Common.{
  ℕ, ◌+◌, ◌-◌, ◌*◌, ◌/◌, ◌%◌, ◌^◌, ◌<◌, ◌≡◌, Bool, Option, none, some, refl, ap, ◌∙◌, true, false,
  length, Bool-cases, arith, leb, ltb, ◌==◌, ◌&&◌, if◌then◌else◌,
}
use mathlib.Core.Logic.{inl, inr}
use vestigium.Platform.{Bytes}
use vestigium.Vmm.Paging.Words.{word}

abbrev is_present : ℕ → Bool
is_present e = e % 2 == 1

-- The page-size bit.
abbrev is_leaf : ℕ → Bool
is_leaf e = e / 128 % 2 == 1

-- The address in bits 12 to 51, and those of large pages.
abbrev frame : ℕ → ℕ
frame e = e / 4096 % 2 ^ 40 * 4096

abbrev frame_2mb : ℕ → ℕ
frame_2mb e = e / 2 ^ 21 % 2 ^ 31 * 2 ^ 21

abbrev frame_1gb : ℕ → ℕ
frame_1gb e = e / 2 ^ 30 % 2 ^ 22 * 2 ^ 30

-- The entry at a physical address, of tables that stand at `base`; other memory reads as 0.
pub entry : Bytes → ℕ → ℕ → ℕ
entry b base a = if leb base a && ltb a (base + 12288) then word b ((a - base) / 8) else 0

module _ (b : Bytes) (base va : ℕ) where
  walk_pt : ℕ → Option ℕ
  walk_pt table =
      let e = entry b base (table + 8 * (va / 2 ^ 12 % 512)) in
      if is_present e then some (frame e + va % 2 ^ 12) else none

  walk_pd : ℕ → Option ℕ
  walk_pd table =
      let e = entry b base (table + 8 * (va / 2 ^ 21 % 512)) in
      if is_present e
      then (if is_leaf e then some (frame_2mb e + va % 2 ^ 21) else walk_pt (frame e))
      else none

  walk_pdpt : ℕ → Option ℕ
  walk_pdpt table =
      let e = entry b base (table + 8 * (va / 2 ^ 30 % 512)) in
      if is_present e
      then (if is_leaf e then some (frame_1gb e + va % 2 ^ 30) else walk_pd (frame e))
      else none

  -- The physical address of `va`, with CR3 at `base`; `none` is a page fault.
  pub walk : Option ℕ
  walk =
      let e = entry b base (base + 8 * (va / 2 ^ 39 % 512)) in
      if is_present e then walk_pdpt (frame e) else none

-- The words of the tables, with `k` entries of the page directory written.
pub record IsTable (base k : ℕ) (b : Bytes) : Type 0 where
  pub size : length b ≡ 12288
  pub root : word b 0 ≡ base + 4099
  pub root_rest : (j : ℕ) → 0 < j → j < 512 → word b j ≡ 0
  pub middle : word b 512 ≡ base + 8195
  pub middle_rest : (j : ℕ) → 512 < j → j < 1024 → word b j ≡ 0
  pub directory : (j : ℕ) → j < k → word b (1024 + j) ≡ j * 2097152 + 131

module _ (b : Bytes) (base va : ℕ) (aligned : base % 4096 ≡ 0) (low : base + 12288 < 2 ^ 52)
    (t : IsTable base 512 b) where
  entry_at : (j a : ℕ) → j < 1536 → a ≡ base + 8 * j → entry b base a ≡ word b j
  unfolding entry
  entry_at j a h e =
      let inside : (leb base a && ltb a (base + 12288)) ≡ true = ground arith in
      let index : (a - base) / 8 ≡ j = omega arith in rw (inside, index)

  pd_lem : walk_pd b base va (base + 8192) ≡ some (va % 2 ^ 30)
  unfolding walk_pd
  pd_lem =
      let i : ℕ = va / 2 ^ 21 % 512 in
      let e : entry b base (base + 8192 + 8 * (va / 2 ^ 21 % 512)) ≡ i * 2097152 + 131 =
        entry_at (1024 + i) _ (omega arith) (omega arith) ∙ t.directory i (omega arith) in
      let present : is_present (i * 2097152 + 131) ≡ true = ground arith in
      let leaf : is_leaf (i * 2097152 + 131) ≡ true = ground arith in
      rw (e, present, leaf) (ap some (omega arith))

  pdpt_lem :
      walk_pdpt b base va (base + 4096)
      ≡ (if va / 2 ^ 30 % 512 == 0 then some (va % 2 ^ 30) else none)
  unfolding walk_pdpt
  pdpt_lem = elim (Bool-cases (va / 2 ^ 30 % 512 == 0)) [
    | inl z ↦
        let e : entry b base (base + 4096 + 8 * (va / 2 ^ 30 % 512)) ≡ base + 8195 =
          entry_at 512 _ (omega arith) (ground arith) ∙ t.middle in
        let present : is_present (base + 8195) ≡ true = ground arith in
        let leaf : is_leaf (base + 8195) ≡ false = ground arith in
        let next : frame (base + 8195) ≡ base + 8192 = omega arith in
        rw (e, present, leaf, next, z) pd_lem
    | inr nz ↦
        let i : ℕ = va / 2 ^ 30 % 512 in
        let e : entry b base (base + 4096 + 8 * (va / 2 ^ 30 % 512)) ≡ 0 =
          entry_at (512 + i) _ (omega arith) (omega arith)
          ∙ t.middle_rest (512 + i) (ground arith) (omega arith) in
        rw (e, nz)
  ]

  -- The walk of the tables.
  pub walk_lem : va < 2 ^ 48 → walk b base va ≡ (if ltb va (2 ^ 30) then some va else none)
  unfolding walk
  walk_lem h = elim (Bool-cases (va / 2 ^ 39 % 512 == 0)) [
    | inl z ↦
        let e : entry b base (base + 8 * (va / 2 ^ 39 % 512)) ≡ base + 4099 =
          entry_at 0 _ (omega arith) (ground arith) ∙ t.root in
        let present : is_present (base + 4099) ≡ true = ground arith in
        let next : frame (base + 4099) ≡ base + 4096 = omega arith in
        rw (e, present, next, pdpt_lem) (ground arith)
    | inr nz ↦
        let i : ℕ = va / 2 ^ 39 % 512 in
        let e : entry b base (base + 8 * (va / 2 ^ 39 % 512)) ≡ 0 =
          entry_at i _ (omega arith) refl ∙ t.root_rest i (ground arith) (omega arith) in
        let far : ltb va (2 ^ 30) ≡ false = ground arith in rw (e, far)
  ]
