-- ===== src/Cli/Layout/Parts.antt =====
-- `map_guest`: each part allocates its block, and keeps the blocks there are.
use vestigium.Common.{ℕ, true, ◌≡◌, refl, sym, ap, ◌∙◌, some, [], ◌∷◌, length, arith}
use mathlib.Core.Path.{subst}
use vestigium.Common.Exec.{Outcome, ok, Exec, pure, expect, ◌>>=◌, ◌>>◌}
use vestigium.Common.Steps.{bind-ok, bind-step}
use vestigium.Platform.Frame.{Keeps, bind-Keeps, add_u64-Keeps}
use vestigium.Platform.Whole.{with_block}
use vestigium.Vmm.Paging.Frame.{create_identity_mapping-frame}
use vestigium.Platform.{Platform, World, Bytes, Heap, block, zeroed, add_u64}
use vestigium.Platform.Access.{block-append, block-append_left}
use vestigium.Vmm.Ept.{EptManager, map_gpa_range}
use vestigium.Vmm.Paging.{PageTable, create_identity_mapping}
use vestigium.Vmm.Paging.Build.{IsIdentityMap, identity_mapping}
use vestigium.Engine.Memory
use vestigium.Engine.Memory.{AlignedMemory}
use vestigium.Engine.Memory.Alloc.{Allocates, new-ok}
use vestigium.Cli.Layout.{
  base_gpa, stack_size, pt_gpa, stack_base, map_stack, map_null_page, map_page_table,
}

-- The allocator has room for the stack, the null page and the tables, on any heap.
pub record HasSpace (p : Platform) : Type 0 where
  pub stack_room : (heap : Heap) → Allocates p heap stack_size
  pub null_room : (heap : Heap) → Allocates p heap 0x1000
  pub tables_room : (heap : Heap) → Allocates p heap 12288

module _ {p : Platform} where
  -- Every block that is live before is live after, with the same bytes.
  abbrev pub Retains : World p → World p → Type 0
  Retains w u = (q : ℕ) (c : Bytes) → block q w.heap ≡ some c → block q u.heap ≡ some c

  pub map-Keeps :
      (q : ℕ) (ept : EptManager) (gpa host size flags : ℕ)
      → Keeps {p = p} q (expect (map_gpa_range ept gpa host size flags))
  unfolding map_gpa_range
  map-Keeps q ept gpa host size flags w = refl

  stack_base-Keeps : (q size : ℕ) → Keeps {p = p} q (stack_base size)
  unfolding stack_base
  stack_base-Keeps q size =
      bind-Keeps q (add_u64 size 0xFFF) _ (add_u64-Keeps q size 0xFFF)
        (λ end. add_u64-Keeps q base_gpa _)

  pub Keeps-Retains :
      {A : Type 0} (m : Exec (World p) A) (w : World p) {r : Outcome A} {u : World p}
      → ((q : ℕ) → Keeps q m)
      → m w ≡ (r, u)
      → Retains w u
  Keeps-Retains m w k e q c live = ap (λ x. block q x.1.heap) (sym e) ∙ k q w ∙ live

  -- after an allocation, calls that leave the blocks alone
  new-Retains :
      {A : Type 0} (n : ℕ) (f : AlignedMemory → Exec (World p) A) (w : World p) {a : A}
      {u : World p}
      → Allocates p w.heap n
      → ((mem : AlignedMemory) (q : ℕ) → Keeps q (f mem))
      → (Memory.new n >>= f) w ≡ (ok a, u)
      → (block (length w.heap) u.heap ≡ some (zeroed n))
        × Retains w u
        × (f (record { ptr = length w.heap; size = n }) (with_block (zeroed n) w) ≡ (ok a, u))
  new-Retains n f w alloc k e =
      let mem : AlignedMemory = record { ptr = length w.heap; size = n } in
      let e' = sym (bind-step (Memory.new n) f w (new-ok n w alloc)) ∙ e in
      let keep = Keeps-Retains (f mem) (with_block (zeroed n) w) (k mem) e' in
      (
        keep (length w.heap) (zeroed n) (block-append w.heap (some (zeroed n))),
        λ q c live. keep q c (block-append_left q w.heap (some (zeroed n) ∷ []) live),
        e',
      )

  pub result-same :
      {A : Type 0} {a b : A} {w u : World p}
      → ◌≡◌ {A = Outcome A × World p} (ok a, w) (ok b, u)
      → a ≡ b
  result-same e = cc (ap (λ x. x.0) e)

  -- a mapping, and then a value
  abbrev mapping : {A : Type 0} → EptManager → ℕ → ℕ → ℕ → A → Exec (World p) A
  mapping ept gpa host size a = do expect (map_gpa_range ept gpa host size 0x7); pure a

  mapping-same :
      {A : Type 0} (ept : EptManager) (gpa host size : ℕ) (a : A) (w : World p) {b : A}
      {u : World p}
      → mapping ept gpa host size a w ≡ (ok b, u)
      → a ≡ b
  mapping-same ept gpa host size a w e =
      let (_, v, _, k) = bind-ok (expect (map_gpa_range ept gpa host size 0x7)) (λ _. pure a) w e in
      result-same k

  mapping-Keeps :
      {A : Type 0} (q : ℕ) (ept : EptManager) (gpa host size : ℕ) (a : A)
      → Keeps q (mapping ept gpa host size a)
  mapping-Keeps q ept gpa host size a =
      bind-Keeps q (expect (map_gpa_range ept gpa host size 0x7)) (λ _. pure a)
        (map-Keeps q ept gpa host size 0x7) (λ _ w. refl)

  pub null_page-live :
      (ept : EptManager) (w : World p) {mem : AlignedMemory} {u : World p}
      → Allocates p w.heap 0x1000
      → map_null_page ept w ≡ (ok mem, u)
      → (block mem.ptr u.heap ≡ some (zeroed 0x1000)) × Retains w u
  unfolding map_null_page
  null_page-live ept w {u = u} alloc e =
      let (live, keep, rest) =
        new-Retains 0x1000 (λ m. mapping ept 0x0 m.ptr 0x1000 m) w alloc
          (λ m q. mapping-Keeps q ept 0x0 m.ptr 0x1000 m) e in
      (
        subst (λ (m : AlignedMemory). block m.ptr u.heap ≡ some (zeroed 0x1000))
            (mapping-same ept 0x0 (length w.heap) 0x1000
              (record { ptr = length w.heap; size = 0x1000 }) (with_block (zeroed 0x1000) w) rest)
            live,
        keep,
      )

  abbrev placed : EptManager → ℕ → AlignedMemory → Exec (World p) (AlignedMemory × ℕ)
  placed ept size m = stack_base size >>= λ gpa. mapping ept gpa m.ptr stack_size (m, gpa)

  placed-Keeps :
      (q : ℕ) (ept : EptManager) (size : ℕ) (m : AlignedMemory) → Keeps q (placed ept size m)
  placed-Keeps q ept size m =
      bind-Keeps q (stack_base size) (λ gpa. mapping ept gpa m.ptr stack_size (m, gpa))
        (stack_base-Keeps q size) (λ gpa. mapping-Keeps q ept gpa m.ptr stack_size (m, gpa))

  pub stack-live :
      (ept : EptManager) (size : ℕ) (w : World p) {stack : AlignedMemory × ℕ} {u : World p}
      → Allocates p w.heap stack_size
      → map_stack ept size w ≡ (ok stack, u)
      → (block stack.0.ptr u.heap ≡ some (zeroed stack_size)) × Retains w u
  unfolding map_stack
  stack-live ept size w {u = u} alloc e =
      let m : AlignedMemory = record { ptr = length w.heap; size = stack_size } in
      let (live, keep, rest) =
        new-Retains stack_size (placed ept size) w alloc (λ m q. placed-Keeps q ept size m) e in
      let (gpa, v, _, last) =
        bind-ok (stack_base size) (λ gpa. mapping ept gpa m.ptr stack_size (m, gpa))
          (with_block (zeroed stack_size) w) rest in
      (
        subst (λ (s : AlignedMemory × ℕ). block s.0.ptr u.heap ≡ some (zeroed stack_size))
            (mapping-same ept gpa m.ptr stack_size (m, gpa) v last) live,
        keep,
      )

  pub table-live :
      (ept : EptManager) (w : World p) {table : PageTable} {u : World p}
      → p.has_room w.heap 12288 ≡ true
      → map_page_table ept w ≡ (ok table, u)
      → IsIdentityMap pt_gpa table u × Retains w u
  unfolding map_page_table
  table-live ept w {u = u} room e =
      let (made, v, built, is_map) = identity_mapping pt_gpa w (omega arith) (omega arith) room in
      let rest =
        sym (
          bind-step (create_identity_mapping pt_gpa) (λ t. mapping ept pt_gpa t.host_ptr t.size t) w
            built)
        ∙ e in
      let keep =
        Keeps-Retains (mapping ept pt_gpa made.host_ptr made.size made) v
          (λ q. mapping-Keeps q ept pt_gpa made.host_ptr made.size made) rest in
      (
        subst (λ t. IsIdentityMap pt_gpa t u)
            (mapping-same ept pt_gpa made.host_ptr made.size made v rest)
            (record {
              content = is_map.content;
              at_base = is_map.at_base;
              size_known = is_map.size_known;
              live = keep made.host_ptr is_map.content is_map.live;
              sized = is_map.sized;
              translates = is_map.translates;
            }),
        λ q c live. keep q c (
            ap (λ x. block q x.1.heap) (sym built)
            ∙ create_identity_mapping-frame q pt_gpa w c room live),
      )
