-- ===== src/Cli/Layout/Placed.antt =====
-- Where `map_guest` maps the guest's addresses.
use vestigium.Common.{
  ℕ, ◌+◌, ◌-◌, ◌*◌, ◌/◌, ◌^◌, ◌<◌, ◌≡◌, refl, sym, ap, ◌∙◌, ltb, Bool-cases, inl, inr, Option, some,
  arith, if◌then◌else◌,
}
use vestigium.Common.Exec.{ok, pure, expect, expected, ◌>>=◌}
use vestigium.Common.Steps.{bind-ok, bind-step, ok-same}
use vestigium.Platform.{Platform, World, done, failed, Answer, answer}
use vestigium.Vmm.Ept.{EptManager, map_gpa_range}
use vestigium.Vmm.Paging.{PageTable, create_identity_mapping}
use vestigium.Vmm.Paging.Build.{identity_mapping}
use vestigium.Vmm.Paging.Frame.{create_identity_mapping-machine}
use vestigium.Engine.Memory
use vestigium.Engine.Memory.{AlignedMemory}
use vestigium.Engine.Memory.Alloc.{new-ok}
use vestigium.Engine.Replay.Translation.{Translates}
use vestigium.Cli.Layout.{
  Layout, base_gpa, stack_size, pt_gpa, stack_base, map_stack, map_null_page, map_page_table,
  map_guest,
}
use vestigium.Cli.Layout.Bounds.{stack_base_lem}
use vestigium.Cli.Layout.Parts.{HasSpace}
use vestigium.Cli.Layout.Mapped.{laid}

abbrev View : Type 0
View = ℕ → Option (ℕ × ℕ)

-- A view of the guest's addresses with a block of the host over a range of them.
abbrev pub over : ℕ → ℕ → ℕ → View → View
over gpa size host view a =
    if ltb a gpa then view a else if ltb a (gpa + size) then some (host, a - gpa) else view a

-- The guest's addresses: the page tables at 2 MiB, over the null page at 0, over the stack of 64 KiB,
-- over the image at 1 MiB, over what was there.
abbrev pub guest_view : Layout → View → View
guest_view layout view = over 0x200000 12288 layout.page_table.host_ptr (
    over 0 4096 layout.null_page.ptr (
      over layout.stack_base_gpa 65536 layout.stack_memory.ptr
        (over 0x100000 layout.size layout.host_ptr view)))

answered-done : (a : Answer (Unit {0})) → expected (answer a) ≡ ok tt → a ≡ done tt
answered-done (done tt) e = refl
answered-done (failed c) e = cc e

module _ {p : Platform} (ept : EptManager) (at : p.Machine → View)
    (translates : Translates p ept.partition at) where
  -- A mapping that succeeds.
  map-over :
      (gpa host size : ℕ) (w u : World p)
      → expect (map_gpa_range ept gpa host size 0x7) w ≡ (ok tt, u)
      → (a : ℕ) → at u.machine a ≡ over gpa size host (at w.machine) a
  unfolding map_gpa_range
  map-over gpa host size w u e a =
      let m = (p.map_range ept.partition host gpa size 0x7 w.machine).1 in
      let ran : (p.map_range ept.partition host gpa size 0x7 w.machine).0 ≡ done tt =
        answered-done _ (ap (λ x. x.0) e) in
      let same : u.machine ≡ m = ap (λ x. x.1.machine) (sym e) in
      ap (λ n. at n a) same ∙ elim (Bool-cases (ltb a gpa)) [
        | inl low ↦
            rw low (translates.beside host gpa size 0x7 w.machine a (inl (ground (arith, low))))
        | inr high ↦ elim (Bool-cases (ltb a (gpa + size))) [
          | inl inside ↦
              rw (high, inside)
                (translates.mapped host gpa size 0x7 w.machine a ran (ground (arith, high))
                  (ground (arith, inside)))
          | inr beyond ↦
              rw (high, beyond)
                (translates.beside host gpa size 0x7 w.machine a (inr (ground (arith, beyond))))
        ]
      ]

  -- A mapping, and then a value, after calls that leave the machine alone.
  mapping-over :
      {A : Type 0} (gpa host size : ℕ) (x : A) (w w0 u : World p) {y : A}
      → w.machine ≡ w0.machine
      → (expect (map_gpa_range ept gpa host size 0x7) >>= λ _. pure x) w ≡ (ok y, u)
      → (x ≡ y) × ((a : ℕ) → at u.machine a ≡ over gpa size host (at w0.machine) a)
  mapping-over gpa host size x w w0 u same e =
      let (_, v, mapped, last) =
        bind-ok (expect (map_gpa_range ept gpa host size 0x7)) (λ _. pure x) w e in
      (
        ok-same (ap (λ r. r.0) last),
        λ a.
            ap (λ (r : _ × World p). at r.1.machine a) (sym last)
            ∙ map-over gpa host size w v mapped a
            ∙ ap (λ m. over gpa size host (at m) a) same,
      )

  null_page-over :
      (w u : World p) (mem : AlignedMemory)
      → HasSpace p
      → map_null_page ept w ≡ (ok mem, u)
      → (a : ℕ) → at u.machine a ≡ over 0 4096 mem.ptr (at w.machine) a
  unfolding map_null_page
  null_page-over w u mem space e a =
      let (m, v, made, rest) =
        bind-ok (Memory.new 0x1000)
          (λ m. expect (map_gpa_range ept 0x0 m.ptr 0x1000 0x7) >>= λ _. pure m) w e in
      let same : v.machine ≡ w.machine =
        ap (λ x. x.1.machine) (sym made ∙ new-ok 0x1000 w (space.null_room w.heap)) in
      let (x, seen) = mapping-over 0x0 m.ptr 0x1000 m v w u same rest in
      seen a ∙ ap (λ (n : AlignedMemory). over 0 4096 n.ptr (at w.machine) a) x

  stack-over :
      (size : ℕ) (w u : World p) (stack : AlignedMemory × ℕ)
      → HasSpace p
      → size < 2 ^ 63
      → map_stack ept size w ≡ (ok stack, u)
      → (stack.1 ≡ 0x100000 + (size + 4095) / 4096 * 4096)
        × ((a : ℕ) → at u.machine a ≡ over stack.1 65536 stack.0.ptr (at w.machine) a)
  unfolding map_stack
  stack-over size w u stack space small e =
      let (m, v, made, rest) =
        bind-ok (Memory.new stack_size)
          (λ m. stack_base size >>= λ gpa.
            expect (map_gpa_range ept gpa m.ptr stack_size 0x7) >>= λ _. pure (m, gpa))
          w e in
      let same : v.machine ≡ w.machine =
        ap (λ x. x.1.machine) (sym made ∙ new-ok stack_size w (space.stack_room w.heap)) in
      let (gpa, t, found, last) =
        bind-ok (stack_base size)
          (λ gpa. expect (map_gpa_range ept gpa m.ptr stack_size 0x7) >>= λ _. pure (m, gpa)) v
          rest in
      let at_base = sym found ∙ stack_base_lem size v small in
      let same' : t.machine ≡ w.machine = ap (λ x. x.1.machine) at_base ∙ same in
      let (x, seen) = mapping-over gpa m.ptr stack_size (m, gpa) t w u same' last in
      (
        ap (λ (s : AlignedMemory × ℕ). s.1) (sym x) ∙ ok-same (ap (λ r. r.0) at_base),
        λ a. seen a ∙ ap (λ (s : AlignedMemory × ℕ). over s.1 65536 s.0.ptr (at w.machine) a) x,
      )

  table-over :
      (w u : World p) (table : PageTable)
      → HasSpace p
      → map_page_table ept w ≡ (ok table, u)
      → (a : ℕ) → at u.machine a ≡ over 0x200000 12288 table.host_ptr (at w.machine) a
  unfolding map_page_table
  table-over w u table space e a =
      let room = (space.tables_room w.heap).room in
      let (made, v, built, is_map) = identity_mapping pt_gpa w (omega arith) (omega arith) room in
      let rest =
        sym (
          bind-step (create_identity_mapping pt_gpa)
            (λ t. expect (map_gpa_range ept pt_gpa t.host_ptr t.size 0x7) >>= λ _. pure t) w built)
        ∙ e in
      let same : v.machine ≡ w.machine =
        ap (λ x. x.1.machine) (sym built) ∙ create_identity_mapping-machine pt_gpa w room in
      let (x, seen) = mapping-over pt_gpa made.host_ptr made.size made v w u same rest in
      seen a
      ∙ ap (λ n. over 0x200000 n made.host_ptr (at w.machine) a) is_map.size_known
      ∙ ap (λ (t : PageTable). over 0x200000 12288 t.host_ptr (at w.machine) a) x

  over-same :
      (gpa size host : ℕ) (view view' : View)
      → ((a : ℕ) → view a ≡ view' a)
      → (a : ℕ) → over gpa size host view a ≡ over gpa size host view' a
  over-same gpa size host view view' e a = λ i. over gpa size host (λ b. e b i) a

  -- A call of `map_guest` that succeeds places the stack at the page after the image, and the four
  -- parts where the guest is to see them.
  pub map_guest-over :
      (host_ptr size : ℕ) (w w' : World p) (layout : Layout)
      → HasSpace p
      → size < 2 ^ 63
      → map_guest ept host_ptr size w ≡ (ok layout, w')
      → (layout.stack_base_gpa ≡ 0x100000 + (size + 4095) / 4096 * 4096)
        × ((a : ℕ) → at w'.machine a ≡ guest_view layout (at w.machine) a)
  unfolding map_guest
  map_guest-over host_ptr size w w' layout space small e =
      let (_, w1, e1, k1) =
        bind-ok (expect (map_gpa_range ept base_gpa host_ptr size 0x7))
          (λ _. map_stack ept size >>= λ stack. map_null_page ept >>= λ null_page.
            map_page_table ept >>= λ t. pure (laid host_ptr size stack null_page t))
          w e in
      let (stack, w2, e2, k2) =
        bind-ok (map_stack ept size)
          (λ stack. map_null_page ept >>= λ null_page.
            map_page_table ept >>= λ t. pure (laid host_ptr size stack null_page t))
          w1 k1 in
      let (null_page, w3, e3, k3) =
        bind-ok (map_null_page ept)
          (λ null_page. map_page_table ept >>= λ t. pure (laid host_ptr size stack null_page t)) w2
          k2 in
      let (table, w4, e4, k4) =
        bind-ok (map_page_table ept) (λ t. pure (laid host_ptr size stack null_page t)) w3 k3 in
      let v1 = map-over base_gpa host_ptr size w w1 e1 in
      let (base, v2) = stack-over size w1 w2 stack space small e2 in
      let v3 = null_page-over w2 w3 null_page space e3 in
      let v4 = table-over w3 w4 table space e4 in
      let same : laid host_ptr size stack null_page table ≡ layout = ok-same (ap (λ r. r.0) k4) in
      let view1 = over 0x100000 size host_ptr (at w.machine) in
      let view2 = over stack.1 65536 stack.0.ptr view1 in
      (
        ap (λ (l : Layout). l.stack_base_gpa) (sym same) ∙ base,
        λ a.
            ap (λ (r : _ × World p). at r.1.machine a) (sym k4)
            ∙ v4 a
            ∙ over-same 0x200000 12288 table.host_ptr (at w3.machine)
                (over 0 4096 null_page.ptr view2)
                (λ b.
                  v3 b
                  ∙ over-same 0 4096 null_page.ptr (at w2.machine) view2
                      (λ c. v2 c ∙ over-same stack.1 65536 stack.0.ptr (at w1.machine) view1 v1 c)
                      b)
                a
            ∙ ap (λ l. guest_view l (at w.machine) a) same,
      )
