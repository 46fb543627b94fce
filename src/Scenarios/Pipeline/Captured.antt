-- ===== src/Scenarios/Pipeline/Captured.antt =====
-- What the record phase of the pipeline's test captures.
use vestigium.Common.{
  ℕ, ◌+◌, ◌≤◌, ◌≡◌, refl, sym, ap, ◌∙◌, some, [], ◌∷◌, length, length-drop, take, drop, get_elem?,
  arith,
}
use mathlib.Core.Path.{subst}
use vestigium.Common.Exec.{ok, Exec, ◌>>=◌}
use vestigium.Common.Steps.{bind-step}
use vestigium.Common.Bytes.{splice, length-splice, length-take}
use vestigium.Common.HashMap.{HashMap, insert}
use vestigium.Platform.{Platform, World, Bytes, Heap, block, zeroed, store}
use vestigium.Platform.Access.{block-append, length-zeroed, store-ok, stored, block-store}
use vestigium.Platform.Whole.{with_block, take-all}
use vestigium.Vmm.Paging.{create_identity_mapping}
use vestigium.Vmm.Paging.Walk.{walk}
use vestigium.Vmm.Paging.Build.{identity_mapping}
use vestigium.Vmm.Paging.Frame.{create_identity_mapping-frame}
use vestigium.Engine.Memory.{AlignedMemory}
use vestigium.Engine.Memory.Alloc.{Allocates}
use vestigium.Engine.Snapshot
use vestigium.Engine.Snapshot.{Snapshot, capture_region}
use vestigium.Engine.Snapshot.Holds.{Holds}
use vestigium.Engine.Snapshot.Capture.{capture_region-Holds}
use vestigium.Scenarios.Pipeline.{record_phase}

-- The buffers of a snapshot stand for what they stood for while every live block is kept.
Holds-kept :
    (heap heap' : Heap) (regions : HashMap AlignedMemory) (contents : HashMap Bytes)
    → ((q : ℕ) (c : Bytes) → block q heap ≡ some c → block q heap' ≡ some c)
    → Holds heap regions contents
    → Holds heap' regions contents
Holds-kept heap heap' [] [] keep h = tt
Holds-kept heap heap' [] (c ∷ contents) keep h = h
Holds-kept heap heap' (r ∷ regions) [] keep h = h
Holds-kept heap heap' ((gpa, mem) ∷ regions) ((at, bytes) ∷ contents) keep
      (e, live, sized, apart, h) =
    (e, keep mem.ptr bytes live, sized, apart, Holds-kept heap heap' regions contents keep h)

-- The page that the test has filled.
abbrev page : Bytes
page = splice 2 (0xF4 ∷ []) (splice 1 (0x31 ∷ []) (splice 0 (0x0F ∷ []) (zeroed 4096)))

length-page : length page ≡ 4096
length-page =
    let z = zeroed 4096 in
    omega (
      arith,
      length-drop 1 (drop 1 (drop 1 z)),
      length-drop 1 (drop 1 z),
      length-drop 1 z,
      length-zeroed 4096,
    )

page-le : 4096 ≤ length page
page-le = omega (arith, length-page)

same-le : {a b n : ℕ} → a ≡ n → b ≡ n → a ≤ b
same-le e e' = omega (arith, e, e')

-- A snapshot of the code and of tables that map the code's addresses to themselves.
pub record Captured (s : Snapshot) (heap : Heap) : Type 0 where
  pub code : Bytes
  pub table : Bytes
  pub holds : Holds heap s.memory_regions ((0x1000, code) ∷ (0x2000, table) ∷ [])
  pub sized : length code ≡ 4096
  pub tables_sized : length table ≡ 12288
  pub walks_rdtsc : walk table 0x2000 0x1000 ≡ some 0x1000
  pub walks_hlt : walk table 0x2000 0x1002 ≡ some 0x1002
  pub at_0 : get_elem? code 0 ≡ some 0x0F
  pub at_1 : get_elem? code 1 ≡ some 0x31
  pub at_2 : get_elem? code 2 ≡ some 0xF4
  pub no_registers : s.registers ≡ []

module _ {p : Platform} where
  -- The calls after the allocation, after each store, and after the first capture.
  abbrev with_tables : Snapshot → Exec (World p) Snapshot
  with_tables s = create_identity_mapping 0x2000 >>= λ t. capture_region s 0x2000 t.host_ptr t.size

  abbrev after_stores : ℕ → Exec (World p) Snapshot
  after_stores ptr = capture_region Snapshot.new 0x1000 ptr 4096 >>= with_tables

  abbrev third : ℕ → Exec (World p) Snapshot
  third ptr = store ptr 2 (0xF4 ∷ []) >>= λ _. after_stores ptr

  abbrev second : ℕ → Exec (World p) Snapshot
  second ptr = store ptr 1 (0x31 ∷ []) >>= λ _. third ptr

  alloc-step :
      (w : World p)
      → Allocates p w.heap 4096
      → record_phase w
        ≡ (store (length w.heap) 0 (0x0F ∷ []) >>= λ _. second (length w.heap))
            (with_block (zeroed 4096) w)
  unfolding record_phase
  alloc-step w a = rw (a.room) refl

  pub record_phase-Captured :
      (w : World p)
      → ((heap : Heap) → Allocates p heap 4096)
      → ((heap : Heap) → Allocates p heap 12288)
      → (s : Snapshot) × (w' : World p) × (record_phase w ≡ (ok s, w')) × Captured s w'.heap
  record_phase-Captured w room tables_room =
      let ptr = length w.heap in
      let z = zeroed 4096 in
      let b1 = splice 0 (0x0F ∷ []) z in
      let b2 = splice 1 (0x31 ∷ []) b1 in
      let w0 = with_block z w in
      let live0 = block-append w.heap (some z) in
      let fits0 : 0 + 1 ≤ length z = omega (arith, length-zeroed 4096) in
      let w1 = stored ptr 0 (0x0F ∷ []) z w0 live0 fits0 in
      let live1 = block-store ptr 0 (0x0F ∷ []) z w0 live0 fits0 in
      let size1 : length b1 ≡ length z = length-splice 0 (0x0F ∷ []) z fits0 in
      let fits1 : 1 + 1 ≤ length b1 = omega (arith, size1, length-zeroed 4096) in
      let w2 = stored ptr 1 (0x31 ∷ []) b1 w1 live1 fits1 in
      let live2 = block-store ptr 1 (0x31 ∷ []) b1 w1 live1 fits1 in
      let size2 : length b2 ≡ length b1 = length-splice 1 (0x31 ∷ []) b1 fits1 in
      let fits2 : 2 + 1 ≤ length b2 = omega (arith, size2, size1, length-zeroed 4096) in
      let w3 = stored ptr 2 (0xF4 ∷ []) b2 w2 live2 fits2 in
      let live3 = block-store ptr 2 (0xF4 ∷ []) b2 w2 live2 fits2 in
      let (s1, w4, run1, h1, regs1, _, _, _) =
        capture_region-Holds Snapshot.new [] 0x1000 ptr 4096 page w3 tt live3 page-le
          (room w3.heap) in
      let (tables, w5, built, im) =
        identity_mapping 0x2000 w4 (omega arith) (omega arith) ((tables_room w4.heap).room) in
      let keep = λ (q : ℕ) (c : Bytes) (live : block q w4.heap ≡ some c).
        ap (λ x. block q x.1.heap) (sym built)
        ∙ create_identity_mapping-frame q 0x2000 w4 c ((tables_room w4.heap).room) live in
      let h2 =
        Holds-kept w4.heap w5.heap s1.memory_regions (insert 0x1000 (take 4096 page) []) keep h1 in
      let (s2, w6, run2, h3, regs2, _, _, _) =
        capture_region-Holds s1 (insert 0x1000 (take 4096 page) []) 0x2000 tables.host_ptr
          tables.size im.content w5 h2 im.live (same-le im.size_known im.sized)
          (subst (λ n. Allocates p w5.heap n) (sym im.size_known) (tables_room w5.heap)) in
      let whole : take tables.size im.content ≡ im.content =
        take-all im.content tables.size (im.size_known ∙ sym im.sized) in
      (
        s2,
        w6,
        alloc-step w (room w.heap)
            ∙ bind-step (store ptr 0 (0x0F ∷ [])) (λ _. second ptr) w0
                (store-ok ptr 0 (0x0F ∷ []) z w0 live0 fits0)
            ∙ bind-step (store ptr 1 (0x31 ∷ [])) (λ _. third ptr) w1
                (store-ok ptr 1 (0x31 ∷ []) b1 w1 live1 fits1)
            ∙ bind-step (store ptr 2 (0xF4 ∷ [])) (λ _. after_stores ptr) w2
                (store-ok ptr 2 (0xF4 ∷ []) b2 w2 live2 fits2)
            ∙ bind-step (capture_region Snapshot.new 0x1000 ptr 4096) with_tables w3 run1
            ∙ bind-step (create_identity_mapping 0x2000)
                (λ t. capture_region s1 0x2000 t.host_ptr t.size) w4 built
            ∙ run2,
        record {
          code = take 4096 page;
          table = take tables.size im.content;
          holds = h3;
          sized = length-take 4096 page page-le;
          tables_sized = ap length whole ∙ im.sized;
          walks_rdtsc = ap (λ t. walk t 0x2000 0x1000) whole ∙ im.translates 0x1000;
          walks_hlt = ap (λ t. walk t 0x2000 0x1002) whole ∙ im.translates 0x1002;
          at_0 = refl;
          at_1 = refl;
          at_2 = refl;
          no_registers = regs2 ∙ regs1;
        },
      )
