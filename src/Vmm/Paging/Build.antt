-- ===== src/Vmm/Paging/Build.antt =====
-- The tables that `create_identity_mapping` writes.
use Prim.Native.Nat.{bit_or}
use vestigium.Common.{
  ℕ, zero, suc, ◌+◌, ◌*◌, ◌%◌, ◌^◌, ◌≤◌, ◌<◌, ◌≡◌, refl, sym, ◌∙◌, true, some, none, [], ◌∷◌, ◌++◌,
  length, arith, ltb, ◌==◌, if◌then◌else◌, Bool-cases, inl, inr, ◌≢◌,
}
use mathlib.Core.Path.{subst}
use vestigium.Common.Exec.{ok}
use vestigium.Common.Steps.{bind-step}
use vestigium.Common.Bytes.{splice, length-splice, byte, le_read}
use vestigium.Common.Words.{u64_bytes}
use vestigium.Platform.{Platform, World, Bytes, block, store, zeroed, add_u64}
use vestigium.Platform.Access.{
  store-ok, block-store, stored, block-append, length-zeroed, byte-zeroed,
}
use vestigium.Vmm.Paging.{PageTable, huge_page, fill_directory, create_identity_mapping}
use vestigium.Vmm.Paging.Words.{word, word-splice_self, word-splice_ne, huge_page_lem, link_lem}
use vestigium.Vmm.Paging.Walk.{IsTable, walk, walk_lem}

module _ (base i : ℕ) (b : Bytes) (h : i < 512) (t : IsTable base i b) where
  abbrev next : Bytes
  next = splice (8 * (1024 + i)) (u64_bytes (huge_page i)) b

  fits : 8 * (1024 + i) + 8 ≤ length b
  fits = omega (arith, t.size)

  kept : (j : ℕ) → 1024 + i ≢ j → word next j ≡ word b j
  kept = word-splice_ne (1024 + i) (huge_page i) b fits

  next-IsTable : IsTable base (i + 1) next
  next-IsTable = record {
    size = length-splice (8 * (1024 + i)) (u64_bytes (huge_page i)) b fits ∙ t.size;
    root = kept 0 (omega arith) ∙ t.root;
    root_rest = λ j p q. kept j (omega arith) ∙ t.root_rest j p q;
    middle = kept 512 (omega arith) ∙ t.middle;
    middle_rest = λ j p q. kept j (omega arith) ∙ t.middle_rest j p q;
    directory = λ j p. elim (Bool-cases (i == j)) [
      | inl same ↦
          let e : i ≡ j = ground arith in
          subst (λ (x : ℕ). word next (1024 + x) ≡ x * 2097152 + 131) e
            (word-splice_self (1024 + i) (huge_page i) b fits (rw huge_page_lem (omega arith))
              ∙ huge_page_lem i)
      | inr other ↦ kept (1024 + j) (ground arith) ∙ t.directory j (ground arith)
    ];
  }

module _ {p : Platform} (base ptr : ℕ) where
  -- The loop from index `i` on fills the rest of the directory.
  fill-IsTable :
      (rounds i : ℕ) (w : World p) (b : Bytes)
      → i + rounds ≡ 512
      → block ptr w.heap ≡ some b
      → IsTable base i b
      → (w' : World p) × (b' : Bytes) × (fill_directory ptr rounds i w ≡ (ok tt, w'))
        × (block ptr w'.heap ≡ some b')
        × IsTable base 512 b'
  unfolding fill_directory
  fill-IsTable zero i w b e live t =
      let e' : i ≡ 512 = omega arith in (w, b, refl, live, subst (λ k. IsTable base k b) e' t)
  fill-IsTable (suc rounds) i w b e live t =
      let src = u64_bytes (huge_page i) in
      let off : 8192 + i * 8 ≡ 8 * (1024 + i) = omega arith in
      let room = fits base i b (omega arith) t in
      let (w', b', run, live', t') =
        fill-IsTable rounds (i + 1) (stored ptr (8 * (1024 + i)) src b w live room)
          (next base i b (omega arith) t) (omega arith)
          (block-store ptr (8 * (1024 + i)) src b w live room)
          (next-IsTable base i b (omega arith) t) in
      (
        w',
        b',
        bind-step (store ptr (8192 + i * 8) src) (λ _. fill_directory ptr rounds (i + 1)) w
              (rw off (store-ok ptr (8 * (1024 + i)) src b w live room))
            ∙ run,
        live',
        t',
      )

add_u64-small :
    {p : Platform} (a b : ℕ) (w : World p) → a + b < 2 ^ 64 → add_u64 a b w ≡ (ok (a + b), w)
add_u64-small a b w h = ground arith

le_read-zero : (n : ℕ) (b : Bytes) (off : ℕ) → ((i : ℕ) → byte b i ≡ 0) → le_read n b off ≡ 0
le_read-zero zero b off h = refl
le_read-zero (suc n) b off h = omega (arith, h off, le_read-zero n b (off + 1) h)

abbrev root_entry : ℕ → Bytes
root_entry base = u64_bytes (bit_or (base + 4096) 0x3)

abbrev middle_entry : ℕ → Bytes
middle_entry base = u64_bytes (bit_or (base + 8192) 0x3)

module _ (base : ℕ) (aligned : base % 4096 ≡ 0) (low : base + 12288 < 2 ^ 52) (b : Bytes)
    (size : length b ≡ 12288) (clear : (i : ℕ) → byte b i ≡ 0) where
  abbrev first_links : Bytes
  first_links = splice 0 (root_entry base) b

  abbrev links : Bytes
  links = splice 4096 (middle_entry base) first_links

  first_size : length first_links ≡ 12288
  first_size = length-splice 0 (root_entry base) b (omega arith) ∙ size

  -- a word other than the two links
  others : (j : ℕ) → 0 < j → j ≢ 512 → word links j ≡ 0
  others j p q =
      word-splice_ne 512 (bit_or (base + 8192) 0x3) first_links (omega (arith, first_size)) j
        (λ e. q (sym e))
      ∙ word-splice_ne 0 (bit_or (base + 4096) 0x3) b (omega arith) j (omega arith)
      ∙ le_read-zero 8 b (8 * j) clear

  links-IsTable : IsTable base 0 links
  links-IsTable = record {
    size =
        length-splice 4096 (middle_entry base) first_links (omega (arith, first_size)) ∙ first_size;
    root =
        word-splice_ne 512 (bit_or (base + 8192) 0x3) first_links (omega (arith, first_size)) 0
          (omega arith)
        ∙ word-splice_self 0 (bit_or (base + 4096) 0x3) b (omega arith)
            (omega (arith, link_lem (base + 4096) (omega arith)))
        ∙ omega (arith, link_lem (base + 4096) (omega arith));
    root_rest = λ j p q. others j p (omega arith);
    middle =
        word-splice_self 512 (bit_or (base + 8192) 0x3) first_links (omega (arith, first_size))
          (omega (arith, link_lem (base + 8192) (omega arith)))
        ∙ omega (arith, link_lem (base + 8192) (omega arith));
    middle_rest = λ j p q. others j (omega arith) (omega arith);
    directory = λ j h. absurd (omega arith);
  }

-- The block of `table` holds tables of `base` which, walked with CR3 at `base`, map every 48-bit
-- address below 1 GB to itself, and fault on every other one.
pub record IsIdentityMap (base : ℕ) (table : PageTable) {p : Platform} (w : World p) : Type 0 where
  pub content : Bytes
  pub at_base : table.pml4_gpa ≡ base
  pub size_known : table.size ≡ 12288
  pub live : block table.host_ptr w.heap ≡ some content
  pub sized : length content ≡ 12288
  pub translates :
      (a : ℕ)
      → walk content base (a % 2 ^ 48)
        ≡ (if ltb (a % 2 ^ 48) (2 ^ 30) then some (a % 2 ^ 48) else none)

module _ {p : Platform} (base : ℕ) (w : World p) where
  -- At a page-aligned address in the low 52 bits, and with room in the allocator, the call succeeds.
  -- Its block of 12288 bytes, walked as page tables with CR3 at that address, maps every address
  -- below 1 GB to itself and faults on every other address below 2^48.
  pub identity_mapping :
      base % 4096 ≡ 0
      → base + 12288 < 2 ^ 52
      → p.has_room w.heap 12288 ≡ true
      → (table : PageTable) × (w' : World p) × (create_identity_mapping base w ≡ (ok table, w'))
        × IsIdentityMap base table w'
  unfolding create_identity_mapping
  identity_mapping aligned low room =
      let ptr = length w.heap in
      let b0 = zeroed 12288 in
      let w0 : World p = record w { heap = w.heap ++ some b0 ∷ [] } in
      let live0 = block-append w.heap (some b0) in
      let size0 = length-zeroed 12288 in
      let b1 = first_links base aligned low b0 size0 (byte-zeroed 12288) in
      let fits1 : 0 + length (root_entry base) ≤ length b0 = omega arith in
      let w1 = stored ptr 0 (root_entry base) b0 w0 live0 fits1 in
      let live1 = block-store ptr 0 (root_entry base) b0 w0 live0 fits1 in
      let fits2 : 4096 + length (middle_entry base) ≤ length b1 =
        omega (arith, first_size base aligned low b0 size0 (byte-zeroed 12288)) in
      let w2 = stored ptr 4096 (middle_entry base) b1 w1 live1 fits2 in
      let live2 = block-store ptr 4096 (middle_entry base) b1 w1 live1 fits2 in
      let (w', b', run, live', t) =
        fill-IsTable base ptr 512 0 w2 _ refl live2
          (links-IsTable base aligned low b0 size0 (byte-zeroed 12288)) in
      (
        record { pml4_gpa = base; host_ptr = ptr; size = 12288 },
        w',
        rw (
          room,
          add_u64-small base 4096 w0 (omega arith),
          store-ok ptr 0 (root_entry base) b0 w0 live0 fits1,
          add_u64-small base 8192 w1 (omega arith),
          store-ok ptr 4096 (middle_entry base) b1 w1 live1 fits2,
          run,
        ),
        record {
          content = b';
          at_base = refl;
          size_known = refl;
          live = live';
          sized = t.size;
          translates = λ a. walk_lem b' base (a % 2 ^ 48) aligned low t (omega arith);
        },
      )
