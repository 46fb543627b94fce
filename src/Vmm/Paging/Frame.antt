-- ===== src/Vmm/Paging/Frame.antt =====
-- `create_identity_mapping` writes to its own block alone.
use Prim.Native.Nat.{bit_or}
use vestigium.Common.{
  ℕ, zero, suc, ◌+◌, ◌*◌, ◌≡◌, ◌≢◌, refl, ◌∙◌, true, some, [], ◌∷◌, length, arith,
}
use vestigium.Common.Exec.{Exec, pure, ◌>>=◌, ◌>>◌}
use vestigium.Common.Words.{u64_bytes}
use vestigium.Platform.{Platform, World, Bytes, block, store, zeroed, add_u64}
use vestigium.Platform.Access.{block-append_left, block-lt}
use vestigium.Platform.Whole.{with_block}
use vestigium.Platform.Frame.{Keeps, bind-Keeps, add_u64-Keeps, store-Keeps}
use vestigium.Platform.Local.{IsLocal, bind-IsLocal, add_u64-IsLocal, store-IsLocal}
use vestigium.Vmm.Paging.{PageTable, huge_page, fill_directory, create_identity_mapping}

module _ {p : Platform} (q : ℕ) where
  fill-Keeps : (ptr rounds i : ℕ) → ptr ≢ q → Keeps {p = p} q (fill_directory ptr rounds i)
  unfolding fill_directory
  fill-Keeps ptr zero i ne w = refl
  fill-Keeps ptr (suc rounds) i ne w =
      bind-Keeps q (store ptr (8192 + i * 8) (u64_bytes (huge_page i)))
        (λ _. fill_directory ptr rounds (i + 1))
        (store-Keeps q ptr (8192 + i * 8) (u64_bytes (huge_page i)) ne)
        (λ _. fill-Keeps ptr rounds (i + 1) ne) w

  -- the calls after the allocation
  abbrev filled : ℕ → ℕ → Exec (World p) PageTable
  filled ptr base = do
    fill_directory ptr 512 0
    pure (record { pml4_gpa = base; host_ptr = ptr; size = 4096 * 3 })

  abbrev second : ℕ → ℕ → Exec (World p) PageTable
  second ptr base = do
    pd_gpa ← add_u64 base 8192
    store ptr 4096 (u64_bytes (bit_or pd_gpa 0x3))
    filled ptr base

  abbrev tables : ℕ → ℕ → Exec (World p) PageTable
  tables ptr base = do
    pdpt_gpa ← add_u64 base 4096
    store ptr 0 (u64_bytes (bit_or pdpt_gpa 0x3))
    second ptr base

  tables-Keeps : (ptr base : ℕ) → ptr ≢ q → Keeps q (tables ptr base)
  tables-Keeps ptr base ne = bind-Keeps q (add_u64 base 4096) _ (add_u64-Keeps q base 4096) (λ a.
      bind-Keeps q (store ptr 0 (u64_bytes (bit_or a 0x3))) (λ _. second ptr base)
        (store-Keeps q ptr 0 _ ne)
        (λ _.
          bind-Keeps q (add_u64 base 8192)
            (λ d. store ptr 4096 (u64_bytes (bit_or d 0x3)) >> filled ptr base)
            (add_u64-Keeps q base 8192)
            (λ d.
              bind-Keeps q (store ptr 4096 (u64_bytes (bit_or d 0x3))) (λ _. filled ptr base)
                (store-Keeps q ptr 4096 _ ne)
                (λ _.
                  bind-Keeps q (fill_directory ptr 512 0) (λ _. pure _) (fill-Keeps ptr 512 0 ne)
                    (λ _ w. refl)))))

  -- Every live block stays as it is.
  pub create_identity_mapping-frame :
      (base : ℕ) (w : World p) (c : Bytes)
      → p.has_room w.heap 12288 ≡ true
      → block q w.heap ≡ some c
      → block q (create_identity_mapping base w).1.heap ≡ some c
  unfolding create_identity_mapping
  create_identity_mapping-frame base w c room live = rw room (
      tables-Keeps (length w.heap) base (λ e. omega (arith, block-lt q w.heap live, e))
        (with_block (zeroed 12288) w)
      ∙ block-append_left q w.heap (some (zeroed 12288) ∷ []) live)

module _ {p : Platform} where
  fill-IsLocal : (ptr rounds i : ℕ) → IsLocal {p = p} (fill_directory ptr rounds i)
  unfolding fill_directory
  fill-IsLocal ptr zero i = λ w. refl
  fill-IsLocal ptr (suc rounds) i =
      bind-IsLocal (store ptr (8192 + i * 8) (u64_bytes (huge_page i)))
        (λ _. fill_directory ptr rounds (i + 1)) (store-IsLocal ptr (8192 + i * 8) _)
        (λ _. fill-IsLocal ptr rounds (i + 1))

  tables-IsLocal : (ptr base : ℕ) → IsLocal {p = p} (tables 0 ptr base)
  tables-IsLocal ptr base = bind-IsLocal (add_u64 base 4096) _ (add_u64-IsLocal base 4096) (λ a.
      bind-IsLocal (store ptr 0 (u64_bytes (bit_or a 0x3))) (λ _. second 0 ptr base)
        (store-IsLocal ptr 0 _)
        (λ _.
          bind-IsLocal (add_u64 base 8192)
            (λ d. store ptr 4096 (u64_bytes (bit_or d 0x3)) >> filled 0 ptr base)
            (add_u64-IsLocal base 8192)
            (λ d.
              bind-IsLocal (store ptr 4096 (u64_bytes (bit_or d 0x3))) (λ _. filled 0 ptr base)
                (store-IsLocal ptr 4096 _)
                (λ _.
                  bind-IsLocal (fill_directory ptr 512 0) (λ _. pure _) (fill-IsLocal ptr 512 0)
                    (λ _ w. refl)))))

  -- The hypervisor is left alone.
  pub create_identity_mapping-machine :
      (base : ℕ) (w : World p)
      → p.has_room w.heap 12288 ≡ true
      → (create_identity_mapping base w).1.machine ≡ w.machine
  unfolding create_identity_mapping
  create_identity_mapping-machine base w room =
      rw room (tables-IsLocal (length w.heap) base (with_block (zeroed 12288) w))
