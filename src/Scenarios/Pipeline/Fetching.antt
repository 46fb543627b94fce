-- ===== src/Scenarios/Pipeline/Fetching.antt =====
-- What the processor fetches, once the captured snapshot is the guest's memory.
use vestigium.Common.{
  ℕ, zero, suc, ◌+◌, ◌-◌, ◌<◌, ◌≡◌, refl, ap, ◌∙◌, true, false, ltb, Option, some, List, [], ◌∷◌,
  length, get_elem?, arith,
}
use vestigium.Common.HashMap.{HashMap}
use vestigium.Platform.{Bytes, Heap, of_reg64, rip, cr0, cr3, cr4, efer}
use vestigium.Platform.Registers.{Registers}
use vestigium.Engine.Snapshot.{Snapshot}
use vestigium.Engine.Replay.Translation.{
  AreDisjoint, byte_at, byte_at-beyond, byte_at-within, host_byte,
}
use vestigium.Cli.Archive.{Holds-AreDisjoint}
use vestigium.Scenarios.Execution.{Fetches, Stands}
use vestigium.Scenarios.Pipeline.Captured.{Captured}

get_elem?-lt : {A : Type 0} (xs : List A) (k : ℕ) {a : A} → get_elem? xs k ≡ some a → k < length xs
get_elem?-lt [] k e = cc e
get_elem?-lt (x ∷ xs) zero e = omega arith
get_elem?-lt (x ∷ xs) (suc k) e = omega (arith, get_elem?-lt xs k e)

above : (base k : ℕ) → ltb (base + k) base ≡ false
above base k = ground arith

within : (base k n : ℕ) → k < n → ltb (base + k) (base + n) ≡ true
within base k n lt = ground arith

back : (base k : ℕ) → base + k - base ≡ k
back base k = omega arith

above_page : (k : ℕ) → ltb (0x2000 + k) 0x1000 ≡ false
above_page k = ground arith

beyond_page : (k n : ℕ) → n ≡ 4096 → ltb (0x2000 + k) (0x1000 + n) ≡ false
beyond_page k n e = ground arith

-- What `setup_long_mode` has written.
pub record InLongMode (registers : Registers) : Type 0 where
  pub protected : registers cr0 ≡ of_reg64 0x80000031
  pub extended : registers cr4 ≡ of_reg64 0x620
  pub long : registers efer ≡ of_reg64 0x500
  pub tables : registers cr3 ≡ of_reg64 0x2000

module _ (s : Snapshot) (heap : Heap) (cap : Captured s heap) where
  abbrev pub memory : HashMap Bytes
  memory = (0x1000, cap.code) ∷ (0x2000, cap.table) ∷ []

  pub captured-AreDisjoint : AreDisjoint s.memory_regions
  captured-AreDisjoint =
      Holds-AreDisjoint (some cap.code ∷ some cap.table ∷ []) heap
        ((0x1000, record { ptr = 0; size = 4096 })
          ∷ (0x2000, record { ptr = 1; size = 12288 })
          ∷ [])
        s.memory_regions memory
        (refl, refl, cap.sized, (λ e. omega (arith, e), tt), (refl, refl, cap.tables_sized, tt, tt))
        cap.holds ((λ a low high. (omega (arith, low, high), tt)), ((λ a low high. tt), tt))

  code-byte_at : (k b : ℕ) → get_elem? cap.code k ≡ some b → byte_at memory (0x1000 + k) ≡ some b
  code-byte_at k b e =
      let inside : k < length cap.code = get_elem?-lt cap.code k e in
      byte_at-within 0x1000 cap.code ((0x2000, cap.table) ∷ []) (0x1000 + k) (above 0x1000 k)
        (within 0x1000 k (length cap.code) inside)
      ∙ ap (get_elem? cap.code) (back 0x1000 k)
      ∙ e

  table-byte_at : (k b : ℕ) → get_elem? cap.table k ≡ some b → byte_at memory (0x2000 + k) ≡ some b
  table-byte_at k b e =
      let inside : k < length cap.table = get_elem?-lt cap.table k e in
      byte_at-beyond 0x1000 cap.code ((0x2000, cap.table) ∷ []) (0x2000 + k) (above_page k)
        (beyond_page k (length cap.code) cap.sized)
      ∙ byte_at-within 0x2000 cap.table [] (0x2000 + k) (above 0x2000 k)
          (within 0x2000 k (length cap.table) inside)
      ∙ ap (get_elem? cap.table) (back 0x2000 k)
      ∙ e

  -- The code from an offset on.
  module _ (at : ℕ → Option (ℕ × ℕ))
      (reads : (a b : ℕ) → byte_at memory a ≡ some b → host_byte heap (at a) ≡ some b) where
    tables-stand : Stands heap at 0x2000 cap.table
    tables-stand k b e = reads (0x2000 + k) b (table-byte_at k b e)

    rdtsc-stands : Stands heap at 0x1000 (0x0F ∷ 0x31 ∷ [])
    rdtsc-stands zero b e = reads (0x1000 + 0) b (code-byte_at 0 b (cap.at_0 ∙ e))
    rdtsc-stands (suc zero) b e = reads (0x1000 + 1) b (code-byte_at 1 b (cap.at_1 ∙ e))
    rdtsc-stands (suc (suc k)) b e = cc e

    hlt-stands : Stands heap at 0x1002 (0xF4 ∷ [])
    hlt-stands zero b e = reads (0x1000 + 2) b (code-byte_at 2 b (cap.at_2 ∙ e))
    hlt-stands (suc k) b e = cc e

    -- In long mode with CR3 at the captured tables, the processor fetches RDTSC at 0x1000 and HLT at
    -- 0x1002.
    module _ (registers : Registers) (long_mode : InLongMode registers) where
      pub rdtsc-Fetches :
          registers rip ≡ of_reg64 0x1000 → Fetches registers at heap (0x0F ∷ 0x31 ∷ [])
      rdtsc-Fetches e = record {
        protected = long_mode.protected;
        extended = long_mode.extended;
        long = long_mode.long;
        base = 0x2000;
        tables_at = long_mode.tables;
        table = cap.table;
        sized = cap.tables_sized;
        tables = tables-stand;
        next = 0x1000;
        next_at = e;
        physical = 0x1000;
        walks = cap.walks_rdtsc;
        code_stands = rdtsc-stands;
      }

      pub hlt-Fetches : registers rip ≡ of_reg64 0x1002 → Fetches registers at heap (0xF4 ∷ [])
      hlt-Fetches e = record {
        protected = long_mode.protected;
        extended = long_mode.extended;
        long = long_mode.long;
        base = 0x2000;
        tables_at = long_mode.tables;
        table = cap.table;
        sized = cap.tables_sized;
        tables = tables-stand;
        next = 0x1002;
        next_at = e;
        physical = 0x1002;
        walks = cap.walks_hlt;
        code_stands = hlt-stands;
      }
