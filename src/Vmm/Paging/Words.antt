-- ===== src/Vmm/Paging/Words.antt =====
-- The 64-bit words of a block, and the entries of the tables with their flags.
use Prim.Native.Nat.{bit_or}
use vestigium.Common.{ℕ, ◌+◌, ◌*◌, ◌/◌, ◌%◌, ◌^◌, ◌≤◌, ◌<◌, ◌≡◌, ◌≢◌, arith, length, ◌⊎◌, inl, inr}
use vestigium.Common.Bytes.{
  splice, le_read, le_read-same, le_read-le_bytes, byte-splice_before, byte-splice_in,
  byte-splice_after,
}
use vestigium.Common.Words.{u64_bytes, shl, bit_or_flags}
use vestigium.Platform.{Bytes}

abbrev pub word : Bytes → ℕ → ℕ
word b j = le_read 8 b (8 * j)

module _ (i x : ℕ) (b : Bytes) (fits : 8 * i + 8 ≤ length b) where
  pub word-splice_self : x < 2 ^ 64 → word (splice (8 * i) (u64_bytes x) b) i ≡ x
  word-splice_self h =
      le_read-le_bytes 8 (splice (8 * i) (u64_bytes x) b) (8 * i) x (omega arith)
        (λ k p. byte-splice_in (8 * i) (u64_bytes x) b fits k (omega arith))

  pub word-splice_ne : (j : ℕ) → i ≢ j → word (splice (8 * i) (u64_bytes x) b) j ≡ word b j
  word-splice_ne j ne = le_read-same 8 (splice (8 * i) (u64_bytes x) b) b (8 * j) λ k p q.
      elim (apart k p q) [
        | inl before ↦ byte-splice_before (8 * i) (u64_bytes x) b fits k before
        | inr after ↦ byte-splice_after (8 * i) (u64_bytes x) b fits k after
      ]
    where
      apart : (k : ℕ) → 8 * j ≤ k → k < 8 * j + 8 → (k < 8 * i) ⊎ (8 * i + 8 ≤ k)
      apart k p q = omega arith

pub huge_page_lem : (i : ℕ) → bit_or (i * 0x200000) 0x83 ≡ i * 2097152 + 131
huge_page_lem i =
    let e : i * 0x200000 ≡ shl 8 (i * 8192) = omega arith in
    rw e (bit_or_flags 8 (i * 8192) 131 (omega arith))

-- A pointer to a table with the flags present and writable.
pub link_lem : (a : ℕ) → a % 4096 ≡ 0 → bit_or a 0x3 ≡ a + 3
link_lem a h =
    let e : a ≡ shl 2 (a / 4) = omega arith in rw e (bit_or_flags 2 (a / 4) 3 (omega arith))
