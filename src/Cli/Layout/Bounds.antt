-- ===== src/Cli/Layout/Bounds.antt =====
-- Where the parts of the guest's memory lie.
use vestigium.Common.{ℕ, ◌+◌, ◌*◌, ◌/◌, ◌^◌, ◌≤◌, ◌<◌, ◌≡◌, refl, true, ltb, arith, ◌⊎◌, ◌↔◌, inl}
use vestigium.Common.Exec.{ok}
use vestigium.Common.Words.{bit_and_page}
use vestigium.Platform.{Platform, World}
use vestigium.Cli.Layout.{base_gpa, stack_size, pt_gpa, stack_base}

-- The stack of an image of `size` bytes starts at the page after it, without overflow.
pub stack_base_lem :
    {p : Platform} (size : ℕ) (w : World p)
    → size < 2 ^ 63
    → stack_base size w ≡ (ok (base_gpa + (size + 4095) / 4096 * 4096), w)
unfolding stack_base
stack_base_lem size w h =
    let small : ltb (size + 4095) (2 ^ 64) ≡ true = ground arith in
    let sum : ltb (base_gpa + (size + 4095) / 4096 * 4096) (2 ^ 64) ≡ true = ground arith in
    rw (small, bit_and_page (size + 4095) (omega arith), sum)

-- Two ranges of addresses that share none.
abbrev Apart : ℕ → ℕ → ℕ → ℕ → Type 0
Apart a n b m = (a + n ≤ b) ⊎ (b + m ≤ a)

-- No two of the null page, the image, the stack and the page tables share an address.
pub record AreSeparate (size stack_base_gpa : ℕ) : Type 0 where
  pub null_image : Apart 0 0x1000 base_gpa size
  pub null_stack : Apart 0 0x1000 stack_base_gpa stack_size
  pub null_tables : Apart 0 0x1000 pt_gpa 12288
  pub image_stack : Apart base_gpa size stack_base_gpa stack_size
  pub image_tables : Apart base_gpa size pt_gpa 12288
  pub stack_tables : Apart stack_base_gpa stack_size pt_gpa 12288

-- The stack of an image of `size` bytes stands at the page after it, and the parts of the guest's
-- memory share no address exactly when the image, rounded up to pages, is at most 0xF0000 bytes: a
-- larger one, or its stack, is mapped where the page tables are.
pub layout-AreSeparate :
    {p : Platform} (size : ℕ) (w : World p)
    → size < 2 ^ 63
    → (s : ℕ) × (stack_base size w ≡ (ok s, w))
      × (s ≡ base_gpa + (size + 4095) / 4096 * 4096)
      × (AreSeparate size s ↔ ((size + 4095) / 4096 * 4096 ≤ 0xF0000))
layout-AreSeparate size w h = (
  base_gpa + (size + 4095) / 4096 * 4096,
  stack_base_lem size w h,
  refl,
  (
    λ a. omega (arith, a.image_tables, a.stack_tables),
    λ le. record {
      null_image = inl (omega arith);
      null_stack = inl (omega arith);
      null_tables = inl (omega arith);
      image_stack = inl (omega arith);
      image_tables = inl (omega arith);
      stack_tables = inl (omega arith);
    },
  ),
)
