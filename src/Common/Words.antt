-- ===== src/Common/Words.antt =====
-- Words as bytes, lowest byte first, and the bit operations at the masks of the program.
use Prim.Native.Nat.{
  ℕ, zero, suc, ◌+◌, ◌-◌, ◌*◌, ◌/◌, ◌%◌, ◌^◌, ◌≤◌, ◌<◌, min, max, bit_or, bit_and, digits,
  bit_or-bitwise, bit_and-bitwise,
}
use mathlib.Core.Path.{◌≡◌, refl, ap, ◌∙◌}
use mathlib.Core.List.{List, [], ◌∷◌}
use native.Mathlib.Omega.{arith}

-- The `n` low bytes of a number.
abbrev pub le_bytes : ℕ → ℕ → List ℕ
le_bytes zero x = []
le_bytes (suc n) x = (x % 256) ∷ le_bytes n (x / 256)

-- The bytes of a `u64`.
abbrev pub u64_bytes : ℕ → List ℕ
u64_bytes x = le_bytes 8 x

-- Shifts and powers, digit by digit.
abbrev pub shl : ℕ → ℕ → ℕ
shl zero m = m
shl (suc k) m = shl k m * 2

abbrev pub shr : ℕ → ℕ → ℕ
shr zero a = a
shr (suc k) a = shr k (a / 2)

-- The operations are recursions on digits with a count; a count beyond the first number is idle.
module _ (rest : ℕ → ℕ) (op : ℕ → ℕ → ℕ) where
  idle_round :
      (count x y : ℕ) → x ≤ count → digits rest op (suc count) x y ≡ digits rest op count x y
  idle_round zero zero y le = refl
  idle_round zero (suc x) y le = absurd (omega arith)
  idle_round (suc count) zero y le = refl
  idle_round (suc count) (suc x) y le =
      ap (λ high. high * 2 + op (suc x % 2) (y % 2))
        (idle_round count (suc x / 2) (y / 2) (omega arith))

  -- a count that is `more` above
  idle_rounds :
      (more count x y : ℕ) → count ≡ more + x → digits rest op count x y ≡ digits rest op x x y
  idle_rounds zero count x y e = ap (λ c. digits rest op c x y) (omega arith)
  idle_rounds (suc more) count x y e =
      let next : count ≡ suc (more + x) = omega arith in
      ap (λ c. digits rest op c x y) next
      ∙ idle_round (more + x) x y (omega arith)
      ∙ idle_rounds more (more + x) x y refl

  exact : (x y : ℕ) → digits rest op x (suc x / 2) y ≡ digits rest op (suc x / 2) (suc x / 2) y
  exact x y = idle_rounds (x - suc x / 2) x (suc x / 2) y (omega arith)

or_digits-zero : (count x : ℕ) → x ≤ count → digits (λ y. y) max count x 0 ≡ x
or_digits-zero zero x le = omega arith
or_digits-zero (suc count) zero le = refl
or_digits-zero (suc count) (suc x) le =
    omega (arith, or_digits-zero count (suc x / 2) (omega arith))

and_digits-zero : (count x : ℕ) → digits (λ y. 0) min count x 0 ≡ 0
and_digits-zero zero x = refl
and_digits-zero (suc count) zero = refl
and_digits-zero (suc count) (suc x) = omega (arith, and_digits-zero count (suc x / 2))

bit_or-zero : (x : ℕ) → bit_or x 0 ≡ x
bit_or-zero x = bit_or-bitwise x 0 ∙ or_digits-zero x x (omega arith)

bit_and-zero : (x : ℕ) → bit_and x 0 ≡ 0
bit_and-zero x = bit_and-bitwise x 0 ∙ and_digits-zero x x

bit_or_halves : (x y : ℕ) → bit_or x y ≡ max (x % 2) (y % 2) + 2 * bit_or (x / 2) (y / 2)
bit_or_halves zero y = omega (arith, bit_or-bitwise 0 y, bit_or-bitwise 0 (y / 2))
bit_or_halves (suc x) y =
    let high = bit_or-bitwise (suc x / 2) (y / 2) in
    bit_or-bitwise (suc x) y ∙ omega (arith, high, exact (λ d. d) max x (y / 2))

bit_and_halves : (x y : ℕ) → bit_and x y ≡ min (x % 2) (y % 2) + 2 * bit_and (x / 2) (y / 2)
bit_and_halves zero y = omega (arith, bit_and-bitwise 0 y, bit_and-bitwise 0 (y / 2))
bit_and_halves (suc x) y =
    let high = bit_and-bitwise (suc x / 2) (y / 2) in
    bit_and-bitwise (suc x) y ∙ omega (arith, high, exact (λ d. 0) min x (y / 2))

-- Flags in the low digits of a shifted number are added to it.
pub bit_or_flags : (k q y : ℕ) → y < shl k 1 → bit_or (shl k q) y ≡ shl k q + y
bit_or_flags zero q y h = let e : y ≡ 0 = omega arith in rw e (omega (arith, bit_or-zero q))
bit_or_flags (suc k) q y h =
    omega (arith, bit_or_halves (shl (suc k) q) y, bit_or_flags k q (y / 2) (omega arith), halved)
  where
    halved : bit_or (shl (suc k) q / 2) (y / 2) ≡ bit_or (shl k q) (y / 2)
    halved = let e : shl (suc k) q / 2 ≡ shl k q = omega arith in rw e

shl_pos : (k : ℕ) → 0 < shl k 1
shl_pos zero = omega arith
shl_pos (suc k) = omega (arith, shl_pos k)

shl-shr-le : (k a : ℕ) → shl k (shr k a) ≤ a
shl-shr-le zero a = omega arith
shl-shr-le (suc k) a = omega (arith, shl-shr-le k (a / 2))

-- A mask of `k` ones takes the low digits.
pub bit_and_ones : (k a : ℕ) → bit_and a (shl k 1 - 1) ≡ a - shl k (shr k a)
bit_and_ones zero a = omega (arith, bit_and-zero a)
bit_and_ones (suc k) a = omega (
  arith,
  bit_and_halves a (shl (suc k) 1 - 1),
  bit_and_ones k (a / 2),
  halved,
  shl_pos k,
  shl-shr-le k (a / 2),
)
  where
    halved : bit_and (a / 2) ((shl (suc k) 1 - 1) / 2) ≡ bit_and (a / 2) (shl k 1 - 1)
    halved = let e : (shl (suc k) 1 - 1) / 2 ≡ shl k 1 - 1 = omega (arith, shl_pos k) in rw e

-- A mask that ends in `k` zeros clears the low digits.
pub bit_and_clear : (k a m : ℕ) → bit_and a (shl k m) ≡ shl k (bit_and (shr k a) m)
bit_and_clear zero a m = refl
bit_and_clear (suc k) a m =
    omega (arith, bit_and_halves a (shl (suc k) m), bit_and_clear k (a / 2) m, halved)
  where
    halved : bit_and (a / 2) (shl (suc k) m / 2) ≡ bit_and (a / 2) (shl k m)
    halved = let e : shl (suc k) m / 2 ≡ shl k m = omega arith in rw e

-- `x & 0x0F`.
pub bit_and_nibble : (x : ℕ) → bit_and x 0x0F ≡ x % 16
bit_and_nibble x = omega (arith, bit_and_ones 4 x)

-- `x & !4095` on a `u64`.
pub bit_and_page : (x : ℕ) → x < 2 ^ 64 → bit_and x (2 ^ 64 - 1 - 4095) ≡ x / 4096 * 4096
bit_and_page x h = omega (arith, bit_and_clear 12 x (2 ^ 52 - 1), bit_and_ones 52 (x / 4096), e)
  where
    e : bit_and (shr 12 x) (2 ^ 52 - 1) ≡ bit_and (x / 4096) (2 ^ 52 - 1)
    e = let d : shr 12 x ≡ x / 4096 = omega arith in rw d
