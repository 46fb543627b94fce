-- ===== src/Common/Bytes.antt =====
-- Bytes of a block at an index, through the writes of `splice`.
use vestigium.Common.Lists.{length, take, drop, length-append, length-drop}
use vestigium.Common.Words.{le_bytes}
use Prim.Native.Nat.{ℕ, zero, suc, ◌+◌, ◌-◌, ◌*◌, ◌/◌, ◌%◌, ◌≤◌, ◌<◌}
use mathlib.Core.Path.{◌≡◌, refl, ap, ◌∙◌}
use mathlib.Core.List.{List, [], ◌∷◌, ◌++◌}
use native.Mathlib.Omega.{arith}

-- The bytes from `off` on, overwritten by `src`.
abbrev pub splice : ℕ → List ℕ → List ℕ → List ℕ
splice off src b = take off b ++ (src ++ drop (off + length src) b)

-- The byte at an index; 0 past the end.
abbrev pub byte : List ℕ → ℕ → ℕ
byte [] i = 0
byte (x ∷ xs) zero = x
byte (x ∷ xs) (suc i) = byte xs i

pub byte-append_left : (xs ys : List ℕ) (i : ℕ) → i < length xs → byte (xs ++ ys) i ≡ byte xs i
byte-append_left [] ys i h = absurd (omega arith)
byte-append_left (x ∷ xs) ys zero h = refl
byte-append_left (x ∷ xs) ys (suc i) h = byte-append_left xs ys i (omega arith)

pub byte-append_right :
    (xs ys : List ℕ) (i j : ℕ) → i ≡ length xs + j → byte (xs ++ ys) i ≡ byte ys j
byte-append_right [] ys i j h = let e : i ≡ j = omega arith in ap (byte ys) e
byte-append_right (x ∷ xs) ys zero j h = absurd (omega arith)
byte-append_right (x ∷ xs) ys (suc i) j h = byte-append_right xs ys i j (omega arith)

pub byte-take : (n : ℕ) (xs : List ℕ) (i : ℕ) → i < n → byte (take n xs) i ≡ byte xs i
byte-take zero xs i h = absurd (omega arith)
byte-take (suc n) [] i h = refl
byte-take (suc n) (x ∷ xs) zero h = refl
byte-take (suc n) (x ∷ xs) (suc i) h = byte-take n xs i (omega arith)

pub byte-drop : (n : ℕ) (xs : List ℕ) (i : ℕ) → byte (drop n xs) i ≡ byte xs (n + i)
byte-drop zero xs i = ground arith
byte-drop (suc n) [] i = refl
byte-drop (suc n) (x ∷ xs) i = ground (arith, byte-drop n xs i)

pub length-take : (n : ℕ) (xs : List ℕ) → n ≤ length xs → length (take n xs) ≡ n
length-take zero xs h = refl
length-take (suc n) [] h = absurd (omega arith)
length-take (suc n) (x ∷ xs) h = omega (arith, length-take n xs)

module _ (off : ℕ) (src b : List ℕ) (fits : off + length src ≤ length b) where
  taken : length (take off b) ≡ off
  taken = length-take off b (omega arith)

  -- A write changes the bytes that it covers, and no other.
  pub byte-splice_before : (i : ℕ) → i < off → byte (splice off src b) i ≡ byte b i
  byte-splice_before i h =
      byte-append_left (take off b) (src ++ drop (off + length src) b) i (omega (arith, taken))
      ∙ byte-take off b i h

  pub byte-splice_in : (i : ℕ) → i < length src → byte (splice off src b) (off + i) ≡ byte src i
  byte-splice_in i h =
      byte-append_right (take off b) (src ++ drop (off + length src) b) (off + i) i
        (omega (arith, taken))
      ∙ byte-append_left src (drop (off + length src) b) i h

  pub byte-splice_after : (i : ℕ) → off + length src ≤ i → byte (splice off src b) i ≡ byte b i
  byte-splice_after i h =
      byte-append_right (take off b) (src ++ drop (off + length src) b) i (i - off)
        (omega (arith, taken))
      ∙ byte-append_right src (drop (off + length src) b) (i - off) (i - off - length src)
          (omega arith)
      ∙ byte-drop (off + length src) b (i - off - length src)
      ∙ ap (byte b) (omega arith)

  pub length-splice : length (splice off src b) ≡ length b
  length-splice =
      length-append (take off b) (src ++ drop (off + length src) b)
      ∙ omega (
        arith,
        length-append src (drop (off + length src) b),
        taken,
        length-drop (off + length src) b,
      )

-- The number whose `n` bytes stand at an offset.
abbrev pub le_read : ℕ → List ℕ → ℕ → ℕ
le_read zero b off = 0
le_read (suc n) b off = byte b off + 256 * le_read n b (off + 1)

pub le_read-same :
    (n : ℕ) (b b' : List ℕ) (off : ℕ)
    → ((i : ℕ) → off ≤ i → i < off + n → byte b i ≡ byte b' i)
    → le_read n b off ≡ le_read n b' off
le_read-same zero b b' off h = refl
le_read-same (suc n) b b' off h = omega (
  arith,
  h off (omega arith) (omega arith),
  le_read-same n b b' (off + 1) (λ i p q. h i (omega arith) (omega arith)),
)

abbrev pub bound : ℕ → ℕ
bound zero = 1
bound (suc n) = 256 * bound n

pub le_read-le_bytes :
    (n : ℕ) (b : List ℕ) (off x : ℕ)
    → x < bound n
    → ((i : ℕ) → i < n → byte b (off + i) ≡ byte (le_bytes n x) i)
    → le_read n b off ≡ x
le_read-le_bytes zero b off x lt h = omega arith
le_read-le_bytes (suc n) b off x lt h =
    omega (arith, first, le_read-le_bytes n b (off + 1) (x / 256) (omega arith) next)
  where
    first : byte b off ≡ x % 256
    first = let e : off ≡ off + 0 = omega arith in ap (byte b) e ∙ h 0 (omega arith)

    next : (i : ℕ) → i < n → byte b (off + 1 + i) ≡ byte (le_bytes n (x / 256)) i
    next i p =
        let e : off + 1 + i ≡ off + suc i = omega arith in ap (byte b) e ∙ h (suc i) (omega arith)
