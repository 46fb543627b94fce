-- ===== src/Common/HashMap.antt =====
-- `std::collections::HashMap` with `u64` or `u32` keys. The order of the list stands for the order
-- of iteration, which the library leaves open.
use vestigium.Common.Tests.{◌==◌, if◌then◌else◌, Bool-cases}
use mathlib.Core.Logic.{inl, inr}
use mathlib.Core.Bool.{false}
use Prim.Native.Nat.{ℕ}
use mathlib.Core.Path.{◌≡◌, refl, sym, ap, ◌∙◌}
use mathlib.Core.Option.{Option, none, some}
use mathlib.Core.List.{List, [], ◌∷◌, ◌++◌, append-nil, append_assoc}
use native.Mathlib.Omega.{arith}

abbrev pub HashMap {ℓ} : Type ℓ → Type ℓ
HashMap V = List (ℕ × V)

module _ {ℓ} {V : Type ℓ} where
  abbrev pub get : ℕ → HashMap V → Option V
  get k [] = none
  get k ((j, v) ∷ m) = if j == k then some v else get k m

  -- The map after `insert`; the old value, which `insert` returns, is `get k m`.
  abbrev pub insert : ℕ → V → HashMap V → HashMap V
  insert k v [] = (k, v) ∷ []
  insert k v ((j, w) ∷ m) = if j == k then (k, v) ∷ m else (j, w) ∷ insert k v m

  abbrev pub keys : HashMap V → List ℕ
  keys [] = []
  keys ((k, v) ∷ m) = k ∷ keys m

  pub get-insert :
      (k j : ℕ) (v : V) (m : HashMap V)
      → get j (insert k v m) ≡ (if k == j then some v else get j m)
  get-insert k j v [] = refl
  get-insert k j v ((i, w) ∷ m) = ground (arith, get-insert k j v m)

  -- No key twice, as in every map that `insert` has built.
  abbrev pub IsDistinct : HashMap V → Type ℓ
  IsDistinct [] = Unit
  IsDistinct ((k, v) ∷ m) = (get k m ≡ none) × IsDistinct m

  -- The keys of the second map are not in the first.
  abbrev pub AreNew : HashMap V → HashMap V → Type ℓ
  AreNew m [] = Unit
  AreNew m ((k, v) ∷ m') = (get k m ≡ none) × AreNew m m'

  abbrev pub insert_all : HashMap V → HashMap V → HashMap V
  insert_all m [] = m
  insert_all m ((k, v) ∷ m') = insert_all (insert k v m) m'

  insert-new : (k : ℕ) (v : V) (m : HashMap V) → get k m ≡ none → insert k v m ≡ m ++ (k, v) ∷ []
  insert-new k v [] e = refl
  insert-new k v ((j, w) ∷ m) e = elim (Bool-cases (j == k)) [
    | inl same ↦ cc (sym (ap (λ t. if t then some w else get k m) same) ∙ e)
    | inr other ↦ rw other (
        ap (λ l. (j, w) ∷ l)
          (insert-new k v m (sym (ap (λ t. if t then some w else get k m) other) ∙ e)))
  ]

  AreNew-insert :
      (k : ℕ) (v : V) (m m' : HashMap V) → get k m' ≡ none → AreNew m m' → AreNew (insert k v m) m'
  AreNew-insert k v m [] e a = tt
  AreNew-insert k v m ((j, w) ∷ m') e (n, a) = elim (Bool-cases (j == k)) [
    | inl same ↦ cc (sym (ap (λ t. if t then some w else get k m') same) ∙ e)
    | inr other ↦
        let flipped : (k == j) ≡ false = ground arith in
        (
          get-insert k j v m ∙ (rw flipped n),
          AreNew-insert k v m m' (sym (ap (λ t. if t then some w else get k m') other) ∙ e) a,
        )
  ]

  insert_all-new : (m m' : HashMap V) → IsDistinct m' → AreNew m m' → insert_all m m' ≡ m ++ m'
  insert_all-new m [] d a = sym (append-nil m)
  insert_all-new m ((k, v) ∷ m') (e, d) (n, a) =
      insert_all-new (insert k v m) m' d (AreNew-insert k v m m' e a)
      ∙ ap (λ l. l ++ m') (insert-new k v m n)
      ∙ append_assoc m ((k, v) ∷ []) m'

  AreNew-empty : (m : HashMap V) → AreNew [] m
  AreNew-empty [] = tt
  AreNew-empty (x ∷ m) = (refl, AreNew-empty m)

  -- Entry by entry, a map is built again.
  pub insert_all-same : (m : HashMap V) → IsDistinct m → insert_all [] m ≡ m
  insert_all-same m d = insert_all-new [] m d (AreNew-empty m)

  get-insert-none :
      (k j : ℕ) (v : V) (m : HashMap V)
      → (j == k) ≡ false
      → get k m ≡ none
      → get k (insert j v m) ≡ none
  get-insert-none k j v m e n = get-insert j k v m ∙ (rw e n)

  pub insert-IsDistinct : (k : ℕ) (v : V) (m : HashMap V) → IsDistinct m → IsDistinct (insert k v m)
  insert-IsDistinct k v [] d = (refl, tt)
  insert-IsDistinct k v ((j, w) ∷ m) (n, d) = elim (Bool-cases (j == k)) [
    | inl same ↦ let e : j ≡ k = ground arith in rw same (ap (λ i. get i m) (sym e) ∙ n, d)
    | inr other ↦
        let flipped : (k == j) ≡ false = ground arith in
        rw other (get-insert-none j k v m flipped n, insert-IsDistinct k v m d)
  ]
