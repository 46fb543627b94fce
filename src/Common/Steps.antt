-- ===== src/Common/Steps.antt =====
-- What a successful chain of calls has done, call by call.
use vestigium.Common.Exec.{
  Outcome, ok, err, panic, fault, stuck, Exec, continue, expect, expected, ◌>>=◌,
}
use mathlib.Core.Path.{◌≡◌, refl, ap}

module _ {ℓ} {S A B : Type ℓ} where
  continue-ok :
      (r : Outcome A) (f : A → Exec S B) (s : S) {b : B} {t : S}
      → continue r f s ≡ (ok b, t)
      → (a : A) × (r ≡ ok a) × (f a s ≡ (ok b, t))
  continue-ok (ok a) f s h = (a, refl, h)
  continue-ok (err e) f s h = cc (ap (λ x. x.0) h)
  continue-ok panic f s h = cc (ap (λ x. x.0) h)
  continue-ok fault f s h = cc (ap (λ x. x.0) h)
  continue-ok stuck f s h = cc (ap (λ x. x.0) h)

  -- A chain that succeeds has a first call that succeeds.
  pub bind-ok :
      (m : Exec S A) (f : A → Exec S B) (s : S) {b : B} {t : S}
      → (m >>= f) s ≡ (ok b, t)
      → (a : A) × (u : S) × (m s ≡ (ok a, u)) × (f a u ≡ (ok b, t))
  bind-ok m f s h =
      let (a, e, k) = continue-ok (m s).0 f (m s).1 h in (a, (m s).1, λ i. (e i, (m s).1), k)

  -- After a first call that succeeds the chain goes on.
  pub bind-step :
      (m : Exec S A) (f : A → Exec S B) (s : S) {a : A} {u : S}
      → m s ≡ (ok a, u)
      → (m >>= f) s ≡ f a u
  bind-step m f s h = λ i. continue (h i).0 f (h i).1

module _ {ℓ} {S A : Type ℓ} where
  pub expect-step :
      (m : Exec S A) (s : S) {a : A} {u : S} → m s ≡ (ok a, u) → expect m s ≡ (ok a, u)
  expect-step m s h = λ i. (expected (h i).0, (h i).1)

pub ok-same {ℓ} : {A : Type ℓ} {a b : A} → ok a ≡ ok b → a ≡ b
ok-same e = cc e
