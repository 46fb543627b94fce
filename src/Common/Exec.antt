-- ===== src/Common/Exec.antt =====
-- A call that changes a state `S` and may fail. What was written before a failure stays written,
-- so the state comes back beside the failure too.
use mathlib.Core.Bool.{Bool, true, false}
use Prim.Native.Nat.{ℕ}

-- `err` is the `Err` of a `Result`, with the code of the platform's error. `panic` is a failed
-- `assert!`, `expect` or checked addition; the build profiles abort there. `fault` is undefined
-- behaviour, such as a copy past the end of a buffer. `stuck` is a loop that has used up its fuel.
pub data Outcome {ℓ} (A : Type ℓ) : Type ℓ where
  ok : A → Outcome A
  err : ℕ → Outcome A
  panic fault stuck : Outcome A

abbrev pub Exec {ℓ} : Type ℓ → Type ℓ → Type ℓ
Exec S A = S → Outcome A × S

module _ {ℓ} {S A : Type ℓ} where
  abbrev pub pure : A → Exec S A
  pure a s = (ok a, s)

  abbrev pub raise : Outcome A → Exec S A
  raise r s = (r, s)

module _ {ℓ} {S A B : Type ℓ} where
  abbrev pub continue : Outcome A → (A → Exec S B) → Exec S B
  continue (ok a) f s = f a s
  continue (err e) f s = (err e, s)
  continue panic f s = (panic, s)
  continue fault f s = (fault, s)
  continue stuck f s = (stuck, s)

  infixl 5 ◌>>=◌ ◌>>◌
  abbrev pub ◌>>=◌ : Exec S A → (A → Exec S B) → Exec S B
  ◌>>=◌ m f s = let (r, s') = m s in continue r f s'

  abbrev pub ◌>>◌ : Exec S A → Exec S B → Exec S B
  m >> k = m >>= λ _. k

-- What a loop's body tells the loop: `break`, or another round.
pub data Flow {ℓ} (A : Type ℓ) : Type ℓ where
  leave : Flow A
  again : A → Flow A

-- `.expect(…)` on a `Result`.
abbrev pub expected {ℓ} : {A : Type ℓ} → Outcome A → Outcome A
expected (ok a) = ok a
expected (err e) = panic
expected panic = panic
expected fault = fault
expected stuck = stuck

abbrev pub expect {ℓ} : {S A : Type ℓ} → Exec S A → Exec S A
expect m s = let (r, s') = m s in (expected r, s')

-- `assert!(…)`.
abbrev pub assert : {S : Type 0} → Bool → Exec S (Unit {0})
assert true s = (ok tt, s)
assert false s = (panic, s)
