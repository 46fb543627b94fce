-- ===== src/Platform/Frame.antt =====
-- Which blocks a call leaves alone.
use vestigium.Common.{
  ℕ, ◌+◌, ◌≡◌, ◌≢◌, refl, ap, ◌∙◌, Bool-cases, inl, inr, Option, none, some, ltb,
}
use vestigium.Common.Exec.{Outcome, ok, err, panic, fault, stuck, Exec, continue, ◌>>=◌}
use vestigium.Platform.Blocks.{Bytes, block, write_bytes}
use vestigium.Platform.Types.{Answer, done, failed}
use vestigium.Platform.State.{answer, Platform, World, add_u64, u64_mod}
use vestigium.Platform.Memory.{store, deref, put, or_fault}
use vestigium.Platform.Access.{block-set_block_ne}

-- A call of the API that succeeds has been answered with its value.
pub answered : {A : Type 0} (r : Answer A) {a : A} → answer r ≡ ok a → r ≡ done a
answered (done b) e = ap done (cc e)
answered (failed c) e = cc e

module _ {p : Platform} (q : ℕ) where
  -- The block at `q` is the same after the call, however it ends.
  abbrev pub Keeps : {A : Type 0} → Exec (World p) A → Type 0
  Keeps m = (w : World p) → block q (m w).1.heap ≡ block q w.heap

  pub bind-Keeps :
      {A B : Type 0} (m : Exec (World p) A) (f : A → Exec (World p) B)
      → Keeps m
      → ((a : A) → Keeps (f a))
      → Keeps (m >>= f)
  bind-Keeps {A} m f k each w = go (m w).0 (m w).1 ∙ k w
    where
      go : (r : Outcome A) (u : World p) → block q (continue r f u).1.heap ≡ block q u.heap
      go (ok a) u = each a u
      go (err n) u = refl
      go panic u = refl
      go fault u = refl
      go stuck u = refl

  or_fault-Keeps : {A : Type 0} (o : Option A) → Keeps (or_fault o)
  or_fault-Keeps none w = refl
  or_fault-Keeps (some a) w = refl

  pub add_u64-Keeps : (a b : ℕ) → Keeps (add_u64 a b)
  add_u64-Keeps a b w = elim (Bool-cases (ltb (a + b) u64_mod)) [
    | inl small ↦ rw small refl
    | inr large ↦ elim (Bool-cases p.overflow_checks) [
      | inl checks ↦ rw (large, checks) refl
      | inr wraps ↦ rw (large, wraps) refl
    ]
  ]

  -- A write changes no block but its own.
  pub store-Keeps : (ptr off : ℕ) (src : Bytes) → ptr ≢ q → Keeps (store ptr off src)
  unfolding store
  store-Keeps ptr off src ne =
      bind-Keeps (deref ptr) (λ b. or_fault (write_bytes off src b) >>= put ptr)
        (λ w. or_fault-Keeps (block ptr w.heap) w)
        (λ b.
          bind-Keeps (or_fault (write_bytes off src b)) (put ptr)
            (or_fault-Keeps (write_bytes off src b))
            (λ b' w. block-set_block_ne ptr q (some b') w.heap ne))
