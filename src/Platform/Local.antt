-- ===== src/Platform/Local.antt =====
-- Calls that leave the hypervisor alone.
use vestigium.Common.{ℕ, ◌+◌, ◌≡◌, refl, ◌∙◌, Bool-cases, inl, inr, Option, none, some, ltb}
use vestigium.Common.Exec.{Outcome, ok, err, panic, fault, stuck, Exec, continue, ◌>>=◌}
use vestigium.Platform.{
  Platform, World, Bytes, block, write_bytes, add_u64, u64_mod, store, deref, put, or_fault,
}

module _ {p : Platform} where
  -- The machine is the same after the call, however it ends.
  abbrev pub IsLocal : {A : Type 0} → Exec (World p) A → Type 0
  IsLocal m = (w : World p) → (m w).1.machine ≡ w.machine

  continue-machine :
      {A B : Type 0} (r : Outcome A) (f : A → Exec (World p) B) (u : World p)
      → ((a : A) → IsLocal (f a))
      → (continue r f u).1.machine ≡ u.machine
  continue-machine (ok a) f u each = each a u
  continue-machine (err n) f u each = refl
  continue-machine panic f u each = refl
  continue-machine fault f u each = refl
  continue-machine stuck f u each = refl

  pub bind-IsLocal :
      {A B : Type 0} (m : Exec (World p) A) (f : A → Exec (World p) B)
      → IsLocal m
      → ((a : A) → IsLocal (f a))
      → IsLocal (m >>= f)
  bind-IsLocal m f k each w = continue-machine (m w).0 f (m w).1 each ∙ k w

  or_fault-IsLocal : {A : Type 0} (o : Option A) → IsLocal (or_fault {p = p} o)
  or_fault-IsLocal none w = refl
  or_fault-IsLocal (some a) w = refl

  pub add_u64-IsLocal : (a b : ℕ) → IsLocal (add_u64 {p = p} a b)
  add_u64-IsLocal a b w = elim (Bool-cases (ltb (a + b) u64_mod)) [
    | inl small ↦ rw small refl
    | inr large ↦ elim (Bool-cases p.overflow_checks) [
      | inl checks ↦ rw (large, checks) refl
      | inr wraps ↦ rw (large, wraps) refl
    ]
  ]

  pub store-IsLocal : (ptr off : ℕ) (src : Bytes) → IsLocal (store {p = p} ptr off src)
  unfolding store
  store-IsLocal ptr off src =
      bind-IsLocal (deref ptr) (λ b. or_fault (write_bytes off src b) >>= put ptr)
        (λ w. or_fault-IsLocal (block ptr w.heap) w)
        (λ b.
          bind-IsLocal (or_fault (write_bytes off src b)) (put ptr)
            (or_fault-IsLocal (write_bytes off src b)) (λ b' w. refl))
