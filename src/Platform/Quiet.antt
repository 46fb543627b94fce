-- ===== src/Platform/Quiet.antt =====
-- Calls that only read the machine and the heap: what is printed does not change what they return.
use vestigium.Common.{◌≡◌, refl, sym, ap, ◌∙◌, Bool, true, false, ℕ, List, Option, none, some}
use vestigium.Common.Exec.{
  Outcome, ok, err, panic, fault, stuck, Exec, continue, assert, expect, expected, ◌>>=◌,
}
use vestigium.Platform.{Platform, World, Message, load, deref, or_fault, block, read_bytes}

module _ {p : Platform} where
  -- A world with other lines printed.
  abbrev pub with_lines : List Message → World p → World p
  with_lines lines w = record w { printed = lines }

  -- The call returns the same with any lines printed, and changes nothing.
  abbrev pub IsQuiet : {A : Type 0} → Exec (World p) A → Type 0
  IsQuiet m =
      (w : World p) (lines : List Message) → m (with_lines lines w) ≡ ((m w).0, with_lines lines w)

  pub IsQuiet-same : {A : Type 0} (m : Exec (World p) A) → IsQuiet m → (w : World p) → (m w).1 ≡ w
  IsQuiet-same m quiet w = ap (λ x. x.1) (quiet w w.printed)

  continue-lines :
      {A B : Type 0} (r : Outcome A) (f : A → Exec (World p) B) (w : World p) (lines : List Message)
      → ((a : A) → IsQuiet (f a))
      → continue r f (with_lines lines w) ≡ ((continue r f w).0, with_lines lines w)
  continue-lines (ok a) f w lines k = k a w lines
  continue-lines (err e) f w lines k = refl
  continue-lines panic f w lines k = refl
  continue-lines fault f w lines k = refl
  continue-lines stuck f w lines k = refl

  pub bind-IsQuiet :
      {A B : Type 0} (m : Exec (World p) A) (f : A → Exec (World p) B)
      → IsQuiet m
      → ((a : A) → IsQuiet (f a))
      → IsQuiet (m >>= f)
  bind-IsQuiet m f quiet k w lines =
      ap (λ x. continue x.0 f x.1) (quiet w lines)
      ∙ continue-lines (m w).0 f w lines k
      ∙ ap (λ u. ((continue (m w).0 f u).0, with_lines lines w)) (sym (IsQuiet-same m quiet w))

  pub expect-IsQuiet : {A : Type 0} (m : Exec (World p) A) → IsQuiet m → IsQuiet (expect m)
  expect-IsQuiet m quiet w lines = ap (λ x. (expected x.0, x.1)) (quiet w lines)

  pub assert-IsQuiet : (b : Bool) → IsQuiet (assert {S = World p} b)
  assert-IsQuiet true w lines = refl
  assert-IsQuiet false w lines = refl

  or_fault-IsQuiet : {A : Type 0} (o : Option A) → IsQuiet (or_fault {p = p} o)
  or_fault-IsQuiet none w lines = refl
  or_fault-IsQuiet (some a) w lines = refl

  pub load-IsQuiet : (ptr off n : ℕ) → IsQuiet (load {p = p} ptr off n)
  unfolding load
  load-IsQuiet ptr off n =
      bind-IsQuiet (deref ptr) (λ b. or_fault (read_bytes off n b))
        (λ w lines. or_fault-IsQuiet (block ptr w.heap) w lines)
        (λ b. or_fault-IsQuiet (read_bytes off n b))
