-- ===== src/Vmm/Partition/Life.antt =====
-- Which partitions the hypervisor holds for the program.
use vestigium.Common.{
  ℕ, ◌≡◌, ◌≢◌, refl, sym, ap, ◌∙◌, List, [], ◌∷◌, ◌==◌, if◌then◌else◌, false, arith,
}
use vestigium.Common.Exec.{Outcome, ok, err, panic, fault, stuck, Exec, pure, continue, ◌>>=◌}
use vestigium.Common.Steps.{ok-same, bind-ok, bind-step}
use vestigium.Platform.Frame.{answered}
use vestigium.Platform.{Platform, World, done, Property, processor_count, api, answer}
use vestigium.Vmm.Partition.{VmPartition, new, drop_partition}

abbrev pub remove : ℕ → List ℕ → List ℕ
remove h [] = []
remove h (k ∷ handles) = let rest = remove h handles in if h == k then handles else k ∷ rest

-- A list of the partitions that exist in a state of the hypervisor: a call that creates a partition
-- adds it, one that deletes a partition removes it, and the others leave the list as it is.
pub record Tracks (p : Platform) (live : p.Machine → List ℕ) : Type 0 where
  pub created :
      (h : ℕ) (m : p.Machine)
      → (p.create_partition m).0 ≡ done h
      → live (p.create_partition m).1 ≡ h ∷ live m
  pub set : (h : ℕ) (q : Property) (m : p.Machine) → live (p.set_property h q m).1 ≡ live m
  pub set_up : (h : ℕ) (m : p.Machine) → live (p.setup_partition h m).1 ≡ live m
  pub deleted : (h : ℕ) (m : p.Machine) → live (p.delete_partition h m) ≡ remove h (live m)

remove-head : (h : ℕ) (handles : List ℕ) → remove h (h ∷ handles) ≡ handles
remove-head h handles = ground arith

module _ {p : Platform} where
  module _ (live : p.Machine → List ℕ) (tracks : Tracks p live) where
    -- A call that creates and deletes nothing.
    abbrev Leaves : {A : Type 0} → Exec (World p) A → Type 0
    Leaves m = (w : World p) → live (m w).1.machine ≡ live w.machine

    continue-Leaves :
        {A B : Type 0} (r : Outcome A) (f : A → Exec (World p) B) (w : World p)
        → ((a : A) → Leaves (f a))
        → live (continue r f w).1.machine ≡ live w.machine
    continue-Leaves (ok a) f w k = k a w
    continue-Leaves (err e) f w k = refl
    continue-Leaves panic f w k = refl
    continue-Leaves fault f w k = refl
    continue-Leaves stuck f w k = refl

    bind-Leaves :
        {A B : Type 0} (m : Exec (World p) A) (f : A → Exec (World p) B)
        → Leaves m
        → ((a : A) → Leaves (f a))
        → Leaves (m >>= f)
    bind-Leaves m f l k w = continue-Leaves (m w).0 f (m w).1 k ∙ l w

    abbrev after_creation : ℕ → Exec (World p) VmPartition
    after_creation h = api (p.set_property h (processor_count 4)) >>= λ _.
        api (p.setup_partition h) >>= λ _. pure (record { handle = h })

    after_creation-Leaves : (h : ℕ) → Leaves (after_creation h)
    after_creation-Leaves h =
        bind-Leaves (api (p.set_property h (processor_count 4)))
          (λ _. api (p.setup_partition h) >>= λ _. pure (record { handle = h }))
          (λ w. tracks.set h (processor_count 4) w.machine)
          (λ _.
            bind-Leaves (api (p.setup_partition h)) (λ _. pure (record { handle = h }))
              (λ w. tracks.set_up h w.machine) (λ _ w. refl))

    abbrev with_partition : World p → World p
    with_partition w = record w { machine = (p.create_partition w.machine).1 }

    new-created :
        (h : ℕ) (w : World p)
        → (p.create_partition w.machine).0 ≡ done h
        → new w ≡ after_creation h (with_partition w)
    unfolding new
    new-created h w e =
        bind-step (api p.create_partition) after_creation w
          (ap (λ r. (answer r, with_partition w)) e)

    new-live :
        (h : ℕ) (w : World p)
        → (p.create_partition w.machine).0 ≡ done h
        → live (new w).1.machine ≡ h ∷ live w.machine
    new-live h w e =
        ap (λ x. live x.1.machine) (new-created h w e)
        ∙ after_creation-Leaves h (with_partition w)
        ∙ tracks.created h w.machine e

    -- Once the partition is created, `new` may still fail: its property is refused, or its setup. It
    -- returns no handle then, and the partition that was created exists from there on.
    pub new-leaks :
        (h e : ℕ) (w w' : World p)
        → (p.create_partition w.machine).0 ≡ done h
        → new w ≡ (err e, w')
        → live w'.machine ≡ h ∷ live w.machine
    new-leaks h e w w' c r = ap (λ x. live x.1.machine) (sym r) ∙ new-live h w c

    -- Where `new` succeeds with a handle that is not 0, the partition exists, and its drop succeeds
    -- and leaves the partitions that existed before.
    pub new-drop_partition :
        (partition : VmPartition) (w w' : World p)
        → new w ≡ (ok partition, w')
        → partition.handle ≢ 0
        → (w'' : World p) × (live w'.machine ≡ partition.handle ∷ live w.machine)
          × (drop_partition partition w' ≡ (ok tt, w''))
          × (live w''.machine ≡ live w.machine)
    unfolding new drop_partition
    new-drop_partition partition w w' e ne =
        let (h, u, made, rest) = bind-ok (api p.create_partition) after_creation w e in
        let c = answered (p.create_partition w.machine).0 (ap (λ x. x.0) made) in
        let (_, u1, _, rest1) =
          bind-ok (api (p.set_property h (processor_count 4)))
            (λ _. api (p.setup_partition h) >>= λ _. pure (record { handle = h })) u rest in
        let (_, u2, _, last) =
          bind-ok (api (p.setup_partition h)) (λ _. pure (record { handle = h })) u1 rest1 in
        let same : partition.handle ≡ h =
          ap (λ (q : VmPartition). q.handle) (sym (ok-same (ap (λ x. x.0) last))) in
        let held : live w'.machine ≡ partition.handle ∷ live w.machine =
          ap (λ x. live x.1.machine) (sym e)
          ∙ new-live h w c
          ∙ ap (λ k. k ∷ live w.machine) (sym same) in
        let nonzero : (partition.handle == 0) ≡ false = ground (arith, ne) in
        (
          record w' { machine = p.delete_partition partition.handle w'.machine },
          held,
          rw (nonzero),
          tracks.deleted partition.handle w'.machine
              ∙ ap (remove partition.handle) held
              ∙ remove-head partition.handle (live w.machine),
        )
