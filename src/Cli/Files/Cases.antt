-- ===== src/Cli/Files/Cases.antt =====
-- The steps of a command, by how their first call ends.
use vestigium.Common.{◌≡◌, refl, ap, ◌≢◌, ◌⊎◌, inl, inr}
use vestigium.Common.Exec.{Outcome, ok, err, panic, fault, stuck, Exec, continue, expect, ◌>>=◌}
use vestigium.Platform.{Platform, World, Bytes, Answer, done, failed}
use vestigium.Cli.Files.{FileSystem, Session, on_host, read_file, write_file, outside}

-- The call has no value to return: it ends as an error, a panic, undefined behaviour, or without
-- fuel.
abbrev pub Fails {ℓ} : {A : Type ℓ} → Outcome A → Type ℓ
Fails {A = A} r = (a : A) → r ≢ ok a

Answer-cases :
    {A : Type 0} (a : Answer A)
    → ((value : A) × (a ≡ done value)) ⊎ ((code : _) × (a ≡ failed code))
Answer-cases (done value) = inl (value, refl)
Answer-cases (failed code) = inr (code, refl)

Outcome-cases : {A : Type 0} (r : Outcome A) → ((a : A) × (r ≡ ok a)) ⊎ Fails r
Outcome-cases (ok a) = inl (a, refl)
Outcome-cases (err e) = inr (λ a p. cc p)
Outcome-cases panic = inr (λ a p. cc p)
Outcome-cases fault = inr (λ a p. cc p)
Outcome-cases stuck = inr (λ a p. cc p)

continue-Fails :
    {S A B : Type 0} (r : Outcome A) (f : A → Exec S B) (s : S)
    → Fails r
    → Fails (continue r f s).0 × ((continue r f s).1 ≡ s)
continue-Fails (ok a) f s fails = absurd (fails a refl)
continue-Fails (err e) f s fails = ((λ b p. cc p), refl)
continue-Fails panic f s fails = ((λ b p. cc p), refl)
continue-Fails fault f s fails = ((λ b p. cc p), refl)
continue-Fails stuck f s fails = ((λ b p. cc p), refl)

module _ {p : Platform} {fs : FileSystem} {A : Type 0} where
  -- A file is read, or the command panics and nothing has changed.
  pub read-cases :
      (name : fs.FileName) (f : Bytes → Exec (Session p fs) A) (s : Session p fs)
      → ((bytes : Bytes) × (fs.read name s.files ≡ done bytes)
          × ((expect (read_file name) >>= f) s ≡ f bytes s))
        ⊎ ((expect (read_file name) >>= f) s ≡ (panic, s))
  read-cases name f s = elim (Answer-cases (fs.read name s.files)) [
    | inl (bytes, e) ↦ inl (bytes, e, rw e refl)
    | inr (code, e) ↦ inr (rw e refl)
  ]

  -- A file is written and the command goes on, or it panics with what the write has left.
  pub write-cases :
      (name : fs.FileName) (bytes : Bytes) (f : Unit {0} → Exec (Session p fs) A) (s : Session p fs)
      → (((fs.write name bytes s.files).0 ≡ done tt)
          × ((expect (write_file name bytes) >>= f) s
              ≡ f tt (record s { files = (fs.write name bytes s.files).1 })))
        ⊎ ((code : _) × ((fs.write name bytes s.files).0 ≡ failed code)
            × ((expect (write_file name bytes) >>= f) s
                ≡ (panic, record s { files = (fs.write name bytes s.files).1 })))
  write-cases name bytes f s = elim (Answer-cases (fs.write name bytes s.files).0) [
    | inl (tt, e) ↦ inl (e, rw e refl)
    | inr (code, e) ↦ inr (code, e, rw e refl)
  ]

  -- What is encoded is the answer of the format, or the command panics and nothing has changed.
  pub outside-cases :
      {B : Type 0} (a : Answer B) (f : B → Exec (Session p fs) A) (s : Session p fs)
      → ((b : B) × (a ≡ done b) × ((expect (outside a) >>= f) s ≡ f b s))
        ⊎ ((expect (outside a) >>= f) s ≡ (panic, s))
  outside-cases a f s = elim (Answer-cases a) [
    | inl (b, e) ↦ inl (b, e, rw e refl)
    | inr (code, e) ↦ inr (rw e refl)
  ]

  -- A call that leaves the files alone has a value, or the command fails with the files as they are.
  pub host-cases :
      {B : Type 0} (m : Exec (World p) B) (f : B → Exec (Session p fs) A) (s : Session p fs)
      → ((b : B) × (w : World p) × (m s.world ≡ (ok b, w))
          × ((on_host m >>= f) s ≡ f b (record s { world = w })))
        ⊎ (Fails ((on_host m >>= f) s).0 × (((on_host m >>= f) s).1.files ≡ s.files))
  host-cases m f s = elim (Outcome-cases (m s.world).0) [
    | inl (b, e) ↦ inl (b, (m s.world).1, (λ i. (e i, (m s.world).1)), rw e refl)
    | inr fails ↦
        let (k, same) = continue-Fails (m s.world).0 f (record s { world = (m s.world).1 }) fails in
        inr (k, ap (λ (t : Session p fs). t.files) same)
  ]
