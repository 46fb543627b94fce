-- ===== src/Tests/Codec.antt =====
-- A format for the archive of a trace file: each list with its length before it.
use vestigium.Common.{
  ℕ, zero, suc, ◌≡◌, refl, sym, ap, ◌∙◌, List, [], ◌∷◌, Option, none, some, length,
}
use vestigium.Platform.{Bytes, Answer, done, failed}
use vestigium.Trace.{EventType, TraceEvent, syscall, rdtsc, cpuid, context_switch}
use vestigium.Engine.Snapshot.Serde.{SavedSnapshot}
use vestigium.Cli.Record.{Archive}
use vestigium.Cli.Saved.{Decodes}

-- What is put before some bytes is taken from them.
record Codec (A : Type 0) : Type 0 where
  put : A → Bytes → Bytes
  take : Bytes → Option (A × Bytes)
  take-put : (a : A) (rest : Bytes) → take (put a rest) ≡ some (a, rest)

abbrev then : {A B : Type 0} → Option (A × Bytes) → (A → Bytes → Option B) → Option B
then none f = none
then (some (a, rest)) f = f a rest

abbrev take_number : Bytes → Option (ℕ × Bytes)
take_number [] = none
take_number (n ∷ rest) = some (n, rest)

abbrev number : Codec ℕ
number = record { put = λ n rest. n ∷ rest; take = take_number; take-put = λ n rest. refl }

module _ {A B : Type 0} (C : Codec A) (D : Codec B) where
  abbrev pair : Codec (A × B)
  pair = record {
    put = λ x rest. C.put x.0 (D.put x.1 rest);
    take =
        λ bytes. then (C.take bytes) (λ a rest. then (D.take rest) (λ b rest. some ((a, b), rest)));
    take-put = λ x rest. rw (C.take-put x.0 (D.put x.1 rest), D.take-put x.1 rest) refl;
  }

module _ {A : Type 0} (C : Codec A) where
  abbrev puts : List A → Bytes → Bytes
  puts [] rest = rest
  puts (a ∷ items) rest = C.put a (puts items rest)

  abbrev takes : ℕ → Bytes → Option (List A × Bytes)
  takes zero rest = some ([], rest)
  takes (suc n) rest =
      then (C.take rest) (λ a rest. then (takes n rest) (λ items rest. some (a ∷ items, rest)))

  takes-puts :
      (items : List A) (rest : Bytes) → takes (length items) (puts items rest) ≡ some (items, rest)
  takes-puts [] rest = refl
  takes-puts (a ∷ items) rest = rw (C.take-put a (puts items rest), takes-puts items rest) refl

  abbrev list : Codec (List A)
  list = record {
    put = λ items rest. length items ∷ puts items rest;
    take = λ bytes. then (take_number bytes) takes;
    take-put = takes-puts;
  }

  -- a type with the same values
  abbrev same_as : {B : Type 0} (f : A → B) (g : B → A) → ((b : B) → f (g b) ≡ b) → Codec B
  same_as f g back = record {
    put = λ b rest. C.put (g b) rest;
    take = λ bytes. then (C.take bytes) (λ a rest. some (f a, rest));
    take-put = λ b rest. rw (C.take-put (g b) rest, back b) refl;
  }

abbrev writes : Codec (List (ℕ × Bytes))
writes = list (pair number (list number))

abbrev put_type : EventType → Bytes → Bytes
put_type (syscall a w) rest = 0 ∷ a ∷ writes.put w rest
put_type (rdtsc a d) rest = 1 ∷ a ∷ d ∷ rest
put_type (cpuid a b c d) rest = 2 ∷ a ∷ b ∷ c ∷ d ∷ rest
put_type (context_switch t) rest = 3 ∷ t ∷ rest

abbrev take_type : Bytes → Option (EventType × Bytes)
take_type (zero ∷ a ∷ rest) = then (writes.take rest) (λ w rest. some (syscall a w, rest))
take_type (suc zero ∷ a ∷ d ∷ rest) = some (rdtsc a d, rest)
take_type (suc (suc zero) ∷ a ∷ b ∷ c ∷ d ∷ rest) = some (cpuid a b c d, rest)
take_type (suc (suc (suc zero)) ∷ t ∷ rest) = some (context_switch t, rest)
take_type _ = none

take_type-put_type : (e : EventType) (rest : Bytes) → take_type (put_type e rest) ≡ some (e, rest)
take_type-put_type (syscall a w) rest = rw (writes.take-put w rest) refl
take_type-put_type (rdtsc a d) rest = refl
take_type-put_type (cpuid a b c d) rest = refl
take_type-put_type (context_switch t) rest = refl

abbrev event : Codec TraceEvent
event =
    same_as
      (pair number (record { put = put_type; take = take_type; take-put = take_type-put_type }))
      (λ x. record { instruction_count = x.0; event = x.1 }) (λ e. (e.instruction_count, e.event))
      (λ e. refl)

abbrev snapshot : Codec SavedSnapshot
snapshot =
    same_as (pair writes (list (list number)))
      (λ x. record { memory_regions = x.0; registers = x.1 }) (λ s. (s.memory_regions, s.registers))
      (λ s. refl)

abbrev archive : Codec Archive
archive =
    same_as (pair snapshot (pair (list event) number))
      (λ x. record { snapshot = x.0; events = x.1.0; hash = x.1.1 })
      (λ a. (a.snapshot, (a.events, a.hash))) (λ a. refl)

abbrev answered : Option (Archive × Bytes) → Answer Archive
answered none = failed 1
answered (some (a, rest)) = done a

abbrev bytes_of : Answer Bytes → Bytes
bytes_of (failed e) = []
bytes_of (done bytes) = bytes

pub encode : Archive → Answer Bytes
encode a = done (archive.put a [])

pub decode : Bytes → Answer Archive
decode bytes = answered (archive.take bytes)

pub codec-Decodes : Decodes encode decode
unfolding encode decode
codec-Decodes a bytes e =
    ap (λ (x : Answer Bytes). decode (bytes_of x)) (sym e) ∙ rw (archive.take-put a []) refl
