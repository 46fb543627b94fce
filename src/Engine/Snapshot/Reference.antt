-- ===== src/Engine/Snapshot/Reference.antt =====
-- `hash_state` against a reference: the hash of the abstract view of a snapshot.
use vestigium.Common.{
  ℕ, ◌≤◌, ◌≡◌, refl, sym, arith, map, true, ap, ◌∙◌, Bool-cases, inl, inr, none, some, List, [],
  ◌∷◌, leb, ◌==◌, ==_refl,
}
use mathlib.Core.List.{Perm}
use vestigium.Common.Exec.{ok}
use vestigium.Common.HashMap.{HashMap, get, keys}
use vestigium.Platform.{Platform, World, Bytes, RegisterValue}
use vestigium.Platform.Whole.{load-whole}
use vestigium.Engine.Snapshot.{Snapshot}
use vestigium.Engine.Snapshot.Hash.{
  Hasher, insert_sorted, sort, hash_registers, region, hash_regions, hash_state,
}
use vestigium.Engine.Snapshot.Order.{write_words, sort-perm, hash_registers-eq}
use vestigium.Engine.Snapshot.Holds.{Holds, Holds-find, Holds-keys}

abbrev content_at : ℕ → HashMap Bytes → Bytes
content_at gpa contents = elim (get gpa contents) [ none ↦ [] | some b ↦ b ]

abbrev hash_contents : (h : Hasher) → HashMap Bytes → List ℕ → h.State → h.State
hash_contents h contents [] st = st
hash_contents h contents (gpa ∷ gpas) st =
    hash_contents h contents gpas (h.write_slice (content_at gpa contents) (h.write_u64 gpa st))

-- The hash of registers and of bytes by address, with no buffers.
unfoldable pub contents_hash : Hasher → List RegisterValue → HashMap Bytes → ℕ
contents_hash h registers contents =
    h.finish (hash_contents h contents (sort (keys contents)) (hash_registers h registers h.start))

abbrev pub IsAscending : List ℕ → Type 0
IsAscending [] = Unit
IsAscending (x ∷ []) = Unit
IsAscending (x ∷ y ∷ l) = (x ≤ y) × IsAscending (y ∷ l)

-- Bytes at the addresses where `contents` has them.
abbrev pub AreIn : HashMap Bytes → HashMap Bytes → Type 0
AreIn contents [] = Unit
AreIn contents ((gpa, b) ∷ entries) = (get gpa contents ≡ some b) × AreIn contents entries

-- `entries` lists the addresses of `contents`, in ascending order, with the bytes there.
pub record Lists (contents entries : HashMap Bytes) : Type 0 where
  pub addresses : Perm (keys contents) (keys entries)
  pub ascending : IsAscending (keys entries)
  pub bytes : AreIn contents entries

-- Each address, then the bytes there, in the order of the list.
abbrev pub write_entries : (h : Hasher) → HashMap Bytes → h.State → h.State
write_entries h [] st = st
write_entries h ((gpa, b) ∷ entries) st =
    write_entries h entries (h.write_slice b (h.write_u64 gpa st))

-- The reference: what is to be written to the hasher for words and for entries.
abbrev pub reference_hash : Hasher → List ℕ → HashMap Bytes → ℕ
reference_hash h words entries = h.finish (write_entries h entries (write_words h words h.start))

leb-true : (x y : ℕ) → x ≤ y → leb x y ≡ true
leb-true x y le = ground (arith, le)

sort-IsAscending : (l : List ℕ) → IsAscending l → sort l ≡ l
unfolding sort insert_sorted
sort-IsAscending [] a = refl
sort-IsAscending (x ∷ []) a = refl
sort-IsAscending (x ∷ y ∷ l) (le, a) =
    ap (insert_sorted x) (sort-IsAscending (y ∷ l) a) ∙ rw (leb-true x y le) refl

hash_contents-AreIn :
    (h : Hasher) (contents entries : HashMap Bytes) (st : h.State)
    → AreIn contents entries
    → hash_contents h contents (keys entries) st ≡ write_entries h entries st
hash_contents-AreIn h contents [] st found = refl
hash_contents-AreIn h contents ((gpa, b) ∷ entries) st (got, found) =
    let same : content_at gpa contents ≡ b = rw (got, content_at) in
    ap (λ c. hash_contents h contents (keys entries) (h.write_slice c (h.write_u64 gpa st))) same
    ∙ hash_contents-AreIn h contents entries (h.write_slice b (h.write_u64 gpa st)) found

contents_hash-Lists :
    (h : Hasher) (registers : List RegisterValue) (contents entries : HashMap Bytes)
    → Lists contents entries
    → contents_hash h registers contents
      ≡ reference_hash h (map (λ (v : RegisterValue). v.reg64) registers) entries
unfolding contents_hash
contents_hash-Lists h registers contents entries l =
    let st = hash_registers h registers h.start in
    let order : sort (keys contents) ≡ keys entries =
      sort-perm (keys contents) (keys entries) l.addresses
      ∙ sort-IsAscending (keys entries) l.ascending in
    ap h.finish (
      ap (λ gpas. hash_contents h contents gpas st) order
      ∙ hash_contents-AreIn h contents entries st l.bytes
      ∙ ap (write_entries h entries) (hash_registers-eq h registers h.start))

-- Addresses that `contents` has.
abbrev Known : HashMap Bytes → List ℕ → Type 0
Known contents [] = Unit
Known contents (gpa ∷ gpas) = ((b : Bytes) × (get gpa contents ≡ some b)) × Known contents gpas

Known-more :
    (gpa : ℕ) (bytes : Bytes) (contents : HashMap Bytes) (gpas : List ℕ)
    → Known contents gpas
    → Known ((gpa, bytes) ∷ contents) gpas
Known-more gpa bytes contents [] k = tt
Known-more gpa bytes contents (g ∷ gpas) ((b, got), k) = (now, Known-more gpa bytes contents gpas k)
  where
    now : (c : Bytes) × (get g ((gpa, bytes) ∷ contents) ≡ some c)
    now = elim (Bool-cases (gpa == g)) [
      | inl same ↦ (bytes, rw same)
      | inr other ↦ (b, rw other got)
    ]

Known-keys : (contents : HashMap Bytes) → Known contents (keys contents)
Known-keys [] = tt
Known-keys ((gpa, b) ∷ contents) =
    ((b, rw (==_refl gpa)), Known-more gpa b contents (keys contents) (Known-keys contents))

Known-insert_sorted :
    (contents : HashMap Bytes) (gpa : ℕ) (gpas : List ℕ)
    → (b : Bytes) × (get gpa contents ≡ some b)
    → Known contents gpas
    → Known contents (insert_sorted gpa gpas)
unfolding insert_sorted
Known-insert_sorted contents gpa [] got k = (got, tt)
Known-insert_sorted contents gpa (g ∷ gpas) got (here, k) = elim (Bool-cases (leb gpa g)) [
  | inl le ↦ rw le (got, (here, k))
  | inr gt ↦ rw gt (here, Known-insert_sorted contents gpa gpas got k)
]

Known-sort :
    (contents : HashMap Bytes) (gpas : List ℕ) → Known contents gpas → Known contents (sort gpas)
unfolding sort
Known-sort contents [] k = tt
Known-sort contents (g ∷ gpas) (here, k) =
    Known-insert_sorted contents g (sort gpas) here (Known-sort contents gpas k)

module _ {p : Platform} (h : Hasher) (s : Snapshot) (contents : HashMap Bytes) (w : World p)
    (held : Holds w.heap s.memory_regions contents) where
  region-Holds : (gpa : ℕ) (b : Bytes) → get gpa contents ≡ some b → region s gpa w ≡ (ok b, w)
  unfolding region
  region-Holds gpa b got =
      let (mem, found, live, sized) = Holds-find gpa w.heap s.memory_regions contents b held got in
      rw (found, load-whole mem.ptr mem.size b w live sized)

  hash_regions-contents :
      (gpas : List ℕ) (st : h.State)
      → Known contents gpas
      → hash_regions h s gpas st w ≡ (ok (hash_contents h contents gpas st), w)
  unfolding hash_regions
  hash_regions-contents [] st k = refl
  hash_regions-contents (gpa ∷ gpas) st ((b, got), k) =
      let same : content_at gpa contents ≡ b = rw (got, content_at) in
      rw (region-Holds gpa b got) (
        hash_regions-contents gpas (h.write_slice b (h.write_u64 gpa st)) k
        ∙ ap (λ c. (ok (hash_contents h contents gpas (h.write_slice c (h.write_u64 gpa st))), w))
            (sym same))

  -- The hash of a snapshot whose buffers stand for `contents` is that of its registers and of
  -- `contents`; it is computed without panic or fault, and changes nothing.
  pub hash_state-contents : hash_state h s w ≡ (ok (contents_hash h s.registers contents), w)
  unfolding hash_state contents_hash
  hash_state-contents = rw (
    Holds-keys w.heap s.memory_regions contents held,
    hash_regions-contents (sort (keys contents)) (hash_registers h s.registers h.start)
        (Known-sort contents (keys contents) (Known-keys contents)),
  )

  -- The hash of a snapshot whose buffers stand for `contents` is the reference hash: of the low halves
  -- of its registers, in order, then of each address of `contents`, in ascending order, with the bytes
  -- there. It is computed without panic or fault, and changes nothing.
  pub hash_state-reference :
      (entries : HashMap Bytes)
      → Lists contents entries
      → hash_state h s w
        ≡ (ok (reference_hash h (map (λ (v : RegisterValue). v.reg64) s.registers) entries), w)
  hash_state-reference entries l =
      hash_state-contents
      ∙ ap (λ n. (ok n, w)) (contents_hash-Lists h s.registers contents entries l)
