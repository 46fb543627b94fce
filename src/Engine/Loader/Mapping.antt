-- ===== src/Engine/Loader/Mapping.antt =====
-- `map_into_memory` as a whole: the image that it returns, and what a bad section does.
use vestigium.Common.{
  ℕ, ◌+◌, ◌-◌, ◌%◌, ◌^◌, ◌≤◌, ◌<◌, ◌≡◌, ap, ◌∙◌, true, false, Bool, List, [], ◌∷◌, ◌++◌, length,
  length-drop, take, drop, ◌⊎◌, inl, inr, Bool-cases, arith, leb, some, ltb, ◌&&◌, ◌==◌,
  if◌then◌else◌,
}
use vestigium.Common.Exec.{Outcome, ok, panic, fault, Exec, pure, ◌>>=◌, ◌>>◌}
use vestigium.Common.Steps.{bind-step, bind-ok}
use vestigium.Common.Bytes.{byte, length-take}
use vestigium.Platform.{Platform, World, Bytes, block, zeroed, read_bytes, block}
use vestigium.Platform.Access.{block-append, length-zeroed, byte-zeroed, store_out}
use vestigium.Engine.Loader.{
  Section, PeLoader, image_size, is_loaded, copy_section, copy_sections, map_into_memory,
}
use vestigium.Engine.Loader.Image.{page_end, laid, AllFit, align_to_page_lem, copy_sections-laid}

-- The image of `loader` at the block `ptr`, of `size` bytes.
pub record IsImage (loader : PeLoader) (ptr size : ℕ) {p : Platform} (w : World p) : Type 0 where
  pub content : Bytes
  pub live : block ptr w.heap ≡ some content
  pub sized : length content ≡ size
  pub laid_out : (i : ℕ) → byte content i ≡ laid loader.raw_bytes loader.pe.sections (λ _. 0) i

module _ {p : Platform} (loader : PeLoader) (w : World p) where
  abbrev allocated : World p
  allocated = record w { heap = w.heap ++ some (zeroed (page_end (image_size loader))) ∷ [] }

  -- the calls before the loop
  prefix :
      0 < image_size loader
      → image_size loader < 2 ^ 32
      → p.has_room w.heap (page_end (image_size loader)) ≡ true
      → map_into_memory loader w
        ≡ (do
          copy_sections
              (length w.heap)
              (page_end (image_size loader))
              loader.raw_bytes
              loader.pe.sections
          pure (length w.heap, page_end (image_size loader)))
            allocated
  unfolding map_into_memory
  prefix pos small room =
      let n = page_end (image_size loader) in
      let a : leb n (2 ^ 63 - 4096) ≡ true = ground arith in
      let b : (n == 0) ≡ false = ground arith in
      rw (align_to_page_lem (image_size loader) w small, a, b, room)

  -- With a size of image that is not 0 and fits 32 bits, room in the allocator, and sections that
  -- lie in the file and in the image, the call succeeds. It returns a block whose size is that of
  -- the image rounded up to pages, and whose bytes are those of the last section that covers them,
  -- and 0 where none does.
  pub map_into_memory-IsImage :
      0 < image_size loader
      → image_size loader < 2 ^ 32
      → p.has_room w.heap (page_end (image_size loader)) ≡ true
      → AllFit loader.raw_bytes (page_end (image_size loader)) loader.pe.sections
      → (ptr size : ℕ) × (w' : World p) × (map_into_memory loader w ≡ (ok (ptr, size), w'))
        × (size % 4096 ≡ 0)
        × (image_size loader ≤ size)
        × (size < image_size loader + 4096)
        × IsImage loader ptr size w'
  map_into_memory-IsImage pos small room fit =
      let n = page_end (image_size loader) in
      let (w', b, run, live, sized, same) =
        copy_sections-laid (length w.heap) loader.raw_bytes n loader.pe.sections allocated
          (zeroed n) (λ _. 0) fit (length-zeroed n) (block-append w.heap (some (zeroed n)))
          (byte-zeroed n) in
      (
        length w.heap,
        n,
        w',
        prefix pos small room
            ∙ bind-step (copy_sections (length w.heap) n loader.raw_bytes loader.pe.sections) _
                allocated run,
        omega arith,
        omega arith,
        omega arith,
        record { content = b; live = live; sized = sized; laid_out = same },
      )

-- What a section that does not fit does: the slice with its check panics, all else is a copy or an
-- address out of bounds.
abbrev pub bad_outcome : Bytes → ℕ → Section → Outcome (ℕ × ℕ)
bad_outcome raw size s =
    if leb s.virtual_address size && ltb (length raw) s.pointer_to_raw_data then panic else fault

abbrev bad_copy : Bytes → ℕ → Section → Outcome (Unit {0})
bad_copy raw size s =
    if leb s.virtual_address size && ltb (length raw) s.pointer_to_raw_data then panic else fault

copied_length : (raw : Bytes) (a n : ℕ) → a + n ≤ length raw → length (take n (drop a raw)) ≡ n
copied_length raw a n h = length-take n (drop a raw) (omega (arith, length-drop a raw))

module _ {p : Platform} (ptr size : ℕ) (raw b : Bytes) (s : Section) (w : World p)
    (live : block ptr w.heap ≡ some b) (sized : length b ≡ size) where
  bad_section :
      (length raw < s.pointer_to_raw_data + s.size_of_raw_data)
        ⊎ (size < s.virtual_address + s.size_of_raw_data)
      → (copy_section ptr size raw s w).0 ≡ bad_copy raw size s
  unfolding copy_section read_bytes
  bad_section h = elim (Bool-cases (leb s.virtual_address size)) [
    | inl a ↦ elim (Bool-cases (leb (s.pointer_to_raw_data + s.size_of_raw_data) (length raw))) [
      | inl in_file ↦
          let src = take s.size_of_raw_data (drop s.pointer_to_raw_data raw) in
          let out : length b < s.virtual_address + length src =
            ground (arith, sized, copied_length raw s.pointer_to_raw_data s.size_of_raw_data) in
          let c : leb s.pointer_to_raw_data (length raw) ≡ true = ground arith in
          let d : ltb (length raw) s.pointer_to_raw_data ≡ false = ground arith in
          rw (a, c, d, in_file, store_out ptr s.virtual_address src b w live out)
      | inr beyond ↦ elim (Bool-cases (leb s.pointer_to_raw_data (length raw))) [
        | inl c ↦
            let d : ltb (length raw) s.pointer_to_raw_data ≡ false = ground arith in
            rw (a, c, d, beyond)
        | inr c ↦
            let d : ltb (length raw) s.pointer_to_raw_data ≡ true = ground arith in rw (a, c, d)
      ]
    ]
    | inr a ↦ rw a
  ]

-- Sections after those that succeed.
copy_sections-append :
    {p : Platform} (ptr size : ℕ) (raw : Bytes) (good more : List Section) (w u : World p)
    → copy_sections ptr size raw good w ≡ (ok tt, u)
    → copy_sections ptr size raw (good ++ more) w ≡ copy_sections ptr size raw more u
unfolding copy_sections
copy_sections-append ptr size raw [] more w u e = ap (λ x. copy_sections ptr size raw more x.1) e
copy_sections-append ptr size raw (s ∷ good) more w u e =
    let one = if is_loaded s then copy_section ptr size raw s else pure tt in
    let (_, v, first, after) = bind-ok one (λ _. copy_sections ptr size raw good) w e in
    bind-step one (λ _. copy_sections ptr size raw (good ++ more)) w first
    ∙ copy_sections-append ptr size raw good more v u after

-- A failure of either kind is passed on.
failed-bind :
    {p : Platform} {A B : Type 0} (x : Bool) (m : Exec (World p) A) (f : A → Exec (World p) B)
    (w : World p)
    → (m w).0 ≡ (if x then panic else fault)
    → ((m >>= f) w).0 ≡ (if x then panic else fault)
failed-bind true m f w e = rw e
failed-bind false m f w e = rw e

module _ {p : Platform} (loader : PeLoader) (w : World p) where
  -- If the sections before one that is loaded fit, and that one reaches past the end of the file or
  -- of the image, `map_into_memory` makes no check but the slice's: it panics if the section
  -- starts inside the image and past the end of the file, and is undefined behaviour otherwise.
  pub map_into_memory-bad :
      (good : List Section) (s : Section) (rest : List Section)
      → loader.pe.sections ≡ good ++ s ∷ rest
      → 0 < image_size loader
      → image_size loader < 2 ^ 32
      → p.has_room w.heap (page_end (image_size loader)) ≡ true
      → AllFit loader.raw_bytes (page_end (image_size loader)) good
      → is_loaded s ≡ true
      → (length loader.raw_bytes < s.pointer_to_raw_data + s.size_of_raw_data)
        ⊎ (page_end (image_size loader) < s.virtual_address + s.size_of_raw_data)
      → (map_into_memory loader w).0 ≡ bad_outcome loader.raw_bytes (page_end (image_size loader)) s
  unfolding copy_sections
  map_into_memory-bad good s rest split pos small room fit loaded h =
      let n = page_end (image_size loader) in
      let ptr = length w.heap in
      let raw = loader.raw_bytes in
      let past = leb s.virtual_address n && ltb (length raw) s.pointer_to_raw_data in
      let (u, b, run, live, sized, same) =
        copy_sections-laid ptr raw n good (allocated loader w) (zeroed n) (λ _. 0) fit
          (length-zeroed n) (block-append w.heap (some (zeroed n))) (byte-zeroed n) in
      let tail : (copy_sections ptr n raw (s ∷ rest) u).0 ≡ (if past then panic else fault) =
        rw loaded (
          failed-bind past (copy_section ptr n raw s) (λ _. copy_sections ptr n raw rest) u
            (bad_section ptr n raw b s u live sized h)) in
      let whole : (copy_sections ptr n raw loader.pe.sections (allocated loader w)).0
          ≡ (if past then panic else fault) =
        rw split (
          ap (λ x. x.0) (copy_sections-append ptr n raw good (s ∷ rest) (allocated loader w) u run)
          ∙ tail) in
      ap (λ x. x.0) (prefix loader w pos small room)
      ∙ failed-bind past (copy_sections ptr n raw loader.pe.sections) (λ _. pure (ptr, n))
          (allocated loader w) whole
