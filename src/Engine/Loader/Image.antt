-- ===== src/Engine/Loader/Image.antt =====
-- The image that `map_into_memory` builds, byte by byte.
use vestigium.Common.{
  ℕ, ◌+◌, ◌-◌, ◌*◌, ◌/◌, ◌^◌, ◌≤◌, ◌<◌, ◌≡◌, refl, ap, sym, ◌∙◌, true, Bool, some, List, [], ◌∷◌,
  length, take, drop, arith, ltb, leb, ◌&&◌, if◌then◌else◌, Bool-cases, inl, inr, length-drop,
}
use vestigium.Common.Exec.{ok}
use vestigium.Common.Bytes.{
  splice, length-splice, byte, byte-splice_before, byte-splice_in, byte-splice_after, byte-take,
  byte-drop, length-take,
}
use vestigium.Common.Words.{bit_and_page}
use vestigium.Platform.{Platform, World, Bytes, block, read_bytes}
use vestigium.Platform.Access.{store-ok, block-store, stored}
use vestigium.Engine.Loader.{Section, is_loaded, align_to_page, copy_section, copy_sections}

-- The size of an image, rounded up.
abbrev pub page_end : ℕ → ℕ
page_end size = (size + 4095) / 4096 * 4096

-- The specification: what stands at an address once the sections have been laid over `old`, each
-- over those before it.
abbrev pub covers : Section → ℕ → Bool
covers s i =
    is_loaded s && (leb s.virtual_address i && ltb i (s.virtual_address + s.size_of_raw_data))

pub laid : Bytes → List Section → (ℕ → ℕ) → ℕ → ℕ
laid raw [] old i = old i
laid raw (s ∷ sections) old i =
    laid raw sections
      (λ j.
        if covers s j then byte raw (s.pointer_to_raw_data + (j - s.virtual_address)) else old j)
      i

-- A section that is loaded lies inside the file and inside the image.
pub record Fits (raw : Bytes) (size : ℕ) (s : Section) : Type 0 where
  pub in_file : s.pointer_to_raw_data + s.size_of_raw_data ≤ length raw
  pub in_image : s.virtual_address + s.size_of_raw_data ≤ size

abbrev pub AllFit : Bytes → ℕ → List Section → Type 0
AllFit raw size [] = Unit
AllFit raw size (s ∷ sections) = (is_loaded s ≡ true → Fits raw size s) × AllFit raw size sections

-- The image size, as the code computes it, is the next multiple of the page size.
pub align_to_page_lem :
    {p : Platform} (size : ℕ) (w : World p)
    → size < 2 ^ 32
    → align_to_page size w ≡ (ok (page_end size), w)
unfolding align_to_page
align_to_page_lem size w h =
    let small : ltb (size + 4095) (2 ^ 64) ≡ true = ground arith in
    rw (small, bit_and_page (size + 4095) (omega arith))

abbrev slice : Bytes → Section → Bytes
slice raw s = take s.size_of_raw_data (drop s.pointer_to_raw_data raw)

module _ (raw : Bytes) (size : ℕ) (s : Section) (f : Fits raw size s) where
  pub length-slice : length (slice raw s) ≡ s.size_of_raw_data
  length-slice =
      length-take s.size_of_raw_data (drop s.pointer_to_raw_data raw)
        (omega (arith, f.in_file, length-drop s.pointer_to_raw_data raw))

  byte-slice :
      (i : ℕ) → i < s.size_of_raw_data → byte (slice raw s) i ≡ byte raw (s.pointer_to_raw_data + i)
  byte-slice i h = byte-take s.size_of_raw_data _ i h ∙ byte-drop s.pointer_to_raw_data raw i

  -- One section laid over a block.
  module _ (b : Bytes) (sized : length b ≡ size) where
    room : s.virtual_address + length (slice raw s) ≤ length b
    room = omega (arith, f.in_image, length-slice)

    byte-laid :
        (i : ℕ)
        → is_loaded s ≡ true
        → byte (splice s.virtual_address (slice raw s) b) i ≡ (
            if covers s i
            then byte raw (s.pointer_to_raw_data + (i - s.virtual_address))
            else byte b i)
    byte-laid i loaded =
        elim (Bool-cases
          (leb s.virtual_address i && ltb i (s.virtual_address + s.size_of_raw_data))) [
            | inl inside ↦
                let e : s.virtual_address + (i - s.virtual_address) ≡ i = ground arith in
                rw (loaded, inside)
                  (ap (byte (splice s.virtual_address (slice raw s) b)) (sym e)
                    ∙ byte-splice_in s.virtual_address (slice raw s) b room (i - s.virtual_address)
                        (ground (arith, length-slice))
                    ∙ byte-slice (i - s.virtual_address) (ground arith))
            | inr outside ↦
                rw (loaded, outside)
                  (elim (Bool-cases (leb s.virtual_address i)) [
                    | inl after ↦
                        byte-splice_after s.virtual_address (slice raw s) b room i
                          (ground (arith, length-slice))
                    | inr before ↦
                        byte-splice_before s.virtual_address (slice raw s) b room i (ground arith)
                  ])
          ]

    module _ {p : Platform} (ptr : ℕ) (w : World p) (live : block ptr w.heap ≡ some b) where
      abbrev laid_world : World p
      laid_world = stored ptr s.virtual_address (slice raw s) b w live room

      copy_section-ok : copy_section ptr size raw s w ≡ (ok tt, laid_world)
      unfolding copy_section read_bytes
      copy_section-ok =
          let a : leb s.virtual_address size ≡ true = ground (arith, f.in_image) in
          let c : leb s.pointer_to_raw_data (length raw) ≡ true = ground (arith, f.in_file) in
          let d : leb (s.pointer_to_raw_data + s.size_of_raw_data) (length raw) ≡ true =
            ground (arith, f.in_file) in
          rw (a, c, d) (store-ok ptr s.virtual_address (slice raw s) b w live room)

-- The loop over sections that fit lays them over the block.
pub copy_sections-laid :
    {p : Platform} (ptr : ℕ) (raw : Bytes) (size : ℕ) (sections : List Section) (w : World p)
    (b : Bytes) (old : ℕ → ℕ)
    → AllFit raw size sections
    → length b ≡ size
    → block ptr w.heap ≡ some b
    → ((i : ℕ) → byte b i ≡ old i)
    → (w' : World p) × (b' : Bytes) × (copy_sections ptr size raw sections w ≡ (ok tt, w'))
      × (block ptr w'.heap ≡ some b')
      × (length b' ≡ size)
      × ((i : ℕ) → byte b' i ≡ laid raw sections old i)
unfolding copy_sections laid
copy_sections-laid ptr raw size [] w b old fit sized live same = (w, b, refl, live, sized, same)
copy_sections-laid ptr raw size (s ∷ sections) w b old (fits, fit) sized live same =
    elim (Bool-cases (is_loaded s)) [
      | inl loaded ↦
          let f = fits loaded in
          let src = slice raw s in
          let (w', b', run, live', sized', same') =
            copy_sections-laid ptr raw size sections (laid_world raw size s f b sized ptr w live)
              (splice s.virtual_address src b)
              (λ j.
                if covers s j
                then byte raw (s.pointer_to_raw_data + (j - s.virtual_address))
                else old j)
              fit (length-splice s.virtual_address src b (room raw size s f b sized) ∙ sized)
              (block-store ptr s.virtual_address src b w live (room raw size s f b sized))
              (λ i. byte-laid raw size s f b sized i loaded ∙ (rw same)) in
          (
            w',
            b',
            rw (loaded, copy_section-ok raw size s f b sized ptr w live, run),
            live',
            sized',
            same',
          )
      | inr skipped ↦
          let (w', b', run, live', sized', same') =
            copy_sections-laid ptr raw size sections w b old fit sized live same in
          (w', b', rw (skipped, run), live', sized', λ i. rw skipped (same' i))
    ]
