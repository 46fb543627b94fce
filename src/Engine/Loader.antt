-- ===== src/Engine/Loader.antt =====
-- crates/engine/src/loader.rs: the sections of a PE file, copied into a zeroed image. The parser of
-- the `goblin` crate is a parameter; what the loader reads of its result is `Pe`.
pub mod Image
pub mod Mapping
use Prim.Native.Nat.{bit_and}
use vestigium.Common.{
  ℕ, ◌+◌, ◌-◌, ◌^◌, Bool, Option, none, some, List, [], ◌∷◌, length, ltb, leb, ◌&&◌, if◌then◌else◌,
}
use vestigium.Common.Exec.{Exec, panic, fault, pure, raise, ◌>>=◌, ◌>>◌}
use vestigium.Platform.{
  Platform, World, Bytes, Answer, done, failed, page_layout, alloc_zeroed, not_null, or_fault,
  read_bytes, store, add_u64,
}

pub record Section : Type 0 where
  pub virtual_address : ℕ
  pub pointer_to_raw_data : ℕ
  pub size_of_raw_data : ℕ

-- `size_of_image` is that of the optional header, if there is one.
pub record Pe : Type 0 where
  pub entry : ℕ
  pub size_of_image : Option ℕ
  pub sections : List Section

pub record PeLoader : Type 0 where
  pub pe : Pe
  pub raw_bytes : Bytes

-- `PeLoader::parse`, over the parser.
abbrev pub parse : (Bytes → Answer Pe) → Bytes → Answer PeLoader
parse parser bytes = elim (parser bytes) [
  | done pe ↦ done (record { pe = pe; raw_bytes = bytes })
  | failed e ↦ failed e
]

abbrev pub entry_point : PeLoader → ℕ
entry_point loader = loader.pe.entry

-- `.unwrap_or(0)`.
abbrev pub image_size : PeLoader → ℕ
image_size loader = elim loader.pe.size_of_image [ none ↦ 0 | some size ↦ size ]

-- `raw_ptr > 0 && raw_size > 0`.
abbrev pub is_loaded : Section → Bool
is_loaded s = ltb 0 s.pointer_to_raw_data && ltb 0 s.size_of_raw_data

module _ {p : Platform} where
  -- `(size + 4095) & !4095`.
  unfoldable pub align_to_page : ℕ → Exec (World p) ℕ
  align_to_page size = do end ← add_u64 size 4095; pure (bit_and end (2 ^ 64 - 1 - 4095))

  -- The body of the loop over the sections: the address, the slice with its check, and the copy.
  unfoldable pub copy_section : ℕ → ℕ → Bytes → Section → Exec (World p) (Unit {0})
  copy_section host_memory size raw s =
      if leb s.virtual_address size
      then (if leb s.pointer_to_raw_data (length raw)
          then (do
            src ← or_fault (read_bytes s.pointer_to_raw_data s.size_of_raw_data raw)
            store host_memory s.virtual_address src)
          else raise panic)
      else raise fault

  unfoldable pub copy_sections : ℕ → ℕ → Bytes → List Section → Exec (World p) (Unit {0})
  copy_sections host_memory size raw [] = pure tt
  copy_sections host_memory size raw (s ∷ sections) = do
    if is_loaded s then copy_section host_memory size raw s else pure tt
    copy_sections host_memory size raw sections

  -- The host address and the size of the image.
  unfoldable pub map_into_memory : PeLoader → Exec (World p) (ℕ × ℕ)
  map_into_memory loader = do
    aligned_size ← align_to_page (image_size loader)
    page_layout aligned_size
    allocated ← alloc_zeroed aligned_size
    host_memory ← not_null allocated
    copy_sections host_memory aligned_size loader.raw_bytes loader.pe.sections
    pure (host_memory, aligned_size)
