-- ===== src/Engine/Snapshot/Serde/RoundTrip.antt =====
-- What is deserialised is what was serialised.
use vestigium.Common.{
  ℕ, ◌+◌, ◌-◌, ◌^◌, ◌≤◌, ◌<◌, ◌≡◌, refl, ap, ◌∙◌, true, some, List, [], ◌∷◌, ◌++◌, length, arith,
}
use vestigium.Common.Exec.{ok, ◌>>=◌}
use vestigium.Common.Bytes.{byte, byte-append_left, byte-append_right, le_read-le_bytes}
use vestigium.Common.Words.{u64_bytes}
use vestigium.Platform.{Platform, World, Bytes, RegisterValue, block}
use vestigium.Platform.Access.{block-append}
use vestigium.Engine.Memory.Alloc.{Allocates, new-ok}
use vestigium.Platform.Whole.{with_block, load-whole, store-fresh}
use vestigium.Common.Steps.{bind-step}
use vestigium.Engine.Memory.{AlignedMemory}
use vestigium.Engine.Snapshot.Serde.{
  register_bytes, register_of, serialize_registers, deserialize_registers, serialize_memory,
  deserialize_memory,
}

-- Both halves of a register value are 64-bit numbers.
pub record IsValue (r : RegisterValue) : Type 0 where
  pub low : r.reg64 < 2 ^ 64
  pub high : r.high < 2 ^ 64

abbrev pub AreValues : List RegisterValue → Type 0
AreValues [] = Unit
AreValues (r ∷ rs) = IsValue r × AreValues rs

drop-register_bytes :
    (x y : ℕ) (i : ℕ) → i < 8 → byte (u64_bytes x ++ u64_bytes y) (8 + i) ≡ byte (u64_bytes y) i
drop-register_bytes x y i h = byte-append_right (u64_bytes x) (u64_bytes y) (8 + i) i refl

low-register_bytes :
    (x y : ℕ) (i : ℕ) → i < 8 → byte (u64_bytes x ++ u64_bytes y) (0 + i) ≡ byte (u64_bytes x) i
low-register_bytes x y i h =
    let e : 0 + i ≡ i = omega arith in
    ap (byte (u64_bytes x ++ u64_bytes y)) e ∙ byte-append_left (u64_bytes x) (u64_bytes y) i h

register_of-register_bytes : (r : RegisterValue) → IsValue r → register_of (register_bytes r) ≡ r
register_of-register_bytes r v = λ i. record {
  reg64 =
      le_read-le_bytes 8 (register_bytes r) 0 r.reg64 (omega (arith, v.low))
        (low-register_bytes r.reg64 r.high) i;
  high =
      le_read-le_bytes 8 (register_bytes r) 8 r.high (omega (arith, v.high))
        (drop-register_bytes r.reg64 r.high) i;
}

-- Register values go through the format unchanged.
pub deserialize_registers-serialize_registers :
    (regs : List RegisterValue)
    → AreValues regs
    → deserialize_registers (serialize_registers regs) ≡ regs
deserialize_registers-serialize_registers [] v = refl
deserialize_registers-serialize_registers (r ∷ regs) (v, vs) =
    λ i. register_of-register_bytes r v i ∷ deserialize_registers-serialize_registers regs vs i

module _ {p : Platform} where
  pub serialize_memory-ok :
      (mem : AlignedMemory) (b : Bytes) (w : World p)
      → block mem.ptr w.heap ≡ some b
      → length b ≡ mem.size
      → serialize_memory mem w ≡ (ok b, w)
  unfolding serialize_memory
  serialize_memory-ok mem b w live sized = load-whole mem.ptr mem.size b w live sized

  pub deserialize_memory-ok :
      (b : Bytes) (w : World p)
      → Allocates p w.heap (length b)
      → deserialize_memory b w
        ≡ (ok (record { ptr = length w.heap; size = length b }), with_block b w)
  unfolding deserialize_memory
  deserialize_memory-ok b w a = rw (new-ok (length b) w a, store-fresh b (length b) w refl)

module _ {p : Platform} (mem : AlignedMemory) (b : Bytes) (w : World p) where
  -- A live buffer that is not empty, of at most 2^63 - 4096 bytes, goes through the format: what is
  -- made of its bytes, with room in the allocator, is a buffer of the same size with the same bytes.
  pub memory-round_trip :
      block mem.ptr w.heap ≡ some b
      → length b ≡ mem.size
      → 0 < mem.size
      → mem.size ≤ 2 ^ 63 - 4096
      → p.has_room w.heap mem.size ≡ true
      → (mem' : AlignedMemory) × (w' : World p) × ((serialize_memory mem >>= deserialize_memory) w
          ≡ (ok mem', w'))
        × (mem'.size ≡ mem.size)
        × (serialize_memory mem' w' ≡ (ok b, w'))
  memory-round_trip live sized pos small room =
      let a : Allocates p w.heap (length b) = record {
        positive = omega arith;
        small = omega arith;
        room = rw sized room;
      } in
      let copy = block-append w.heap (some b) in
      (
        record { ptr = length w.heap; size = length b },
        with_block b w,
        bind-step (serialize_memory mem) deserialize_memory w
              (serialize_memory-ok mem b w live sized)
            ∙ deserialize_memory-ok b w a,
        sized,
        serialize_memory-ok (record { ptr = length w.heap; size = length b }) b (with_block b w)
            copy refl,
      )
