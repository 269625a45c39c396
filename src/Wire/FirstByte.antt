-- ===== src/Wire/FirstByte.antt =====
-- The first byte of a packet carries the frame type below and the flags above.
use new_efp.Common.{ℕ, ◌≡◌, refl, ◌<◌, ◌==◌, bit_and, true, Bool, ◌&&◌, arith, ltb, ltb→lt}
use new_efp.Common.Bits.{holds_from, holds_from-at}
use new_efp.Wire.{
  FrameType, type0, type1, type2, type3, type4, unknown, get_frame_type, get_flags,
  make_frame_type_byte, frame_type_of, frame_type_code,
}

-- The named types: those with a code below 5.
abbrev pub IsNamed : FrameType → Type 0
IsNamed (unknown n) = ⊥
IsNamed other = Unit {0}

code_table : FrameType → Bool
code_table t = holds_from 0 256 λ f.
    (bit_and (make_frame_type_byte t f) 0x0F == frame_type_code t)
    && (get_flags (make_frame_type_byte t f) == bit_and f 0xF0)

code_table-true : (t : FrameType) → IsNamed t → code_table t ≡ true
unfolding code_table holds_from make_frame_type_byte get_flags
code_table-true type0 h = refl
code_table-true type1 h = refl
code_table-true type2 h = refl
code_table-true type3 h = refl
code_table-true type4 h = refl
code_table-true (unknown n) h = absurd h

fields_of :
    (t : FrameType) (flags : ℕ)
    → IsNamed t
    → flags < 256
    → (bit_and (make_frame_type_byte t flags) 0x0F ≡ frame_type_code t)
      × (get_flags (make_frame_type_byte t flags) ≡ bit_and flags 0xF0)
unfolding code_table
fields_of t flags n h =
    ground
      (arith, holds_from-at 256 0 _ (code_table-true t n) flags (omega arith) (omega (arith, h)))

frame_type_of-code : (t : FrameType) → IsNamed t → frame_type_of (frame_type_code t) ≡ t
frame_type_of-code type0 n = refl
frame_type_of-code type1 n = refl
frame_type_of-code type2 n = refl
frame_type_of-code type3 n = refl
frame_type_of-code type4 n = refl
frame_type_of-code (unknown k) n = absurd n

-- A first byte gives back the frame type and the flags that it was made of, for the five frame
-- types and any flags; of the flags the upper four bits count.
pub first_byte_fields :
    (t : FrameType) (flags : ℕ)
    → IsNamed t
    → flags < 256
    → (get_frame_type (make_frame_type_byte t flags) ≡ t)
      × (get_flags (make_frame_type_byte t flags) ≡ bit_and flags 0xF0)
unfolding get_frame_type
first_byte_fields t flags n h = ground (arith, fields_of t flags n h, frame_type_of-code t n)

byte_table : FrameType → Bool
byte_table t = holds_from 0 256 λ f. ltb (make_frame_type_byte t f) 256

byte_table-true : (t : FrameType) → IsNamed t → byte_table t ≡ true
unfolding byte_table holds_from make_frame_type_byte
byte_table-true type0 h = refl
byte_table-true type1 h = refl
byte_table-true type2 h = refl
byte_table-true type3 h = refl
byte_table-true type4 h = refl
byte_table-true (unknown n) h = absurd h

-- The first byte is a byte.
pub first_byte-lt :
    (t : FrameType) (flags : ℕ) → IsNamed t → flags < 256 → make_frame_type_byte t flags < 256
unfolding byte_table
first_byte-lt t flags n h =
    ltb→lt _ _ (holds_from-at 256 0 _ (byte_table-true t n) flags (omega arith) (omega (arith, h)))
