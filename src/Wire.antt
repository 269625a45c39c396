-- ===== src/Wire.antt =====
-- efp_internal.h and the result codes of efp.h: frame types, flags, the first byte of a packet.
-- The packed headers are in Wire/Headers, and what reading back a written header gives in
-- Wire/RoundTrip.
pub mod Headers
pub mod RoundTrip
pub mod FirstByte
pub mod Rtt
pub mod ReadBack
use new_efp.Common.{ℕ, bit_and, bit_or, ◌==◌, if◌then◌else◌}

-- The codes that `Sender` and `Receiver` return, without their numbers.
pub data Result : Type 0 where
  memory_allocation_error buffer_out_of_bounds buffer_out_of_resources : Result
  frame_size_mismatch too_large_frame too_large_embedded_data invalid_parameter : Result
  receiver_not_running internal_error not_implemented : Result
  ok duplicate_fragment fragment_too_old frame_timeout : Result

-- `unknown n` is an enum value with no name: the low four bits can be any number below 16.
pub data FrameType : Type 0 where
  type0 type1 type2 type3 type4 : FrameType
  unknown : ℕ → FrameType

abbrev pub frame_type_of : ℕ → FrameType
frame_type_of n =
    if n == 0
    then type0
    else if n == 1
    then type1
    else if n == 2
    then type2
    else if n == 3
    then type3
    else if n == 4
    then type4
    else unknown n

abbrev pub frame_type_code : FrameType → ℕ
frame_type_code type0 = 0
frame_type_code type1 = 1
frame_type_code type2 = 2
frame_type_code type3 = 3
frame_type_code type4 = 4
frame_type_code (unknown n) = n

unfoldable pub get_frame_type : ℕ → FrameType
get_frame_type first_byte = frame_type_of (bit_and first_byte 0x0F)

unfoldable pub get_flags : ℕ → ℕ
get_flags first_byte = bit_and first_byte 0xF0

unfoldable pub make_frame_type_byte : FrameType → ℕ → ℕ
make_frame_type_byte type flags = bit_or (frame_type_code type) (bit_and flags 0xF0)

abbrev pub inline_payload : ℕ
inline_payload = 0x10

-- The subtypes of a signaling frame.
abbrev pub subtype_nack : ℕ
subtype_nack = 1

abbrev pub subtype_rtt_probe : ℕ
subtype_rtt_probe = 2

abbrev pub subtype_rtt_response : ℕ
subtype_rtt_response = 3

-- UINT16_MAX, UINT32_MAX and UINT64_MAX.
abbrev pub uint16_max : ℕ
uint16_max = 0xFFFF

abbrev pub uint32_max : ℕ
uint32_max = 0xFFFF_FFFF

abbrev pub uint64_max : ℕ
uint64_max = 0xFFFF_FFFF_FFFF_FFFF

abbrev pub max_superframe_size : ℕ
max_superframe_size = 104_857_600

abbrev pub max_fragments_per_superframe : ℕ
max_fragments_per_superframe = 8192
