-- ===== src/Wire/Headers.antt =====
-- The packed structs of efp_internal.h, written and read as a little-endian host lays them out
-- (the platforms of the README are little-endian): `memcpy(buffer, &header, sizeof(header))` writes
-- the bytes of `encode`, and `(const FrameTypeN*)(data)` reads the fields of `decode`.
use new_efp.Common.{ℕ, ◌+◌, ◌*◌, ◌/◌, ◌%◌, ◌^◌, [], ◌∷◌, get_or}
use new_efp.Common.Memory.{Bytes}

-- Byte `k` of a number.
abbrev pub byte_of : ℕ → ℕ → ℕ
byte_of v k = v / 256 ^ k % 256

abbrev pub le16 : ℕ → Bytes → Bytes
le16 v rest = byte_of v 0 ∷ byte_of v 1 ∷ rest

abbrev pub le32 : ℕ → Bytes → Bytes
le32 v rest = byte_of v 0 ∷ byte_of v 1 ∷ byte_of v 2 ∷ byte_of v 3 ∷ rest

abbrev pub le64 : ℕ → Bytes → Bytes
le64 v rest = le32 v (byte_of v 4 ∷ byte_of v 5 ∷ byte_of v 6 ∷ byte_of v 7 ∷ rest)

abbrev pub u8_at : Bytes → ℕ → ℕ
u8_at b i = get_or b i 0

abbrev pub u16_at : Bytes → ℕ → ℕ
u16_at b i = u8_at b i + 256 * u8_at b (i + 1)

abbrev pub u32_at : Bytes → ℕ → ℕ
u32_at b i = u16_at b i + 65_536 * u16_at b (i + 2)

abbrev pub u64_at : Bytes → ℕ → ℕ
u64_at b i = u32_at b i + 4_294_967_296 * u32_at b (i + 4)

pub record FrameType1 : Type 0 where
  pub frame_type : ℕ
  pub stream_id : ℕ
  pub super_frame_no : ℕ
  pub fragment_no : ℕ
  pub of_fragment_no : ℕ

pub record FrameType2 : Type 0 where
  pub frame_type : ℕ
  pub stream_id : ℕ
  pub payload_type : ℕ
  pub size_of_data : ℕ
  pub super_frame_no : ℕ
  pub of_fragment_no : ℕ
  pub type1_packet_size : ℕ
  pub pts : ℕ
  pub dts_pts_diff : ℕ
  pub payload_code : ℕ

pub record FrameType3 : Type 0 where
  pub frame_type : ℕ
  pub stream_id : ℕ
  pub super_frame_no : ℕ
  pub type1_packet_size : ℕ
  pub of_fragment_no : ℕ

pub record FrameType4 : Type 0 where
  pub frame_type : ℕ
  pub frame_count : ℕ

pub record NackEntry : Type 0 where
  pub stream_id : ℕ
  pub super_frame_no : ℕ
  pub fragment_no : ℕ
  pub fragment_count : ℕ

pub record FrameType0Nack : Type 0 where
  pub frame_type : ℕ
  pub subtype : ℕ
  pub nack_count : ℕ

-- sizeof of each struct; their static_asserts state the same numbers.
abbrev pub sizeof_type1 : ℕ
sizeof_type1 = 8

abbrev pub sizeof_type2 : ℕ
sizeof_type2 = 27

abbrev pub sizeof_type3 : ℕ
sizeof_type3 = 8

abbrev pub sizeof_type4 : ℕ
sizeof_type4 = 2

abbrev pub sizeof_nack_entry : ℕ
sizeof_nack_entry = 6

abbrev pub sizeof_nack : ℕ
sizeof_nack = 3

unfoldable pub encode_type1 : FrameType1 → Bytes
encode_type1 h =
    h.frame_type
    ∷ h.stream_id
    ∷ le16 h.super_frame_no (le16 h.fragment_no (le16 h.of_fragment_no []))

unfoldable pub decode_type1 : Bytes → FrameType1
decode_type1 b = record {
  frame_type = u8_at b 0;
  stream_id = u8_at b 1;
  super_frame_no = u16_at b 2;
  fragment_no = u16_at b 4;
  of_fragment_no = u16_at b 6;
}

unfoldable pub encode_type2 : FrameType2 → Bytes
encode_type2 h =
    h.frame_type
    ∷ h.stream_id
    ∷ h.payload_type
    ∷ le16 h.size_of_data (
        le16 h.super_frame_no (
          le16 h.of_fragment_no
            (le16 h.type1_packet_size (le64 h.pts (le32 h.dts_pts_diff (le32 h.payload_code []))))))

unfoldable pub decode_type2 : Bytes → FrameType2
decode_type2 b = record {
  frame_type = u8_at b 0;
  stream_id = u8_at b 1;
  payload_type = u8_at b 2;
  size_of_data = u16_at b 3;
  super_frame_no = u16_at b 5;
  of_fragment_no = u16_at b 7;
  type1_packet_size = u16_at b 9;
  pts = u64_at b 11;
  dts_pts_diff = u32_at b 19;
  payload_code = u32_at b 23;
}

unfoldable pub encode_type3 : FrameType3 → Bytes
encode_type3 h =
    h.frame_type
    ∷ h.stream_id
    ∷ le16 h.super_frame_no (le16 h.type1_packet_size (le16 h.of_fragment_no []))

unfoldable pub decode_type3 : Bytes → FrameType3
decode_type3 b = record {
  frame_type = u8_at b 0;
  stream_id = u8_at b 1;
  super_frame_no = u16_at b 2;
  type1_packet_size = u16_at b 4;
  of_fragment_no = u16_at b 6;
}

unfoldable pub encode_type4 : FrameType4 → Bytes
encode_type4 h = h.frame_type ∷ h.frame_count ∷ []

unfoldable pub decode_type4 : Bytes → FrameType4
decode_type4 b = record { frame_type = u8_at b 0; frame_count = u8_at b 1 }

unfoldable pub encode_nack_entry : NackEntry → Bytes
encode_nack_entry e =
    e.stream_id ∷ le16 e.super_frame_no (le16 e.fragment_no (e.fragment_count ∷ []))

unfoldable pub decode_nack_entry : Bytes → NackEntry
decode_nack_entry b = record {
  stream_id = u8_at b 0;
  super_frame_no = u16_at b 1;
  fragment_no = u16_at b 3;
  fragment_count = u8_at b 5;
}

unfoldable pub encode_nack : FrameType0Nack → Bytes
encode_nack h = h.frame_type ∷ h.subtype ∷ h.nack_count ∷ []

unfoldable pub decode_nack : Bytes → FrameType0Nack
decode_nack b = record { frame_type = u8_at b 0; subtype = u8_at b 1; nack_count = u8_at b 2 }
