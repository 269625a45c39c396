-- ===== src/Wire/RoundTrip.antt =====
-- Reading back a header that was written, with any payload behind it.
use new_efp.Common.{ℕ, ◌+◌, ◌*◌, ◌^◌, ◌<◌, ◌≡◌, ◌++◌, arith}
use new_efp.Common.Memory.{Bytes}
use new_efp.Wire.Headers.{
  FrameType1, FrameType2, FrameType3, NackEntry, encode_type1, decode_type1, encode_type2,
  decode_type2, encode_type3, decode_type3, encode_nack_entry, decode_nack_entry, byte_of,
}

-- Each field fits the width that its struct gives it. (The order of the fields is the struct's.)
pub record IsType1 (h : FrameType1) : Type 0 where
  pub frame_type : h.frame_type < 256
  pub stream_id : h.stream_id < 256
  pub super_frame_no : h.super_frame_no < 65_536
  pub fragment_no : h.fragment_no < 65_536
  pub of_fragment_no : h.of_fragment_no < 65_536

pub record IsType2 (h : FrameType2) : Type 0 where
  pub frame_type : h.frame_type < 256
  pub stream_id : h.stream_id < 256
  pub payload_type : h.payload_type < 256
  pub size_of_data : h.size_of_data < 65_536
  pub super_frame_no : h.super_frame_no < 65_536
  pub of_fragment_no : h.of_fragment_no < 65_536
  pub type1_packet_size : h.type1_packet_size < 65_536
  pub pts : h.pts < 2 ^ 64
  pub dts_pts_diff : h.dts_pts_diff < 2 ^ 32
  pub payload_code : h.payload_code < 2 ^ 32

pub record IsType3 (h : FrameType3) : Type 0 where
  pub frame_type : h.frame_type < 256
  pub stream_id : h.stream_id < 256
  pub super_frame_no : h.super_frame_no < 65_536
  pub type1_packet_size : h.type1_packet_size < 65_536
  pub of_fragment_no : h.of_fragment_no < 65_536

pub record IsNackEntry (e : NackEntry) : Type 0 where
  pub stream_id : e.stream_id < 256
  pub super_frame_no : e.super_frame_no < 65_536
  pub fragment_no : e.fragment_no < 65_536
  pub fragment_count : e.fragment_count < 256

u16_bytes : (v : ℕ) → v < 65_536 → byte_of v 0 + 256 * byte_of v 1 ≡ v
u16_bytes v h = omega arith

-- A Type1 header whose fields fit their widths is read back as it was written, with any payload
-- behind it.
pub decode-encode_type1 :
    (h : FrameType1) (payload : Bytes) → IsType1 h → decode_type1 (encode_type1 h ++ payload) ≡ h
unfolding decode_type1 encode_type1
decode-encode_type1 h payload v = ground arith

-- A Type2 header whose fields fit their widths is read back as it was written, with any payload
-- behind it.
pub decode-encode_type2 :
    (h : FrameType2) (payload : Bytes) → IsType2 h → decode_type2 (encode_type2 h ++ payload) ≡ h
unfolding decode_type2 encode_type2
decode-encode_type2 h payload v = ground arith

-- A Type3 header whose fields fit their widths is read back as it was written, with any payload
-- behind it.
pub decode-encode_type3 :
    (h : FrameType3) (payload : Bytes) → IsType3 h → decode_type3 (encode_type3 h ++ payload) ≡ h
unfolding decode_type3 encode_type3
decode-encode_type3 h payload v = ground arith

-- An entry of a NACK whose fields fit their widths is read back as it was written, with anything
-- behind it.
pub decode-encode_nack_entry :
    (e : NackEntry) (rest : Bytes)
    → IsNackEntry e
    → decode_nack_entry (encode_nack_entry e ++ rest) ≡ e
unfolding decode_nack_entry encode_nack_entry
decode-encode_nack_entry e rest v = ground arith
