-- ===== src/Wire/Rtt.antt =====
-- The RTT probe and its response of efp_internal.h, and their bytes.
use new_efp.Common.{ℕ, ◌^◌, ◌<◌, ◌≡◌, [], ◌∷◌, ◌++◌, arith}
use new_efp.Common.Memory.{Bytes}
use new_efp.Wire.Headers.{le16, le64, u8_at, u16_at, u64_at}

pub record RttProbe : Type 0 where
  pub frame_type : ℕ
  pub subtype : ℕ
  pub sequence_no : ℕ
  pub timestamp_us : ℕ

pub record RttResponse : Type 0 where
  pub frame_type : ℕ
  pub subtype : ℕ
  pub sequence_no : ℕ
  pub timestamp_us : ℕ
  pub receiver_time_us : ℕ

abbrev pub sizeof_probe : ℕ
sizeof_probe = 12

abbrev pub sizeof_response : ℕ
sizeof_response = 20

unfoldable pub encode_probe : RttProbe → Bytes
encode_probe p = p.frame_type ∷ p.subtype ∷ le16 p.sequence_no (le64 p.timestamp_us [])

unfoldable pub decode_probe : Bytes → RttProbe
decode_probe b = record {
  frame_type = u8_at b 0;
  subtype = u8_at b 1;
  sequence_no = u16_at b 2;
  timestamp_us = u64_at b 4;
}

unfoldable pub encode_response : RttResponse → Bytes
encode_response p =
    p.frame_type ∷ p.subtype ∷ le16 p.sequence_no (le64 p.timestamp_us (le64 p.receiver_time_us []))

unfoldable pub decode_response : Bytes → RttResponse
decode_response b = record {
  frame_type = u8_at b 0;
  subtype = u8_at b 1;
  sequence_no = u16_at b 2;
  timestamp_us = u64_at b 4;
  receiver_time_us = u64_at b 12;
}

-- Each field fits its width.
pub record IsProbe (p : RttProbe) : Type 0 where
  pub frame_type : p.frame_type < 256
  pub subtype : p.subtype < 256
  pub sequence_no : p.sequence_no < 65_536
  pub timestamp_us : p.timestamp_us < 2 ^ 64

pub record IsResponse (p : RttResponse) : Type 0 where
  pub frame_type : p.frame_type < 256
  pub subtype : p.subtype < 256
  pub sequence_no : p.sequence_no < 65_536
  pub timestamp_us : p.timestamp_us < 2 ^ 64
  pub receiver_time_us : p.receiver_time_us < 2 ^ 64

-- A probe whose fields fit is read back as it was written.
pub decode-encode_probe :
    (p : RttProbe) (rest : Bytes) → IsProbe p → decode_probe (encode_probe p ++ rest) ≡ p
unfolding decode_probe encode_probe
decode-encode_probe p rest v = ground arith

-- A response whose fields fit is read back as it was written.
pub decode-encode_response :
    (p : RttResponse) (rest : Bytes)
    → IsResponse p
    → decode_response (encode_response p ++ rest) ≡ p
unfolding decode_response encode_response
decode-encode_response p rest v = ground arith
