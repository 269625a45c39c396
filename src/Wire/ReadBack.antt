-- ===== src/Wire/ReadBack.antt =====
-- Every packed struct is read back as it was written.
use new_efp.Common.{◌≡◌, ◌++◌}
use new_efp.Common.Memory.{Bytes}
use new_efp.Wire.Headers.{
  FrameType1, FrameType2, FrameType3, NackEntry, encode_type1, decode_type1, encode_type2,
  decode_type2, encode_type3, decode_type3, encode_nack_entry, decode_nack_entry,
}
use new_efp.Wire.RoundTrip.{
  IsType1, IsType2, IsType3, IsNackEntry, decode-encode_type1, decode-encode_type2,
  decode-encode_type3, decode-encode_nack_entry,
}
use new_efp.Wire.Rtt.{
  RttProbe, RttResponse, IsProbe, IsResponse, encode_probe, decode_probe, encode_response,
  decode_response, decode-encode_probe, decode-encode_response,
}

-- A Type1, Type2 and Type3 header, an entry of a NACK, an RTT probe and an RTT response, whose fields
-- fit their widths, are read back as they were written, with any bytes behind them.
pub headers_read_back :
    (h : FrameType1) (i : FrameType2) (j : FrameType3) (e : NackEntry) (p : RttProbe)
    (r : RttResponse) (rest : Bytes)
    → IsType1 h
    → IsType2 i
    → IsType3 j
    → IsNackEntry e
    → IsProbe p
    → IsResponse r
    → (decode_type1 (encode_type1 h ++ rest) ≡ h)
      × (decode_type2 (encode_type2 i ++ rest) ≡ i)
      × (decode_type3 (encode_type3 j ++ rest) ≡ j)
      × (decode_nack_entry (encode_nack_entry e ++ rest) ≡ e)
      × (decode_probe (encode_probe p ++ rest) ≡ p)
      × (decode_response (encode_response r ++ rest) ≡ r)
headers_read_back h i j e p r rest a b c d f g = (
  decode-encode_type1 h rest a,
  decode-encode_type2 i rest b,
  decode-encode_type3 j rest c,
  decode-encode_nack_entry e rest d,
  decode-encode_probe p rest f,
  decode-encode_response r rest g,
)
