-- ===== src/Transfer/Packets.antt =====
-- The packets of a frame by their fragment numbers, and how `Receiver::receive` reads them.
use new_efp.Common.{
  ℕ, ◌+◌, ◌*◌, ◌^◌, ◌≤◌, ◌<◌, ◌≡◌, ap, ◌∙◌, true, false, ◌++◌, ltb, ◌==◌, if◌then◌else◌, arith,
  length, drop, ◌⊎◌,
}
use new_efp.Common.Memory.{Bytes}
use new_efp.Wire.{FrameType, type1, type2, type3, get_frame_type, max_superframe_size, uint32_max}
use new_efp.Wire.FirstByte.{first_byte_fields, first_byte-lt}
use new_efp.Wire.Headers.{
  u8_at, encode_type1, encode_type2, encode_type3, decode_type1, decode_type2, decode_type3,
}
use new_efp.Wire.RoundTrip.{
  IsType1, IsType2, IsType3, decode-encode_type1, decode-encode_type2, decode-encode_type3,
}
use new_efp.Sender.Fragments.{Job, type1_header, type2_header, type3_header}
use new_efp.Sender.PlanBounds.{type3_count}
use new_efp.Sender.SingleSpec.{piece, type2_packet}
use new_efp.Receiver.State.{Receiver, arrive}
use new_efp.Receiver.Type1.{type1_arrived, handle_type1}
use new_efp.Receiver.Type2.{type2_arrived, handle_type2}
use new_efp.Receiver.Type3.{type3_arrived, handle_type3}
use new_efp.Receiver.Api.{with_timeouts, dispatch, receive}

-- A frame that is cut so that the receiver can take it: the pieces make up the frame, the last one
-- is not empty and no longer than the others, the fragments are few enough, and the places of all
-- of them, of full size, stay below the largest frame.
pub record IsSendable (j : Job) : Type 0 where
  pub covers :
      j.type1_payload_size * j.cut.num_type1_fragments
        + j.cut.type3_data_size
        + j.cut.type2_data_size
      ≡ length j.content
  pub counted : j.of_fragment_no ≡ j.cut.num_type1_fragments + type3_count j.cut.needs_type3
  pub type2_filled : 0 < j.cut.type2_data_size
  pub type2_short : 0 < j.of_fragment_no → j.cut.type2_data_size ≤ j.type1_payload_size
  pub positive : 0 < j.of_fragment_no → 0 < j.type1_payload_size
  pub timed : (j.dts_pts_diff ≡ uint32_max) ⊎ (j.dts_pts_diff ≤ j.pts)
  pub type3_short : j.cut.type3_data_size ≤ j.type1_payload_size
  pub type3_filled : j.cut.needs_type3 ≡ true → 0 < j.cut.type3_data_size
  pub type3_absent : j.cut.needs_type3 ≡ false → j.cut.type3_data_size ≡ 0
  pub few : j.of_fragment_no < 8192
  pub padded : j.type1_payload_size * (j.of_fragment_no + 1) ≤ max_superframe_size
  pub whole : length j.content ≤ max_superframe_size
  pub type1_payload_size : j.type1_payload_size < 65_536
  pub type2_data_size : j.cut.type2_data_size < 65_536
  pub flags : j.flags < 256
  pub stream_id : j.stream_id < 256
  pub payload_type : j.payload_type < 256
  pub super_frame_no : j.super_frame_no < 65_536
  pub pts : j.pts < 2 ^ 64
  pub dts_pts_diff : j.dts_pts_diff < 2 ^ 32
  pub payload_code : j.payload_code < 2 ^ 32

abbrev pub num : Job → ℕ
num j = j.cut.num_type1_fragments

-- Where the bytes of the Type3 and of the Type2 fragment begin in the frame.
abbrev pub type3_start : Job → ℕ
type3_start j = j.type1_payload_size * num j

abbrev pub type2_start : Job → ℕ
type2_start j = type3_start j + j.cut.type3_data_size

abbrev pub type1_payload : Job → ℕ → Bytes
type1_payload j k = piece j (j.type1_payload_size * k) j.type1_payload_size

abbrev pub type3_payload : Job → Bytes
type3_payload j = piece j (type3_start j) j.cut.type3_data_size

abbrev pub type2_payload : Job → Bytes
type2_payload j = piece j (type2_start j) j.cut.type2_data_size

abbrev pub type1_fragment : Job → ℕ → Bytes
type1_fragment j k = encode_type1 (type1_header j k) ++ type1_payload j k

abbrev pub type3_fragment : Job → Bytes
type3_fragment j = encode_type3 (type3_header j) ++ type3_payload j

-- The packet of fragment `k`.
unfoldable pub fragment : Job → ℕ → Bytes
fragment j k =
    if k == j.of_fragment_no
    then type2_packet j (type2_start j)
    else if ltb k (num j)
    then type1_fragment j k
    else type3_fragment j

module _ (packet : Bytes) (source : ℕ) (r : Receiver) where
  pub receive-dispatch :
      (t : FrameType)
      → 0 < length packet
      → get_frame_type (u8_at packet 0) ≡ t
      → receive packet source r ≡ dispatch t packet source r
  unfolding receive
  receive-dispatch t h e = rw e (ground arith)

  handle_type1-long :
      8 ≤ length packet
      → handle_type1 packet source r
        ≡ type1_arrived (decode_type1 packet) (drop 8 packet) source (arrive r)
  unfolding handle_type1
  handle_type1-long h = ground arith

  handle_type2-long :
      27 ≤ length packet
      → handle_type2 packet source r
        ≡ type2_arrived (decode_type2 packet) (drop 27 packet) source (arrive r)
  unfolding handle_type2
  handle_type2-long h = ground arith

  handle_type3-long :
      8 ≤ length packet
      → handle_type3 packet source r
        ≡ type3_arrived (decode_type3 packet) (drop 8 packet) source (arrive r)
  unfolding handle_type3
  handle_type3-long h = ground arith

module _ (j : Job) (s : IsSendable j) where
  type1_header-IsType1 : (k : ℕ) → k < 8192 → IsType1 (type1_header j k)
  type1_header-IsType1 k h = record {
    frame_type = first_byte-lt type1 j.flags tt s.flags;
    stream_id = s.stream_id;
    super_frame_no = s.super_frame_no;
    fragment_no = omega arith;
    of_fragment_no = omega (arith, s.few);
  }

  type2_header-IsType2 : IsType2 (type2_header j)
  type2_header-IsType2 = record {
    frame_type = first_byte-lt type2 j.flags tt s.flags;
    stream_id = s.stream_id;
    payload_type = s.payload_type;
    size_of_data = omega arith;
    super_frame_no = s.super_frame_no;
    of_fragment_no = omega (arith, s.few);
    type1_packet_size = omega arith;
    pts = s.pts;
    dts_pts_diff = s.dts_pts_diff;
    payload_code = s.payload_code;
  }

  type3_header-IsType3 : IsType3 (type3_header j)
  type3_header-IsType3 = record {
    frame_type = first_byte-lt type3 j.flags tt s.flags;
    stream_id = s.stream_id;
    super_frame_no = s.super_frame_no;
    type1_packet_size = omega arith;
    of_fragment_no = omega (arith, s.few);
  }

  module _ (source : ℕ) (r : Receiver) where
    -- A Type1 packet at its handler.
    pub handle_type1-type1_fragment :
        (k : ℕ)
        → k < 8192
        → handle_type1 (type1_fragment j k) source r
          ≡ type1_arrived (type1_header j k) (type1_payload j k) source (arrive r)
    unfolding encode_type1
    handle_type1-type1_fragment k h =
        handle_type1-long (type1_fragment j k) source r (omega arith)
        ∙ ap (λ h'. type1_arrived h' (type1_payload j k) source (arrive r))
            (decode-encode_type1 (type1_header j k) (type1_payload j k) (type1_header-IsType1 k h))

    pub receive_type1 :
        (k : ℕ)
        → k < 8192
        → receive (type1_fragment j k) source r
          ≡ with_timeouts (type1_arrived (type1_header j k) (type1_payload j k) source (arrive r))
    unfolding dispatch encode_type1
    receive_type1 k h =
        receive-dispatch (type1_fragment j k) source r type1 (omega arith)
          ((first_byte_fields type1 j.flags tt s.flags).0)
        ∙ ap with_timeouts (handle_type1-type1_fragment k h)

    pub receive_type2 :
        receive (type2_packet j (type2_start j)) source r
        ≡ with_timeouts (type2_arrived (type2_header j) (type2_payload j) source (arrive r))
    unfolding dispatch encode_type2
    receive_type2 =
        receive-dispatch (type2_packet j (type2_start j)) source r type2 (omega arith)
          ((first_byte_fields type2 j.flags tt s.flags).0)
        ∙ ap with_timeouts (
            handle_type2-long (type2_packet j (type2_start j)) source r (omega arith)
            ∙ ap (λ h'. type2_arrived h' (type2_payload j) source (arrive r))
                (decode-encode_type2 (type2_header j) (type2_payload j) type2_header-IsType2))

    pub receive_type3 :
        receive (type3_fragment j) source r
        ≡ with_timeouts (type3_arrived (type3_header j) (type3_payload j) source (arrive r))
    unfolding dispatch encode_type3
    receive_type3 =
        receive-dispatch (type3_fragment j) source r type3 (omega arith)
          ((first_byte_fields type3 j.flags tt s.flags).0)
        ∙ ap with_timeouts (
            handle_type3-long (type3_fragment j) source r (omega arith)
            ∙ ap (λ h'. type3_arrived h' (type3_payload j) source (arrive r))
                (decode-encode_type3 (type3_header j) (type3_payload j) type3_header-IsType3))
