-- ===== src/Sender/Fragments.antt =====
-- `sendType2Only`, and `sendFragmentedSingle`: each fragment is a packet of its own. `none` is a
-- copy or a read that leaves its buffer.
use new_efp.Common.{ℕ, zero, suc, ◌+◌, ◌-◌, ◌%◌, ◌^◌, Option, some, if◌then◌else◌, false, ◌>>=◌}
use new_efp.Common.Memory.{Bytes, fill, read_at}
use new_efp.Wire.{type1, type2, type3, make_frame_type_byte}
use new_efp.Wire.Headers.{
  FrameType1, FrameType2, FrameType3, encode_type1, encode_type2, encode_type3, sizeof_type2,
  sizeof_type3,
}
use new_efp.Sender.State.{Sender, invoke_callback}
use new_efp.Sender.Plan.{Plan}
use new_efp.Sender.Retention.{retain_fragment}

-- The arguments that `sendFragmented` hands down.
pub record Job : Type 0 where
  pub content : Bytes
  pub payload_type : ℕ
  pub pts : ℕ
  pub dts_pts_diff : ℕ
  pub payload_code : ℕ
  pub stream_id : ℕ
  pub flags : ℕ
  pub type1_payload_size : ℕ
  pub super_frame_no : ℕ
  pub of_fragment_no : ℕ
  pub cut : Plan

-- A packet in the send buffer is retained, and then given to the callback.
unfoldable pub emit : ℕ → ℕ → ℕ → Bytes → ℕ → Sender → Option Sender
emit super_frame_no fragment_no stream_id buffer size s = do
  packet ← read_at buffer 0 size
  some (
      invoke_callback
        (retain_fragment super_frame_no fragment_no stream_id packet
          (record s { send_buffer = buffer }))
        packet stream_id)

abbrev pub type1_header : Job → ℕ → FrameType1
type1_header j fragment_no = record {
  frame_type = make_frame_type_byte type1 j.flags;
  stream_id = j.stream_id;
  super_frame_no = j.super_frame_no;
  fragment_no = fragment_no;
  of_fragment_no = j.of_fragment_no;
}

abbrev pub type3_header : Job → FrameType3
type3_header j = record {
  frame_type = make_frame_type_byte type3 j.flags;
  stream_id = j.stream_id;
  super_frame_no = j.super_frame_no;
  type1_packet_size = j.type1_payload_size % 2 ^ 16;
  of_fragment_no = j.of_fragment_no;
}

abbrev pub type2_header : Job → FrameType2
type2_header j = record {
  frame_type = make_frame_type_byte type2 j.flags;
  stream_id = j.stream_id;
  payload_type = j.payload_type;
  size_of_data = j.cut.type2_data_size % 2 ^ 16;
  super_frame_no = j.super_frame_no;
  of_fragment_no = j.of_fragment_no;
  type1_packet_size = j.type1_payload_size % 2 ^ 16;
  pts = j.pts;
  dts_pts_diff = j.dts_pts_diff;
  payload_code = j.payload_code;
}

-- One round of the loop over the Type1 fragments: the packet is as long as the MTU.
unfoldable pub send_type1 : Job → ℕ → ℕ → Sender → Option Sender
send_type1 j fragment_no offset s = do
  payload ← read_at j.content offset j.type1_payload_size
  buffer ← fill s.send_buffer (encode_type1 (type1_header j (fragment_no % 2 ^ 16))) payload
  emit j.super_frame_no (fragment_no % 2 ^ 16) j.stream_id buffer s.mtu s

-- `count` rounds from a fragment number and an offset.
unfoldable pub send_type1s : ℕ → Job → ℕ → ℕ → Sender → Option (ℕ × Sender)
send_type1s zero j fragment_no offset s = some (offset, s)
send_type1s (suc count) j fragment_no offset s = do
  s' ← send_type1 j fragment_no offset s
  send_type1s count j (fragment_no + 1) (offset + j.type1_payload_size) s'

unfoldable pub send_type3_packet : Job → ℕ → Sender → Option Sender
send_type3_packet j offset s = do
  payload ← read_at j.content offset j.cut.type3_data_size
  buffer ← fill s.send_buffer (encode_type3 (type3_header j)) payload
  emit j.super_frame_no ((j.of_fragment_no + 2 ^ 16 - 1) % 2 ^ 16) j.stream_id buffer
      (sizeof_type3 + j.cut.type3_data_size) s

-- The Type3 packet, where the plan has one, and the offset behind it.
unfoldable pub send_type3 : Job → ℕ → Sender → Option (ℕ × Sender)
send_type3 j offset s =
    if j.cut.needs_type3
    then (do s' ← send_type3_packet j offset s; some (offset + j.cut.type3_data_size, s'))
    else some (offset, s)

unfoldable pub send_type2 : Job → ℕ → Sender → Option Sender
send_type2 j offset s = do
  payload ← read_at j.content offset j.cut.type2_data_size
  buffer ← fill s.send_buffer (encode_type2 (type2_header j)) payload
  emit j.super_frame_no j.of_fragment_no j.stream_id buffer (sizeof_type2 + j.cut.type2_data_size) s

unfoldable pub send_fragmented_single : Job → Sender → Option Sender
send_fragmented_single j s = do
  (offset, s1) ← send_type1s j.cut.num_type1_fragments j 0 0 s
  (offset', s2) ← send_type3 j offset s1
  send_type2 j offset' s2

-- `sendType2Only`: the whole frame in one packet. The plan of the job says so too.
unfoldable pub type2_only_plan : ℕ → Plan
type2_only_plan size = record {
  total_fragments = 1;
  num_type1_fragments = 0;
  needs_type3 = false;
  type3_data_size = 0;
  type2_data_size = size;
}
