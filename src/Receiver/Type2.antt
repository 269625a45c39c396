-- ===== src/Receiver/Type2.antt =====
-- `handleType2`: the last fragment of a frame, with the frame's metadata.
use new_efp.Common.{
  ℕ, ◌+◌, ◌-◌, ◌*◌, ◌%◌, ◌^◌, true, not, Option, some, ltb, leb, ◌==◌, ◌&&◌, ◌||◌, if◌then◌else◌,
  ◌>>=◌, length, drop, bit_and,
}
use new_efp.Common.Int.{ℤ, eqb_ℤ}
use new_efp.Common.Memory.{Bytes, write_at}
use new_efp.Wire.{
  Result, ok, frame_size_mismatch, buffer_out_of_bounds, buffer_out_of_resources, invalid_parameter,
  duplicate_fragment, fragment_too_old, too_large_frame, get_flags, max_superframe_size, uint32_max,
  uint64_max,
}
use new_efp.Wire.Headers.{FrameType2, decode_type2, sizeof_type2}
use new_efp.Receiver.State.{
  Receiver, Bucket, arrive, recalculate_super_frame_no, set_bucket, count_received, count_duplicate,
  set_stream,
}
use new_efp.Receiver.Open.{Opening, open_bucket}

abbrev pub dts_of : FrameType2 → ℕ
dts_of h = if h.dts_pts_diff == uint32_max then uint64_max else h.pts - h.dts_pts_diff

abbrev pub type2_opening : FrameType2 → ℕ → Opening
type2_opening h source = record {
  source_id = source;
  flags = get_flags h.frame_type;
  stream_id = h.stream_id;
  super_frame_no = h.super_frame_no;
  first = h.of_fragment_no;
  of_fragment_no = h.of_fragment_no;
  fragment_size = h.type1_packet_size;
  type3_size = 0;
  type2_size = h.size_of_data;
  pts = h.pts;
  dts = dts_of h;
  payload_type = h.payload_type;
  payload_code = h.payload_code;
  total = h.type1_packet_size * h.of_fragment_no + h.size_of_data;
  offset = h.type1_packet_size * h.of_fragment_no;
}

-- The stream's payload type and code are kept for the frames to come.
abbrev pub cache_stream : FrameType2 → Receiver → Receiver
cache_stream h r =
    set_stream r h.stream_id
      (record { payload_type = h.payload_type; payload_code = h.payload_code })

abbrev pub type2_new : FrameType2 → Bytes → ℕ → ℕ → ℕ → ℤ × Receiver → Option (Result × Receiver)
type2_new h payload source i now (order, r) =
    if eqb_ℤ order (r.buckets i).delivery_order
    then some (fragment_too_old, r)
    else open_bucket (type2_opening h source) i now order payload (cache_stream h r)

-- Where the payload goes: behind the Type3 payload, if that came before.
unfoldable pub type2_offset : FrameType2 → Bucket → ℕ
type2_offset h b =
    if ltb 0 b.type3_size
    then b.fragment_size * (h.of_fragment_no - 1) + b.type3_size
    else h.type1_packet_size * h.of_fragment_no

unfoldable pub type2_actual_size : FrameType2 → Bucket → ℕ
type2_actual_size h b =
    if ltb 0 b.type3_size
    then b.fragment_size * (h.of_fragment_no - 1) + b.type3_size + h.size_of_data
    else b.fragment_size * h.of_fragment_no + h.size_of_data

unfoldable pub type2_store : FrameType2 → Bytes → ℕ → Bucket → Receiver → Option (Result × Receiver)
type2_store h payload i b r = do
  a ← b.frame
  memory ← write_at a.memory (type2_offset h b) payload
  some (
    ok,
    set_bucket (cache_stream h (count_received r)) i (record b {
      received = λ k. if k == h.of_fragment_no then true else b.received k;
      fragment_count = (b.fragment_count + 1) % 2 ^ 16;
      pts = h.pts;
      payload_type = h.payload_type;
      payload_code = h.payload_code;
      flags = get_flags h.frame_type;
      type2_size = h.size_of_data;
      dts = dts_of h;
      frame = some (record { memory = memory; size = type2_actual_size h b });
    }),
  )

unfoldable pub type2_existing :
    FrameType2 → Bytes → ℕ → ℕ → Bucket → Receiver → Option (Result × Receiver)
type2_existing h payload source i b r =
    if not (h.super_frame_no == b.saved_frame_no)
    then some (buffer_out_of_resources, r)
    else if not (h.stream_id == b.stream_id) || not (source == b.source_id)
    then some (invalid_parameter, r)
    else if not (h.of_fragment_no == b.of_fragment_no)
    then some (buffer_out_of_bounds, r)
    else if ltb 0 h.of_fragment_no && not (h.type1_packet_size == b.fragment_size)
    then some (frame_size_mismatch, r)
    else if b.received h.of_fragment_no
    then some (duplicate_fragment, count_duplicate r)
    else if ltb (b.fragment_size * (b.of_fragment_no + 1)) (type2_offset h b + h.size_of_data)
    then some (buffer_out_of_bounds, r)
    else type2_store h payload i b r

-- The handler behind the size check, at the time of arrival.
unfoldable pub type2_arrived : FrameType2 → Bytes → ℕ → ℕ × Receiver → Option (Result × Receiver)
type2_arrived h payload source (now, r) =
    let i = bit_and h.super_frame_no r.buffer_size in
    if not (length payload == h.size_of_data)
    then some (frame_size_mismatch, r)
    else if leb 8192 h.of_fragment_no
    then some (buffer_out_of_bounds, r)
    else if ltb 0 h.of_fragment_no && h.type1_packet_size == 0
    then some (invalid_parameter, r)
    else if not (h.dts_pts_diff == uint32_max) && ltb h.pts h.dts_pts_diff
    then some (invalid_parameter, r)
    else if ltb max_superframe_size (h.type1_packet_size * h.of_fragment_no + h.size_of_data)
    then some (too_large_frame, r)
    else if (r.buckets i).active
    then type2_existing h payload source i (r.buckets i) r
    else type2_new h payload source i now (recalculate_super_frame_no h.super_frame_no r)

unfoldable pub handle_type2 : Bytes → ℕ → Receiver → Option (Result × Receiver)
handle_type2 packet source r =
    if ltb (length packet) sizeof_type2
    then some (frame_size_mismatch, r)
    else type2_arrived (decode_type2 packet) (drop sizeof_type2 packet) source (arrive r)
