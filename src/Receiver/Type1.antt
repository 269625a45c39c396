-- ===== src/Receiver/Type1.antt =====
-- `handleType1`: a fragment that fills its place in the frame.
use new_efp.Common.{
  ℕ, ◌+◌, ◌*◌, ◌/◌, ◌%◌, ◌^◌, true, not, Option, some, ltb, leb, ◌==◌, ◌||◌, if◌then◌else◌, ◌>>=◌,
  length, drop, bit_and,
}
use new_efp.Common.Int.{ℤ, eqb_ℤ}
use new_efp.Common.Memory.{Bytes, write_at}
use new_efp.Wire.{
  Result, ok, frame_size_mismatch, buffer_out_of_bounds, buffer_out_of_resources, invalid_parameter,
  duplicate_fragment, fragment_too_old, too_large_frame, get_flags, max_superframe_size, uint64_max,
}
use new_efp.Wire.Headers.{FrameType1, decode_type1, sizeof_type1}
use new_efp.Receiver.State.{
  Receiver, Bucket, arrive, recalculate_super_frame_no, set_bucket, count_received, count_duplicate,
}
use new_efp.Receiver.Open.{Opening, open_bucket}

abbrev pub type1_opening : FrameType1 → ℕ → ℕ → Receiver → Opening
type1_opening h size source r = record {
  source_id = source;
  flags = get_flags h.frame_type;
  stream_id = h.stream_id;
  super_frame_no = h.super_frame_no;
  first = h.fragment_no;
  of_fragment_no = h.of_fragment_no;
  fragment_size = size;
  type3_size = 0;
  type2_size = 0;
  pts = uint64_max;
  dts = uint64_max;
  payload_type = (r.streams h.stream_id).payload_type;
  payload_code = (r.streams h.stream_id).payload_code;
  total = size * (h.of_fragment_no + 1);
  offset = size * h.fragment_no;
}

abbrev pub type1_new : FrameType1 → Bytes → ℕ → ℕ → ℕ → ℤ × Receiver → Option (Result × Receiver)
type1_new h payload source i now (order, r) =
    if eqb_ℤ order (r.buckets i).delivery_order
    then some (fragment_too_old, r)
    else if ltb (max_superframe_size / (h.of_fragment_no + 1)) (length payload)
    then some (too_large_frame, r)
    else open_bucket (type1_opening h (length payload) source r) i now order payload r

unfoldable pub type1_store : FrameType1 → Bytes → ℕ → Bucket → Receiver → Option (Result × Receiver)
type1_store h payload i b r = do
  a ← b.frame
  memory ← write_at a.memory (b.fragment_size * h.fragment_no) payload
  some (
    ok,
    set_bucket (count_received r) i (record b {
      received = λ k. if k == h.fragment_no then true else b.received k;
      fragment_count = (b.fragment_count + 1) % 2 ^ 16;
      frame = some (record a { memory = memory });
    }),
  )

unfoldable pub type1_existing :
    FrameType1 → Bytes → ℕ → ℕ → Bucket → Receiver → Option (Result × Receiver)
type1_existing h payload source i b r =
    if not (h.super_frame_no == b.saved_frame_no)
    then some (buffer_out_of_resources, r)
    else if not (h.stream_id == b.stream_id) || not (source == b.source_id)
    then some (invalid_parameter, r)
    else if not (h.of_fragment_no == b.of_fragment_no) || ltb b.of_fragment_no h.fragment_no
    then some (buffer_out_of_bounds, r)
    else if b.received h.fragment_no
    then some (duplicate_fragment, count_duplicate r)
    else if not (length payload == b.fragment_size)
    then some (frame_size_mismatch, r)
    else type1_store h payload i b r

-- The handler behind the size check, at the time of arrival.
unfoldable pub type1_arrived : FrameType1 → Bytes → ℕ → ℕ × Receiver → Option (Result × Receiver)
type1_arrived h payload source (now, r) =
    let i = bit_and h.super_frame_no r.buffer_size in
    if leb 8192 h.fragment_no || leb 8192 h.of_fragment_no
    then some (buffer_out_of_bounds, r)
    else if ltb h.of_fragment_no h.fragment_no
    then some (buffer_out_of_bounds, r)
    else if (r.buckets i).active
    then type1_existing h payload source i (r.buckets i) r
    else type1_new h payload source i now (recalculate_super_frame_no h.super_frame_no r)

unfoldable pub handle_type1 : Bytes → ℕ → Receiver → Option (Result × Receiver)
handle_type1 packet source r =
    if ltb (length packet) sizeof_type1
    then some (frame_size_mismatch, r)
    else type1_arrived (decode_type1 packet) (drop sizeof_type1 packet) source (arrive r)
