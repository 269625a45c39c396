-- ===== src/Receiver/Type3.antt =====
-- `handleType3`: the fragment before the last one, of a size of its own.
use new_efp.Common.{
  ℕ, ◌+◌, ◌-◌, ◌*◌, ◌%◌, ◌^◌, true, not, Option, some, ltb, leb, ◌==◌, ◌&&◌, ◌||◌, if◌then◌else◌,
  ◌>>=◌, length, drop, bit_and,
}
use new_efp.Common.Int.{ℤ, eqb_ℤ}
use new_efp.Common.Memory.{Bytes, write_at, read_at}
use new_efp.Wire.{
  Result, ok, frame_size_mismatch, buffer_out_of_bounds, buffer_out_of_resources, invalid_parameter,
  duplicate_fragment, fragment_too_old, too_large_frame, get_flags, max_superframe_size, uint64_max,
}
use new_efp.Wire.Headers.{FrameType3, decode_type3, sizeof_type3}
use new_efp.Receiver.State.{
  Receiver, Bucket, Assembly, arrive, recalculate_super_frame_no, set_bucket, count_received,
  count_duplicate,
}
use new_efp.Receiver.Open.{Opening, open_bucket}

-- The handler has checked that `of_fragment_no` is not 0.
abbrev pub type3_opening : FrameType3 → ℕ → ℕ → Receiver → Opening
type3_opening h size source r = record {
  source_id = source;
  flags = get_flags h.frame_type;
  stream_id = h.stream_id;
  super_frame_no = h.super_frame_no;
  first = h.of_fragment_no - 1;
  of_fragment_no = h.of_fragment_no;
  fragment_size = h.type1_packet_size;
  type3_size = size;
  type2_size = 0;
  pts = uint64_max;
  dts = uint64_max;
  payload_type = (r.streams h.stream_id).payload_type;
  payload_code = (r.streams h.stream_id).payload_code;
  total = h.type1_packet_size * (h.of_fragment_no + 1);
  offset = h.type1_packet_size * (h.of_fragment_no - 1);
}

abbrev pub type3_new : FrameType3 → Bytes → ℕ → ℕ → ℕ → ℤ × Receiver → Option (Result × Receiver)
type3_new h payload source i now (order, r) =
    if eqb_ℤ order (r.buckets i).delivery_order
    then some (fragment_too_old, r)
    else open_bucket (type3_opening h (length payload) source r) i now order payload r

-- A Type2 payload that came first stands where a full fragment would end; it moves to the end of
-- the Type3 payload. The frame's size follows.
unfoldable pub relocate : FrameType3 → ℕ → Bucket → Assembly → Option Assembly
relocate h size b a =
    if b.received h.of_fragment_no && ltb 0 b.type2_size
    then (do
      type2 ← read_at a.memory (b.fragment_size * h.of_fragment_no) b.type2_size
      memory ← write_at a.memory (b.fragment_size * (h.of_fragment_no - 1) + size) type2
      some (record {
        memory = memory;
        size = b.fragment_size * (h.of_fragment_no - 1) + size + b.type2_size;
      }))
    else if not (b.received h.of_fragment_no)
    then some (record a { size = b.fragment_size * (h.of_fragment_no - 1) + size })
    else some a

unfoldable pub type3_store : FrameType3 → Bytes → ℕ → Bucket → Receiver → Option (Result × Receiver)
type3_store h payload i b r = do
  a ← b.frame
  moved ← relocate h (length payload) b a
  memory ← write_at moved.memory (b.fragment_size * (h.of_fragment_no - 1)) payload
  some (
    ok,
    set_bucket (count_received r) i (record b {
      received = λ k. if k == h.of_fragment_no - 1 then true else b.received k;
      fragment_count = (b.fragment_count + 1) % 2 ^ 16;
      type3_size = length payload;
      frame = some (record moved { memory = memory });
    }),
  )

unfoldable pub type3_existing :
    FrameType3 → Bytes → ℕ → ℕ → Bucket → Receiver → Option (Result × Receiver)
type3_existing h payload source i b r =
    if not (h.super_frame_no == b.saved_frame_no)
    then some (buffer_out_of_resources, r)
    else if not (h.stream_id == b.stream_id) || not (source == b.source_id)
    then some (invalid_parameter, r)
    else if not (h.of_fragment_no == b.of_fragment_no)
        || ltb b.of_fragment_no (h.of_fragment_no - 1)
    then some (buffer_out_of_bounds, r)
    else if not (h.type1_packet_size == b.fragment_size)
    then some (frame_size_mismatch, r)
    else if b.received (h.of_fragment_no - 1)
    then some (duplicate_fragment, count_duplicate r)
    else if ltb (b.fragment_size * (b.of_fragment_no + 1))
        (b.fragment_size * (h.of_fragment_no - 1) + length payload)
    then some (buffer_out_of_bounds, r)
    else type3_store h payload i b r

-- The handler behind the size check, at the time of arrival.
unfoldable pub type3_arrived : FrameType3 → Bytes → ℕ → ℕ × Receiver → Option (Result × Receiver)
type3_arrived h payload source (now, r) =
    let i = bit_and h.super_frame_no r.buffer_size in
    if leb 8192 h.of_fragment_no || h.of_fragment_no == 0
    then some (buffer_out_of_bounds, r)
    else if ltb h.type1_packet_size (length payload)
    then some (buffer_out_of_bounds, r)
    else if ltb max_superframe_size (h.type1_packet_size * (h.of_fragment_no + 1))
    then some (too_large_frame, r)
    else if (r.buckets i).active
    then type3_existing h payload source i (r.buckets i) r
    else type3_new h payload source i now (recalculate_super_frame_no h.super_frame_no r)

unfoldable pub handle_type3 : Bytes → ℕ → Receiver → Option (Result × Receiver)
handle_type3 packet source r =
    if ltb (length packet) sizeof_type3
    then some (frame_size_mismatch, r)
    else type3_arrived (decode_type3 packet) (drop sizeof_type3 packet) source (arrive r)
