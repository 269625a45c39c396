-- ===== src/Sender/Api.antt =====
-- The entry points of `Sender`. `none` is a copy or a read that leaves its buffer.
use new_efp.Common.{
  ℕ, zero, suc, ◌+◌, ◌-◌, ◌*◌, ◌%◌, ◌^◌, Bool, true, false, not, List, [], ◌∷◌, ◌++◌, Option, none,
  some, ltb, leb, ◌==◌, ◌&&◌, ◌||◌, if◌then◌else◌, length, drop, inc64,
}
use new_efp.Common.Memory.{Bytes, zeros}
use new_efp.Common.Table.{lookup, member}
use new_efp.Wire.{
  Result, ok, invalid_parameter, too_large_frame, frame_size_mismatch, buffer_out_of_bounds,
  FrameType, get_frame_type, frame_type_code, subtype_nack, max_superframe_size,
  max_fragments_per_superframe, uint16_max, uint32_max, uint64_max,
}
use new_efp.Wire.Headers.{
  NackEntry, decode_nack, decode_nack_entry, sizeof_nack, sizeof_nack_entry, sizeof_type1,
  sizeof_type2,
}
use new_efp.Sender.State.{
  Sender, SubFragmentMode, single, half, quarter, eighth, Request, RetainedFragment, call_back,
}
use new_efp.Sender.Plan.{Plan, plan, type1_frame_size}
use new_efp.Sender.Retention.{evict_old_retention, make_retention_key}
use new_efp.Sender.Fragments.{Job, send_type2, send_fragmented_single, type2_only_plan}
use new_efp.Sender.Bundles.{send_fragmented_bundled, pop_retransmit}

abbrev pub new_bundle_buffer : SubFragmentMode → ℕ → Bytes
new_bundle_buffer single mtu = []
new_bundle_buffer other mtu = zeros mtu

-- The constructor, with the readings that the steady clock is going to give.
unfoldable pub new_sender : ℕ → SubFragmentMode → ℕ → ℕ → (ℕ → ℕ) → Sender
new_sender mtu mode retention_ms retention_max_bytes clock =
    let mtu' = if ltb mtu 256 then 256 else mtu in
    record {
      mtu = mtu';
      super_frame_no = 0;
      sub_fragment_mode = mode;
      retention_ms = retention_ms;
      retention_max_bytes = retention_max_bytes;
      retention_buffer_bytes = 0;
      send_buffer = zeros mtu';
      bundle_buffer = new_bundle_buffer mode mtu';
      retention_buffer = [];
      retention_order = [];
      retransmit_queue = [];
      queued_retransmits = [];
      retention_generation = 0;
      statistics = record {
        fragments_sent = 0;
        bundles_sent = 0;
        nacks_received = 0;
        retransmitted_fragments = 0;
      };
      clock = clock;
      sent = [];
    }

-- The arguments of `send`.
pub record Frame : Type 0 where
  pub content : Bytes
  pub payload_type : ℕ
  pub pts : ℕ
  pub dts : ℕ
  pub payload_code : ℕ
  pub stream_id : ℕ
  pub flags : ℕ

-- DTS is sent as what it lies below PTS, where both are given and that fits.
unfoldable pub dts_pts_difference : ℕ → ℕ → ℕ
dts_pts_difference pts dts =
    if (not (dts == uint64_max) && not (pts == uint64_max)) && leb dts pts
    then (if leb (pts - dts) (uint32_max - 1) then pts - dts else uint32_max)
    else uint32_max

abbrev pub next_super_frame : Sender → Sender
next_super_frame s = record s { super_frame_no = (s.super_frame_no + 1) % 2 ^ 16 }

abbrev pub job : Sender → Frame → ℕ → Plan → Job
job s f t1 p = record {
  content = f.content;
  payload_type = f.payload_type;
  pts = f.pts;
  dts_pts_diff = dts_pts_difference f.pts f.dts;
  payload_code = f.payload_code;
  stream_id = f.stream_id;
  flags = f.flags;
  type1_payload_size = t1;
  super_frame_no = s.super_frame_no;
  of_fragment_no = (p.total_fragments - 1) % 2 ^ 16;
  cut = p;
}

abbrev pub finish : Option Sender → Option (Result × Sender)
finish none = none
finish (some s) = some (ok, s)

unfoldable pub send_type2_only : Frame → Sender → Option (Result × Sender)
unfolding type2_only_plan
send_type2_only f s =
    finish (send_type2 (job s f 0 (type2_only_plan (length f.content))) 0 (next_super_frame s))

abbrev pub send_job : SubFragmentMode → Job → Sender → Option Sender
send_job single j s = send_fragmented_single j s
send_job half j s = send_fragmented_bundled j 2 s
send_job quarter j s = send_fragmented_bundled j 4 s
send_job eighth j s = send_fragmented_bundled j 8 s

unfoldable pub send_fragmented : Frame → ℕ → Sender → Option (Result × Sender)
send_fragmented f t1 s =
    let p = plan s.mtu (length f.content) t1 in
    if p.total_fragments == 0 || ltb max_fragments_per_superframe p.total_fragments
    then some (too_large_frame, s)
    else finish (send_job s.sub_fragment_mode (job s f t1 p) (next_super_frame s))

-- `send` behind its checks and the eviction.
unfoldable pub send_checked : Frame → Sender → Option (Result × Sender)
send_checked f s =
    let frame_size = type1_frame_size s.mtu s.sub_fragment_mode in
    if leb frame_size sizeof_type1
    then some (invalid_parameter, s)
    else if leb (length f.content) (s.mtu - sizeof_type2)
    then send_type2_only f s
    else send_fragmented f (frame_size - sizeof_type1) s

unfoldable pub send : Frame → Sender → Option (Result × Sender)
send f s =
    if length f.content == 0
    then some (invalid_parameter, s)
    else if ltb max_superframe_size (length f.content)
    then some (too_large_frame, s)
    else send_checked f (if ltb 0 s.retention_ms then evict_old_retention 0 s else s)

-- One fragment of a NACK: its packet is queued if it is retained for that stream and not queued.
unfoldable pub queue_retransmit : NackEntry → ℕ → Sender → Sender
queue_retransmit e fragment_no s =
    let key = make_retention_key e.super_frame_no fragment_no in
    elim (lookup key s.retention_buffer) [
      | none ↦ s
      | some f ↦
          if f.stream_id == e.stream_id && not (member f.generation s.queued_retransmits)
          then record s {
            queued_retransmits = f.generation ∷ s.queued_retransmits;
            retransmit_queue =
                s.retransmit_queue ++ (record { key = key; generation = f.generation } ∷ []);
          }
          else s
    ]

-- The fragments of one entry: `count` of them from `fragment_no` on.
unfoldable pub queue_range : ℕ → NackEntry → ℕ → Sender → Sender
queue_range zero e fragment_no s = s
queue_range (suc count) e fragment_no s =
    queue_range count e (fragment_no + 1) (queue_retransmit e (fragment_no % 2 ^ 16) s)

-- The entries of a NACK. An entry past the last fragment number ends the call with an error; what
-- the entries before it queued stays queued.
unfoldable pub queue_entries : ℕ → Bytes → Sender → Result × Sender
queue_entries zero entries s = (
  ok,
  record s {
    statistics = record (s.statistics) { nacks_received = inc64 s.statistics.nacks_received };
  },
)
queue_entries (suc count) entries s =
    let e = decode_nack_entry entries in
    elim (ltb uint16_max (e.fragment_no + e.fragment_count)) [
      | true ↦ (buffer_out_of_bounds, s)
      | false ↦
          queue_entries count (drop sizeof_nack_entry entries)
            (queue_range (e.fragment_count + 1) e e.fragment_no s)
    ]

-- The code of a frame type is compared.
abbrev pub is_type0 : FrameType → Bool
is_type0 t = frame_type_code t == 0

unfoldable pub receive_nack : Bytes → Sender → Result × Sender
receive_nack packet s =
    let h = decode_nack packet in
    if ltb (length packet) sizeof_nack
    then (frame_size_mismatch, s)
    else if not (is_type0 (get_frame_type h.frame_type))
    then (invalid_parameter, s)
    else if not (h.subtype == subtype_nack)
    then (invalid_parameter, s)
    else if not (length packet == sizeof_nack + h.nack_count * sizeof_nack_entry)
    then (frame_size_mismatch, s)
    else queue_entries h.nack_count (drop sizeof_nack packet) s

-- A packet that is sent again is counted.
abbrev pub resend : ℕ → Option RetainedFragment × Sender → ℕ × Sender
resend count (none, s) = (count, s)
resend count (some f, s) = (count + 1, call_back s f.bytes f.stream_id)

-- The loop of `processRetransmits` over the queue.
unfoldable pub retransmit_loop : ℕ → ℕ → List Request → Sender → ℕ × Sender
retransmit_loop limit count [] s = (count, s)
retransmit_loop limit count (request ∷ rest) s = elim (ltb count limit) [
  | false ↦ (count, s)
  | true ↦
      (let (count', s') = resend count (pop_retransmit request rest s) in
        retransmit_loop limit count' rest s')
]

unfoldable pub process_retransmits : ℕ → Sender → ℕ × Sender
process_retransmits limit s = retransmit_loop limit 0 s.retransmit_queue s
