-- ===== src/Receiver/Delivery.antt =====
-- `deliverFrame` and `processTimeouts`. `none` is a frame that is not there.
use new_efp.Common.{
  ℕ, ◌+◌, ◌*◌, Bool, true, false, not, List, [], ◌∷◌, ◌++◌, Option, none, some, ltb, leb, ◌==◌,
  ◌&&◌, ◌||◌, if◌then◌else◌, ◌>>=◌, inc64,
}
use new_efp.Common.Int.{ℤ, ltb_ℤ}
use new_efp.Receiver.State.{Receiver, Bucket, Assembly, SuperFrame, later, set_bucket, map_erase}
use new_efp.Receiver.Nack.{process_nacks}

abbrev pub is_complete : Bucket → Bool
is_complete b = b.fragment_count == b.of_fragment_no + 1

-- The frame as it is handed over.
abbrev pub super_frame : Bucket → Assembly → SuperFrame
super_frame b a = record {
  assembly = a;
  payload_type = b.payload_type;
  payload_code = b.payload_code;
  pts = b.pts;
  dts = b.dts;
  stream_id = b.stream_id;
  source_id = b.source_id;
  flags = b.flags;
  super_frame_no = b.saved_frame_no;
  broken = not (is_complete b);
}

abbrev pub count_delivered : Bool → Receiver → Receiver
count_delivered true r = record r {
  statistics = record (r.statistics) { broken_frames = inc64 r.statistics.broken_frames };
}
count_delivered false r = record r {
  statistics = record (r.statistics) { complete_frames = inc64 r.statistics.complete_frames };
}

abbrev pub hand_over : ℕ → Bucket → SuperFrame → Receiver → Receiver
hand_over i b f r =
    set_bucket
      (record r {
        delivered = r.delivered ++ (f ∷ []);
        bucket_map = map_erase b.delivery_order r.bucket_map;
      })
      i (record b { active = false; frame = none })

unfoldable pub deliver_frame : ℕ → Receiver → Option Receiver
deliver_frame i r = do
  a ← (r.buckets i).frame
  some (
      hand_over i (r.buckets i) (super_frame (r.buckets i) a)
        (count_delivered (not (is_complete (r.buckets i))) r))

-- A bucket that is complete, timed out, or held up the frames behind it for too long.
unfoldable pub is_due : Receiver → ℕ → Bucket → Bool
is_due r now b =
    is_complete b
    || leb b.timeout_us now
    || (ltb 0 r.hol_timeout_ms && leb (b.first_arrival_us + r.hol_timeout_ms * 1000) now)

-- The first pass: the buckets to deliver, in the order of the map.
unfoldable pub due_buckets : Receiver → ℕ → List (ℤ × ℕ) → List ℕ
due_buckets r now [] = []
due_buckets r now ((k, i) ∷ m) =
    if is_due r now (r.buckets i) then i ∷ due_buckets r now m else due_buckets r now m

-- `std::sort` by delivery order.
unfoldable pub sort_insert : Receiver → ℕ → List ℕ → List ℕ
sort_insert r i [] = i ∷ []
sort_insert r i (j ∷ js) =
    if ltb_ℤ (r.buckets j).delivery_order (r.buckets i).delivery_order
    then j ∷ sort_insert r i js
    else i ∷ j ∷ js

unfoldable pub sort_buckets : Receiver → List ℕ → List ℕ
sort_buckets r [] = []
sort_buckets r (i ∷ is) = sort_insert r i (sort_buckets r is)

unfoldable pub deliver_all : List ℕ → Receiver → Option Receiver
deliver_all [] r = some r
deliver_all (i ∷ is) r = do r' ← deliver_frame i r; deliver_all is r'

abbrev pub deliver_due : ℕ → Receiver → Option Receiver
deliver_due now r = deliver_all (sort_buckets r (due_buckets r now r.bucket_map)) r

unfoldable pub process_timeouts : Receiver → Option Receiver
process_timeouts r = process_nacks (record r { clock = later r.clock }) >>= deliver_due (r.clock 0)
