-- ===== src/Receiver/Nack.antt =====
-- NACKs: when one is due (`calculateNackDelayUs`, `processNacks`) and what it holds (`buildNack`).
use new_efp.Common.{
  ℕ, zero, suc, ◌+◌, ◌-◌, ◌*◌, ◌%◌, ◌^◌, not, List, [], ◌∷◌, ◌++◌, ltb, leb, ◌==◌, if◌then◌else◌,
  length, take, max, inc64, Option, none, some, ◌>>=◌,
}
use new_efp.Common.Int.{ℤ, pos, negsuc, pos_part, ◌+ℤ◌, ltb_ℤ}
use new_efp.Common.Memory.{Bytes}
use new_efp.Wire.{type0, make_frame_type_byte, subtype_nack, uint16_max}
use new_efp.Wire.Headers.{NackEntry, encode_nack, encode_nack_entry}
use new_efp.Receiver.State.{Receiver, Bucket, later, set_bucket}

-- The variables of the scan. A `range_start` of UINT16_MAX is no range.
pub record Scan : Type 0 where
  pub entries : List NackEntry
  pub range_start : ℕ
  pub range_count : ℕ

abbrev pub entry_of : Bucket → ℕ → ℕ → NackEntry
entry_of b start count = record {
  stream_id = b.stream_id;
  super_frame_no = b.saved_frame_no;
  fragment_no = start;
  fragment_count = count % 256;
}

-- The range so far becomes an entry.
abbrev pub emit_range : Bucket → Scan → List NackEntry
emit_range b s = s.entries ++ (entry_of b s.range_start s.range_count ∷ [])

-- One round of the scan.
unfoldable pub scan_round : Bucket → ℕ → Scan → Scan
scan_round b i s =
    if not (b.received i)
    then (if s.range_start == uint16_max
        then record s { range_start = i; range_count = 0 }
        else if ltb s.range_count 255
        then record s { range_count = s.range_count + 1 }
        else record { entries = emit_range b s; range_start = i; range_count = 0 })
    else if not (s.range_start == uint16_max)
    then record { entries = emit_range b s; range_start = uint16_max; range_count = 0 }
    else s

-- `count` rounds from fragment `i` on.
unfoldable pub scan : ℕ → Bucket → ℕ → Scan → Scan
scan zero b i s = s
scan (suc count) b i s = scan count b (i + 1) (scan_round b i s)

abbrev pub scan_start : Scan
scan_start = record { entries = []; range_start = uint16_max; range_count = 0 }

-- The entries for a bucket, before they are cut to 255.
unfoldable pub nack_entries : Bucket → List NackEntry
nack_entries b =
    let s = scan (b.of_fragment_no + 1) b 0 scan_start in
    if s.range_start == uint16_max then s.entries else emit_range b s

abbrev pub encode_entries : List NackEntry → Bytes
encode_entries [] = []
encode_entries (e ∷ es) = encode_nack_entry e ++ encode_entries es

-- The packet for some entries, of which there are 255 at most.
unfoldable pub nack_packet : List NackEntry → Bytes
nack_packet es =
    encode_nack (record {
      frame_type = make_frame_type_byte type0 0;
      subtype = subtype_nack;
      nack_count = length es % 256;
    })
    ++ encode_entries es

-- Nothing where no fragment is missing.
unfoldable pub build_nack : Bucket → Bytes
build_nack b =
    let es = nack_entries b in
    if length es == 0 then [] else nack_packet (if ltb 255 (length es) then take 255 es else es)

-- `x << k` of an int64_t, for `k` below 64: C++ does not say what a longer shift gives.
abbrev pub shift_left : ℕ → ℕ → ℤ
shift_left x k =
    let bits = x * 2 ^ k % 2 ^ 64 in
    if ltb bits (2 ^ 63) then pos bits else negsuc (2 ^ 64 - bits - 1)

abbrev pub min_ℤ : ℤ → ℤ → ℤ
min_ℤ a b = if ltb_ℤ b a then b else a

-- The fixed interval, or four times the jitter and 10 ms at least; doubled for each NACK before;
-- and not past 10 ms before the timeout.
abbrev pub nack_delay : Bucket → Receiver → ℤ
nack_delay b r =
    let base =
      if ltb 0 r.nack_interval_ms
      then r.nack_interval_ms * 1000
      else max 10_000 (pos_part r.jitter_us * 4) in
    min_ℤ (shift_left base b.nack_count) (pos (b.timeout_us - r.clock 0 - 10_000))

-- After 64 NACKs for the frame the shift is undefined, and there is no value.
unfoldable pub calculate_nack_delay_us : Bucket → Receiver → Option (ℤ × Receiver)
calculate_nack_delay_us b r =
    if ltb b.nack_count 64 then some (nack_delay b r, record r { clock = later r.clock }) else none

-- When the next NACK of a bucket is due.
abbrev pub trigger_time : Bucket → ℤ → ℤ
trigger_time b delay =
    if b.last_nack_us == 0 then pos b.first_arrival_us +ℤ delay else pos b.last_nack_us +ℤ delay

-- The NACK goes to the callback, and the bucket remembers it.
abbrev pub send_nack : ℕ → ℕ → Bucket → Bytes → Receiver → Receiver
send_nack now i b packet r =
    set_bucket
      (record r {
        nacks = r.nacks ++ (packet ∷ []);
        statistics = record (r.statistics) { nacks_sent = inc64 r.statistics.nacks_sent };
      })
      i (record b { last_nack_us = now; nack_count = (b.nack_count + 1) % 256 })

abbrev pub nack_due : ℕ → ℕ → Bucket → Option (ℤ × Receiver) → Option Receiver
nack_due now i b none = none
nack_due now i b (some (delay, r)) = some (
    if ltb_ℤ (pos now) (trigger_time b delay)
    then r
    else if length (build_nack b) == 0
    then r
    else send_nack now i b (build_nack b) r)

unfoldable pub nack_bucket : ℕ → ℕ → Bucket → Receiver → Option Receiver
nack_bucket now i b r =
    if b.fragment_count == b.of_fragment_no + 1
    then some r
    else if leb r.max_nack_retries b.nack_count
    then some r
    else nack_due now i b (calculate_nack_delay_us b r)

-- The loop over the map.
unfoldable pub nack_loop : ℕ → List (ℤ × ℕ) → Receiver → Option Receiver
nack_loop now [] r = some r
nack_loop now ((k, i) ∷ m) r = nack_bucket now i (r.buckets i) r >>= nack_loop now m

unfoldable pub process_nacks : Receiver → Option Receiver
process_nacks r =
    if r.max_nack_retries == 0
    then some r
    else nack_loop (r.clock 0) r.bucket_map (record r { clock = later r.clock })
