-- ===== src/Receiver/State.antt =====
-- The state of the class `Receiver`, and the steps that its handlers share.
use new_efp.Common.{
  ℕ, suc, ◌+◌, ◌-◌, ◌%◌, ◌^◌, Bool, false, List, [], ◌∷◌, Option, ltb, ◌==◌, if◌then◌else◌, inc64,
}
use new_efp.Common.Int.{ℤ, pos, negsuc, ◌+ℤ◌, ◌-ℤ◌, tdiv, ltb_ℤ, eqb_ℤ}
use new_efp.Common.Memory.{Bytes}

pub data ReceiverMode : Type 0 where
  threaded run_to_completion : ReceiverMode

pub record Stream : Type 0 where
  pub payload_type : ℕ
  pub payload_code : ℕ

-- The data of a `SuperFrame` while it is assembled: the allocated bytes, none where the allocation
-- failed, and `mSize`.
pub record Assembly : Type 0 where
  pub memory : Bytes
  pub size : ℕ

-- `received` is the bitset: true at the fragments that have come.
pub record Bucket : Type 0 where
  pub active : Bool
  pub payload_type : ℕ
  pub payload_code : ℕ
  pub saved_frame_no : ℕ
  pub timeout_us : ℕ
  pub fragment_count : ℕ
  pub of_fragment_no : ℕ
  pub delivery_order : ℤ
  pub fragment_size : ℕ
  pub type3_size : ℕ
  pub type2_size : ℕ
  pub pts : ℕ
  pub dts : ℕ
  pub stream_id : ℕ
  pub source_id : ℕ
  pub flags : ℕ
  pub first_arrival_us : ℕ
  pub last_nack_us : ℕ
  pub nack_count : ℕ
  pub received : ℕ → Bool
  pub frame : Option Assembly

-- A frame as the receive callback gets it.
pub record SuperFrame : Type 0 where
  pub assembly : Assembly
  pub payload_type : ℕ
  pub payload_code : ℕ
  pub pts : ℕ
  pub dts : ℕ
  pub stream_id : ℕ
  pub source_id : ℕ
  pub flags : ℕ
  pub super_frame_no : ℕ
  pub broken : Bool

pub record ReceiverStatistics : Type 0 where
  pub fragments_received : ℕ
  pub bundles_received : ℕ
  pub nacks_sent : ℕ
  pub complete_frames : ℕ
  pub broken_frames : ℕ
  pub duplicate_fragments : ℕ

-- `mBucketMap` is a list of orders and bucket numbers, by ascending order. `clock` is what the
-- coming reads of the steady clock give, and `allocations` what the coming calls of the allocator
-- give for a size. `delivered` and `nacks` are what the two callbacks were called with, oldest
-- first; in threaded mode `delivered` is what was put into the delivery queue.
pub record Receiver : Type 0 where
  pub timeout_ms : ℕ
  pub hol_timeout_ms : ℕ
  pub max_nack_retries : ℕ
  pub nack_interval_ms : ℕ
  pub mode : ReceiverMode
  pub buffer_size : ℕ
  pub buckets : ℕ → Bucket
  pub bucket_map : List (ℤ × ℕ)
  pub streams : ℕ → Stream
  pub old_frame_no : ℕ
  pub frame_no_recalc : ℤ
  pub first_frame : Bool
  pub jitter_us : ℤ
  pub last_arrival_us : ℤ
  pub expected_interval_us : ℤ
  pub statistics : ReceiverStatistics
  pub clock : ℕ → ℕ
  pub allocations : ℕ → ℕ → Option Bytes
  pub delivered : List SuperFrame
  pub nacks : List Bytes

-- What the clock and the allocator do after one call.
abbrev pub later {ℓ} : {A : Type ℓ} → (ℕ → A) → ℕ → A
later events n = events (suc n)

abbrev pub abs_ℤ : ℤ → ℤ
abs_ℤ a = if ltb_ℤ a (pos 0) then pos 0 -ℤ a else a

-- The moving averages of the jitter and of the interval between packets.
unfoldable pub update_jitter : ℕ → Receiver → Receiver
update_jitter arrival r =
    if ltb_ℤ (pos 0) r.last_arrival_us
    then (let between = pos arrival -ℤ r.last_arrival_us in
        let deviation = abs_ℤ (between -ℤ r.expected_interval_us) in
        record r {
          jitter_us = r.jitter_us +ℤ tdiv (deviation -ℤ r.jitter_us) 16;
          expected_interval_us =
              r.expected_interval_us +ℤ tdiv (between -ℤ r.expected_interval_us) 16;
          last_arrival_us = pos arrival;
        })
    else record r { last_arrival_us = pos arrival }

-- `auto lNow = nowUs(); updateJitter(lNow);`
unfoldable pub arrive : Receiver → ℕ × Receiver
arrive r = (r.clock 0, update_jitter (r.clock 0) (record r { clock = later r.clock }))

-- `(int16_t)(uint16_t)(a - b)` of two 16-bit numbers.
abbrev pub signed_delta : ℕ → ℕ → ℤ
signed_delta a b =
    let d = (a + 2 ^ 16 - b) % 2 ^ 16 in if ltb d (2 ^ 15) then pos d else negsuc (2 ^ 16 - d - 1)

-- A 16-bit frame number becomes a number that does not wrap around.
unfoldable pub recalculate_super_frame_no : ℕ → Receiver → ℤ × Receiver
recalculate_super_frame_no frame_no r =
    if r.first_frame
    then (
      pos frame_no,
      record r { old_frame_no = frame_no; frame_no_recalc = pos frame_no; first_frame = false },
    )
    else (let order = r.frame_no_recalc +ℤ signed_delta frame_no r.old_frame_no in
        (order, record r { old_frame_no = frame_no; frame_no_recalc = order }))

-- `std::map`: an entry takes the place of one under the same key.
unfoldable pub map_insert : ℤ → ℕ → List (ℤ × ℕ) → List (ℤ × ℕ)
map_insert k v [] = (k, v) ∷ []
map_insert k v ((j, w) ∷ m) =
    let rest = map_insert k v m in
    if ltb_ℤ k j then (k, v) ∷ (j, w) ∷ m else if eqb_ℤ k j then (k, v) ∷ m else (j, w) ∷ rest

unfoldable pub map_erase : ℤ → List (ℤ × ℕ) → List (ℤ × ℕ)
map_erase k [] = []
map_erase k ((j, w) ∷ m) = if eqb_ℤ k j then map_erase k m else (j, w) ∷ map_erase k m

abbrev pub set_bucket : Receiver → ℕ → Bucket → Receiver
set_bucket r i b = record r { buckets = λ j. if j == i then b else r.buckets j }

abbrev pub count_received : Receiver → Receiver
count_received r = record r {
  statistics = record (r.statistics) { fragments_received = inc64 r.statistics.fragments_received };
}

abbrev pub count_duplicate : Receiver → Receiver
count_duplicate r = record r {
  statistics = record (r.statistics) {
    duplicate_fragments = inc64 r.statistics.duplicate_fragments;
  };
}

abbrev pub set_stream : Receiver → ℕ → Stream → Receiver
set_stream r i st = record r { streams = λ j. if j == i then st else r.streams j }
