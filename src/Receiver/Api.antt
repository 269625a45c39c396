-- ===== src/Receiver/Api.antt =====
-- The entry points of `Receiver`.
use new_efp.Common.{
  ℕ, zero, suc, ◌-◌, ◌*◌, ◌%◌, ◌^◌, Bool, true, false, not, [], ltb, leb, ◌&&◌, Option, none, some,
  ◌==◌, if◌then◌else◌, ◌>>=◌, length,
}
use new_efp.Common.Memory.{Bytes}
use new_efp.Wire.{
  Result, ok, invalid_parameter, FrameType, type0, type1, type2, type3, type4, unknown,
  get_frame_type, uint32_max, uint64_max,
}
use new_efp.Wire.Headers.{u8_at}
use new_efp.Common.Int.{pos}
use new_efp.Receiver.State.{Bucket, Receiver, ReceiverMode, threaded, run_to_completion}
use new_efp.Receiver.Type1.{handle_type1}
use new_efp.Receiver.Type2.{handle_type2}
use new_efp.Receiver.Type3.{handle_type3}
use new_efp.Receiver.Type4.{handle_type4}
use new_efp.Receiver.Delivery.{process_timeouts}

abbrev new_bucket : Bucket
new_bucket = record {
  active = false;
  payload_type = 0;
  payload_code = uint32_max;
  saved_frame_no = 0;
  timeout_us = 0;
  fragment_count = 0;
  of_fragment_no = 0;
  delivery_order = pos (2 ^ 63 - 1);
  fragment_size = 0;
  type3_size = 0;
  type2_size = 0;
  pts = uint64_max;
  dts = uint64_max;
  stream_id = 0;
  source_id = 0;
  flags = 0;
  first_arrival_us = 0;
  last_nack_us = 0;
  nack_count = 0;
  received = λ k. false;
  frame = none;
}

-- The arguments of the constructor.
pub record Settings : Type 0 where
  pub timeout_ms : ℕ
  pub hol_timeout_ms : ℕ
  pub max_nack_retries : ℕ
  pub nack_interval_ms : ℕ
  pub mode : ReceiverMode
  pub buffer_size : ℕ

-- The checks of the constructor. The product is one of 32-bit numbers.
unfoldable pub are_accepted : Settings → Bool
are_accepted a =
    not (ltb 0 a.hol_timeout_ms && leb a.timeout_ms a.hol_timeout_ms)
    && not (
        ltb 0 a.max_nack_retries
        && ltb 0 a.nack_interval_ms
        && leb a.timeout_ms (a.nack_interval_ms * a.max_nack_retries % 2 ^ 32))

-- A receiver with what the clock and the allocator are going to give.
abbrev pub fresh : Settings → (ℕ → ℕ) → (ℕ → ℕ → Option Bytes) → Receiver
fresh a clock allocations = record {
  timeout_ms = a.timeout_ms;
  hol_timeout_ms = a.hol_timeout_ms;
  max_nack_retries = a.max_nack_retries;
  nack_interval_ms = a.nack_interval_ms;
  mode = a.mode;
  buffer_size = a.buffer_size;
  buckets = λ i. new_bucket;
  bucket_map = [];
  streams = λ i. record { payload_type = 0; payload_code = uint32_max };
  old_frame_no = 0;
  frame_no_recalc = pos 0;
  first_frame = true;
  jitter_us = pos 10_000;
  last_arrival_us = pos 0;
  expected_interval_us = pos 0;
  statistics = record {
    fragments_received = 0;
    bundles_received = 0;
    nacks_sent = 0;
    complete_frames = 0;
    broken_frames = 0;
    duplicate_fragments = 0;
  };
  clock = clock;
  allocations = allocations;
  delivered = [];
  nacks = [];
}

-- The constructor. `none` is the exception that it throws.
unfoldable pub new_receiver : Settings → (ℕ → ℕ) → (ℕ → ℕ → Option Bytes) → Option Receiver
new_receiver a clock allocations = if are_accepted a then some (fresh a clock allocations) else none

-- The lock and the call of `processTimeouts`, in the mode without threads.
abbrev pub run_timeouts : ReceiverMode → Receiver → Option Receiver
run_timeouts threaded r = some r
run_timeouts run_to_completion r = process_timeouts r

abbrev pub with_timeouts : Option (Result × Receiver) → Option (Result × Receiver)
with_timeouts none = none
with_timeouts (some (result, r)) = run_timeouts r.mode r >>= λ r'. some (result, r')

-- `handleType0` passes every signaling frame by.
unfoldable pub handle_type0 : Bytes → ℕ → Receiver → Option (Result × Receiver)
handle_type0 packet source r = some (ok, r)

-- A frame type with no name returns at once, without a look at the timeouts.
unfoldable pub dispatch : FrameType → Bytes → ℕ → Receiver → Option (Result × Receiver)
unfolding handle_type0
dispatch type0 packet source r = with_timeouts (handle_type0 packet source r)
dispatch type1 packet source r = with_timeouts (handle_type1 packet source r)
dispatch type2 packet source r = with_timeouts (handle_type2 packet source r)
dispatch type3 packet source r = with_timeouts (handle_type3 packet source r)
dispatch type4 packet source r = with_timeouts (handle_type4 packet source r)
dispatch (unknown n) packet source r = some (invalid_parameter, r)

unfoldable pub receive : Bytes → ℕ → Receiver → Option (Result × Receiver)
receive packet source r =
    if length packet == 0
    then some (invalid_parameter, r)
    else dispatch (get_frame_type (u8_at packet 0)) packet source r

unfoldable pub poll : Receiver → Option Receiver
poll r = run_timeouts r.mode r

unfoldable pub pending_count : Receiver → ℕ
pending_count r = length r.bucket_map

-- `workerLoop`, for as many rounds as it runs before it is stopped.
unfoldable pub worker_loop : ℕ → Receiver → Option Receiver
worker_loop zero r = some r
worker_loop (suc rounds) r = process_timeouts r >>= λ r'. worker_loop rounds r'
