-- ===== src/TransferExamples.antt =====
-- A frame of 600 bytes on its way from a sender to a receiver with threads, its packets shuffled.
use new_efp.Common.{
  ℕ, ◌+◌, ◌*◌, ◌<◌, ◌≤◌, false, inr, ◌≡◌, refl, subst, true, List, [], ◌∷◌, ◌++◌, map, Option, some,
  arith, length, get_or,
}
use mathlib.Core.Option.{some-injective}
use new_efp.Common.Table.{member}
use new_efp.Common.Memory.{Bytes, zeros, length-zeros}
use new_efp.Wire.{ok}
use new_efp.Sender.State.{Sender, single}
use new_efp.Sender.Fragments.{Job}
use new_efp.Sender.Api.{Frame, new_sender, send}
use new_efp.Sender.Plan.{plan}
use new_efp.Sender.SingleSpec.{on_stream}
use new_efp.Sender.SingleSend.{new_sender-IsSized}
use new_efp.Receiver.State.{Receiver, SuperFrame, threaded, recalculate_super_frame_no}
use new_efp.Receiver.Api.{Settings, are_accepted, fresh, new_receiver}
use new_efp.Receiver.Delivery.{process_timeouts}
use new_efp.Receiver.Invariant.{IsHonest, IsValid}
use new_efp.Receiver.Safety.Receive.{new_receiver-IsValid}
use new_efp.Transfer.Opening.{IsReady}
use new_efp.Transfer.Whole.{receive_all}
use new_efp.Transfer.Delivered.{HandedOn}
use new_efp.Transfer.Packets.{IsSendable}
use new_efp.Transfer.Datagrams.{Datagram, lone, many, datagram, all_numbers, datagrams-IsFrame}
use new_efp.Transfer.EndToEnd.{IsReceived, send-IsReceived}

abbrev ticks : ℕ → ℕ
ticks n = 1000 * n + 1000

abbrev zeroed : ℕ → ℕ → Option Bytes
zeroed k size = some (zeros size)

abbrev settings : Settings
settings = record {
  timeout_ms = 100;
  hol_timeout_ms = 0;
  max_nack_retries = 0;
  nack_interval_ms = 0;
  mode = threaded;
  buffer_size = 8191;
}

abbrev receiver : Receiver
receiver = fresh settings ticks zeroed

abbrev sender : Sender
sender = new_sender 256 single 500 10_000 ticks

abbrev frame : Frame
frame = record {
  content = zeros 600;
  payload_type = 1;
  pts = 1000;
  dts = 990;
  payload_code = 77;
  stream_id = 7;
  flags = 0;
}

-- The second packet is late, and the last one comes twice.
abbrev shuffled : List ℕ
shuffled = 2 ∷ 0 ∷ 2 ∷ 1 ∷ []

zeroed-IsHonest : IsHonest zeroed
zeroed-IsHonest k size block e =
    subst (λ b. length b ≡ size) (some-injective _ _ e) (length-zeros size)

receiver-IsValid : IsValid receiver
unfolding new_receiver are_accepted
receiver-IsValid =
    new_receiver-IsValid settings ticks zeroed receiver zeroed-IsHonest (omega arith) refl

receiver-IsReady : IsReady 0 receiver
unfolding recalculate_super_frame_no
receiver-IsReady = record {
  mode = refl;
  idle = refl;
  unseen = refl;
  honest = zeroed-IsHonest;
  supplied = λ size. (zeros size, refl);
}

each_comes : (k : ℕ) → k < 3 → member k shuffled ≡ true
unfolding member
each_comes k h = ground arith

send-IsReceived_example :
    (after : Sender) × (ps : List Bytes) × (t : Receiver) × (u : Receiver) × (g : SuperFrame)
    × (before : List SuperFrame) × (behind : List SuperFrame) × (send frame sender
        ≡ some (ok, after))
    × (after.sent ≡ [] ++ on_stream 7 ps)
    × (length ps ≡ 3)
    × (receive_all (map (λ k. get_or ps k []) shuffled) 5 receiver ≡ some t)
    × (process_timeouts t ≡ some u)
    × (u.delivered ≡ t.delivered ++ (before ++ (g ∷ behind)))
    × IsReceived frame 0 5 g
unfolding zeros new_sender plan
send-IsReceived_example =
    send-IsReceived frame sender 5 receiver shuffled refl
      (new_sender-IsSized 256 single 500 10_000 ticks) (omega arith) (omega arith) (omega arith)
      (omega arith) (omega arith) refl receiver-IsValid receiver-IsReady (omega arith) each_comes

-- 24 bytes in two Type1 packets of 10 bytes, and a Type2 packet.
abbrev small_job : Job
small_job = record {
  content = zeros 24;
  payload_type = 1;
  pts = 1000;
  dts_pts_diff = 10;
  payload_code = 77;
  stream_id = 7;
  flags = 0;
  type1_payload_size = 10;
  super_frame_no = 0;
  of_fragment_no = 2;
  cut = record {
    total_fragments = 3;
    num_type1_fragments = 2;
    needs_type3 = false;
    type3_data_size = 0;
    type2_data_size = 4;
  };
}

small_job-IsSendable : IsSendable small_job
unfolding zeros
small_job-IsSendable = record {
  covers = refl;
  counted = refl;
  type2_filled = omega arith;
  type2_short = λ h. omega arith;
  positive = λ h. omega arith;
  timed = inr (omega arith);
  type3_short = omega arith;
  type3_filled = λ h. cc h;
  type3_absent = λ h. refl;
  few = omega arith;
  padded = omega arith;
  whole = omega arith;
  type1_payload_size = omega arith;
  type2_data_size = omega arith;
  flags = omega arith;
  stream_id = omega arith;
  payload_type = omega arith;
  super_frame_no = omega arith;
  pts = omega arith;
  dts_pts_diff = omega arith;
  payload_code = omega arith;
}

-- Both Type1 packets come in a bundle, the second one twice in it, and the first one again behind
-- the Type2 packet.
abbrev datagrams : List Datagram
datagrams = many 1 (0 ∷ 1 ∷ []) ∷ lone 2 ∷ lone 0 ∷ []

each_number_comes : (k : ℕ) → k ≤ 2 → member k (all_numbers datagrams) ≡ true
unfolding member all_numbers
each_number_comes k h = ground arith

datagrams-IsFrame_example :
    (t : Receiver) × (u : Receiver) × (receive_all (map (datagram small_job) datagrams) 5 receiver
      ≡ some t)
    × (process_timeouts t ≡ some u)
    × HandedOn small_job 5 t u
datagrams-IsFrame_example =
    datagrams-IsFrame small_job small_job-IsSendable 5 datagrams receiver receiver-IsValid
      receiver-IsReady
      (
        (omega arith, (omega arith, (omega arith, (omega arith, tt)))),
        (omega arith, (omega arith, tt)),
      )
      each_number_comes
