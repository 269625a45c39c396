-- ===== src/Examples.antt =====
-- Runs on concrete inputs: a receiver as its constructor makes it, a few packets, and the theorems
-- applied to them.
use new_efp.Common.{
  ℕ, ◌+◌, ◌*◌, ◌≡◌, refl, subst, true, false, [], ◌∷◌, ◌++◌, Option, some, if◌then◌else◌,
  Bool-cases, inl, inr, ◌==◌, ◌↔◌, arith, length,
}
use mathlib.Core.Option.{some-injective}
use new_efp.Common.Int.{pos}
use new_efp.Common.Memory.{Bytes, zeros, length-zeros}
use new_efp.Receiver.State.{
  recalculate_super_frame_no, Receiver, run_to_completion, Bucket, Assembly, SuperFrame,
}
use new_efp.Receiver.Type1.{handle_type1}
use new_efp.Receiver.Type2.{handle_type2}
use new_efp.Receiver.Type3.{handle_type3}
use new_efp.Receiver.Type4.{handle_type4}
use new_efp.Receiver.Delivery.{deliver_frame, process_timeouts, sort_buckets, due_buckets}
use new_efp.Receiver.Api.{Settings, are_accepted, fresh, new_receiver, receive}
use new_efp.Receiver.Invariant.{IsHonest, IsValid, Safe, Holds, BucketIsValid, count_true}
use new_efp.Receiver.Safety.Type1.{handle_type1-Safe}
use new_efp.Receiver.Safety.Type2.{handle_type2-Safe}
use new_efp.Receiver.Safety.Type3.{handle_type3-Safe}
use new_efp.Receiver.Safety.Type4.{handle_type4-Safe}
use new_efp.Receiver.Safety.Delivery.{LeavesIsValid, process_timeouts-LeavesIsValid, sort-due}
use new_efp.Receiver.Safety.Receive.{receive-Safe, new_receiver-IsValid}
use new_efp.Receiver.Unwrap.{Tracks, first-Tracks, recalculate_super_frame_no-Tracks}
use new_efp.Receiver.Complete.{HasAll, deliver_frame-delivered}

-- A clock of one millisecond a reading, and an allocator that never fails.
abbrev ticks : ℕ → ℕ
ticks n = 1000 * n + 1000

abbrev zeroed : ℕ → ℕ → Option Bytes
zeroed k size = some (zeros size)

zeroed-IsHonest : IsHonest zeroed
zeroed-IsHonest k size block e =
    subst (λ b. length b ≡ size) (some-injective _ _ e) (length-zeros size)

abbrev settings : Settings
settings = record {
  timeout_ms = 100;
  hol_timeout_ms = 0;
  max_nack_retries = 3;
  nack_interval_ms = 20;
  mode = run_to_completion;
  buffer_size = 8191;
}

abbrev start : Receiver
start = fresh settings ticks zeroed

start-IsValid : IsValid start
unfolding new_receiver are_accepted
start-IsValid = new_receiver-IsValid settings ticks zeroed start zeroed-IsHonest (omega arith) refl

abbrev packet1 : Bytes
packet1 = 1 ∷ 7 ∷ 5 ∷ 0 ∷ 0 ∷ 0 ∷ 2 ∷ 0 ∷ 10 ∷ 11 ∷ 12 ∷ []

abbrev packet2 : Bytes
packet2 =
    2 ∷ 7 ∷ 1 ∷ 2 ∷ 0 ∷ 5 ∷ 0 ∷ 2 ∷ 0 ∷ 3 ∷ 0 ∷ 232 ∷ 3 ∷ 0 ∷ 0 ∷ 0 ∷ 0 ∷ 0 ∷ 0 ∷ 10 ∷ 0 ∷ 0 ∷ 0
    ∷ 77 ∷ 0 ∷ 0 ∷ 0 ∷ 20 ∷ 21 ∷ []

abbrev packet3 : Bytes
packet3 = 3 ∷ 7 ∷ 5 ∷ 0 ∷ 3 ∷ 0 ∷ 2 ∷ 0 ∷ 15 ∷ 16 ∷ []

abbrev packet4 : Bytes
packet4 = 4 ∷ 1 ∷ packet1

receive-Safe_example : Safe (receive packet2 0 start)
receive-Safe_example = receive-Safe packet2 0 start start-IsValid

handle_type1-Safe_example : Safe (handle_type1 packet1 0 start)
handle_type1-Safe_example = handle_type1-Safe packet1 0 start start-IsValid

handle_type2-Safe_example : Safe (handle_type2 packet2 0 start)
handle_type2-Safe_example = handle_type2-Safe packet2 0 start start-IsValid

handle_type3-Safe_example : Safe (handle_type3 packet3 0 start)
handle_type3-Safe_example = handle_type3-Safe packet3 0 start start-IsValid

handle_type4-Safe_example : Safe (handle_type4 packet4 0 start)
handle_type4-Safe_example = handle_type4-Safe packet4 0 start start-IsValid

-- A bucket of three fragments of three bytes, of which the first has come.
abbrev assembly : Assembly
assembly = record { memory = 10 ∷ 11 ∷ 12 ∷ 0 ∷ 0 ∷ 0 ∷ 0 ∷ 0 ∷ 0 ∷ []; size = 9 }

abbrev bucket : Bucket
bucket = record (start.buckets 0) {
  active = true;
  saved_frame_no = 5;
  timeout_us = 101_000;
  fragment_count = 1;
  of_fragment_no = 2;
  delivery_order = pos 5;
  fragment_size = 3;
  stream_id = 7;
  first_arrival_us = 1000;
  received = λ k. k == 0;
  frame = some assembly;
}

abbrev one_pending : Receiver
one_pending = record start {
  buckets = λ i. if i == 5 then bucket else start.buckets 0;
  bucket_map = (pos 5, 5) ∷ [];
}

bucket-Holds : Holds bucket assembly
unfolding count_true
bucket-Holds = record {
  size_fits = omega arith;
  of_bounded = omega arith;
  inner_fit = omega arith;
  last_fits = λ e. omega arith;
  type2_fits = λ e. omega arith;
  type3_received = λ h. absurd (omega arith);
  type3_inner = λ h. absurd (omega arith);
  counted = refl;
}

one_pending-BucketIsValid : (i : ℕ) → BucketIsValid (one_pending.buckets i)
one_pending-BucketIsValid i = elim (Bool-cases (i == 5)) [
  | inl s ↦ rw s (λ e. (assembly, refl, bucket-Holds))
  | inr s ↦ rw s (λ e. cc e)
]

one_pending-IsValid : IsValid one_pending
one_pending-IsValid = record {
  buckets = one_pending-BucketIsValid;
  honest = zeroed-IsHonest;
  ascending = tt;
  sound = ((refl, refl), tt);
  retries = omega arith;
}

deliver_frame-delivered_example :
    (f : SuperFrame) × (t : Receiver) × (deliver_frame 5 one_pending ≡ some t)
    × (t.delivered ≡ one_pending.delivered ++ (f ∷ []))
    × ((one_pending.buckets 5).frame ≡ some f.assembly)
    × (f.broken ≡ false ↔ HasAll (one_pending.buckets 5))
deliver_frame-delivered_example = deliver_frame-delivered 5 one_pending one_pending-IsValid refl

process_timeouts-LeavesIsValid_example : LeavesIsValid (process_timeouts one_pending)
process_timeouts-LeavesIsValid_example =
    process_timeouts-LeavesIsValid one_pending one_pending-IsValid

sort-due_example :
    sort_buckets one_pending (due_buckets one_pending 200_000 one_pending.bucket_map)
    ≡ due_buckets one_pending 200_000 one_pending.bucket_map
sort-due_example = sort-due one_pending 200_000 one_pending-IsValid

-- A receiver that has seen frame 65530, and gets frame 65540, whose 16 bits are 4.
abbrev near_wrap : Receiver
near_wrap = (recalculate_super_frame_no 65_530 start).1

near_wrap-Tracks : Tracks 65_530 near_wrap
near_wrap-Tracks = first-Tracks 65_530 start (omega arith) refl

recalculate_super_frame_no-Tracks_example :
    ((recalculate_super_frame_no 4 near_wrap).0 ≡ pos 65_540)
    × Tracks 65_540 (recalculate_super_frame_no 4 near_wrap).1
recalculate_super_frame_no-Tracks_example =
    recalculate_super_frame_no-Tracks 65_540 65_530 near_wrap (omega arith) (omega arith)
      near_wrap-Tracks
