-- ===== src/Receiver/Safety/Receive.antt =====
-- `Receiver::receive` and `Receiver::poll` as a whole.
use new_efp.Common.{
  ◌≤◌, zero, suc, ℕ, Option, none, some, ◌≡◌, subst, ◌==◌, ◌>>=◌, length, Bool-cases, inl, inr,
}
use mathlib.Core.Option.{some-injective}
use new_efp.Common.Memory.{Bytes}
use new_efp.Wire.{Result, FrameType, type0, type1, type2, type3, type4, unknown, get_frame_type}
use new_efp.Wire.Headers.{u8_at}
use new_efp.Receiver.State.{Receiver, ReceiverMode, threaded, run_to_completion}
use new_efp.Receiver.Delivery.{process_timeouts}
use new_efp.Receiver.Api.{
  run_timeouts, with_timeouts, Settings, are_accepted, new_receiver, dispatch, handle_type0,
  receive, poll, worker_loop,
}
use new_efp.Receiver.Invariant.{IsHonest, IsValid, Safe, safe}
use new_efp.Receiver.Safety.Type1.{handle_type1-Safe}
use new_efp.Receiver.Safety.Type2.{handle_type2-Safe}
use new_efp.Receiver.Safety.Type3.{handle_type3-Safe}
use new_efp.Receiver.Safety.Type4.{handle_type4-Safe}
use new_efp.Receiver.Safety.Delivery.{LeavesIsValid, process_timeouts-LeavesIsValid}

run_timeouts-LeavesIsValid :
    (mode : ReceiverMode) (r : Receiver) → IsValid r → LeavesIsValid (run_timeouts mode r)
run_timeouts-LeavesIsValid threaded r v = v
run_timeouts-LeavesIsValid run_to_completion r v = process_timeouts-LeavesIsValid r v

returned :
    (result : Result) (o : Option Receiver) → LeavesIsValid o → Safe (o >>= λ r. some (result, r))
returned result none v = absurd v
returned result (some r) v = safe v

with_timeouts-Safe : (o : Option (Result × Receiver)) → Safe o → Safe (with_timeouts o)
with_timeouts-Safe none s = elim s [ ]
with_timeouts-Safe (some (result, r)) (safe v) =
    returned result (run_timeouts r.mode r) (run_timeouts-LeavesIsValid r.mode r v)

dispatch-Safe :
    (t : FrameType) (packet : Bytes) (source : ℕ) (r : Receiver)
    → IsValid r
    → Safe (dispatch t packet source r)
unfolding dispatch handle_type0
dispatch-Safe type0 packet source r v = with_timeouts-Safe _ (safe v)
dispatch-Safe type1 packet source r v = with_timeouts-Safe _ (handle_type1-Safe packet source r v)
dispatch-Safe type2 packet source r v = with_timeouts-Safe _ (handle_type2-Safe packet source r v)
dispatch-Safe type3 packet source r v = with_timeouts-Safe _ (handle_type3-Safe packet source r v)
dispatch-Safe type4 packet source r v = with_timeouts-Safe _ (handle_type4-Safe packet source r v)
dispatch-Safe (unknown n) packet source r v = safe v

-- A valid receiver returns a result for every packet, of any length and content, with no copy
-- outside the memory of a frame and no delivery of a frame that is not there, and it is valid again.
pub receive-Safe :
    (packet : Bytes) (source : ℕ) (r : Receiver) → IsValid r → Safe (receive packet source r)
unfolding receive
receive-Safe packet source r v = elim (Bool-cases (length packet == 0)) [
  | inl e ↦ rw e (safe v)
  | inr e ↦ rw e (dispatch-Safe (get_frame_type (u8_at packet 0)) packet source r v)
]

-- A poll of a valid receiver comes to its end and leaves it valid.
poll-LeavesIsValid : (r : Receiver) → IsValid r → LeavesIsValid (poll r)
unfolding poll
poll-LeavesIsValid r v = run_timeouts-LeavesIsValid r.mode r v

worked :
    (rounds : ℕ) (o : Option Receiver)
    → LeavesIsValid o
    → ((r : Receiver) → IsValid r → LeavesIsValid (worker_loop rounds r))
    → LeavesIsValid (o >>= λ r. worker_loop rounds r)
worked rounds none v next = absurd v
worked rounds (some r) v next = next r v

loop_rounds-LeavesIsValid :
    (rounds : ℕ) (r : Receiver) → IsValid r → LeavesIsValid (worker_loop rounds r)
unfolding worker_loop
loop_rounds-LeavesIsValid zero r v = v
loop_rounds-LeavesIsValid (suc rounds) r v =
    worked rounds (process_timeouts r) (process_timeouts-LeavesIsValid r v)
      (λ t w. loop_rounds-LeavesIsValid rounds t w)

polled : (o : Option Receiver) → LeavesIsValid o → LeavesIsValid (o >>= poll)
polled none v = absurd v
polled (some r) v = poll-LeavesIsValid r v

-- Any number of rounds of the worker thread, and then a poll, come to their end in a valid receiver
-- and leave it valid.
pub worker_loop-LeavesIsValid :
    (rounds : ℕ) (r : Receiver) → IsValid r → LeavesIsValid (worker_loop rounds r >>= poll)
worker_loop-LeavesIsValid rounds r v =
    polled (worker_loop rounds r) (loop_rounds-LeavesIsValid rounds r v)

-- The constructor, where it does not throw, makes a valid receiver out of an allocator that gives
-- blocks of the size asked for, with at most 64 retries of a NACK.
pub new_receiver-IsValid :
    (a : Settings) (clock : ℕ → ℕ) (allocations : ℕ → ℕ → Option Bytes) (r : Receiver)
    → IsHonest allocations
    → a.max_nack_retries ≤ 64
    → new_receiver a clock allocations ≡ some r
    → IsValid r
unfolding new_receiver
new_receiver-IsValid a clock allocations r honest few e = elim (Bool-cases (are_accepted a)) [
  | inl y ↦
      subst IsValid (some-injective _ _ (rw y at e)) (record {
        buckets = λ i x. cc x;
        honest = honest;
        ascending = tt;
        sound = tt;
        retries = few;
      })
  | inr n ↦ cc (rw n at e)
]
