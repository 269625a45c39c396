-- ===== src/Receiver/HandedOver/Receive.antt =====
-- What `receive` and `poll` hand over, as a whole.
use new_efp.Common.{
  ℕ, ◌≡◌, refl, ap, sym, ◌∙◌, [], ◌++◌, Option, none, some, ◌==◌, ◌>>=◌, length, Bool-cases, inl,
  inr,
}
use mathlib.Core.List.{append-nil}
use new_efp.Common.Memory.{Bytes}
use new_efp.Wire.{Result, FrameType, type0, type1, type2, type3, type4, unknown, get_frame_type}
use new_efp.Wire.Headers.{u8_at}
use new_efp.Receiver.State.{Receiver, ReceiverMode, threaded, run_to_completion}
use new_efp.Receiver.Delivery.{process_timeouts}
use new_efp.Receiver.Api.{run_timeouts, with_timeouts, dispatch, handle_type0, receive, poll}
use new_efp.Receiver.Invariant.{IsValid, Safe, safe}
use new_efp.Receiver.Safety.Nack.{noted_nacks}
use new_efp.Receiver.Safety.Delivery.{due-Lined, sort-due}
use new_efp.Receiver.Safety.Type1.{handle_type1-Safe}
use new_efp.Receiver.Safety.Type2.{handle_type2-Safe}
use new_efp.Receiver.Safety.Type3.{handle_type3-Safe}
use new_efp.Receiver.Safety.Type4.{handle_type4-Safe}
use new_efp.Receiver.HandedOver.{
  IsQuiet, handle_type1-IsQuiet, handle_type2-IsQuiet, handle_type3-IsQuiet,
}
use new_efp.Receiver.HandedOver.Fitting.{
  HandsOver, Serves, handle_type4-IsQuiet, deliver_all-Serves,
}

Serves-of_same :
    (r t : Receiver) (o : Option Receiver) → t.delivered ≡ r.delivered → Serves t o → Serves r o
Serves-of_same r t none e s = s
Serves-of_same r t (some u) e (v, h) =
    (v, record { frames = h.frames; added = h.added ∙ ap (λ l. l ++ h.frames) e; fit = h.fit })

process_timeouts-Serves : (r : Receiver) → IsValid r → Serves r (process_timeouts r)
unfolding process_timeouts
process_timeouts-Serves r v =
    let (s, e, nacked, valid) = noted_nacks r v in
    rw (e, sort-due s (r.clock 0) valid)
      (Serves-of_same r s _ nacked.delivered (
        deliver_all-Serves _ s valid
          (due-Lined s (r.clock 0) s.bucket_map valid.ascending valid.sound)))

nothing_new : (r : Receiver) → HandsOver r r
nothing_new r = record { frames = []; added = sym (append-nil r.delivered); fit = tt }

run_timeouts-Serves :
    (mode : ReceiverMode) (r : Receiver) → IsValid r → Serves r (run_timeouts mode r)
run_timeouts-Serves threaded r v = (v, nothing_new r)
run_timeouts-Serves run_to_completion r v = process_timeouts-Serves r v

-- A poll of a valid receiver comes to its end, leaves it valid, and hands over frames that lie in
-- their memory, behind those handed over before.
pub poll-Serves : (r : Receiver) → IsValid r → Serves r (poll r)
unfolding poll
poll-Serves r v = run_timeouts-Serves r.mode r v

-- The same for a call with a result.
abbrev pub Answers : Receiver → Option (Result × Receiver) → Type 0
Answers r none = ⊥
Answers r (some (result, t)) = IsValid t × HandsOver r t

answered :
    (result : Result) (r : Receiver) (o : Option Receiver)
    → Serves r o
    → Answers r (o >>= λ t. some (result, t))
answered result r none s = s
answered result r (some t) s = s

with_timeouts-Answers :
    (r : Receiver) (o : Option (Result × Receiver))
    → Safe o
    → IsQuiet r o
    → Answers r (with_timeouts o)
with_timeouts-Answers r none s q = elim s [ ]
with_timeouts-Answers r (some (result, t)) (safe v) q =
    answered result r (run_timeouts t.mode t)
      (Serves-of_same r t (run_timeouts t.mode t) q (run_timeouts-Serves t.mode t v))

dispatch-Answers :
    (t : FrameType) (packet : Bytes) (source : ℕ) (r : Receiver)
    → IsValid r
    → Answers r (dispatch t packet source r)
unfolding dispatch handle_type0
dispatch-Answers type0 packet source r v = with_timeouts-Answers r _ (safe v) refl
dispatch-Answers type1 packet source r v =
    with_timeouts-Answers r _ (handle_type1-Safe packet source r v)
      (handle_type1-IsQuiet packet source r)
dispatch-Answers type2 packet source r v =
    with_timeouts-Answers r _ (handle_type2-Safe packet source r v)
      (handle_type2-IsQuiet packet source r)
dispatch-Answers type3 packet source r v =
    with_timeouts-Answers r _ (handle_type3-Safe packet source r v)
      (handle_type3-IsQuiet packet source r)
dispatch-Answers type4 packet source r v =
    with_timeouts-Answers r _ (handle_type4-Safe packet source r v)
      (handle_type4-IsQuiet packet source r)
dispatch-Answers (unknown n) packet source r v = (v, nothing_new r)

-- A call of `receive` on a valid receiver comes to its end, leaves it valid, and hands over frames
-- that lie in their memory, behind those handed over before.
pub receive-Answers :
    (packet : Bytes) (source : ℕ) (r : Receiver) → IsValid r → Answers r (receive packet source r)
unfolding receive
receive-Answers packet source r v = elim (Bool-cases (length packet == 0)) [
  | inl e ↦ rw e (v, nothing_new r)
  | inr e ↦ rw e (dispatch-Answers (get_frame_type (u8_at packet 0)) packet source r v)
]
