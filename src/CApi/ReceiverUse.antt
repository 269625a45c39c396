-- ===== src/CApi/ReceiverUse.antt =====
-- Receivers behind pointers and handles come to the end of every call.
use new_efp.Common.{
  arith, ℕ, ◌≡◌, refl, ap, sym, subst, ◌∙◌, List, [], ◌∷◌, ◌++◌, Option, none, some, ◌==◌, length,
  drop, Bool, true, false, Bool-cases, Option-cases, inl, inr, All, drop-append_length,
}
use mathlib.Core.Option.{some-injective}
use new_efp.Common.Memory.{Bytes}
use new_efp.Common.Table.{lookup, insert, lookup-insert}
use new_efp.Wire.{Result, invalid_parameter}
use new_efp.Receiver.State.{Receiver, ReceiverMode, threaded, run_to_completion, SuperFrame}
use new_efp.Receiver.Api.{new_receiver, receive, poll}
use new_efp.Receiver.Invariant.{IsValid, IsHonest}
use new_efp.Receiver.Safety.Receive.{new_receiver-IsValid}
use new_efp.Receiver.HandedOver.Fitting.{FrameFits, HandsOver, Serves}
use new_efp.Receiver.HandedOver.Receive.{Answers, receive-Answers, poll-Serves}
use new_efp.CApi.Callbacks.{Call, ReceiverCallbacks, calls_for}
use new_efp.CApi.Wrapper.{call_receive-calls_for}
use new_efp.CApi.Objects.{
  EfpReceiver, call_frames, call_nacks, frames_called, calls_of, receive_with, receiver_receive,
  poll_with, receiver_poll, receiver_create, receiver_settings, receiver_set_callback,
  receiver_set_embedded_callback,
}
use new_efp.CApi.Handles.{
  Handles, ReceiveArguments, add_receiver, init_receive, put_receiver, receive_fragment,
}

call_frames-returns :
    (c : ReceiverCallbacks) (fs : List SuperFrame)
    → All FrameFits fs
    → (calls : List Call) × (call_frames c fs ≡ some calls)
unfolding call_frames
call_frames-returns c [] v = ([], refl)
call_frames-returns c (f ∷ fs) v =
    let (embedded, offset, e) = call_receive-calls_for c f v.0 in
    let (more, g) = call_frames-returns c fs v.1 in
    (calls_for c.callback c f embedded offset ++ more, rw (e, g) refl)

frames_called-returns :
    (mode : ReceiverMode) (c : ReceiverCallbacks) (fs : List SuperFrame)
    → All FrameFits fs
    → (calls : List Call) × (frames_called mode c fs ≡ some calls)
frames_called-returns threaded c fs v = ([], refl)
frames_called-returns run_to_completion c fs v = call_frames-returns c fs v

-- The C callbacks for what a receiver newly hands over come to their end.
calls_of-returns :
    (c : ReceiverCallbacks) (r t : Receiver)
    → HandsOver r t
    → (calls : List Call) × (calls_of c r t ≡ some calls)
calls_of-returns c r t h =
    let new : drop (length r.delivered) t.delivered ≡ h.frames =
      ap (drop (length r.delivered)) h.added ∙ drop-append_length r.delivered h.frames in
    let (calls, e) = frames_called-returns t.mode c h.frames h.fit in
    (call_nacks c (drop (length r.nacks) t.nacks) ++ calls, rw (new, e) refl)

-- The receiver behind a pointer is valid, where there is one.
abbrev pub IsServing : EfpReceiver → Type 0
IsServing c = (r : Receiver) → c.receiver ≡ some r → IsValid r

-- A call that came to its end and left a valid receiver behind the pointer.
abbrev pub LeavesIsServing : Option (Result × EfpReceiver) → Type 0
LeavesIsServing none = ⊥
LeavesIsServing (some (result, c)) = IsServing c

served :
    (packet : Bytes) (source : ℕ) (c : EfpReceiver) (r : Receiver) (o : Option (Result × Receiver))
    → receive packet source r ≡ o
    → Answers r o
    → LeavesIsServing (receive_with packet source c (some r))
served packet source c r none e a = absurd a
served packet source c r (some (result, t)) e (v, h) =
    let (calls, f) = calls_of-returns c.callbacks r t h in
    rw (e, f) (λ u same. subst IsValid (some-injective _ _ same) v)

-- efp_receiver_receive returns a result for every packet.
receiver_receive-LeavesIsServing :
    (packet : Bytes) (source : ℕ) (c : EfpReceiver)
    → IsServing c
    → LeavesIsServing (receiver_receive packet source c)
unfolding receiver_receive
receiver_receive-LeavesIsServing packet source c v = elim (Option-cases c.receiver) [
  | inl e ↦ simp e (λ r same. cc same)
  | inr (r, e) ↦ simp e (
      served packet source c r (receive packet source r) refl
        (receive-Answers packet source r (v r e)))
]

polled :
    (c : EfpReceiver) (r : Receiver) (o : Option Receiver)
    → poll r ≡ o
    → Serves r o
    → (c' : EfpReceiver) × (poll_with c (some r) ≡ some c') × IsServing c'
polled c r none e a = absurd a
polled c r (some t) e (v, h) =
    let (calls, f) = calls_of-returns c.callbacks r t h in
    (
      record c { receiver = some t; calls = c.calls ++ calls },
      rw (e, f) refl,
      λ u same. subst IsValid (some-injective _ _ same) v,
    )

-- efp_receiver_poll comes to its end, with the C callbacks for the frames that it hands over, where
-- the receiver behind the pointer is valid, and leaves a valid one.
pub receiver_poll-IsServing :
    (c : EfpReceiver)
    → IsServing c
    → (c' : EfpReceiver) × (receiver_poll c ≡ some c') × IsServing c'
unfolding receiver_poll
receiver_poll-IsServing c v = elim (Option-cases c.receiver) [
  | inl e ↦ (c, rw e refl, v)
  | inr (r, e) ↦
      let (c', f, w) = polled c r (poll r) refl (poll-Serves r (v r e)) in (c', simp e f, w)
]

-- The receivers behind all handles are valid.
abbrev pub AreServing : Handles → Type 0
AreServing h = (k : ℕ) (c : EfpReceiver) → lookup k h.receivers ≡ some c → IsServing c

put-AreServing :
    (k : ℕ) (h : Handles) (o : Option (Result × EfpReceiver))
    → AreServing h
    → LeavesIsServing o
    → (result : Result) × (h' : Handles) × (put_receiver k h o ≡ some (result, h'))
      × AreServing h'
      × (h'.senders ≡ h.senders)
put-AreServing k h none v s = absurd s
put-AreServing k h (some (result, c)) v s =
    (result, record h { receivers = insert k c h.receivers }, refl, after, refl)
  where
    after : (j : ℕ) (d : EfpReceiver) → lookup j (insert k c h.receivers) ≡ some d → IsServing d
    after j d e = elim (Bool-cases (j == k)) [
      | inl same ↦
          let here : c ≡ d =
            some-injective _ _ (sym (lookup-insert k j c h.receivers ∙ rw same refl) ∙ e) in
          subst IsServing here s
      | inr other ↦ v j d (sym (lookup-insert k j c h.receivers ∙ rw other refl) ∙ e)
    ]

-- Where the receivers behind all handles are valid, efp_receive_fragment returns a result for every
-- handle and packet, with the C callbacks for the frames that it hands over and for their embedded
-- data, and no copy or read outside a buffer; the receivers are valid again and the senders
-- untouched.
pub receive_fragment-AreServing :
    (k : ℕ) (packet : Bytes) (source : ℕ) (h : Handles)
    → AreServing h
    → (result : Result) × (h' : Handles) × (receive_fragment k packet source h ≡ some (result, h'))
      × AreServing h'
      × (h'.senders ≡ h.senders)
unfolding receive_fragment
receive_fragment-AreServing k packet source h v = elim (Option-cases (lookup k h.receivers)) [
  | inl e ↦ (invalid_parameter, h, rw (e, receive_fragment) refl, v, refl)
  | inr (c, e) ↦
      let (result, h', f, w, same) =
        put-AreServing k h (receiver_receive packet source c) v
          (receiver_receive-LeavesIsServing packet source c (v k c e)) in
      (result, h', rw (e, receive_fragment) f, w, same)
]

add_receiver-AreServing :
    (h : Handles) (o : Option EfpReceiver)
    → AreServing h
    → ((c : EfpReceiver) → o ≡ some c → IsServing c)
    → AreServing (add_receiver o h).1
add_receiver-AreServing h none v s = v
add_receiver-AreServing h (some c) v s = put_in_place h.next_handle
  where
    put_in_place :
        (k j : ℕ) (d : EfpReceiver) → lookup j (insert k c h.receivers) ≡ some d → IsServing d
    put_in_place k j d e = elim (Bool-cases (j == k)) [
      | inl same ↦
          let here : c ≡ d =
            some-injective _ _ (sym (lookup-insert k j c h.receivers ∙ rw same refl) ∙ e) in
          subst IsServing here (s c refl)
      | inr other ↦ v j d (sym (lookup-insert k j c h.receivers ∙ rw other refl) ∙ e)
    ]

-- efp_init_receive, with an allocator that gives blocks of the size asked for, leaves the receivers
-- behind all handles valid.
pub init_receive-AreServing :
    (memory : Bool) (a : ReceiveArguments) (clock : ℕ → ℕ) (allocations : ℕ → ℕ → Option Bytes)
    (h : Handles)
    → IsHonest allocations
    → AreServing h
    → AreServing (init_receive memory a clock allocations h).1
unfolding init_receive receiver_create receiver_set_callback receiver_set_embedded_callback
    receiver_settings
init_receive-AreServing false a clock allocations h honest v = v
init_receive-AreServing true a clock allocations h honest v =
    let settings = receiver_settings a.bucket_timeout a.hol_timeout a.mode in
    elim (Option-cases (new_receiver settings clock allocations)) [
      | inl e ↦ rw e v
      | inr (r, e) ↦
          let c : EfpReceiver = record {
            receiver = some r;
            callbacks = record {
              callback = a.callback;
              embedded_callback = a.embedded_callback;
              nack_callback = none;
              context = a.context;
            };
            calls = [];
          } in
          let valid : IsValid r =
            new_receiver-IsValid settings clock allocations r honest (omega arith) e in
          rw e (
            add_receiver-AreServing h (some c) v (λ d same u has.
              let both : some r ≡ some u =
                ap (λ (x : EfpReceiver). x.receiver) (some-injective _ _ same) ∙ has in
              subst IsValid (some-injective _ _ both) valid))
    ]
