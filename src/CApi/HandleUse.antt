-- ===== src/CApi/HandleUse.antt =====
-- What a client of the legacy interface gets from its handles.
use new_efp.Common.{
  ℕ, ◌+◌, ◌%◌, ◌^◌, ◌≤◌, ◌<◌, ◌≡◌, ◌≢◌, refl, ap, ◌∙◌, true, false, List, [], ◌++◌, Option, none,
  some, map, ◌∷◌, ◌==◌, arith, length, drop, drop-append_length, inl, inr, ==_refl,
}
use new_efp.Common.Memory.{Bytes}
use new_efp.Common.Table.{lookup, insert, lookup-insert, lookup-erase}
use new_efp.Wire.{ok, invalid_parameter, max_superframe_size}
use new_efp.Sender.State.{Sender, single}
use new_efp.Sender.Api.{Frame, new_sender}
use new_efp.Sender.SingleSpec.{on_stream, packets}
use new_efp.Sender.Content.{Carries}
use new_efp.Sender.SingleSend.{IsSized, send-SentFrame, too_many}
use new_efp.CApi.Callbacks.{Callback, Call, send_call, call_send}
use new_efp.CApi.Objects.{
  EfpSender, sender_create_with_callback, sender_create, sender_set_callback, call_sends,
  sender_send,
}
use new_efp.CApi.Handles.{Handles, init_send, end_send, end_receive, send_data, receive_fragment}
use new_efp.CApi.HandleLife.{Run}
use new_efp.CApi.HandleSafety.{IsFree, IsOrderly, Run-IsFree, below_next, insert_other}

-- What is left where the handle of a sender was ended.
ended-IsFree :
    (k : ℕ) (c : EfpSender) (h : Handles)
    → IsOrderly h
    → lookup k h.senders ≡ some c
    → ((end_send k h).1.next_handle ≡ h.next_handle) × IsFree k (end_send k h).1
unfolding end_send
ended-IsFree k c h v found =
    rw (found, end_send)
      (
        refl,
        (
          lookup-erase k k h.senders ∙ rw (==_refl k) refl,
          elim (v.apart k) [ inl x ↦ absurd (cc (found, x)) | inr y ↦ y ],
        ),
      )

-- No matter what calls come after it, a sender's handle that was ended is refused: by both calls that
-- end a handle, by the one that sends, and by the one that receives. The tables have been in order when it was ended,
-- and the 64-bit count of handles does not wrap around in between.
pub ended-refused :
    {n : ℕ} (k : ℕ) (c : EfpSender) (h h' : Handles) (f : Frame) (packet : Bytes) (source : ℕ)
    → IsOrderly h
    → lookup k h.senders ≡ some c
    → h.next_handle + n < 2 ^ 64
    → Run n (end_send k h).1 h'
    → ((end_send k h').0 ≡ invalid_parameter)
      × ((end_receive k h').0 ≡ invalid_parameter)
      × (send_data k f h' ≡ some (invalid_parameter, h'))
      × (receive_fragment k packet source h' ≡ some (invalid_parameter, h'))
unfolding end_send end_receive send_data receive_fragment
ended-refused {n} k c h h' f packet source v found small run =
    let (next, ended) = ended-IsFree k c h v found in
    let below = below_next k c v found in
    let free = Run-IsFree k run (omega (arith, next, small)) (omega (arith, next, below)) ended in
    (
      rw (free.0, end_send) refl,
      rw (free.1, end_receive) refl,
      rw (free.0, send_data) refl,
      rw (free.1, receive_fragment) refl,
    )

-- Where memory is there, a new sender's handle is not 0 and stood for nothing; it now stands for a
-- new sender with the MTU in 16 bits and the callback, and every other handle stands for what it
-- stood for. The tables are in order, and the 64-bit count of handles does not wrap around.
pub init_send-IsFree :
    (mtu : ℕ) (callback : Option Callback) (clock : ℕ → ℕ) (h : Handles)
    → IsOrderly h
    → h.next_handle + 1 < 2 ^ 64
    → (k : ℕ) × (h' : Handles) × (init_send true mtu callback clock h ≡ (k, h'))
      × (k ≢ 0)
      × IsFree k h
      × (lookup k h'.senders
          ≡ some (record {
            sender = some (new_sender (mtu % 2 ^ 16) single 0 52_428_800 clock);
            callback = callback;
            mtu = mtu % 2 ^ 16;
            calls = [];
          }))
      × ((j : ℕ)
          → (j == k) ≡ false
          → (lookup j h'.senders ≡ lookup j h.senders) × (h'.receivers ≡ h.receivers))
unfolding init_send sender_create sender_create_with_callback sender_set_callback
init_send-IsFree mtu callback clock h v small = (
  h.next_handle,
  (init_send true mtu callback clock h).1,
  refl,
  λ z. omega (arith, v.positive, z),
  v.free h.next_handle (inr (omega arith)),
  lookup-insert h.next_handle h.next_handle _ h.senders ∙ rw (==_refl h.next_handle) refl,
  λ j e. (insert_other j h.next_handle h.senders _ e, refl),
)

-- What the callback was newly given.
newly : (a b : List (Bytes × ℕ)) (t : Sender) → t.sent ≡ a ++ b → drop (length a) t.sent ≡ b
newly a b t e = ap (drop (length a)) e ∙ drop-append_length a b

-- A C callback is told of each packet once, in order, with the bytes and the stream; a missing one
-- of none.
abbrev pub told : Option Callback → ℕ → List Bytes → List Call
told none stream ps = []
told (some callback) stream ps = map (λ p. send_call callback p stream) ps

call_sends-told :
    (callback : Option Callback) (stream : ℕ) (ps : List Bytes)
    → call_sends callback (on_stream stream ps) ≡ told callback stream ps
unfolding call_sends call_send
call_sends-told none stream [] = refl
call_sends-told none stream (p ∷ ps) = call_sends-told none stream ps
call_sends-told (some callback) stream [] = refl
call_sends-told (some callback) stream (p ∷ ps) =
    ap (◌∷◌ (send_call callback p stream)) (call_sends-told (some callback) stream ps)

-- A call of efp_send_data that gave the packets of a frame to the C callback, and touched no other
-- handle.
abbrev pub SentThrough : ℕ → Frame → Handles → EfpSender → ℕ → Type 0
SentThrough k f h c mtu =
    (h' : Handles) × (c' : EfpSender) × (ps : List Bytes) × (send_data k f h ≡ some (ok, h'))
    × Carries mtu f.content ps
    × (lookup k h'.senders ≡ some c')
    × (c'.calls ≡ c.calls ++ told c.callback f.stream_id ps)
    × ((j : ℕ)
        → (j == k) ≡ false
        → (lookup j h'.senders ≡ lookup j h.senders) × (h'.receivers ≡ h.receivers))

-- A frame sent through a handle whose sender is in single mode: where the frame has bytes and is not
-- too large, the call returns OK, the C callback, where one is set, gets, behind its earlier calls,
-- each of the packets once and in order, with its bytes and the stream; they are of at most the MTU,
-- and their payloads are the bytes of the frame in order. No other handle is touched.
pub send_data-Carries :
    (k : ℕ) (f : Frame) (h : Handles) (c : EfpSender) (s : Sender)
    → lookup k h.senders ≡ some c
    → c.sender ≡ some s
    → s.sub_fragment_mode ≡ single
    → IsSized s
    → f.flags < 256
    → 0 < length f.content
    → length f.content ≤ max_superframe_size
    → too_many f s ≡ false
    → SentThrough k f h c s.mtu
unfolding send_data sender_send
send_data-Carries k f h c s found made mode v byte some_content small few =
    let sent = send-SentFrame f s mode v byte some_content small few in
    let c' : EfpSender = record c {
      sender = some sent.after;
      calls = c.calls ++ call_sends c.callback (drop (length s.sent) sent.after.sent);
    } in
    (
      record h { senders = insert k c' h.senders },
      c',
      packets sent.j,
      rw (found, send_data) (rw (made, sender_send) (rw sent.returns refl)),
      sent.carries,
      lookup-insert k k c' h.senders ∙ rw (==_refl k) refl,
      ap (λ l. c.calls ++ call_sends c.callback l)
            (newly s.sent (on_stream f.stream_id (packets sent.j)) sent.after sent.sent)
          ∙ ap (◌++◌ c.calls) (call_sends-told c.callback f.stream_id (packets sent.j)),
      λ j e. (insert_other j k h.senders c' e, refl),
    )
