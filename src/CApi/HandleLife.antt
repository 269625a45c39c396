-- ===== src/CApi/HandleLife.antt =====
-- What the calls of the legacy interface do to the tables of handles, over any run of calls.
use new_efp.Common.{ℕ, suc, ◌≡◌, ap, subst, Bool, Option, none, some, inc64, Option-cases, inl, inr}
use mathlib.Core.Option.{some-injective}
use new_efp.Common.Memory.{Bytes}
use new_efp.Common.Table.{lookup, insert, erase}
use new_efp.Wire.{Result}
use new_efp.Sender.Api.{Frame}
use new_efp.CApi.Callbacks.{Callback}
use new_efp.CApi.Objects.{EfpSender, EfpReceiver, sender_send, receiver_receive}
use new_efp.CApi.Handles.{
  Handles, add_sender, add_receiver, ReceiveArguments, init_send, init_receive, end_send,
  end_receive, send_data, receive_fragment, put_sender, put_receiver,
}

-- One call: the tables before it and behind it.
pub data Step : Handles → Handles → Type 0 where
  init_send_step :
      (memory : Bool) (mtu : ℕ) (callback : Option Callback) (clock : ℕ → ℕ) (h : Handles)
      → Step h (init_send memory mtu callback clock h).1
  init_receive_step :
      (memory : Bool) (a : ReceiveArguments) (clock : ℕ → ℕ) (allocations : ℕ → ℕ → Option Bytes)
      (h : Handles)
      → Step h (init_receive memory a clock allocations h).1
  end_send_step : (handle : ℕ) (h : Handles) → Step h (end_send handle h).1
  end_receive_step : (handle : ℕ) (h : Handles) → Step h (end_receive handle h).1
  send_data_step :
      (handle : ℕ) (f : Frame) (result : Result) (h h' : Handles)
      → send_data handle f h ≡ some (result, h')
      → Step h h'
  receive_fragment_step :
      (handle : ℕ) (packet : Bytes) (source : ℕ) (result : Result) (h h' : Handles)
      → receive_fragment handle packet source h ≡ some (result, h')
      → Step h h'

-- A run of `n` calls.
pub data Run : ℕ → Handles → Handles → Type 0 where
  done : {h : Handles} → Run 0 h h
  call : {n : ℕ} {h t u : Handles} → Step h t → Run n t u → Run (suc n) h u

-- What a call can do to the tables.
pub data Effect (h : Handles) : Handles → Type 0 where
  unchanged : Effect h h
  sender_made :
      (c : EfpSender)
      → Effect h (record h {
        next_handle = inc64 h.next_handle;
        senders = insert h.next_handle c h.senders;
      })
  receiver_made :
      (c : EfpReceiver)
      → Effect h (record h {
        next_handle = inc64 h.next_handle;
        receivers = insert h.next_handle c h.receivers;
      })
  sender_written :
      (k : ℕ) (old c : EfpSender)
      → lookup k h.senders ≡ some old
      → Effect h (record h { senders = insert k c h.senders })
  receiver_written :
      (k : ℕ) (old c : EfpReceiver)
      → lookup k h.receivers ≡ some old
      → Effect h (record h { receivers = insert k c h.receivers })
  sender_ended :
      (k : ℕ) (old : EfpSender)
      → lookup k h.senders ≡ some old
      → Effect h (record h { senders = erase k h.senders })
  receiver_ended :
      (k : ℕ) (old : EfpReceiver)
      → lookup k h.receivers ≡ some old
      → Effect h (record h { receivers = erase k h.receivers })

add_sender-Effect : (o : Option EfpSender) (h : Handles) → Effect h (add_sender o h).1
add_sender-Effect none h = unchanged
add_sender-Effect (some c) h = sender_made c

add_receiver-Effect : (o : Option EfpReceiver) (h : Handles) → Effect h (add_receiver o h).1
add_receiver-Effect none h = unchanged
add_receiver-Effect (some c) h = receiver_made c

end_send-Effect : (handle : ℕ) (h : Handles) → Effect h (end_send handle h).1
unfolding end_send
end_send-Effect handle h = elim (Option-cases (lookup handle h.senders)) [
  | inl e ↦ rw (e, end_send) unchanged
  | inr (c, e) ↦ rw (e, end_send) (sender_ended handle c e)
]

end_receive-Effect : (handle : ℕ) (h : Handles) → Effect h (end_receive handle h).1
unfolding end_receive
end_receive-Effect handle h = elim (Option-cases (lookup handle h.receivers)) [
  | inl e ↦ rw (e, end_receive) unchanged
  | inr (c, e) ↦ rw (e, end_receive) (receiver_ended handle c e)
]

sent-Effect :
    (handle : ℕ) (old : EfpSender) (h h' : Handles) (result : Result)
    (o : Option (Result × EfpSender))
    → lookup handle h.senders ≡ some old
    → put_sender handle h o ≡ some (result, h')
    → Effect h h'
sent-Effect handle old h h' result none found e = absurd (cc e)
sent-Effect handle old h h' result (some (r, c)) found e =
    subst (Effect h) (ap (λ p. p.1) (some-injective _ _ e)) (sender_written handle old c found)

received-Effect :
    (handle : ℕ) (old : EfpReceiver) (h h' : Handles) (result : Result)
    (o : Option (Result × EfpReceiver))
    → lookup handle h.receivers ≡ some old
    → put_receiver handle h o ≡ some (result, h')
    → Effect h h'
received-Effect handle old h h' result none found e = absurd (cc e)
received-Effect handle old h h' result (some (r, c)) found e =
    subst (Effect h) (ap (λ p. p.1) (some-injective _ _ e)) (receiver_written handle old c found)

pub Step-Effect : {h h' : Handles} → Step h h' → Effect h h'
unfolding init_send init_receive send_data receive_fragment
Step-Effect (init_send_step memory mtu callback clock h) = add_sender-Effect _ h
Step-Effect (init_receive_step memory a clock allocations h) = add_receiver-Effect _ h
Step-Effect (end_send_step handle h) = end_send-Effect handle h
Step-Effect (end_receive_step handle h) = end_receive-Effect handle h
Step-Effect (send_data_step handle f result h h' e) =
    elim (Option-cases (lookup handle h.senders)) [
      | inl x ↦
          subst (Effect h) (ap (λ p. p.1) (some-injective _ _ (rw (x, send_data) at e))) unchanged
      | inr (c, x) ↦ sent-Effect handle c h h' result (sender_send f c) x (rw (x, send_data) at e)
    ]
Step-Effect (receive_fragment_step handle packet source result h h' e) =
    elim (Option-cases (lookup handle h.receivers)) [
      | inl x ↦
          subst (Effect h) (ap (λ p. p.1) (some-injective _ _ (rw (x, receive_fragment) at e)))
            unchanged
      | inr (c, x) ↦
          received-Effect handle c h h' result (receiver_receive packet source c) x
            (rw (x, receive_fragment) at e)
    ]
