-- ===== src/CApi/Handles.antt =====
-- The legacy interface of efp_c_api.cpp: handles, and the two maps of the objects that they stand
-- for. The lock is held from the look-up to the end of a call, so calls follow one another.
use new_efp.Common.{ℕ, ◌%◌, ◌^◌, Bool, List, [], Option, none, some, ◌>>=◌, inc64}
use new_efp.Common.Memory.{Bytes}
use new_efp.Common.Table.{lookup, insert, erase}
use new_efp.Wire.{Result, ok, invalid_parameter}
use new_efp.Sender.Api.{Frame}
use new_efp.CApi.Callbacks.{Callback}
use new_efp.CApi.Objects.{
  EfpSender, EfpReceiver, sender_create, sender_set_callback, sender_send, receiver_create,
  receiver_settings, receiver_set_callback, receiver_set_embedded_callback, receiver_receive,
}

pub record Handles : Type 0 where
  pub next_handle : ℕ
  pub senders : List (ℕ × EfpSender)
  pub receivers : List (ℕ × EfpReceiver)

abbrev pub no_handles : Handles
no_handles = record { next_handle = 1; senders = []; receivers = [] }

abbrev pub add_sender : Option EfpSender → Handles → ℕ × Handles
add_sender none h = (0, h)
add_sender (some c) h = (
  h.next_handle,
  record h { next_handle = inc64 h.next_handle; senders = insert h.next_handle c h.senders },
)

-- `(uint16_t)(aMtu)`. The handle is 0 where the sender was not made.
unfoldable pub init_send : Bool → ℕ → Option Callback → (ℕ → ℕ) → Handles → ℕ × Handles
init_send memory mtu callback clock h =
    add_sender
      (sender_create memory (mtu % 2 ^ 16) clock >>= λ c.
        sender_set_callback callback clock (some c))
      h

abbrev pub add_receiver : Option EfpReceiver → Handles → ℕ × Handles
add_receiver none h = (0, h)
add_receiver (some c) h = (
  h.next_handle,
  record h { next_handle = inc64 h.next_handle; receivers = insert h.next_handle c h.receivers },
)

-- The arguments of efp_init_receive.
pub record ReceiveArguments : Type 0 where
  pub bucket_timeout : ℕ
  pub hol_timeout : ℕ
  pub callback : Option ℕ
  pub embedded_callback : Option ℕ
  pub context : ℕ
  pub mode : ℕ

unfoldable pub init_receive :
    Bool → ReceiveArguments → (ℕ → ℕ) → (ℕ → ℕ → Option Bytes) → Handles → ℕ × Handles
init_receive memory a clock allocations h =
    add_receiver
      (do
        c ←
            receiver_create memory (receiver_settings a.bucket_timeout a.hol_timeout a.mode) clock
              allocations
        receiver_set_embedded_callback a.embedded_callback a.context
            (receiver_set_callback a.callback a.context (some c)))
      h

-- The object is destroyed, and its handle forgotten.
unfoldable pub end_send : ℕ → Handles → Result × Handles
end_send handle h = elim (lookup handle h.senders) [
  | none ↦ (invalid_parameter, h)
  | some c ↦ (ok, record h { senders = erase handle h.senders })
]

unfoldable pub end_receive : ℕ → Handles → Result × Handles
end_receive handle h = elim (lookup handle h.receivers) [
  | none ↦ (invalid_parameter, h)
  | some c ↦ (ok, record h { receivers = erase handle h.receivers })
]

-- The object is changed where it stands.
abbrev pub put_sender : ℕ → Handles → Option (Result × EfpSender) → Option (Result × Handles)
put_sender handle h none = none
put_sender handle h (some (result, c)) =
    some (result, record h { senders = insert handle c h.senders })

unfoldable pub send_data : ℕ → Frame → Handles → Option (Result × Handles)
send_data handle f h = elim (lookup handle h.senders) [
  | none ↦ some (invalid_parameter, h)
  | some c ↦ put_sender handle h (sender_send f c)
]

abbrev pub put_receiver : ℕ → Handles → Option (Result × EfpReceiver) → Option (Result × Handles)
put_receiver handle h none = none
put_receiver handle h (some (result, c)) =
    some (result, record h { receivers = insert handle c h.receivers })

unfoldable pub receive_fragment : ℕ → Bytes → ℕ → Handles → Option (Result × Handles)
receive_fragment handle packet source h = elim (lookup handle h.receivers) [
  | none ↦ some (invalid_parameter, h)
  | some c ↦ put_receiver handle h (receiver_receive packet source c)
]
