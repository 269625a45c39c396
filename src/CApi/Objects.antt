-- ===== src/CApi/Objects.antt =====
-- `efp_sender_s` and `efp_receiver_s` of efp_c_api.cpp, and the calls on a pointer to one. A null
-- pointer is `none`. `memory` says whether the allocations of a create succeed. The outer `none` is
-- a run that the language leaves undefined.
use new_efp.Common.{
  ℕ, ◌*◌, Bool, List, [], ◌∷◌, ◌++◌, Option, none, some, ◌==◌, ◌>>=◌, if◌then◌else◌, length, drop,
}
use new_efp.Common.Memory.{Bytes}
use new_efp.Wire.{Result, invalid_parameter}
use new_efp.Sender.State.{Sender, single}
use new_efp.Sender.Api.{Frame, new_sender, send}
use new_efp.Receiver.State.{Receiver, ReceiverMode, threaded, run_to_completion, SuperFrame}
use new_efp.Receiver.Api.{Settings, new_receiver, receive, poll}
use new_efp.Receiver.Threads.{Delivery, stop_running}
use new_efp.Statistics.{version}
use new_efp.CApi.Callbacks.{Callback, Call, call_send, ReceiverCallbacks, call_receive, call_nack}

-- `calls` is what the C callback was called with, oldest first.
pub record EfpSender : Type 0 where
  pub sender : Option Sender
  pub callback : Option Callback
  pub mtu : ℕ
  pub calls : List Call

-- In threaded mode the frames that a receiver has put into its delivery queue are not among the
-- calls: the delivery thread makes those.
pub record EfpReceiver : Type 0 where
  pub receiver : Option Receiver
  pub callbacks : ReceiverCallbacks
  pub calls : List Call

abbrev c_sender : ℕ → (ℕ → ℕ) → Sender
c_sender mtu clock = new_sender mtu single 0 (50 * 1024 * 1024) clock

unfoldable pub sender_create_with_callback : Bool → ℕ → Option Callback → (ℕ → ℕ) → Option EfpSender
sender_create_with_callback memory mtu callback clock =
    if memory
    then some
        (record { sender = some (c_sender mtu clock); callback = callback; mtu = mtu; calls = [] })
    else none

unfoldable pub sender_create : Bool → ℕ → (ℕ → ℕ) → Option EfpSender
sender_create memory mtu clock = sender_create_with_callback memory mtu none clock

-- A new `Sender` takes the place of the one with the old callback.
unfoldable pub sender_set_callback : Option Callback → (ℕ → ℕ) → Option EfpSender → Option EfpSender
sender_set_callback callback clock none = none
sender_set_callback callback clock (some c) =
    some (record c { sender = some (c_sender c.mtu clock); callback = callback })

-- The calls of the C callback for what a `Sender` gave to its own.
unfoldable pub call_sends : Option Callback → List (Bytes × ℕ) → List Call
call_sends callback [] = []
call_sends callback (packet ∷ packets) = call_send callback packet ++ call_sends callback packets

-- What the callback was given from one state of a sender to a later one.
abbrev pub newly_sent : Sender → Sender → List (Bytes × ℕ)
newly_sent before after = drop (length before.sent) after.sent

abbrev pub send_with : Frame → EfpSender → Option Sender → Option (Result × EfpSender)
send_with f c none = some (invalid_parameter, c)
send_with f c (some s) = do
  (result, s') ← send f s
  some (
    result,
    record c { sender = some s'; calls = c.calls ++ call_sends c.callback (newly_sent s s') },
  )

unfoldable pub sender_send : Frame → EfpSender → Option (Result × EfpSender)
sender_send f c = send_with f c c.sender

-- EFP_MODE_RUN_TO_COMPLETION is 2; every other number is the threaded mode.
abbrev pub receiver_mode : ℕ → ReceiverMode
receiver_mode mode = if mode == 2 then run_to_completion else threaded

unfoldable pub receiver_settings : ℕ → ℕ → ℕ → Settings
receiver_settings timeout_ms hol_timeout_ms mode = record {
  timeout_ms = timeout_ms;
  hol_timeout_ms = hol_timeout_ms;
  max_nack_retries = 3;
  nack_interval_ms = 0;
  mode = receiver_mode mode;
  buffer_size = 8191;
}

-- The constructor's exception is caught, and gives a null pointer too.
unfoldable pub receiver_create :
    Bool → Settings → (ℕ → ℕ) → (ℕ → ℕ → Option Bytes) → Option EfpReceiver
receiver_create memory settings clock allocations =
    if memory
    then (do
      r ← new_receiver settings clock allocations
      some (record {
        receiver = some r;
        callbacks = record {
          callback = none;
          embedded_callback = none;
          nack_callback = none;
          context = 0;
        };
        calls = [];
      }))
    else none

unfoldable pub receiver_set_callback : Option ℕ → ℕ → Option EfpReceiver → Option EfpReceiver
receiver_set_callback callback context none = none
receiver_set_callback callback context (some c) =
    some (record c { callbacks = record (c.callbacks) { callback = callback; context = context } })

-- The context given here is not kept: the receive callback's is used for both.
unfoldable pub receiver_set_embedded_callback :
    Option ℕ → ℕ → Option EfpReceiver → Option EfpReceiver
receiver_set_embedded_callback callback context none = none
receiver_set_embedded_callback callback context (some c) =
    some (record c { callbacks = record (c.callbacks) { embedded_callback = callback } })

unfoldable pub call_frames : ReceiverCallbacks → List SuperFrame → Option (List Call)
call_frames c [] = some []
call_frames c (f ∷ fs) = do calls ← call_receive c f; more ← call_frames c fs; some (calls ++ more)

unfoldable pub call_nacks : ReceiverCallbacks → List Bytes → List Call
call_nacks c [] = []
call_nacks c (packet ∷ packets) = call_nack c packet ++ call_nacks c packets

-- The frames that were handed over are given to the callback at once in the mode without threads.
abbrev pub frames_called : ReceiverMode → ReceiverCallbacks → List SuperFrame → Option (List Call)
frames_called threaded c frames = some []
frames_called run_to_completion c frames = call_frames c frames

-- From one state of a receiver to a later one: NACKs are sent before frames are handed over.
abbrev pub calls_of : ReceiverCallbacks → Receiver → Receiver → Option (List Call)
calls_of c before after = do
  frames ← frames_called after.mode c (drop (length before.delivered) after.delivered)
  some (call_nacks c (drop (length before.nacks) after.nacks) ++ frames)

abbrev pub receive_with : Bytes → ℕ → EfpReceiver → Option Receiver → Option (Result × EfpReceiver)
receive_with packet source c none = some (invalid_parameter, c)
receive_with packet source c (some r) = do
  (result, r') ← receive packet source r
  calls ← calls_of c.callbacks r r'
  some (result, record c { receiver = some r'; calls = c.calls ++ calls })

unfoldable pub receiver_receive : Bytes → ℕ → EfpReceiver → Option (Result × EfpReceiver)
receiver_receive packet source c = receive_with packet source c c.receiver

abbrev pub poll_with : EfpReceiver → Option Receiver → Option EfpReceiver
poll_with c none = some c
poll_with c (some r) = do
  r' ← poll r
  calls ← calls_of c.callbacks r r'
  some (record c { receiver = some r'; calls = c.calls ++ calls })

unfoldable pub receiver_poll : EfpReceiver → Option EfpReceiver
receiver_poll c = poll_with c c.receiver

unfoldable pub receiver_create_with_callback :
    Bool → Settings → ℕ → Option ℕ → (ℕ → ℕ) → (ℕ → ℕ → Option Bytes) → Option EfpReceiver
receiver_create_with_callback memory settings context callback clock allocations =
    receiver_set_callback callback context (receiver_create memory settings clock allocations)

-- The number is not kept.
unfoldable pub sender_set_superframe_no : ℕ → Option EfpSender → Option EfpSender
sender_set_superframe_no superframe_no c = c

-- `delete`: no object is left behind the pointer.
unfoldable pub sender_destroy : Option EfpSender → Option EfpSender
sender_destroy c = none

abbrev pub stop_with : Option Receiver → Delivery → Delivery
stop_with none d = d
stop_with (some r) d = stop_running d

-- The receiver behind a pointer is stopped, with the state of its delivery thread.
unfoldable pub receiver_stop : Option EfpReceiver → Delivery → Delivery
receiver_stop none d = d
receiver_stop (some c) d = stop_with c.receiver d

-- The receiver is stopped, and then no object is left behind the pointer.
unfoldable pub receiver_destroy : Option EfpReceiver → Delivery → Option EfpReceiver × Delivery
receiver_destroy c d = (none, receiver_stop c d)

unfoldable pub c_version : ℕ
c_version = version
