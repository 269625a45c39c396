-- ===== src/CApi/Callbacks.antt =====
-- The callable wrappers of efp_c_api.cpp: what the C callbacks are called with. `none` is a read
-- outside a frame's memory, or a loop that its fuel does not let come to its end.
use new_efp.Common.{
  ℕ, zero, suc, ◌+◌, ◌-◌, ◌%◌, ◌^◌, bit_and, Bool, not, List, [], ◌∷◌, ◌++◌, Option, none, some,
  leb, ◌==◌, ◌&&◌, if◌then◌else◌, ◌>>=◌, map,
}
use new_efp.Common.Memory.{Bytes, read_at}
use new_efp.Wire.{inline_payload}
use new_efp.Wire.Headers.{u8_at, u16_at}
use new_efp.Receiver.State.{SuperFrame}
use new_efp.CApi.Embedded.{sizeof_embedded}

-- A function of the C program, and the context it is called with, each by a number.
pub record Callback : Type 0 where
  pub function : ℕ
  pub context : ℕ

-- A call of the embedded callback.
pub record EmbeddedCall : Type 0 where
  pub content : Bytes
  pub type : ℕ
  pub pts : ℕ

-- A call of the receive callback: the frame, and the payload in it by its offset and size, which is
-- a difference of `size_t`.
pub record FrameCall : Type 0 where
  pub frame : SuperFrame
  pub offset : ℕ
  pub size : ℕ

pub data Call : Type 0 where
  send_call : Callback → Bytes → ℕ → Call
  embedded_call : Callback → EmbeddedCall → Call
  receive_call : Callback → FrameCall → Call

-- The wrapper of the send callback.
unfoldable pub call_send : Option Callback → Bytes × ℕ → List Call
call_send none packet = []
call_send (some callback) (packet, stream) = send_call callback packet stream ∷ []

-- The embedded callback is called where the embedded data end inside the frame.
unfoldable pub embedded_calls : SuperFrame → ℕ → ℕ → ℕ → Option (List EmbeddedCall)
embedded_calls f offset type size =
    if leb (offset + sizeof_embedded + size) f.assembly.size
    then (do
      content ← read_at f.assembly.memory (offset + sizeof_embedded) size
      some (record { content = content; type = bit_and type 0x7F; pts = f.pts } ∷ []))
    else some []

-- One round of the loop over the embedded data, from its header on.
pub data Round : Type 0 where
  ended : Round
  last : List EmbeddedCall → ℕ → Round
  next : List EmbeddedCall → ℕ → Round

unfoldable pub parse_header : SuperFrame → ℕ → Bytes → Option Round
parse_header f offset header =
    let type = u8_at header 0 in
    let size = u16_at header 1 in
    if type == 0 then some ended else (do
      calls ← embedded_calls f offset type size
      some (
          if bit_and type 0x80 == 0
          then next calls (offset + sizeof_embedded + size)
          else last calls (offset + sizeof_embedded + size)))

unfoldable pub parse_round : SuperFrame → ℕ → Option Round
parse_round f offset =
    if leb (offset + sizeof_embedded) f.assembly.size
    then (read_at f.assembly.memory offset sizeof_embedded >>= λ header.
        parse_header f offset header)
    else some ended

-- What comes of a round: `rest` is the loop from an offset on.
abbrev pub parse_on : Round → (ℕ → Option (List EmbeddedCall × ℕ)) → Option (List EmbeddedCall × ℕ)
parse_on ended rest = some ([], 0)
parse_on (last calls offset) rest = some (calls, offset)
parse_on (next calls offset) rest = do (more, payload) ← rest offset; some (calls ++ more, payload)

-- The loop: its calls, and the offset of the payload, which is 0 where no header is the last.
unfoldable pub parse_embedded : ℕ → SuperFrame → ℕ → Option (List EmbeddedCall × ℕ)
parse_embedded zero f offset = none
parse_embedded (suc fuel) f offset =
    parse_round f offset >>= λ round. parse_on round (λ o. parse_embedded fuel f o)

-- Each round passes a header of three bytes, so the frame's size is fuel enough.
unfoldable pub parse_frame : SuperFrame → Option (List EmbeddedCall × ℕ)
parse_frame f = parse_embedded (suc f.assembly.size) f 0

-- The callbacks of `efp_receiver_s`, which share one context.
pub record ReceiverCallbacks : Type 0 where
  pub callback : Option ℕ
  pub embedded_callback : Option ℕ
  pub nack_callback : Option ℕ
  pub context : ℕ

abbrev pub has_embedded : SuperFrame → Bool
has_embedded f = not (bit_and f.flags inline_payload == 0) && not f.broken

-- The embedded data of a frame, for a callback that takes them.
unfoldable pub parse_for : Option ℕ → SuperFrame → Option (List EmbeddedCall × ℕ)
parse_for none f = some ([], 0)
parse_for (some function) f = if has_embedded f then parse_frame f else some ([], 0)

abbrev pub embedded_calls_to : Option ℕ → ℕ → List EmbeddedCall → List Call
embedded_calls_to none context calls = []
embedded_calls_to (some function) context calls =
    map (λ c. embedded_call (record { function = function; context = context }) c) calls

abbrev pub frame_call : SuperFrame → ℕ → FrameCall
frame_call f offset = record {
  frame = f;
  offset = offset;
  size = (f.assembly.size + 2 ^ 64 - offset) % 2 ^ 64;
}

-- The calls for a frame, the receive callback's behind those of the embedded callback.
abbrev pub calls_for : Option ℕ → ReceiverCallbacks → SuperFrame → List EmbeddedCall → ℕ → List Call
calls_for none c f calls offset = []
calls_for (some function) c f calls offset =
    embedded_calls_to c.embedded_callback c.context calls
    ++ (receive_call (record { function = function; context = c.context }) (frame_call f offset)
        ∷ [])

abbrev pub call_function : Option ℕ → ReceiverCallbacks → SuperFrame → Option (List Call)
call_function none c f = some []
call_function (some function) c f = do
  (calls, offset) ← parse_for c.embedded_callback f
  some (calls_for (some function) c f calls offset)

-- The wrapper of the receive callback.
unfoldable pub call_receive : ReceiverCallbacks → SuperFrame → Option (List Call)
call_receive c f = call_function c.callback c f

-- The wrapper of the NACK callback: NACKs go out under stream 0.
unfoldable pub call_nack : ReceiverCallbacks → Bytes → List Call
call_nack c packet = elim c.nack_callback [
  | none ↦ []
  | some function ↦ send_call (record { function = function; context = c.context }) packet 0 ∷ []
]
