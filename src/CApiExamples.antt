-- ===== src/CApiExamples.antt =====
-- Runs of the C API on concrete inputs, at which the theorems apply.
use new_efp.Common.{ℕ, ◌+◌, ◌*◌, ◌≡◌, refl, true, false, List, [], ◌∷◌, none, some, arith}
use new_efp.Common.Memory.{Bytes}
use new_efp.Common.Table.{lookup, insert, erase}
use new_efp.Wire.{invalid_parameter}
use new_efp.Sender.State.{Sender, single}
use new_efp.Sender.Api.{Frame, new_sender}
use new_efp.Sender.SingleSend.{new_sender-IsSized}
use new_efp.Receiver.State.{SuperFrame}
use new_efp.CApi.Embedded.{embedded_header, extract_embedded_data}
use new_efp.CApi.Extract.{
  ReadsBack, all_outputs, extract-add_embedded_data, Extracted, extract_embedded_data-Extracted,
}
use new_efp.CApi.Callbacks.{Callback, Call, call_receive}
use new_efp.CApi.CallbackSpec.{Block, embed}
use new_efp.CApi.CallbackRun.{Carries, CallsEach, both_callbacks, call_receive-blocks}
use new_efp.CApi.Wrapper.{Wrapped, call_receive-Returns}
use new_efp.CApi.Objects.{
  EfpSender, sender_create, sender_create_with_callback, sender_set_callback,
}
use new_efp.CApi.Handles.{
  Handles, no_handles, init_send, end_send, end_receive, send_data, receive_fragment,
}
use new_efp.CApi.HandleLife.{done}
use new_efp.CApi.HandleSafety.{IsOrderly, Step-IsOrderly, no_handles-IsOrderly}
use new_efp.CApi.HandleLife.{init_send_step}
use new_efp.CApi.HandleUse.{SentThrough, send_data-Carries, ended-refused}

abbrev embedded : Bytes
embedded = 7 ∷ 8 ∷ []

abbrev payload : Bytes
payload = 1 ∷ 2 ∷ 3 ∷ []

abbrev eight : Bytes
eight = 0 ∷ 0 ∷ 0 ∷ 0 ∷ 0 ∷ 0 ∷ 0 ∷ 0 ∷ []

extract-add_embedded_data_example :
    ReadsBack eight embedded payload 2 1 (all_outputs (9 ∷ 9 ∷ 9 ∷ []) 0 0 0) (9 ∷ 9 ∷ 9 ∷ [])
extract-add_embedded_data_example =
    extract-add_embedded_data eight embedded payload (9 ∷ 9 ∷ 9 ∷ []) 2 1 0 0 0 refl (omega arith)
      (omega arith) (omega arith) (omega arith)

extract_embedded_data-Extracted_example :
    Extracted
      (all_outputs (9 ∷ 9 ∷ 9 ∷ []) 0 0 0)
      (some (1 ∷ 3 ∷ 0 ∷ 4 ∷ []))
      (extract_embedded_data (some (1 ∷ 3 ∷ 0 ∷ 4 ∷ [])) (all_outputs (9 ∷ 9 ∷ 9 ∷ []) 0 0 0))
extract_embedded_data-Extracted_example =
    extract_embedded_data-Extracted (some (1 ∷ 3 ∷ 0 ∷ 4 ∷ [])) (all_outputs (9 ∷ 9 ∷ 9 ∷ []) 0 0 0)
      (omega arith)

abbrev block : Block
block = record { type = 2; content = embedded }

abbrev block_2 : Block
block_2 = record { type = 5; content = [] }

abbrev block_frame : SuperFrame
block_frame = record {
  assembly = record { memory = 2 ∷ 2 ∷ 0 ∷ 7 ∷ 8 ∷ 133 ∷ 0 ∷ 0 ∷ 1 ∷ 2 ∷ 3 ∷ []; size = 11 };
  payload_type = 1;
  payload_code = 0;
  pts = 1000;
  dts = 1000;
  stream_id = 3;
  source_id = 0;
  flags = 16;
  super_frame_no = 0;
  broken = false;
}

blocks-Carried : Carries block_frame block (block_2 ∷ []) payload
unfolding embed embedded_header
blocks-Carried = record {
  valid = (
    record { type_positive = omega arith; type_small = omega arith; size_small = omega arith },
    (
      record { type_positive = omega arith; type_small = omega arith; size_small = omega arith },
      tt,
    ),
  );
  memory = refl;
  fills = refl;
  sized = omega arith;
  flagged = refl;
}

call_receive-blocks_example : CallsEach 1 2 9 none block_frame (block ∷ block_2 ∷ []) payload
call_receive-blocks_example =
    call_receive-blocks 1 2 9 none block_frame block (block_2 ∷ []) payload blocks-Carried

call_receive-Returns_example :
    (calls : List Call) × (call_receive (both_callbacks 1 2 9 none) block_frame ≡ some calls)
    × Wrapped (some 1) (both_callbacks 1 2 9 none) block_frame calls
call_receive-Returns_example =
    call_receive-Returns (both_callbacks 1 2 9 none) block_frame (omega arith)

abbrev ticks : ℕ → ℕ
ticks n = 1000 * n + 1000

abbrev client : Callback
client = record { function = 1; context = 2 }

abbrev tables : Handles
tables = (init_send true 1400 (some client) ticks no_handles).1

tables-IsOrderly : IsOrderly tables
tables-IsOrderly =
    Step-IsOrderly (init_send_step true 1400 (some client) ticks no_handles) (omega arith)
      no_handles-IsOrderly

abbrev frame : Frame
frame = record {
  content = 1 ∷ 2 ∷ 3 ∷ [];
  payload_type = 1;
  pts = 1000;
  dts = 990;
  payload_code = 77;
  stream_id = 7;
  flags = 0;
}

abbrev example_sender : Sender
example_sender = new_sender 1400 single 0 52_428_800 ticks

abbrev c_object : EfpSender
c_object = record { sender = some example_sender; callback = some client; mtu = 1400; calls = [] }

one_sender : lookup 1 tables.senders ≡ some c_object
unfolding init_send sender_create sender_create_with_callback sender_set_callback lookup insert
    erase
one_sender = refl

next_is_two : tables.next_handle ≡ 2
unfolding init_send sender_create sender_create_with_callback sender_set_callback
next_is_two = refl

ended-refused_example :
    ((end_send 1 (end_send 1 tables).1).0 ≡ invalid_parameter)
    × ((end_receive 1 (end_send 1 tables).1).0 ≡ invalid_parameter)
    × (send_data 1 frame (end_send 1 tables).1 ≡ some (invalid_parameter, (end_send 1 tables).1))
    × (receive_fragment 1 [] 0 (end_send 1 tables).1
        ≡ some (invalid_parameter, (end_send 1 tables).1))
ended-refused_example =
    ended-refused 1 c_object tables (end_send 1 tables).1 frame [] 0 tables-IsOrderly one_sender
      (omega (arith, next_is_two)) done

send_data-Carries_example : SentThrough 1 frame tables c_object example_sender.mtu
unfolding new_sender
send_data-Carries_example =
    send_data-Carries 1 frame tables c_object example_sender one_sender refl refl
      (new_sender-IsSized 1400 single 0 52_428_800 ticks) (omega arith) (omega arith) (omega arith)
      refl
