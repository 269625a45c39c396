-- ===== src/NackExamples.antt =====
-- A NACK on concrete inputs: a frame of five fragments, of which the first and the fourth came, and a
-- sender.
use new_efp.Common.{
  ℕ, List, [], ◌∷◌, ◌++◌, ◌%◌, ◌^◌, ◌≤◌, ◌<◌, if◌then◌else◌, length, All, refl, ◌+◌, ◌*◌, ◌≡◌, true,
  none, ◌==◌, ◌||◌, arith,
}
use new_efp.Common.Int.{pos}
use new_efp.Common.Table.{lookup, member}
use new_efp.Wire.{ok}
use new_efp.Wire.Headers.{NackEntry}
use new_efp.Receiver.State.{Bucket}
use new_efp.Receiver.Nack.{build_nack, nack_packet, nack_entries, scan, scan_round}
use new_efp.Receiver.NackScan.{missing, asked}
use new_efp.Sender.State.{Sender, single}
use new_efp.Sender.Api.{new_sender, receive_nack}
use new_efp.NackExchange.{receive_nack-build_nack}
use new_efp.NackExchange.Entries.{build_nack-asked}
use new_efp.NackExchange.Requests.{Asked, requested}

abbrev bucket : Bucket
bucket = record {
  active = true;
  payload_type = 1;
  payload_code = 77;
  saved_frame_no = 12;
  timeout_us = 200_000;
  fragment_count = 2;
  of_fragment_no = 4;
  delivery_order = pos 12;
  fragment_size = 3;
  type3_size = 0;
  type2_size = 0;
  pts = 1000;
  dts = 990;
  stream_id = 7;
  source_id = 0;
  flags = 0;
  first_arrival_us = 100_000;
  last_nack_us = 0;
  nack_count = 0;
  received = λ k. k == 0 || k == 3;
  frame = none;
}

abbrev sender : Sender
sender = new_sender 256 single 500 10_000 (λ n. 1000 * n + 1000)

-- The sender retains the third fragment, for this stream, and the fifth, for another one.
abbrev retaining : Sender
retaining = record sender {
  retention_buffer =
      (
        12 * 65_536 + 2,
        record {
          timestamp_us = 0;
          super_frame_no = 12;
          fragment_no = 2;
          stream_id = 7;
          retry_count = 0;
          generation = 3;
          bytes = 1 ∷ [];
        },
      )
      ∷ (
        12 * 65_536 + 4,
        record {
          timestamp_us = 0;
          super_frame_no = 12;
          fragment_no = 4;
          stream_id = 8;
          retry_count = 0;
          generation = 5;
          bytes = 1 ∷ [];
        },
      )
      ∷ [];
}

receive_nack-build_nack_example :
    (t : Sender) × (receive_nack (build_nack bucket) retaining ≡ (ok, t))
    × Asked bucket (missing 5 bucket 0) retaining t
    × (t.statistics.nacks_received ≡ (retaining.statistics.nacks_received + 1) % 2 ^ 64)
unfolding nack_entries scan scan_round
receive_nack-build_nack_example =
    receive_nack-build_nack bucket retaining (omega arith) (omega arith) (omega arith) (omega arith)
      (omega arith)

requests :
    requested bucket retaining.retention_buffer [] (1 ∷ 2 ∷ 4 ∷ [])
    ≡ record { key = 12 * 65_536 + 2; generation = 3 } ∷ []
unfolding requested lookup member
requests = refl

build_nack-asked_example :
    (es : List NackEntry) × (left : List ℕ) × (build_nack bucket
      ≡ (if length es == 0 then [] else nack_packet es))
    × (length es ≤ 255)
    × All (λ e. (e.stream_id ≡ 7) × (e.super_frame_no ≡ 12)) es
    × (asked es ++ left ≡ missing 5 bucket 0)
    × (length es < 255 → left ≡ [])
build_nack-asked_example = build_nack-asked bucket (omega arith)
