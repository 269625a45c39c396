-- ===== src/Sender/Bundles.antt =====
-- `getRetransmitFragment` and `sendFragmentedBundled`: Type1 packets travel together behind a Type4
-- header. `none` is a copy or a read that leaves its buffer.
use new_efp.Common.{
  ℕ, zero, suc, ◌+◌, ◌-◌, ◌%◌, ◌^◌, true, false, List, [], ◌∷◌, Option, none, some, ltb, ◌==◌, ◌&&◌,
  if◌then◌else◌, length, min, inc64, ◌>>=◌,
}
use new_efp.Common.Memory.{Bytes, write_at, read_at}
use new_efp.Common.Table.{lookup, insert, remove}
use new_efp.Wire.{type4, make_frame_type_byte}
use new_efp.Wire.Headers.{encode_type1, encode_type4, sizeof_type1, sizeof_type4}
use new_efp.Sender.State.{
  Sender, RetainedFragment, Request, call_back, count_fragment, invoke_bundle_callback,
}
use new_efp.Sender.Retention.{retain_fragment}
use new_efp.Sender.Fragments.{Job, type1_header, send_type3, send_type2}

-- A retained packet is about to be sent again.
unfoldable pub mark_retransmitted : ℕ → RetainedFragment → Sender → Sender
mark_retransmitted key f s = record s {
  retention_buffer =
      insert key (record f { retry_count = (f.retry_count + 1) % 256 }) s.retention_buffer;
  statistics = record (s.statistics) {
    retransmitted_fragments = inc64 s.statistics.retransmitted_fragments;
  };
}

-- The front of the queue is taken off. If its packet is still retained under the same generation,
-- it comes back.
unfoldable pub pop_retransmit : Request → List Request → Sender → Option RetainedFragment × Sender
pop_retransmit request rest s =
    let popped = record s {
      retransmit_queue = rest;
      queued_retransmits = remove request.generation s.queued_retransmits;
    } in
    elim (lookup request.key s.retention_buffer) [
      | none ↦ (none, popped)
      | some f ↦
          if f.generation == request.generation
          then (some f, mark_retransmitted request.key f popped)
          else (none, popped)
    ]

unfoldable pub get_retransmit_fragment : Sender → Option RetainedFragment × Sender
get_retransmit_fragment s = elim s.retransmit_queue [
  | [] ↦ (none, s)
  | request ∷ rest ↦ pop_retransmit request rest s
]

-- What a bundle starts with: a packet to send again, and the number of new fragments behind it.
-- A packet of another size than the Type1 packets goes out by itself.
abbrev pub place_retransmit : ℕ → ℕ → Option RetainedFragment × Sender → Option Bytes × ℕ × Sender
place_retransmit frame_size frags (none, s) = (none, frags, s)
place_retransmit frame_size frags (some f, s) =
    if length f.bytes == frame_size
    then (some f.bytes, frags - 1, s)
    else (none, frags, call_back s f.bytes f.stream_id)

unfoldable pub choose_retransmit : ℕ → ℕ → Sender → Option Bytes × ℕ × Sender
choose_retransmit frame_size frags s =
    if ltb 0 (length s.retransmit_queue) && ltb 1 frags
    then place_retransmit frame_size frags (get_retransmit_fragment s)
    else (none, frags, s)

-- The Type1 packets of one bundle, written behind one another.
unfoldable pub bundle_type1s :
    ℕ → Job → ℕ → ℕ → ℕ → Bytes → Sender → Option (ℕ × ℕ × Bytes × Sender)
bundle_type1s zero j fragment_no offset at buffer s = some (offset, at, buffer, s)
bundle_type1s (suc count) j fragment_no offset at buffer s = do
  payload ← read_at j.content offset j.type1_payload_size
  with_header ← write_at buffer at (encode_type1 (type1_header j (fragment_no % 2 ^ 16)))
  buffer' ← write_at with_header (at + sizeof_type1) payload
  packet ← read_at buffer' at (sizeof_type1 + j.type1_payload_size)
  let s' =
      count_fragment (retain_fragment j.super_frame_no (fragment_no % 2 ^ 16) j.stream_id packet s)
  bundle_type1s count j (fragment_no + 1) (offset + j.type1_payload_size)
      (at + (sizeof_type1 + j.type1_payload_size)) buffer' s'

abbrev pub retransmit_count : Option Bytes → ℕ
retransmit_count none = 0
retransmit_count (some b) = 1

-- The retransmitted packet stands first in its bundle.
unfoldable pub place_first : Option Bytes → Bytes → Option (ℕ × Bytes)
place_first none buffer = some (sizeof_type4, buffer)
place_first (some b) buffer = do
  buffer' ← write_at buffer sizeof_type4 b
  some (sizeof_type4 + length b, buffer')

-- One bundle of `frags` new fragments, behind a packet that is sent again.
unfoldable pub send_bundle : Job → Option Bytes → ℕ → ℕ → ℕ → Sender → Option (ℕ × Sender)
send_bundle j again frags fragment_no offset s = do
  let header = encode_type4 (record {
    frame_type = make_frame_type_byte type4 j.flags;
    frame_count = (frags + retransmit_count again) % 256;
  })
  with_header ← write_at s.bundle_buffer 0 header
  (at, with_first) ← place_first again with_header
  (offset', size, buffer, s') ← bundle_type1s frags j fragment_no offset at with_first s
  packet ← read_at buffer 0 size
  some (offset', invoke_bundle_callback (record s' { bundle_buffer = buffer }) packet j.stream_id)

-- The loop over the bundles. Each holds a new fragment at least, so `num_type1_fragments` rounds
-- are enough.
unfoldable pub send_bundles : ℕ → Job → ℕ → ℕ → ℕ → Sender → Option (ℕ × Sender)
send_bundles zero j bundle index offset s =
    if ltb index j.cut.num_type1_fragments then none else some (offset, s)
send_bundles (suc fuel) j bundle index offset s = elim (ltb index j.cut.num_type1_fragments) [
  | false ↦ some (offset, s)
  | true ↦ (do
    let (again, frags, s1) =
        choose_retransmit (sizeof_type1 + j.type1_payload_size)
          (min bundle (j.cut.num_type1_fragments - index)) s
    (offset', s2) ← send_bundle j again frags index offset s1
    send_bundles fuel j bundle (index + frags) offset' s2)
]

unfoldable pub send_fragmented_bundled : Job → ℕ → Sender → Option Sender
send_fragmented_bundled j bundle s = do
  (offset, s1) ← send_bundles j.cut.num_type1_fragments j bundle 0 0 s
  (offset', s2) ← send_type3 j offset s1
  send_type2 j offset' s2
