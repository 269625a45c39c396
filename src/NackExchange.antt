-- ===== src/NackExchange.antt =====
-- A NACK that the receiver builds (`buildNack`), taken by the sender (`receiveNack`).
pub mod Entries
pub mod Requests
use new_efp.Common.{
  none, some, not, ◌&&◌, min, take, take-append-drop, length-take, if◌then◌else◌, Option-cases, ℕ,
  zero, suc, ◌+◌, ◌*◌, ◌%◌, ◌^◌, ◌≤◌, ◌<◌, ◌≡◌, refl, ap, sym, subst, ◌∙◌, true, false, List, [],
  ◌∷◌, ◌++◌, ltb, ◌==◌, arith, Bool-cases, inl, inr, length, drop, All, inc64,
}
use mathlib.Core.List.{append_assoc, append-nil}
use new_efp.Common.Memory.{Bytes}
use new_efp.Common.Table.{lookup, member}
use new_efp.Wire.{ok, buffer_out_of_bounds, uint16_max, make_frame_type_byte, get_frame_type}
use new_efp.Wire.Headers.{NackEntry, encode_nack, decode_nack, encode_nack_entry}
use new_efp.Wire.RoundTrip.{IsNackEntry, decode-encode_nack_entry}
use new_efp.Receiver.State.{Bucket}
use new_efp.Receiver.Nack.{
  Scan, entry_of, emit_range, scan_round, scan, scan_start, nack_entries, encode_entries,
  nack_packet, build_nack,
}
use new_efp.Receiver.NackScan.{
  run, asked, asked-append, missing, IsScan, scan_round-IsScan, asked-nack_entries,
}
use new_efp.Sender.State.{Sender, Request, RetainedFragment}
use new_efp.Sender.Api.{queue_retransmit, queue_range, queue_entries, receive_nack}
use new_efp.NackExchange.Entries.{IsEntryOf, nack_entries-All}
use new_efp.NackExchange.Requests.{
  ask_all, ask_all-append, queue_range-ask_all, Asked, ask_all-Asked, ask_all-statistics,
}

abbrev pub count_nack : Sender → Sender
count_nack s = record s {
  statistics = record (s.statistics) { nacks_received = inc64 s.statistics.nacks_received };
}

length-encode_entries : (es : List NackEntry) → length (encode_entries es) ≡ 6 * length es
unfolding encode_nack_entry
length-encode_entries [] = omega arith
length-encode_entries (e ∷ es) = omega (arith, length-encode_entries es)

entry_fits :
    (b : Bucket) (e : NackEntry)
    → b.stream_id < 256
    → b.saved_frame_no < 65_536
    → IsEntryOf b e
    → IsNackEntry e
entry_fits b e stream frame (start, count, same, small, fits) = rw same (record {
  stream_id = stream;
  super_frame_no = frame;
  fragment_no = omega arith;
  fragment_count = omega arith;
})

drop-encode_nack_entry :
    (e : NackEntry) (rest : Bytes) → drop 6 (encode_nack_entry e ++ rest) ≡ rest
unfolding encode_nack_entry
drop-encode_nack_entry e rest = refl

entry_asked :
    (b : Bucket) (e : NackEntry) (s : Sender)
    → IsEntryOf b e
    → queue_range (e.fragment_count + 1) e e.fragment_no s
      ≡ ask_all b (run e.fragment_no (suc e.fragment_count)) s
entry_asked b e s (start, c, same, small, fits) =
    subst
      (λ d.
        queue_range (d.fragment_count + 1) d d.fragment_no s
        ≡ ask_all b (run d.fragment_no (suc d.fragment_count)) s)
      (sym same)
      (ap (λ n. queue_range n (entry_of b start c) start s) (omega arith)
        ∙ queue_range-ask_all (suc (c % 256)) b start c start s (omega arith))

-- One entry: its fragments are asked for, and the loop goes on.
queue_entries-suc :
    (b : Bucket) (e : NackEntry) (count : ℕ) (rest : Bytes) (s : Sender)
    → IsNackEntry e
    → IsEntryOf b e
    → queue_entries (suc count) (encode_nack_entry e ++ rest) s
      ≡ queue_entries count rest (ask_all b (run e.fragment_no (suc e.fragment_count)) s)
unfolding queue_entries
queue_entries-suc b e count rest s fits (start, c, same, small, in_range) =
    let read = decode-encode_nack_entry e rest fits in
    let inside : ltb uint16_max (e.fragment_no + e.fragment_count) ≡ false =
      rw same (ground (arith, small, in_range)) in
    ap
      (λ d. elim (ltb uint16_max (d.fragment_no + d.fragment_count)) [
        | true ↦ (buffer_out_of_bounds, s)
        | false ↦
            queue_entries count (drop 6 (encode_nack_entry e ++ rest))
              (queue_range (d.fragment_count + 1) d d.fragment_no s)
      ])
      read
    ∙ rw (inside, drop-encode_nack_entry e rest)
        (ap (queue_entries count rest) (entry_asked b e s (start, c, same, small, in_range)))

no_entries : (s : Sender) → queue_entries 0 [] s ≡ (ok, count_nack s)
unfolding queue_entries
no_entries s = refl

queue_entries-ask_all :
    (b : Bucket) (es : List NackEntry) (s : Sender)
    → b.stream_id < 256
    → b.saved_frame_no < 65_536
    → All (IsEntryOf b) es
    → queue_entries (length es) (encode_entries es) s ≡ (ok, count_nack (ask_all b (asked es) s))
unfolding asked ask_all
queue_entries-ask_all b [] s stream frame all = no_entries s
queue_entries-ask_all b (e ∷ es) s stream frame all =
    queue_entries-suc b e (length es) (encode_entries es) s (entry_fits b e stream frame all.0)
      all.0
    ∙ queue_entries-ask_all b es (ask_all b (run e.fragment_no (suc e.fragment_count)) s) stream
        frame all.1
    ∙ ap (λ t. (ok, count_nack t))
        (sym (ask_all-append b (run e.fragment_no (suc e.fragment_count)) (asked es) s))

nack_taken :
    (b : Bucket) (s : Sender)
    → b.of_fragment_no < uint16_max
    → b.stream_id < 256
    → b.saved_frame_no < 65_536
    → 0 < length (nack_entries b)
    → length (nack_entries b) ≤ 255
    → receive_nack (build_nack b) s
      ≡ (ok, count_nack (ask_all b (missing (b.of_fragment_no + 1) b 0) s))
unfolding receive_nack build_nack nack_packet encode_nack decode_nack get_frame_type
    make_frame_type_byte
nack_taken b s h stream frame some_missing few =
    let es = nack_entries b in
    let size = length-encode_entries es in
    let one : (length es == 0) ≡ false = ground (arith, some_missing) in
    let uncut : ltb 255 (length es) ≡ false = ground (arith, few) in
    let count : length es % 256 ≡ length es = omega (arith, few) in
    let long : ltb (suc (suc (suc (length (encode_entries es))))) 3 ≡ false = ground arith in
    let exact : (suc (suc (suc (length (encode_entries es)))) == 3 + length es * 6) ≡ true =
      ground (arith, size) in
    rw (one, uncut)
      (rw (count, long, exact)
        (queue_entries-ask_all b es s stream frame (nack_entries-All b h)
          ∙ ap (λ l. (ok, count_nack (ask_all b l s))) (asked-nack_entries b h)))

-- A NACK of 255 entries at most, which the receiver builds for a frame of which fragments are
-- missing, is accepted by the sender, which goes through just the missing fragments of that frame and
-- stream, each once and in ascending order: behind the queue it had stand the requests for those that
-- it retains and that were not queued before; it sends nothing, keeps its packets, and counts one
-- NACK. The frame has fewer than 65535 fragments, and its numbers fit their widths.
pub receive_nack-build_nack :
    (b : Bucket) (s : Sender)
    → b.of_fragment_no < uint16_max
    → b.stream_id < 256
    → b.saved_frame_no < 65_536
    → 0 < length (nack_entries b)
    → length (nack_entries b) ≤ 255
    → (t : Sender) × (receive_nack (build_nack b) s ≡ (ok, t))
      × Asked b (missing (b.of_fragment_no + 1) b 0) s t
      × (t.statistics.nacks_received ≡ (s.statistics.nacks_received + 1) % 2 ^ 64)
receive_nack-build_nack b s h stream frame some_missing few =
    let ns = missing (b.of_fragment_no + 1) b 0 in
    let asked_for = ask_all-Asked b ns s in
    (
      count_nack (ask_all b ns s),
      nack_taken b s h stream frame some_missing few,
      record {
        queue = asked_for.queue;
        retention_buffer = asked_for.retention_buffer;
        sent = asked_for.sent;
      },
      ap (λ n. (n + 1) % 2 ^ 64) (ask_all-statistics b ns s),
    )
