-- ===== src/Transfer/Opening/Opens.antt =====
-- The handlers open the bucket of a frame for the packet that comes first.
use native.Mathlib.Nat.{le-div_iff_mul-le}
use new_efp.Common.{
  ℕ, ◌+◌, ◌-◌, ◌/◌, ◌%◌, ◌^◌, ◌≤◌, ◌<◌, ◌≡◌, ap, subst, ◌∙◌, true, false, some, arith, length,
  bit_and,
}
use new_efp.Common.Int.{ℤ, eqb_ℤ}
use new_efp.Common.Memory.{Bytes, overwrite}
use new_efp.Wire.{ok, max_superframe_size}
use new_efp.Sender.Fragments.{Job, type1_header, type2_header, type3_header}
use new_efp.Receiver.State.{Receiver, Stream, recalculate_super_frame_no}
use new_efp.Receiver.Open.{Opening, open_bucket}
use new_efp.Receiver.Type1.{type1_opening, type1_arrived}
use new_efp.Receiver.Type2.{type2_opening, type2_arrived, cache_stream}
use new_efp.Receiver.Type3.{type3_opening, type3_arrived}
use new_efp.Transfer.Packets.{IsSendable, num, type1_payload, type2_payload, type3_payload}
use new_efp.Transfer.Assembling.{Keeps, bucket_of, Holding}
use new_efp.Transfer.Type1.{length-type1_payload}
use new_efp.Transfer.Type2.{length-type2_payload, type2_small}
use new_efp.Transfer.Type3.{length-type3_payload}
use new_efp.Transfer.Opening.{IsReady, opened_with, open_bucket-Holding}
use new_efp.Transfer.Opening.Kept.{
  padded_room, Keeps-type1_opening, Keeps-type2_opening, Keeps-type3_opening,
}

module _ (j : Job) (s : IsSendable j) (source now : ℕ) (r : Receiver)
    (ready : IsReady j.super_frame_no r) where
  -- What the frame number makes of the receiver, and its order.
  abbrev counted : ℤ × Receiver
  counted = recalculate_super_frame_no j.super_frame_no r

  recalculated :
      (counted.1.mode ≡ r.mode)
      × (counted.1.buffer_size ≡ r.buffer_size)
      × (counted.1.buckets ≡ r.buckets)
      × (counted.1.allocations ≡ r.allocations)
  unfolding recalculate_super_frame_no
  recalculated = ground arith

  same_bucket :
      bit_and j.super_frame_no counted.1.buffer_size ≡ bit_and j.super_frame_no r.buffer_size
  same_bucket = ap (bit_and j.super_frame_no) recalculated.1

  -- The opening in the receiver that has counted on.
  opens :
      (o : Opening) (payload : Bytes) (streams : ℕ → Stream)
      → 0 < length payload
      → o.offset + length payload ≤ o.total
      → ((block : Bytes)
          → length block ≡ o.total
          → Keeps j source
              (opened_with o now counted.0 (record (counted.1) { streams = streams }) block payload)
              (record { memory = overwrite block o.offset payload; size = o.total }))
      → (t : Receiver) × (open_bucket o
            (bit_and j.super_frame_no r.buffer_size)
            now
            counted.0
            payload
            (record (counted.1) { streams = streams })
          ≡ some (ok, t))
        × Holding j source t
        × ((bucket_of j t).received o.first ≡ true)
  opens o payload streams filled inside keeps =
      let (t, e, holding, taken) =
        open_bucket-Holding j source o now counted.0 payload
          (record (counted.1) { streams = streams }) (recalculated.0 ∙ ready.mode)
          (rw recalculated.3 ready.honest) (λ size. rw recalculated.3 (ready.supplied size))
          (omega arith) inside keeps in
      (t, rw same_bucket at e, holding, taken)

  not_seen :
      eqb_ℤ counted.0 (counted.1.buckets (bit_and j.super_frame_no r.buffer_size)).delivery_order
      ≡ false
  not_seen = rw recalculated.2 ready.unseen

  short :
      (k : ℕ)
      → k < num j
      → length (type1_payload j k) ≤ max_superframe_size / (j.of_fragment_no + 1)
  short k inner =
      (le-div_iff_mul-le {k = j.of_fragment_no + 1} (omega arith)).1
        (rw (length-type1_payload j s source k inner) s.padded)

  type1_chosen :
      (k : ℕ)
      → k < num j
      → type1_arrived (type1_header j k) (type1_payload j k) source (now, r)
        ≡ open_bucket
            (type1_opening (type1_header j k) (length (type1_payload j k)) source counted.1)
            (bit_and j.super_frame_no r.buffer_size)
            now
            counted.0
            (type1_payload j k)
            counted.1
  unfolding type1_arrived
  type1_chosen k inner = ground (arith, ready.idle, not_seen, s.counted, s.few, short k inner)

  -- A Type1 packet of the frame opens its bucket.
  pub type1_arrived-Opens :
      (k : ℕ)
      → k < num j
      → (t : Receiver) × (type1_arrived (type1_header j k) (type1_payload j k) source (now, r)
          ≡ some (ok, t))
        × Holding j source t
        × ((bucket_of j t).received k ≡ true)
  type1_arrived-Opens k inner =
      let whole : length (type1_payload j k) ≡ j.type1_payload_size =
        length-type1_payload j s source k inner in
      let le : k < j.of_fragment_no + 1 = omega (arith, s.counted) in
      let o = type1_opening (type1_header j k) (length (type1_payload j k)) source counted.1 in
      let room : o.offset + length (type1_payload j k) ≤ o.total =
        rw whole (padded_room j s source now counted.0 counted.1 k le) in
      let (t, e, holding, taken) =
        opens o (type1_payload j k) counted.1.streams
          (omega (arith, whole, s.positive (omega (arith, s.counted)))) room
          (λ block long.
            Keeps-type1_opening j s source now counted.0 counted.1 k block inner
              (rw whole at long)) in
      (t, type1_chosen k inner ∙ e, holding, taken)

  type3_chosen :
      j.cut.needs_type3 ≡ true
      → type3_arrived (type3_header j) (type3_payload j) source (now, r)
        ≡ open_bucket
            (type3_opening (type3_header j) (length (type3_payload j)) source counted.1)
            (bit_and j.super_frame_no r.buffer_size)
            now
            counted.0
            (type3_payload j)
            counted.1
  unfolding type3_arrived
  type3_chosen need = ground (
    arith,
    ready.idle,
    not_seen,
    s.counted,
    s.few,
    s.padded,
    s.type3_short,
    s.type1_payload_size,
    need,
    length-type3_payload j s source need,
  )

  -- The Type3 packet of the frame opens its bucket.
  pub type3_arrived-Opens :
      j.cut.needs_type3 ≡ true
      → (t : Receiver) × (type3_arrived (type3_header j) (type3_payload j) source (now, r)
          ≡ some (ok, t))
        × Holding j source t
        × ((bucket_of j t).received (num j) ≡ true)
  type3_arrived-Opens need =
      let whole : length (type3_payload j) ≡ j.cut.type3_data_size =
        length-type3_payload j s source need in
      let of_is : j.of_fragment_no ≡ num j + 1 = ground (arith, s.counted, need) in
      let prev : j.of_fragment_no - 1 ≡ num j = omega (arith, of_is) in
      let size : j.type1_payload_size % 2 ^ 16 ≡ j.type1_payload_size =
        omega (arith, s.type1_payload_size) in
      let o = type3_opening (type3_header j) (length (type3_payload j)) source counted.1 in
      let room : o.offset + length (type3_payload j) ≤ o.total =
        rw (whole, size, prev)
          (omega (
            arith,
            s.type3_short,
            padded_room j s source now counted.0 counted.1 (num j) (omega (arith, of_is)),
          )) in
      let (t, e, holding, taken) =
        opens o (type3_payload j) counted.1.streams (omega (arith, whole, s.type3_filled need)) room
          (λ block long.
            Keeps-type3_opening j s source now counted.0 counted.1 block need (rw size at long)) in
      (t, type3_chosen need ∙ e, holding, subst (λ m. (bucket_of j t).received m ≡ true) prev taken)

  size_of_data : j.cut.type2_data_size % 2 ^ 16 ≡ j.cut.type2_data_size
  size_of_data = omega (arith, s.type2_data_size)

  type1_size : j.type1_payload_size % 2 ^ 16 ≡ j.type1_payload_size
  type1_size = omega (arith, s.type1_payload_size)

  type2_chosen :
      type2_arrived (type2_header j) (type2_payload j) source (now, r)
      ≡ open_bucket
          (type2_opening (type2_header j) source)
          (bit_and j.super_frame_no r.buffer_size)
          now
          counted.0
          (type2_payload j)
          (cache_stream (type2_header j) counted.1)
  unfolding type2_arrived
  type2_chosen =
      rw (size_of_data, type1_size)
        (ground (
          arith,
          ready.idle,
          not_seen,
          s.few,
          s.positive,
          s.timed,
          type2_small j s source,
          length-type2_payload j s source,
        ))

  -- The Type2 packet of the frame opens its bucket.
  pub type2_arrived-Opens :
      (t : Receiver) × (type2_arrived (type2_header j) (type2_payload j) source (now, r)
        ≡ some (ok, t))
      × Holding j source t
      × ((bucket_of j t).received j.of_fragment_no ≡ true)
  type2_arrived-Opens =
      let whole : length (type2_payload j) ≡ j.cut.type2_data_size =
        length-type2_payload j s source in
      let o = type2_opening (type2_header j) source in
      let cached = cache_stream (type2_header j) counted.1 in
      let room : o.offset + length (type2_payload j) ≤ o.total =
        rw (whole, size_of_data) (omega arith) in
      let (t, e, holding, taken) =
        opens o (type2_payload j) cached.streams (omega (arith, whole, s.type2_filled)) room
          (λ block long.
            Keeps-type2_opening j s source now counted.0 cached block
              (rw (type1_size, size_of_data) at long)) in
      (t, type2_chosen ∙ e, holding, taken)
