-- ===== src/Transfer/Type1.antt =====
-- A Type1 packet of a frame whose bucket is open.
pub mod Taken
use new_efp.Common.{
  ℕ, ◌+◌, ◌*◌, ◌%◌, ◌^◌, ◌≤◌, ◌<◌, ◌≡◌, refl, ap, true, false, some, ◌==◌, if◌then◌else◌, arith,
  length, bit_and, Bool-cases, inl, inr, ◌⊎◌, ==_iff, ==_refl,
}
use new_efp.Common.Memory.{Bytes, overwrite, write_at-eq, length-take-drop, slot_le}
use new_efp.Common.Agree.{Agrees, Agrees-overwrite, Agrees-overwrite_beside}
use new_efp.Wire.{Result, ok, duplicate_fragment}
use new_efp.Sender.Fragments.{Job, type1_header}
use new_efp.Receiver.State.{
  Receiver, Bucket, Assembly, count_received, count_duplicate, set_bucket, threaded,
}
use new_efp.Receiver.Type1.{type1_store, type1_existing, type1_arrived}
use new_efp.Receiver.Invariant.{Holds}
use new_efp.Receiver.Safety.Type1.{type1_room}
use new_efp.Transfer.Packets.{IsSendable, num, type3_start, type2_start, type1_payload}
use new_efp.Transfer.Assembling.{Keeps, type2_place, bucket_of, Took, set_bucket-Holding}

-- The memory after fragment `k` has come.
abbrev pub memory_with : Job → Bytes → ℕ → Bytes
memory_with j block k = overwrite block (j.type1_payload_size * k) (type1_payload j k)

-- The bucket then.
abbrev pub bucket_with : Bucket → ℕ → Assembly → Bucket
bucket_with b k a = record b {
  received = λ m. if m == k then true else b.received m;
  fragment_count = (b.fragment_count + 1) % 2 ^ 16;
  frame = some a;
}

module _ (j : Job) (s : IsSendable j) (source : ℕ) where
  type1_inside :
      (k : ℕ) → k < num j → j.type1_payload_size * k + j.type1_payload_size ≤ type3_start j
  type1_inside k h = slot_le j.type1_payload_size k (num j) h

  pub length-type1_payload : (k : ℕ) → k < num j → length (type1_payload j k) ≡ j.type1_payload_size
  length-type1_payload k h =
      length-take-drop j.content (j.type1_payload_size * k) j.type1_payload_size
        (omega (arith, type1_inside k h, s.covers))

  type2_place-le : (b : Bucket) → type3_start j ≤ type2_place j b.received
  type2_place-le b =
      ground (arith, s.counted, slot_le j.type1_payload_size (num j) j.of_fragment_no)

  module _ (b : Bucket) (a : Assembly) (k : ℕ) (keeps : Keeps j source b a) (inner : k < num j)
      (room : j.type1_payload_size * k + j.type1_payload_size ≤ length a.memory) where
    fits : j.type1_payload_size * k + length (type1_payload j k) ≤ length a.memory
    fits = omega (arith, length-type1_payload k inner, room)

    beside :
        (at from count : ℕ)
        → (at + count ≤ j.type1_payload_size * k)
          ⊎ (j.type1_payload_size * k + j.type1_payload_size ≤ at)
        → Agrees a.memory at j.content from count
        → Agrees (memory_with j a.memory k) at j.content from count
    beside at from count side v =
        Agrees-overwrite_beside a.memory (j.type1_payload_size * k) (type1_payload j k) at j.content
          from count fits
          (elim side [
            | inl x ↦ inl x
            | inr x ↦ inr (omega (arith, length-type1_payload k inner, x))
          ])
          v

    sides :
        (m : ℕ)
        → (m == k) ≡ false
        → (j.type1_payload_size * m + j.type1_payload_size ≤ j.type1_payload_size * k)
          ⊎ (j.type1_payload_size * k + j.type1_payload_size ≤ j.type1_payload_size * m)
    sides m e = ground (arith, slot_le j.type1_payload_size m k, slot_le j.type1_payload_size k m)

    type1s_with :
        (m : ℕ)
        → m < num j
        → (if m == k then true else b.received m) ≡ true
        → Agrees
            (memory_with j a.memory k)
            (j.type1_payload_size * m)
            j.content
            (j.type1_payload_size * m)
            j.type1_payload_size
    type1s_with m h e = elim (Bool-cases (m == k)) [
      | inl same ↦
          let m_is_k : m ≡ k = (==_iff m k).0 same in
          rw m_is_k (
            Agrees-overwrite a.memory (j.type1_payload_size * k) j.content
              (j.type1_payload_size * k) j.type1_payload_size
              (omega (arith, type1_inside k inner, s.covers)) room)
      | inr other ↦
          beside (j.type1_payload_size * m) (j.type1_payload_size * m) j.type1_payload_size
            (sides m other) (keeps.type1s m h (rw other at e))
    ]

    -- The bits of the last two fragments are as they were.
    last_bits :
        ((if num j == k then true else b.received (num j)) ≡ b.received (num j))
        × ((if j.of_fragment_no == k then true else b.received j.of_fragment_no)
            ≡ b.received j.of_fragment_no)
    last_bits = ground (arith, s.counted)

    pub Keeps-type1 :
        Keeps j source
          (bucket_with b k (record a { memory = memory_with j a.memory k }))
          (record a { memory = memory_with j a.memory k })
    Keeps-type1 = record {
      saved_frame_no = keeps.saved_frame_no;
      stream_id = keeps.stream_id;
      source_id = keeps.source_id;
      of_fragment_no = keeps.of_fragment_no;
      fragment_size = keeps.fragment_size;
      type3_size = rw (last_bits.0) keeps.type3_size;
      type2_size = rw (last_bits.1) keeps.type2_size;
      alone = rw (last_bits.1) keeps.alone;
      type1s = type1s_with;
      type3s = rw (last_bits.0) (λ need e.
          beside (type3_start j) (type3_start j) j.cut.type3_data_size (inr (type1_inside k inner))
            (keeps.type3s need e));
      type2s =
          rw (last_bits.0, last_bits.1)
            (λ e.
              beside (type2_place j b.received) (type2_start j) j.cut.type2_data_size
                (inr (omega (arith, type1_inside k inner, type2_place-le b))) (keeps.type2s e));
      whole = rw (last_bits.0, last_bits.1) keeps.whole;
      described = rw (last_bits.1) (λ e.
          let d = keeps.described e in
          record {
            payload_type = d.payload_type;
            payload_code = d.payload_code;
            pts = d.pts;
            dts = d.dts;
            flags = d.flags;
          });
    }
