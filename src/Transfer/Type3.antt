-- ===== src/Transfer/Type3.antt =====
-- The Type3 packet of a frame whose bucket is open. A Type2 payload that came before moves.
pub mod Taken
use new_efp.Common.{
  ℕ, ◌+◌, ◌-◌, ◌*◌, ◌%◌, ◌^◌, ◌≤◌, ◌<◌, ◌≡◌, refl, sym, ◌∙◌, true, false, some, ◌==◌, if◌then◌else◌,
  arith, length, take, drop, bit_and, Bool-cases, inl, inr, ◌⊎◌, ==_refl, lt→ltb,
}
use new_efp.Common.Memory.{
  Bytes, overwrite, write_at-eq, read_at-eq, length-overwrite, length-take-drop, slot_le,
}
use new_efp.Common.Agree.{Agrees, Agrees-overwrite, Agrees-overwrite_beside, Agrees-overwrite_moved}
use new_efp.Wire.{Result, ok, duplicate_fragment}
use new_efp.Sender.Fragments.{Job, type3_header}
use new_efp.Receiver.State.{
  Receiver, Bucket, Assembly, count_received, count_duplicate, set_bucket, threaded,
}
use new_efp.Receiver.Type3.{type3_store, type3_existing, type3_arrived, relocate}
use new_efp.Receiver.Invariant.{Holds}
use new_efp.Transfer.Packets.{IsSendable, num, type3_start, type2_start, type3_payload}
use new_efp.Transfer.Assembling.{Keeps, type2_place, bucket_of, Took, set_bucket-Holding}

-- The bucket after the Type3 fragment has come, with number `k`.
abbrev pub bucket_with : Bucket → ℕ → ℕ → Assembly → Bucket
bucket_with b k size a = record b {
  received = λ m. if m == k then true else b.received m;
  fragment_count = (b.fragment_count + 1) % 2 ^ 16;
  type3_size = size;
  frame = some a;
}

module _ (j : Job) (s : IsSendable j) (source : ℕ) (need : j.cut.needs_type3 ≡ true) where
  pub of-num : j.of_fragment_no ≡ num j + 1
  of-num = ground (arith, s.counted, need)

  pub length-type3_payload : length (type3_payload j) ≡ j.cut.type3_data_size
  length-type3_payload =
      length-take-drop j.content (type3_start j) j.cut.type3_data_size (omega (arith, s.covers))

  pub type3_fits :
      type3_start j + j.cut.type3_data_size ≤ j.type1_payload_size * (j.of_fragment_no + 1)
  type3_fits = rw of-num (grind (arith, s.type3_short))

  -- The Type3 payload is copied into memory in which the other pieces are in their places.
  module _ (b : Bucket) (a moved : Assembly) (keeps : Keeps j source b a)
      (room : type3_start j + j.cut.type3_data_size ≤ length moved.memory)
      (inner : (k : ℕ)
        → k < num j
        → b.received k ≡ true
        → Agrees moved.memory
            (j.type1_payload_size * k)
            j.content
            (j.type1_payload_size * k)
            j.type1_payload_size)
      (behind : b.received j.of_fragment_no ≡ true
        → Agrees moved.memory (type2_start j) j.content (type2_start j) j.cut.type2_data_size)
      (whole : b.received j.of_fragment_no ≡ true → moved.size ≡ length j.content) where
    memory : Bytes
    memory = overwrite moved.memory (type3_start j) (type3_payload j)

    beside :
        (at from count : ℕ)
        → (at + count ≤ type3_start j) ⊎ (type2_start j ≤ at)
        → Agrees moved.memory at j.content from count
        → Agrees (overwrite moved.memory (type3_start j) (type3_payload j)) at j.content from count
    beside at from count side v =
        Agrees-overwrite_beside moved.memory (type3_start j) (type3_payload j) at j.content from
          count (omega (arith, length-type3_payload, room))
          (elim side [ inl x ↦ inl x | inr x ↦ inr (omega (arith, length-type3_payload, x)) ]) v

    of_bit :
        (if j.of_fragment_no == num j then true else b.received j.of_fragment_no)
        ≡ b.received j.of_fragment_no
    of_bit = ground (arith, of-num)

    inner_bit : (m : ℕ) → m < num j → (if m == num j then true else b.received m) ≡ b.received m
    inner_bit m h = ground arith

    num_bit : (if num j == num j then true else b.received (num j)) ≡ true
    num_bit = ground arith

    pub Keeps-type3 :
        Keeps j source
          (bucket_with b
            (num j)
            (length (type3_payload j))
            (record moved { memory = overwrite moved.memory (type3_start j) (type3_payload j) }))
          (record moved { memory = overwrite moved.memory (type3_start j) (type3_payload j) })
    Keeps-type3 = record {
      saved_frame_no = keeps.saved_frame_no;
      stream_id = keeps.stream_id;
      source_id = keeps.source_id;
      of_fragment_no = keeps.of_fragment_no;
      fragment_size = keeps.fragment_size;
      type3_size = rw (need, num_bit) length-type3_payload;
      type2_size = rw of_bit keeps.type2_size;
      alone = rw of_bit keeps.alone;
      type1s = λ m h e.
          beside (j.type1_payload_size * m) (j.type1_payload_size * m) j.type1_payload_size
            (inl (slot_le j.type1_payload_size m (num j) h)) (inner m h (sym (inner_bit m h) ∙ e));
      type3s = λ _ _.
          Agrees-overwrite moved.memory (type3_start j) j.content (type3_start j)
            j.cut.type3_data_size (omega (arith, s.covers)) room;
      type2s =
          rw (need, num_bit, of_bit)
            (λ e.
              beside (type2_start j) (type2_start j) j.cut.type2_data_size (inr (omega arith))
                (behind e));
      whole = rw of_bit (λ e _. whole e);
      described = rw of_bit (λ e.
          let d = keeps.described e in
          record {
            payload_type = d.payload_type;
            payload_code = d.payload_code;
            pts = d.pts;
            dts = d.dts;
            flags = d.flags;
          });
    }
