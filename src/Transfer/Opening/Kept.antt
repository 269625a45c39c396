-- ===== src/Transfer/Opening/Kept.antt =====
-- What a bucket holds after the packet that opens it.
use new_efp.Common.{
  ℕ, ◌+◌, ◌-◌, ◌*◌, ◌%◌, ◌^◌, ◌≤◌, ◌<◌, ◌≡◌, refl, true, false, ◌==◌, arith, length, Bool-cases,
  inl, inr, ==_iff, ==_refl,
}
use new_efp.Common.Int.{ℤ}
use new_efp.Common.Memory.{Bytes, overwrite, slot_le}
use new_efp.Common.Agree.{Agrees-overwrite}
use new_efp.Sender.Fragments.{Job, type1_header, type2_header, type3_header}
use new_efp.Receiver.State.{Receiver}
use new_efp.Receiver.Type1.{type1_opening}
use new_efp.Receiver.Type2.{type2_opening}
use new_efp.Receiver.Type3.{type3_opening}
use new_efp.Transfer.Packets.{
  IsSendable, num, type3_start, type2_start, type1_payload, type2_payload, type3_payload,
}
use new_efp.Transfer.Assembling.{Keeps, type2_place}
use new_efp.Transfer.Type1.{length-type1_payload}
use new_efp.Transfer.Type3.{length-type3_payload}
use new_efp.Transfer.Opening.{opened_with}

module _ (j : Job) (s : IsSendable j) (source now : ℕ) (order : ℤ) (r : Receiver) where
  -- In block of the padded size a piece of a fragment has room.
  pub padded_room :
      (k : ℕ)
      → k < j.of_fragment_no + 1
      → j.type1_payload_size * k + j.type1_payload_size
        ≤ j.type1_payload_size * (j.of_fragment_no + 1)
  padded_room k h = slot_le j.type1_payload_size k (j.of_fragment_no + 1) h

  pub Keeps-type1_opening :
      (k : ℕ) (block : Bytes)
      → k < num j
      → length block ≡ j.type1_payload_size * (j.of_fragment_no + 1)
      → let o = type1_opening (type1_header j k) (length (type1_payload j k)) source r in
        Keeps j source
          (opened_with o now order r block (type1_payload j k))
          (record { memory = overwrite block o.offset (type1_payload j k); size = o.total })
  Keeps-type1_opening k block inner long =
      let whole : length (type1_payload j k) ≡ j.type1_payload_size =
        length-type1_payload j s source k inner in
      let num_bit : (num j == k) ≡ false = ground arith in
      let of_bit : (j.of_fragment_no == k) ≡ false = ground (arith, s.counted) in
      let le : num j ≤ j.of_fragment_no = omega (arith, s.counted) in
      record {
        saved_frame_no = refl;
        stream_id = refl;
        source_id = refl;
        of_fragment_no = refl;
        fragment_size = whole;
        type3_size = rw num_bit (ground arith);
        type2_size = rw of_bit refl;
        alone = λ e. absurd (omega (arith, le, e));
        type1s = λ m h e.
            let m_is_k : m ≡ k = (==_iff m k).0 e in
            rw (m_is_k, whole)
              (Agrees-overwrite block (j.type1_payload_size * k) j.content
                (j.type1_payload_size * k) j.type1_payload_size
                (omega (arith, slot_le j.type1_payload_size k (num j) inner, s.covers))
                (omega (arith, long, padded_room k (omega (arith, le)))));
        type3s = λ need e. cc (e, num_bit);
        type2s = λ e. cc (e, of_bit);
        whole = λ e. cc (e, of_bit);
        described = λ e. cc (e, of_bit);
      }

  pub Keeps-type3_opening :
      (block : Bytes)
      → j.cut.needs_type3 ≡ true
      → length block ≡ j.type1_payload_size * (j.of_fragment_no + 1)
      → let o = type3_opening (type3_header j) (length (type3_payload j)) source r in
        Keeps j source
          (opened_with o now order r block (type3_payload j))
          (record { memory = overwrite block o.offset (type3_payload j); size = o.total })
  Keeps-type3_opening block need long =
      let whole : length (type3_payload j) ≡ j.cut.type3_data_size =
        length-type3_payload j s source need in
      let of_is : j.of_fragment_no ≡ num j + 1 = ground (arith, s.counted, need) in
      let prev : j.of_fragment_no - 1 ≡ num j = omega (arith, of_is) in
      let size : j.type1_payload_size % 2 ^ 16 ≡ j.type1_payload_size =
        omega (arith, s.type1_payload_size) in
      let of_bit : (j.of_fragment_no == j.of_fragment_no - 1) ≡ false = ground (arith, of_is) in
      let num_bit : (num j == num j) ≡ true = ==_refl (num j) in
      record {
        saved_frame_no = refl;
        stream_id = refl;
        source_id = refl;
        of_fragment_no = refl;
        fragment_size = size;
        type3_size = rw (need, prev, num_bit) whole;
        type2_size = rw of_bit refl;
        alone = λ e. absurd (omega (arith, of_is, e));
        type1s = λ m h e. absurd (ground (arith, of_is, h, e));
        type3s = λ _ e.
            rw (size, prev)
              (Agrees-overwrite block (type3_start j) j.content (type3_start j)
                j.cut.type3_data_size (omega (arith, s.covers))
                (omega (arith, long, s.type3_short, padded_room (num j) (omega (arith, of_is)))));
        type2s = λ e. cc (e, of_bit);
        whole = λ e. cc (e, of_bit);
        described = λ e. cc (e, of_bit);
      }

  num_bit : j.cut.needs_type3 ≡ true → (num j == j.of_fragment_no) ≡ false
  num_bit need = ground (arith, s.counted, need)

  -- Without a Type3 fragment the last one begins behind the Type1 fragments.
  last_start : j.cut.needs_type3 ≡ false → type2_start j ≡ j.type1_payload_size * j.of_fragment_no
  last_start absent =
      let same : j.of_fragment_no ≡ num j = ground (arith, s.counted, absent) in
      rw same (omega (arith, s.type3_absent absent))

  alone_place : type2_place j (λ k. k == j.of_fragment_no) ≡ j.type1_payload_size * j.of_fragment_no
  alone_place = elim (Bool-cases j.cut.needs_type3) [
    | inl need ↦ rw (need, num_bit need) refl
    | inr absent ↦ rw absent (last_start absent)
  ]

  alone_size :
      (j.cut.needs_type3 ≡ true → ⊥)
      → j.type1_payload_size * j.of_fragment_no + j.cut.type2_data_size ≡ length j.content
  alone_size absent = elim (Bool-cases j.cut.needs_type3) [
    | inl need ↦ absurd (absent need)
    | inr absent ↦ omega (arith, last_start absent, s.covers)
  ]

  pub Keeps-type2_opening :
      (block : Bytes)
      → length block ≡ j.type1_payload_size * j.of_fragment_no + j.cut.type2_data_size
      → let o = type2_opening (type2_header j) source in
        Keeps j source
          (opened_with o now order r block (type2_payload j))
          (record { memory = overwrite block o.offset (type2_payload j); size = o.total })
  Keeps-type2_opening block long =
      let size : j.type1_payload_size % 2 ^ 16 ≡ j.type1_payload_size =
        omega (arith, s.type1_payload_size) in
      let size2 : j.cut.type2_data_size % 2 ^ 16 ≡ j.cut.type2_data_size =
        omega (arith, s.type2_data_size) in
      record {
        saved_frame_no = refl;
        stream_id = refl;
        source_id = refl;
        of_fragment_no = refl;
        fragment_size = size;
        type3_size = ground (arith, num_bit);
        type2_size = rw (==_refl j.of_fragment_no) size2;
        alone = λ _. ==_refl j.of_fragment_no;
        type1s = λ m h e. absurd (ground (arith, s.counted, h, e));
        type3s = λ need e. absurd (ground (arith, s.counted, need, e));
        type2s = λ _.
            rw (alone_place, size)
              (Agrees-overwrite block (j.type1_payload_size * j.of_fragment_no) j.content
                (type2_start j) j.cut.type2_data_size (omega (arith, s.covers))
                (omega (arith, long)));
        whole = λ _ all. rw (size, size2) (alone_size (λ need. cc (all need, num_bit need)));
        described = λ _. record {
          payload_type = refl;
          payload_code = refl;
          pts = refl;
          dts = refl;
          flags = refl;
        };
      }
