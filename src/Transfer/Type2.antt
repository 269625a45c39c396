-- ===== src/Transfer/Type2.antt =====
-- The Type2 packet of a frame whose bucket is open.
pub mod Taken
use new_efp.Common.{
  ℕ, ◌+◌, ◌-◌, ◌*◌, ◌%◌, ◌^◌, ◌≤◌, ◌<◌, ◌≡◌, refl, sym, ◌∙◌, true, false, Bool, some, ◌==◌,
  if◌then◌else◌, arith, length, bit_and, Bool-cases, inl, inr, ◌⊎◌, ==_iff, ==_refl, lt→ltb,
}
use new_efp.Common.Memory.{overwrite, write_at-eq, length-take-drop, slot_le}
use new_efp.Common.Agree.{Agrees, Agrees-overwrite, Agrees-overwrite_beside}
use new_efp.Wire.{Result, ok, duplicate_fragment, get_flags, max_superframe_size}
use new_efp.Sender.Fragments.{Job, type2_header}
use new_efp.Receiver.State.{
  Receiver, Bucket, Assembly, count_received, count_duplicate, set_bucket, threaded,
}
use new_efp.Receiver.Type2.{
  dts_of, cache_stream, type2_offset, type2_actual_size, type2_store, type2_existing, type2_arrived,
}
use new_efp.Receiver.Invariant.{Holds}
use new_efp.Transfer.Packets.{IsSendable, num, type3_start, type2_start, type2_payload}
use new_efp.Transfer.Assembling.{Keeps, type2_place, bucket_of, Took, set_bucket-Holding}

-- The bucket after the Type2 fragment has come.
abbrev pub bucket_with : Job → Bucket → Assembly → Bucket
bucket_with j b a = record b {
  received = λ m. if m == j.of_fragment_no then true else b.received m;
  fragment_count = (b.fragment_count + 1) % 2 ^ 16;
  pts = j.pts;
  payload_type = j.payload_type;
  payload_code = j.payload_code;
  flags = get_flags (type2_header j).frame_type;
  type2_size = (type2_header j).size_of_data;
  dts = dts_of (type2_header j);
  frame = some a;
}

module _ (j : Job) (s : IsSendable j) (source : ℕ) where
  pub length-type2_payload : length (type2_payload j) ≡ j.cut.type2_data_size
  length-type2_payload =
      length-take-drop j.content (type2_start j) j.cut.type2_data_size (omega (arith, s.covers))

  pub size_of_data : j.cut.type2_data_size % 2 ^ 16 ≡ j.cut.type2_data_size
  size_of_data = omega (arith, s.type2_data_size)

  pub type1_size : j.type1_payload_size % 2 ^ 16 ≡ j.type1_payload_size
  type1_size = omega (arith, s.type1_payload_size)

  -- The Type2 payload never stands behind the place of the last full fragment.
  start_le : type2_start j ≤ j.type1_payload_size * j.of_fragment_no
  start_le = elim (Bool-cases j.cut.needs_type3) [
    | inl e ↦ omega (
      arith,
      s.type3_short,
      slot_le j.type1_payload_size (num j) j.of_fragment_no (ground (arith, s.counted, e)),
    )
    | inr e ↦ ground (arith, s.type3_absent, s.counted, e)
  ]

  pub place_le : (bits : ℕ → Bool) → type2_place j bits ≤ j.type1_payload_size * j.of_fragment_no
  place_le bits = ground (arith, start_le)

  start_le_place : (bits : ℕ → Bool) → type2_start j ≤ type2_place j bits
  start_le_place bits = ground (arith, start_le)

  pub type2_small :
      j.type1_payload_size * j.of_fragment_no + j.cut.type2_data_size ≤ max_superframe_size
  type2_small = elim (Bool-cases (j.of_fragment_no == 0)) [
    | inl e ↦
        let absent : j.of_fragment_no ≡ 0 = (==_iff j.of_fragment_no 0).0 e in
        ground (arith, absent, s.whole, s.covers, s.counted)
    | inr e ↦
        let padded : j.type1_payload_size * j.of_fragment_no + j.type1_payload_size
            ≤ max_superframe_size =
          grind (arith, s.padded) in
        ground (arith, padded, s.type2_short)
  ]

  module _ (b : Bucket) (a : Assembly) (keeps : Keeps j source b a) where
    -- Type3 has come, or it has not, or there is absent.
    place_cases :
        ((b.type3_size ≡ j.cut.type3_data_size)
          × (0 < j.cut.type3_data_size)
          × (j.of_fragment_no - 1 ≡ num j)
          × (type2_place j b.received ≡ type2_start j))
        ⊎ ((b.type3_size ≡ 0)
            × (type2_place j b.received ≡ j.type1_payload_size * j.of_fragment_no))
    place_cases = elim (Bool-cases j.cut.needs_type3) [
      | inl e ↦ elim (Bool-cases (b.received (num j))) [
        | inl f ↦ inl (
          keeps.type3_size ∙ rw (e, f) refl,
          s.type3_filled e,
          ground (arith, s.counted, e),
          rw (e, f) refl,
        )
        | inr f ↦ inr (keeps.type3_size ∙ rw (e, f) refl, rw (e, f) refl)
      ]
      | inr e ↦ inr (keeps.type3_size ∙ rw e refl, rw e (absent e))
    ]
      where
        absent : j.cut.needs_type3 ≡ false → type2_start j ≡ j.type1_payload_size * j.of_fragment_no
        absent e =
            let of_is_num : j.of_fragment_no ≡ num j = ground (arith, s.counted, e) in
            rw of_is_num (omega (arith, s.type3_absent e))

    pub offset-place : type2_offset (type2_header j) b ≡ type2_place j b.received
    unfolding type2_offset
    offset-place = elim place_cases [
      | inl (size, filled, prev, at) ↦
          rw (at, size, lt→ltb _ _ filled, prev, keeps.fragment_size) refl
      | inr (size, at) ↦ rw (at, size, type1_size) refl
    ]

    pub actual-place :
        type2_actual_size (type2_header j) b ≡ type2_place j b.received + j.cut.type2_data_size
    unfolding type2_actual_size
    actual-place = elim place_cases [
      | inl (size, filled, prev, at) ↦
          rw (at, size, lt→ltb _ _ filled, prev, keeps.fragment_size, size_of_data) refl
      | inr (size, at) ↦ rw (at, size, keeps.fragment_size, size_of_data) refl
    ]

    module _ (room : type2_place j b.received + j.cut.type2_data_size ≤ length a.memory) where
      beside :
          (at from count : ℕ)
          → at + count ≤ type2_place j b.received
          → Agrees a.memory at j.content from count
          → Agrees
              (overwrite a.memory (type2_place j b.received) (type2_payload j))
              at
              j.content
              from
              count
      beside at from count before v =
          Agrees-overwrite_beside a.memory (type2_place j b.received) (type2_payload j) at j.content
            from count (omega (arith, length-type2_payload, room)) (inl before) v

      inner_bit :
          (m : ℕ)
          → m < num j
          → (if m == j.of_fragment_no then true else b.received m) ≡ b.received m
      inner_bit m h = ground (arith, s.counted)

      num_bit :
          j.cut.needs_type3 ≡ true
          → (if num j == j.of_fragment_no then true else b.received (num j)) ≡ b.received (num j)
      num_bit need = ground (arith, s.counted, need)

      place_with :
          type2_place j (λ m. if m == j.of_fragment_no then true else b.received m)
          ≡ type2_place j b.received
      place_with = ground (arith, num_bit)

      sized :
          (j.cut.needs_type3 ≡ true → b.received (num j) ≡ true)
          → type2_place j b.received + j.cut.type2_data_size ≡ length j.content
      sized all = ground (arith, all, s.covers)

      pub Keeps-type2 :
          Keeps j source
            (bucket_with j b (record {
              memory = overwrite a.memory (type2_place j b.received) (type2_payload j);
              size = type2_place j b.received + j.cut.type2_data_size;
            }))
            (record {
              memory = overwrite a.memory (type2_place j b.received) (type2_payload j);
              size = type2_place j b.received + j.cut.type2_data_size;
            })
      Keeps-type2 = record {
        saved_frame_no = keeps.saved_frame_no;
        stream_id = keeps.stream_id;
        source_id = keeps.source_id;
        of_fragment_no = keeps.of_fragment_no;
        fragment_size = keeps.fragment_size;
        type3_size = ground (arith, num_bit, keeps.type3_size);
        type2_size = rw (==_refl j.of_fragment_no) size_of_data;
        alone = λ _. rw (==_refl j.of_fragment_no) refl;
        type1s = λ m h e.
            beside (j.type1_payload_size * m) (j.type1_payload_size * m) j.type1_payload_size
              (omega (arith, slot_le j.type1_payload_size m (num j) h, start_le_place b.received))
              (keeps.type1s m h (sym (inner_bit m h) ∙ e));
        type3s = λ need e.
            beside (type3_start j) (type3_start j) j.cut.type3_data_size (start_le_place b.received)
              (keeps.type3s need (sym (num_bit need) ∙ e));
        type2s = λ _. rw place_with (
            Agrees-overwrite a.memory (type2_place j b.received) j.content (type2_start j)
              j.cut.type2_data_size (omega (arith, s.covers)) room);
        whole = λ _ all. sized (λ need. sym (num_bit need) ∙ all need);
        described = λ _. record {
          payload_type = refl;
          payload_code = refl;
          pts = refl;
          dts = refl;
          flags = refl;
        };
      }
