-- ===== src/Transfer/InOrder.antt =====
-- The packets that a sender gives to its callback are the packets of the frame by their numbers.
use new_efp.Common.{
  ℕ, zero, suc, ◌+◌, ◌-◌, ◌*◌, ◌%◌, ◌^◌, ◌≤◌, ◌<◌, ◌≡◌, refl, ap, sym, ◌∙◌, true, false, List, [],
  ◌∷◌, ◌++◌, map, All, arith, length, get_or, ltb, ◌==◌, Bool-cases, inl, inr, get_or-append,
  length-append,
}
use new_efp.Common.Memory.{Bytes}
use new_efp.Wire.Headers.{encode_type1}
use new_efp.Sender.Fragments.{Job, type1_header}
use new_efp.Sender.SingleSpec.{piece, type1_packets, type3_packets, type2_packet, packets}
use new_efp.Transfer.Packets.{IsSendable, num, type2_start, type3_start, fragment}

module _ (j : Job) where
  length-type1_packets : (n first offset : ℕ) → length (type1_packets n j first offset) ≡ n
  unfolding type1_packets
  length-type1_packets zero first offset = refl
  length-type1_packets (suc n) first offset =
      ap suc (length-type1_packets n (first + 1) (offset + j.type1_payload_size))

  get_or-type1_packets :
      (n first offset k : ℕ)
      → k < n
      → get_or (type1_packets n j first offset) k []
        ≡ encode_type1 (type1_header j ((first + k) % 2 ^ 16))
          ++ piece j (offset + j.type1_payload_size * k) j.type1_payload_size
  unfolding type1_packets
  get_or-type1_packets zero first offset k h = absurd (omega arith)
  get_or-type1_packets (suc n) first offset zero h =
      let same : first + 0 ≡ first = omega arith in
      let here : offset + j.type1_payload_size * 0 ≡ offset = omega arith in rw (same, here) refl
  get_or-type1_packets (suc n) first offset (suc k) h =
      let same : first + 1 + k ≡ first + suc k = omega arith in
      let here : offset + j.type1_payload_size + j.type1_payload_size * k
          ≡ offset + j.type1_payload_size * suc k =
        grind arith in
      rw (← same, ← here)
        (get_or-type1_packets n (first + 1) (offset + j.type1_payload_size) k (omega arith))

  module _ (s : IsSendable j) where
    pub length-packets : length (packets j) ≡ j.of_fragment_no + 1
    unfolding packets
    length-packets = elim (Bool-cases j.cut.needs_type3) [
      | inl e ↦ rw e (
          ground (
            arith,
            s.counted,
            e,
            length-append (type1_packets (num j) j 0 0) (
                type3_packets true j (num j * j.type1_payload_size)
                ++ (type2_packet j (num j * j.type1_payload_size + j.cut.type3_data_size) ∷ [])),
            length-type1_packets (num j) 0 0,
          ))
      | inr e ↦ rw e (
          ground (
            arith,
            s.counted,
            e,
            length-append (type1_packets (num j) j 0 0)
                (type2_packet j (num j * j.type1_payload_size + j.cut.type3_data_size) ∷ []),
            length-type1_packets (num j) 0 0,
          ))
    ]

    start_comm : num j * j.type1_payload_size ≡ type3_start j
    start_comm = grind arith

    -- The packets behind the Type1 packets.
    abbrev last_packets : List Bytes
    last_packets =
        type3_packets j.cut.needs_type3 j (type3_start j) ++ (type2_packet j (type2_start j) ∷ [])

    packets-split : packets j ≡ type1_packets (num j) j 0 0 ++ last_packets
    unfolding packets
    packets-split = rw start_comm refl

    one_of_first : (k : ℕ) → k < num j → fragment j k ≡ get_or (type1_packets (num j) j 0 0) k []
    unfolding fragment
    one_of_first k h =
        let other : (k == j.of_fragment_no) ≡ false = ground (arith, s.counted) in
        let inner : ltb k (num j) ≡ true = ground arith in
        let number : (0 + k) % 2 ^ 16 ≡ k = omega (arith, s.counted, s.few) in
        let here : 0 + j.type1_payload_size * k ≡ j.type1_payload_size * k = omega arith in
        rw (other, inner) (sym (get_or-type1_packets (num j) 0 0 k h ∙ rw (number, here) refl))

    one_of_last :
        (k : ℕ)
        → k ≤ j.of_fragment_no
        → num j ≤ k
        → fragment j k ≡ get_or last_packets (k - num j) []
    unfolding fragment
    one_of_last k le behind =
        let outer : ltb k (num j) ≡ false = ground arith in
        elim (Bool-cases j.cut.needs_type3) [
          | inl e ↦ elim (Bool-cases (k == j.of_fragment_no)) [
            | inl f ↦ let at : k - num j ≡ 1 = ground (arith, s.counted, e, f) in rw (e, f, at) refl
            | inr f ↦
                let at : k - num j ≡ 0 = ground (arith, s.counted, e, f) in
                rw (e, f, at, outer) refl
          ]
          | inr e ↦
              let f : (k == j.of_fragment_no) ≡ true = ground (arith, s.counted, e) in
              let at : k - num j ≡ 0 = ground (arith, s.counted, e, f) in rw (e, f, at) refl
        ]

    pub get_or-packets : (k : ℕ) → k ≤ j.of_fragment_no → get_or (packets j) k [] ≡ fragment j k
    get_or-packets k le = elim (Bool-cases (ltb k (num j))) [
      | inl e ↦ rw packets-split (
          get_or-append (type1_packets (num j) j 0 0) last_packets k []
          ∙ rw (length-type1_packets (num j) 0 0, e) (sym (one_of_first k (ground (arith, e)))))
      | inr e ↦ rw packets-split (
          get_or-append (type1_packets (num j) j 0 0) last_packets k []
          ∙ rw (length-type1_packets (num j) 0 0, e) (sym (one_of_last k le (ground (arith, e)))))
    ]

    -- A choice of packets is the fragments of those numbers.
    pub map-packets :
        (ks : List ℕ)
        → All (λ k. k ≤ j.of_fragment_no) ks
        → map (λ k. get_or (packets j) k []) ks ≡ map (fragment j) ks
    map-packets [] le = refl
    map-packets (k ∷ ks) le = rw (get_or-packets k le.0, map-packets ks le.1) refl
