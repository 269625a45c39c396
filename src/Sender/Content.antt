-- ===== src/Sender/Content.antt =====
-- The packets of a frame that is sent in single mode carry its bytes.
use new_efp.Common.{
  ℕ, zero, suc, ◌+◌, ◌*◌, ◌%◌, ◌^◌, ◌≤◌, ◌<◌, ◌≡◌, refl, sym, ap, subst, ◌∙◌, true, false, List, [],
  ◌∷◌, ◌++◌, All, arith, length, take, drop, take-take-drop, drop-drop, take_all, Bool-cases, inl,
  inr,
}
use mathlib.Core.List.{append_assoc, append-nil}
use new_efp.Common.Memory.{Bytes, length-take-drop}
use new_efp.Wire.{FrameType, type1, type2, type3, get_frame_type}
use new_efp.Wire.FirstByte.{first_byte_fields}
use new_efp.Wire.Headers.{u8_at, encode_type1, encode_type2, encode_type3}
use new_efp.Sender.Fragments.{Job, type1_header, type2_header, type3_header}
use new_efp.Sender.PlanBounds.{Fits}
use new_efp.Sender.SingleSpec.{piece, type1_packets, type2_packet, type3_packets, packets}

-- The size of the header that a frame type has.
abbrev pub header_size : FrameType → ℕ
header_size type2 = 27
header_size other = 8

-- What stands behind the header of a packet.
unfoldable pub payload_of : Bytes → Bytes
payload_of packet = drop (header_size (get_frame_type (u8_at packet 0))) packet

unfoldable pub contents : List Bytes → Bytes
contents [] = []
contents (p ∷ ps) = payload_of p ++ contents ps

-- Packets of at most an MTU whose payloads, one behind the other, are the bytes of a frame.
pub record Carries (mtu : ℕ) (content : Bytes) (ps : List Bytes) : Type 0 where
  pub whole : contents ps ≡ content
  pub small : All (λ p. length p ≤ mtu) ps

contents-append : (ps qs : List Bytes) → contents (ps ++ qs) ≡ contents ps ++ contents qs
unfolding contents
contents-append [] qs = refl
contents-append (p ∷ ps) qs =
    ap (λ l. payload_of p ++ l) (contents-append ps qs) ∙ sym (append_assoc (payload_of p) _ _)

Carries-append :
    {mtu : ℕ} {a b : Bytes} (ps qs : List Bytes)
    → Carries mtu a ps
    → Carries mtu b qs
    → Carries mtu (a ++ b) (ps ++ qs)
Carries-append {mtu} {a} {b} ps qs v w = record {
  whole = rw (contents-append ps qs, v.whole, w.whole) refl;
  small = both ps v.small;
}
  where
    both : (l : List Bytes) → All (λ p. length p ≤ mtu) l → All (λ p. length p ≤ mtu) (l ++ qs)
    both [] u = w.small
    both (p ∷ l) u = (u.0, both l u.1)

module _ (j : Job) (byte : j.flags < 256) where
  payload-type1 :
      (fragment_no : ℕ) (payload : Bytes)
      → payload_of (encode_type1 (type1_header j fragment_no) ++ payload) ≡ payload
  unfolding payload_of encode_type1
  payload-type1 fragment_no payload = rw ((first_byte_fields type1 j.flags tt byte).0) refl

  payload-type2 :
      (payload : Bytes) → payload_of (encode_type2 (type2_header j) ++ payload) ≡ payload
  unfolding payload_of encode_type2
  payload-type2 payload = rw ((first_byte_fields type2 j.flags tt byte).0) refl

  payload-type3 :
      (payload : Bytes) → payload_of (encode_type3 (type3_header j) ++ payload) ≡ payload
  unfolding payload_of encode_type3
  payload-type3 payload = rw ((first_byte_fields type3 j.flags tt byte).0) refl

  module _ (mtu : ℕ) where
    one_type1 :
        (fragment_no offset : ℕ)
        → offset + j.type1_payload_size ≤ length j.content
        → 8 + j.type1_payload_size ≤ mtu
        → Carries mtu (piece j offset j.type1_payload_size) (
            (encode_type1 (type1_header j fragment_no) ++ piece j offset j.type1_payload_size) ∷ [])
    unfolding contents encode_type1
    one_type1 fragment_no offset inside fits = record {
      whole = append-nil _ ∙ payload-type1 fragment_no _;
      small = (omega (arith, length-take-drop j.content offset j.type1_payload_size inside), tt);
    }

    pub one_type2 :
        (offset : ℕ)
        → offset + j.cut.type2_data_size ≤ length j.content
        → j.cut.type2_data_size + 27 ≤ mtu
        → Carries mtu (piece j offset j.cut.type2_data_size) (type2_packet j offset ∷ [])
    unfolding contents encode_type2
    one_type2 offset inside fits = record {
      whole = append-nil _ ∙ payload-type2 _;
      small = (omega (arith, length-take-drop j.content offset j.cut.type2_data_size inside), tt);
    }

    one_type3 :
        (offset : ℕ)
        → offset + j.cut.type3_data_size ≤ length j.content
        → 8 + j.cut.type3_data_size ≤ mtu
        → Carries mtu (piece j offset j.cut.type3_data_size) (type3_packets true j offset)
    unfolding contents encode_type3
    one_type3 offset inside fits = record {
      whole = append-nil _ ∙ payload-type3 _;
      small = (omega (arith, length-take-drop j.content offset j.cut.type3_data_size inside), tt);
    }

    some_type3 :
        (offset : ℕ)
        → offset + j.cut.type3_data_size ≤ length j.content
        → 8 + j.cut.type3_data_size ≤ mtu
        → (j.cut.needs_type3 ≡ false → j.cut.type3_data_size ≡ 0)
        → Carries mtu
            (piece j offset j.cut.type3_data_size)
            (type3_packets j.cut.needs_type3 j offset)
    unfolding contents
    some_type3 offset inside fits absent = elim (Bool-cases j.cut.needs_type3) [
      | inl e ↦ simp e (one_type3 offset inside fits)
      | inr e ↦ simp e (record { whole = simp (absent e) refl; small = tt })
    ]

    -- Two pieces that touch are one.
    piece-piece :
        (offset m n : ℕ) → piece j offset (m + n) ≡ piece j offset m ++ piece j (offset + m) n
    piece-piece offset m n =
        take-take-drop m n (drop offset j.content)
        ∙ ap (λ b. piece j offset m ++ take n b) (drop-drop offset m j.content)

    many_type1 :
        (count fragment_no offset : ℕ)
        → offset + count * j.type1_payload_size ≤ length j.content
        → 8 + j.type1_payload_size ≤ mtu
        → Carries mtu
            (piece j offset (count * j.type1_payload_size))
            (type1_packets count j fragment_no offset)
    unfolding type1_packets contents
    many_type1 zero fragment_no offset inside fits =
        let none_yet : 0 * j.type1_payload_size ≡ 0 = omega arith in
        record { whole = ap (λ n. piece j offset n) (sym none_yet); small = tt }
    many_type1 (suc count) fragment_no offset inside fits =
        let t1 = j.type1_payload_size in
        let sum : t1 + count * t1 ≡ suc count * t1 = grind arith in
        subst (λ b. Carries mtu b (type1_packets (suc count) j fragment_no offset))
          (sym (piece-piece offset t1 (count * t1)) ∙ ap (λ n. piece j offset n) sum)
          (Carries-append _ _ (one_type1 (fragment_no % 2 ^ 16) offset (grind arith) fits)
            (many_type1 count (fragment_no + 1) (offset + t1) (grind arith) fits))

    -- For a frame that is cut to fit, with flags that are a byte and Type1 packets that fit the MTU,
    -- the payloads of the specified packets, one behind the other, are the bytes of the frame, and
    -- no packet is longer than the MTU.
    pub packets-Carries :
        Fits mtu (length j.content) j.type1_payload_size j.cut
        → 8 + j.type1_payload_size ≤ mtu
        → Carries mtu j.content (packets j)
    unfolding packets
    packets-Carries fits total =
        let n = j.cut.num_type1_fragments * j.type1_payload_size in
        let t3 = j.cut.type3_data_size in
        let t2 = j.cut.type2_data_size in
        let start : 0 + n ≡ n = omega arith in
        let sum : n + (t3 + t2) ≡ length j.content = omega (arith, fits.covers) in
        let cut_up : piece j 0 n ++ (piece j n t3 ++ piece j (n + t3) t2) ≡ j.content =
          ap (λ b. piece j 0 n ++ b) (sym (piece-piece n t3 t2))
          ∙ ap (λ o. piece j 0 n ++ piece j o (t3 + t2)) (sym start)
          ∙ sym (piece-piece 0 n (t3 + t2))
          ∙ take_all (n + (t3 + t2)) j.content (omega (arith, sum)) in
        subst (λ b. Carries mtu b (packets j)) cut_up
          (Carries-append _ _ (many_type1 j.cut.num_type1_fragments 0 0 (omega (arith, sum)) total)
            (Carries-append _ _
              (some_type3 n (omega (arith, sum)) (omega (arith, total, fits.type3_fits))
                fits.type3_absent)
              (one_type2 (n + t3) (omega (arith, sum)) fits.type2_fits)))
