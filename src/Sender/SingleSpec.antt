-- ===== src/Sender/SingleSpec.antt =====
-- What a frame looks like on the wire when each fragment is a packet of its own, and that
-- `sendFragmentedSingle` and `sendType2Only` send just that.
use new_efp.Common.{
  ℕ, zero, suc, ◌+◌, ◌*◌, ◌%◌, ◌^◌, ◌≤◌, ◌≡◌, refl, sym, ap, ◌∙◌, Bool, true, false, List, [], ◌∷◌,
  ◌++◌, map, Option, some, arith, length, take, drop, ◌>>=◌, Bool-cases, inl, inr,
}
use mathlib.Core.List.{append_assoc, append-nil, map-append}
use new_efp.Common.Memory.{Bytes, read_at, fill, fill_packet, read_at-eq, length-take-drop}
use new_efp.Wire.Headers.{encode_type1, encode_type2, encode_type3}
use new_efp.Sender.State.{Sender, invoke_callback}
use new_efp.Sender.PlanBounds.{Fits}
use new_efp.Sender.Retention.{retain_fragment}
use new_efp.Sender.Unchanged.{retain_fragment-Same}
use new_efp.Sender.Fragments.{
  Job, type1_header, type2_header, type3_header, emit, send_type1, send_type1s, send_type3,
  send_type3_packet, send_type2, send_fragmented_single,
}

-- `count` bytes of the frame from `offset` on.
abbrev pub piece : Job → ℕ → ℕ → Bytes
piece j offset count = take count (drop offset j.content)

unfoldable pub type1_packets : ℕ → Job → ℕ → ℕ → List Bytes
type1_packets zero j fragment_no offset = []
type1_packets (suc count) j fragment_no offset =
    (encode_type1 (type1_header j (fragment_no % 2 ^ 16)) ++ piece j offset j.type1_payload_size)
    ∷ type1_packets count j (fragment_no + 1) (offset + j.type1_payload_size)

abbrev pub type3_packets : Bool → Job → ℕ → List Bytes
type3_packets true j offset =
    (encode_type3 (type3_header j) ++ piece j offset j.cut.type3_data_size) ∷ []
type3_packets false j offset = []

abbrev pub type2_packet : Job → ℕ → Bytes
type2_packet j offset = encode_type2 (type2_header j) ++ piece j offset j.cut.type2_data_size

-- The packets of a frame, in order: Type1, Type3 where the plan has one, Type2.
unfoldable pub packets : Job → List Bytes
packets j =
    let offset = j.cut.num_type1_fragments * j.type1_payload_size in
    type1_packets j.cut.num_type1_fragments j 0 0
    ++ (type3_packets j.cut.needs_type3 j offset
        ++ (type2_packet j (offset + j.cut.type3_data_size) ∷ []))

abbrev pub on_stream : ℕ → List Bytes → List (Bytes × ℕ)
on_stream stream = map (λ p. (p, stream))

-- A run of a sender that gave packets to the callback and left its buffer as long as its MTU.
pub record Sent (s t : Sender) (stream : ℕ) (ps : List Bytes) : Type 0 where
  pub mtu : t.mtu ≡ s.mtu
  pub room : length t.send_buffer ≡ length s.send_buffer
  pub sent : t.sent ≡ s.sent ++ on_stream stream ps

emit-Sent :
    (sf frag stream : ℕ) (buffer packet : Bytes) (size : ℕ) (s : Sender)
    → length buffer ≡ length s.send_buffer
    → read_at buffer 0 size ≡ some packet
    → (t : Sender) × (emit sf frag stream buffer size s ≡ some t) × Sent s t stream (packet ∷ [])
unfolding emit invoke_callback
emit-Sent sf frag stream buffer packet size s same e =
    let start = record s { send_buffer = buffer } in
    let kept = retain_fragment-Same sf frag stream packet start in
    (
      invoke_callback (retain_fragment sf frag stream packet start) packet stream,
      rw e,
      record {
        mtu = kept.mtu;
        room = ap length kept.send_buffer ∙ same;
        sent = ap (λ l. l ++ ((packet, stream) ∷ [])) kept.sent;
      },
    )

-- Reading a payload, putting it behind its header in the send buffer, and sending the two.
post : Bytes → ℕ → ℕ → Bytes → ℕ → ℕ → ℕ → ℕ → Sender → Option Sender
post content offset count header sf frag stream size s = do
  payload ← read_at content offset count
  buffer ← fill s.send_buffer header payload
  emit sf frag stream buffer size s

post-Sent :
    (content : Bytes) (offset count : ℕ) (header : Bytes) (sf frag stream size : ℕ) (s : Sender)
    → offset + count ≤ length content
    → length header + count ≡ size
    → size ≤ length s.send_buffer
    → (t : Sender) × (post content offset count header sf frag stream size s ≡ some t)
      × Sent s t stream ((header ++ take count (drop offset content)) ∷ [])
unfolding post
post-Sent content offset count header sf frag stream size s inside total fits =
    let payload = take count (drop offset content) in
    let long : length payload ≡ count = length-take-drop content offset count inside in
    let (buffer, filled, same, back) =
      fill_packet s.send_buffer header payload (omega (arith, long)) in
    let whole : length header + length payload ≡ size = omega (arith, long) in
    let (t, e, sent) =
      emit-Sent sf frag stream buffer (header ++ payload) size s same (rw whole at back) in
    (t, rw (read_at-eq content offset count inside) (rw filled e), sent)

Sent-trans :
    {s t u : Sender} {stream : ℕ} (ps qs : List Bytes)
    → Sent s t stream ps
    → Sent t u stream qs
    → Sent s u stream (ps ++ qs)
Sent-trans {s} {t} {u} {stream} ps qs a b = record {
  mtu = b.mtu ∙ a.mtu;
  room = b.room ∙ a.room;
  sent = b.sent ∙ rw (a.sent, map-append) (append_assoc s.sent _ _);
}

Sent-refl : (s : Sender) (stream : ℕ) → Sent s s stream []
Sent-refl s stream = record { mtu = refl; room = refl; sent = sym (append-nil s.sent) }

module _ (j : Job) where
  send_type1-Sent :
      (fragment_no offset : ℕ) (s : Sender)
      → offset + j.type1_payload_size ≤ length j.content
      → 8 + j.type1_payload_size ≡ s.mtu
      → s.mtu ≤ length s.send_buffer
      → (t : Sender) × (send_type1 j fragment_no offset s ≡ some t)
        × Sent s t j.stream_id (type1_packets 1 j fragment_no offset)
  unfolding send_type1 type1_packets encode_type1 post
  send_type1-Sent fragment_no offset s inside total fits =
      post-Sent j.content offset j.type1_payload_size _ j.super_frame_no _ j.stream_id s.mtu s
        inside total fits

  send_type3_packet-Sent :
      (offset : ℕ) (s : Sender)
      → offset + j.cut.type3_data_size ≤ length j.content
      → 8 + j.cut.type3_data_size ≤ length s.send_buffer
      → (t : Sender) × (send_type3_packet j offset s ≡ some t)
        × Sent s t j.stream_id (type3_packets true j offset)
  unfolding send_type3_packet encode_type3 post
  send_type3_packet-Sent offset s inside fits =
      post-Sent j.content offset j.cut.type3_data_size _ j.super_frame_no _ j.stream_id _ s inside
        refl fits

  pub send_type3-Sent :
      (offset : ℕ) (s : Sender)
      → offset + j.cut.type3_data_size ≤ length j.content
      → 8 + j.cut.type3_data_size ≤ length s.send_buffer
      → (j.cut.needs_type3 ≡ false → j.cut.type3_data_size ≡ 0)
      → (t : Sender) × (send_type3 j offset s ≡ some (offset + j.cut.type3_data_size, t))
        × Sent s t j.stream_id (type3_packets j.cut.needs_type3 j offset)
  unfolding send_type3
  send_type3-Sent offset s inside fits absent = elim (Bool-cases j.cut.needs_type3) [
    | inl e ↦
        let (t, sends, sent) = send_type3_packet-Sent offset s inside fits in
        (t, simp (e, sends), simp e sent)
    | inr e ↦
        let offset_stays : offset ≡ offset + j.cut.type3_data_size = omega (arith, absent e) in
        (s, simp e (ap (λ o. some (o, s)) offset_stays), simp e (Sent-refl s j.stream_id))
  ]

  pub send_type2-Sent :
      (offset : ℕ) (s : Sender)
      → offset + j.cut.type2_data_size ≤ length j.content
      → 27 + j.cut.type2_data_size ≤ length s.send_buffer
      → (t : Sender) × (send_type2 j offset s ≡ some t)
        × Sent s t j.stream_id (type2_packet j offset ∷ [])
  unfolding send_type2 encode_type2 post
  send_type2-Sent offset s inside fits =
      post-Sent j.content offset j.cut.type2_data_size _ j.super_frame_no _ j.stream_id _ s inside
        refl fits

  send_type1s-Sent :
      (count fragment_no offset : ℕ) (s : Sender)
      → offset + count * j.type1_payload_size ≤ length j.content
      → 8 + j.type1_payload_size ≡ s.mtu
      → s.mtu ≤ length s.send_buffer
      → (t : Sender) × (send_type1s count j fragment_no offset s
          ≡ some (offset + count * j.type1_payload_size, t))
        × Sent s t j.stream_id (type1_packets count j fragment_no offset)
  unfolding send_type1s type1_packets
  send_type1s-Sent zero fragment_no offset s inside total fits =
      let offset_stays : offset ≡ offset + 0 * j.type1_payload_size = omega arith in
      (s, ap (λ o. some (o, s)) offset_stays, Sent-refl s j.stream_id)
  send_type1s-Sent (suc count) fragment_no offset s inside total fits =
      let t1 = j.type1_payload_size in
      let (u, e, first) = send_type1-Sent fragment_no offset s (grind arith) total fits in
      let (t, f, rest) =
        send_type1s-Sent count (fragment_no + 1) (offset + t1) u (grind arith)
          (total ∙ sym first.mtu) (omega (arith, first.mtu, first.room)) in
      let same : offset + t1 + count * t1 ≡ offset + suc count * t1 = grind arith in
      (t, rw e (f ∙ ap (λ o. some (o, t)) same), Sent-trans _ _ first rest)

  -- For a frame that is cut to fit, with Type1 packets as long as the MTU and a send buffer of that
  -- length, `sendFragmentedSingle` comes to its end without leaving a buffer, and it has given just
  -- the packets of the specification to the callback, in order.
  pub send_fragmented_single-Sent :
      (s : Sender)
      → Fits s.mtu (length j.content) j.type1_payload_size j.cut
      → 8 + j.type1_payload_size ≡ s.mtu
      → length s.send_buffer ≡ s.mtu
      → (t : Sender) × (send_fragmented_single j s ≡ some t) × Sent s t j.stream_id (packets j)
  unfolding send_fragmented_single packets
  send_fragmented_single-Sent s fits total room =
      let num = j.cut.num_type1_fragments in
      let t1 = j.type1_payload_size in
      let behind : 0 + num * t1 ≡ num * t1 = omega arith in
      let (a, e1, first) =
        send_type1s-Sent num 0 0 s (omega (arith, fits.covers)) total (omega (arith, room)) in
      let wide : length a.send_buffer ≡ 8 + t1 = first.room ∙ room ∙ sym total in
      let (b, e2, second) =
        send_type3-Sent (num * t1) a (omega (arith, fits.covers))
          (omega (arith, wide, fits.type3_fits)) fits.type3_absent in
      let (c, e3, third) =
        send_type2-Sent (num * t1 + j.cut.type3_data_size) b (omega (arith, fits.covers))
          (omega (arith, wide, total, second.room, fits.type2_fits)) in
      (
        c,
        rw (e1 ∙ ap (λ o. some (o, a)) behind) (rw e2 e3),
        Sent-trans _ _ first (Sent-trans _ _ second third),
      )
