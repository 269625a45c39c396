-- ===== src/Sender/BundleRun.antt =====
-- `sendFragmentedBundled` comes to its end inside its buffers.
use new_efp.Common.{
  ℕ, zero, suc, ◌+◌, ◌-◌, ◌*◌, ◌%◌, ◌^◌, ◌≤◌, ◌<◌, ◌≡◌, refl, ap, ◌∙◌, false, [], ◌∷◌, ◌++◌, Option,
  some, ltb, min, arith, length, take, drop, Bool-cases, inl, inr,
}
use new_efp.Common.Memory.{
  Bytes, overwrite, write_at-eq, read_at-eq, length-overwrite, length-take-drop,
}
use new_efp.Wire.{type4, make_frame_type_byte}
use new_efp.Wire.Headers.{encode_type1, encode_type4}
use new_efp.Sender.State.{Sender, invoke_bundle_callback, count_fragment}
use new_efp.Sender.Retention.{retain_fragment}
use new_efp.Sender.Fragments.{Job, type1_header}
use new_efp.Sender.PlanBounds.{Fits}
use new_efp.Sender.SingleSpec.{send_type2-Sent, send_type3-Sent}
use new_efp.Sender.Bundles.{
  choose_retransmit, bundle_type1s, retransmit_count, send_bundle, send_bundles,
  send_fragmented_bundled,
}
use new_efp.Sender.BundleContent.{bundle_packet, bundle_packet-read}
use new_efp.Sender.BundleRoom.{
  KeepsRoom, KeepsRoom-refl, KeepsRoom-trans, retained-KeepsRoom, choose-Chosen,
  place_first-returns, mul_le, add_mul, all_sent,
}

module _ (j : Job) where
  bundle_type1s-returns :
      (count fragment_no offset at : ℕ) (buffer : Bytes) (s : Sender)
      → offset + count * j.type1_payload_size ≤ length j.content
      → at + count * (8 + j.type1_payload_size) ≤ length buffer
      → (buffer' : Bytes) × (t : Sender) × (bundle_type1s count j fragment_no offset at buffer s
          ≡ some (
            offset + count * j.type1_payload_size,
            at + count * (8 + j.type1_payload_size),
            buffer',
            t,
          ))
        × (length buffer' ≡ length buffer)
        × KeepsRoom s t
  unfolding bundle_type1s encode_type1
  bundle_type1s-returns zero fragment_no offset at buffer s inside fits =
      let same_offset : offset ≡ offset + 0 * j.type1_payload_size = omega arith in
      let same_at : at ≡ at + 0 * (8 + j.type1_payload_size) = omega arith in
      (
        buffer,
        s,
        ap (λ o. some (o, at, buffer, s)) same_offset
            ∙ ap (λ a. some (offset + 0 * j.type1_payload_size, a, buffer, s)) same_at,
        refl,
        KeepsRoom-refl s,
      )
  bundle_type1s-returns (suc count) fragment_no offset at buffer s inside fits =
      let t1 = j.type1_payload_size in
      let payload = take t1 (drop offset j.content) in
      let header = encode_type1 (type1_header j (fragment_no % 2 ^ 16)) in
      let first : offset + t1 ≤ length j.content = grind arith in
      let long : length payload ≡ t1 = length-take-drop j.content offset t1 first in
      let room : at + (8 + t1) ≤ length buffer = grind arith in
      let room1 : at + length header ≤ length buffer = omega (arith, room) in
      let one = overwrite buffer at header in
      let len1 : length one ≡ length buffer = length-overwrite buffer at header room1 in
      let room2 : at + 8 + length payload ≤ length one = omega (arith, room, long, len1) in
      let two = overwrite one (at + 8) payload in
      let len2 : length two ≡ length buffer = length-overwrite one (at + 8) payload room2 ∙ len1 in
      let room3 : at + (8 + t1) ≤ length two = omega (arith, room, len2) in
      let packet = take (8 + t1) (drop at two) in
      let s' =
        count_fragment
          (retain_fragment j.super_frame_no (fragment_no % 2 ^ 16) j.stream_id packet s) in
      let (buffer', t, e, same, kept) =
        bundle_type1s-returns count (fragment_no + 1) (offset + t1) (at + (8 + t1)) two s'
          (grind arith) (grind (arith, len2)) in
      let offset_end : offset + t1 + count * t1 ≡ offset + suc count * t1 = grind arith in
      let at_end : at + (8 + t1) + count * (8 + t1) ≡ at + suc count * (8 + t1) = grind arith in
      (
        buffer',
        t,
        rw (read_at-eq j.content offset t1 first) (
            rw (write_at-eq buffer at header room1) (
              rw (write_at-eq one (at + 8) payload room2) (
                rw (read_at-eq two at (8 + t1) room3) (
                  e
                  ∙ ap (λ o. some (o, at + (8 + t1) + count * (8 + t1), buffer', t)) offset_end
                  ∙ ap (λ a. some (offset + suc count * t1, a, buffer', t)) at_end)))),
        same ∙ len2,
        KeepsRoom-trans
            (retained-KeepsRoom j.super_frame_no (fragment_no % 2 ^ 16) j.stream_id packet s) kept,
      )

  -- For a packet to send again of the size of a Type1 packet, or none, and a bundle that fits the
  -- bundle buffer and the frame, a bundle is given to the callback as one packet: its header with
  -- the number of its packets in one byte, the packet that is sent again, and the new Type1 packets of the
  -- frame in order; the buffers keep their lengths.
  pub send_bundle-Sends :
      (again : Option Bytes) (frags fragment_no offset : ℕ) (s : Sender)
      → ((b : Bytes) → again ≡ some b → length b ≡ 8 + j.type1_payload_size)
      → offset + frags * j.type1_payload_size ≤ length j.content
      → 2
          + (retransmit_count again * (8 + j.type1_payload_size)
              + frags * (8 + j.type1_payload_size))
        ≤ length s.bundle_buffer
      → (t : Sender) × (send_bundle j again frags fragment_no offset s
          ≡ some (offset + frags * j.type1_payload_size, t))
        × (t.sent ≡ s.sent ++ ((bundle_packet j again frags fragment_no offset, j.stream_id) ∷ []))
        × KeepsRoom s t
  unfolding send_bundle encode_type4 invoke_bundle_callback
  send_bundle-Sends again frags fragment_no offset s size inside fits =
      let frame = 8 + j.type1_payload_size in
      let header = encode_type4 (record {
        frame_type = make_frame_type_byte type4 j.flags;
        frame_count = (frags + retransmit_count again) % 256;
      }) in
      let room : 0 + length header ≤ length s.bundle_buffer = omega (arith, fits) in
      let zeroth = overwrite s.bundle_buffer 0 header in
      let len0 : length zeroth ≡ length s.bundle_buffer =
        length-overwrite s.bundle_buffer 0 header room in
      let (first, e1, len1) =
        place_first-returns again frame zeroth size (omega (arith, fits, len0)) in
      let (buffer, t, e2, len2, kept) =
        bundle_type1s-returns frags fragment_no offset (2 + retransmit_count again * frame) first s
          inside (omega (arith, fits, len0, len1)) in
      let total = 2 + retransmit_count again * frame + frags * frame in
      let whole : 0 + total ≤ length buffer = omega (arith, fits, len0, len1, len2) in
      let (packet, sent) =
        bundle_packet-read j again frags fragment_no offset (2 + retransmit_count again * frame)
          total s.bundle_buffer first buffer s t _ size inside (omega (arith, fits))
          (omega (arith, fits, len0, len1)) e1 e2 in
      (
        invoke_bundle_callback (record t { bundle_buffer = buffer }) (take total (drop 0 buffer))
            j.stream_id,
        rw (write_at-eq s.bundle_buffer 0 header room)
            (rw e1 (rw e2 (rw (read_at-eq buffer 0 total whole) refl))),
        rw (sent, packet) refl,
        record { mtu = kept.mtu; send_room = kept.send_room; bundle_room = len2 ∙ len1 ∙ len0 },
      )

  send_bundles-returns :
      (fuel bundle index offset : ℕ) (s : Sender)
      → 0 < bundle
      → 2 + bundle * (8 + j.type1_payload_size) ≤ length s.bundle_buffer
      → j.cut.num_type1_fragments * j.type1_payload_size ≤ length j.content
      → offset ≡ index * j.type1_payload_size
      → index ≤ j.cut.num_type1_fragments
      → j.cut.num_type1_fragments ≤ index + fuel
      → (t : Sender) × (send_bundles fuel j bundle index offset s
          ≡ some (j.cut.num_type1_fragments * j.type1_payload_size, t))
        × KeepsRoom s t
  unfolding send_bundles
  send_bundles-returns zero bundle index offset s some_bundle room inside at low high =
      let all : index ≡ j.cut.num_type1_fragments = omega arith in
      let over : ltb index j.cut.num_type1_fragments ≡ false = ground (arith, all) in
      (
        s,
        rw over (all_sent index j.cut.num_type1_fragments j.type1_payload_size offset s all at),
        KeepsRoom-refl s,
      )
  send_bundles-returns (suc fuel) bundle index offset s some_bundle room inside at low high =
      let n = j.cut.num_type1_fragments in
      let t1 = j.type1_payload_size in
      elim (Bool-cases (ltb index n)) [
        | inl e ↦
            let behind : index < n = ground (arith, e) in
            let frags = min bundle (n - index) in
            let c = choose_retransmit (8 + t1) frags s in
            let chosen = choose-Chosen (8 + t1) frags s (omega (arith, behind)) in
            let parts : (index + c.1) * t1 ≤ n * t1 =
              mul_le (index + c.1) n t1 (omega (arith, chosen.room, behind)) in
            let split : (index + c.1) * t1 ≡ index * t1 + c.1 * t1 = add_mul index c.1 t1 in
            let wide : (retransmit_count c.0 + c.1) * (8 + t1) ≤ bundle * (8 + t1) =
              mul_le (retransmit_count c.0 + c.1) bundle (8 + t1) (omega (arith, chosen.room)) in
            let split2 : (retransmit_count c.0 + c.1) * (8 + t1)
                ≡ retransmit_count c.0 * (8 + t1) + c.1 * (8 + t1) =
              add_mul (retransmit_count c.0) c.1 (8 + t1) in
            let (u, e1, sends, kept1) =
              send_bundle-Sends c.0 c.1 index offset c.2 chosen.size
                (omega (arith, at, parts, split, inside))
                (omega (arith, room, wide, split2, chosen.keeps.bundle_room)) in
            let (t, e2, kept2) =
              send_bundles-returns fuel bundle (index + c.1) (offset + c.1 * t1) u some_bundle
                (omega (arith, room, kept1.bundle_room, chosen.keeps.bundle_room)) inside
                (omega (arith, at, split)) (omega (arith, chosen.room, behind))
                (omega (arith, chosen.some_new)) in
            (
              t,
              rw (e, send_bundles) (rw e1 e2),
              KeepsRoom-trans {u = t} chosen.keeps (KeepsRoom-trans {t = u} {u = t} kept1 kept2),
            )
        | inr e ↦
            let all : index ≡ n = ground (arith, e) in
            (s, rw (e, send_bundles) (all_sent index n t1 offset s all at), KeepsRoom-refl s)
      ]

  -- For a frame that is cut to fit, a bundle of at least one packet that fits the bundle buffer,
  -- and a send buffer of the length of the MTU, `sendFragmentedBundled` comes to its end without
  -- leaving a buffer, whatever is queued for retransmission: the loop ends within as many rounds as
  -- there are Type1 fragments.
  pub send_fragmented_bundled-returns :
      (bundle : ℕ) (s : Sender)
      → 0 < bundle
      → 2 + bundle * (8 + j.type1_payload_size) ≤ length s.bundle_buffer
      → 8 + j.type1_payload_size ≤ s.mtu
      → length s.send_buffer ≡ s.mtu
      → Fits s.mtu (length j.content) j.type1_payload_size j.cut
      → (t : Sender) × (send_fragmented_bundled j bundle s ≡ some t)
  unfolding send_fragmented_bundled
  send_fragmented_bundled-returns bundle s some_bundle room type1_room send_room fits =
      let n = j.cut.num_type1_fragments * j.type1_payload_size in
      let (a, e1, kept) =
        send_bundles-returns j.cut.num_type1_fragments bundle 0 0 s some_bundle room
          (omega (arith, fits.covers)) (omega arith) (omega arith) (omega arith) in
      let wide : length a.send_buffer ≡ s.mtu = kept.send_room ∙ send_room in
      let (b, e2, second) =
        send_type3-Sent j n a (omega (arith, fits.covers))
          (omega (arith, wide, type1_room, fits.type3_fits)) fits.type3_absent in
      let (c, e3, third) =
        send_type2-Sent j (n + j.cut.type3_data_size) b (omega (arith, fits.covers))
          (omega (arith, wide, second.room, fits.type2_fits)) in
      (c, rw e1 (rw e2 e3))
