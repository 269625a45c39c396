-- ===== src/Sender/BundleContent.antt =====
-- What stands in a bundle of `sendFragmentedBundled`.
use new_efp.Common.{
  ℕ, zero, suc, ◌+◌, ◌*◌, ◌%◌, ◌^◌, ◌≤◌, ◌≡◌, refl, ap, sym, ◌∙◌, List, [], ◌∷◌, ◌++◌, Option, none,
  some, arith, length, take, drop,
}
use mathlib.Core.List.{append_assoc, append-nil}
use mathlib.Core.Option.{some-injective}
use new_efp.Common.Memory.{
  Bytes, overwrite, write_at-eq, read_at-eq, length-overwrite, length-take-drop, take-overwrite,
}
use new_efp.Wire.{type4, make_frame_type_byte}
use new_efp.Wire.Headers.{encode_type1, encode_type4}
use new_efp.Sender.State.{Sender, count_fragment}
use new_efp.Sender.Unchanged.{retain_fragment-Same}
use new_efp.Sender.Fragments.{Job, type1_header}
use new_efp.Sender.SingleSpec.{piece, type1_packets}
use new_efp.Sender.Bundles.{bundle_type1s, place_first, retransmit_count}

-- Packets, one behind the other.
pub flat : List Bytes → Bytes
flat [] = []
flat (p ∷ ps) = p ++ flat ps

abbrev pub again_bytes : Option Bytes → Bytes
again_bytes none = []
again_bytes (some b) = b

-- A bundle: its header, the packet that is sent again, and the Type1 packets behind it.
abbrev pub bundle_packet : Job → Option Bytes → ℕ → ℕ → ℕ → Bytes
bundle_packet j again frags fragment_no offset =
    encode_type4 (record {
      frame_type = make_frame_type_byte type4 j.flags;
      frame_count = (frags + retransmit_count again) % 256;
    })
    ++ (again_bytes again ++ flat (type1_packets frags j fragment_no offset))

pub place_first-Content :
    (again : Option Bytes) (buffer buffer' : Bytes) (at : ℕ)
    → 2 + length (again_bytes again) ≤ length buffer
    → place_first again buffer ≡ some (at, buffer')
    → take at buffer' ≡ take 2 buffer ++ again_bytes again
unfolding place_first
place_first-Content none buffer buffer' at fits e =
    let same = some-injective _ _ e in
    sym (ap (λ (p : ℕ × Bytes). take p.0 p.1) same) ∙ sym (append-nil (take 2 buffer))
place_first-Content (some b) buffer buffer' at fits e =
    let same = some-injective _ _ (rw (write_at-eq buffer 2 b fits) at e) in
    sym (ap (λ (p : ℕ × Bytes). take p.0 p.1) same) ∙ take-overwrite buffer 2 b fits

again_length :
    (again : Option Bytes) (size : ℕ)
    → ((b : Bytes) → again ≡ some b → length b ≡ size)
    → length (again_bytes again) ≡ retransmit_count again * size
again_length none size same = omega arith
again_length (some b) size same = omega (arith, same b refl)

module _ (j : Job) where
  -- One Type1 packet behind what stands in the buffer.
  type1_written :
      (fragment_no offset at : ℕ) (buffer : Bytes)
      → offset + j.type1_payload_size ≤ length j.content
      → at + (8 + j.type1_payload_size) ≤ length buffer
      → take (at + (8 + j.type1_payload_size)) (
          overwrite
            (overwrite buffer at (encode_type1 (type1_header j fragment_no)))
            (at + 8)
            (piece j offset j.type1_payload_size))
        ≡ take at buffer
          ++ (encode_type1 (type1_header j fragment_no) ++ piece j offset j.type1_payload_size)
  unfolding encode_type1
  type1_written fragment_no offset at buffer inside fits =
      let header = encode_type1 (type1_header j fragment_no) in
      let payload = piece j offset j.type1_payload_size in
      let long : length payload ≡ j.type1_payload_size =
        length-take-drop j.content offset j.type1_payload_size inside in
      let one = overwrite buffer at header in
      let same : length one ≡ length buffer =
        length-overwrite buffer at header (omega (arith, fits)) in
      let end : at + (8 + j.type1_payload_size) ≡ at + 8 + length payload = omega (arith, long) in
      ap (λ n. take n (overwrite one (at + 8) payload)) end
      ∙ take-overwrite one (at + 8) payload (omega (arith, fits, same, long))
      ∙ ap (λ front. front ++ payload) (take-overwrite buffer at header (omega (arith, fits)))
      ∙ append_assoc (take at buffer) header payload

  pub bundle_type1s-Content :
      (count fragment_no offset at : ℕ) (buffer : Bytes) (s : Sender) (offset' at' : ℕ)
      (buffer' : Bytes) (t : Sender)
      → offset + count * j.type1_payload_size ≤ length j.content
      → at + count * (8 + j.type1_payload_size) ≤ length buffer
      → bundle_type1s count j fragment_no offset at buffer s ≡ some (offset', at', buffer', t)
      → (take at' buffer' ≡ take at buffer ++ flat (type1_packets count j fragment_no offset))
        × (t.sent ≡ s.sent)
  unfolding bundle_type1s type1_packets flat encode_type1 count_fragment
  bundle_type1s-Content zero fragment_no offset at buffer s offset' at' buffer' t inside fits e =
      let same = some-injective _ _ e in
      (
        sym (ap (λ (p : ℕ × ℕ × Bytes × Sender). take p.1 p.2) same)
            ∙ sym (append-nil (take at buffer)),
        sym (ap (λ (p : ℕ × ℕ × Bytes × Sender). p.3.sent) same),
      )
  bundle_type1s-Content (suc count) fragment_no offset at buffer s offset' at' buffer' t inside fits
        e =
      let t1 = j.type1_payload_size in
      let payload = piece j offset t1 in
      let header = encode_type1 (type1_header j (fragment_no % 2 ^ 16)) in
      let first : offset + t1 ≤ length j.content = grind arith in
      let long : length payload ≡ t1 = length-take-drop j.content offset t1 first in
      let room : at + (8 + t1) ≤ length buffer = grind arith in
      let room1 : at + length header ≤ length buffer = omega (arith, room) in
      let one = overwrite buffer at header in
      let len1 : length one ≡ length buffer = length-overwrite buffer at header room1 in
      let room2 : at + 8 + length payload ≤ length one = omega (arith, room, long, len1) in
      let two = overwrite one (at + 8) payload in
      let len2 : length two ≡ length buffer = length-overwrite one (at + 8) payload room2 ∙ len1 in
      let packet = take (8 + t1) (drop at two) in
      let kept =
        retain_fragment-Same j.super_frame_no (fragment_no % 2 ^ 16) j.stream_id packet s in
      let rest =
        rw
          (
            read_at-eq j.content offset t1 first,
            write_at-eq buffer at header room1,
            write_at-eq one (at + 8) payload room2,
            read_at-eq two at (8 + t1) (omega (arith, room, len2)),
          )
          at e in
      let (written, sent) =
        bundle_type1s-Content count (fragment_no + 1) (offset + t1) (at + (8 + t1)) two _ offset'
          at' buffer' t (grind arith) (grind (arith, len2)) rest in
      (
        written
            ∙ ap (λ front. front ++ flat (type1_packets count j (fragment_no + 1) (offset + t1)))
                (type1_written (fragment_no % 2 ^ 16) offset at buffer first room)
            ∙ append_assoc (take at buffer) (header ++ payload) _,
        sent ∙ kept.sent,
      )

-- What is read from a buffer that was written in this order.
pub bundle_packet-read :
    (j : Job) (again : Option Bytes) (frags fragment_no offset at total : ℕ)
    (buffer first last : Bytes) (s t : Sender) (end : ℕ)
    → ((b : Bytes) → again ≡ some b → length b ≡ 8 + j.type1_payload_size)
    → offset + frags * j.type1_payload_size ≤ length j.content
    → 2 + retransmit_count again * (8 + j.type1_payload_size) ≤ length buffer
    → at + frags * (8 + j.type1_payload_size) ≤ length first
    → place_first again (
        overwrite buffer 0 (
          encode_type4 (record {
            frame_type = make_frame_type_byte type4 j.flags;
            frame_count = (frags + retransmit_count again) % 256;
          })))
      ≡ some (at, first)
    → bundle_type1s frags j fragment_no offset at first s ≡ some (end, total, last, t)
    → (take total last ≡ bundle_packet j again frags fragment_no offset) × (t.sent ≡ s.sent)
unfolding encode_type4
bundle_packet-read j again frags fragment_no offset at total buffer first last s t end size inside
      room fits e f =
    let header = encode_type4 (record {
      frame_type = make_frame_type_byte type4 j.flags;
      frame_count = (frags + retransmit_count again) % 256;
    }) in
    let short : 0 + length header ≤ length buffer = omega (arith, room) in
    let same : length (overwrite buffer 0 header) ≡ length buffer =
      length-overwrite buffer 0 header short in
    let (written, sent) =
      bundle_type1s-Content j frags fragment_no offset at first s end total last t inside fits f in
    let begins =
      place_first-Content again (overwrite buffer 0 header) first at
        (omega (arith, room, same, again_length again (8 + j.type1_payload_size) size)) e in
    let all = flat (type1_packets frags j fragment_no offset) in
    (
      written
          ∙ ap (λ front. front ++ all)
              (begins ∙ ap (λ h. h ++ again_bytes again) (take-overwrite buffer 0 header short))
          ∙ append_assoc header (again_bytes again) all,
      sent,
    )
