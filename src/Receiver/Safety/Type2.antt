-- ===== src/Receiver/Safety/Type2.antt =====
-- `handleType2` stays inside the frame's memory.
use new_efp.Common.{
  ℕ, zero, suc, ◌+◌, ◌*◌, ◌%◌, ◌^◌, ◌≤◌, ◌<◌, ◌≡◌, refl, ap, true, false, some, ◌==◌, if◌then◌else◌,
  arith, length, drop, inl, inr, ◌⊎◌, bit_and,
}
use new_efp.Common.Memory.{Bytes, overwrite, write_at-eq, length-overwrite}
use new_efp.Common.Int.{ℤ}
use new_efp.Wire.{get_flags}
use new_efp.Wire.Headers.{FrameType2, decode_type2}
use new_efp.Receiver.State.{
  Receiver, Bucket, Assembly, count_received, recalculate_super_frame_no, arrive,
}
use new_efp.Receiver.Open.{open_bucket}
use new_efp.Receiver.Type2.{
  type2_opening, type2_new, type2_offset, type2_actual_size, type2_store, type2_existing,
  type2_arrived, handle_type2, cache_stream, dts_of,
}
use new_efp.Receiver.Invariant.{
  Holds, IsValid, IsValid-of_same, Safe, safe, Kept, Kept-Safe, set_bucket-IsValid,
  count_true-update, count_true-le,
}
use new_efp.Receiver.Safety.Opening.{
  OpeningFits, open_bucket-Safe, arrive-IsValid, recalculate-IsValid, recalculate-idle,
}

-- What the handler has checked before it stores a Type2 payload.
record Fitting (h : FrameType2) (payload : Bytes) (b : Bucket) : Type 0 where
  same_count : h.of_fragment_no ≡ b.of_fragment_no
  same_size : 0 < h.of_fragment_no → h.type1_packet_size ≡ b.fragment_size
  missing : b.received h.of_fragment_no ≡ false
  inside : type2_offset h b + h.size_of_data ≤ b.fragment_size * (b.of_fragment_no + 1)
  whole : length payload ≡ h.size_of_data

same_offset : (n t1 size : ℕ) → (0 < n → t1 ≡ size) → t1 * n ≡ size * n
same_offset zero t1 size e = omega arith
same_offset (suc n) t1 size e = ap (λ (x : ℕ). x * suc n) (e (omega arith))

type2_size-offset :
    (h : FrameType2) (payload : Bytes) (b : Bucket)
    → Fitting h payload b
    → type2_actual_size h b ≡ type2_offset h b + h.size_of_data
unfolding type2_actual_size type2_offset
type2_size-offset h payload b f =
    ground (arith, same_offset h.of_fragment_no h.type1_packet_size b.fragment_size f.same_size)

type2_offset_plain :
    (h : FrameType2) (payload : Bytes) (b : Bucket)
    → Fitting h payload b
    → b.type3_size ≡ 0
    → type2_offset h b ≡ b.fragment_size * b.of_fragment_no
unfolding type2_offset
type2_offset_plain h payload b f e = ground (
  arith,
  f.same_count,
  same_offset h.of_fragment_no h.type1_packet_size b.fragment_size f.same_size,
)

type2_store-Safe :
    (h : FrameType2) (payload : Bytes) (i : ℕ) (b : Bucket) (a : Assembly) (r : Receiver)
    → IsValid r
    → b.active ≡ true
    → b.delivery_order ≡ (r.buckets i).delivery_order
    → b.frame ≡ some a
    → Holds b a
    → Fitting h payload b
    → Safe (type2_store h payload i b r)
unfolding type2_store
type2_store-Safe h payload i b a r v active order has held f = simp has (
    rw (write_at-eq a.memory (type2_offset h b) payload room) (
      safe (
        set_bucket-IsValid (cache_stream h (count_received r)) i _
          (IsValid-of_same r _ refl refl refl refl v) active order (λ e. (_, refl, after)))))
  where
    room : type2_offset h b + length payload ≤ length a.memory
    room = ground (arith, f.inside, f.whole, f.same_count, f.missing, held.last_fits)

    no_type3 : b.type3_size ≡ 0 → type2_offset h b ≡ b.fragment_size * b.of_fragment_no
    no_type3 e = type2_offset_plain h payload b f e

    memory : Bytes
    memory = overwrite a.memory (type2_offset h b) payload

    after :
        Holds
          (record b {
            received = λ k. if k == h.of_fragment_no then true else b.received k;
            fragment_count = (b.fragment_count + 1) % 2 ^ 16;
            pts = h.pts;
            payload_type = h.payload_type;
            payload_code = h.payload_code;
            flags = get_flags h.frame_type;
            type2_size = h.size_of_data;
            dts = dts_of h;
            frame = some (record { memory = memory; size = type2_actual_size h b });
          })
          (record { memory = memory; size = type2_actual_size h b })
    after = ground (
      arith,
      length-overwrite a.memory (type2_offset h b) payload room,
      room,
      f.whole,
      f.same_count,
      f.missing,
      type2_size-offset h payload b f,
      no_type3,
      count_true-update (suc b.of_fragment_no) h.of_fragment_no b.received
          (omega (arith, f.same_count)) f.missing,
      count_true-le (suc b.of_fragment_no) b.received,
    )

type2_existing_cases :
    (h : FrameType2) (payload : Bytes) (source i : ℕ) (b : Bucket) (r : Receiver)
    → length payload ≡ h.size_of_data
    → ((type2_existing h payload source i b r ≡ type2_store h payload i b r) × Fitting h payload b)
      ⊎ Kept r (type2_existing h payload source i b r)
unfolding type2_existing
type2_existing_cases h payload source i b r e = ground arith

type2_existing-Safe :
    (h : FrameType2) (payload : Bytes) (source i : ℕ) (b : Bucket) (r : Receiver)
    → length payload ≡ h.size_of_data
    → IsValid r
    → b.active ≡ true
    → b.delivery_order ≡ (r.buckets i).delivery_order
    → (a : Assembly) × (b.frame ≡ some a) × Holds b a
    → Safe (type2_existing h payload source i b r)
type2_existing-Safe h payload source i b r whole v active order (a, has, held) =
    elim (type2_existing_cases h payload source i b r whole) [
      | inl (e, f) ↦ rw e (type2_store-Safe h payload i b a r v active order has held f)
      | inr k ↦ Kept-Safe _ k v
    ]

type2_new_cases :
    (h : FrameType2) (payload : Bytes) (source i now : ℕ) (order : ℤ) (r : Receiver)
    → (type2_new h payload source i now (order, r)
        ≡ open_bucket (type2_opening h source) i now order payload (cache_stream h r))
      ⊎ Kept r (type2_new h payload source i now (order, r))
type2_new_cases h payload source i now order r = ground arith

type2_opening-OpeningFits :
    (h : FrameType2) (payload : Bytes) (source : ℕ)
    → length payload ≡ h.size_of_data
    → h.of_fragment_no < 8192
    → OpeningFits (type2_opening h source) payload
type2_opening-OpeningFits h payload source whole bounded = record {
  inside = omega (arith, whole);
  of_bounded = bounded;
  first_bounded = omega arith;
  inner_fit = omega arith;
  last_fits = λ n. absurd (n refl);
  type2_fits = λ _. omega arith;
  type3_first = λ n. absurd (omega arith);
}

type2_new-Safe :
    (h : FrameType2) (payload : Bytes) (source i now : ℕ) (order : ℤ) (r : Receiver)
    → length payload ≡ h.size_of_data
    → h.of_fragment_no < 8192
    → (r.buckets i).active ≡ false
    → IsValid r
    → Safe (type2_new h payload source i now (order, r))
type2_new-Safe h payload source i now order r whole bounded idle v =
    elim (type2_new_cases h payload source i now order r) [
      | inl e ↦ rw e (
          open_bucket-Safe _ i now order payload (cache_stream h r)
            (type2_opening-OpeningFits h payload source whole bounded) idle
            (IsValid-of_same r _ refl refl refl refl v))
      | inr k ↦ Kept-Safe _ k v
    ]

type2_arrived_cases :
    (h : FrameType2) (payload : Bytes) (source now : ℕ) (r : Receiver)
    → let i = bit_and h.super_frame_no r.buffer_size in
      ((length payload ≡ h.size_of_data)
        × (h.of_fragment_no < 8192)
        × ((((r.buckets i).active ≡ true)
              × (type2_arrived h payload source (now, r)
                  ≡ type2_existing h payload source i (r.buckets i) r))
            ⊎ (((r.buckets i).active ≡ false)
                × (type2_arrived h payload source (now, r)
                    ≡ type2_new h payload source i now
                        (recalculate_super_frame_no h.super_frame_no r)))))
      ⊎ Kept r (type2_arrived h payload source (now, r))
unfolding type2_arrived
type2_arrived_cases h payload source now r = ground arith

type2_arrived-Safe :
    (h : FrameType2) (payload : Bytes) (source now : ℕ) (r : Receiver)
    → IsValid r
    → Safe (type2_arrived h payload source (now, r))
type2_arrived-Safe h payload source now r v =
    let i = bit_and h.super_frame_no r.buffer_size in
    elim (type2_arrived_cases h payload source now r) [
      | inl (whole, bounded, inl (a, e)) ↦
          rw e (type2_existing-Safe h payload source i _ r whole v a refl (v.buckets i a))
      | inl (whole, bounded, inr (idle, e)) ↦ rw e (
          type2_new-Safe h payload source i now (recalculate_super_frame_no h.super_frame_no r).0 _
            whole bounded (recalculate-idle h.super_frame_no i r idle)
            (recalculate-IsValid h.super_frame_no r v))
      | inr k ↦ Kept-Safe _ k v
    ]

handle_type2_cases :
    (packet : Bytes) (source : ℕ) (r : Receiver)
    → (handle_type2 packet source r
        ≡ type2_arrived (decode_type2 packet) (drop 27 packet) source (arrive r))
      ⊎ Kept r (handle_type2 packet source r)
unfolding handle_type2
handle_type2_cases packet source r = ground arith

-- In a valid receiver the Type2 handler returns a result for every packet, with no copy outside the
-- frame's memory, and the receiver is valid again.
pub handle_type2-Safe :
    (packet : Bytes) (source : ℕ) (r : Receiver) → IsValid r → Safe (handle_type2 packet source r)
handle_type2-Safe packet source r v = elim (handle_type2_cases packet source r) [
  | inl e ↦ rw e (type2_arrived-Safe (decode_type2 packet) _ source _ _ (arrive-IsValid r v))
  | inr k ↦ Kept-Safe _ k v
]
