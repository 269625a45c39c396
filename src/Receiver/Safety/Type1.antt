-- ===== src/Receiver/Safety/Type1.antt =====
-- `handleType1` stays inside the frame's memory.
use new_efp.Common.{
  ℕ, suc, ◌+◌, ◌*◌, ◌%◌, ◌^◌, ◌≤◌, ◌<◌, ◌≡◌, refl, true, false, some, ◌==◌, if◌then◌else◌, arith,
  length, drop, Bool-cases, inl, inr, ◌⊎◌, bit_and,
}
use new_efp.Common.Memory.{Bytes, overwrite, write_at-eq, length-overwrite, slot_le}
use new_efp.Common.Int.{ℤ}
use new_efp.Wire.Headers.{FrameType1, decode_type1}
use new_efp.Receiver.State.{
  Receiver, Bucket, Assembly, count_received, recalculate_super_frame_no, arrive,
}
use new_efp.Receiver.Open.{open_bucket}
use new_efp.Receiver.Type1.{
  type1_opening, type1_new, type1_store, type1_existing, type1_arrived, handle_type1,
}
use new_efp.Receiver.Invariant.{
  Holds, IsValid, IsValid-of_same, Safe, safe, Kept, Kept-Safe, set_bucket-IsValid,
  count_true-update, count_true-le,
}
use new_efp.Receiver.Safety.Opening.{
  OpeningFits, open_bucket-Safe, arrive-IsValid, recalculate-IsValid, recalculate-idle,
}

-- A fragment number that fits and has not come: its place lies inside.
pub type1_room :
    (b : Bucket) (a : Assembly) (k : ℕ)
    → Holds b a
    → k ≤ b.of_fragment_no
    → b.received k ≡ false
    → b.fragment_size * k + b.fragment_size ≤ length a.memory
type1_room b a k held le missing = elim (Bool-cases (k == b.of_fragment_no)) [
  | inl e ↦ ground (arith, held.last_fits)
  | inr e ↦ ground (arith, held.inner_fit, slot_le b.fragment_size k b.of_fragment_no)
]

type1_store-Safe :
    (h : FrameType1) (payload : Bytes) (i : ℕ) (b : Bucket) (a : Assembly) (r : Receiver)
    → IsValid r
    → b.active ≡ true
    → b.delivery_order ≡ (r.buckets i).delivery_order
    → b.frame ≡ some a
    → Holds b a
    → h.fragment_no ≤ b.of_fragment_no
    → b.received h.fragment_no ≡ false
    → length payload ≡ b.fragment_size
    → Safe (type1_store h payload i b r)
unfolding type1_store
type1_store-Safe h payload i b a r v active order has held le missing whole = rw has (
    rw (write_at-eq a.memory (b.fragment_size * h.fragment_no) payload room) (
      safe (
        set_bucket-IsValid (count_received r) i _ (IsValid-of_same r _ refl refl refl refl v) active
          order (λ e. (_, refl, after)))))
  where
    room : b.fragment_size * h.fragment_no + length payload ≤ length a.memory
    room = omega (arith, whole, type1_room b a h.fragment_no held le missing)

    memory : Bytes
    memory = overwrite a.memory (b.fragment_size * h.fragment_no) payload

    after :
        Holds
          (record b {
            received = λ k. if k == h.fragment_no then true else b.received k;
            fragment_count = (b.fragment_count + 1) % 2 ^ 16;
            frame = some (record a { memory = memory });
          })
          (record a { memory = memory })
    after = ground (
      arith,
      length-overwrite a.memory (b.fragment_size * h.fragment_no) payload room,
      count_true-update (suc b.of_fragment_no) h.fragment_no b.received (omega arith) missing,
      count_true-le (suc b.of_fragment_no) b.received,
    )

-- Either the fragment is stored, and then it fits, or the buckets stay as they were.
type1_existing_cases :
    (h : FrameType1) (payload : Bytes) (source i : ℕ) (b : Bucket) (r : Receiver)
    → ((type1_existing h payload source i b r ≡ type1_store h payload i b r)
        × (h.fragment_no ≤ b.of_fragment_no)
        × (b.received h.fragment_no ≡ false)
        × (length payload ≡ b.fragment_size))
      ⊎ Kept r (type1_existing h payload source i b r)
unfolding type1_existing
type1_existing_cases h payload source i b r = ground arith

type1_existing-Safe :
    (h : FrameType1) (payload : Bytes) (source i : ℕ) (b : Bucket) (r : Receiver)
    → IsValid r
    → b.active ≡ true
    → b.delivery_order ≡ (r.buckets i).delivery_order
    → (a : Assembly) × (b.frame ≡ some a) × Holds b a
    → Safe (type1_existing h payload source i b r)
type1_existing-Safe h payload source i b r v active order (a, has, held) =
    elim (type1_existing_cases h payload source i b r) [
      | inl (e, le, missing, whole) ↦
          rw e (type1_store-Safe h payload i b a r v active order has held le missing whole)
      | inr k ↦ Kept-Safe _ k v
    ]

type1_new_cases :
    (h : FrameType1) (payload : Bytes) (source i now : ℕ) (order : ℤ) (r : Receiver)
    → (type1_new h payload source i now (order, r)
        ≡ open_bucket (type1_opening h (length payload) source r) i now order payload r)
      ⊎ Kept r (type1_new h payload source i now (order, r))
type1_new_cases h payload source i now order r = ground arith

type1_opening-OpeningFits :
    (h : FrameType1) (payload : Bytes) (source : ℕ) (r : Receiver)
    → h.of_fragment_no < 8192
    → h.fragment_no ≤ h.of_fragment_no
    → OpeningFits (type1_opening h (length payload) source r) payload
type1_opening-OpeningFits h payload source r bounded le = record {
  inside = ground (arith, slot_le (length payload) h.fragment_no (h.of_fragment_no + 1));
  of_bounded = bounded;
  first_bounded = le;
  inner_fit = grind arith;
  last_fits = λ _. grind arith;
  type2_fits = λ _. grind arith;
  type3_first = λ n. absurd (omega arith);
}

type1_new-Safe :
    (h : FrameType1) (payload : Bytes) (source i now : ℕ) (order : ℤ) (r : Receiver)
    → h.of_fragment_no < 8192
    → h.fragment_no ≤ h.of_fragment_no
    → (r.buckets i).active ≡ false
    → IsValid r
    → Safe (type1_new h payload source i now (order, r))
type1_new-Safe h payload source i now order r bounded le idle v =
    elim (type1_new_cases h payload source i now order r) [
      | inl e ↦ rw e (
          open_bucket-Safe _ i now order payload r
            (type1_opening-OpeningFits h payload source r bounded le) idle v)
      | inr k ↦ Kept-Safe _ k v
    ]

type1_arrived_cases :
    (h : FrameType1) (payload : Bytes) (source now : ℕ) (r : Receiver)
    → let i = bit_and h.super_frame_no r.buffer_size in
      ((h.of_fragment_no < 8192)
        × (h.fragment_no ≤ h.of_fragment_no)
        × ((((r.buckets i).active ≡ true)
              × (type1_arrived h payload source (now, r)
                  ≡ type1_existing h payload source i (r.buckets i) r))
            ⊎ (((r.buckets i).active ≡ false)
                × (type1_arrived h payload source (now, r)
                    ≡ type1_new h payload source i now
                        (recalculate_super_frame_no h.super_frame_no r)))))
      ⊎ Kept r (type1_arrived h payload source (now, r))
unfolding type1_arrived
type1_arrived_cases h payload source now r = ground arith

type1_arrived-Safe :
    (h : FrameType1) (payload : Bytes) (source now : ℕ) (r : Receiver)
    → IsValid r
    → Safe (type1_arrived h payload source (now, r))
type1_arrived-Safe h payload source now r v =
    let i = bit_and h.super_frame_no r.buffer_size in
    elim (type1_arrived_cases h payload source now r) [
      | inl (bounded, le, inl (a, e)) ↦
          rw e (type1_existing-Safe h payload source i _ r v a refl (v.buckets i a))
      | inl (bounded, le, inr (idle, e)) ↦ rw e (
          type1_new-Safe h payload source i now (recalculate_super_frame_no h.super_frame_no r).0 _
            bounded le (recalculate-idle h.super_frame_no i r idle)
            (recalculate-IsValid h.super_frame_no r v))
      | inr k ↦ Kept-Safe _ k v
    ]

handle_type1_cases :
    (packet : Bytes) (source : ℕ) (r : Receiver)
    → (handle_type1 packet source r
        ≡ type1_arrived (decode_type1 packet) (drop 8 packet) source (arrive r))
      ⊎ Kept r (handle_type1 packet source r)
unfolding handle_type1
handle_type1_cases packet source r = ground arith

-- In a valid receiver the Type1 handler returns a result for every packet, with no copy outside the
-- frame's memory, and the receiver is valid again.
pub handle_type1-Safe :
    (packet : Bytes) (source : ℕ) (r : Receiver) → IsValid r → Safe (handle_type1 packet source r)
handle_type1-Safe packet source r v = elim (handle_type1_cases packet source r) [
  | inl e ↦ rw e (type1_arrived-Safe (decode_type1 packet) _ source _ _ (arrive-IsValid r v))
  | inr k ↦ Kept-Safe _ k v
]
