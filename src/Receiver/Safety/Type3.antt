-- ===== src/Receiver/Safety/Type3.antt =====
-- `handleType3` stays inside the frame's memory.
use new_efp.Common.{
  ℕ, zero, suc, ◌+◌, ◌-◌, ◌*◌, ◌%◌, ◌^◌, ◌≤◌, ◌<◌, ◌≡◌, refl, ap, ◌∙◌, true, false, Option, none,
  some, ltb, ◌==◌, ◌&&◌, if◌then◌else◌, arith, length, drop, Bool-cases, Option-cases, take, inl,
  inr, ◌⊎◌, bit_and,
}
use new_efp.Common.Memory.{Bytes, read_at-eq, length-take-drop, write_at-eq, length-overwrite}
use new_efp.Common.Int.{ℤ}
use new_efp.Wire.Headers.{FrameType3, decode_type3}
use new_efp.Receiver.State.{
  Receiver, Bucket, Assembly, count_received, recalculate_super_frame_no, arrive,
}
use new_efp.Receiver.Open.{open_bucket}
use new_efp.Receiver.Type3.{
  type3_opening, type3_new, relocate, type3_store, type3_existing, type3_arrived, handle_type3,
}
use new_efp.Receiver.Invariant.{
  Holds, IsValid, IsValid-of_same, Safe, safe, Kept, Kept-Safe, set_bucket-IsValid,
  count_true-update, count_true-le,
}
use new_efp.Receiver.Safety.Opening.{
  OpeningFits, open_bucket-Safe, arrive-IsValid, recalculate-IsValid, recalculate-idle,
}

-- What the handler has checked before it stores a Type3 payload.
record Fitting (h : FrameType3) (payload : Bytes) (b : Bucket) : Type 0 where
  same_count : h.of_fragment_no ≡ b.of_fragment_no
  positive : 0 < h.of_fragment_no
  small : length payload ≤ b.fragment_size
  missing : b.received (h.of_fragment_no - 1) ≡ false

-- The slot before the last ends where the last begins.
before_last : (size n : ℕ) → 0 < n → size * (n - 1) + size ≡ size * n
before_last size zero h = absurd (omega arith)
before_last size (suc n) h =
    let same : suc n - 1 ≡ n = omega arith in omega (arith, ap (λ (x : ℕ). size * x) same)

-- What `relocate` leaves: memory of the same length, and a size inside it.
abbrev Moved : Assembly → Option Assembly → Type 0
Moved a none = ⊥
Moved a (some m) = (length m.memory ≡ length a.memory) × (m.size ≤ length a.memory)

relocate-Moved :
    (h : FrameType3) (payload : Bytes) (b : Bucket) (a : Assembly)
    → Holds b a
    → Fitting h payload b
    → b.type3_size ≡ 0
    → Moved a (relocate h (length payload) b a)
unfolding relocate
relocate-Moved h payload b a held f no_type3 =
    elim (Bool-cases (b.received h.of_fragment_no && ltb 0 b.type2_size)) [
      | inl e ↦ rw e (
          rw (read_at-eq a.memory old b.type2_size from) (
            rw (write_at-eq a.memory new type2 to)
              (length-overwrite a.memory new type2 to, omega (arith, long, to))))
      | inr e ↦ rw e (
          ground (
            arith,
            before_last b.fragment_size h.of_fragment_no f.positive,
            held.inner_fit,
            f.same_count,
            f.small,
            held.size_fits,
          ))
    ]
  where
    old : ℕ
    old = b.fragment_size * h.of_fragment_no

    new : ℕ
    new = b.fragment_size * (h.of_fragment_no - 1) + length payload

    from : old + b.type2_size ≤ length a.memory
    from = ground (arith, held.type2_fits no_type3, f.same_count)

    type2 : Bytes
    type2 = take b.type2_size (drop old a.memory)

    long : length type2 ≡ b.type2_size
    long = length-take-drop a.memory old b.type2_size from

    to : new + length type2 ≤ length a.memory
    to = omega (arith, long, from, f.small, before_last b.fragment_size h.of_fragment_no f.positive)

no_type3_yet :
    (h : FrameType3) (payload : Bytes) (b : Bucket) (a : Assembly)
    → Holds b a
    → Fitting h payload b
    → b.type3_size ≡ 0
no_type3_yet h payload b a held f = ground (arith, held.type3_received, f.missing, f.same_count)

stored-Holds :
    (h : FrameType3) (payload : Bytes) (b : Bucket) (a m : Assembly) (memory : Bytes)
    → Holds b a
    → Fitting h payload b
    → length m.memory ≡ length a.memory
    → m.size ≤ length a.memory
    → length memory ≡ length a.memory
    → Holds
        (record b {
          received = λ k. if k == h.of_fragment_no - 1 then true else b.received k;
          fragment_count = (b.fragment_count + 1) % 2 ^ 16;
          type3_size = length payload;
          frame = some (record m { memory = memory });
        })
        (record m { memory = memory })
stored-Holds h payload b a m memory held f same fits long = ground (
  arith,
  no_type3_yet h payload b a held f,
  count_true-update (suc b.of_fragment_no) (h.of_fragment_no - 1) b.received
      (omega (arith, f.same_count)) f.missing,
  count_true-le (suc b.of_fragment_no) b.received,
)

type3_store_from :
    (h : FrameType3) (payload : Bytes) (i : ℕ) (b : Bucket) (a m : Assembly) (r : Receiver)
    → IsValid r
    → b.active ≡ true
    → b.delivery_order ≡ (r.buckets i).delivery_order
    → b.frame ≡ some a
    → Holds b a
    → Fitting h payload b
    → relocate h (length payload) b a ≡ some m
    → Safe (type3_store h payload i b r)
unfolding type3_store
type3_store_from h payload i b a m r v active order has held f e = simp has (
    rw e (
      rw (write_at-eq m.memory (b.fragment_size * (h.of_fragment_no - 1)) payload room) (
        safe (
          set_bucket-IsValid (count_received r) i _ (IsValid-of_same r _ refl refl refl refl v)
            active order
            (λ _. (
              _,
              refl,
              stored-Holds h payload b a m _ held f moved.0 moved.1
                  (length-overwrite m.memory _ payload room ∙ moved.0),
            ))))))
  where
    moved : (length m.memory ≡ length a.memory) × (m.size ≤ length a.memory)
    moved = rw e at (relocate-Moved h payload b a held f (no_type3_yet h payload b a held f))

    room : b.fragment_size * (h.of_fragment_no - 1) + length payload ≤ length m.memory
    room = ground (
      arith,
      moved,
      before_last b.fragment_size h.of_fragment_no f.positive,
      f.small,
      f.same_count,
      held.inner_fit,
    )

type3_store-Safe :
    (h : FrameType3) (payload : Bytes) (i : ℕ) (b : Bucket) (a : Assembly) (r : Receiver)
    → IsValid r
    → b.active ≡ true
    → b.delivery_order ≡ (r.buckets i).delivery_order
    → b.frame ≡ some a
    → Holds b a
    → Fitting h payload b
    → Safe (type3_store h payload i b r)
type3_store-Safe h payload i b a r v active order has held f =
    elim (Option-cases (relocate h (length payload) b a)) [
      | inl e ↦
          absurd (rw e at (relocate-Moved h payload b a held f (no_type3_yet h payload b a held f)))
      | inr (m, e) ↦ type3_store_from h payload i b a m r v active order has held f e
    ]

type3_existing_cases :
    (h : FrameType3) (payload : Bytes) (source i : ℕ) (b : Bucket) (r : Receiver)
    → 0 < h.of_fragment_no
    → length payload ≤ h.type1_packet_size
    → ((type3_existing h payload source i b r ≡ type3_store h payload i b r) × Fitting h payload b)
      ⊎ Kept r (type3_existing h payload source i b r)
unfolding type3_existing
type3_existing_cases h payload source i b r p e = ground arith

type3_existing-Safe :
    (h : FrameType3) (payload : Bytes) (source i : ℕ) (b : Bucket) (r : Receiver)
    → 0 < h.of_fragment_no
    → length payload ≤ h.type1_packet_size
    → IsValid r
    → b.active ≡ true
    → b.delivery_order ≡ (r.buckets i).delivery_order
    → (a : Assembly) × (b.frame ≡ some a) × Holds b a
    → Safe (type3_existing h payload source i b r)
type3_existing-Safe h payload source i b r some_of small v active order (a, has, held) =
    elim (type3_existing_cases h payload source i b r some_of small) [
      | inl (e, f) ↦ rw e (type3_store-Safe h payload i b a r v active order has held f)
      | inr k ↦ Kept-Safe _ k v
    ]

type3_new_cases :
    (h : FrameType3) (payload : Bytes) (source i now : ℕ) (order : ℤ) (r : Receiver)
    → (type3_new h payload source i now (order, r)
        ≡ open_bucket (type3_opening h (length payload) source r) i now order payload r)
      ⊎ Kept r (type3_new h payload source i now (order, r))
type3_new_cases h payload source i now order r = ground arith

type3_opening-OpeningFits :
    (h : FrameType3) (payload : Bytes) (source : ℕ) (r : Receiver)
    → 0 < h.of_fragment_no
    → length payload ≤ h.type1_packet_size
    → h.of_fragment_no < 8192
    → OpeningFits (type3_opening h (length payload) source r) payload
type3_opening-OpeningFits h payload source r some_of small bounded = record {
  inside = grind (arith, before_last h.type1_packet_size h.of_fragment_no some_of);
  of_bounded = bounded;
  first_bounded = omega arith;
  inner_fit = grind arith;
  last_fits = λ _. grind arith;
  type2_fits = λ _. grind arith;
  type3_first = λ _. (refl, some_of);
}

type3_new-Safe :
    (h : FrameType3) (payload : Bytes) (source i now : ℕ) (order : ℤ) (r : Receiver)
    → 0 < h.of_fragment_no
    → length payload ≤ h.type1_packet_size
    → h.of_fragment_no < 8192
    → (r.buckets i).active ≡ false
    → IsValid r
    → Safe (type3_new h payload source i now (order, r))
type3_new-Safe h payload source i now order r some_of small bounded idle v =
    elim (type3_new_cases h payload source i now order r) [
      | inl e ↦ rw e (
          open_bucket-Safe _ i now order payload r
            (type3_opening-OpeningFits h payload source r some_of small bounded) idle v)
      | inr k ↦ Kept-Safe _ k v
    ]

type3_arrived_cases :
    (h : FrameType3) (payload : Bytes) (source now : ℕ) (r : Receiver)
    → let i = bit_and h.super_frame_no r.buffer_size in
      ((0 < h.of_fragment_no)
        × (length payload ≤ h.type1_packet_size)
        × (h.of_fragment_no < 8192)
        × ((((r.buckets i).active ≡ true)
              × (type3_arrived h payload source (now, r)
                  ≡ type3_existing h payload source i (r.buckets i) r))
            ⊎ (((r.buckets i).active ≡ false)
                × (type3_arrived h payload source (now, r)
                    ≡ type3_new h payload source i now
                        (recalculate_super_frame_no h.super_frame_no r)))))
      ⊎ Kept r (type3_arrived h payload source (now, r))
unfolding type3_arrived
type3_arrived_cases h payload source now r = ground arith

type3_arrived-Safe :
    (h : FrameType3) (payload : Bytes) (source now : ℕ) (r : Receiver)
    → IsValid r
    → Safe (type3_arrived h payload source (now, r))
type3_arrived-Safe h payload source now r v =
    let i = bit_and h.super_frame_no r.buffer_size in
    elim (type3_arrived_cases h payload source now r) [
      | inl (some_of, small, bounded, inl (a, e)) ↦
          rw e (type3_existing-Safe h payload source i _ r some_of small v a refl (v.buckets i a))
      | inl (some_of, small, bounded, inr (idle, e)) ↦ rw e (
          type3_new-Safe h payload source i now (recalculate_super_frame_no h.super_frame_no r).0 _
            some_of small bounded (recalculate-idle h.super_frame_no i r idle)
            (recalculate-IsValid h.super_frame_no r v))
      | inr k ↦ Kept-Safe _ k v
    ]

handle_type3_cases :
    (packet : Bytes) (source : ℕ) (r : Receiver)
    → (handle_type3 packet source r
        ≡ type3_arrived (decode_type3 packet) (drop 8 packet) source (arrive r))
      ⊎ Kept r (handle_type3 packet source r)
unfolding handle_type3
handle_type3_cases packet source r = ground arith

-- In a valid receiver the Type3 handler returns a result for every packet, with no copy outside the
-- frame's memory, and the receiver is valid again.
pub handle_type3-Safe :
    (packet : Bytes) (source : ℕ) (r : Receiver) → IsValid r → Safe (handle_type3 packet source r)
handle_type3-Safe packet source r v = elim (handle_type3_cases packet source r) [
  | inl e ↦ rw e (type3_arrived-Safe (decode_type3 packet) _ source _ _ (arrive-IsValid r v))
  | inr k ↦ Kept-Safe _ k v
]
