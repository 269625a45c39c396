-- ===== src/Receiver/HandedOver.antt =====
-- The handlers of Type1, Type2 and Type3 packets hand no frame over.
pub mod Fitting
pub mod Receive
use new_efp.Common.{
  ℕ, zero, suc, ◌+◌, ◌-◌, ◌*◌, ◌≤◌, ◌≡◌, refl, ap, sym, subst, ◌∙◌, Bool, true, false, List, [],
  ◌∷◌, ◌++◌, Option, none, some, All, ◌==◌, ◌>>=◌, arith, length, drop, take, if◌then◌else◌,
  Bool-cases, Option-cases, inl, inr, bit_and,
}
use new_efp.Common.Memory.{Bytes, write_at}
use new_efp.Common.Int.{ℤ}
use new_efp.Wire.{Result}
use new_efp.Wire.Headers.{
  FrameType1, FrameType2, FrameType3, decode_type1, decode_type2, decode_type3,
}
use new_efp.Receiver.State.{Receiver, Bucket, arrive, update_jitter, recalculate_super_frame_no}
use new_efp.Receiver.Open.{Opening, opened, place, allocate, open_bucket}
use new_efp.Receiver.Type1.{
  type1_opening, type1_new, type1_store, type1_existing, type1_arrived, handle_type1,
}
use new_efp.Receiver.Type2.{
  type2_opening, type2_new, type2_store, type2_existing, type2_arrived, handle_type2, cache_stream,
  type2_offset,
}
use new_efp.Receiver.Type3.{
  type3_opening, type3_new, type3_store, type3_existing, type3_arrived, handle_type3, relocate,
}

-- A call that hands no frame over.
abbrev pub IsQuiet : Receiver → Option (Result × Receiver) → Type 0
IsQuiet r none = Unit {0}
IsQuiet r (some (result, t)) = t.delivered ≡ r.delivered

place-IsQuiet :
    (o : Opening) (i : ℕ) (b : Bucket) (payload : Bytes) (m : Option Bytes) (r : Receiver)
    → IsQuiet r (place o i b payload (m, r))
place-IsQuiet o i b payload none r = refl
place-IsQuiet o i b payload (some block) r = elim (Option-cases (write_at block o.offset payload)) [
  | inl e ↦ rw e tt
  | inr (memory, e) ↦ rw e refl
]

open_bucket-IsQuiet :
    (o : Opening) (i now : ℕ) (order : ℤ) (payload : Bytes) (r : Receiver)
    → IsQuiet r (open_bucket o i now order payload r)
unfolding open_bucket allocate
open_bucket-IsQuiet o i now order payload r = elim (Bool-cases (o.total == 0)) [
  | inl e ↦ rw e refl
  | inr e ↦ rw e (place-IsQuiet o i (opened o now order r) payload (r.allocations 0 o.total) _)
]

arrive-quiet : (r : Receiver) → (arrive r).1.delivered ≡ r.delivered
unfolding arrive update_jitter
arrive-quiet r = ground arith

recalculate-quiet :
    (n : ℕ) (r : Receiver) → (recalculate_super_frame_no n r).1.delivered ≡ r.delivered
unfolding recalculate_super_frame_no
recalculate-quiet n r = ground arith

-- Where the receiver at the start differs.
pub IsQuiet-of_same :
    (r t : Receiver) (o : Option (Result × Receiver))
    → t.delivered ≡ r.delivered
    → IsQuiet t o
    → IsQuiet r o
IsQuiet-of_same r t none e q = tt
IsQuiet-of_same r t (some (result, u)) e q = q ∙ e

module _ (h : FrameType1) (payload : Bytes) (source i : ℕ) where
  type1_store-IsQuiet : (b : Bucket) (r : Receiver) → IsQuiet r (type1_store h payload i b r)
  unfolding type1_store
  type1_store-IsQuiet b r = elim (Option-cases b.frame) [
    | inl e ↦ rw e tt
    | inr (a, e) ↦
        elim (Option-cases (write_at a.memory (b.fragment_size * h.fragment_no) payload)) [
          | inl f ↦ simp (e, f) tt
          | inr (memory, f) ↦ simp (e, f) refl
        ]
  ]

  type1_existing-IsQuiet :
      (b : Bucket) (r : Receiver) → IsQuiet r (type1_existing h payload source i b r)
  unfolding type1_existing
  type1_existing-IsQuiet b r = ground (arith, type1_store-IsQuiet b r)

  type1_new-IsQuiet :
      (now : ℕ) (order : ℤ) (r : Receiver) → IsQuiet r (type1_new h payload source i now (order, r))
  type1_new-IsQuiet now order r =
      ground (
        arith,
        open_bucket-IsQuiet (type1_opening h (length payload) source r) i now order payload r,
      )

type1_arrived-IsQuiet :
    (h : FrameType1) (payload : Bytes) (source now : ℕ) (r : Receiver)
    → IsQuiet r (type1_arrived h payload source (now, r))
unfolding type1_arrived
type1_arrived-IsQuiet h payload source now r =
    let i = bit_and h.super_frame_no r.buffer_size in
    let counted = recalculate_super_frame_no h.super_frame_no r in
    ground (
      arith,
      type1_existing-IsQuiet h payload source i (r.buckets i) r,
      IsQuiet-of_same r counted.1 (type1_new h payload source i now counted)
          (recalculate-quiet h.super_frame_no r)
          (type1_new-IsQuiet h payload source i now counted.0 counted.1),
    )

pub handle_type1-IsQuiet :
    (packet : Bytes) (source : ℕ) (r : Receiver) → IsQuiet r (handle_type1 packet source r)
unfolding handle_type1
handle_type1-IsQuiet packet source r = ground (
  arith,
  IsQuiet-of_same r (arrive r).1 _ (arrive-quiet r) (
      type1_arrived-IsQuiet (decode_type1 packet) (drop 8 packet) source (arrive r).0 (arrive r).1),
)

module _ (h : FrameType2) (payload : Bytes) (source i : ℕ) where
  type2_store-IsQuiet : (b : Bucket) (r : Receiver) → IsQuiet r (type2_store h payload i b r)
  unfolding type2_store
  type2_store-IsQuiet b r = elim (Option-cases b.frame) [
    | inl e ↦ simp e tt
    | inr (a, e) ↦ elim (Option-cases (write_at a.memory (type2_offset h b) payload)) [
      | inl f ↦ simp (e, f) tt
      | inr (memory, f) ↦ simp (e, f) refl
    ]
  ]

  type2_existing-IsQuiet :
      (b : Bucket) (r : Receiver) → IsQuiet r (type2_existing h payload source i b r)
  unfolding type2_existing
  type2_existing-IsQuiet b r = ground (arith, type2_store-IsQuiet b r)

  type2_new-IsQuiet :
      (now : ℕ) (order : ℤ) (r : Receiver) → IsQuiet r (type2_new h payload source i now (order, r))
  type2_new-IsQuiet now order r =
      ground
        (arith, open_bucket-IsQuiet (type2_opening h source) i now order payload (cache_stream h r))

type2_arrived-IsQuiet :
    (h : FrameType2) (payload : Bytes) (source now : ℕ) (r : Receiver)
    → IsQuiet r (type2_arrived h payload source (now, r))
unfolding type2_arrived
type2_arrived-IsQuiet h payload source now r =
    let i = bit_and h.super_frame_no r.buffer_size in
    let counted = recalculate_super_frame_no h.super_frame_no r in
    ground (
      arith,
      type2_existing-IsQuiet h payload source i (r.buckets i) r,
      IsQuiet-of_same r counted.1 (type2_new h payload source i now counted)
          (recalculate-quiet h.super_frame_no r)
          (type2_new-IsQuiet h payload source i now counted.0 counted.1),
    )

pub handle_type2-IsQuiet :
    (packet : Bytes) (source : ℕ) (r : Receiver) → IsQuiet r (handle_type2 packet source r)
unfolding handle_type2
handle_type2-IsQuiet packet source r = ground (
  arith,
  IsQuiet-of_same r (arrive r).1 _ (arrive-quiet r) (
      type2_arrived-IsQuiet (decode_type2 packet) (drop 27 packet) source (arrive r).0
        (arrive r).1),
)

module _ (h : FrameType3) (payload : Bytes) (source i : ℕ) where
  type3_store-IsQuiet : (b : Bucket) (r : Receiver) → IsQuiet r (type3_store h payload i b r)
  unfolding type3_store
  type3_store-IsQuiet b r = elim (Option-cases b.frame) [
    | inl e ↦ simp e tt
    | inr (a, e) ↦ elim (Option-cases (relocate h (length payload) b a)) [
      | inl f ↦ simp (e, f) tt
      | inr (moved, f) ↦
          elim (Option-cases
            (write_at moved.memory (b.fragment_size * (h.of_fragment_no - 1)) payload)) [
              | inl g ↦ simp (e, f, g) tt
              | inr (memory, g) ↦ simp (e, f, g) refl
            ]
    ]
  ]

  type3_existing-IsQuiet :
      (b : Bucket) (r : Receiver) → IsQuiet r (type3_existing h payload source i b r)
  unfolding type3_existing
  type3_existing-IsQuiet b r = ground (arith, type3_store-IsQuiet b r)

  type3_new-IsQuiet :
      (now : ℕ) (order : ℤ) (r : Receiver) → IsQuiet r (type3_new h payload source i now (order, r))
  type3_new-IsQuiet now order r =
      ground (
        arith,
        open_bucket-IsQuiet (type3_opening h (length payload) source r) i now order payload r,
      )

type3_arrived-IsQuiet :
    (h : FrameType3) (payload : Bytes) (source now : ℕ) (r : Receiver)
    → IsQuiet r (type3_arrived h payload source (now, r))
unfolding type3_arrived
type3_arrived-IsQuiet h payload source now r =
    let i = bit_and h.super_frame_no r.buffer_size in
    let counted = recalculate_super_frame_no h.super_frame_no r in
    ground (
      arith,
      type3_existing-IsQuiet h payload source i (r.buckets i) r,
      IsQuiet-of_same r counted.1 (type3_new h payload source i now counted)
          (recalculate-quiet h.super_frame_no r)
          (type3_new-IsQuiet h payload source i now counted.0 counted.1),
    )

pub handle_type3-IsQuiet :
    (packet : Bytes) (source : ℕ) (r : Receiver) → IsQuiet r (handle_type3 packet source r)
unfolding handle_type3
handle_type3-IsQuiet packet source r = ground (
  arith,
  IsQuiet-of_same r (arrive r).1 _ (arrive-quiet r) (
      type3_arrived-IsQuiet (decode_type3 packet) (drop 8 packet) source (arrive r).0 (arrive r).1),
)
