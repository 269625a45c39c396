-- ===== src/Transfer/Opening.antt =====
-- The packet of a frame that comes first and opens its bucket.
pub mod Opens
pub mod Kept
use native.Mathlib.Nat.{le-div_iff_mul-le}
use new_efp.Common.{
  ℕ, ◌+◌, ◌-◌, ◌*◌, ◌/◌, ◌%◌, ◌^◌, ◌≤◌, ◌<◌, ◌≡◌, refl, ap, subst, ◌∙◌, true, false, some, ◌==◌,
  arith, length, bit_and, Bool-cases, inl, inr, ==_iff, ==_refl,
}
use new_efp.Common.Int.{ℤ, eqb_ℤ}
use new_efp.Common.Memory.{Bytes, overwrite, write_at-eq, slot_le}
use new_efp.Common.Agree.{Agrees-overwrite}
use new_efp.Wire.{ok, max_superframe_size}
use new_efp.Sender.Fragments.{Job, type1_header, type2_header, type3_header}
use new_efp.Receiver.State.{
  Receiver, Bucket, Stream, threaded, recalculate_super_frame_no, later, map_insert, set_bucket,
  count_received,
}
use new_efp.Receiver.Open.{Opening, opened, allocate, open_bucket}
use new_efp.Receiver.Type1.{type1_opening, type1_arrived}
use new_efp.Receiver.Type2.{type2_opening, type2_arrived, cache_stream}
use new_efp.Receiver.Type3.{type3_opening, type3_arrived}
use new_efp.Receiver.Invariant.{IsHonest}
use new_efp.Transfer.Packets.{
  IsSendable, num, type3_start, type2_start, type1_payload, type2_payload, type3_payload,
}
use new_efp.Transfer.Assembling.{
  Keeps, type2_place, bucket_of, Holding, set_bucket-Holding, Lists-map_insert,
}
use new_efp.Transfer.Type1.{length-type1_payload}
use new_efp.Transfer.Type2.{length-type2_payload, type2_small}
use new_efp.Transfer.Type3.{length-type3_payload}

-- A receiver with threads that can begin a frame of that number: its bucket is idle and was not the same frame's
-- before, and the allocator has memory.
pub record IsReady (frame_no : ℕ) (r : Receiver) : Type 0 where
  pub mode : r.mode ≡ threaded
  pub idle : (r.buckets (bit_and frame_no r.buffer_size)).active ≡ false
  pub unseen :
      eqb_ℤ
        (recalculate_super_frame_no frame_no r).0
        (r.buckets (bit_and frame_no r.buffer_size)).delivery_order
      ≡ false
  pub honest : IsHonest r.allocations
  pub supplied : (size : ℕ) → (block : Bytes) × (r.allocations 0 size ≡ some block)

-- The bucket that an opening makes, in a block that the allocator gave.
abbrev pub opened_with : Opening → ℕ → ℤ → Receiver → Bytes → Bytes → Bucket
opened_with o now order r block payload = record (opened o now order r) {
  frame = some (record { memory = overwrite block o.offset payload; size = o.total });
}

nonzero : (n : ℕ) → 0 < n → (n == 0) ≡ false
nonzero n h = ground arith

pub open_bucket-Holding :
    (j : Job) (source : ℕ) (o : Opening) (now : ℕ) (order : ℤ) (payload : Bytes) (r : Receiver)
    → r.mode ≡ threaded
    → IsHonest r.allocations
    → ((size : ℕ) → (block : Bytes) × (r.allocations 0 size ≡ some block))
    → 0 < o.total
    → o.offset + length payload ≤ o.total
    → ((block : Bytes)
        → length block ≡ o.total
        → Keeps j source
            (opened_with o now order r block payload)
            (record { memory = overwrite block o.offset payload; size = o.total }))
    → (t : Receiver) × (open_bucket o (bit_and j.super_frame_no r.buffer_size) now order payload r
        ≡ some (ok, t))
      × Holding j source t
      × ((bucket_of j t).received o.first ≡ true)
unfolding open_bucket allocate
open_bucket-Holding j source o now order payload r mode honest supplied filled inside keeps =
    let (block, gives) = supplied o.total in
    let long : length block ≡ o.total = honest 0 o.total block gives in
    let i = bit_and j.super_frame_no r.buffer_size in
    let b = opened_with o now order r block payload in
    let base : Receiver =
      record (count_received (record r { bucket_map = map_insert order i r.bucket_map })) {
        allocations = later r.allocations;
      } in
    (
      set_bucket base i b,
      rw (nonzero o.total filled, gives)
          (rw (write_at-eq block o.offset payload (omega (arith, long, inside))) refl),
      set_bucket-Holding j source base b _ mode refl (Lists-map_insert order i r.bucket_map) refl
          (keeps block long),
      rw (==_refl i) (==_refl o.first),
    )
