-- ===== src/Receiver/Safety/Opening.antt =====
-- Opening a bucket: the payload fits the block that was allocated.
use new_efp.Common.{
  ℕ, suc, ◌+◌, ◌-◌, ◌*◌, ◌≤◌, ◌<◌, ◌≡◌, ◌≢◌, refl, false, Option, none, some, ◌==◌, arith, length,
  Bool-cases, inl, inr, [],
}
use new_efp.Common.Int.{ℤ}
use new_efp.Common.Memory.{Bytes, overwrite, write_at-eq, length-overwrite}
use new_efp.Receiver.State.{
  Receiver, Assembly, update_jitter, arrive, recalculate_super_frame_no, later, map_insert,
  count_received,
}
use new_efp.Receiver.Open.{Opening, opened, allocate, place, open_bucket}
use new_efp.Receiver.Invariant.{
  Holds, IsHonest, IsValid, IsValid-of_same, Safe, safe, enter-IsValid, give_up-IsValid,
  count_true-single,
}

-- What an opening has to state for the bucket to be safe.
pub record OpeningFits (o : Opening) (payload : Bytes) : Type 0 where
  pub inside : o.offset + length payload ≤ o.total
  pub of_bounded : o.of_fragment_no < 8192
  pub first_bounded : o.first ≤ o.of_fragment_no
  pub inner_fit : o.fragment_size * o.of_fragment_no ≤ o.total
  pub last_fits :
      o.of_fragment_no ≢ o.first → o.fragment_size * o.of_fragment_no + o.fragment_size ≤ o.total
  pub type2_fits : o.type3_size ≡ 0 → o.fragment_size * o.of_fragment_no + o.type2_size ≤ o.total
  pub type3_first : 0 < o.type3_size → (o.first ≡ o.of_fragment_no - 1) × (0 < o.of_fragment_no)

-- Steps that touch neither the buckets nor the allocator.
pub arrive-IsValid : (r : Receiver) → IsValid r → IsValid (arrive r).1
unfolding arrive update_jitter
arrive-IsValid r v =
    IsValid-of_same r _ (ground arith) (ground arith) (ground arith) (ground arith) v

pub recalculate-IsValid :
    (n : ℕ) (r : Receiver) → IsValid r → IsValid (recalculate_super_frame_no n r).1
unfolding recalculate_super_frame_no
recalculate-IsValid n r v =
    IsValid-of_same r _ (ground arith) (ground arith) (ground arith) (ground arith) v

recalculate-same : (n : ℕ) (r : Receiver) → (recalculate_super_frame_no n r).1.buckets ≡ r.buckets
unfolding recalculate_super_frame_no
recalculate-same n r = ground arith

-- Recalculating a frame number leaves an idle bucket idle.
pub recalculate-idle :
    (n i : ℕ) (r : Receiver)
    → (r.buckets i).active ≡ false
    → ((recalculate_super_frame_no n r).1.buckets i).active ≡ false
recalculate-idle n i r e = rw (recalculate-same n r) e

-- The receiver when the allocator has been asked.
abbrev asked : Receiver → ℕ → ℤ → (ℕ → ℕ → Option Bytes) → Receiver
asked r i order allocations =
    record (count_received (record r { bucket_map = map_insert order i r.bucket_map })) {
      allocations = allocations;
    }

asked-IsValid :
    (r : Receiver) (allocations : ℕ → ℕ → Option Bytes)
    → IsHonest allocations
    → IsValid r
    → IsValid (record r { allocations = allocations })
asked-IsValid r allocations honest v = record {
  buckets = v.buckets;
  honest = honest;
  ascending = v.ascending;
  sound = v.sound;
  retries = v.retries;
}

opened-Holds :
    (o : Opening) (payload block : Bytes) (now : ℕ) (order : ℤ) (r : Receiver)
    → OpeningFits o payload
    → length block ≡ o.total
    → let a : Assembly = record { memory = overwrite block o.offset payload; size = o.total } in
      Holds (record (opened o now order r) { frame = some a }) a
opened-Holds o payload block now order r fits long = ground (
  arith,
  length-overwrite block o.offset payload (omega (arith, long, fits.inside)),
  count_true-single (suc o.of_fragment_no) o.first,
)

place-Safe :
    (o : Opening) (i now : ℕ) (order : ℤ) (payload : Bytes) (r : Receiver) (m : Option Bytes)
    (allocations : ℕ → ℕ → Option Bytes)
    → OpeningFits o payload
    → ((block : Bytes) → m ≡ some block → length block ≡ o.total)
    → IsHonest allocations
    → (r.buckets i).active ≡ false
    → IsValid r
    → Safe (place o i (opened o now order r) payload (m, asked r i order allocations))
place-Safe o i now order payload r none allocations fits long honest idle v = safe (
    IsValid-of_same _ _ refl refl refl refl (
      give_up-IsValid (record r { allocations = allocations }) i order
        (record (opened o now order r) {
          active = false;
          frame = some (record { memory = []; size = 0 });
        })
        (asked-IsValid r allocations honest v) idle refl))
place-Safe o i now order payload r (some block) allocations fits long honest idle v =
    let room : o.offset + length payload ≤ length block =
      omega (arith, long block refl, fits.inside) in
    rw (write_at-eq block o.offset payload room) (
      safe (
        IsValid-of_same _ _ refl refl refl refl (
          enter-IsValid (record r { allocations = allocations }) i _
            (asked-IsValid r allocations honest v) idle refl
            (λ e. (_, refl, opened-Holds o payload block now order r fits (long block refl))))))

pub open_bucket-Safe :
    (o : Opening) (i now : ℕ) (order : ℤ) (payload : Bytes) (r : Receiver)
    → OpeningFits o payload
    → (r.buckets i).active ≡ false
    → IsValid r
    → Safe (open_bucket o i now order payload r)
unfolding open_bucket allocate
open_bucket-Safe o i now order payload r fits idle v = elim (Bool-cases (o.total == 0)) [
  | inl e ↦
      rw e
        (place-Safe o i now order payload r none r.allocations fits (λ block q. cc) v.honest idle v)
  | inr e ↦ rw e (
      place-Safe o i now order payload r (r.allocations 0 o.total) (later r.allocations) fits
        (v.honest 0 o.total) (λ k. v.honest (suc k)) idle v)
]
