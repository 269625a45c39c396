-- ===== src/Receiver/Safety/Delivery.antt =====
-- `deliverFrame` and `processTimeouts` keep the receiver valid.
use new_efp.Common.{
  ℕ, ◌+◌, not, ◌≤◌, ◌≡◌, refl, ap, sym, subst, Bool, true, false, List, [], ◌∷◌, Option, none, some,
  ◌==◌, arith, Bool-cases, inl, inr, ==_iff,
}
use new_efp.Common.Int.{ℤ, pos_part, neg_part, ◌<ℤ◌}
use new_efp.Receiver.State.{Receiver, Bucket, Assembly}
use new_efp.Receiver.BucketMap.{Above, Ascending, Above-mono, Above-Ascending, Sound, set}
use new_efp.Receiver.Delivery.{
  deliver_frame, is_due, due_buckets, sort_insert, sort_buckets, deliver_all, process_timeouts,
  super_frame, is_complete, count_delivered, hand_over,
}
use new_efp.Receiver.Invariant.{IsValid, IsValid-of_same, leave-IsValid}
use new_efp.Receiver.Safety.Nack.{noted_nacks}

-- A run that ended, and left a valid receiver.
abbrev pub LeavesIsValid : Option Receiver → Type 0
LeavesIsValid none = ⊥
LeavesIsValid (some r) = IsValid r

-- Buckets in use, their orders ascending from above `k`.
abbrev pub Queued : (ℕ → Bucket) → ℤ → List ℕ → Type 0
Queued buckets k [] = Unit {0}
Queued buckets k (i ∷ is) =
    ((buckets i).active ≡ true)
    × (k <ℤ (buckets i).delivery_order)
    × Queued buckets (buckets i).delivery_order is

abbrev pub Lined : (ℕ → Bucket) → List ℕ → Type 0
Lined buckets [] = Unit {0}
Lined buckets (i ∷ is) = ((buckets i).active ≡ true) × Queued buckets (buckets i).delivery_order is

pub Queued-Lined :
    (buckets : ℕ → Bucket) (k : ℤ) (is : List ℕ) → Queued buckets k is → Lined buckets is
Queued-Lined buckets k [] q = tt
Queued-Lined buckets k (i ∷ is) q = (q.0, q.2)

due-Queued :
    (r : Receiver) (now : ℕ) (k : ℤ) (m : List (ℤ × ℕ))
    → Above k m
    → Sound r.buckets m
    → Queued r.buckets k (due_buckets r now m)
unfolding due_buckets
due-Queued r now k [] a v = tt
due-Queued r now k ((j, i) ∷ m) a v = elim (Bool-cases (is_due r now (r.buckets i))) [
  | inl e ↦ rw e (
    v.0.0,
    subst (λ o. k <ℤ o) (sym v.0.1) a.0,
    due-Queued r now _ m (subst (λ o. Above o m) (sym v.0.1) a.1) v.1,
  )
  | inr e ↦ rw e (due-Queued r now k m (Above-mono k j m a.0 a.1) v.1)
]

pub due-Lined :
    (r : Receiver) (now : ℕ) (m : List (ℤ × ℕ))
    → Ascending m
    → Sound r.buckets m
    → Lined r.buckets (due_buckets r now m)
unfolding due_buckets
due-Lined r now [] a v = tt
due-Lined r now ((j, i) ∷ m) a v = elim (Bool-cases (is_due r now (r.buckets i))) [
  | inl e ↦ rw e (v.0.0, due-Queued r now _ m (subst (λ o. Above o m) (sym v.0.1) a) v.1)
  | inr e ↦ rw e (due-Lined r now m (Above-Ascending j m a) v.1)
]

-- Buckets in line are sorted already.
sort_insert-Queued :
    (r : Receiver) (i : ℕ) (is : List ℕ)
    → Queued r.buckets (r.buckets i).delivery_order is
    → sort_insert r i is ≡ i ∷ is
unfolding sort_insert
sort_insert-Queued r i [] q = refl
sort_insert-Queued r i (j ∷ js) q = ground (arith, q)

sort_buckets-Queued :
    (r : Receiver) (k : ℤ) (is : List ℕ) → Queued r.buckets k is → sort_buckets r is ≡ is
unfolding sort_buckets
sort_buckets-Queued r k [] q = refl
sort_buckets-Queued r k (i ∷ is) q =
    rw (sort_buckets-Queued r _ is q.2) (sort_insert-Queued r i is q.2)

sort_buckets-Lined : (r : Receiver) (is : List ℕ) → Lined r.buckets is → sort_buckets r is ≡ is
unfolding sort_buckets
sort_buckets-Lined r [] q = refl
sort_buckets-Lined r (i ∷ is) q =
    rw (sort_buckets-Queued r _ is q.1) (sort_insert-Queued r i is q.1)

-- In a valid receiver the buckets that are due stand in the order of the map, and sorting them by
-- delivery order changes nothing.
pub sort-due :
    (r : Receiver) (now : ℕ)
    → IsValid r
    → sort_buckets r (due_buckets r now r.bucket_map) ≡ due_buckets r now r.bucket_map
sort-due r now v = sort_buckets-Lined r _ (due-Lined r now r.bucket_map v.ascending v.sound)

-- Those behind a bucket do not see what becomes of it.
pub Queued-set :
    (buckets : ℕ → Bucket) (i : ℕ) (b : Bucket) (k : ℤ) (is : List ℕ)
    → pos_part (buckets i).delivery_order + neg_part k
      ≤ pos_part k + neg_part (buckets i).delivery_order
    → Queued buckets k is
    → Queued (set buckets i b) k is
Queued-set buckets i b k [] h q = tt
Queued-set buckets i b k (j ∷ js) h q = elim (Bool-cases (j == i)) [
  | inl e ↦
      let order : (buckets j).delivery_order ≡ (buckets i).delivery_order =
        ap (λ n. (buckets n).delivery_order) ((==_iff j i).0 e) in
      absurd (omega (arith, h, subst (λ o. k <ℤ o) order q.1))
  | inr e ↦ simp e (q.0, q.1, Queued-set buckets i b _ js (omega (arith, h, q.1)) q.2)
]

handed-IsValid :
    (i : ℕ) (a : Assembly) (r : Receiver) (broken : Bool)
    → IsValid r
    → let b = r.buckets i in
      let t = hand_over i b (super_frame b a) (count_delivered broken r) in
      IsValid t × (t.buckets ≡ set r.buckets i (record b { active = false; frame = none }))
handed-IsValid i a r true v = (
  IsValid-of_same _ _ refl refl refl refl
      (leave-IsValid r i (record (r.buckets i) { active = false; frame = none }) v refl),
  refl,
)
handed-IsValid i a r false v = (
  IsValid-of_same _ _ refl refl refl refl
      (leave-IsValid r i (record (r.buckets i) { active = false; frame = none }) v refl),
  refl,
)

-- A bucket in use is delivered: it becomes idle, the others stay.
pub deliver_frame-eq :
    (i : ℕ) (r : Receiver)
    → IsValid r
    → (r.buckets i).active ≡ true
    → (t : Receiver) × (deliver_frame i r ≡ some t)
      × IsValid t
      × (t.buckets ≡ set r.buckets i (record (r.buckets i) { active = false; frame = none }))
unfolding deliver_frame
deliver_frame-eq i r v e =
    let b = r.buckets i in
    let (a, has, held) = v.buckets i e in
    let (valid, others) = handed-IsValid i a r (not (is_complete b)) v in
    (
      hand_over i b (super_frame b a) (count_delivered (not (is_complete b)) r),
      simp has refl,
      valid,
      others,
    )

deliver_all-LeavesIsValid :
    (is : List ℕ) (r : Receiver) → IsValid r → Lined r.buckets is → LeavesIsValid (deliver_all is r)
unfolding deliver_all
deliver_all-LeavesIsValid [] r v q = v
deliver_all-LeavesIsValid (i ∷ is) r v q =
    let (t, e, valid, others) = deliver_frame-eq i r v q.0 in
    let behind : Queued t.buckets (r.buckets i).delivery_order is =
      rw others (Queued-set r.buckets i _ _ is (omega arith) q.1) in
    rw e (deliver_all-LeavesIsValid is t valid (Queued-Lined t.buckets _ is behind))

-- In a valid receiver `processTimeouts` comes to its end: no frame that it delivers is missing. The
-- receiver is valid again.
pub process_timeouts-LeavesIsValid : (r : Receiver) → IsValid r → LeavesIsValid (process_timeouts r)
unfolding process_timeouts
process_timeouts-LeavesIsValid r v =
    let (s, e, nacked, valid) = noted_nacks r v in
    rw (e, sort-due s (r.clock 0) valid)
      (deliver_all-LeavesIsValid _ s valid
        (due-Lined s (r.clock 0) s.bucket_map valid.ascending valid.sound))
