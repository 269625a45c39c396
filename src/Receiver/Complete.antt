-- ===== src/Receiver/Complete.antt =====
-- What it means that a frame is delivered whole.
use new_efp.Common.{
  ℕ, suc, ◌+◌, ◌≤◌, ◌≡◌, refl, Bool, true, false, not, [], ◌∷◌, ◌++◌, some, ◌↔◌, arith, ==_iff,
}
use new_efp.Receiver.State.{Receiver, Bucket, Assembly, SuperFrame}
use new_efp.Receiver.Delivery.{is_complete, deliver_frame, super_frame, hand_over, count_delivered}
use new_efp.Receiver.Invariant.{Holds, IsValid, count_true, count_true_full, full_count_true}

-- Every fragment of the frame has come.
abbrev pub HasAll : Bucket → Type 0
HasAll b = (k : ℕ) → k ≤ b.of_fragment_no → b.received k ≡ true

pub complete_iff : (b : Bucket) (a : Assembly) → Holds b a → is_complete b ≡ true ↔ HasAll b
complete_iff b a held = (
  (λ e k h.
      count_true_full (suc b.of_fragment_no) b.received (ground (arith, held.counted, e)) k
        (omega arith)),
  (λ all.
      let full : count_true (suc b.of_fragment_no) b.received ≡ suc b.of_fragment_no =
        full_count_true (suc b.of_fragment_no) b.received (λ k h. all k (omega arith)) in
      (==_iff b.fragment_count (b.of_fragment_no + 1)).1 (omega (arith, full, held.counted))),
)

not_broken : (c : Bool) → not c ≡ false ↔ c ≡ true
not_broken true = (λ e. refl, λ e. refl)
not_broken false = (λ e. cc e, λ e. cc e)

pub handed-delivered :
    (i : ℕ) (b : Bucket) (f : SuperFrame) (broken : Bool) (r : Receiver)
    → (hand_over i b f (count_delivered broken r)).delivered ≡ r.delivered ++ (f ∷ [])
handed-delivered i b f true r = refl
handed-delivered i b f false r = refl

-- Delivering a bucket in use of a valid receiver adds one frame to those delivered, with the
-- memory of the bucket, and this frame is marked as not broken just where every fragment came.
pub deliver_frame-delivered :
    (i : ℕ) (r : Receiver)
    → IsValid r
    → (r.buckets i).active ≡ true
    → (f : SuperFrame) × (t : Receiver) × (deliver_frame i r ≡ some t)
      × (t.delivered ≡ r.delivered ++ (f ∷ []))
      × ((r.buckets i).frame ≡ some f.assembly)
      × (f.broken ≡ false ↔ HasAll (r.buckets i))
unfolding deliver_frame
deliver_frame-delivered i r v e =
    let b = r.buckets i in
    let (a, has, held) = v.buckets i e in
    let whole = complete_iff b a held in
    let flag = not_broken (is_complete b) in
    (
      super_frame b a,
      hand_over i b (super_frame b a) (count_delivered (not (is_complete b)) r),
      simp has refl,
      handed-delivered i b (super_frame b a) (not (is_complete b)) r,
      has,
      (λ x. whole.0 (flag.0 x), λ x. flag.1 (whole.1 x)),
    )
