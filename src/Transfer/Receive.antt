-- ===== src/Transfer/Receive.antt =====
-- One packet of a frame at `Receiver::receive`.
use new_efp.Common.{
  bit_and, ℕ, ◌≤◌, ◌<◌, ◌≡◌, refl, sym, subst, ◌∙◌, true, Option, some, ◌==◌, ltb, arith,
  Bool-cases, inl, inr, ==_iff,
}
use new_efp.Common.Int.{pos, ltb_ℤ}
use new_efp.Common.Memory.{Bytes}
use new_efp.Wire.{Result, ok}
use new_efp.Sender.Fragments.{Job}
use new_efp.Sender.SingleSpec.{type2_packet}
use new_efp.Receiver.State.{Receiver, arrive, update_jitter, recalculate_super_frame_no}
use new_efp.Receiver.Api.{with_timeouts, receive}
use new_efp.Receiver.Invariant.{IsValid, Safe, safe}
use new_efp.Receiver.Safety.Receive.{receive-Safe}
use new_efp.Receiver.Safety.Opening.{arrive-IsValid}
use new_efp.Transfer.Packets.{
  IsSendable, num, type2_start, fragment, type1_fragment, type3_fragment, receive_type1,
  receive_type2, receive_type3,
}
use new_efp.Transfer.Assembling.{Lists, bucket_of, Holding, Holding-Holds, Took, arrive-same}
use new_efp.Transfer.Type1.Taken.{type1_arrived-Took}
use new_efp.Transfer.Type2.Taken.{type2_arrived-Took}
use new_efp.Transfer.Type3.Taken.{type3_arrived-Took}
use new_efp.Transfer.Opening.{IsReady}
use new_efp.Transfer.Opening.Opens.{type1_arrived-Opens, type2_arrived-Opens, type3_arrived-Opens}

-- The bucket is found where it was before the packet came.
pub arrive-bucket : (j : Job) (r : Receiver) → bucket_of j (arrive r).1 ≡ bucket_of j r
unfolding arrive
arrive-bucket j r =
    let (buckets, mode, size, allocations) = arrive-same r in rw (buckets, size) refl

arrive-Lists :
    (j : Job) (r : Receiver)
    → Lists (bit_and j.super_frame_no r.buffer_size) r.bucket_map
    → Lists (bit_and j.super_frame_no (arrive r).1.buffer_size) (arrive r).1.bucket_map
unfolding arrive update_jitter
arrive-Lists j r h = elim (Bool-cases (ltb_ℤ (pos 0) r.last_arrival_us)) [
  | inl e ↦ rw e h
  | inr e ↦ rw e h
]

pub arrive-Holding :
    (j : Job) (source : ℕ) (r : Receiver) → Holding j source r → Holding j source (arrive r).1
arrive-Holding j source r h = record {
  mode = (arrive-same r).1 ∙ h.mode;
  active = rw (arrive-bucket j r) h.active;
  listed = arrive-Lists j r h.listed;
  keeps = rw (arrive-bucket j r) h.keeps;
}

-- What a call of `receive` for fragment `k` comes to.
abbrev pub Returned : Job → ℕ → ℕ → Receiver → Option (Result × Receiver) → Type 0
Returned j source k r o =
    (t : Receiver) × (result : Result) × (o ≡ some (result, t)) × Took j source k r t

arrived-Returned :
    (j : Job) (source k : ℕ) (r : Receiver) (o : Option (Result × Receiver))
    → Returned j source k (arrive r).1 o
    → Returned j source k r (with_timeouts o)
arrived-Returned j source k r o (t, result, e, took) = (
  t,
  result,
  rw e (rw took.holding.mode refl),
  record {
    holding = took.holding;
    taken = took.taken;
    kept = λ m h. took.kept m (rw (arrive-bucket j r) h);
  },
)

arrive-counting :
    (r : Receiver)
    → ((arrive r).1.first_frame ≡ r.first_frame)
      × ((arrive r).1.frame_no_recalc ≡ r.frame_no_recalc)
      × ((arrive r).1.old_frame_no ≡ r.old_frame_no)
unfolding arrive update_jitter
arrive-counting r = ground arith

pub recalculate-same :
    (n : ℕ) (r t : Receiver)
    → t.first_frame ≡ r.first_frame
    → t.frame_no_recalc ≡ r.frame_no_recalc
    → t.old_frame_no ≡ r.old_frame_no
    → (recalculate_super_frame_no n t).0 ≡ (recalculate_super_frame_no n r).0
unfolding recalculate_super_frame_no
recalculate-same n r t e f g =
    rw (e, f, g) (elim (Bool-cases r.first_frame) [ inl x ↦ rw x refl | inr x ↦ rw x refl ])

pub arrive-IsReady :
    (j : Job) (r : Receiver) → IsReady j.super_frame_no r → IsReady j.super_frame_no (arrive r).1
arrive-IsReady j r ready =
    let (buckets, mode, size, allocations) = arrive-same r in
    let (first, order, old) = arrive-counting r in
    record {
      mode = mode ∙ ready.mode;
      idle = rw (arrive-bucket j r) ready.idle;
      unseen =
          rw (arrive-bucket j r, recalculate-same j.super_frame_no r (arrive r).1 first order old)
            ready.unseen;
      honest = rw allocations ready.honest;
      supplied = rw allocations ready.supplied;
    }

-- What the first packet of a frame comes to, for fragment `k`.
abbrev pub Opened : Job → ℕ → ℕ → Option (Result × Receiver) → Type 0
Opened j source k o =
    (t : Receiver) × (result : Result) × (o ≡ some (result, t))
    × Holding j source t
    × ((bucket_of j t).received k ≡ true)

arrived-Opened :
    (j : Job) (source k : ℕ) (o : Option (Result × Receiver))
    → (t : Receiver) × (o ≡ some (ok, t)) × Holding j source t × ((bucket_of j t).received k ≡ true)
    → Opened j source k (with_timeouts o)
arrived-Opened j source k o (t, e, holding, taken) =
    (t, ok, rw e (rw holding.mode refl), holding, taken)

-- The receiver after a call in a valid one is valid.
pub after-IsValid :
    (packet : Bytes) (source : ℕ) (r t : Receiver) (result : Result)
    → IsValid r
    → receive packet source r ≡ some (result, t)
    → IsValid t
after-IsValid packet source r t result v e =
    valid_in (subst Safe e (receive-Safe packet source r v))
  where
    valid_in : Safe (some (result, t)) → IsValid t
    valid_in (safe w) = w

module _ (j : Job) (s : IsSendable j) (source : ℕ) (r : Receiver) (v : IsValid r) where
  -- A fragment is one of the three kinds.
  by_kind :
      (P : ℕ → Bytes → Type 0)
      → P j.of_fragment_no (type2_packet j (type2_start j))
      → ((k : ℕ) → k < num j → P k (type1_fragment j k))
      → (j.cut.needs_type3 ≡ true → P (num j) (type3_fragment j))
      → (k : ℕ) → k ≤ j.of_fragment_no
      → P k (fragment j k)
  unfolding fragment
  by_kind P two one three k le = elim (Bool-cases (k == j.of_fragment_no)) [
    | inl e ↦
        let k_is : k ≡ j.of_fragment_no = (==_iff k j.of_fragment_no).0 e in rw e (rw k_is two)
    | inr e ↦ elim (Bool-cases (ltb k (num j))) [
      | inl f ↦ rw (e, f) (one k (ground (arith, f)))
      | inr f ↦
          let need : j.cut.needs_type3 ≡ true = ground (arith, s.counted, e, f, le) in
          let k_is : k ≡ num j = ground (arith, s.counted, e, f, le) in
          rw (e, f) (subst (λ m. P m (type3_fragment j)) (sym k_is) (three need))
    ]
  ]

  -- A packet of a frame that is being assembled.
  pub receive-Took :
      Holding j source r
      → (k : ℕ) → k ≤ j.of_fragment_no
      → Returned j source k r (receive (fragment j k) source r)
  receive-Took h =
      let (a, has, keeps, held) =
        Holding-Holds j source (arrive r).1 (arrive-IsValid r v) (arrive-Holding j source r h) in
      let h' = arrive-Holding j source r h in
      by_kind (λ k packet. Returned j source k r (receive packet source r))
        (rw (receive_type2 j s source r) (
          arrived-Returned j source j.of_fragment_no r _ (
            type2_arrived-Took j s source (arrive r).0 (arrive r).1 a h'.mode h'.active h'.listed
              has keeps held)))
        (λ k inner. rw (receive_type1 j s source r k (omega (arith, s.counted, s.few))) (
          let (t, result, e, mild, took) =
            type1_arrived-Took j s source k (arrive r).0 (arrive r).1 a h'.mode h'.active h'.listed
              has keeps held inner in
          arrived-Returned j source k r _ (t, result, e, took)))
        (λ need. rw (receive_type3 j s source r) (
          arrived-Returned j source (num j) r _ (
            type3_arrived-Took j s source need (arrive r).0 (arrive r).1 a h'.mode h'.active
              h'.listed has keeps held)))

  -- The first packet of a frame.
  pub receive-Opens :
      IsReady j.super_frame_no r
      → (k : ℕ) → k ≤ j.of_fragment_no
      → Opened j source k (receive (fragment j k) source r)
  receive-Opens ready =
      let ready' = arrive-IsReady j r ready in
      by_kind (λ k packet. Opened j source k (receive packet source r))
        (rw (receive_type2 j s source r) (
          arrived-Opened j source j.of_fragment_no _
            (type2_arrived-Opens j s source (arrive r).0 (arrive r).1 ready')))
        (λ k inner. rw (receive_type1 j s source r k (omega (arith, s.counted, s.few))) (
          arrived-Opened j source k _
            (type1_arrived-Opens j s source (arrive r).0 (arrive r).1 ready' k inner)))
        (λ need. rw (receive_type3 j s source r) (
          arrived-Opened j source (num j) _
            (type3_arrived-Opens j s source (arrive r).0 (arrive r).1 ready' need)))
