-- ===== src/Receiver/Safety/Nack.antt =====
-- `processNacks` keeps the receiver valid.
use new_efp.Common.{
  ℕ, ◌+◌, ◌%◌, ◌≤◌, ◌≡◌, refl, ap, sym, subst, ◌∙◌, true, List, [], ◌∷◌, ◌==◌, ltb, leb, some,
  length, arith, Bool-cases, inl, inr, ==_iff,
}
use new_efp.Common.Memory.{Bytes}
use new_efp.Common.Int.{ℤ, pos, ltb_ℤ}
use new_efp.Receiver.State.{Receiver, Bucket, later}
use new_efp.Receiver.BucketMap.{Sound}
use new_efp.Receiver.Nack.{
  nack_bucket, nack_loop, process_nacks, calculate_nack_delay_us, nack_delay, send_nack, nack_due,
  trigger_time, build_nack,
}
use new_efp.Receiver.Invariant.{BucketIsValid, IsValid}

-- A NACK changes two counters of a bucket.
counted_nack-BucketIsValid :
    (b : Bucket) (now n : ℕ)
    → BucketIsValid b
    → BucketIsValid (record b { last_nack_us = now; nack_count = n })
counted_nack-BucketIsValid b now n v active =
    let (a, has, held) = v active in
    (
      a,
      has,
      record {
        size_fits = held.size_fits;
        of_bounded = held.of_bounded;
        inner_fit = held.inner_fit;
        last_fits = held.last_fits;
        type2_fits = held.type2_fits;
        type3_received = held.type3_received;
        type3_inner = held.type3_inner;
        counted = held.counted;
      },
    )

-- What `processNacks` leaves of a receiver: of the buckets, all but the two counters.
pub record Nacked (r t : Receiver) : Type 0 where
  pub buckets :
      (i : ℕ)
      → (last : ℕ) × (count : ℕ) × (t.buckets i
          ≡ record (r.buckets i) { last_nack_us = last; nack_count = count })
  pub bucket_map : t.bucket_map ≡ r.bucket_map
  pub allocations : t.allocations ≡ r.allocations
  pub max_nack_retries : t.max_nack_retries ≡ r.max_nack_retries
  pub delivered : t.delivered ≡ r.delivered
  pub buffer_size : t.buffer_size ≡ r.buffer_size
  pub mode : t.mode ≡ r.mode

Nacked-of_same :
    (r t : Receiver)
    → t.buckets ≡ r.buckets
    → t.bucket_map ≡ r.bucket_map
    → t.allocations ≡ r.allocations
    → t.max_nack_retries ≡ r.max_nack_retries
    → t.delivered ≡ r.delivered
    → t.buffer_size ≡ r.buffer_size
    → t.mode ≡ r.mode
    → Nacked r t
Nacked-of_same r t e f g h d w m = record {
  buckets = λ i. ((r.buckets i).last_nack_us, (r.buckets i).nack_count, ap (λ b. b i) e);
  bucket_map = f;
  allocations = g;
  max_nack_retries = h;
  delivered = d;
  buffer_size = w;
  mode = m;
}

Nacked-trans : (r s t : Receiver) → Nacked r s → Nacked s t → Nacked r t
Nacked-trans r s t a b = record {
  buckets = λ i.
      let (last, count, e) = a.buckets i in
      let (last', count', f) = b.buckets i in
      (
        last',
        count',
        f ∙ ap (λ (c : Bucket). record c { last_nack_us = last'; nack_count = count' }) e,
      );
  bucket_map = b.bucket_map ∙ a.bucket_map;
  allocations = b.allocations ∙ a.allocations;
  max_nack_retries = b.max_nack_retries ∙ a.max_nack_retries;
  delivered = b.delivered ∙ a.delivered;
  buffer_size = b.buffer_size ∙ a.buffer_size;
  mode = b.mode ∙ a.mode;
}

send_nack-Nacked :
    (now i : ℕ) (packet : Bytes) (r : Receiver) → Nacked r (send_nack now i (r.buckets i) packet r)
send_nack-Nacked now i packet r = record {
  buckets = λ j. elim (Bool-cases (j == i)) [
    | inl e ↦
        let same : j ≡ i = (==_iff j i).0 e in
        (now, ((r.buckets i).nack_count + 1) % 256, rw (e, same) refl)
    | inr e ↦ ((r.buckets j).last_nack_us, (r.buckets j).nack_count, rw e refl)
  ];
  bucket_map = refl;
  allocations = refl;
  max_nack_retries = refl;
  delivered = refl;
  buffer_size = refl;
  mode = refl;
}

nack_due-Nacked :
    (now i : ℕ) (delay : ℤ) (r : Receiver)
    → (t : Receiver) × (nack_due now i (r.buckets i) (some (delay, r)) ≡ some t) × Nacked r t
nack_due-Nacked now i delay r =
    elim (Bool-cases (ltb_ℤ (pos now) (trigger_time (r.buckets i) delay))) [
      | inl e ↦ (r, rw e refl, Nacked-of_same r r refl refl refl refl refl refl refl)
      | inr e ↦ elim (Bool-cases (length (build_nack (r.buckets i)) == 0)) [
        | inl f ↦ (r, rw (e, f) refl, Nacked-of_same r r refl refl refl refl refl refl refl)
        | inr f ↦ (
          send_nack now i (r.buckets i) (build_nack (r.buckets i)) r,
          rw (e, f) refl,
          send_nack-Nacked now i (build_nack (r.buckets i)) r,
        )
      ]
    ]

calculate_nack_delay_us-returns :
    (b : Bucket) (r : Receiver)
    → ltb b.nack_count 64 ≡ true
    → (delay : ℤ) × (calculate_nack_delay_us b r ≡ some (delay, record r { clock = later r.clock }))
unfolding calculate_nack_delay_us
calculate_nack_delay_us-returns b r short = (nack_delay b r, rw short refl)

nack_bucket-Nacked :
    (now i : ℕ) (r : Receiver)
    → r.max_nack_retries ≤ 64
    → (t : Receiver) × (nack_bucket now i (r.buckets i) r ≡ some t) × Nacked r t
unfolding nack_bucket
nack_bucket-Nacked now i r few =
    elim (Bool-cases ((r.buckets i).fragment_count == (r.buckets i).of_fragment_no + 1)) [
      | inl e ↦ (r, rw e refl, Nacked-of_same r r refl refl refl refl refl refl refl)
      | inr e ↦ elim (Bool-cases (leb r.max_nack_retries (r.buckets i).nack_count)) [
        | inl f ↦ (r, rw (e, f) refl, Nacked-of_same r r refl refl refl refl refl refl refl)
        | inr f ↦
            let short : ltb (r.buckets i).nack_count 64 ≡ true = ground (arith, f) in
            let later_r = record r { clock = later r.clock } in
            let (delay, d) = calculate_nack_delay_us-returns (r.buckets i) r short in
            let (t, run, n) = nack_due-Nacked now i delay later_r in
            (
              t,
              rw (e, f) (ap (nack_due now i (r.buckets i)) d ∙ run),
              Nacked-trans r later_r t (Nacked-of_same r later_r refl refl refl refl refl refl refl)
                  n,
            )
      ]
    ]

nack_loop-Nacked :
    (now : ℕ) (m : List (ℤ × ℕ)) (r : Receiver)
    → r.max_nack_retries ≤ 64
    → (t : Receiver) × (nack_loop now m r ≡ some t) × Nacked r t
unfolding nack_loop
nack_loop-Nacked now [] r few = (r, refl, Nacked-of_same r r refl refl refl refl refl refl refl)
nack_loop-Nacked now ((k, i) ∷ m) r few =
    let (s, e, n) = nack_bucket-Nacked now i r few in
    let (t, f, n') = nack_loop-Nacked now m s (omega (arith, n.max_nack_retries)) in
    (t, rw e f, Nacked-trans r s t n n')

-- With at most 64 retries `processNacks` comes to its end, and of the buckets it changes two
-- counters only.
pub process_nacks-Nacked :
    (r : Receiver)
    → r.max_nack_retries ≤ 64
    → (t : Receiver) × (process_nacks r ≡ some t) × Nacked r t
unfolding process_nacks
process_nacks-Nacked r few = elim (Bool-cases (r.max_nack_retries == 0)) [
  | inl e ↦ (r, rw e refl, Nacked-of_same r r refl refl refl refl refl refl refl)
  | inr e ↦
      let later_r = record r { clock = later r.clock } in
      let (t, run, n) = nack_loop-Nacked (r.clock 0) r.bucket_map later_r few in
      (
        t,
        rw e run,
        Nacked-trans r later_r t (Nacked-of_same r later_r refl refl refl refl refl refl refl) n,
      )
]

Sound-Nacked :
    (r t : Receiver) (m : List (ℤ × ℕ)) → Nacked r t → Sound r.buckets m → Sound t.buckets m
Sound-Nacked r t [] n v = tt
Sound-Nacked r t ((k, i) ∷ m) n v =
    let (last, count, e) = n.buckets i in
    (
      (ap (λ (b : Bucket). b.active) e ∙ v.0.0, ap (λ (b : Bucket). b.delivery_order) e ∙ v.0.1),
      Sound-Nacked r t m n v.1,
    )

pub Nacked-IsValid : (r t : Receiver) → Nacked r t → IsValid r → IsValid t
Nacked-IsValid r t n v = record {
  buckets = λ i.
      let (last, count, e) = n.buckets i in
      subst BucketIsValid (sym e)
        (counted_nack-BucketIsValid (r.buckets i) last count (v.buckets i));
  honest = rw n.allocations v.honest;
  ascending = rw n.bucket_map v.ascending;
  sound = rw n.bucket_map (Sound-Nacked r t r.bucket_map n v.sound);
  retries = omega (arith, n.max_nack_retries, v.retries);
}

-- What `processTimeouts` goes on with behind the NACKs.
pub noted_nacks :
    (r : Receiver)
    → IsValid r
    → (t : Receiver) × (process_nacks (record r { clock = later r.clock }) ≡ some t)
      × Nacked r t
      × IsValid t
noted_nacks r v =
    let later_r = record r { clock = later r.clock } in
    let (t, e, n) = process_nacks-Nacked later_r v.retries in
    let from_r =
      Nacked-trans r later_r t (Nacked-of_same r later_r refl refl refl refl refl refl refl) n in
    (t, e, from_r, Nacked-IsValid r t from_r v)
