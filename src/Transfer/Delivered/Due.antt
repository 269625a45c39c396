-- ===== src/Transfer/Delivered/Due.antt =====
-- A bucket that holds all of a frame is due.
use new_efp.Common.{
  ℕ, ◌≡◌, refl, true, false, List, [], ◌∷◌, some, ◌==◌, ◌⊎◌, arith, Bool-cases, inl, inr,
}
use new_efp.Common.Int.{ℤ}
use new_efp.Sender.Fragments.{Job}
use new_efp.Receiver.State.{Receiver, Bucket, Assembly}
use new_efp.Receiver.Delivery.{due_buckets, is_due, is_complete}
use new_efp.Receiver.Complete.{HasAll}
use new_efp.Transfer.Assembling.{Keeps, Lists}

-- A bucket in use that holds all of a frame.
pub record Filled (j : Job) (source : ℕ) (b : Bucket) : Type 0 where
  pub active : b.active ≡ true
  pub keeps : (a : Assembly) × (b.frame ≡ some a) × Keeps j source b a
  pub all : HasAll b

pub apart : (n i : ℕ) → (n == i) ≡ false → (i == n) ≡ false
apart n i e = ground (arith, e)

-- A number stands in a list of buckets.
abbrev pub Stands : ℕ → List ℕ → Type 0
Stands i [] = ⊥
Stands i (n ∷ ns) = (n ≡ i) ⊎ Stands i ns

pub Stands-due :
    (r : Receiver) (now i : ℕ) (m : List (ℤ × ℕ))
    → is_due r now (r.buckets i) ≡ true
    → Lists i m
    → Stands i (due_buckets r now m)
unfolding due_buckets
Stands-due r now i [] due l = absurd l
Stands-due r now i ((k, n) ∷ m) due l = elim l [
  | inl same ↦ rw (same, due) (inl refl)
  | inr more ↦ elim (Bool-cases (is_due r now (r.buckets n))) [
    | inl e ↦ rw e (inr (Stands-due r now i m due more))
    | inr e ↦ rw e (Stands-due r now i m due more)
  ]
]

-- The counters of NACKs do not matter.
Keeps-nacked :
    (j : Job) (source last count : ℕ) (b : Bucket) (a : Assembly)
    → Keeps j source b a
    → Keeps j source (record b { last_nack_us = last; nack_count = count }) a
Keeps-nacked j source last count b a k = record {
  saved_frame_no = k.saved_frame_no;
  stream_id = k.stream_id;
  source_id = k.source_id;
  of_fragment_no = k.of_fragment_no;
  fragment_size = k.fragment_size;
  type3_size = k.type3_size;
  type2_size = k.type2_size;
  alone = k.alone;
  type1s = k.type1s;
  type3s = k.type3s;
  type2s = k.type2s;
  whole = k.whole;
  described = λ e.
      let d = k.described e in
      record {
        payload_type = d.payload_type;
        payload_code = d.payload_code;
        pts = d.pts;
        dts = d.dts;
        flags = d.flags;
      };
}

pub Filled-nacked :
    (j : Job) (source last count : ℕ) (b : Bucket)
    → Filled j source b
    → Filled j source (record b { last_nack_us = last; nack_count = count })
Filled-nacked j source last count b f =
    let (a, has, keeps) = f.keeps in
    record {
      active = f.active;
      keeps = (a, has, Keeps-nacked j source last count b a keeps);
      all = f.all;
    }

pub is_due_complete :
    (r : Receiver) (now : ℕ) (b : Bucket) → is_complete b ≡ true → is_due r now b ≡ true
unfolding is_due
is_due_complete r now b e = rw e refl
