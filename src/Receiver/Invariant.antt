-- ===== src/Receiver/Invariant.antt =====
-- What holds of every bucket between two packets, of the allocator that the receiver calls, and of
-- the number of NACKs for a frame: 64 at most, as far as the shift of `calculateNackDelayUs` is defined.
use new_efp.Common.{
  ℕ, zero, suc, ◌+◌, ◌-◌, ◌*◌, ◌≤◌, ◌<◌, ◌≡◌, ◌≢◌, refl, Bool, true, false, Option, none, some,
  ◌==◌, if◌then◌else◌, arith, length, Bool-cases, inl, inr, ==_iff, ==_refl,
}
use new_efp.Common.Memory.{Bytes}
use new_efp.Wire.{Result}
use new_efp.Common.Int.{ℤ}
use new_efp.Receiver.State.{Receiver, Bucket, Assembly, set_bucket, map_insert, map_erase}
use new_efp.Receiver.BucketMap.{
  Ascending, Ascending-map_insert, Ascending-map_erase, Names, Sound, set, Sound-set,
  Sound-set_other, Sound-Avoids, All-map_insert, All-map_erase, erase-Avoids, map_erase-insert,
}

-- How many of the first `n` fragments a bitset holds.
unfoldable pub count_true : ℕ → (ℕ → Bool) → ℕ
count_true zero f = 0
count_true (suc n) f = count_true n f + (if f n then 1 else 0)

-- A bucket whose frame lies in the memory of `a`: the places that fragments still to come will be
-- copied to lie inside, and the count is that of the bits.
pub record Holds (b : Bucket) (a : Assembly) : Type 0 where
  pub size_fits : a.size ≤ length a.memory
  pub of_bounded : b.of_fragment_no < 8192
  pub inner_fit : b.fragment_size * b.of_fragment_no ≤ length a.memory
  pub last_fits :
      b.received b.of_fragment_no ≡ false
      → b.fragment_size * b.of_fragment_no + b.fragment_size ≤ length a.memory
  pub type2_fits :
      b.type3_size ≡ 0 → b.fragment_size * b.of_fragment_no + b.type2_size ≤ length a.memory
  pub type3_received : 0 < b.type3_size → b.received (b.of_fragment_no - 1) ≡ true
  pub type3_inner : 0 < b.type3_size → 0 < b.of_fragment_no
  pub counted : b.fragment_count ≡ count_true (suc b.of_fragment_no) b.received

-- An active bucket holds a frame.
abbrev pub BucketIsValid : Bucket → Type 0
BucketIsValid b = b.active ≡ true → (a : Assembly) × (b.frame ≡ some a) × Holds b a

-- An allocator that gives blocks of the size that was asked for, or none.
abbrev pub IsHonest : (ℕ → ℕ → Option Bytes) → Type 0
IsHonest alloc = (k size : ℕ) (block : Bytes) → alloc k size ≡ some block → length block ≡ size

pub record IsValid (r : Receiver) : Type 0 where
  pub buckets : (i : ℕ) → BucketIsValid (r.buckets i)
  pub honest : IsHonest r.allocations
  pub ascending : Ascending r.bucket_map
  pub sound : Sound r.buckets r.bucket_map
  pub retries : r.max_nack_retries ≤ 64

-- A call that came to an end inside its buffers, and left a valid receiver.
pub data Safe : Option (Result × Receiver) → Type 0 where
  safe : {result : Result} {r : Receiver} → IsValid r → Safe (some (result, r))

-- A call that returned with the buckets, their map and the allocator as they were.
abbrev pub Kept : Receiver → Option (Result × Receiver) → Type 0
Kept r none = ⊥
Kept r (some (result, t)) =
    (t.buckets ≡ r.buckets)
    × (t.allocations ≡ r.allocations)
    × (t.bucket_map ≡ r.bucket_map)
    × (t.max_nack_retries ≡ r.max_nack_retries)

-- Only the buckets, their map and the allocator count.
pub IsValid-of_same :
    (r t : Receiver)
    → t.buckets ≡ r.buckets
    → t.allocations ≡ r.allocations
    → t.bucket_map ≡ r.bucket_map
    → t.max_nack_retries ≡ r.max_nack_retries
    → IsValid r
    → IsValid t
IsValid-of_same r t e f g h v = record {
  retries = rw h v.retries;
  buckets = rw e v.buckets;
  honest = rw f v.honest;
  ascending = rw g v.ascending;
  sound = rw (e, g) v.sound;
}

pub Kept-Safe : {r : Receiver} (o : Option (Result × Receiver)) → Kept r o → IsValid r → Safe o
Kept-Safe none k v = absurd k
Kept-Safe {r} (some (result, t)) k v = safe (IsValid-of_same r t k.0 k.1 k.2 k.3 v)

BucketIsValid-set :
    (r : Receiver) (i : ℕ) (b : Bucket)
    → ((j : ℕ) → BucketIsValid (r.buckets j))
    → BucketIsValid b
    → (j : ℕ) → BucketIsValid (set r.buckets i b j)
BucketIsValid-set r i b v w j = elim (Bool-cases (j == i)) [ inl e ↦ rw e w | inr e ↦ rw e (v j) ]

-- An active bucket is rewritten, and stays active under its order.
pub set_bucket-IsValid :
    (r : Receiver) (i : ℕ) (b : Bucket)
    → IsValid r
    → b.active ≡ true
    → b.delivery_order ≡ (r.buckets i).delivery_order
    → BucketIsValid b
    → IsValid (set_bucket r i b)
set_bucket-IsValid r i b v a o w = record {
  buckets = BucketIsValid-set r i b v.buckets w;
  honest = v.honest;
  retries = v.retries;
  ascending = v.ascending;
  sound = Sound-set r.buckets i b r.bucket_map a o v.sound;
}

-- A bucket gets an entry in the map.
pub enter-IsValid :
    (r : Receiver) (i : ℕ) (b : Bucket)
    → IsValid r
    → (r.buckets i).active ≡ false
    → b.active ≡ true
    → BucketIsValid b
    → IsValid
        (set_bucket (record r { bucket_map = map_insert b.delivery_order i r.bucket_map }) i b)
enter-IsValid r i b v idle a w = record {
  buckets = BucketIsValid-set r i b v.buckets w;
  honest = v.honest;
  retries = v.retries;
  ascending = Ascending-map_insert b.delivery_order i r.bucket_map v.ascending;
  sound =
      All-map_insert (Names (set r.buckets i b)) b.delivery_order i r.bucket_map (names (==_refl i))
        (Sound-set_other r.buckets i b r.bucket_map
          (Sound-Avoids r.buckets i r.bucket_map idle v.sound) v.sound);
}
  where
    names : (i == i) ≡ true → Names (set r.buckets i b) (b.delivery_order, i)
    names e = rw e (a, refl)

-- An idle bucket that got an entry is given up again.
pub give_up-IsValid :
    (r : Receiver) (i : ℕ) (k : ℤ) (b : Bucket)
    → IsValid r
    → (r.buckets i).active ≡ false
    → b.active ≡ false
    → IsValid (set_bucket (record r { bucket_map = map_erase k (map_insert k i r.bucket_map) }) i b)
give_up-IsValid r i k b v idle gone = record {
  buckets = BucketIsValid-set r i b v.buckets (λ e. cc (e, gone));
  honest = v.honest;
  retries = v.retries;
  ascending =
      Ascending-map_erase k (map_insert k i r.bucket_map)
        (Ascending-map_insert k i r.bucket_map v.ascending);
  sound = rw (map_erase-insert k i r.bucket_map) (
      Sound-set_other r.buckets i b (map_erase k r.bucket_map)
        (All-map_erase (λ e. e.1 ≢ i) k r.bucket_map
          (Sound-Avoids r.buckets i r.bucket_map idle v.sound))
        (All-map_erase (Names r.buckets) k r.bucket_map v.sound));
}

-- A bucket that the map names loses its entry.
pub leave-IsValid :
    (r : Receiver) (i : ℕ) (b : Bucket)
    → IsValid r
    → b.active ≡ false
    → IsValid (
        set_bucket
          (record r { bucket_map = map_erase (r.buckets i).delivery_order r.bucket_map })
          i
          b)
leave-IsValid r i b v gone =
    let k = (r.buckets i).delivery_order in
    record {
      buckets = BucketIsValid-set r i b v.buckets (λ e. cc (e, gone));
      honest = v.honest;
      retries = v.retries;
      ascending = Ascending-map_erase k r.bucket_map v.ascending;
      sound =
          Sound-set_other r.buckets i b (map_erase k r.bucket_map)
            (erase-Avoids r.buckets i r.bucket_map v.sound)
            (All-map_erase (Names r.buckets) k r.bucket_map v.sound);
    }

pub count_true-le : (n : ℕ) (f : ℕ → Bool) → count_true n f ≤ n
unfolding count_true
count_true-le zero f = omega arith
count_true-le (suc n) f = ground (arith, count_true-le n f)

-- A bit outside the counted range does not matter.
count_true-update_above :
    (n k : ℕ) (f : ℕ → Bool)
    → n ≤ k
    → count_true n (λ j. if j == k then true else f j) ≡ count_true n f
unfolding count_true
count_true-update_above zero k f h = refl
count_true-update_above (suc n) k f h = ground (arith, count_true-update_above n k f)

-- A new bit adds one.
pub count_true-update :
    (n k : ℕ) (f : ℕ → Bool)
    → k < n
    → f k ≡ false
    → count_true n (λ j. if j == k then true else f j) ≡ count_true n f + 1
unfolding count_true
count_true-update zero k f h e = absurd (omega arith)
count_true-update (suc n) k f h e =
    grind (arith, count_true-update n k f, count_true-update_above n k f)

-- One bit alone.
count_true-none : (n k : ℕ) → n ≤ k → count_true n (λ j. j == k) ≡ 0
unfolding count_true
count_true-none zero k h = refl
count_true-none (suc n) k h = ground (arith, count_true-none n k)

pub count_true-single : (n k : ℕ) → k < n → count_true n (λ j. j == k) ≡ 1
unfolding count_true
count_true-single zero k h = absurd (omega arith)
count_true-single (suc n) k h = ground (arith, count_true-none n k, count_true-single n k)

-- A full count is a bitset that holds every fragment, and conversely.
pub count_true_full : (n : ℕ) (f : ℕ → Bool) → count_true n f ≡ n → (k : ℕ) → k < n → f k ≡ true
unfolding count_true
count_true_full zero f e k h = absurd (omega arith)
count_true_full (suc n) f e k h = elim (Bool-cases (k == n)) [
  | inl same ↦
      let k_is_n : k ≡ n = (==_iff k n).0 same in rw k_is_n (ground (arith, count_true-le n f))
  | inr other ↦ count_true_full n f (ground (arith, count_true-le n f)) k (ground arith)
]

pub full_count_true : (n : ℕ) (f : ℕ → Bool) → ((k : ℕ) → k < n → f k ≡ true) → count_true n f ≡ n
unfolding count_true
full_count_true zero f h = refl
full_count_true (suc n) f h =
    ground (arith, full_count_true n f (λ k lt. h k (omega arith)), h n (omega arith))
