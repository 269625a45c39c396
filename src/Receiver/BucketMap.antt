-- ===== src/Receiver/BucketMap.antt =====
-- `mBucketMap`: keys in strictly ascending order, and each entry names an active bucket of that
-- delivery order.
use new_efp.Common.{
  ℕ, ◌≡◌, ◌≢◌, ap, subst, sym, ◌∙◌, true, false, List, [], ◌∷◌, ◌==◌, if◌then◌else◌, arith, All,
  Bool-cases, inl, inr, ==_iff, ==_refl,
}
use new_efp.Common.Int.{ℤ, ◌<ℤ◌, ltb_ℤ, eqb_ℤ, eq_of_parts}
use new_efp.Receiver.State.{Bucket, map_insert, map_erase}

-- The keys ascend from above `k`.
abbrev pub Above : ℤ → List (ℤ × ℕ) → Type 0
Above k [] = Unit {0}
Above k ((j, w) ∷ m) = (k <ℤ j) × Above j m

abbrev pub Ascending : List (ℤ × ℕ) → Type 0
Ascending [] = Unit {0}
Ascending ((j, w) ∷ m) = Above j m

pub Above-mono : (a b : ℤ) (m : List (ℤ × ℕ)) → a <ℤ b → Above b m → Above a m
Above-mono a b [] h v = tt
Above-mono a b ((j, w) ∷ m) h v = (omega arith, v.1)

pub Above-Ascending : (a : ℤ) (m : List (ℤ × ℕ)) → Above a m → Ascending m
Above-Ascending a [] v = tt
Above-Ascending a ((j, w) ∷ m) v = v.1

Above-map_insert :
    (a k : ℤ) (i : ℕ) (m : List (ℤ × ℕ)) → a <ℤ k → Above a m → Above a (map_insert k i m)
unfolding map_insert
Above-map_insert a k i [] h v = (h, tt)
Above-map_insert a k i ((j, w) ∷ m) h v =
    ground (arith, Above-map_insert j k i m, eq_of_parts k j, Above-mono j k m)

pub Ascending-map_insert :
    (k : ℤ) (i : ℕ) (m : List (ℤ × ℕ)) → Ascending m → Ascending (map_insert k i m)
unfolding map_insert
Ascending-map_insert k i [] v = tt
Ascending-map_insert k i ((j, w) ∷ m) v = ground (arith, Above-map_insert j k i m, eq_of_parts k j)

Above-map_erase : (a k : ℤ) (m : List (ℤ × ℕ)) → Above a m → Above a (map_erase k m)
unfolding map_erase
Above-map_erase a k [] v = tt
Above-map_erase a k ((j, w) ∷ m) v =
    ground (arith, Above-map_erase a k m (Above-mono a j m v.0 v.1), Above-map_erase j k m v.1)

pub Ascending-map_erase : (k : ℤ) (m : List (ℤ × ℕ)) → Ascending m → Ascending (map_erase k m)
unfolding map_erase
Ascending-map_erase k [] v = tt
Ascending-map_erase k ((j, w) ∷ m) v =
    ground (arith, Ascending-map_erase k m (Above-Ascending j m v), Above-map_erase j k m v)

-- An entry and the bucket that it names.
abbrev pub Names : (ℕ → Bucket) → ℤ × ℕ → Type 0
Names buckets (k, i) = ((buckets i).active ≡ true) × ((buckets i).delivery_order ≡ k)

abbrev pub Sound : (ℕ → Bucket) → List (ℤ × ℕ) → Type 0
Sound buckets = All (Names buckets)

abbrev pub set : (ℕ → Bucket) → ℕ → Bucket → ℕ → Bucket
set buckets i b j = if j == i then b else buckets j

-- A bucket that is rewritten, and stays active under its order.
pub Sound-set :
    (buckets : ℕ → Bucket) (i : ℕ) (b : Bucket) (m : List (ℤ × ℕ))
    → b.active ≡ true
    → b.delivery_order ≡ (buckets i).delivery_order
    → Sound buckets m
    → Sound (set buckets i b) m
Sound-set buckets i b [] a o v = tt
Sound-set buckets i b ((k, j) ∷ m) a o v = (head, Sound-set buckets i b m a o v.1)
  where
    head : Names (set buckets i b) (k, j)
    head = elim (Bool-cases (j == i)) [
      | inl e ↦
          let same : j ≡ i = (==_iff j i).0 e in
          rw e (a, o ∙ ap (λ n. (buckets n).delivery_order) (sym same) ∙ v.0.1)
      | inr e ↦ rw e v.0
    ]

-- A bucket that no entry names can be rewritten in any way.
abbrev pub Avoids : ℕ → List (ℤ × ℕ) → Type 0
Avoids i = All (λ e. e.1 ≢ i)

pub Sound-set_other :
    (buckets : ℕ → Bucket) (i : ℕ) (b : Bucket) (m : List (ℤ × ℕ))
    → Avoids i m
    → Sound buckets m
    → Sound (set buckets i b) m
Sound-set_other buckets i b [] n v = tt
Sound-set_other buckets i b ((k, j) ∷ m) n v = (head, Sound-set_other buckets i b m n.1 v.1)
  where
    head : Names (set buckets i b) (k, j)
    head = elim (Bool-cases (j == i)) [ inl e ↦ absurd (n.0 ((==_iff j i).0 e)) | inr e ↦ rw e v.0 ]

pub Sound-Avoids :
    (buckets : ℕ → Bucket) (i : ℕ) (m : List (ℤ × ℕ))
    → (buckets i).active ≡ false
    → Sound buckets m
    → Avoids i m
Sound-Avoids buckets i [] e v = tt
Sound-Avoids buckets i ((k, j) ∷ m) e v =
    (λ same. cc (ap (λ n. (buckets n).active) same, v.0.0), Sound-Avoids buckets i m e v.1)

pub All-map_insert :
    (P : ℤ × ℕ → Type 0) (k : ℤ) (i : ℕ) (m : List (ℤ × ℕ))
    → P (k, i)
    → All P m
    → All P (map_insert k i m)
unfolding map_insert
All-map_insert P k i [] p v = (p, tt)
All-map_insert P k i ((j, w) ∷ m) p v = elim (Bool-cases (ltb_ℤ k j)) [
  | inl e ↦ rw e (p, v)
  | inr e ↦ elim (Bool-cases (eqb_ℤ k j)) [
    | inl f ↦ rw (e, f) (p, v.1)
    | inr f ↦ rw (e, f) (v.0, All-map_insert P k i m p v.1)
  ]
]

pub All-map_erase :
    (P : ℤ × ℕ → Type 0) (k : ℤ) (m : List (ℤ × ℕ)) → All P m → All P (map_erase k m)
unfolding map_erase
All-map_erase P k [] v = tt
All-map_erase P k ((j, w) ∷ m) v = elim (Bool-cases (eqb_ℤ k j)) [
  | inl e ↦ rw e (All-map_erase P k m v.1)
  | inr e ↦ rw e (v.0, All-map_erase P k m v.1)
]

-- No entry of a sound map but the one under its order names a bucket.
pub erase-Avoids :
    (buckets : ℕ → Bucket) (i : ℕ) (m : List (ℤ × ℕ))
    → Sound buckets m
    → Avoids i (map_erase (buckets i).delivery_order m)
unfolding map_erase
erase-Avoids buckets i [] v = tt
erase-Avoids buckets i ((j, w) ∷ m) v = elim (Bool-cases (eqb_ℤ (buckets i).delivery_order j)) [
  | inl e ↦ rw e (erase-Avoids buckets i m v.1)
  | inr e ↦ rw e (λ same. other e same, erase-Avoids buckets i m v.1)
]
  where
    other : eqb_ℤ (buckets i).delivery_order j ≡ false → w ≡ i → ⊥
    other e same =
        let order : (buckets i).delivery_order ≡ j =
          ap (λ n. (buckets n).delivery_order) (sym same) ∙ v.0.1 in
        let here : eqb_ℤ (buckets i).delivery_order j ≡ true =
          subst (λ z. eqb_ℤ (buckets i).delivery_order z ≡ true) order (==_refl _) in
        cc (e, here)

-- Erasing a key forgets what was put in under it.
pub map_erase-insert :
    (k : ℤ) (i : ℕ) (m : List (ℤ × ℕ)) → map_erase k (map_insert k i m) ≡ map_erase k m
unfolding map_insert map_erase
map_erase-insert k i [] = ground arith
map_erase-insert k i ((j, w) ∷ m) = ground (arith, map_erase-insert k i m, eq_of_parts k j)
