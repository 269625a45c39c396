-- ===== src/Transfer/Assembling.antt =====
-- What the bucket of a frame holds after some of its packets have come.
use new_efp.Common.{
  List, [], ◌∷◌, ◌⊎◌, inl, inr, refl, Bool-cases, ℕ, ◌*◌, ◌<◌, ◌≡◌, sym, ◌∙◌, subst, Bool, true,
  not, some, ◌&&◌, if◌then◌else◌, arith, length, bit_and, ==_refl,
}
use mathlib.Core.Option.{some-injective}
use new_efp.Common.Int.{ℤ, ltb_ℤ, eqb_ℤ}
use new_efp.Common.Agree.{Agrees}
use new_efp.Wire.{get_flags, type2, make_frame_type_byte}
use new_efp.Sender.Fragments.{Job, type2_header}
use new_efp.Receiver.State.{
  Receiver, Bucket, Assembly, threaded, arrive, update_jitter, set_bucket, map_insert,
}
use new_efp.Receiver.Type2.{dts_of}
use new_efp.Receiver.Invariant.{Holds, IsValid}
use new_efp.Transfer.Packets.{num, type3_start, type2_start}

-- The metadata that the Type2 packet brings.
pub record IsDescribed (j : Job) (b : Bucket) : Type 0 where
  pub payload_type : b.payload_type ≡ j.payload_type
  pub payload_code : b.payload_code ≡ j.payload_code
  pub pts : b.pts ≡ j.pts
  pub dts : b.dts ≡ dts_of (type2_header j)
  pub flags : b.flags ≡ get_flags (make_frame_type_byte type2 j.flags)

-- Where the Type2 payload stands: behind a full fragment until the Type3 payload has come.
abbrev pub type2_place : Job → (ℕ → Bool) → ℕ
type2_place j received =
    if j.cut.needs_type3 && not (received (num j))
    then j.type1_payload_size * j.of_fragment_no
    else type2_start j

-- The bucket of the frame `j` from `source`, with the memory and size of `a`: what has come is in
-- its place, and once the end of the frame is known, the size is that of the frame.
pub record Keeps (j : Job) (source : ℕ) (b : Bucket) (a : Assembly) : Type 0 where
  pub saved_frame_no : b.saved_frame_no ≡ j.super_frame_no
  pub stream_id : b.stream_id ≡ j.stream_id
  pub source_id : b.source_id ≡ source
  pub of_fragment_no : b.of_fragment_no ≡ j.of_fragment_no
  pub fragment_size : b.fragment_size ≡ j.type1_payload_size
  pub type3_size :
      b.type3_size ≡ (if j.cut.needs_type3 && b.received (num j) then j.cut.type3_data_size else 0)
  pub type2_size : b.type2_size ≡ (if b.received j.of_fragment_no then j.cut.type2_data_size else 0)
  pub alone : j.of_fragment_no ≡ 0 → b.received j.of_fragment_no ≡ true
  pub type1s :
      (k : ℕ)
      → k < num j
      → b.received k ≡ true
      → Agrees a.memory
          (j.type1_payload_size * k)
          j.content
          (j.type1_payload_size * k)
          j.type1_payload_size
  pub type3s :
      j.cut.needs_type3 ≡ true
      → b.received (num j) ≡ true
      → Agrees a.memory (type3_start j) j.content (type3_start j) j.cut.type3_data_size
  pub type2s :
      b.received j.of_fragment_no ≡ true
      → Agrees a.memory (type2_place j b.received) j.content (type2_start j) j.cut.type2_data_size
  pub whole :
      b.received j.of_fragment_no ≡ true
      → (j.cut.needs_type3 ≡ true → b.received (num j) ≡ true)
      → a.size ≡ length j.content
  pub described : b.received j.of_fragment_no ≡ true → IsDescribed j b

-- The bucket that the frame's number names.
abbrev pub bucket_of : Job → Receiver → Bucket
bucket_of j r = r.buckets (bit_and j.super_frame_no r.buffer_size)

-- The map of the buckets has an entry for a bucket.
abbrev pub Lists : ℕ → List (ℤ × ℕ) → Type 0
Lists i [] = ⊥
Lists i ((k, n) ∷ m) = (n ≡ i) ⊎ Lists i m

pub Lists-map_insert : (k : ℤ) (i : ℕ) (m : List (ℤ × ℕ)) → Lists i (map_insert k i m)
unfolding map_insert
Lists-map_insert k i [] = inl refl
Lists-map_insert k i ((o, n) ∷ m) = elim (Bool-cases (ltb_ℤ k o)) [
  | inl e ↦ rw (e, map_insert) (inl refl)
  | inr e ↦ elim (Bool-cases (eqb_ℤ k o)) [
    | inl f ↦ rw (e, f, map_insert) (inl refl)
    | inr f ↦ rw (e, f, map_insert) (inr (Lists-map_insert k i m))
  ]
]

-- A receiver with threads in which the frame is being assembled.
pub record Holding (j : Job) (source : ℕ) (r : Receiver) : Type 0 where
  pub mode : r.mode ≡ threaded
  pub active : (bucket_of j r).active ≡ true
  pub listed : Lists (bit_and j.super_frame_no r.buffer_size) r.bucket_map
  pub keeps : (a : Assembly) × ((bucket_of j r).frame ≡ some a) × Keeps j source (bucket_of j r) a

-- A step of the receiver that took in fragment `k` and lost none.
pub record Took (j : Job) (source k : ℕ) (r t : Receiver) : Type 0 where
  pub holding : Holding j source t
  pub taken : (bucket_of j t).received k ≡ true
  pub kept : (m : ℕ) → (bucket_of j r).received m ≡ true → (bucket_of j t).received m ≡ true

-- A receiver that holds a frame has room for it as every valid one.
pub Holding-Holds :
    (j : Job) (source : ℕ) (r : Receiver)
    → IsValid r
    → Holding j source r
    → (a : Assembly) × ((bucket_of j r).frame ≡ some a)
      × Keeps j source (bucket_of j r) a
      × Holds (bucket_of j r) a
Holding-Holds j source r v h =
    let (a, has, keeps) = h.keeps in
    let (a', has', held) = v.buckets (bit_and j.super_frame_no r.buffer_size) h.active in
    (a, has, keeps, subst (Holds (bucket_of j r)) (some-injective _ _ (sym has' ∙ has)) held)

-- The bucket is rewritten.
pub set_bucket-Holding :
    (j : Job) (source : ℕ) (r : Receiver) (b : Bucket) (a : Assembly)
    → r.mode ≡ threaded
    → b.active ≡ true
    → Lists (bit_and j.super_frame_no r.buffer_size) r.bucket_map
    → b.frame ≡ some a
    → Keeps j source b a
    → Holding j source (set_bucket r (bit_and j.super_frame_no r.buffer_size) b)
set_bucket-Holding j source r b a mode active listed has keeps =
    let here = ==_refl (bit_and j.super_frame_no r.buffer_size) in
    record {
      mode = mode;
      active = rw here active;
      listed = listed;
      keeps = (a, rw here has, rw here keeps);
    }

-- The arrival of a packet is noted beside the buckets.
pub arrive-same :
    (r : Receiver)
    → ((arrive r).1.buckets ≡ r.buckets)
      × ((arrive r).1.mode ≡ r.mode)
      × ((arrive r).1.buffer_size ≡ r.buffer_size)
      × ((arrive r).1.allocations ≡ r.allocations)
unfolding arrive update_jitter
arrive-same r = ground arith
