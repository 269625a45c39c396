-- ===== src/Sender/PlanBounds.antt =====
-- The plan of a frame: its fragments make up the frame, each fits its packet, and none is empty.
use native.Mathlib.Nat.{div-add-mod', mod-lt}
use new_efp.Common.{
  ℕ, suc, zero, ◌+◌, ◌-◌, ◌*◌, ◌/◌, ◌%◌, ◌≤◌, ◌<◌, ◌≡◌, ◌≢◌, refl, ap, Bool, true, false, arith,
}
use new_efp.Sender.State.{SubFragmentMode, single, half, quarter, eighth, bundle_size}
use new_efp.Sender.Plan.{type1_frame_size, Plan, plan}

abbrev pub type3_count : Bool → ℕ
type3_count true = 1
type3_count false = 0

pub record Fits (mtu size t1 : ℕ) (p : Plan) : Type 0 where
  pub covers : p.num_type1_fragments * t1 + p.type3_data_size + p.type2_data_size ≡ size
  pub counted : p.total_fragments ≡ p.num_type1_fragments + type3_count p.needs_type3 + 1
  pub type2_fits : p.type2_data_size + 27 ≤ mtu
  pub type2_filled : 0 < p.type2_data_size
  pub type3_fits : p.type3_data_size ≤ t1
  pub type3_filled : p.needs_type3 ≡ true → 0 < p.type3_data_size
  pub type3_absent : p.needs_type3 ≡ false → p.type3_data_size ≡ 0

-- Where the Type1 payloads fill the frame, the last of them can be set aside.
last_chunk_of : (q t1 size : ℕ) → q * t1 ≡ size → 0 < size → (0 < q) × ((q - 1) * t1 + t1 ≡ size)
last_chunk_of zero t1 size e h = absurd (omega arith)
last_chunk_of (suc q) t1 size e h =
    let pred_suc : suc q - 1 ≡ q = omega arith in omega (arith, ap (λ (x : ℕ). x * t1) pred_suc)

last_chunk :
    (size t1 : ℕ) → 0 < size → size % t1 ≡ 0 → (0 < size / t1) × ((size / t1 - 1) * t1 + t1 ≡ size)
last_chunk size t1 h e = last_chunk_of (size / t1) t1 size (omega (arith, div-add-mod' size t1)) h

-- For a nonempty frame, a nonempty Type1 payload and an MTU of at least 28, the sizes of the
-- fragments of the plan add up to the size of the frame, their number is the one announced, the
-- Type2 payload is not empty and fits its packet, and a Type3 payload is there just where the plan
-- has one, and is then not empty and no longer than a Type1 payload.
pub plan-Fits :
    (mtu size t1 : ℕ) → 0 < size → 0 < t1 → 27 < mtu → Fits mtu size t1 (plan mtu size t1)
unfolding plan
plan-Fits mtu size t1 hs ht hm =
    ground (arith, div-add-mod' size t1, mod-lt size ht, last_chunk size t1 hs)

-- With an MTU of at least 256, the Type1 packet size of each mode leaves room for a payload and is
-- at most the MTU, and in a bundling mode a full bundle of such packets with its header fits it.
pub type1_frame_bounds :
    (mtu : ℕ) (m : SubFragmentMode)
    → 256 ≤ mtu
    → (8 < type1_frame_size mtu m)
      × (type1_frame_size mtu m ≤ mtu)
      × (m ≢ single → bundle_size m * type1_frame_size mtu m + 2 ≤ mtu)
unfolding type1_frame_size
type1_frame_bounds mtu single h = (omega arith, omega arith, λ n. absurd (n refl))
type1_frame_bounds mtu half h = (omega arith, omega arith, λ n. omega arith)
type1_frame_bounds mtu quarter h = (omega arith, omega arith, λ n. omega arith)
type1_frame_bounds mtu eighth h = (omega arith, omega arith, λ n. omega arith)

-- A bundled Type1 payload fits a Type2 packet.
bundled_payload :
    (mtu : ℕ) (m : SubFragmentMode) → 256 ≤ mtu → m ≢ single → type1_frame_size mtu m + 19 ≤ mtu
unfolding type1_frame_size
bundled_payload mtu single h n = absurd (n refl)
bundled_payload mtu half h n = omega arith
bundled_payload mtu quarter h n = omega arith
bundled_payload mtu eighth h n = omega arith

no_type3_of_small :
    (mtu size t1 : ℕ) → 0 < t1 → t1 + 27 ≤ mtu → (plan mtu size t1).needs_type3 ≡ false
unfolding plan
no_type3_of_small mtu size t1 h b = ground (arith, mod-lt size h)

-- In a bundling mode, with an MTU of at least 256, no frame needs a Type3 fragment: a Type2 packet
-- takes whatever is left.
pub bundled_no_type3 :
    (mtu size : ℕ) (m : SubFragmentMode)
    → 256 ≤ mtu
    → m ≢ single
    → (plan mtu size (type1_frame_size mtu m - 8)).needs_type3 ≡ false
bundled_no_type3 mtu size m h n =
    no_type3_of_small mtu size (type1_frame_size mtu m - 8)
      (omega (arith, (type1_frame_bounds mtu m h).0)) (omega (arith, bundled_payload mtu m h n))
