-- ===== src/Sender/Cut.antt =====
-- A frame that `send` has cut up, as the job of the functions that send its fragments.
use new_efp.Common.{
  ℕ, ◌+◌, ◌-◌, ◌*◌, ◌%◌, ◌^◌, ◌≤◌, ◌<◌, ◌≡◌, refl, Bool, true, false, arith, length,
}
use new_efp.Wire.{max_fragments_per_superframe}
use new_efp.Sender.State.{Sender}
use new_efp.Sender.Plan.{Plan}
use new_efp.Sender.PlanBounds.{Fits, type3_count}
use new_efp.Sender.Fragments.{Job, type2_only_plan}
use new_efp.Sender.Api.{Frame, job, dts_pts_difference}

-- The pieces make up the frame, the last one is not empty and no longer than a Type1 payload, the
-- fragments are few, and their places, of full size, are little more than the frame.
pub record IsCut (mtu : ℕ) (j : Job) : Type 0 where
  pub covers :
      j.cut.num_type1_fragments * j.type1_payload_size
        + j.cut.type3_data_size
        + j.cut.type2_data_size
      ≡ length j.content
  pub counted : j.of_fragment_no ≡ j.cut.num_type1_fragments + type3_count j.cut.needs_type3
  pub type2_filled : 0 < j.cut.type2_data_size
  pub type2_short : 0 < j.of_fragment_no → j.cut.type2_data_size ≤ j.type1_payload_size
  pub type3_short : j.cut.type3_data_size ≤ j.type1_payload_size
  pub type3_filled : j.cut.needs_type3 ≡ true → 0 < j.cut.type3_data_size
  pub type3_absent : j.cut.needs_type3 ≡ false → j.cut.type3_data_size ≡ 0
  pub positive : 0 < j.of_fragment_no → 0 < j.type1_payload_size
  pub few : j.of_fragment_no < max_fragments_per_superframe
  pub padded : j.type1_payload_size * (j.of_fragment_no + 1) ≤ length j.content + 2 * mtu
  pub type1_narrow : j.type1_payload_size ≤ mtu
  pub type2_narrow : j.cut.type2_data_size ≤ mtu

-- The job is that of a frame under the number `n`.
pub record IsJobOf (f : Frame) (n : ℕ) (j : Job) : Type 0 where
  pub content : j.content ≡ f.content
  pub payload_type : j.payload_type ≡ f.payload_type
  pub pts : j.pts ≡ f.pts
  pub dts_pts_diff : j.dts_pts_diff ≡ dts_pts_difference f.pts f.dts
  pub payload_code : j.payload_code ≡ f.payload_code
  pub stream_id : j.stream_id ≡ f.stream_id
  pub flags : j.flags ≡ f.flags
  pub super_frame_no : j.super_frame_no ≡ n

pub job-IsJobOf :
    (s : Sender) (f : Frame) (t1 : ℕ) (p : Plan) → IsJobOf f s.super_frame_no (job s f t1 p)
job-IsJobOf s f t1 p = record {
  content = refl;
  payload_type = refl;
  pts = refl;
  dts_pts_diff = refl;
  payload_code = refl;
  stream_id = refl;
  flags = refl;
  super_frame_no = refl;
}

padded_le : (t1 n : ℕ) (needs : Bool) → t1 * (n + type3_count needs + 1) ≤ n * t1 + 2 * t1
padded_le t1 n true = grind arith
padded_le t1 n false = grind arith

pub fragmented-IsCut :
    (s : Sender) (f : Frame) (p : Plan)
    → 27 < s.mtu
    → Fits s.mtu (length f.content) (s.mtu - 8) p
    → p.total_fragments ≤ max_fragments_per_superframe
    → IsCut s.mtu (job s f (s.mtu - 8) p)
fragmented-IsCut s f p large fits few =
    let of : (p.total_fragments - 1) % 2 ^ 16 ≡ p.num_type1_fragments + type3_count p.needs_type3 =
      omega (arith, fits.counted) in
    record {
      covers = fits.covers;
      counted = of;
      type2_filled = fits.type2_filled;
      type2_short = λ _. omega (arith, fits.type2_fits);
      type3_short = fits.type3_fits;
      type3_filled = fits.type3_filled;
      type3_absent = fits.type3_absent;
      positive = λ _. omega (arith, large);
      few = omega (arith, of, fits.counted);
      padded =
          rw of
            (omega (arith, padded_le (s.mtu - 8) p.num_type1_fragments p.needs_type3, fits.covers));
      type1_narrow = omega arith;
      type2_narrow = omega (arith, fits.type2_fits);
    }

pub type2_only-IsCut :
    (s : Sender) (f : Frame)
    → 0 < length f.content
    → length f.content ≤ s.mtu
    → IsCut s.mtu (job s f 0 (type2_only_plan (length f.content)))
unfolding type2_only_plan
type2_only-IsCut s f filled short = record {
  covers = omega arith;
  counted = refl;
  type2_filled = filled;
  type2_short = λ h. absurd (omega arith);
  type3_short = omega arith;
  type3_filled = λ e. cc e;
  type3_absent = λ _. refl;
  positive = λ h. absurd (omega arith);
  few = omega arith;
  padded = omega arith;
  type1_narrow = omega arith;
  type2_narrow = short;
}
