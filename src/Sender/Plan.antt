-- ===== src/Sender/Plan.antt =====
-- How `Sender::send` and `Sender::sendFragmented` divide a frame: the sizes of the fragments.
use new_efp.Common.{ℕ, ◌+◌, ◌-◌, ◌/◌, ◌%◌, ◌^◌, Bool, true, false, ltb, leb, ◌==◌, if◌then◌else◌}
use new_efp.Sender.State.{SubFragmentMode, single, half, quarter, eighth}
use new_efp.Wire.Headers.{sizeof_type2, sizeof_type4}

-- The size of a Type1 packet: an MTU, or its share of a bundle.
unfoldable pub type1_frame_size : ℕ → SubFragmentMode → ℕ
type1_frame_size mtu single = mtu
type1_frame_size mtu half = (mtu - sizeof_type4) / 2
type1_frame_size mtu quarter = (mtu - sizeof_type4) / 4
type1_frame_size mtu eighth = (mtu - sizeof_type4) / 8

pub record Plan : Type 0 where
  pub total_fragments : ℕ
  pub num_type1_fragments : ℕ
  pub needs_type3 : Bool
  pub type3_data_size : ℕ
  pub type2_data_size : ℕ

-- The remainder is larger than a Type2 payload: Type3 takes the overflow. The first value of
-- `lType2DataSize` wraps around in `size_t`.
plan_overflow : ℕ → ℕ → ℕ → ℕ → Plan
plan_overflow type2_max remaining num t1 =
    if leb remaining (t1 + type2_max)
    then (let wanted = remaining - type2_max in
        let type3 = if ltb t1 wanted then t1 else wanted in
        record {
          total_fragments = num + 2;
          num_type1_fragments = num;
          needs_type3 = true;
          type3_data_size = type3;
          type2_data_size = remaining - type3;
        })
    else record {
      total_fragments = num + 2;
      num_type1_fragments = num;
      needs_type3 = true;
      type3_data_size = t1;
      type2_data_size = (remaining + 2 ^ 64 - t1 + type2_max) % 2 ^ 64;
    }

unfoldable pub plan : ℕ → ℕ → ℕ → Plan
unfolding plan_overflow
plan mtu size t1 =
    let remaining = size % t1 in
    let num = size / t1 in
    let type2_max = mtu - sizeof_type2 in
    if remaining == 0
    then (if leb t1 type2_max
        then record {
          total_fragments = num;
          num_type1_fragments = num - 1;
          needs_type3 = false;
          type3_data_size = 0;
          type2_data_size = t1;
        }
        else record {
          total_fragments = num + 1;
          num_type1_fragments = num - 1;
          needs_type3 = true;
          type3_data_size = t1 - type2_max;
          type2_data_size = type2_max;
        })
    else if leb remaining type2_max
    then record {
      total_fragments = num + 1;
      num_type1_fragments = num;
      needs_type3 = false;
      type3_data_size = 0;
      type2_data_size = remaining;
    }
    else plan_overflow type2_max remaining num t1
