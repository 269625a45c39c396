-- ===== src/Bandwidth/Health.antt =====
-- The health of the network: how it is judged, and what a change of it and a recovery do. `none` is
-- a division by zero.
use new_efp.Common.{ℕ, suc, ◌*◌, ◌/◌, Option, none, some, ltb, leb, ◌==◌, if◌then◌else◌, inc64}
use new_efp.Common.Int.{pos, ◌-ℤ◌, ltb_ℤ, leb_ℤ}
use new_efp.Bandwidth.Float.{Float}
use new_efp.Bandwidth.State.{
  NetworkHealth, healthy, degraded, congested, severe, rank, Manager, each_stream,
}
use new_efp.Bandwidth.Streams.{worsen_stream, improve_stream}

abbrev pub better : NetworkHealth → NetworkHealth
better healthy = healthy
better degraded = healthy
better congested = degraded
better severe = congested

module _ {float : Float} where
  unfoldable pub evaluate_nack_health : Manager float → NetworkHealth
  evaluate_nack_health m =
      if float.le m.config.nack_rate_severe m.smoothed_nack_rate
      then severe
      else if float.le m.config.nack_rate_congested m.smoothed_nack_rate
      then congested
      else if float.le m.config.nack_rate_degraded m.smoothed_nack_rate
      then degraded
      else healthy

  unfoldable pub evaluate_delay_health : Manager float → NetworkHealth
  evaluate_delay_health m =
      if leb_ℤ m.config.jitter_congested_us m.smoothed_jitter_us
      then congested
      else if leb_ℤ m.config.jitter_degraded_us m.smoothed_jitter_us
      then degraded
      else healthy

  -- The worse of the two.
  unfoldable pub evaluate_health : Manager float → NetworkHealth
  evaluate_health m =
      if ltb (rank (evaluate_delay_health m)) (rank (evaluate_nack_health m))
      then evaluate_nack_health m
      else evaluate_delay_health m

  -- The clock is read.
  abbrev pub tick : Manager float → Manager float
  tick m = record m { clock = λ n. m.clock (suc n) }

  -- `mStableRttSamples = 0; mRecoveryStartUs = nowUs();`
  unfoldable pub restart_recovery : Manager float → Manager float
  restart_recovery m =
      tick (record m { stable_rtt_samples = 0; recovery_start_us = pos (m.clock 0) })

  abbrev pub all_streams : (ℕ → Manager float → Manager float) → Manager float → Manager float
  all_streams step m = each_stream 256 0 step m

  -- The streams follow a health that was just set, from an older one on.
  abbrev pub follow_health : NetworkHealth → Manager float → Manager float
  follow_health old m =
      if ltb (rank old) (rank m.current_health)
      then all_streams worsen_stream
          (record m { bandwidth_reductions = inc64 m.bandwidth_reductions })
      else if ltb (rank m.current_health) (rank old)
      then all_streams improve_stream
          (record m { bandwidth_increases = inc64 m.bandwidth_increases })
      else m

  unfoldable pub handle_health_change : NetworkHealth → Manager float → Manager float
  handle_health_change new m =
      restart_recovery (follow_health m.current_health (record m { current_health = new }))

  -- `tryBandwidthIncrease`: a step towards health, and then the streams.
  abbrev pub increase_from : NetworkHealth → Manager float → Manager float
  increase_from healthy m = m
  increase_from old m = restart_recovery (
      all_streams improve_stream (record m {
        current_health = better old;
        bandwidth_increases = inc64 m.bandwidth_increases;
      }))

  unfoldable pub try_bandwidth_increase : Manager float → Manager float
  try_bandwidth_increase m = increase_from m.current_health m

  unfoldable pub process_probing : ℕ → Manager float → Option (Manager float)
  process_probing now m =
      if ltb_ℤ (pos now -ℤ m.recovery_start_us) (pos (m.config.recovery_window_ms * 1000))
      then some m
      else if m.config.probe_interval_ms == 0
      then none
      else if leb (m.config.recovery_window_ms / m.config.probe_interval_ms) m.stable_rtt_samples
      then some (try_bandwidth_increase m)
      else some m

  -- The rate of NACKs since the last update goes into the average.
  unfoldable pub measure_nacks : ℕ → Manager float → Manager float
  measure_nacks now m =
      let elapsed_ms = float.div (float.of_int (pos now -ℤ m.last_update_us)) float.f_1000 in
      let rate =
        float.div (float.of_int (pos m.recent_nack_count)) (float.div elapsed_ms float.f_1000) in
      record m {
        last_update_us = pos now;
        recent_nack_count = 0;
        smoothed_nack_rate =
            float.add (float.mul m.smoothed_nack_rate float.f_07) (float.mul rate float.f_03);
      }

  abbrev pub change_health : NetworkHealth → Manager float → Manager float
  change_health new m = if rank new == rank m.current_health then m else handle_health_change new m

  abbrev pub probe_if_ill : NetworkHealth → ℕ → Manager float → Option (Manager float)
  probe_if_ill healthy now m = some m
  probe_if_ill ill now m = process_probing now m

  unfoldable pub judge : ℕ → Manager float → Option (Manager float)
  judge now m =
      let m' = change_health (evaluate_health m) m in probe_if_ill m'.current_health now m'

  unfoldable pub update_health : Manager float → Option (Manager float)
  update_health m =
      let now = m.clock 0 in
      if ltb_ℤ (pos now -ℤ m.last_update_us) (pos (m.config.update_interval_ms * 1000))
      then some (tick m)
      else judge now (measure_nacks now (tick m))
