-- ===== src/Bandwidth/Queries.antt =====
-- The operations of `BandwidthManager` that only look at its state.
use new_efp.Common.{ℕ, Bool}
use new_efp.Common.Int.{ℤ}
use new_efp.Statistics.{SenderReport, sender_statistics}
use new_efp.Bandwidth.Float.{Float}
use new_efp.Bandwidth.State.{Manager, StreamConfig, NetworkHealth}

pub record ManagerStatistics (float : Float) : Type 0 where
  pub current_health : NetworkHealth
  pub smoothed_nack_rate : float.F
  pub smoothed_jitter_us : ℤ
  pub smoothed_rtt_us : ℤ
  pub probes_sent : ℕ
  pub probes_received : ℕ
  pub bandwidth_reductions : ℕ
  pub bandwidth_increases : ℕ
  pub streams_dropped : ℕ

module _ {float : Float} where
  unfoldable pub get_stream_config : ℕ → Manager float → StreamConfig float
  get_stream_config stream_id m = (m.streams stream_id).config

  unfoldable pub get_current_multiplier : ℕ → Manager float → float.F
  get_current_multiplier stream_id m = (m.streams stream_id).multiplier

  unfoldable pub is_stream_dropped : ℕ → Manager float → Bool
  is_stream_dropped stream_id m = (m.streams stream_id).dropped

  unfoldable pub get_network_health : Manager float → NetworkHealth
  get_network_health m = m.current_health

  unfoldable pub get_statistics : Manager float → ManagerStatistics float
  get_statistics m = record {
    current_health = m.current_health;
    smoothed_nack_rate = m.smoothed_nack_rate;
    smoothed_jitter_us = m.smoothed_jitter_us;
    smoothed_rtt_us = m.smoothed_rtt_us;
    probes_sent = m.probes_sent;
    probes_received = m.probes_received;
    bandwidth_reductions = m.bandwidth_reductions;
    bandwidth_increases = m.bandwidth_increases;
    streams_dropped = m.streams_dropped;
  }

  unfoldable pub get_sender_statistics : Manager float → SenderReport
  get_sender_statistics m = sender_statistics m.sender
