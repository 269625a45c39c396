-- ===== src/Bandwidth/State.antt =====
-- The state of the class `BandwidthManager`.
use new_efp.Common.{ℕ, zero, suc, ◌+◌, Bool, List, [], ◌∷◌, ◌++◌, ◌==◌, update}
use new_efp.Common.Int.{ℤ}
use new_efp.Sender.State.{Sender}
use new_efp.Bandwidth.Float.{Float}

pub data NetworkHealth : Type 0 where
  healthy degraded congested severe : NetworkHealth

-- The enum's number.
abbrev pub rank : NetworkHealth → ℕ
rank healthy = 0
rank degraded = 1
rank congested = 2
rank severe = 3

abbrev pub is_severe : NetworkHealth → Bool
is_severe health = rank health == 3

pub record StreamConfig (float : Float) : Type 0 where
  pub min_multiplier : float.F
  pub max_multiplier : float.F
  pub drop_on_severe : Bool
  pub priority : ℕ

pub record Config (float : Float) : Type 0 where
  pub nack_rate_degraded : float.F
  pub nack_rate_congested : float.F
  pub nack_rate_severe : float.F
  pub jitter_degraded_us : ℤ
  pub jitter_congested_us : ℤ
  pub probe_interval_ms : ℕ
  pub recovery_window_ms : ℕ
  pub max_probe_failures : ℕ
  pub update_interval_ms : ℕ
  pub additive_increase : float.F
  pub multiplicative_decrease : float.F

-- A call of the bandwidth callback or of the drop callback.
pub data Notice (float : Float) : Type 0 where
  bandwidth_changed : ℕ → float.F → Notice float
  stream_dropped : ℕ → Bool → Notice float

-- The fields of one of the 256 streams. A manual multiplier of -1 is none.
pub record StreamState (float : Float) : Type 0 where
  pub config : StreamConfig float
  pub multiplier : float.F
  pub dropped : Bool
  pub manual : float.F

-- `clock` is what the coming reads of the manager's clock give, in microseconds, and `notices` what
-- the two callbacks were called with, oldest first.
pub record Manager (float : Float) : Type 0 where
  pub sender : Sender
  pub config : Config float
  pub streams : ℕ → StreamState float
  pub current_health : NetworkHealth
  pub smoothed_nack_rate : float.F
  pub smoothed_jitter_us : ℤ
  pub smoothed_rtt_us : ℤ
  pub last_update_us : ℤ
  pub recovery_start_us : ℤ
  pub recent_nack_count : ℕ
  pub probe_sequence_no : ℕ
  pub probes_sent : ℕ
  pub probes_received : ℕ
  pub probe_failures : ℕ
  pub baseline_rtt_us : ℤ
  pub stable_rtt_samples : ℕ
  pub bandwidth_reductions : ℕ
  pub bandwidth_increases : ℕ
  pub streams_dropped : ℕ
  pub clock : ℕ → ℕ
  pub notices : List (Notice float)

module _ {float : Float} where
  abbrev pub set_stream : ℕ → StreamState float → Manager float → Manager float
  set_stream i s m = record m { streams = update m.streams i s }

  abbrev pub notify : Notice float → Manager float → Manager float
  notify n m = record m { notices = m.notices ++ (n ∷ []) }

  -- A step for each of `count` streams from one on.
  unfoldable pub each_stream :
      ℕ → ℕ → (ℕ → Manager float → Manager float) → Manager float → Manager float
  each_stream zero i step m = m
  each_stream (suc count) i step m = each_stream count (i + 1) step (step i m)
