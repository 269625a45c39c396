-- ===== src/Bandwidth/Streams.antt =====
-- The multipliers of the streams: what the health of the network and the configuration of a stream
-- make of them.
use new_efp.Common.{ℕ, Bool, true, false, not, ◌&&◌, if◌then◌else◌, inc64}
use new_efp.Bandwidth.Float.{Float, clamp, min_F}
use new_efp.Bandwidth.State.{
  NetworkHealth, healthy, degraded, congested, severe, is_severe, StreamConfig, Config,
  bandwidth_changed, stream_dropped, StreamState, Manager, set_stream, notify,
}

module _ {float : Float} where
  abbrev pub health_target : StreamConfig float → NetworkHealth → float.F
  health_target c healthy = float.f_1
  health_target c degraded = float.f_07
  health_target c congested = float.f_05
  health_target c severe = c.min_multiplier

  unfoldable pub get_target_multiplier : StreamConfig float → NetworkHealth → float.F
  get_target_multiplier c health =
      clamp float (health_target c health) c.min_multiplier c.max_multiplier

  -- `mCurrentMultipliers[i] = x; notifyBandwidthChange(i);`
  unfoldable pub set_multiplier : ℕ → float.F → Manager float → Manager float
  set_multiplier i x m =
      notify (bandwidth_changed i x) (set_stream i (record (m.streams i) { multiplier = x }) m)

  abbrev pub set_if_new : ℕ → float.F → Manager float → Manager float
  set_if_new i x m = if float.eq x (m.streams i).multiplier then m else set_multiplier i x m

  unfoldable pub update_stream_multiplier : ℕ → Manager float → Manager float
  update_stream_multiplier i m =
      let s = m.streams i in
      set_if_new i
        (if float.le float.f_0 s.manual
          then clamp float s.manual s.config.min_multiplier s.config.max_multiplier
          else get_target_multiplier s.config m.current_health)
        m

  -- A stream that may be dropped is dropped, or taken up again.
  unfoldable pub set_dropped : ℕ → Bool → Manager float → Manager float
  set_dropped i dropped m =
      notify (stream_dropped i dropped)
        (set_stream i (record (m.streams i) { dropped = dropped }) m)

  -- One round of the loop on worsening health.
  unfoldable pub decrease_multiplier : ℕ → Manager float → Manager float
  decrease_multiplier i m =
      let target = get_target_multiplier (m.streams i).config m.current_health in
      if float.lt target (m.streams i).multiplier then set_multiplier i target m else m

  unfoldable pub drop_stream : ℕ → Manager float → Manager float
  drop_stream i m =
      let s = m.streams i in
      if (is_severe m.current_health && s.config.drop_on_severe) && not s.dropped
      then set_dropped i true (record m { streams_dropped = inc64 m.streams_dropped })
      else m

  unfoldable pub worsen_stream : ℕ → Manager float → Manager float
  worsen_stream i m =
      if float.lt (m.streams i).manual float.f_0 then drop_stream i (decrease_multiplier i m) else m

  -- One round of the loop on improving health.
  unfoldable pub increased : StreamState float → Config float → NetworkHealth → float.F
  increased s c health =
      clamp float
        (min_F float (float.add s.multiplier c.additive_increase)
          (get_target_multiplier s.config health))
        s.config.min_multiplier s.config.max_multiplier

  unfoldable pub increase_multiplier : ℕ → Manager float → Manager float
  increase_multiplier i m = set_if_new i (increased (m.streams i) m.config m.current_health) m

  unfoldable pub undrop_stream : ℕ → Manager float → Manager float
  undrop_stream i m =
      if (m.streams i).dropped && not (is_severe m.current_health) then set_dropped i false m else m

  unfoldable pub improve_stream : ℕ → Manager float → Manager float
  improve_stream i m =
      if float.lt (m.streams i).manual float.f_0
      then undrop_stream i (increase_multiplier i m)
      else m
