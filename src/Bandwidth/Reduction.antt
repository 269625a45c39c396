-- ===== src/Bandwidth/Reduction.antt =====
-- What worse health makes of the streams, and when health comes back.
use new_efp.Common.{
  ℕ, ◌<◌, ◌≡◌, refl, ap, ◌∙◌, subst, true, false, some, ltb, ◌&&◌, not, arith, Bool-cases, inl, inr,
  ==_refl, inc64,
}
use new_efp.Wire.{ok}
use new_efp.Sender.Api.{Frame}
use new_efp.Bandwidth.Float.{Float, FloatLaws}
use new_efp.Bandwidth.State.{NetworkHealth, severe, rank, is_severe, StreamState, Manager}
use new_efp.Bandwidth.Streams.{
  get_target_multiplier, set_multiplier, set_dropped, decrease_multiplier, drop_stream,
  worsen_stream,
}
use new_efp.Bandwidth.Health.{restart_recovery, handle_health_change}
use new_efp.Bandwidth.Api.{managed_send}
use new_efp.Bandwidth.Drops.{
  loop_brings, SameButMultiplier, decrease_multiplier-Same, decrease_multiplier-Touches,
  worsen_stream-Touches,
}

module _ {float : Float} where
  decrease_multiplier-at :
      (i : ℕ) (m : Manager float)
      → FloatLaws float
      → float.lt
          (get_target_multiplier (m.streams i).config m.current_health)
          ((decrease_multiplier i m).streams i).multiplier
        ≡ false
  unfolding decrease_multiplier set_multiplier
  decrease_multiplier-at i m laws =
      elim (Bool-cases (
        float.lt (get_target_multiplier (m.streams i).config m.current_health)
          (m.streams i).multiplier)) [
            | inl e ↦ rw e (rw (==_refl i) (laws.lt_irrefl _))
            | inr e ↦ rw e e
          ]

  -- Only the mark of a drop is set, and it is where the stream is configured so.
  record DropsAt (h : NetworkHealth) (s t : StreamState float) : Type 0 where
    config : t.config ≡ s.config
    multiplier : t.multiplier ≡ s.multiplier
    manual : t.manual ≡ s.manual
    dropped : is_severe h ≡ true → s.config.drop_on_severe ≡ true → t.dropped ≡ true

  drop_stream-DropsAt :
      (i : ℕ) (m : Manager float)
      → DropsAt m.current_health (m.streams i) ((drop_stream i m).streams i)
  unfolding drop_stream set_dropped
  drop_stream-DropsAt i m =
      elim (Bool-cases (
        (is_severe m.current_health && (m.streams i).config.drop_on_severe)
        && not (m.streams i).dropped)) [
          | inl e ↦ rw e (
              rw (==_refl i)
                (record { config = refl; multiplier = refl; manual = refl; dropped = λ x y. refl }))
          | inr e ↦ rw e (record {
            config = refl;
            multiplier = refl;
            manual = refl;
            dropped = λ x y. ground (arith, e, x, y);
          })
        ]

  -- What worse health `h` makes of a stream `s` that is not set by hand.
  pub record IsReduced (h : NetworkHealth) (s t : StreamState float) : Type 0 where
    pub config : t.config ≡ s.config
    pub not_above :
        float.lt s.manual float.f_0 ≡ true
        → float.lt (get_target_multiplier s.config h) t.multiplier ≡ false
    pub dropped :
        float.lt s.manual float.f_0 ≡ true
        → is_severe h ≡ true
        → s.config.drop_on_severe ≡ true
        → t.dropped ≡ true

  worsen_stream-IsReduced :
      (i : ℕ) (m : Manager float)
      → FloatLaws float
      → IsReduced m.current_health (m.streams i) ((worsen_stream i m).streams i)
  unfolding worsen_stream
  worsen_stream-IsReduced i m laws = elim (Bool-cases (float.lt (m.streams i).manual float.f_0)) [
    | inl e ↦ rw e (record {
      config = d.config ∙ same.0;
      not_above = λ x.
          ap (float.lt (get_target_multiplier (m.streams i).config m.current_health)) d.multiplier
          ∙ decrease_multiplier-at i m laws;
      dropped = λ x y z.
          d.dropped (ap is_severe (decrease_multiplier-Touches i m).health ∙ y)
            (ap (λ c. c.drop_on_severe) same.0 ∙ z);
    })
    | inr e ↦ rw e (record { config = refl; not_above = λ x. cc; dropped = λ x y z. cc })
  ]
    where
      same : SameButMultiplier (m.streams i) ((decrease_multiplier i m).streams i)
      same = decrease_multiplier-Same i m

      d :
          DropsAt
            (decrease_multiplier i m).current_health
            ((decrease_multiplier i m).streams i)
            ((drop_stream i (decrease_multiplier i m)).streams i)
      d = drop_stream-DropsAt i (decrease_multiplier i m)

  -- Where the health gets worse, each of the 256 streams that is not set by hand is left with a
  -- multiplier not above the target for that health, and if the health is severe and the stream is
  -- configured to be dropped then, it is dropped.
  pub handle_health_change-IsReduced :
      (new : NetworkHealth) (m : Manager float)
      → FloatLaws float
      → rank m.current_health < rank new
      → ((handle_health_change new m).current_health ≡ new)
        × ((j : ℕ) → j < 256 → IsReduced new (m.streams j) ((handle_health_change new m).streams j))
  unfolding handle_health_change restart_recovery
  handle_health_change-IsReduced new m laws worse =
      let worsened =
        loop_brings (λ j s. s ≡ m.streams j) (λ j t. IsReduced new (m.streams j) t) worsen_stream
          new worsen_stream-Touches
          (λ i t h e.
            subst (λ s. IsReduced new s ((worsen_stream i t).streams i)) e
              (subst (λ n. IsReduced n (t.streams i) ((worsen_stream i t).streams i)) h
                (worsen_stream-IsReduced i t laws)))
          256 0
          (record m { current_health = new; bandwidth_reductions = inc64 m.bandwidth_reductions })
          refl (λ k n. absurd (omega arith)) (λ k n. refl) in
      let is_worse : ltb (rank m.current_health) (rank new) ≡ true = ground arith in
      rw is_worse (worsened.0, λ j l. worsened.1 j (omega arith))

  -- Where the network gets severely congested, a frame of a stream that is configured to be dropped
  -- then, and not set by hand, is not sent: the call returns OK and changes nothing.
  pub managed_send-dropped :
      (f : Frame) (m : Manager float)
      → FloatLaws float
      → is_severe m.current_health ≡ false
      → f.stream_id < 256
      → (m.streams f.stream_id).config.drop_on_severe ≡ true
      → float.lt (m.streams f.stream_id).manual float.f_0 ≡ true
      → managed_send f (handle_health_change severe m) ≡ some (ok, handle_health_change severe m)
  unfolding managed_send
  managed_send-dropped f m laws mild id configured by_rule =
      let (health, reduced) = handle_health_change-IsReduced severe m laws (ground (arith, mild)) in
      rw ((reduced f.stream_id id).dropped by_rule refl configured) refl
