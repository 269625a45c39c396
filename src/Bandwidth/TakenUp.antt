-- ===== src/Bandwidth/TakenUp.antt =====
-- A stream is dropped only while the network is severely congested, but for the streams set by hand.
use new_efp.Common.{true, inc64}
use new_efp.Common.{
  ℕ, ◌*◌, ◌/◌, ◌<◌, ◌≡◌, refl, sym, ap, ◌∙◌, false, Option, some, ◌==◌, ltb, leb, arith, Bool-cases,
  inl, inr, ==_iff,
}
use new_efp.Common.Int.{pos, ◌-ℤ◌, ltb_ℤ}
use new_efp.Bandwidth.Float.{Float}
use new_efp.Bandwidth.State.{
  NetworkHealth, healthy, degraded, congested, severe, rank, is_severe, Manager, each_stream,
}
use new_efp.Bandwidth.Streams.{worsen_stream, improve_stream}
use new_efp.Bandwidth.Health.{
  tick, restart_recovery, follow_health, handle_health_change, increase_from,
  try_bandwidth_increase, process_probing, measure_nacks, change_health, probe_if_ill, judge,
  update_health, evaluate_health,
}
use new_efp.Bandwidth.Bounds.{each_stream-keeps}
use new_efp.Bandwidth.Drops.{
  Touches, loop_brings, IsTakenUp, AreTakenUp, improved_all, worsened_all, worsen_stream-Touches,
  improve_stream-Touches,
}

rank-injective : (a b : NetworkHealth) → rank a ≡ rank b → a ≡ b
rank-injective a b e = ground arith

module _ {float : Float} where
  loop_health :
      (step : ℕ → Manager float → Manager float) (m : Manager float)
      → ((i : ℕ) (t : Manager float) → Touches i t (step i t))
      → (each_stream 256 0 step m).current_health ≡ m.current_health
  loop_health step m touches =
      (loop_brings (λ i s. Unit {0}) (λ i s. Unit {0}) step m.current_health touches (λ i t e u. tt)
        256 0 m refl (λ k n. tt) (λ k n. tt)).0

  follow_health-health :
      (old : NetworkHealth) (m : Manager float)
      → (follow_health old m).current_health ≡ m.current_health
  follow_health-health old m = elim (Bool-cases (ltb (rank old) (rank m.current_health))) [
    | inl e ↦ rw e (loop_health worsen_stream _ worsen_stream-Touches)
    | inr e ↦ elim (Bool-cases (ltb (rank m.current_health) (rank old))) [
      | inl f ↦ rw (e, f) (loop_health improve_stream _ improve_stream-Touches)
      | inr f ↦ rw (e, f) refl
    ]
  ]

  follow_health-IsTakenUp :
      (old : NetworkHealth) (m : Manager float)
      → (is_severe old ≡ false → (j : ℕ) → j < 256 → IsTakenUp (m.streams j))
      → is_severe m.current_health ≡ false
      → (j : ℕ) → j < 256
      → IsTakenUp ((follow_health old m).streams j)
  follow_health-IsTakenUp old m v mild j l =
      elim (Bool-cases (ltb (rank old) (rank m.current_health))) [
        | inl e ↦ rw e (worsened_all _ mild (v (ground (arith, e, mild))) j l)
        | inr e ↦ elim (Bool-cases (ltb (rank m.current_health) (rank old))) [
          | inl f ↦ rw (e, f) (improved_all _ mild j l)
          | inr f ↦ rw (e, f) (v (ground (arith, e, f, mild)) j l)
        ]
      ]

  handle_health_change-AreTakenUp :
      (new : NetworkHealth) (m : Manager float)
      → AreTakenUp m
      → AreTakenUp (handle_health_change new m)
  unfolding handle_health_change restart_recovery
  handle_health_change-AreTakenUp new m v mild =
      follow_health-IsTakenUp m.current_health (record m { current_health = new }) v
        (sym (
            ap is_severe
              (follow_health-health m.current_health (record m { current_health = new })))
          ∙ mild)

  pub change_health-AreTakenUp :
      (new : NetworkHealth) (m : Manager float) → AreTakenUp m → AreTakenUp (change_health new m)
  change_health-AreTakenUp new m v = elim (Bool-cases (rank new == rank m.current_health)) [
    | inl e ↦ rw e v
    | inr e ↦ rw e (handle_health_change-AreTakenUp new m v)
  ]

  -- Where the network gets healthy, every stream is taken up, whatever it was.
  pub recovered_all :
      (m : Manager float)
      → 0 < rank m.current_health
      → (j : ℕ) → j < 256
      → IsTakenUp ((change_health healthy m).streams j)
  unfolding handle_health_change restart_recovery
  recovered_all m ill j l =
      let other : (rank healthy == rank m.current_health) ≡ false = ground arith in
      let not_worse : ltb (rank m.current_health) 0 ≡ false = ground arith in
      let better : ltb 0 (rank m.current_health) ≡ true = ground arith in
      rw (other, not_worse, better) (improved_all _ refl j l)

  pub change_health-health :
      (new : NetworkHealth) (m : Manager float) → (change_health new m).current_health ≡ new
  unfolding handle_health_change restart_recovery
  change_health-health new m = elim (Bool-cases (rank new == rank m.current_health)) [
    | inl e ↦ rw e (rank-injective m.current_health new (sym ((==_iff _ _).0 e)))
    | inr e ↦ rw e (follow_health-health m.current_health (record m { current_health = new }))
  ]

  increase_from-AreTakenUp :
      (old : NetworkHealth) (m : Manager float) → AreTakenUp m → AreTakenUp (increase_from old m)
  unfolding restart_recovery
  increase_from-AreTakenUp healthy m v mild = v mild
  increase_from-AreTakenUp degraded m v mild = improved_all _ refl
  increase_from-AreTakenUp congested m v mild = improved_all _ refl
  increase_from-AreTakenUp severe m v mild = improved_all _ refl

  loop_config :
      (step : ℕ → Manager float → Manager float) (m : Manager float)
      → ((i : ℕ) (t : Manager float) → Touches i t (step i t))
      → (each_stream 256 0 step m).config ≡ m.config
  loop_config step m touches =
      each_stream-keeps (λ t. t.config ≡ m.config) step (λ i t e. (touches i t).config ∙ e) 256 0 m
        refl

  change_health-config :
      (new : NetworkHealth) (m : Manager float) → (change_health new m).config ≡ m.config
  unfolding handle_health_change restart_recovery
  change_health-config new m = ground (
    arith,
    loop_config worsen_stream
        (record m { current_health = new; bandwidth_reductions = inc64 m.bandwidth_reductions })
        worsen_stream-Touches,
    loop_config improve_stream
        (record m { current_health = new; bandwidth_increases = inc64 m.bandwidth_increases })
        improve_stream-Touches,
  )

  -- A value, with every stream taken up.
  abbrev GivesTakenUp : Option (Manager float) → Type 0
  GivesTakenUp o = (t : Manager float) × (o ≡ some t) × AreTakenUp t

  process_probing-GivesTakenUp :
      (now : ℕ) (m : Manager float)
      → (m.config.probe_interval_ms == 0) ≡ false
      → AreTakenUp m
      → GivesTakenUp (process_probing now m)
  unfolding process_probing try_bandwidth_increase
  process_probing-GivesTakenUp now m some_interval v =
      elim (Bool-cases
        (ltb_ℤ (pos now -ℤ m.recovery_start_us) (pos (m.config.recovery_window_ms * 1000)))) [
          | inl e ↦ (m, rw e refl, v)
          | inr e ↦
              elim (Bool-cases (
                leb (m.config.recovery_window_ms / m.config.probe_interval_ms)
                  m.stable_rtt_samples)) [
                    | inl f ↦ (
                      increase_from m.current_health m,
                      rw (e, some_interval, f) refl,
                      increase_from-AreTakenUp m.current_health m v,
                    )
                    | inr f ↦ (m, rw (e, some_interval, f) refl, v)
                  ]
        ]

  probe_if_ill-GivesTakenUp :
      (state : NetworkHealth) (now : ℕ) (m : Manager float)
      → (m.config.probe_interval_ms == 0) ≡ false
      → AreTakenUp m
      → GivesTakenUp (probe_if_ill state now m)
  probe_if_ill-GivesTakenUp healthy now m p v = (m, refl, v)
  probe_if_ill-GivesTakenUp degraded now m p v = process_probing-GivesTakenUp now m p v
  probe_if_ill-GivesTakenUp congested now m p v = process_probing-GivesTakenUp now m p v
  probe_if_ill-GivesTakenUp severe now m p v = process_probing-GivesTakenUp now m p v

  -- Where the probe interval is not 0, `update` comes to its end, and it keeps this invariant, in
  -- whatever way the health changes: while the network is not severely congested, each of the 256
  -- streams is not dropped or is set by hand.
  pub update_health-AreTakenUp :
      (m : Manager float)
      → (m.config.probe_interval_ms == 0) ≡ false
      → AreTakenUp m
      → (t : Manager float) × (update_health m ≡ some t) × AreTakenUp t
  unfolding update_health judge measure_nacks
  update_health-AreTakenUp m some_interval v =
      let now = m.clock 0 in
      let measured = measure_nacks now (tick m) in
      let new = evaluate_health measured in
      let changed = change_health new measured in
      elim (Bool-cases
        (ltb_ℤ (pos now -ℤ m.last_update_us) (pos (m.config.update_interval_ms * 1000)))) [
          | inl e ↦ (tick m, rw e refl, v)
          | inr e ↦
              let probed =
                probe_if_ill-GivesTakenUp changed.current_health now changed
                  (ap (λ c. c.probe_interval_ms == 0) (change_health-config new measured)
                    ∙ some_interval)
                  (change_health-AreTakenUp new measured v) in
              (probed.0, rw e probed.1, probed.2)
        ]
