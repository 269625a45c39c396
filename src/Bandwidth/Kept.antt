-- ===== src/Bandwidth/Kept.antt =====
-- `update`, and the recomputation of a stream's multiplier, keep the multipliers in their ranges.
use new_efp.Common.{
  ℕ, ◌*◌, ◌/◌, ◌≡◌, sym, ◌∙◌, subst, true, false, ◌==◌, leb, if◌then◌else◌, Bool-cases, ==_iff, inl,
  inr,
}
use new_efp.Common.Int.{pos, ◌-ℤ◌, ltb_ℤ}
use new_efp.Bandwidth.Float.{Float, FloatLaws}
use new_efp.Bandwidth.State.{
  NetworkHealth, healthy, degraded, congested, severe, StreamState, Manager, set_stream,
}
use new_efp.Bandwidth.Streams.{set_multiplier, set_if_new, update_stream_multiplier}
use new_efp.Bandwidth.Health.{
  tick, try_bandwidth_increase, process_probing, measure_nacks, change_health, probe_if_ill, judge,
  update_health, evaluate_health,
}
use new_efp.Bandwidth.Bounds.{
  ConfigIsValid, StreamIsBounded, IsBounded, Between, LeavesIsBounded, change_health-IsBounded,
  increase_from-IsBounded, target-Between, clamp-Between,
}

module _ (float : Float) (laws : FloatLaws float) where
  process_probing-IsBounded :
      (now : ℕ) (m : Manager float)
      → IsBounded float m
      → LeavesIsBounded float (process_probing now m)
  unfolding process_probing try_bandwidth_increase
  process_probing-IsBounded now m v =
      elim (Bool-cases
        (ltb_ℤ (pos now -ℤ m.recovery_start_us) (pos (m.config.recovery_window_ms * 1000)))) [
          | inl e ↦ rw e v
          | inr e ↦ elim (Bool-cases (m.config.probe_interval_ms == 0)) [
            | inl z ↦ rw (e, z) tt
            | inr z ↦
                elim (Bool-cases (
                  leb (m.config.recovery_window_ms / m.config.probe_interval_ms)
                    m.stable_rtt_samples)) [
                      | inl y ↦
                          rw (e, z, y) (increase_from-IsBounded float laws m.current_health m v)
                      | inr n ↦ rw (e, z, n) v
                    ]
          ]
        ]

  probe_if_ill-IsBounded :
      (state : NetworkHealth) (now : ℕ) (m : Manager float)
      → IsBounded float m
      → LeavesIsBounded float (probe_if_ill state now m)
  probe_if_ill-IsBounded healthy now m v = v
  probe_if_ill-IsBounded degraded now m v = process_probing-IsBounded now m v
  probe_if_ill-IsBounded congested now m v = process_probing-IsBounded now m v
  probe_if_ill-IsBounded severe now m v = process_probing-IsBounded now m v

  pub update_health-Leaves :
      (m : Manager float) → IsBounded float m → LeavesIsBounded float (update_health m)
  unfolding update_health judge measure_nacks
  update_health-Leaves m v =
      let now = m.clock 0 in
      let measured = measure_nacks now (tick m) in
      let changed = change_health (evaluate_health measured) measured in
      elim (Bool-cases
        (ltb_ℤ (pos now -ℤ m.last_update_us) (pos (m.config.update_interval_ms * 1000)))) [
          | inl e ↦ rw e v
          | inr e ↦ rw e (
              probe_if_ill-IsBounded changed.current_health now changed
                (change_health-IsBounded float laws (evaluate_health measured) measured v))
        ]

  set_multiplier-replaces :
      (i : ℕ) (x : float.F) (m : Manager float)
      → ((j : ℕ) → ConfigIsValid float (m.streams j).config)
      → ((j : ℕ) → (j == i) ≡ false → StreamIsBounded float (m.streams j))
      → Between float (m.streams i).config.min_multiplier (m.streams i).config.max_multiplier x
      → IsBounded float (set_multiplier i x m)
  unfolding set_multiplier
  set_multiplier-replaces i x m valid others b j = elim (Bool-cases (j == i)) [
    | inl e ↦ rw e (valid i, b)
    | inr e ↦ rw e (others j e)
  ]

  -- An equal number stands in the range too.
  equal-IsBounded :
      (i : ℕ) (x : float.F) (m : Manager float)
      → ((j : ℕ) → ConfigIsValid float (m.streams j).config)
      → ((j : ℕ) → (j == i) ≡ false → StreamIsBounded float (m.streams j))
      → Between float (m.streams i).config.min_multiplier (m.streams i).config.max_multiplier x
      → float.eq x (m.streams i).multiplier ≡ true
      → IsBounded float m
  equal-IsBounded i x m valid others b e j = elim (Bool-cases (j == i)) [
    | inl here ↦
        subst (λ k. StreamIsBounded float (m.streams k)) (sym ((==_iff j i).0 here))
          (
            valid i,
            (
              sym (laws.eq_left x (m.streams i).multiplier _ e) ∙ b.0,
              sym (laws.eq_right x (m.streams i).multiplier _ e) ∙ b.1,
            ),
          )
    | inr there ↦ others j there
  ]

  -- The stream's own multiplier may lie outside its range before.
  replaced :
      (i : ℕ) (x : float.F) (m : Manager float)
      → ((j : ℕ) → ConfigIsValid float (m.streams j).config)
      → ((j : ℕ) → (j == i) ≡ false → StreamIsBounded float (m.streams j))
      → Between float (m.streams i).config.min_multiplier (m.streams i).config.max_multiplier x
      → IsBounded float (set_if_new i x m)
  replaced i x m valid others b = elim (Bool-cases (float.eq x (m.streams i).multiplier)) [
    | inl e ↦
        subst (λ c. IsBounded float (if c then m else set_multiplier i x m)) (sym e)
          (equal-IsBounded i x m valid others b e)
    | inr e ↦
        subst (λ c. IsBounded float (if c then m else set_multiplier i x m)) (sym e)
          (set_multiplier-replaces i x m valid others b)
  ]

  update_stream_multiplier-IsBounded :
      (i : ℕ) (m : Manager float)
      → ((j : ℕ) → ConfigIsValid float (m.streams j).config)
      → ((j : ℕ) → (j == i) ≡ false → StreamIsBounded float (m.streams j))
      → IsBounded float (update_stream_multiplier i m)
  unfolding update_stream_multiplier
  update_stream_multiplier-IsBounded i m valid others =
      elim (Bool-cases (float.le float.f_0 s.manual)) [
        | inl e ↦ rw e (replaced i _ m valid others (clamp-Between float laws _ _ _ (valid i)))
        | inr e ↦ rw e (
            replaced i _ m valid others
              (target-Between float laws s.config m.current_health (valid i)))
      ]
    where
      s : StreamState float
      s = m.streams i

  pub configured :
      (i : ℕ) (s : StreamState float) (m : Manager float)
      → IsBounded float m
      → ConfigIsValid float s.config
      → IsBounded float (update_stream_multiplier i (set_stream i s m))
  configured i s m v valid =
      update_stream_multiplier-IsBounded i (set_stream i s m)
        (λ j. elim (Bool-cases (j == i)) [ inl e ↦ rw e valid | inr e ↦ rw e (v j).0 ])
        (λ j e. rw e (v j))
