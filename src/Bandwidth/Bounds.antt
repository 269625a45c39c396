-- ===== src/Bandwidth/Bounds.antt =====
-- The multiplier of a stream stays in the range that the stream is configured with.
use new_efp.Common.{
  ℕ, zero, suc, ◌+◌, ◌≡◌, Bool, true, false, Option, none, some, ◌==◌, ltb, if◌then◌else◌,
  Bool-cases, inl, inr,
}
use new_efp.Bandwidth.Float.{Float, FloatLaws, clamp}
use new_efp.Bandwidth.State.{
  NetworkHealth, healthy, degraded, congested, severe, rank, StreamConfig, StreamState, Manager,
  set_stream, each_stream,
}
use new_efp.Bandwidth.Streams.{
  get_target_multiplier, set_multiplier, set_if_new, set_dropped, decrease_multiplier, drop_stream,
  worsen_stream, increased, increase_multiplier, undrop_stream, improve_stream,
}
use new_efp.Bandwidth.Health.{
  restart_recovery, follow_health, handle_health_change, increase_from, change_health,
}

-- A property that every round keeps is kept by the loop.
pub each_stream-keeps :
    {float : Float} (P : Manager float → Type 0) (step : ℕ → Manager float → Manager float)
    → ((i : ℕ) (m : Manager float) → P m → P (step i m))
    → (count i : ℕ) (m : Manager float) → P m
    → P (each_stream count i step m)
unfolding each_stream
each_stream-keeps P step keeps zero i m p = p
each_stream-keeps P step keeps (suc count) i m p =
    each_stream-keeps P step keeps count (i + 1) (step i m) (keeps i m p)

module _ (float : Float) where
  -- A value that is not below the one bound and not above the other.
  abbrev pub Between : float.F → float.F → float.F → Type 0
  Between low high x = (float.lt x low ≡ false) × (float.lt high x ≡ false)

  abbrev pub ConfigIsValid : StreamConfig float → Type 0
  ConfigIsValid c = float.lt c.max_multiplier c.min_multiplier ≡ false

  abbrev pub StreamIsBounded : StreamState float → Type 0
  StreamIsBounded s =
      ConfigIsValid s.config × Between s.config.min_multiplier s.config.max_multiplier s.multiplier

  -- Every stream's multiplier is in its range.
  abbrev pub IsBounded : Manager float → Type 0
  IsBounded m = (i : ℕ) → StreamIsBounded (m.streams i)

  -- A value, where there is one, is bounded.
  abbrev pub LeavesIsBounded : Option (Manager float) → Type 0
  LeavesIsBounded none = Unit {0}
  LeavesIsBounded (some m) = IsBounded m

module _ (float : Float) (laws : FloatLaws float) where
  pub clamp-Between :
      (x low high : float.F)
      → float.lt high low ≡ false
      → Between float low high (clamp float x low high)
  unfolding clamp
  clamp-Between x low high order = elim (Bool-cases (float.lt x low)) [
    | inl e ↦ rw e (laws.lt_irrefl low, order)
    | inr e ↦ elim (Bool-cases (float.lt high x)) [
      | inl f ↦ rw (e, f) (order, laws.lt_irrefl high)
      | inr f ↦ rw (e, f) (e, f)
    ]
  ]

  pub target-Between :
      (c : StreamConfig float) (health : NetworkHealth)
      → ConfigIsValid float c
      → Between float c.min_multiplier c.max_multiplier (get_target_multiplier c health)
  unfolding get_target_multiplier
  target-Between c state v = clamp-Between _ c.min_multiplier c.max_multiplier v

  set_stream-IsBounded :
      (i : ℕ) (s : StreamState float) (m : Manager float)
      → IsBounded float m
      → StreamIsBounded float s
      → IsBounded float (set_stream i s m)
  set_stream-IsBounded i s m v w j = elim (Bool-cases (j == i)) [
    | inl e ↦ rw e w
    | inr e ↦ rw e (v j)
  ]

  set_multiplier-IsBounded :
      (i : ℕ) (x : float.F) (m : Manager float)
      → IsBounded float m
      → Between float (m.streams i).config.min_multiplier (m.streams i).config.max_multiplier x
      → IsBounded float (set_multiplier i x m)
  unfolding set_multiplier
  set_multiplier-IsBounded i x m v b =
      set_stream-IsBounded i (record (m.streams i) { multiplier = x }) m v ((v i).0, b)

  set_if_new-IsBounded :
      (i : ℕ) (x : float.F) (m : Manager float)
      → IsBounded float m
      → Between float (m.streams i).config.min_multiplier (m.streams i).config.max_multiplier x
      → IsBounded float (set_if_new i x m)
  set_if_new-IsBounded i x m v b = elim (Bool-cases (float.eq x (m.streams i).multiplier)) [
    | inl e ↦ rw e v
    | inr e ↦ rw e (set_multiplier-IsBounded i x m v b)
  ]

  pub either :
      (b : Bool) (m t : Manager float)
      → IsBounded float m
      → IsBounded float t
      → IsBounded float (if b then m else t)
  either true m t v w = v
  either false m t v w = w

  set_dropped-IsBounded :
      (i : ℕ) (d : Bool) (m : Manager float)
      → IsBounded float m
      → IsBounded float (set_dropped i d m)
  unfolding set_dropped
  set_dropped-IsBounded i d m v =
      set_stream-IsBounded i (record (m.streams i) { dropped = d }) m v (v i)

  decrease_multiplier-IsBounded :
      (i : ℕ) (m : Manager float) → IsBounded float m → IsBounded float (decrease_multiplier i m)
  unfolding decrease_multiplier
  decrease_multiplier-IsBounded i m v =
      let target = get_target_multiplier (m.streams i).config m.current_health in
      either (float.lt target (m.streams i).multiplier) (set_multiplier i target m) m
        (set_multiplier-IsBounded i target m v
          (target-Between (m.streams i).config m.current_health (v i).0))
        v

  drop_stream-IsBounded :
      (i : ℕ) (m : Manager float) → IsBounded float m → IsBounded float (drop_stream i m)
  unfolding drop_stream
  drop_stream-IsBounded i m v = either _ _ m (set_dropped-IsBounded i true _ v) v

  worsen_stream-IsBounded :
      (i : ℕ) (m : Manager float) → IsBounded float m → IsBounded float (worsen_stream i m)
  unfolding worsen_stream
  worsen_stream-IsBounded i m v =
      either _ _ m (drop_stream-IsBounded i _ (decrease_multiplier-IsBounded i m v)) v

  increase_multiplier-IsBounded :
      (i : ℕ) (m : Manager float) → IsBounded float m → IsBounded float (increase_multiplier i m)
  unfolding increase_multiplier increased
  increase_multiplier-IsBounded i m v = set_if_new-IsBounded i _ m v (clamp-Between _ _ _ (v i).0)

  undrop_stream-IsBounded :
      (i : ℕ) (m : Manager float) → IsBounded float m → IsBounded float (undrop_stream i m)
  unfolding undrop_stream
  undrop_stream-IsBounded i m v = either _ _ m (set_dropped-IsBounded i false m v) v

  improve_stream-IsBounded :
      (i : ℕ) (m : Manager float) → IsBounded float m → IsBounded float (improve_stream i m)
  unfolding improve_stream
  improve_stream-IsBounded i m v =
      either _ _ m (undrop_stream-IsBounded i _ (increase_multiplier-IsBounded i m v)) v

  follow_health-IsBounded :
      (old : NetworkHealth) (m : Manager float)
      → IsBounded float m
      → IsBounded float (follow_health old m)
  follow_health-IsBounded old m v =
      either (ltb (rank old) (rank m.current_health)) _ _
        (each_stream-keeps (IsBounded float) worsen_stream worsen_stream-IsBounded 256 0 _ v)
        (either (ltb (rank m.current_health) (rank old)) _ m
          (each_stream-keeps (IsBounded float) improve_stream improve_stream-IsBounded 256 0 _ v) v)

  pub increase_from-IsBounded :
      (old : NetworkHealth) (m : Manager float)
      → IsBounded float m
      → IsBounded float (increase_from old m)
  unfolding restart_recovery
  increase_from-IsBounded healthy m v = v
  increase_from-IsBounded degraded m v =
      each_stream-keeps (IsBounded float) improve_stream improve_stream-IsBounded 256 0 _ v
  increase_from-IsBounded congested m v =
      each_stream-keeps (IsBounded float) improve_stream improve_stream-IsBounded 256 0 _ v
  increase_from-IsBounded severe m v =
      each_stream-keeps (IsBounded float) improve_stream improve_stream-IsBounded 256 0 _ v

  pub change_health-IsBounded :
      (new : NetworkHealth) (m : Manager float)
      → IsBounded float m
      → IsBounded float (change_health new m)
  unfolding handle_health_change restart_recovery
  change_health-IsBounded new m v =
      either (rank new == rank m.current_health) m _ v
        (follow_health-IsBounded m.current_health (record m { current_health = new }) v)
