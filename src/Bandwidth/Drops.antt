-- ===== src/Bandwidth/Drops.antt =====
-- Which streams are dropped, and what a dropped stream sends.
use new_efp.Common.{
  ℕ, zero, suc, ◌+◌, ◌≤◌, ◌<◌, ◌≡◌, ◌⊎◌, refl, sym, ap, ◌∙◌, subst, Bool, true, false, ◌==◌,
  if◌then◌else◌, arith, Bool-cases, inl, inr, ==_iff, ==_refl,
}
use new_efp.Bandwidth.Float.{Float}
use new_efp.Bandwidth.State.{
  NetworkHealth, is_severe, StreamState, Manager, set_stream, each_stream,
}
use new_efp.Bandwidth.Streams.{
  get_target_multiplier, set_multiplier, set_dropped, decrease_multiplier, drop_stream,
  worsen_stream, increase_multiplier, undrop_stream, improve_stream,
}

module _ {float : Float} where
  -- A step that touches one stream, and leaves the health as it is.
  pub record Touches (i : ℕ) (m t : Manager float) : Type 0 where
    pub health : t.current_health ≡ m.current_health
    pub config : t.config ≡ m.config
    pub others : (j : ℕ) → (j == i) ≡ false → t.streams j ≡ m.streams j

  Touches-refl : (i : ℕ) (m : Manager float) → Touches i m m
  Touches-refl i m = record { health = refl; config = refl; others = λ j e. refl }

  Touches-trans : {i : ℕ} {m t u : Manager float} → Touches i m t → Touches i t u → Touches i m u
  Touches-trans a b = record {
    health = b.health ∙ a.health;
    config = b.config ∙ a.config;
    others = λ j e. b.others j e ∙ a.others j e;
  }

  -- The loop brings about at each stream what its round makes there of what stood there.
  pub loop_brings :
      (R Q : ℕ → StreamState float → Type 0) (step : ℕ → Manager float → Manager float)
      (h : NetworkHealth)
      → ((i : ℕ) (m : Manager float) → Touches i m (step i m))
      → ((i : ℕ) (m : Manager float)
          → m.current_health ≡ h
          → R i (m.streams i)
          → Q i ((step i m).streams i))
      → (count i : ℕ) (m : Manager float) → m.current_health ≡ h
      → ((j : ℕ) → j < i → Q j (m.streams j))
      → ((j : ℕ) → i ≤ j → R j (m.streams j))
      → ((each_stream count i step m).current_health ≡ h)
        × ((j : ℕ) → j < i + count → Q j ((each_stream count i step m).streams j))
  unfolding each_stream
  loop_brings R Q step h touches brings zero i m at_h below above =
      (at_h, λ j l. below j (omega arith))
  loop_brings R Q step h touches brings (suc count) i m at_h below above =
      let touched = touches i m in
      let (health, all) =
        loop_brings R Q step h touches brings count (i + 1) (step i m) (touched.health ∙ at_h)
          (λ j l. elim (Bool-cases (j == i)) [
            | inl here ↦
                subst (λ k. Q k ((step i m).streams k)) (sym ((==_iff j i).0 here))
                  (brings i m at_h (above i (omega arith)))
            | inr there ↦
                subst (Q j) (sym (touched.others j there)) (below j (ground (arith, there)))
          ])
          (λ j l. subst (R j) (sym (touched.others j (ground arith))) (above j (omega arith))) in
      (health, λ j l. all j (omega arith))

  set_stream-Touches :
      (i : ℕ) (s : StreamState float) (m : Manager float) → Touches i m (set_stream i s m)
  set_stream-Touches i s m = record { health = refl; config = refl; others = λ j e. rw e refl }

  touched_if :
      (b : Bool) (i : ℕ) (m t : Manager float) → Touches i m t → Touches i m (if b then t else m)
  touched_if true i m t a = a
  touched_if false i m t a = Touches-refl i m

  kept_if :
      (b : Bool) (i : ℕ) (m t : Manager float) → Touches i m t → Touches i m (if b then m else t)
  kept_if true i m t a = Touches-refl i m
  kept_if false i m t a = a

  set_multiplier-Touches :
      (i : ℕ) (x : float.F) (m : Manager float) → Touches i m (set_multiplier i x m)
  unfolding set_multiplier
  set_multiplier-Touches i x m = record { health = refl; config = refl; others = λ j e. rw e refl }

  set_dropped-Touches :
      (i : ℕ) (d : Bool) (n : ℕ) (m : Manager float)
      → Touches i m (set_dropped i d (record m { streams_dropped = n }))
  unfolding set_dropped
  set_dropped-Touches i d n m = record { health = refl; config = refl; others = λ j e. rw e refl }

  pub decrease_multiplier-Touches :
      (i : ℕ) (m : Manager float) → Touches i m (decrease_multiplier i m)
  unfolding decrease_multiplier
  decrease_multiplier-Touches i m = touched_if _ i m _ (set_multiplier-Touches i _ m)

  increase_multiplier-Touches : (i : ℕ) (m : Manager float) → Touches i m (increase_multiplier i m)
  unfolding increase_multiplier
  increase_multiplier-Touches i m = kept_if _ i m _ (set_multiplier-Touches i _ m)

  drop_stream-Touches : (i : ℕ) (m : Manager float) → Touches i m (drop_stream i m)
  unfolding drop_stream
  drop_stream-Touches i m = touched_if _ i m _ (set_dropped-Touches i true _ m)

  undrop_stream-Touches : (i : ℕ) (m : Manager float) → Touches i m (undrop_stream i m)
  unfolding undrop_stream
  undrop_stream-Touches i m = touched_if _ i m _ (set_dropped-Touches i false m.streams_dropped m)

  pub worsen_stream-Touches : (i : ℕ) (m : Manager float) → Touches i m (worsen_stream i m)
  unfolding worsen_stream
  worsen_stream-Touches i m =
      touched_if _ i m _ (Touches-trans (decrease_multiplier-Touches i m) (drop_stream-Touches i _))

  pub improve_stream-Touches : (i : ℕ) (m : Manager float) → Touches i m (improve_stream i m)
  unfolding improve_stream
  improve_stream-Touches i m =
      touched_if _ i m _
        (Touches-trans (increase_multiplier-Touches i m) (undrop_stream-Touches i _))

  -- A stream that is not dropped, or is set by hand.
  abbrev pub IsTakenUp : StreamState float → Type 0
  IsTakenUp s = (s.dropped ≡ false) ⊎ (float.lt s.manual float.f_0 ≡ false)

  undrop_stream-at :
      (i : ℕ) (m : Manager float)
      → is_severe m.current_health ≡ false
      → ((undrop_stream i m).streams i).dropped ≡ false
  unfolding undrop_stream set_dropped
  undrop_stream-at i m mild = elim (Bool-cases (m.streams i).dropped) [
    | inl d ↦ rw (d, mild) (rw (==_refl i) refl)
    | inr d ↦ rw d d
  ]

  improve_stream-IsTakenUp :
      (i : ℕ) (m : Manager float)
      → is_severe m.current_health ≡ false
      → IsTakenUp ((improve_stream i m).streams i)
  unfolding improve_stream
  improve_stream-IsTakenUp i m mild = elim (Bool-cases (float.lt (m.streams i).manual float.f_0)) [
    | inl e ↦ rw e (
        inl (
          undrop_stream-at i (increase_multiplier i m)
            (ap is_severe (increase_multiplier-Touches i m).health ∙ mild)))
    | inr e ↦ rw e (inr e)
  ]

  -- Where the health gets better, every stream is taken up.
  pub improved_all :
      (m : Manager float)
      → is_severe m.current_health ≡ false
      → (j : ℕ) → j < 256
      → IsTakenUp ((each_stream 256 0 improve_stream m).streams j)
  improved_all m mild j l =
      (loop_brings (λ i s. Unit {0}) (λ i s. IsTakenUp s) improve_stream m.current_health
          improve_stream-Touches (λ i t e u. improve_stream-IsTakenUp i t (ap is_severe e ∙ mild))
          256 0 m refl (λ k n. absurd (omega arith)) (λ k n. tt)).1
        j (omega arith)

  -- Only the multiplier is set.
  abbrev pub SameButMultiplier : StreamState float → StreamState float → Type 0
  SameButMultiplier s t = (t.config ≡ s.config) × (t.dropped ≡ s.dropped) × (t.manual ≡ s.manual)

  pub decrease_multiplier-Same :
      (i : ℕ) (m : Manager float)
      → SameButMultiplier (m.streams i) ((decrease_multiplier i m).streams i)
  unfolding decrease_multiplier set_multiplier
  decrease_multiplier-Same i m =
      elim (Bool-cases (
        float.lt (get_target_multiplier (m.streams i).config m.current_health)
          (m.streams i).multiplier)) [
            | inl e ↦ rw e (rw (==_refl i) (refl, refl, refl))
            | inr e ↦ rw e (refl, refl, refl)
          ]

  -- Worse health that is not severe drops no stream.
  mild_drop : (i : ℕ) (m : Manager float) → is_severe m.current_health ≡ false → drop_stream i m ≡ m
  unfolding drop_stream
  mild_drop i m mild = rw mild refl

  worsen_stream-IsTakenUp :
      (i : ℕ) (m : Manager float)
      → is_severe m.current_health ≡ false
      → IsTakenUp (m.streams i)
      → IsTakenUp ((worsen_stream i m).streams i)
  unfolding worsen_stream
  worsen_stream-IsTakenUp i m mild v = elim (Bool-cases (float.lt (m.streams i).manual float.f_0)) [
    | inl e ↦
        let same = decrease_multiplier-Same i m in
        let kept : IsTakenUp ((decrease_multiplier i m).streams i) = elim v [
          | inl d ↦ inl (same.1 ∙ d)
          | inr d ↦ inr (ap (λ x. float.lt x float.f_0) same.2 ∙ d)
        ] in
        subst
          (λ b. IsTakenUp ((if b then drop_stream i (decrease_multiplier i m) else m).streams i))
          (sym e)
          (subst (λ t. IsTakenUp (t.streams i))
            (sym (
              mild_drop i (decrease_multiplier i m)
                (ap is_severe (decrease_multiplier-Touches i m).health ∙ mild)))
            kept)
    | inr e ↦ rw e v
  ]

  pub worsened_all :
      (m : Manager float)
      → is_severe m.current_health ≡ false
      → ((j : ℕ) → j < 256 → IsTakenUp (m.streams j))
      → (j : ℕ) → j < 256
      → IsTakenUp ((each_stream 256 0 worsen_stream m).streams j)
  worsened_all m mild v j l =
      (loop_brings (λ i s. i < 256 → IsTakenUp s) (λ i s. i < 256 → IsTakenUp s) worsen_stream
          m.current_health worsen_stream-Touches
          (λ i t e u n. worsen_stream-IsTakenUp i t (ap is_severe e ∙ mild) (u n)) 256 0 m refl
          (λ k n. absurd (omega arith)) (λ k n. v k)).1
        j (omega arith) l

  -- Unless the network is severely congested, every stream is taken up, or set by hand.
  abbrev pub AreTakenUp : Manager float → Type 0
  AreTakenUp m = is_severe m.current_health ≡ false → (j : ℕ) → j < 256 → IsTakenUp (m.streams j)
