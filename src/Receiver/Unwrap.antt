-- ===== src/Receiver/Unwrap.antt =====
-- `recalculateSuperFrameNo` counts on where the 16-bit frame numbers wrap around.
use new_efp.Common.{
  ℕ, ◌+◌, ◌-◌, ◌%◌, ◌^◌, ◌≤◌, ◌<◌, ◌≡◌, refl, true, false, ltb, arith, Bool-cases, inl, inr,
}
use new_efp.Common.Int.{pos, pos_part, neg_part, ◌+ℤ◌, +ℤ_parts, eq_of_parts}
use new_efp.Receiver.State.{Receiver, signed_delta, recalculate_super_frame_no}

-- The difference of two close numbers, from what is left of them in 16 bits.
delta_forward :
    (a p : ℕ) → p ≤ a → a < p + 2 ^ 15 → (a % 2 ^ 16 + 2 ^ 16 - p % 2 ^ 16) % 2 ^ 16 ≡ a - p
delta_forward a p h k = omega arith

delta_back :
    (a p : ℕ)
    → a < p
    → p ≤ a + 2 ^ 15
    → (a % 2 ^ 16 + 2 ^ 16 - p % 2 ^ 16) % 2 ^ 16 ≡ 2 ^ 16 - (p - a)
delta_back a p h k = omega arith

signed_delta-parts :
    (a p : ℕ)
    → a < p + 2 ^ 15
    → p ≤ a + 2 ^ 15
    → pos_part (signed_delta (a % 2 ^ 16) (p % 2 ^ 16)) + p
      ≡ a + neg_part (signed_delta (a % 2 ^ 16) (p % 2 ^ 16))
signed_delta-parts a p h k = elim (Bool-cases (ltb a p)) [
  | inl e ↦ ground (arith, delta_back a p)
  | inr e ↦ ground (arith, delta_forward a p)
]

-- The receiver has seen the frame of number `p` last.
pub record Tracks (p : ℕ) (r : Receiver) : Type 0 where
  pub later : r.first_frame ≡ false
  pub order : r.frame_no_recalc ≡ pos p
  pub kept : r.old_frame_no ≡ p % 2 ^ 16

-- The first frame is tracked from its 16 bits on.
pub first-Tracks :
    (frame_no : ℕ) (r : Receiver)
    → frame_no < 2 ^ 16
    → r.first_frame ≡ true
    → Tracks frame_no (recalculate_super_frame_no frame_no r).1
unfolding recalculate_super_frame_no
first-Tracks frame_no r h first =
    simp first (record { later = refl; order = refl; kept = omega (arith, h) })

order_of :
    (a p : ℕ)
    → a < p + 2 ^ 15
    → p ≤ a + 2 ^ 15
    → pos p +ℤ signed_delta (a % 2 ^ 16) (p % 2 ^ 16) ≡ pos a
order_of a p h k = eq_of_parts _ (pos a) (
    omega (
      arith,
      +ℤ_parts (pos p) (signed_delta (a % 2 ^ 16) (p % 2 ^ 16)),
      signed_delta-parts a p h k,
    ))

-- Where the receiver has seen the frame of number `p` last, and 16 bits of the number `a` come,
-- less than 2^15 ahead of `p` and at most 2^15 behind it, `recalculateSuperFrameNo` gives the
-- number `a` again, and the receiver has seen `a` last.
pub recalculate_super_frame_no-Tracks :
    (a p : ℕ) (r : Receiver)
    → a < p + 2 ^ 15
    → p ≤ a + 2 ^ 15
    → Tracks p r
    → ((recalculate_super_frame_no (a % 2 ^ 16) r).0 ≡ pos a)
      × Tracks a (recalculate_super_frame_no (a % 2 ^ 16) r).1
unfolding recalculate_super_frame_no
recalculate_super_frame_no-Tracks a p r h k v =
    simp (v.later, v.order, v.kept)
      (order_of a p h k, record { later = refl; order = order_of a p h k; kept = refl })
