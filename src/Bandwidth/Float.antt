-- ===== src/Bandwidth/Float.antt =====
-- The arithmetic of `float` that bandwidth_manager.h computes in, as an interface: what the code
-- calls of it, and the few laws of IEEE 754 that the proofs rely on, which hold of NaN too.
use new_efp.Common.{Bool, true, false, ◌≡◌, if◌then◌else◌}
use new_efp.Common.Int.{ℤ}

pub record Float : Type 1 where
  pub F : Type 0
  pub add : F → F → F
  pub mul : F → F → F
  pub div : F → F → F
  pub lt : F → F → Bool
  pub le : F → F → Bool
  pub eq : F → F → Bool
  pub of_int : ℤ → F
  -- The literals: 0, 1, -1, 0.3, 0.5, 0.7, 0.8, 1.2 and 1000.
  pub f_0 : F
  pub f_1 : F
  pub f_minus_1 : F
  pub f_03 : F
  pub f_05 : F
  pub f_07 : F
  pub f_08 : F
  pub f_12 : F
  pub f_1000 : F

-- No number is less than itself, equal numbers stand alike to every other, and 1 is not below 0.
pub record FloatLaws (float : Float) : Type 0 where
  pub lt_irrefl : (a : float.F) → float.lt a a ≡ false
  pub eq_left : (a b c : float.F) → float.eq a b ≡ true → float.lt a c ≡ float.lt b c
  pub eq_right : (a b c : float.F) → float.eq a b ≡ true → float.lt c a ≡ float.lt c b
  pub zero_below_one : float.lt float.f_1 float.f_0 ≡ false

module _ (float : Float) where
  -- `std::clamp` and `std::min`.
  unfoldable pub clamp : float.F → float.F → float.F → float.F
  clamp value low high =
      if float.lt value low then low else if float.lt high value then high else value

  abbrev pub min_F : float.F → float.F → float.F
  min_F a b = if float.lt b a then b else a
