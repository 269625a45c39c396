-- ===== src/Common/Table.antt =====
-- `std::unordered_map` and `std::unordered_set` over numbers, as association lists.
use Prim.Native.Nat.{ℕ, ◌+◌}
use mathlib.Core.Path.{◌≡◌, refl, subst, sym, ap}
use mathlib.Core.Bool.{Bool, false, ◌||◌}
use mathlib.Core.Option.{Option, none, some, some-injective}
use mathlib.Core.List.{List, [], ◌∷◌}
use mathlib.Core.Logic.{inl, inr}
use native.Mathlib.Omega.{arith}
use new_efp.Common.Tests.{◌==◌, ==_iff, if◌then◌else◌, Bool-cases}

module _ {ℓ} {V : Type ℓ} where
  unfoldable pub lookup : ℕ → List (ℕ × V) → Option V
  lookup key [] = none
  lookup key ((other, value) ∷ table) = if key == other then some value else lookup key table

  unfoldable pub erase : ℕ → List (ℕ × V) → List (ℕ × V)
  erase key [] = []
  erase key ((other, value) ∷ table) =
      let rest = erase key table in if key == other then rest else (other, value) ∷ rest

  unfoldable pub present : ℕ → List (ℕ × V) → Bool
  present key [] = false
  present key ((other, value) ∷ table) = key == other || present key table

  -- The order of an unordered container means nothing: a new value comes first.
  unfoldable pub insert : ℕ → V → List (ℕ × V) → List (ℕ × V)
  insert key value table = (key, value) ∷ erase key table

  pub lookup-erase :
      (key asked : ℕ) (table : List (ℕ × V))
      → lookup asked (erase key table) ≡ (if asked == key then none else lookup asked table)
  unfolding lookup erase
  lookup-erase key asked [] = ground arith
  lookup-erase key asked (entry ∷ table) = ground (arith, lookup-erase key asked table)

  pub lookup-insert :
      (key asked : ℕ) (value : V) (table : List (ℕ × V))
      → lookup asked (insert key value table)
        ≡ (if asked == key then some value else lookup asked table)
  unfolding lookup insert
  lookup-insert key asked value table = ground (arith, lookup-erase key asked table)

  -- The sum of a size over the values of a table.
  unfoldable pub total : (V → ℕ) → List (ℕ × V) → ℕ
  total size [] = 0
  total size ((j, w) ∷ m) = size w + total size m

  -- No key stands twice.
  unfoldable pub HasUniqueKeys : List (ℕ × V) → Type 0
  HasUniqueKeys [] = Unit {0}
  HasUniqueKeys ((key, value) ∷ table) = (present key table ≡ false) × HasUniqueKeys table

  present-lookup :
      (key : ℕ) (table : List (ℕ × V)) → lookup key table ≡ none → present key table ≡ false
  unfolding lookup present
  present-lookup key [] e = refl
  present-lookup key (entry ∷ table) e = ground (arith, present-lookup key table)

  present-erase :
      (key asked : ℕ) (table : List (ℕ × V))
      → present asked table ≡ false
      → present asked (erase key table) ≡ false
  unfolding present erase
  present-erase key asked [] e = refl
  present-erase key asked (entry ∷ table) e = ground (arith, present-erase key asked table)

  present-erase_self : (key : ℕ) (table : List (ℕ × V)) → present key (erase key table) ≡ false
  unfolding present erase
  present-erase_self key [] = refl
  present-erase_self key (entry ∷ table) = ground (arith, present-erase_self key table)

  pub erase-HasUniqueKeys :
      (key : ℕ) (table : List (ℕ × V)) → HasUniqueKeys table → HasUniqueKeys (erase key table)
  unfolding erase HasUniqueKeys
  erase-HasUniqueKeys key [] u = tt
  erase-HasUniqueKeys key ((other, value) ∷ table) u = elim (Bool-cases (key == other)) [
    | inl e ↦ rw e (erase-HasUniqueKeys key table u.1)
    | inr e ↦ rw e (present-erase key other table u.0, erase-HasUniqueKeys key table u.1)
  ]

  pub insert-HasUniqueKeys :
      (key : ℕ) (value : V) (table : List (ℕ × V))
      → HasUniqueKeys table
      → HasUniqueKeys (insert key value table)
  unfolding insert HasUniqueKeys
  insert-HasUniqueKeys key value table u =
      (present-erase_self key table, erase-HasUniqueKeys key table u)

  module _ (size : V → ℕ) where
    total-erase_absent :
        (key : ℕ) (table : List (ℕ × V))
        → present key table ≡ false
        → total size (erase key table) ≡ total size table
    unfolding present erase total
    total-erase_absent key [] e = refl
    total-erase_absent key (entry ∷ table) e = ground (arith, total-erase_absent key table)

    -- Erasing a key takes the size of its value from the sum.
    pub total-erase :
        (key : ℕ) (table : List (ℕ × V)) (value : V)
        → HasUniqueKeys table
        → lookup key table ≡ some value
        → total size (erase key table) + size value ≡ total size table
    unfolding lookup erase total HasUniqueKeys
    total-erase key [] value u e = absurd (cc e)
    total-erase key ((other, entry) ∷ table) value u e = elim (Bool-cases (key == other)) [
      | inl same ↦
          let here : entry ≡ value = some-injective _ _ (rw same at e) in
          let absent : present key table ≡ false =
            subst (λ k. present k table ≡ false) (sym ((==_iff key other).0 same)) u.0 in
          rw same (omega (arith, total-erase_absent key table absent, ap size here))
      | inr differ ↦ rw differ (omega (arith, total-erase key table value u.1 (rw differ at e)))
    ]

    pub total-erase_unused :
        (key : ℕ) (table : List (ℕ × V))
        → lookup key table ≡ none
        → total size (erase key table) ≡ total size table
    total-erase_unused key table e = total-erase_absent key table (present-lookup key table e)

unfoldable pub member : ℕ → List ℕ → Bool
member a [] = false
member a (x ∷ xs) = x == a || member a xs

unfoldable pub remove : ℕ → List ℕ → List ℕ
remove a [] = []
remove a (x ∷ xs) = if x == a then remove a xs else x ∷ remove a xs

pub member-remove :
    (a b : ℕ) (xs : List ℕ) → member b (remove a xs) ≡ (if a == b then false else member b xs)
unfolding member remove
member-remove a b [] = ground arith
member-remove a b (x ∷ xs) = ground (arith, member-remove a b xs)
