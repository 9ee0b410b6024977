-- ===== src/Committee/Census.antt =====
-- The stake behind the statements of a map: what a tally of a committee's votes should hold.
use vantage_bft.Base.{
  ℕ, ◌+◌, ◌≤◌, ◌≡◌, refl, Bool, true, false, Option, none, some, [], ◌∷◌, arith, Option-cases, inl,
  inr, if◌then◌else◌,
}
use vantage_bft.Base.Map.{Map, lookup, insert, lookup-insert}
use mathlib.Core.Option.{get_or}

abbrev pub holds {ℓ} : {V : Type ℓ} → (V → Bool) → Option V → Bool
holds p none = false
holds p (some v) = p v

-- The names of a committee are distinct, as the keys of a `BTreeMap` are.
abbrev pub Distinct : Map ℕ → Type 0
Distinct [] = Unit
Distinct ((k, v) ∷ m) = (lookup k m ≡ none) × Distinct m

unfoldable pub sum_stakes : Map ℕ → ℕ
sum_stakes [] = 0
sum_stakes ((name, s) ∷ rest) = s + sum_stakes rest

abbrev pub stake_of : Map ℕ → ℕ → ℕ
stake_of authorities k = get_or (lookup k authorities) 0

module _ {ℓ} {V : Type ℓ} where
  -- The summed stake of the authorities whose statement passes the test.
  unfoldable pub census : (V → Bool) → Map ℕ → Map V → ℕ
  census p [] m = 0
  census p ((a, s) ∷ rest) m = (if holds p (lookup a m) then s else 0) + census p rest m

  pub census-insert :
      (p : V → Bool) (authorities : Map ℕ) (k : ℕ) (v : V) (m : Map V)
      → Distinct authorities
      → census p authorities (insert k v m)
          + (if holds p (lookup k m) then stake_of authorities k else 0)
        ≡ (if p v then stake_of authorities k else 0) + census p authorities m
  unfolding census lookup
  census-insert p [] k v m d = ground arith
  census-insert p ((a, s) ∷ rest) k v m d =
      ground (arith, census-insert p rest k v m d.1, lookup-insert k a v m)

  pub census-nil : (p : V → Bool) (authorities : Map ℕ) → census p authorities [] ≡ 0
  unfolding census lookup
  census-nil p [] = refl
  census-nil p ((a, s) ∷ rest) = ground (arith, census-nil p rest)

  -- The stake behind two kinds of statements that exclude one another is within the total.
  pub census_disjoint :
      (p q : V → Bool) (authorities : Map ℕ) (m : Map V)
      → ((v : V) → p v ≡ true → q v ≡ false)
      → census p authorities m + census q authorities m ≤ sum_stakes authorities
  unfolding census sum_stakes
  census_disjoint p q [] m apart = omega arith
  census_disjoint p q ((a, s) ∷ rest) m apart = elim (Option-cases (lookup a m)) [
    | inl e ↦ rw e (omega (arith, census_disjoint p q rest m apart))
    | inr (v, e) ↦ rw e (ground (arith, census_disjoint p q rest m apart, apart v))
  ]
