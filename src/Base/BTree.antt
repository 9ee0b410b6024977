-- ===== src/Base/BTree.antt =====
-- `BTreeMap` with number keys: entries in ascending order of keys, read by `Map.lookup`.
use Prim.Native.Nat.{ℕ}
use mathlib.Core.Path.{◌≡◌, refl, sym, ap, subst, ◌∙◌}
use mathlib.Core.Bool.{false}
use mathlib.Core.Option.{none, some, some-injective}
use mathlib.Core.List.{[], ◌∷◌}
use native.Mathlib.Omega.{arith}
use vantage_bft.Base.Tests.{◌==◌, ltb, if◌then◌else◌, Bool-cases}
use mathlib.Core.Logic.{inl, inr}
use vantage_bft.Base.Map
use vantage_bft.Base.Map.{Map, lookup}

module _ {ℓ} {V : Type ℓ} where
  -- The entry's value, replaced, or a new entry before the first with a greater key.
  unfoldable pub insert : (key : ℕ) (value : V) → Map V → Map V
  insert key value [] = (key, value) ∷ []
  insert key value ((name, old) ∷ rest) =
      let behind = insert key value rest in
      if name == key
      then (name, value) ∷ rest
      else if ltb key name
      then (key, value) ∷ (name, old) ∷ rest
      else (name, old) ∷ behind

  -- `split_off(&floor)`: the entries from `floor` on.
  unfoldable pub split_off : ℕ → Map V → Map V
  split_off floor [] = []
  split_off floor ((j, v) ∷ m) =
      let rest = split_off floor m in if ltb j floor then rest else (j, v) ∷ rest

  -- The key reads the new value, and every other key what it read before.
  pub lookup-insert :
      (k other : ℕ) (value : V) (entries : Map V)
      → lookup other (insert k value entries)
        ≡ (if k == other then some value else lookup other entries)
  unfolding insert lookup
  lookup-insert k other value [] = refl
  lookup-insert k other value (e ∷ entries) = ground (arith, lookup-insert k other value entries)

  pub lookup-insert_same :
      (k : ℕ) (value : V) (entries : Map V) → lookup k (insert k value entries) ≡ some value
  lookup-insert_same k value entries = ground (arith, lookup-insert k k value entries)

  pub lookup-insert_other :
      (k other : ℕ) (value : V) (entries : Map V)
      → (k == other) ≡ false
      → lookup other (insert k value entries) ≡ lookup other entries
  lookup-insert_other k other value entries n =
      ground (arith, n, lookup-insert k other value entries)

  -- What holds of every entry holds of every entry of the map with one more.
  pub insert_all_hold {κ} :
      (P : ℕ → V → Type κ) (k : ℕ) (value : V) (entries : Map V)
      → P k value
      → ((j : ℕ) (v : V) → lookup j entries ≡ some v → P j v)
      → (j : ℕ) (v : V) → lookup j (insert k value entries) ≡ some v
      → P j v
  insert_all_hold P k value entries p f j v e = elim (Bool-cases (k == j)) [
    | inr n ↦ f j v (sym (lookup-insert_other k j value entries n) ∙ e)
    | inl q ↦
        let a : k ≡ j = ground (arith, q) in
        let b : value ≡ v = some-injective value v (
          sym (lookup-insert_same k value entries)
          ∙ ap (λ i. lookup i (insert k value entries)) a
          ∙ e) in
        subst (λ i. P i v) a (subst (P k) b p)
  ]

  pub remove_all_hold {κ} :
      (P : ℕ → V → Type κ) (k : ℕ) (entries : Map V)
      → ((j : ℕ) (v : V) → lookup j entries ≡ some v → P j v)
      → (j : ℕ) (v : V) → lookup j (Map.remove k entries) ≡ some v
      → P j v
  remove_all_hold P k entries f j v e = f j v (ground (arith, e, Map.lookup-remove k j entries))

  pub lookup-split_off :
      (k floor : ℕ) (m : Map V)
      → lookup k (split_off floor m) ≡ (if ltb k floor then none else lookup k m)
  unfolding lookup split_off
  lookup-split_off k floor [] = ground arith
  lookup-split_off k floor ((j, v) ∷ m) = ground (arith, lookup-split_off k floor m)
