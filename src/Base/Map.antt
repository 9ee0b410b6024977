-- ===== src/Base/Map.antt =====
-- Maps with number keys, as lists of entries. A `HashMap` keeps its entries in the order of their
-- first insertion, which stands for the order that Rust leaves open; a `BTreeMap` is in BTree.
use Prim.Native.Nat.{ℕ, ◌+◌}
use mathlib.Core.Path.{◌≡◌, refl}
use mathlib.Core.Bool.{Bool}
use mathlib.Core.Option.{Option, none, some}
use mathlib.Core.List.{List, [], ◌∷◌}
use native.Mathlib.Omega.{arith}
use vantage_bft.Base.Tests.{◌==◌, if◌then◌else◌}

abbrev pub Map {ℓ} : Type ℓ → Type ℓ
Map V = List (ℕ × V)

module _ {ℓ} {V : Type ℓ} where
  unfoldable pub lookup : ℕ → Map V → Option V
  lookup key [] = none
  lookup key ((name, value) ∷ rest) = if name == key then some value else lookup key rest

  -- The entry's value, replaced, or a new entry behind all others.
  unfoldable pub insert : (key : ℕ) (value : V) → Map V → Map V
  insert key value [] = (key, value) ∷ []
  insert key value ((name, old) ∷ rest) =
      let behind = insert key value rest in
      if name == key then (name, value) ∷ rest else (name, old) ∷ behind

  -- The key reads the new value, and every other key what it read before.
  pub lookup-insert :
      (k other : ℕ) (value : V) (entries : Map V)
      → lookup other (insert k value entries)
        ≡ (if k == other then some value else lookup other entries)
  unfolding insert lookup
  lookup-insert k other value [] = refl
  lookup-insert k other value (e ∷ entries) = ground (arith, lookup-insert k other value entries)

  -- How many values pass a test.
  unfoldable pub count : (V → Bool) → Map V → ℕ
  count p [] = 0
  count p ((k, v) ∷ m) = (if p v then 1 else 0) + count p m

  pub count-insert :
      (p : V → Bool) (k : ℕ) (v : V) (m : Map V)
      → lookup k m ≡ none
      → count p (insert k v m) ≡ (if p v then 1 else 0) + count p m
  unfolding lookup insert count
  count-insert p k v [] h = refl
  count-insert p k v ((j, w) ∷ m) h = ground (arith, count-insert p k v m)

  -- A value that replaces another counts in its place.
  pub count-replace :
      (p : V → Bool) (k : ℕ) (v w : V) (m : Map V)
      → lookup k m ≡ some w
      → count p (insert k v m) + (if p w then 1 else 0) ≡ (if p v then 1 else 0) + count p m
  unfolding lookup insert count
  count-replace p k v w [] h = ground arith
  count-replace p k v w ((j, x) ∷ m) h = ground (arith, count-replace p k v w m)

  -- The map without a key.
  unfoldable pub remove : ℕ → Map V → Map V
  remove key [] = []
  remove key ((name, value) ∷ rest) =
      let others = remove key rest in if name == key then others else (name, value) ∷ others

  pub lookup-remove :
      (key other : ℕ) (entries : Map V)
      → lookup other (remove key entries) ≡ (if key == other then none else lookup other entries)
  unfolding lookup remove
  lookup-remove key other [] = ground arith
  lookup-remove key other ((name, value) ∷ entries) =
      ground (arith, lookup-remove key other entries)

  -- The values, in order.
  unfoldable pub values : Map V → List V
  values [] = []
  values ((name, value) ∷ rest) = value ∷ values rest
