-- ===== src/Resolve/Winners.antt =====
-- The winner of a count is the first value that enough senders name
-- (primary/src/vantage/direct_resolution.rs).
use vantage_bft.Base.{
  ℕ, ◌+◌, ◌≤◌, ◌<◌, ◌≡◌, refl, sym, ap, ◌∙◌, inl, inr, Option, none, some, [], ◌∷◌, arith, leb,
  ◌==◌, Option-cases, Bool-cases,
}
use vantage_bft.Base.BTree
use vantage_bft.Base.Map
use vantage_bft.Base.Map.{Map, lookup}
use vantage_bft.Agb.Types.{Digest}
use vantage_bft.Resolve.Counts.{count_up, tally, first_above, winner}
use mathlib.Core.Option.{get_or, none-ne-some}

-- The keys of a count, in ascending order and above a key.
abbrev Above : ℕ → Map ℕ → Type 0
Above k [] = Unit {0}
Above k ((j, n) ∷ m) = (k < j) × Above j m

abbrev Ascending : Map ℕ → Type 0
Ascending [] = Unit {0}
Ascending ((k, n) ∷ m) = Above k m

Above-Ascending : (k : ℕ) (m : Map ℕ) → Above k m → Ascending m
Above-Ascending k [] h = tt
Above-Ascending k ((j, n) ∷ m) h = h.1

lookup-Above : (u k : ℕ) (m : Map ℕ) → u ≤ k → Above k m → lookup u m ≡ none
unfolding lookup
lookup-Above u k [] h a = refl
lookup-Above u k ((j, n) ∷ m) h a = ground (arith, lookup-Above u j m)

insert-Above : (i k n : ℕ) (m : Map ℕ) → i < k → Above i m → Above i (BTree.insert k n m)
unfolding BTree.insert
insert-Above i k n [] h a = (h, tt)
insert-Above i k n ((j, v) ∷ m) h a = ground (arith, insert-Above j k n m)

insert-Ascending : (k n : ℕ) (m : Map ℕ) → Ascending m → Ascending (BTree.insert k n m)
unfolding BTree.insert
insert-Ascending k n [] a = tt
insert-Ascending k n ((j, v) ∷ m) a = ground (arith, insert-Above j k n m)

tally-Ascending : (m : Map Digest) → Ascending (tally m)
unfolding tally count_up
tally-Ascending [] = tt
tally-Ascending ((k, v) ∷ m) = insert-Ascending v _ (tally m) (tally-Ascending m)

-- How many senders name a value.
abbrev pub naming : Digest → Map Digest → ℕ
naming v m = Map.count (λ d. d == v) m

-- The tally of a value is the number of its senders.
lookup-tally : (m : Map Digest) (v : Digest) → get_or (lookup v (tally m)) 0 ≡ naming v m
unfolding tally count_up lookup Map.count
lookup-tally [] v = refl
lookup-tally ((k, d) ∷ m) v =
    ground (
      arith,
      BTree.lookup-insert d v (get_or (lookup d (tally m)) 0 + 1) (tally m),
      lookup-tally m v,
    )

-- Every entry from the head on, and none before the first that reaches the threshold.
abbrev Heads : ℕ → Map ℕ → Option Digest → Type 0
Heads th m none = (u : Digest) (n : ℕ) → lookup u m ≡ some n → n < th
Heads th m (some v) =
    ((n : ℕ) × (lookup v m ≡ some n) × (th ≤ n))
    × ((u : Digest) (n : ℕ) → u < v → lookup u m ≡ some n → n < th)

Heads-cons :
    (th j n : ℕ) (m : Map ℕ) (o : Option Digest)
    → Above j m
    → n < th
    → Heads th m o
    → Heads th ((j, n) ∷ m) o
unfolding lookup
Heads-cons th j n m none a h f = λ u x e. ground (arith, f u x)
Heads-cons th j n m (some v) a h ((x, e, g), f) =
    ((x, ground (arith, lookup-Above v j m), g), λ u y l q. ground (arith, f u y))

first_above-Heads : (th : ℕ) (m : Map ℕ) → Ascending m → Heads th m (first_above th m)
unfolding first_above lookup
first_above-Heads th [] a = λ u n e. absurd (none-ne-some n e)
first_above-Heads th ((j, n) ∷ m) a = elim (Bool-cases (leb th n)) [
  | inl e ↦
      rw e ((n, ground arith, ground (arith, e)), λ u x l q. ground (arith, lookup-Above u j m))
  | inr e ↦ rw e (
      Heads-cons th j n m (first_above th m) a (ground (arith, e))
        (first_above-Heads th m (Above-Ascending j m a)))
]

-- The number of senders that name a value, as the tally has it or lacks it.
naming_found : (m : Map Digest) (v : Digest) (n : ℕ) → lookup v (tally m) ≡ some n → naming v m ≡ n
naming_found m v n e = sym (lookup-tally m v) ∙ ap (λ o. get_or o 0) e

naming_missing : (m : Map Digest) (v : Digest) → lookup v (tally m) ≡ none → naming v m ≡ 0
naming_missing m v e = sym (lookup-tally m v) ∙ ap (λ o. get_or o 0) e

few_senders :
    (th : ℕ) (m : Map Digest) (v : Digest)
    → 0 < th
    → ((n : ℕ) → lookup v (tally m) ≡ some n → n < th)
    → naming v m < th
few_senders th m v pos h = elim (Option-cases (lookup v (tally m))) [
  | inl e ↦ omega (arith, naming_missing m v e, pos)
  | inr (n, e) ↦ omega (arith, naming_found m v n e, h n e)
]

-- A winner by the senders' votes alone: the smallest value that enough of them name.
abbrev pub Winning : ℕ → Map Digest → Option Digest → Type 0
Winning th m none = (v : Digest) → naming v m < th
Winning th m (some v) = (th ≤ naming v m) × ((u : Digest) → u < v → naming u m < th)

Heads-Winning :
    (th : ℕ) (m : Map Digest) (o : Option Digest) → 0 < th → Heads th (tally m) o → Winning th m o
Heads-Winning th m none pos f = λ v. few_senders th m v pos (f v)
Heads-Winning th m (some v) pos ((n, e, g), f) =
    (omega (arith, naming_found m v n e, g), λ u l. few_senders th m u pos (λ x q. f u x l q))

-- For a positive threshold, the winner among votes (the DONEs of a target, the witnesses of a view)
-- is the smallest value that at least that many senders name, and there is none exactly when fewer
-- name every value.
pub winner-Winning :
    (threshold : ℕ) (votes : Map Digest)
    → 0 < threshold
    → Winning threshold votes (winner threshold votes)
unfolding winner
winner-Winning th m pos =
    Heads-Winning th m (first_above th (tally m)) pos
      (first_above-Heads th (tally m) (tally-Ascending m))
