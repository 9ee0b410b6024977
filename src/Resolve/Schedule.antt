-- ===== src/Resolve/Schedule.antt =====
-- primary/src/vantage/direct_resolution.rs: the schedule of a target's primaries.
use vantage_bft.Base.{
  ℕ, zero, suc, ◌+◌, ◌-◌, ◌*◌, ◌/◌, ◌%◌, ◌^◌, Bool, true, false, Option, none, some, List, [], ◌∷◌,
  ◌++◌, length, get_elem?, set, ◌==◌, u64, if◌then◌else◌,
}
use vantage_bft.Committee.{Committee, PublicKey}
use vantage_bft.Leader.{keys, one_based}
use vantage_bft.Agb.Types.{View}
use vantage_bft.Resolve.Types.{ResolverView}
use vantage_bft.Resolve.State.{Config}
use Prim.Native.Nat.{bit_xor}
use mathlib.Core.Option.{get_or}

-- The splitmix64 output of a state.
unfoldable pub mix : ℕ → ℕ
mix state =
    let z = u64 (bit_xor state (state / 2 ^ 30) * 0xBF58476D1CE4E5B9) in
    let y = u64 (bit_xor z (z / 2 ^ 27) * 0x94D049BB133111EB) in bit_xor y (y / 2 ^ 31)

unfoldable pub next_state : ℕ → ℕ
next_state state = u64 (state + 0x9E3779B97F4A7C15)

unfoldable pub range : ℕ → ℕ → List ℕ
range first zero = []
range first (suc n) = first ∷ range (suc first) n

-- `order.swap(i, j)`, for indices in range.
unfoldable pub swap : List ℕ → ℕ → ℕ → List ℕ
swap order i j = set (set order i (get_or (get_elem? order j) 0)) j (get_or (get_elem? order i) 0)

-- The loop for `i` from the given index down to 1.
unfoldable pub shuffle : (i : ℕ) → (state : ℕ) → List ℕ → List ℕ
unfolding mix next_state swap
shuffle zero state order = order
shuffle (suc i) state order =
    let s = next_state state in shuffle i s (swap order (suc i) (mix s % (suc i + 1)))

abbrev name_at : List PublicKey → ℕ → PublicKey
name_at names k = get_or (get_elem? names k) 0

-- The names in order, with the first index of the proposer moved to the last position.
unfoldable pub without_first : PublicKey → List PublicKey → List PublicKey
without_first proposer [] = []
without_first proposer (name ∷ rest) =
    if name == proposer then rest else name ∷ without_first proposer rest

unfoldable pub has_name : PublicKey → List PublicKey → Bool
has_name proposer [] = false
has_name proposer (name ∷ rest) = if name == proposer then true else has_name proposer rest

unfoldable pub move_last : Option PublicKey → List PublicKey → List PublicKey
unfolding without_first has_name
move_last none order = order
move_last (some proposer) order =
    if has_name proposer order then without_first proposer order ++ proposer ∷ [] else order

abbrev pub names_of : List PublicKey → List ℕ → List PublicKey
names_of names [] = []
names_of names (k ∷ ks) = name_at names k ∷ names_of names ks

-- The indices are moved in the source, and then read as names; here the names are moved.
unfoldable pub resolver_schedule : Committee → ℕ → View → List PublicKey
unfolding keys shuffle range move_last one_based
resolver_schedule c seed target =
    let names = keys c.authorities in
    let order = shuffle (length names - 1) seed (range 0 (length names)) in
    move_last (one_based c target) (names_of names order)

-- The source indexes the schedule, which holds every index; a missing name is no leader.
unfoldable pub resolution_leader : Config → View → ResolverView → Option PublicKey
unfolding resolver_schedule
resolution_leader cfg target view =
    let schedule = resolver_schedule cfg.committee (cfg.seed target) target in
    get_elem? schedule ((view - 1) % length schedule)

abbrev pub leads : Config → View → ResolverView → PublicKey → Bool
leads cfg target view name = elim (resolution_leader cfg target view) [
  | none ↦ false
  | some leader ↦ leader == name
]
