-- ===== src/Resolve/Candidates.antt =====
-- primary/src/vantage/direct_resolution.rs: the candidates of a target, their canonical order and
-- their rotation.
use vantage_bft.Base.{
  ℕ, suc, ◌+◌, ◌-◌, ◌%◌, Bool, true, false, not, ◌&&◌, ◌||◌, Option, none, some, List, [], ◌∷◌,
  ◌++◌, length, get_elem?, ltb, ◌==◌, if◌then◌else◌,
}
use vantage_bft.Agb.Types.{ResolutionEntry}
use vantage_bft.Resolve.Types.{ResolverView}
use vantage_bft.Resolve.State.{Config, Instance}
use native.Mathlib.Decide.{ℕ_discrete}

pub ResolutionEntry-discrete : Discrete ResolutionEntry
ResolutionEntry-discrete = hlevel ℕ_discrete

abbrev pub decided : {P : Type 0} → Dec P → Bool
decided (yes p) = true
decided (no p) = false

-- The derived `==` of entries.
unfoldable pub entry_eq : ResolutionEntry → ResolutionEntry → Bool
unfolding ResolutionEntry-discrete ℕ_discrete
entry_eq a b = decided (ResolutionEntry-discrete a b)

-- The order of byte vectors.
unfoldable pub bytes_lt : List ℕ → List ℕ → Bool
bytes_lt [] [] = false
bytes_lt [] (y ∷ ys) = true
bytes_lt (x ∷ xs) [] = false
bytes_lt (x ∷ xs) (y ∷ ys) = ltb x y || (x == y && bytes_lt xs ys)

-- `canonical_entry_key`; `false` stands before `true`.
unfoldable pub canonical_entry_key : Config → ResolutionEntry → Bool × List ℕ × ℕ
canonical_entry_key cfg (ResolutionEntry.full u c t) = (false, cfg.serialize c t, 0)
canonical_entry_key cfg (ResolutionEntry.core u c t) = (false, cfg.serialize c t, 1)
canonical_entry_key cfg (ResolutionEntry.skip u) = (true, [], 2)

abbrev key_before : Bool × List ℕ × ℕ → Bool × List ℕ × ℕ → Bool
key_before (false, m, k) (true, n, l) = true
key_before (true, m, k) (false, n, l) = false
key_before (false, m, k) (false, n, l) = bytes_lt m n || (not (bytes_lt n m) && ltb k l)
key_before (true, m, k) (true, n, l) = bytes_lt m n || (not (bytes_lt n m) && ltb k l)

unfoldable pub before : Config → ResolutionEntry → ResolutionEntry → Bool
unfolding canonical_entry_key bytes_lt
before cfg a b = key_before (canonical_entry_key cfg a) (canonical_entry_key cfg b)

-- `sort_by_key`, which is stable.
unfoldable pub insert_candidate :
    Config → ResolutionEntry → List ResolutionEntry → List ResolutionEntry
unfolding before
insert_candidate cfg e [] = e ∷ []
insert_candidate cfg e (f ∷ fs) =
    let behind = insert_candidate cfg e fs in if before cfg f e then f ∷ behind else e ∷ f ∷ fs

unfoldable pub sort_candidates : Config → List ResolutionEntry → List ResolutionEntry
unfolding insert_candidate
sort_candidates cfg [] = []
sort_candidates cfg (e ∷ es) = insert_candidate cfg e (sort_candidates cfg es)

unfoldable pub contains : ResolutionEntry → List ResolutionEntry → Bool
unfolding entry_eq
contains e [] = false
contains e (f ∷ fs) = entry_eq f e || contains e fs

-- The entries that are not there yet, pushed one by one.
unfoldable pub push_new : List ResolutionEntry → List ResolutionEntry → List ResolutionEntry
unfolding contains
push_new [] known = known
push_new (e ∷ es) known = push_new es (if contains e known then known else known ++ e ∷ [])

abbrev pub is_full : ResolutionEntry → Bool
is_full (ResolutionEntry.full u c t) = true
is_full e = false

unfoldable pub eligible : (barred : Bool) → List ResolutionEntry → List ResolutionEntry
eligible barred [] = []
eligible barred (e ∷ es) =
    let rest = eligible barred es in if barred && is_full e then rest else e ∷ rest

abbrev pub position_from : ℕ → ResolutionEntry → List ResolutionEntry → Option ℕ
position_from n e [] = none
position_from n e (f ∷ fs) =
    let later = position_from (suc n) e fs in if entry_eq f e then some n else later

unfoldable pub position : ResolutionEntry → List ResolutionEntry → Option ℕ
unfolding entry_eq
position e es = position_from 0 e es

abbrev known_position : Option ResolutionEntry → List ResolutionEntry → Option ℕ
known_position none es = none
known_position (some e) es = position e es

abbrev or_turn : Option ℕ → ResolverView → ℕ → ℕ
or_turn (some k) view n = k
or_turn none view n = (view - 1) % n

unfoldable pub selected : ResolverView → Option ResolutionEntry → List ResolutionEntry → ℕ
unfolding position
selected view next es = or_turn (known_position next es) view (length es)

-- The chosen entry, and the one to try next.
unfoldable pub choose :
    ResolverView
    → Option ResolutionEntry
    → List ResolutionEntry
    → Option ResolutionEntry × Option ResolutionEntry
unfolding selected
choose view next [] = (none, next)
choose view next (e ∷ es) =
    let k = selected view next (e ∷ es) in
    (get_elem? (e ∷ es) k, get_elem? (e ∷ es) ((k + 1) % length (e ∷ es)))

unfoldable pub next_candidate_of :
    (barred : Bool) → ResolverView → Instance → Option ResolutionEntry × Instance
unfolding choose eligible
next_candidate_of barred view i =
    let (chosen, next) = choose view i.next_candidate (eligible barred i.candidates) in
    (chosen, record i { next_candidate = next })
