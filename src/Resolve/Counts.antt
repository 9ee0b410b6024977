-- ===== src/Resolve/Counts.antt =====
-- primary/src/vantage/direct_resolution.rs: what a target's state says about its values. Counts,
-- winners, backing, locks and origins.
use vantage_bft.Base.{
  ℕ, ◌+◌, Bool, true, false, not, ◌&&◌, ◌||◌, Option, none, some, List, [], ◌∷◌, ltb, leb, ◌==◌,
  if◌then◌else◌,
}
use vantage_bft.Base.BTree
use vantage_bft.Base.Map
use vantage_bft.Base.Map.{Map, lookup}
use vantage_bft.Committee.{PublicKey}
use vantage_bft.Agb.Types.{Digest, ResolutionEntry}
use vantage_bft.Resolve.Types.{ResolverView, Phase, phase_index, Suggest, Proof, Proposal}
use vantage_bft.Resolve.State.{Config, Instance, ResolverViewState, StatementRecord}
use mathlib.Core.Option.{get_or}

-- `*counts.entry(value).or_default() += 1`
unfoldable pub count_up : Digest → Map ℕ → Map ℕ
unfolding BTree.insert lookup
count_up value counts = BTree.insert value (get_or (lookup value counts) 0 + 1) counts

unfoldable pub tally : Map Digest → Map ℕ
unfolding count_up
tally [] = []
tally ((sender, value) ∷ rest) = count_up value (tally rest)

-- The first value in the order of digests with a count that reaches the threshold.
unfoldable pub first_above : ℕ → Map ℕ → Option Digest
first_above threshold [] = none
first_above threshold ((value, n) ∷ rest) =
    let later = first_above threshold rest in if leb threshold n then some value else later

unfoldable pub winner : ℕ → Map Digest → Option Digest
unfolding tally first_above
winner threshold values = first_above threshold (tally values)

abbrev pub at_view {ℓ} : {A : Type ℓ} → ResolverView → A → (ResolverViewState → A) → Instance → A
at_view view d f i = elim (lookup view i.views) [ none ↦ d | some s ↦ f s ]

unfoldable pub backing_winner : ResolverView → ℕ → Instance → Option Digest
unfolding lookup winner
backing_winner view threshold i = at_view view none (λ s. winner threshold s.backing_witnesses) i

-- Some view has a quorum of witnesses of the value.
unfoldable pub backed_in : ℕ → Digest → Map ResolverViewState → Bool
unfolding Map.count
backed_in quorum value [] = false
backed_in quorum value ((view, s) ∷ rest) =
    leb quorum (Map.count (λ d. d == value) s.backing_witnesses) || backed_in quorum value rest

unfoldable pub is_backed : Config → Digest → Instance → Bool
unfolding backed_in
is_backed cfg value i = backed_in cfg.quorum value i.views

abbrev supports_key : ResolverView → ResolverView → Digest → Suggest → Bool
supports_key view key value s =
    ltb s.prev_key2 s.key2_view
    && ltb s.key2_view view
    && (leb key s.prev_key2 || (leb key s.key2_view && s.key2_value == value))

unfoldable pub accept_key : Config → ResolverView → ResolverView → Digest → Instance → Bool
unfolding lookup Map.count
accept_key cfg view key value i =
    if key == 0
    then true
    else at_view view false
        (λ s. leb cfg.f_plus_1 (Map.count (supports_key view key value) s.suggestions)) i

abbrev opens_lock : ResolverView → ResolverView → Digest → Proof → Bool
opens_lock view lock_view lock_value p =
    ltb p.prev_key1 p.key1_view
    && ltb p.key1_view view
    && (leb lock_view p.prev_key1
        || (leb lock_view p.key1_view && not (p.key1_value == lock_value)))

unfoldable pub open_lock : Config → ResolverView → Instance → Bool
unfolding lookup Map.count
open_lock cfg view i =
    at_view view false
      (λ s. leb cfg.f_plus_1 (Map.count (opens_lock view i.lock_view i.lock_value) s.proofs)) i

-- A vote of a phase: the proposal key of an echo, and the value. `None` stands before `Some`.
abbrev pub Ballot : Type 0
Ballot = Option ResolverView × Digest

abbrev pub key_eq : Option ResolverView → Option ResolverView → Bool
key_eq none none = true
key_eq none (some b) = false
key_eq (some a) none = false
key_eq (some a) (some b) = a == b

abbrev key_lt : Option ResolverView → Option ResolverView → Bool
key_lt none none = false
key_lt none (some b) = true
key_lt (some a) none = false
key_lt (some a) (some b) = ltb a b

abbrev pub ballot_eq : Ballot → Ballot → Bool
ballot_eq (k, v) (l, w) = key_eq k l && v == w

abbrev ballot_lt : Ballot → Ballot → Bool
ballot_lt (k, v) (l, w) = key_lt k l || (key_eq k l && ltb v w)

unfoldable pub count_ballot : Ballot → List (Ballot × ℕ) → List (Ballot × ℕ)
count_ballot b [] = (b, 1) ∷ []
count_ballot b ((c, n) ∷ rest) =
    let behind = count_ballot b rest in
    if ballot_eq c b
    then (c, n + 1) ∷ rest
    else if ballot_lt b c
    then (b, 1) ∷ (c, n) ∷ rest
    else (c, n) ∷ behind

abbrev pub ballot_of : Phase → StatementRecord → Ballot
ballot_of Phase.echo r = (r.proposal_key_view, r.value)
ballot_of phase r = (none, r.value)

-- With a proposal in hand only the echoes of its key and value count.
abbrev pub expected : Phase → Option Proposal → StatementRecord → Bool
expected Phase.echo (some p) r = key_eq r.proposal_key_view (some p.key_view) && r.value == p.value
expected phase p r = true

unfoldable pub ballots : Phase → Option Proposal → Map StatementRecord → List (Ballot × ℕ)
unfolding count_ballot
ballots phase p [] = []
ballots phase p ((sender, r) ∷ rest) =
    let counted = ballots phase p rest in
    if expected phase p r then count_ballot (ballot_of phase r) counted else counted

unfoldable pub first_ballot : ℕ → List (Ballot × ℕ) → Option Ballot
first_ballot threshold [] = none
first_ballot threshold ((b, n) ∷ rest) =
    let later = first_ballot threshold rest in if leb threshold n then some b else later

-- The statements of a phase in a view, where there are any.
abbrev pub statements_of : Phase → ResolverViewState → Map StatementRecord
statements_of phase s = get_or (lookup (phase_index phase) s.statements) []

unfoldable pub phase_winner : ResolverView → Phase → ℕ → Instance → Option Ballot
unfolding lookup ballots first_ballot
phase_winner view phase threshold i =
    at_view view none
      (λ s. first_ballot threshold (ballots phase s.proposal (statements_of phase s))) i

abbrev authors_in : Digest → Option ResolverView → Map StatementRecord → List PublicKey
authors_in value key [] = []
authors_in value key ((sender, r) ∷ rest) =
    let others = authors_in value key rest in
    if r.value == value && key_eq r.proposal_key_view key then sender ∷ others else others

unfoldable pub phase_authors :
    ResolverView → Phase → Digest → Option ResolverView → Instance → List PublicKey
unfolding lookup
phase_authors view phase value key i =
    at_view view [] (λ s. authors_in value key (statements_of phase s)) i

abbrev pub is_skip : ResolutionEntry → Bool
is_skip (ResolutionEntry.skip u) = true
is_skip e = false

abbrev is_origin : Digest → StatementRecord → Bool
is_origin value r =
    r.value == value && key_eq r.proposal_key_view (some 0) && key_eq r.origin (some 1)

abbrev origin_of : Config → Digest → ResolverViewState → Option Proposal → Bool
origin_of cfg value s none = false
origin_of cfg value s (some p) =
    if not (p.value == value)
    then false
    else if ltb 0 p.key_view || is_skip p.entry
    then true
    else leb cfg.f_plus_1 (Map.count (is_origin value) (statements_of Phase.echo s))

unfoldable pub fresh_origin_ok : Config → ResolverView → Digest → Instance → Bool
unfolding lookup Map.count
fresh_origin_ok cfg view value i = at_view view false (λ s. origin_of cfg value s s.proposal) i
