-- ===== src/Resolve/State.antt =====
-- primary/src/vantage/direct_resolution.rs: the state of the resolver, of one target and of one
-- resolver view.
use vantage_bft.Base.{ℕ, Option, none, List, []}
use vantage_bft.Base.Map.{Map}
use vantage_bft.Committee.{Committee, PublicKey, size}
use vantage_bft.Threshold.{from_party_count}
use vantage_bft.Agb.Types.{View, Digest, Manifest, ResolutionEntry}
use vantage_bft.Resolve.Types.{ResolverView, Suggest, Proof, Proposal}

pub record StatementRecord : Type 0 where
  pub value : Digest
  pub proposal_key_view : Option ResolverView
  pub origin : Option ℕ

pub data VoteStatus : Type 0 where
  unknown requested rejected rejected_permanently accepted : VoteStatus

pub data ReplayKind : Type 0 where
  suggest proof proposal echo key1 key2 key3 lock witness : ReplayKind

-- `DirectViewState`. The maps by phase are keyed by the phase's index.
pub record ResolverViewState : Type 0 where
  pub suggestions : Map Suggest
  pub proofs : Map Proof
  pub proposal : Option Proposal
  pub backing_sent : Option Digest
  pub backing_witnesses : Map Digest
  pub replayed_to : List (ReplayKind × PublicKey)
  pub vote_status : VoteStatus
  pub vote_origin : Option ℕ
  pub sent : Map Digest
  pub statements : Map (Map StatementRecord)

abbrev pub default_view : ResolverViewState
default_view = record {
  suggestions = [];
  proofs = [];
  proposal = none;
  backing_sent = none;
  backing_witnesses = [];
  replayed_to = [];
  vote_status = VoteStatus.unknown;
  vote_origin = none;
  sent = [];
  statements = [];
}

-- `DirectInstance`. The default digest is 0.
pub record Instance : Type 0 where
  pub own_wish : ResolverView
  pub wish_replayed_through : Map ResolverView
  pub entered_through : ResolverView
  pub current_view : ResolverView
  pub wishes : Map ResolverView
  pub views : Map ResolverViewState
  pub candidates : List ResolutionEntry
  pub next_candidate : Option ResolutionEntry
  pub key1_view : ResolverView
  pub key1_value : Digest
  pub prev_key1 : ResolverView
  pub key2_view : ResolverView
  pub key2_value : Digest
  pub prev_key2 : ResolverView
  pub key3_view : ResolverView
  pub key3_value : Digest
  pub lock_view : ResolverView
  pub lock_value : Digest
  pub done_sent : Option Digest
  pub done : Map Digest

abbrev pub new_instance : Instance
new_instance = record {
  own_wish = 0;
  wish_replayed_through = [];
  entered_through = 0;
  current_view = 0;
  wishes = [];
  views = [];
  candidates = [];
  next_candidate = none;
  key1_view = 0;
  key1_value = 0;
  prev_key1 = 0;
  key2_view = 0;
  key2_value = 0;
  prev_key2 = 0;
  key3_view = 0;
  key3_value = 0;
  lock_view = 0;
  lock_value = 0;
  done_sent = none;
  done = [];
}

-- The fields other than instances, decisions and the floor. Values are kept by target and then by
-- digest.
pub record Books : Type 0 where
  pub values : Map (Map ResolutionEntry)
  pub full_barred : List View
  pub done_replayed_to : Map (List PublicKey)
  pub admitted_through : View
  pub passive_wishes : Map (Map ResolverView)
  pub pending_fetch : Map (List Digest)
  pub fetch_requested : Map (List (Digest × PublicKey))
  pub fetch_answered : Map (List (Digest × PublicKey))

abbrev pub new_books : Books
new_books = record {
  values = [];
  full_barred = [];
  done_replayed_to = [];
  admitted_through = 0;
  passive_wishes = [];
  pending_fetch = [];
  fetch_requested = [];
  fetch_answered = [];
}

-- The fields that the handlers write.
pub record Resolver : Type 0 where
  pub instances : Map Instance
  pub decisions : Map (Digest × ResolutionEntry)
  pub retained_floor : View
  pub books : Books

abbrev pub new_resolver : Resolver
new_resolver = record { instances = []; decisions = []; retained_floor = 1; books = new_books }

-- The fields that `new` sets and nothing writes again. `digest` is the domain hash of an entry under
-- `sid`, `serialize` the bincode encoding of two manifests, and `seed` the first eight bytes of the
-- hash that seeds the schedule of a target. `fuel` bounds the nesting of `advance_view`.
pub record Config : Type 0 where
  pub name : PublicKey
  pub committee : Committee
  pub digest : ResolutionEntry → Digest
  pub serialize : Manifest → Manifest → List ℕ
  pub seed : View → ℕ
  pub delta : ℕ
  pub f_plus_1 : ℕ
  pub quorum : ℕ
  pub fuel : ℕ

unfoldable pub new_config :
    PublicKey
    → Committee
    → (ResolutionEntry → Digest)
    → (Manifest → Manifest → List ℕ)
    → (View → ℕ)
    → (delta_ms fuel : ℕ) → Config
unfolding size from_party_count
new_config name committee digest serialize seed delta_ms fuel =
    let thresholds = from_party_count (size committee) in
    record {
      name = name;
      committee = committee;
      digest = digest;
      serialize = serialize;
      seed = seed;
      delta = delta_ms;
      f_plus_1 = thresholds.f_plus_1_parties;
      quorum = thresholds.n_minus_f_parties;
      fuel = fuel;
    }
