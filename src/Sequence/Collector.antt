-- ===== src/Sequence/Collector.antt =====
-- primary/src/vantage/sequence.rs: checkpoint announcements and the heads that they certify.
use vantage_bft.Base.{
  ℕ, Bool, false, not, Option, none, some, List, [], ◌∷◌, length, is_empty, is_none, member, max,
  ltb, leb, ◌==◌, saturating_add, if◌then◌else◌,
}
use vantage_bft.Base.BTree
use vantage_bft.Base.Map
use vantage_bft.Base.Map.{Map, lookup}
use vantage_bft.Committee.{PublicKey}
use vantage_bft.Agb.Types.{View, Digest}
use vantage_bft.Sequence.Hash.{sequence_version}
use mathlib.Core.Option.{get_or}

pub record SequenceAnnouncement : Type 0 where
  pub version : ℕ
  pub view : View
  pub head : Digest
  pub serve_floor : View
  pub sender : PublicKey

pub data IgnoreReason : Type 0 where
  sender_mismatch not_a_member version duplicate equivocation too_far_ahead : IgnoreReason

pub data AnnouncementOutcome : Type 0 where
  counted : (newly_certified : Bool) → AnnouncementOutcome
  ignored : IgnoreReason → AnnouncementOutcome

-- The first claims are kept by view and then by sender; a set of senders is a list.
pub record CheckpointCollector : Type 0 where
  pub threshold : ℕ
  pub max_candidate_views : ℕ
  pub future_view_slack : View
  pub candidates : Map (Map (List PublicKey))
  pub first_claim : Map (Map Digest)
  pub equivocators : List PublicKey
  pub certified : Map Digest

unfoldable pub new_collector : (threshold max_candidate_views : ℕ) → View → CheckpointCollector
new_collector threshold max_candidate_views slack = record {
  threshold = max threshold 1;
  max_candidate_views = max max_candidate_views 1;
  future_view_slack = slack;
  candidates = [];
  first_claim = [];
  equivocators = [];
  certified = [];
}

abbrev pub add : PublicKey → List PublicKey → List PublicKey
add k ks = if member k ks then ks else k ∷ ks

unfoldable pub without : PublicKey → List PublicKey → List PublicKey
without k [] = []
without k (j ∷ js) = let rest = without k js in if j == k then rest else j ∷ rest

-- The first claim of a sender for a view, and the senders of a head.
unfoldable pub claim_of : View → PublicKey → CheckpointCollector → Option Digest
unfolding lookup
claim_of view sender c = lookup sender (get_or (lookup view c.first_claim) [])

unfoldable pub supporters : View → Digest → Map (Map (List PublicKey)) → List PublicKey
unfolding lookup
supporters view head candidates = get_or (lookup head (get_or (lookup view candidates) [])) []

unfoldable pub support : View → Digest → CheckpointCollector → ℕ
unfolding supporters
support view head c = length (supporters view head c.candidates)

-- The sender removed from every head of a view, and the heads that keep a sender.
unfoldable pub retract_heads : PublicKey → Map (List PublicKey) → Map (List PublicKey)
unfolding without
retract_heads sender [] = []
retract_heads sender ((head, senders) ∷ rest) =
    let others = retract_heads sender rest in
    if is_empty (without sender senders) then others else (head, without sender senders) ∷ others

unfoldable pub retract_candidates :
    View → PublicKey → Map (Map (List PublicKey)) → Map (Map (List PublicKey))
unfolding lookup BTree.insert retract_heads
retract_candidates view sender candidates = elim (lookup view candidates) [
  | none ↦ candidates
  | some heads ↦ BTree.insert view (retract_heads sender heads) candidates
]

unfoldable pub retract_certified :
    (threshold : ℕ) → View → Map (Map (List PublicKey)) → Map Digest → Map Digest
unfolding lookup Map.remove supporters
retract_certified threshold view candidates certified = elim (lookup view certified) [
  | none ↦ certified
  | some head ↦
      if ltb (length (supporters view head candidates)) threshold
      then Map.remove view certified
      else certified
]

unfoldable pub retract : View → PublicKey → CheckpointCollector → CheckpointCollector
unfolding retract_candidates retract_certified
retract view sender c =
    let candidates = retract_candidates view sender c.candidates in
    record c {
      candidates = candidates;
      certified = retract_certified c.threshold view candidates c.certified;
    }

-- The loop of `evict_if_needed`, which drops lowest views with their claims.
unfoldable pub evict :
    (limit : ℕ)
    → Map (Map (List PublicKey))
    → Map (Map Digest)
    → Map (Map (List PublicKey)) × Map (Map Digest)
unfolding Map.remove
evict limit [] claims = ([], claims)
evict limit ((lowest, heads) ∷ rest) claims =
    let less = evict limit rest (Map.remove lowest claims) in
    if ltb limit (length ((lowest, heads) ∷ rest)) then less else ((lowest, heads) ∷ rest, claims)

unfoldable pub evict_if_needed : CheckpointCollector → CheckpointCollector
unfolding evict
evict_if_needed c =
    let (candidates, claims) = evict c.max_candidate_views c.candidates c.first_claim in
    record c { candidates = candidates; first_claim = claims }

-- The first claim, and the sender counted for its head.
unfoldable pub count_claim : View → Digest → PublicKey → CheckpointCollector → CheckpointCollector
unfolding lookup BTree.insert supporters
count_claim view head sender c = record c {
  first_claim =
      BTree.insert view (BTree.insert sender head (get_or (lookup view c.first_claim) []))
        c.first_claim;
  candidates =
      BTree.insert view
        (BTree.insert head (add sender (supporters view head c.candidates))
          (get_or (lookup view c.candidates) []))
        c.candidates;
}

unfoldable pub certify : View → Digest → CheckpointCollector → CheckpointCollector
unfolding BTree.insert
certify view head c = record c { certified = BTree.insert view head c.certified }

-- A claim that no guard has stopped.
unfoldable pub accept_claim :
    View → Digest → PublicKey → CheckpointCollector → AnnouncementOutcome × CheckpointCollector
unfolding count_claim support evict_if_needed certify lookup
accept_claim view head sender c =
    let d = count_claim view head sender c in
    let e = evict_if_needed d in
    if leb d.threshold (support view head d)
    then (AnnouncementOutcome.counted (is_none (lookup view e.certified)), certify view head e)
    else (AnnouncementOutcome.counted false, e)

unfoldable pub on_claim :
    View
    → Digest
    → PublicKey
    → Option Digest
    → CheckpointCollector
    → AnnouncementOutcome × CheckpointCollector
unfolding retract accept_claim member
on_claim view head sender (some previous) c =
    if previous == head then (AnnouncementOutcome.ignored IgnoreReason.duplicate, c) else (
      AnnouncementOutcome.ignored IgnoreReason.equivocation,
      retract view sender (record c { equivocators = add sender c.equivocators }),
    )
on_claim view head sender none c =
    if member sender c.equivocators
    then (AnnouncementOutcome.ignored IgnoreReason.equivocation, c)
    else accept_claim view head sender c

unfoldable pub on_announcement :
    SequenceAnnouncement
    → (authenticated_sender : PublicKey) → (is_member : Bool) → (local_view : View)
    → CheckpointCollector
    → AnnouncementOutcome × CheckpointCollector
unfolding on_claim claim_of
on_announcement a sender is_member local_view c =
    if not (a.version == sequence_version)
    then (AnnouncementOutcome.ignored IgnoreReason.version, c)
    else if not (a.sender == sender)
    then (AnnouncementOutcome.ignored IgnoreReason.sender_mismatch, c)
    else if not is_member
    then (AnnouncementOutcome.ignored IgnoreReason.not_a_member, c)
    else if ltb (saturating_add local_view c.future_view_slack) a.view
    then (AnnouncementOutcome.ignored IgnoreReason.too_far_ahead, c)
    else on_claim a.view a.head sender (claim_of a.view sender c) c

-- The highest certified view above a view.
unfoldable pub certified_head : View → Map Digest → Option (View × Digest)
certified_head above [] = none
certified_head above ((view, head) ∷ rest) = elim (certified_head above rest) [
  | some found ↦ some found
  | none ↦ if ltb above view then some (view, head) else none
]

abbrev pub announcers : View → Digest → CheckpointCollector → List PublicKey
announcers view head c = supporters view head c.candidates

abbrev pub equivocator_count : CheckpointCollector → ℕ
equivocator_count c = length c.equivocators

abbrev pub candidate_view_count : CheckpointCollector → ℕ
candidate_view_count c = length c.candidates
