-- ===== src/Sequence/Transfer.antt =====
-- primary/src/vantage/sequence.rs: the download of one certified target from its announcers.
use vantage_bft.Base.{
  ℕ, zero, suc, ◌+◌, ◌-◌, ◌%◌, Bool, true, false, not, ◌&&◌, Option, none, some, List, [], ◌∷◌,
  length, is_empty, is_some, is_none, member, ltb, leb, ◌==◌, if◌then◌else◌,
}
use vantage_bft.Base.BTree
use vantage_bft.Base.Map.{Map, lookup}
use vantage_bft.Committee.{PublicKey}
use vantage_bft.Agb.Types.{View, Digest}
use vantage_bft.Sequence.Hash.{SequenceOutcome, SequenceRecord}
use vantage_bft.Sequence.Store.{SequenceOutcomeEntry, SequenceDeltaEntry}
use vantage_bft.Sequence.Chain.{ChainVerifier, new_chain, DeltaVerifier}
use mathlib.Core.Option.{get_or}

pub record SequenceRecordChunk : Type 0 where
  pub version : ℕ
  pub transfer_id : ℕ
  pub target_head : Digest
  pub records : List SequenceRecord
  pub serve_floor : View
  pub sender : PublicKey

pub record SequenceDeltaChunk : Type 0 where
  pub version : ℕ
  pub transfer_id : ℕ
  pub target_head : Digest
  pub view : View
  pub start_index : ℕ
  pub items : List Digest
  pub complete : Bool
  pub sender : PublicKey

pub record SequenceDeltaRangeChunk : Type 0 where
  pub version : ℕ
  pub transfer_id : ℕ
  pub target_head : Digest
  pub entries : List SequenceDeltaEntry
  pub sender : PublicKey

pub record SequenceOutcomeServe : Type 0 where
  pub version : ℕ
  pub transfer_id : ℕ
  pub target_head : Digest
  pub outcomes : List SequenceOutcomeEntry
  pub sender : PublicKey

pub record SequenceUnavailable : Type 0 where
  pub version : ℕ
  pub transfer_id : ℕ
  pub target_head : Digest
  pub serve_floor : View
  pub sender : PublicKey

pub data TransferState : Type 0 where
  fetching_records fetching_outcomes fetching_deltas verified exhausted : TransferState

abbrev pub max_invalid_per_source : ℕ
max_invalid_per_source = 2

pub record SequenceTransfer : Type 0 where
  pub transfer_id : ℕ
  pub target_view : View
  pub target_head : Digest
  pub sources : List PublicKey
  pub cursor : ℕ
  pub invalid : Map ℕ
  pub chain : ChainVerifier
  pub outcomes : Map SequenceOutcome
  pub deltas : Map (List Digest)
  pub delta_in_flight : Map DeltaVerifier
  pub outcome_scan_from : View
  pub delta_scan_from : View
  pub state : TransferState

unfoldable pub new_transfer :
    (transfer_id : ℕ)
    → (base_view : View) → (base_head : Digest) → (target_view : View) → (target_head : Digest)
    → List PublicKey
    → SequenceTransfer
unfolding new_chain
new_transfer transfer_id base_view base_head target_view target_head sources = record {
  transfer_id = transfer_id;
  target_view = target_view;
  target_head = target_head;
  sources = sources;
  cursor = 0;
  invalid = [];
  chain = new_chain base_view base_head target_view target_head;
  outcomes = [];
  deltas = [];
  delta_in_flight = [];
  outcome_scan_from = 1;
  delta_scan_from = 1;
  state = if is_empty sources then TransferState.exhausted else TransferState.fetching_records;
}

-- The loop of `first_missing`, for as many views as are left: a view whose body is missing, if the
-- loop returns one, and the cursor.
unfoldable pub walk {ℓ} :
    {A : Type ℓ} → (left : ℕ) → View → Map SequenceRecord → Map A → Option View × View
unfolding lookup
walk zero view records have = (none, view)
walk (suc left) view records have =
    let next = walk left (suc view) records have in
    if is_none (lookup view records)
    then (none, view)
    else if is_none (lookup view have)
    then (some view, view)
    else next

-- The first view from `view` on with a verified record and no body.
unfoldable pub find_missing {ℓ} :
    {A : Type ℓ} → (left : ℕ) → View → Map SequenceRecord → Map A → Option View
unfolding lookup
find_missing zero view records have = none
find_missing (suc left) view records have =
    let later = find_missing left (suc view) records have in
    if is_some (lookup view records) && is_none (lookup view have) then some view else later

-- What follows the loop, where it has returned no view.
abbrev pub scan_on {ℓ} :
    {A : Type ℓ}
    → (target : View) → Map SequenceRecord
    → Map A
    → Option View × View
    → Option View × View
scan_on target records have (some view, at) = (some view, at)
scan_on target records have (none, at) = (find_missing ((target + 1) - at) at records have, at)

unfoldable pub first_missing {ℓ} :
    {A : Type ℓ} → (target cursor : View) → Map SequenceRecord → Map A → Option View × View
unfolding walk find_missing
first_missing target cursor records have =
    scan_on target records have (walk ((target + 1) - cursor) cursor records have)

unfoldable pub first_missing_outcome : SequenceTransfer → Option View × SequenceTransfer
unfolding first_missing
first_missing_outcome t =
    let (view, at) = first_missing t.target_view t.outcome_scan_from t.chain.verified t.outcomes in
    (view, record t { outcome_scan_from = at })

unfoldable pub first_missing_delta : SequenceTransfer → Option View × SequenceTransfer
unfolding first_missing
first_missing_delta t =
    let (view, at) = first_missing t.target_view t.delta_scan_from t.chain.verified t.deltas in
    (view, record t { delta_scan_from = at })

unfoldable pub verify_if : Bool → SequenceTransfer → SequenceTransfer
verify_if done t = if done then record t { state = TransferState.verified } else t

-- `advance_if_done`. The second scan runs where the first finds nothing.
unfoldable pub advance_if_done : SequenceTransfer → SequenceTransfer
unfolding first_missing_outcome first_missing_delta verify_if
advance_if_done t =
    let (outcome, u) = first_missing_outcome t in
    let (delta, w) = first_missing_delta u in
    if not t.chain.complete then t else if is_some outcome then u else verify_if (is_none delta) w

abbrev pub same_state : TransferState → TransferState → Bool
same_state TransferState.fetching_records TransferState.fetching_records = true
same_state TransferState.fetching_outcomes TransferState.fetching_outcomes = true
same_state TransferState.fetching_deltas TransferState.fetching_deltas = true
same_state TransferState.verified TransferState.verified = true
same_state TransferState.exhausted TransferState.exhausted = true
same_state a b = false

abbrev pub is_verified : SequenceTransfer → Bool
is_verified t = same_state t.state TransferState.verified

unfoldable pub accepts : PublicKey → (transfer_id : ℕ) → Digest → SequenceTransfer → Bool
unfolding member
accepts from transfer_id head t =
    transfer_id == t.transfer_id && head == t.target_head && member from t.sources

abbrev one_further : Option ℕ → Option ℕ
one_further none = none
one_further (some k) = some (suc k)

-- The index of the source, and the sources without it.
unfoldable pub position : PublicKey → List PublicKey → Option ℕ
position from [] = none
position from (s ∷ rest) =
    let behind = one_further (position from rest) in if s == from then some 0 else behind

unfoldable pub remove_source : PublicKey → List PublicKey → List PublicKey
remove_source from [] = []
remove_source from (s ∷ rest) =
    let others = s ∷ remove_source from rest in if s == from then rest else others

abbrev cursor_after : Option ℕ → ℕ → ℕ
cursor_after none cursor = cursor
cursor_after (some index) cursor = if ltb index cursor then cursor - 1 else cursor

unfoldable pub drop_source : PublicKey → SequenceTransfer → SequenceTransfer
unfolding position remove_source
drop_source from t =
    let sources = remove_source from t.sources in
    let cursor = cursor_after (position from t.sources) t.cursor in
    if is_empty sources
    then record t { sources = sources; cursor = cursor; state = TransferState.exhausted }
    else record t { sources = sources; cursor = cursor % length sources }

unfoldable pub rotate : SequenceTransfer → SequenceTransfer
rotate t = if is_empty t.sources then t else record t { cursor = (t.cursor + 1) % length t.sources }

unfoldable pub penalize : PublicKey → SequenceTransfer → SequenceTransfer
unfolding lookup BTree.insert drop_source
penalize from t =
    let n = get_or (lookup from t.invalid) 0 + 1 in
    let u = record t { invalid = BTree.insert from n t.invalid } in
    if leb max_invalid_per_source n then drop_source from u else u
