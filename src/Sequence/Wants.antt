-- ===== src/Sequence/Wants.antt =====
-- primary/src/vantage/sequence.rs: what a transfer asks for, of whom, and what it has verified; and
-- the transfer as a machine that handles one message after another.
use vantage_bft.Base.{
  ℕ, zero, suc, ◌+◌, ◌-◌, ◌%◌, Option, none, some, List, [], ◌∷◌, length, min, max, is_empty,
  get_elem?, saturating_add, if◌then◌else◌,
}
use vantage_bft.Base.Map.{Map, lookup}
use mathlib.Core.Option.{map}
use vantage_bft.Committee.{PublicKey}
use vantage_bft.Agb.Types.{View, Digest}
use vantage_bft.Sequence.Hash.{ok, err, SequenceOutcome, SequenceRecord, Hashing, record_head}
use vantage_bft.Sequence.Chain.{DeltaVerifier}
use vantage_bft.Sequence.Transfer.{
  SequenceRecordChunk, SequenceDeltaChunk, SequenceDeltaRangeChunk, SequenceOutcomeServe,
  SequenceUnavailable, TransferState, SequenceTransfer, is_verified, first_missing, find_missing,
  first_missing_outcome, first_missing_delta, rotate, drop_source,
}
use vantage_bft.Sequence.Handlers.{
  on_records, on_outcomes, on_delta, on_delta_range, on_unavailable, Handled,
}

pub data SequenceWant : Type 0 where
  records : (from_view : View) → SequenceWant
  outcomes : (from_view : View) → SequenceWant
  deltas : (from_view : View) → (start_index : ℕ) → SequenceWant

abbrev next_index_of : Option DeltaVerifier → ℕ
next_index_of none = 0
next_index_of (some d) = d.next_index

unfoldable pub delta_want : Map DeltaVerifier → View → SequenceWant
unfolding lookup
delta_want flying view = SequenceWant.deltas view (next_index_of (lookup view flying))

abbrev map_wants : (View → SequenceWant) → List View → List SequenceWant
map_wants f [] = []
map_wants f (v ∷ vs) = f v ∷ map_wants f vs

abbrev to_list : Option SequenceWant → List SequenceWant
to_list none = []
to_list (some w) = w ∷ []

abbrev pub want_in : TransferState → SequenceTransfer → Option SequenceWant × SequenceTransfer
want_in TransferState.fetching_records t = (some (SequenceWant.records t.chain.next_view), t)
want_in TransferState.fetching_outcomes t =
    let (view, u) = first_missing_outcome t in (map SequenceWant.outcomes view, u)
want_in TransferState.fetching_deltas t =
    let (view, u) = first_missing_delta t in (map (delta_want t.delta_in_flight) view, u)
want_in state t = (none, t)

unfoldable pub want : SequenceTransfer → Option SequenceWant × SequenceTransfer
unfolding first_missing_outcome first_missing_delta delta_want
want t = want_in t.state t

-- The views after the first, each `span` or more behind the one before.
unfoldable pub spaced {ℓ} :
    {A : Type ℓ} → (left : ℕ) → (from span target : View) → Map SequenceRecord → Map A → List View
unfolding find_missing
spaced zero from span target verified have = []
spaced (suc left) from span target verified have =
    elim (find_missing ((target + 1) - from) from verified have) [
      | none ↦ []
      | some view ↦ view ∷ spaced left (saturating_add view span) span target verified have
    ]

abbrev spaced_after {ℓ} :
    {A : Type ℓ}
    → Option View
    → (count : ℕ) → (span target : View) → Map SequenceRecord
    → Map A
    → List View
spaced_after none count span target verified have = []
spaced_after (some view) count span target verified have =
    view ∷ spaced count (saturating_add view span) span target verified have

-- `missing_spaced`, with the cursor's new place.
unfoldable pub missing_spaced {ℓ} :
    {A : Type ℓ}
    → (cursor target span : View) → (count : ℕ) → Map SequenceRecord
    → Map A
    → List View × View
unfolding first_missing spaced
missing_spaced cursor target span count verified have =
    let (view, at) = first_missing target cursor verified have in
    (spaced_after view (max count 1 - 1) (max span 1) target verified have, at)

abbrev pub wants_in :
    TransferState
    → (count : ℕ) → (outcome_span delta_span : View) → SequenceTransfer
    → List SequenceWant × SequenceTransfer
wants_in TransferState.fetching_outcomes count outcome_span delta_span t =
    let (views, at) =
      missing_spaced t.outcome_scan_from t.target_view outcome_span count t.chain.verified
        t.outcomes in
    (map_wants SequenceWant.outcomes views, record t { outcome_scan_from = at })
wants_in TransferState.fetching_deltas count outcome_span delta_span t =
    let (views, at) =
      missing_spaced t.delta_scan_from t.target_view delta_span count t.chain.verified t.deltas in
    (map_wants (delta_want t.delta_in_flight) views, record t { delta_scan_from = at })
wants_in state count outcome_span delta_span t = let (w, u) = want t in (to_list w, u)

unfoldable pub wants :
    (count : ℕ)
    → (outcome_span delta_span : View) → SequenceTransfer
    → List SequenceWant × SequenceTransfer
unfolding want missing_spaced delta_want
wants count outcome_span delta_span t = wants_in t.state count outcome_span delta_span t

abbrev push_found : Option PublicKey → List PublicKey → List PublicKey
push_found none rest = rest
push_found (some s) rest = s ∷ rest

-- `(0..take).map(|i| sources[(cursor + i) % len])`; the index is in range.
unfoldable pub sources_from : (left : ℕ) → (at : ℕ) → List PublicKey → List PublicKey
sources_from zero at sources = []
sources_from (suc left) at sources =
    push_found (get_elem? sources (at % length sources)) (sources_from left (suc at) sources)

unfoldable pub next_sources : (count : ℕ) → SequenceTransfer → List PublicKey
unfolding sources_from
next_sources count t =
    if is_empty t.sources
    then []
    else sources_from (min (max count 1) (length t.sources)) t.cursor t.sources

unfoldable pub joined :
    Map SequenceOutcome → Map (List Digest) → List (View × SequenceOutcome × List Digest)
unfolding lookup
joined [] bodies = []
joined ((view, outcome) ∷ rest) bodies =
    let others = joined rest bodies in
    elim (lookup view bodies) [ none ↦ others | some delta ↦ (view, outcome, delta) ∷ others ]

unfoldable pub verified_output :
    SequenceTransfer → Option (List (View × SequenceOutcome × List Digest))
unfolding joined
verified_output t = if is_verified t then some (joined t.outcomes t.deltas) else none

module _ (h : Hashing) where
  unfoldable pub heads_from : (left : ℕ) → View → Map SequenceRecord → List (View × Digest)
  unfolding lookup record_head
  heads_from zero view verified = []
  heads_from (suc left) view verified =
      let others = heads_from left (suc view) verified in
      elim (lookup view verified) [ none ↦ others | some r ↦ (view, record_head h r) ∷ others ]

  unfoldable pub verified_heads : SequenceTransfer → Option (List (View × Digest))
  unfolding heads_from
  verified_heads t =
      if is_verified t then some (heads_from t.target_view 1 t.chain.verified) else none

-- The calls that the node makes of its transfer.
pub data Event : Type 0 where
  serves_records : SequenceRecordChunk → (from : PublicKey) → Event
  serves_outcomes : SequenceOutcomeServe → (from : PublicKey) → Event
  serves_delta : SequenceDeltaChunk → (from : PublicKey) → Event
  serves_deltas : SequenceDeltaRangeChunk → (from : PublicKey) → Event
  lacks : SequenceUnavailable → (from : PublicKey) → Event
  drops : (from : PublicKey) → Event
  rotates : Event
  asks : (count : ℕ) → (outcome_span delta_span : View) → Event

unfoldable pub handle : Hashing → Event → SequenceTransfer → Handled
handle h (Event.serves_records chunk from) t = on_records h chunk from t
handle h (Event.serves_outcomes serve from) t = on_outcomes h serve from t
handle h (Event.serves_delta chunk from) t = on_delta h chunk from t
handle h (Event.serves_deltas chunk from) t = on_delta_range h chunk from t
handle h (Event.lacks u from) t = (ok tt, on_unavailable u from t)
handle h (Event.drops from) t = (ok tt, drop_source from t)
handle h Event.rotates t = (ok tt, rotate t)
handle h (Event.asks count outcome_span delta_span) t =
    (ok tt, (wants count outcome_span delta_span t).1)

abbrev pub errors_in : Handled → ℕ
errors_in (ok done, t) = 0
errors_in (err error, t) = 1

-- The number of errors of a run, and the transfer at its end.
unfoldable pub run : Hashing → List Event → SequenceTransfer → ℕ × SequenceTransfer
unfolding handle
run h [] t = (0, t)
run h (e ∷ es) t = let r = handle h e t in let (n, u) = run h es r.1 in (errors_in r + n, u)
