-- ===== src/Sequence/Store.antt =====
-- primary/src/vantage/sequence.rs: the store of the record chain, and what it serves.
use vantage_bft.Base.{
  ℕ, zero, suc, ◌+◌, ◌-◌, ◌%◌, Bool, true, false, not, ◌&&◌, ◌||◌, Option, none, some, List, [],
  ◌∷◌, length, is_some, min, max, ltb, ◌==◌, saturating_add, if◌then◌else◌,
}
use vantage_bft.Base.BTree
use vantage_bft.Base.Map.{Map, lookup}
use vantage_bft.Agb.Types.{View, Digest}
use vantage_bft.Sequence.Hash.{
  Result, ok, err, sequence_version, SequenceOutcome, manifest_items, SequenceRecord, Hashing,
  delta_commitment, outcome_digest, genesis_head, record_head,
}

pub data SequenceError : Type 0 where
  out_of_order : (expected got : View) → SequenceError

-- The retained headers are a map of their own, since no other operation reads them.
pub record SequenceStore : Type 0 where
  pub interval : ℕ
  pub head : Digest
  pub next_view : View
  pub records : Map SequenceRecord
  pub boundaries : Map Digest
  pub outcomes : Map SequenceOutcome
  pub deltas : Map (List Digest)

-- `retain_verified_headers`, for headers given with their identifiers.
unfoldable pub retain_verified_headers {ℓ} : {H : Type ℓ} → List (Digest × H) → Map H → Map H
unfolding lookup BTree.insert
retain_verified_headers [] retained = retained
retain_verified_headers ((id, header) ∷ rest) retained =
    retain_verified_headers rest
      (if is_some (lookup id retained) then retained else BTree.insert id header retained)

abbrev pub last_key_value {ℓ} : {A : Type ℓ} → Map A → Option (ℕ × A)
last_key_value [] = none
last_key_value (e ∷ []) = some e
last_key_value (e ∷ f ∷ rest) = last_key_value (f ∷ rest)

abbrev pub drop {ℓ} : {A : Type ℓ} → ℕ → List A → List A
drop zero xs = xs
drop (suc n) [] = []
drop (suc n) (x ∷ xs) = drop n xs

abbrev pub take {ℓ} : {A : Type ℓ} → ℕ → List A → List A
take zero xs = []
take (suc n) [] = []
take (suc n) (x ∷ xs) = x ∷ take n xs

unfoldable pub is_boundary : (interval : ℕ) → View → Bool
is_boundary interval view = view % interval == 0

abbrev pub head_view : SequenceStore → View
head_view s = s.next_view - 1

-- The newest `limit` boundaries, in ascending order.
unfoldable pub recent_boundaries : ℕ → SequenceStore → Map Digest
recent_boundaries limit s = drop (length s.boundaries - limit) s.boundaries

module _ (h : Hashing) where
  unfoldable pub new_store : (interval : ℕ) → SequenceStore
  unfolding genesis_head
  new_store interval = record {
    interval = max interval 1;
    head = genesis_head h;
    next_view = 1;
    records = [];
    boundaries = [];
    outcomes = [];
    deltas = [];
  }

  unfoldable pub record_of :
      View → SequenceOutcome → List Digest → (previous : Digest) → SequenceRecord
  unfolding delta_commitment outcome_digest
  record_of view outcome delta previous =
      let (delta_len, delta_head) = delta_commitment h view delta in
      record {
        version = sequence_version;
        view = view;
        previous_head = previous;
        outcome_digest = outcome_digest h view outcome;
        delta_len = delta_len;
        delta_head = delta_head;
      }

  -- `record`, once the view is the next one.
  unfoldable pub append : View → SequenceOutcome → List Digest → SequenceStore → SequenceStore
  unfolding record_of record_head is_boundary BTree.insert
  append view outcome delta s =
      let r = record_of view outcome delta s.head in
      let head = record_head h r in
      record {
        interval = s.interval;
        head = head;
        next_view = view + 1;
        records = BTree.insert view r s.records;
        boundaries =
            if is_boundary s.interval view
            then BTree.insert view head s.boundaries
            else s.boundaries;
        outcomes = BTree.insert view outcome s.outcomes;
        deltas = BTree.insert view delta s.deltas;
      }

  -- `SequenceStore::record`
  unfoldable pub record_view :
      View
      → SequenceOutcome
      → List Digest
      → SequenceStore
      → Result SequenceError Digest × SequenceStore
  unfolding append
  record_view view outcome delta s =
      if not (view == s.next_view)
      then (err (SequenceError.out_of_order s.next_view view), s)
      else (let t = append view outcome delta s in (ok t.head, t))

  -- The store after calls of `record`, of which some may fail.
  unfoldable pub record_all :
      List (View × SequenceOutcome × List Digest) → SequenceStore → SequenceStore
  unfolding record_view
  record_all [] s = s
  record_all ((view, outcome, delta) ∷ rest) s =
      record_all rest (record_view view outcome delta s).1

-- `serve_floor`
unfoldable pub serve_floor : SequenceStore → View
serve_floor s = elim s.records [ [] ↦ s.next_view | ◌∷◌ r rest ↦ r.0 ]

-- `records_from`, over the map of records.
unfoldable pub records_from : View → (max : ℕ) → Map SequenceRecord → List SequenceRecord
unfolding lookup
records_from view zero records = []
records_from view (suc n) records =
    let rest = records_from (suc view) n records in
    elim (lookup view records) [ none ↦ [] | some r ↦ r ∷ rest ]

pub record SequenceOutcomeEntry : Type 0 where
  pub view : View
  pub outcome : SequenceOutcome

-- The loop of `outcomes_from`; `first` tells whether nothing is served yet.
unfoldable pub serve_outcomes :
    (max_views : ℕ)
    → View
    → (through : View) → (remaining : ℕ) → (first : Bool) → Map SequenceOutcome
    → List SequenceOutcomeEntry
unfolding lookup manifest_items
serve_outcomes zero view through remaining first outcomes = []
serve_outcomes (suc n) view through remaining first outcomes = elim (ltb through view) [
  | true ↦ []
  | false ↦ elim (lookup view outcomes) [
    | none ↦ []
    | some o ↦
        let items = manifest_items o in
        let rest =
          serve_outcomes n (saturating_add view 1) through (remaining - items) false outcomes in
        if not first && ltb remaining items
        then []
        else (record { view = view; outcome = o } ∷ (if view == through then [] else rest))
  ]
]

unfoldable pub outcomes_from :
    View → (through : View) → (max_views max_items : ℕ) → SequenceStore → List SequenceOutcomeEntry
unfolding serve_outcomes
outcomes_from view through max_views max_items s =
    serve_outcomes max_views view through max_items true s.outcomes

-- `delta[start..end]`
abbrev pub slice {ℓ} : {A : Type ℓ} → (start end : ℕ) → List A → List A
slice start end xs = take (end - start) (drop start xs)

unfoldable pub delta_chunk : View → (start max : ℕ) → SequenceStore → Option (List Digest × Bool)
unfolding lookup
delta_chunk view start max s = elim (lookup view s.deltas) [
  | none ↦ none
  | some delta ↦
      let end = min (length delta) (start + max) in
      if ltb (length delta) start then none else some (slice start end delta, end == length delta)
]

pub record SequenceDeltaEntry : Type 0 where
  pub view : View
  pub start_index : ℕ
  pub items : List Digest
  pub complete : Bool

-- The loop of `delta_entries_from`; `start` is the start in the view at hand.
unfoldable pub serve_deltas :
    (max_views : ℕ)
    → View
    → (start : ℕ) → (through : View) → (remaining : ℕ) → Map (List Digest)
    → List SequenceDeltaEntry
unfolding lookup
serve_deltas zero view start through remaining deltas = []
serve_deltas (suc n) view start through remaining deltas =
    elim (ltb through view || remaining == 0) [
      | true ↦ []
      | false ↦ elim (lookup view deltas) [
        | none ↦ []
        | some delta ↦
            let end = min (length delta) (start + remaining) in
            let items = slice start end delta in
            let rest =
              serve_deltas n (saturating_add view 1) 0 through (remaining - length items) deltas in
            if ltb (length delta) start
            then []
            else (record {
              view = view;
              start_index = start;
              items = items;
              complete = end == length delta;
            }
                ∷ (if not (end == length delta) || view == through then [] else rest))
      ]
    ]

unfoldable pub delta_entries_from :
    View
    → (start_index : ℕ) → (through : View) → (max_views max_items : ℕ) → SequenceStore
    → List SequenceDeltaEntry
unfolding serve_deltas
delta_entries_from view start through max_views max_items s =
    serve_deltas max_views view start through max_items s.deltas
