-- ===== src/Sequence/Handlers.antt =====
-- primary/src/vantage/sequence.rs: the messages that a transfer handles.
use vantage_bft.Base.{
  Bool, true, false, not, ◌&&◌, ◌||◌, Option, none, some, List, [], ◌∷◌, is_empty, is_some, is_none,
  ltb, leb, ◌==◌, if◌then◌else◌,
}
use vantage_bft.Base.BTree
use vantage_bft.Base.Map
use vantage_bft.Base.Map.{Map, lookup}
use vantage_bft.Committee.{PublicKey}
use vantage_bft.Agb.Types.{View}
use vantage_bft.Sequence.Hash.{Result, ok, err, SequenceRecord, Hashing}
use vantage_bft.Sequence.Store.{SequenceOutcomeEntry, SequenceDeltaEntry}
use vantage_bft.Sequence.Chain.{
  ChainError, ChainVerifier, DeltaVerifier, take_items, absorb_records, check_outcome, new_delta,
  absorb,
}
use mathlib.Core.Option.{get_or}
use vantage_bft.Sequence.Transfer.{
  SequenceRecordChunk, SequenceDeltaChunk, SequenceDeltaRangeChunk, SequenceOutcomeServe,
  SequenceUnavailable, TransferState, SequenceTransfer, first_missing_outcome, advance_if_done,
  same_state, accepts, drop_source, penalize,
}

-- The records from the next view through the target.
unfoldable pub fresh_records : (next target : View) → List SequenceRecord → List SequenceRecord
fresh_records next target [] = []
fresh_records next target (r ∷ rs) =
    let rest = fresh_records next target rs in
    if leb next r.view && leb r.view target then r ∷ rest else rest

abbrev pub Handled : Type 0
Handled = Result ChainError (Unit {0}) × SequenceTransfer

abbrev ignore : SequenceTransfer → Handled
ignore t = (ok tt, t)

-- What follows unless there is an error, as by `?`.
infixl 5 ◌and_then◌
abbrev pub ◌and_then◌ : Handled → (SequenceTransfer → Handled) → Handled
(ok done, t) and_then f = f t
(err error, t) and_then f = (err error, t)

unfoldable pub records_absorbed :
    PublicKey → SequenceTransfer → Result ChainError Bool × ChainVerifier → Handled
unfolding advance_if_done penalize
records_absorbed from t (ok true, v) =
    ignore (advance_if_done (record t { chain = v; state = TransferState.fetching_outcomes }))
records_absorbed from t (ok false, v) = ignore (record t { chain = v })
records_absorbed from t (err e, v) = (err e, penalize from (record t { chain = v }))

module _ (h : Hashing) where
  unfoldable pub on_records : SequenceRecordChunk → PublicKey → SequenceTransfer → Handled
  unfolding accepts fresh_records absorb_records records_absorbed
  on_records chunk from t =
      let fresh = fresh_records t.chain.next_view t.target_view chunk.records in
      if not (same_state t.state TransferState.fetching_records)
        || not (accepts from chunk.transfer_id chunk.target_head t)
      then ignore t
      else if is_empty fresh
      then ignore t
      else records_absorbed from t (absorb_records h fresh t.chain)

  -- An outcome whose check has come to a result.
  unfoldable pub outcome_checked :
      SequenceOutcomeEntry → PublicKey → SequenceTransfer → Result ChainError (Unit {0}) → Handled
  unfolding penalize BTree.insert
  outcome_checked e from t (err error) = (err error, penalize from t)
  outcome_checked e from t (ok u) =
      ignore (record t { outcomes = BTree.insert e.view e.outcome t.outcomes })

  -- One outcome, when the loop gets to it.
  unfoldable pub take_outcome : SequenceOutcomeEntry → PublicKey → SequenceTransfer → Handled
  unfolding lookup check_outcome outcome_checked
  take_outcome e from t =
      if is_some (lookup e.view t.outcomes) || is_none (lookup e.view t.chain.verified)
      then ignore t
      else outcome_checked e from t (check_outcome h e.view e.outcome t.chain)

  unfoldable pub take_outcomes : List SequenceOutcomeEntry → PublicKey → SequenceTransfer → Handled
  unfolding take_outcome
  take_outcomes [] from t = ignore t
  take_outcomes (e ∷ es) from t = take_outcome e from t and_then take_outcomes es from

  unfoldable pub outcomes_taken : SequenceTransfer → SequenceTransfer
  unfolding first_missing_outcome advance_if_done
  outcomes_taken t =
      let (missing, u) = first_missing_outcome t in
      if is_none missing
      then advance_if_done (record u { state = TransferState.fetching_deltas })
      else u

  unfoldable pub on_outcomes : SequenceOutcomeServe → PublicKey → SequenceTransfer → Handled
  unfolding accepts take_outcomes outcomes_taken
  on_outcomes serve from t =
      if not (same_state t.state TransferState.fetching_outcomes)
        || not (accepts from serve.transfer_id serve.target_head t)
      then ignore t
      else (take_outcomes serve.outcomes from t and_then λ u. ignore (outcomes_taken u))

  -- A delta that is complete; `absorb` has just said so.
  unfoldable pub finish_delta : View → DeltaVerifier → SequenceTransfer → SequenceTransfer
  unfolding Map.remove BTree.insert advance_if_done
  finish_delta view d t = elim (take_items d) [
    | none ↦ t
    | some items ↦ advance_if_done (record t {
      delta_in_flight = Map.remove view t.delta_in_flight;
      deltas = BTree.insert view items t.deltas;
    })
  ]

  unfoldable pub delta_absorbed :
      View → PublicKey → SequenceTransfer → Result ChainError Bool × DeltaVerifier → Handled
  unfolding finish_delta BTree.insert Map.remove penalize
  delta_absorbed view from t (ok true, d) = ignore (finish_delta view d t)
  delta_absorbed view from t (ok false, d) =
      ignore (record t { delta_in_flight = BTree.insert view d t.delta_in_flight })
  delta_absorbed view from t (err e, d) =
      (err e, penalize from (record t { delta_in_flight = Map.remove view t.delta_in_flight }))

  -- The delta of a view in flight, or a new one.
  unfoldable pub delta_at : View → SequenceRecord → Map DeltaVerifier → DeltaVerifier
  unfolding lookup new_delta
  delta_at view r flying = get_or (lookup view flying) (new_delta h view r)

  -- An entry, with the verified record of its view if there is one.
  unfoldable pub entry_at :
      SequenceDeltaEntry → PublicKey → SequenceTransfer → Option SequenceRecord → Handled
  unfolding lookup delta_at absorb delta_absorbed new_delta
  entry_at e from t none = ignore t
  entry_at e from t (some r) =
      if is_some (lookup e.view t.deltas)
        || ltb e.start_index (delta_at e.view r t.delta_in_flight).next_index
      then ignore t
      else delta_absorbed e.view from t
          (absorb h e.start_index e.items (delta_at e.view r t.delta_in_flight))

  unfoldable pub on_delta_entry : SequenceDeltaEntry → PublicKey → SequenceTransfer → Handled
  unfolding lookup entry_at
  on_delta_entry e from t = entry_at e from t (lookup e.view t.chain.verified)

  unfoldable pub on_delta_entries : List SequenceDeltaEntry → PublicKey → SequenceTransfer → Handled
  unfolding on_delta_entry
  on_delta_entries [] from t = ignore t
  on_delta_entries (e ∷ es) from t = on_delta_entry e from t and_then on_delta_entries es from

  unfoldable pub on_delta_range : SequenceDeltaRangeChunk → PublicKey → SequenceTransfer → Handled
  unfolding accepts on_delta_entries
  on_delta_range chunk from t =
      if not (same_state t.state TransferState.fetching_deltas)
        || not (accepts from chunk.transfer_id chunk.target_head t)
      then ignore t
      else on_delta_entries chunk.entries from t

  unfoldable pub on_delta : SequenceDeltaChunk → PublicKey → SequenceTransfer → Handled
  unfolding accepts on_delta_entry
  on_delta chunk from t =
      if not (same_state t.state TransferState.fetching_deltas)
        || not (accepts from chunk.transfer_id chunk.target_head t)
      then ignore t
      else on_delta_entry
          (record {
            view = chunk.view;
            start_index = chunk.start_index;
            items = chunk.items;
            complete = chunk.complete;
          })
          from t

unfoldable pub on_unavailable :
    SequenceUnavailable → PublicKey → SequenceTransfer → SequenceTransfer
unfolding drop_source
on_unavailable u from t =
    if not (u.transfer_id == t.transfer_id) || not (u.target_head == t.target_head)
    then t
    else drop_source from t
