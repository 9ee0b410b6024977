-- ===== src/Sequence/Errors.antt =====
-- How many errors a run of a transfer makes (primary/src/vantage/sequence.rs, `SequenceTransfer`).
use vantage_bft.Base.{
  ℕ, ◌+◌, ◌*◌, ◌≤◌, ◌≡◌, if-cases, refl, true, not, ◌||◌, is_empty, List, [], ◌∷◌, length, member,
  arith, ◌==◌, if◌then◌else◌,
}
use vantage_bft.Base.Map.{lookup}
use vantage_bft.Committee.{PublicKey}
use vantage_bft.Agb.Types.{View, Digest}
use vantage_bft.Sequence.Hash.{ok, err, Hashing}
use vantage_bft.Sequence.Store.{SequenceDeltaEntry}
use vantage_bft.Sequence.Chain.{absorb_records}
use vantage_bft.Sequence.Transfer.{
  TransferState, SequenceTransfer, SequenceRecordChunk, SequenceDeltaChunk, SequenceDeltaRangeChunk,
  SequenceOutcomeServe, accepts, same_state, drop_source, rotate, new_transfer,
  first_missing_outcome, first_missing_delta,
}
use vantage_bft.Sequence.Handlers.{
  Handled, ◌and_then◌, fresh_records, records_absorbed, on_records, take_outcomes, outcomes_taken,
  on_outcomes, on_delta_entry, on_delta_entries, on_delta, on_delta_range, on_unavailable,
}
use vantage_bft.Sequence.Wants.{errors_in, want_in, want, wants_in, wants, Event, handle, run}
use vantage_bft.Sequence.Costs.{
  weight, SameSources, Spends, drop_source-weight, and_then-Spends, records_absorbed-Spends,
  take_outcomes-Spends, outcomes_taken-SameSources, entry_at-Spends, on_delta_entries-Spends,
}

-- A step costs the sources what errors it makes.
abbrev Costs : SequenceTransfer → Handled → Type 0
Costs t r = errors_in r + weight r.1.invalid r.1.sources ≤ weight t.invalid t.sources

same_weight :
    (t u : SequenceTransfer)
    → SameSources t u
    → weight u.invalid u.sources ≡ weight t.invalid t.sources
same_weight t u (a, b) = λ i. weight (b i) (a i)

Spends-Costs :
    (from : PublicKey) (t : SequenceTransfer) (r : Handled)
    → member from t.sources ≡ true
    → Spends from t r
    → Costs t r
Spends-Costs from t (ok x, u) m p = omega (arith, same_weight t u p)
Spends-Costs from t (err e, u) m p = omega (arith, p m)

guarded-Costs :
    (from : PublicKey) (id : ℕ) (head : Digest) (t : SequenceTransfer) (state : TransferState)
    (body : Handled)
    → Spends from t body
    → Costs t (
        if not (same_state t.state state) || not (accepts from id head t) then (ok tt, t) else body)
unfolding accepts
guarded-Costs from id head t state body p =
    if-cases (Costs t) (not (same_state t.state state) || not (accepts from id head t)) (ok tt, t)
      body (λ _. omega arith) λ e. Spends-Costs from t body (ground (arith, e)) p

want_in-SameSources :
    (state : TransferState) (t : SequenceTransfer) → SameSources t (want_in state t).1
unfolding first_missing_outcome first_missing_delta
want_in-SameSources TransferState.fetching_records t = (refl, refl)
want_in-SameSources TransferState.fetching_outcomes t = (refl, refl)
want_in-SameSources TransferState.fetching_deltas t = (refl, refl)
want_in-SameSources TransferState.verified t = (refl, refl)
want_in-SameSources TransferState.exhausted t = (refl, refl)

wants_in-SameSources :
    (state : TransferState) (count : ℕ) (os ds : View) (t : SequenceTransfer)
    → SameSources t (wants_in state count os ds t).1
unfolding want
wants_in-SameSources TransferState.fetching_records count os ds t = want_in-SameSources t.state t
wants_in-SameSources TransferState.fetching_outcomes count os ds t = (refl, refl)
wants_in-SameSources TransferState.fetching_deltas count os ds t = (refl, refl)
wants_in-SameSources TransferState.verified count os ds t = want_in-SameSources t.state t
wants_in-SameSources TransferState.exhausted count os ds t = want_in-SameSources t.state t

module _ (h : Hashing) where
  on_records-Costs :
      (chunk : SequenceRecordChunk) (from : PublicKey) (t : SequenceTransfer)
      → Costs t (on_records h chunk from t)
  unfolding on_records
  on_records-Costs chunk from t =
      let fresh = fresh_records t.chain.next_view t.target_view chunk.records in
      let absorbed = records_absorbed from t (absorb_records h fresh t.chain) in
      guarded-Costs from chunk.transfer_id chunk.target_head t TransferState.fetching_records
        (if is_empty fresh then (ok tt, t) else absorbed)
        (if-cases (Spends from t) (is_empty fresh) (ok tt, t) absorbed (λ _. (refl, refl))
          λ _. records_absorbed-Spends h from t (absorb_records h fresh t.chain))

  on_outcomes-Costs :
      (serve : SequenceOutcomeServe) (from : PublicKey) (t : SequenceTransfer)
      → Costs t (on_outcomes h serve from t)
  unfolding on_outcomes
  on_outcomes-Costs serve from t =
      guarded-Costs from serve.transfer_id serve.target_head t TransferState.fetching_outcomes
        (take_outcomes h serve.outcomes from t and_then λ u. (ok tt, outcomes_taken h u))
        (and_then-Spends from t (take_outcomes h serve.outcomes from t)
          (λ u. (ok tt, outcomes_taken h u)) (take_outcomes-Spends h serve.outcomes from t)
          (outcomes_taken-SameSources h))

  on_delta_range-Costs :
      (chunk : SequenceDeltaRangeChunk) (from : PublicKey) (t : SequenceTransfer)
      → Costs t (on_delta_range h chunk from t)
  unfolding on_delta_range
  on_delta_range-Costs chunk from t =
      guarded-Costs from chunk.transfer_id chunk.target_head t TransferState.fetching_deltas
        (on_delta_entries h chunk.entries from t) (on_delta_entries-Spends h chunk.entries from t)

  on_delta-Costs :
      (chunk : SequenceDeltaChunk) (from : PublicKey) (t : SequenceTransfer)
      → Costs t (on_delta h chunk from t)
  unfolding on_delta on_delta_entry
  on_delta-Costs chunk from t =
      let e : SequenceDeltaEntry = record {
        view = chunk.view;
        start_index = chunk.start_index;
        items = chunk.items;
        complete = chunk.complete;
      } in
      guarded-Costs from chunk.transfer_id chunk.target_head t TransferState.fetching_deltas
        (on_delta_entry h e from t) (entry_at-Spends h e from t (lookup e.view t.chain.verified))

  handle-Costs : (e : Event) (t : SequenceTransfer) → Costs t (handle h e t)
  unfolding handle wants on_unavailable rotate
  handle-Costs (Event.serves_records chunk from) t = on_records-Costs chunk from t
  handle-Costs (Event.serves_outcomes serve from) t = on_outcomes-Costs serve from t
  handle-Costs (Event.serves_delta chunk from) t = on_delta-Costs chunk from t
  handle-Costs (Event.serves_deltas chunk from) t = on_delta_range-Costs chunk from t
  handle-Costs (Event.lacks u from) t =
      if-cases (λ (w : SequenceTransfer). Costs t (ok tt, w))
        (not (u.transfer_id == t.transfer_id) || not (u.target_head == t.target_head)) t
        (drop_source from t) (λ _. omega arith) λ _. omega (arith, (drop_source-weight from t).0)
  handle-Costs (Event.drops from) t = omega (arith, (drop_source-weight from t).0)
  handle-Costs Event.rotates t =
      if-cases (λ (w : SequenceTransfer). Costs t (ok tt, w)) (is_empty t.sources) t _
        (λ _. omega arith) λ _. omega arith
  handle-Costs (Event.asks count os ds) t =
      omega (arith, same_weight t _ (wants_in-SameSources t.state count os ds t))

  run-weight :
      (es : List Event) (t : SequenceTransfer)
      → (run h es t).0 + weight (run h es t).1.invalid (run h es t).1.sources
        ≤ weight t.invalid t.sources
  unfolding run
  run-weight [] t = omega arith
  run-weight (e ∷ es) t = omega (arith, handle-Costs e t, run-weight es (handle h e t).1)

weight-length : (sources : List PublicKey) → weight [] sources ≡ 2 * length sources
unfolding lookup
weight-length [] = omega arith
weight-length (s ∷ sources) = omega (arith, weight-length sources)

-- Whatever the messages of a run from the start of a transfer are, at most twice as many of them are
-- errors as the transfer has sources.
pub run-max_errors :
    (h : Hashing) (id : ℕ) (base : View) (base_head : Digest) (target : View) (target_head : Digest)
    (sources : List PublicKey) (es : List Event)
    → (run h es (new_transfer id base base_head target target_head sources)).0 ≤ 2 * length sources
unfolding new_transfer
run-max_errors h id base base_head target target_head sources es =
    let t = new_transfer id base base_head target target_head sources in
    omega (arith, run-weight h es t, weight-length sources)
