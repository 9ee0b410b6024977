-- ===== src/Sequence/Costs.antt =====
-- How many errors a transfer makes (primary/src/vantage/sequence.rs, `penalize`).
use vantage_bft.Base.{
  ℕ, suc, ◌+◌, ◌≤◌, ◌≡◌, if-cases, refl, ap, subst, ◌∙◌, Bool, true, false, not, ◌||◌, Option, none,
  some, is_some, is_none, is_empty, List, [], ◌∷◌, member, arith, ltb, leb, ◌==◌, if◌then◌else◌,
}
use vantage_bft.Base.BTree
use vantage_bft.Base.Map
use vantage_bft.Base.Map.{Map, lookup}
use vantage_bft.Committee.{PublicKey}
use vantage_bft.Agb.Types.{View, Digest}
use vantage_bft.Sequence.Hash.{Result, ok, err, Hashing, SequenceRecord}
use vantage_bft.Sequence.Store.{SequenceOutcomeEntry, SequenceDeltaEntry}
use vantage_bft.Sequence.Chain.{
  ChainError, ChainVerifier, DeltaVerifier, delta_is_complete, check_outcome, absorb,
}
use vantage_bft.Sequence.Transfer.{
  TransferState, SequenceTransfer, remove_source, drop_source, max_invalid_per_source, penalize,
  advance_if_done, first_missing_outcome, first_missing_delta, verify_if,
}
use vantage_bft.Sequence.Handlers.{
  Handled, ◌and_then◌, records_absorbed, take_outcome, take_outcomes, outcome_checked,
  outcomes_taken, delta_absorbed, finish_delta, delta_at, entry_at, on_delta_entry,
  on_delta_entries,
}
use mathlib.Core.Option.{get_or}

abbrev count_of : Map ℕ → PublicKey → ℕ
count_of invalid s = get_or (lookup s invalid) 0

-- The errors that the sources have left, of which each has two.
abbrev pub weight : Map ℕ → List PublicKey → ℕ
weight invalid [] = 0
weight invalid (s ∷ rest) = (if count_of invalid s == 0 then 2 else 1) + weight invalid rest

remove_source-weight :
    (from : PublicKey) (invalid : Map ℕ) (sources : List PublicKey)
    → (weight invalid (remove_source from sources) ≤ weight invalid sources)
      × (member from sources ≡ true
          → suc (weight invalid (remove_source from sources)) ≤ weight invalid sources)
unfolding remove_source member
remove_source-weight from invalid [] = (omega arith, λ m. ground (arith, m))
remove_source-weight from invalid (s ∷ rest) =
    let (a, b) = remove_source-weight from invalid rest in
    (ground (arith, a), λ m. ground (arith, a, b, m))

insert-weight :
    (from : PublicKey) (n : ℕ) (invalid : Map ℕ) (sources : List PublicKey)
    → 1 ≤ n
    → (weight (BTree.insert from n invalid) sources ≤ weight invalid sources)
      × (member from sources ≡ true
          → count_of invalid from ≡ 0
          → suc (weight (BTree.insert from n invalid) sources) ≤ weight invalid sources)
unfolding member
insert-weight from n invalid [] l = (omega arith, λ m. ground (arith, m))
insert-weight from n invalid (s ∷ rest) l =
    let (a, b) = insert-weight from n invalid rest l in
    let c = BTree.lookup-insert from s n invalid in
    (ground (arith, a, c, l), λ m z. ground (arith, a, b, c, l, m, z))

pub drop_source-weight :
    (from : PublicKey) (t : SequenceTransfer)
    → (weight (drop_source from t).invalid (drop_source from t).sources
        ≤ weight t.invalid t.sources)
      × (member from t.sources ≡ true
          → suc (weight (drop_source from t).invalid (drop_source from t).sources)
            ≤ weight t.invalid t.sources)
unfolding drop_source
drop_source-weight from t =
    if-cases
      (λ (u : SequenceTransfer).
        (weight u.invalid u.sources ≤ weight t.invalid t.sources)
        × (member from t.sources ≡ true
            → suc (weight u.invalid u.sources) ≤ weight t.invalid t.sources))
      (is_empty (remove_source from t.sources)) _ _
      (λ _. remove_source-weight from t.invalid t.sources)
      λ _. remove_source-weight from t.invalid t.sources

penalize-weight :
    (from : PublicKey) (t : SequenceTransfer)
    → member from t.sources ≡ true
    → suc (weight (penalize from t).invalid (penalize from t).sources) ≤ weight t.invalid t.sources
unfolding penalize
penalize-weight from t m =
    let n = count_of t.invalid from + 1 in
    let u : SequenceTransfer = record t { invalid = BTree.insert from n t.invalid } in
    let (a, b) = insert-weight from n t.invalid t.sources (omega arith) in
    let (c, d) = drop_source-weight from u in
    if-cases
      (λ (w : SequenceTransfer). suc (weight w.invalid w.sources) ≤ weight t.invalid t.sources)
      (leb max_invalid_per_source n) (drop_source from u) u (λ _. omega (arith, a, d m))
      λ e. b m (ground (arith, e))

-- A step that makes no error leaves the sources alone, and an error of a source costs.
abbrev pub Spends : PublicKey → SequenceTransfer → Handled → Type 0
Spends from t (ok x, u) = (u.sources ≡ t.sources) × (u.invalid ≡ t.invalid)
Spends from t (err e, u) =
    member from t.sources ≡ true → suc (weight u.invalid u.sources) ≤ weight t.invalid t.sources

-- The sources and their errors, which most steps leave alone.
abbrev pub SameSources : SequenceTransfer → SequenceTransfer → Type 0
SameSources t u = (u.sources ≡ t.sources) × (u.invalid ≡ t.invalid)

Spends-after :
    (from : PublicKey) (t u : SequenceTransfer) (r : Handled)
    → SameSources t u
    → Spends from u r
    → Spends from t r
Spends-after from t u (ok x, w) (a, b) (c, d) = (c ∙ a, d ∙ b)
Spends-after from t u (err e, w) (a, b) p = λ m.
    subst (λ k. suc (weight w.invalid w.sources) ≤ k) (λ i. weight (b i) (a i))
      (p (ap (member from) a ∙ m))

pub and_then-Spends :
    (from : PublicKey) (t : SequenceTransfer) (r : Handled) (f : SequenceTransfer → Handled)
    → Spends from t r
    → ((u : SequenceTransfer) → Spends from u (f u))
    → Spends from t (r and_then f)
and_then-Spends from t (err e, u) f p q = p
and_then-Spends from t (ok x, u) f p q = Spends-after from t u (f u) p (q u)

advance_if_done-SameSources : (t : SequenceTransfer) → SameSources t (advance_if_done t)
unfolding advance_if_done first_missing_outcome first_missing_delta verify_if
advance_if_done-SameSources t =
    let o = first_missing_outcome t in
    let d = first_missing_delta o.1 in
    if-cases (SameSources t) (not t.chain.complete) t _ (λ _. (refl, refl))
      λ _.
        if-cases (SameSources t) (is_some o.0) o.1 _ (λ _. (refl, refl))
          λ _. if-cases (SameSources t) (is_none d.0) _ _ (λ _. (refl, refl)) λ _. (refl, refl)

module _ (h : Hashing) where
  pub records_absorbed-Spends :
      (from : PublicKey) (t : SequenceTransfer) (result : Result ChainError Bool × ChainVerifier)
      → Spends from t (records_absorbed from t result)
  unfolding records_absorbed
  records_absorbed-Spends from t (ok true, v) =
      advance_if_done-SameSources (record t { chain = v; state = TransferState.fetching_outcomes })
  records_absorbed-Spends from t (ok false, v) = (refl, refl)
  records_absorbed-Spends from t (err e, v) = penalize-weight from (record t { chain = v })

  outcome_checked-Spends :
      (e : SequenceOutcomeEntry) (from : PublicKey) (t : SequenceTransfer)
      (result : Result ChainError (Unit {0}))
      → Spends from t (outcome_checked h e from t result)
  unfolding outcome_checked
  outcome_checked-Spends e from t (ok x) = (refl, refl)
  outcome_checked-Spends e from t (err error) = penalize-weight from t

  pub take_outcomes-Spends :
      (es : List SequenceOutcomeEntry) (from : PublicKey) (t : SequenceTransfer)
      → Spends from t (take_outcomes h es from t)
  unfolding take_outcomes take_outcome
  take_outcomes-Spends [] from t = (refl, refl)
  take_outcomes-Spends (e ∷ es) from t =
      and_then-Spends from t (take_outcome h e from t) (take_outcomes h es from)
        (if-cases (Spends from t)
          (is_some (lookup e.view t.outcomes) || is_none (lookup e.view t.chain.verified))
          (ok tt, t) (outcome_checked h e from t (check_outcome h e.view e.outcome t.chain))
          (λ _. (refl, refl))
          λ _. outcome_checked-Spends e from t (check_outcome h e.view e.outcome t.chain))
        (take_outcomes-Spends es from)

  pub outcomes_taken-SameSources : (t : SequenceTransfer) → SameSources t (outcomes_taken h t)
  unfolding outcomes_taken first_missing_outcome
  outcomes_taken-SameSources t =
      let u = first_missing_outcome t in
      if-cases (SameSources t) (is_none u.0) _ _
        (λ _. advance_if_done-SameSources (record u.1 { state = TransferState.fetching_deltas }))
        λ _. (refl, refl)

  delta_absorbed-Spends :
      (u : View) (from : PublicKey) (t : SequenceTransfer)
      (result : Result ChainError Bool × DeltaVerifier)
      → Spends from t (delta_absorbed h u from t result)
  unfolding delta_absorbed finish_delta
  delta_absorbed-Spends u from t (ok true, d) =
      if-cases
        (λ (o : Option (List Digest)). SameSources t (elim o [
          | none ↦ t
          | some items ↦ advance_if_done (record t {
            delta_in_flight = Map.remove u t.delta_in_flight;
            deltas = BTree.insert u items t.deltas;
          })
        ]))
        (delta_is_complete d) (some d.items) none
        (λ _. advance_if_done-SameSources (record t {
          delta_in_flight = Map.remove u t.delta_in_flight;
          deltas = BTree.insert u d.items t.deltas;
        }))
        λ _. (refl, refl)
  delta_absorbed-Spends u from t (ok false, d) = (refl, refl)
  delta_absorbed-Spends u from t (err e, d) =
      penalize-weight from (record t { delta_in_flight = Map.remove u t.delta_in_flight })

  pub entry_at-Spends :
      (e : SequenceDeltaEntry) (from : PublicKey) (t : SequenceTransfer)
      (found : Option SequenceRecord)
      → Spends from t (entry_at h e from t found)
  unfolding entry_at
  entry_at-Spends e from t none = (refl, refl)
  entry_at-Spends e from t (some r) =
      let d = delta_at h e.view r t.delta_in_flight in
      let result = absorb h e.start_index e.items d in
      if-cases (Spends from t) (is_some (lookup e.view t.deltas) || ltb e.start_index d.next_index)
        (ok tt, t) (delta_absorbed h e.view from t result) (λ _. (refl, refl))
        λ _. delta_absorbed-Spends e.view from t result

  pub on_delta_entries-Spends :
      (es : List SequenceDeltaEntry) (from : PublicKey) (t : SequenceTransfer)
      → Spends from t (on_delta_entries h es from t)
  unfolding on_delta_entries on_delta_entry
  on_delta_entries-Spends [] from t = (refl, refl)
  on_delta_entries-Spends (e ∷ es) from t =
      and_then-Spends from t (on_delta_entry h e from t) (on_delta_entries h es from)
        (entry_at-Spends e from t (lookup e.view t.chain.verified))
        (on_delta_entries-Spends es from)
