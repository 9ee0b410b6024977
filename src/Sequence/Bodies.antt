-- ===== src/Sequence/Bodies.antt =====
-- What outcomes do to a transfer (primary/src/vantage/sequence.rs, `on_outcomes`).
use vantage_bft.Base.{
  ◌≡◌, if-cases, refl, inl, inr, true, ◌||◌, some, is_some, is_none, List, [], ◌∷◌, arith, ◌==◌,
  Bool-cases, Option-cases,
}
use vantage_bft.Base.BTree
use vantage_bft.Base.Map.{Map, lookup}
use vantage_bft.Committee.{PublicKey}
use vantage_bft.Agb.Types.{View, Digest}
use vantage_bft.Sequence.Hash.{
  Result, ok, err, SequenceOutcome, SequenceRecord, Hashing, outcome_digest,
}
use vantage_bft.Sequence.Chain.{ChainError, check_outcome, ChainVerifier}
use vantage_bft.Sequence.Store.{SequenceOutcomeEntry}
use vantage_bft.Sequence.Transfer.{
  SequenceOutcomeServe, first_missing_outcome, TransferState, SequenceTransfer, accepts,
  advance_if_done,
}
use vantage_bft.Sequence.Handlers.{
  outcome_checked, take_outcome, take_outcomes, outcomes_taken, on_outcomes, Handled, ◌and_then◌,
}
use vantage_bft.Sequence.Sound.{
  with_state, with_state-IsSound, IsSound, advance_if_done-IsSound, penalize-IsSound,
  first_missing_outcome-IsSound,
}
use vantage_bft.Sequence.Steps.{guarded-IsSound}

module _ (h : Hashing) (base : View) (base_head : Digest) (aim : View) (aim_head : Digest) where
  pub grows {ℓ} :
      {A : Type ℓ} (k u : View) (x : A) (m : Map A)
      → is_some (lookup u m) ≡ true
      → is_some (lookup u (BTree.insert k x m)) ≡ true
  grows k u x m e = ground (arith, e, BTree.lookup-insert k u x m)

  pub and_then-IsSound :
      (r : Handled) (f : SequenceTransfer → Handled)
      → IsSound h base base_head aim aim_head r.1
      → ((t : SequenceTransfer)
          → IsSound h base base_head aim aim_head t
          → IsSound h base base_head aim aim_head (f t).1)
      → IsSound h base base_head aim aim_head (r and_then f).1
  and_then-IsSound (ok done, t) f p k = k t p
  and_then-IsSound (err error, t) f p k = p

  -- An outcome that the chain's record commits to.
  with_outcome-IsSound :
      (u : View) (o : SequenceOutcome) (r : SequenceRecord) (t : SequenceTransfer)
      → lookup u t.chain.verified ≡ some r
      → outcome_digest h u o ≡ r.outcome_digest
      → IsSound h base base_head aim aim_head t
      → IsSound h base base_head aim aim_head (record t { outcomes = BTree.insert u o t.outcomes })
  with_outcome-IsSound u o r t i q p =
      let (os, ds, fs) = p.bodies in
      record {
        aimed = p.aimed;
        chained = p.chained;
        bodies = (
          BTree.insert_all_hold
              (λ v x.
                (z : SequenceRecord) × (lookup v t.chain.verified ≡ some z)
                × (outcome_digest h v x ≡ z.outcome_digest))
              u o t.outcomes (r, i, q) os,
          ds,
          fs,
        );
        passed = ((p.passed.0.0, λ v a b. grows u v o t.outcomes (p.passed.0.1 v a b)), p.passed.1);
        done =
            λ e. let (c, x, y) = p.done e in (c, λ v a b s. grows u v o t.outcomes (x v a b s), y);
      }

  check_outcome-ok :
      (u : View) (o : SequenceOutcome) (v : ChainVerifier) (x : Unit {0})
      → check_outcome h u o v ≡ ok x
      → (r : SequenceRecord) × (lookup u v.verified ≡ some r)
        × (outcome_digest h u o ≡ r.outcome_digest)
  unfolding check_outcome
  check_outcome-ok u o v x e = elim (Option-cases (lookup u v.verified)) [
    | inl n ↦ absurd (ground (arith, e, n))
    | inr (r, q) ↦ (
      r,
      q,
      elim (Bool-cases (outcome_digest h u o == r.outcome_digest)) [
        | inl k ↦ ground (arith, k)
        | inr k ↦ absurd (ground (arith, e, q, k))
      ],
    )
  ]

  outcome_checked-IsSound :
      (e : SequenceOutcomeEntry) (from : PublicKey) (t : SequenceTransfer)
      (result : Result ChainError (Unit {0}))
      → check_outcome h e.view e.outcome t.chain ≡ result
      → IsSound h base base_head aim aim_head t
      → IsSound h base base_head aim aim_head (outcome_checked h e from t result).1
  unfolding outcome_checked
  outcome_checked-IsSound e from t (err error) q p =
      penalize-IsSound h base base_head aim aim_head from t p
  outcome_checked-IsSound e from t (ok x) q p =
      let (r, i, d) = check_outcome-ok e.view e.outcome t.chain x q in
      with_outcome-IsSound e.view e.outcome r t i d p

  take_outcome-IsSound :
      (e : SequenceOutcomeEntry) (from : PublicKey) (t : SequenceTransfer)
      → IsSound h base base_head aim aim_head t
      → IsSound h base base_head aim aim_head (take_outcome h e from t).1
  unfolding take_outcome
  take_outcome-IsSound e from t p =
      let result = check_outcome h e.view e.outcome t.chain in
      if-cases (λ (r : Handled). IsSound h base base_head aim aim_head r.1)
        (is_some (lookup e.view t.outcomes) || is_none (lookup e.view t.chain.verified)) (ok tt, t)
        (outcome_checked h e from t result) (λ _. p)
        λ _. outcome_checked-IsSound e from t result refl p

  take_outcomes-IsSound :
      (es : List SequenceOutcomeEntry) (from : PublicKey) (t : SequenceTransfer)
      → IsSound h base base_head aim aim_head t
      → IsSound h base base_head aim aim_head (take_outcomes h es from t).1
  unfolding take_outcomes
  take_outcomes-IsSound [] from t p = p
  take_outcomes-IsSound (e ∷ es) from t p =
      and_then-IsSound (take_outcome h e from t) (take_outcomes h es from)
        (take_outcome-IsSound e from t p) (take_outcomes-IsSound es from)

  outcomes_taken-IsSound :
      (t : SequenceTransfer)
      → IsSound h base base_head aim aim_head t
      → IsSound h base base_head aim aim_head (outcomes_taken h t)
  unfolding outcomes_taken
  outcomes_taken-IsSound t p =
      let u = first_missing_outcome t in
      let q = first_missing_outcome-IsSound h base base_head aim aim_head t p in
      if-cases (IsSound h base base_head aim aim_head) (is_none u.0)
        (advance_if_done (with_state TransferState.fetching_deltas u.1)) u.1
        (λ _.
          advance_if_done-IsSound h base base_head aim aim_head
            (with_state TransferState.fetching_deltas u.1)
            (with_state-IsSound h base base_head aim aim_head TransferState.fetching_deltas u.1
              (λ e. ground (arith, e)) q))
        λ _. q

  pub on_outcomes-IsSound :
      (serve : SequenceOutcomeServe) (from : PublicKey) (t : SequenceTransfer)
      → IsSound h base base_head aim aim_head t
      → IsSound h base base_head aim aim_head (on_outcomes h serve from t).1
  unfolding on_outcomes
  on_outcomes-IsSound serve from t p =
      guarded-IsSound h base base_head aim aim_head t TransferState.fetching_outcomes
        (accepts from serve.transfer_id serve.target_head t)
        (take_outcomes h serve.outcomes from t and_then λ u. (ok tt, outcomes_taken h u))
        (λ k. ground (arith, k)) p
        λ _.
          and_then-IsSound (take_outcomes h serve.outcomes from t)
            (λ u. (ok tt, outcomes_taken h u)) (take_outcomes-IsSound serve.outcomes from t p)
            outcomes_taken-IsSound
