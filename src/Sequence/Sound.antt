-- ===== src/Sequence/Sound.antt =====
-- What a transfer holds in every state (primary/src/vantage/sequence.rs, `SequenceTransfer`).
use vantage_bft.Base.{
  ℕ, suc, ◌+◌, ◌≤◌, ◌≡◌, ◌≢◌, if-cases, refl, sym, ◌∙◌, true, not, Option, none, some, is_some,
  is_none, is_empty, List, [], arith, leb, if◌then◌else◌,
}
use vantage_bft.Base.BTree
use vantage_bft.Base.Map.{Map, lookup}
use vantage_bft.Committee.{PublicKey}
use vantage_bft.Agb.Types.{View, Digest}
use vantage_bft.Sequence.Hash.{SequenceOutcome, SequenceRecord, Hashing, outcome_digest}
use vantage_bft.Sequence.Chain.{ChainVerifier, new_chain, insert_all, DeltaVerifier}
use vantage_bft.Sequence.Transfer.{
  TransferState, SequenceTransfer, new_transfer, first_missing_outcome, first_missing_delta,
  first_missing, verify_if, advance_if_done, remove_source, drop_source, rotate,
  max_invalid_per_source, penalize,
}
use mathlib.Core.Option.{get_or}
use vantage_bft.Sequence.Links.{Extends}
use vantage_bft.Sequence.Scan.{Passed, first_missing_lem, find_missing-none}
use vantage_bft.Sequence.Deltas.{Commits, Follows}

abbrev pub Present {ℓ} : {A : Type ℓ} → (target : View) → Map SequenceRecord → Map A → Type 0
Present target verified have =
    (u : View)
    → 1 ≤ u
    → u ≤ target
    → is_some (lookup u verified) ≡ true
    → is_some (lookup u have) ≡ true

-- The transfer in another state.
abbrev pub with_state : TransferState → SequenceTransfer → SequenceTransfer
with_state state t = record t { state = state }

started-unverified :
    (sources : List PublicKey)
    → (if is_empty sources then TransferState.exhausted else TransferState.fetching_records)
      ≢ TransferState.verified
started-unverified sources = ground arith

none_from {ℓ} : {A : Type ℓ} (o : Option A) → is_none o ≡ true → o ≡ none
none_from none e = refl
none_from (some a) e = ground (arith, e)

module _ (h : Hashing) (base : View) (base_head : Digest) (aim : View) (aim_head : Digest) where
  -- The verified records are a chain from the base, which ends at the target once it is complete.
  abbrev pub Chained : ChainVerifier → Type 0
  Chained v =
      (rs : List SequenceRecord) × Extends h (base + 1) base_head rs v.next_view v.head
      × (v.verified ≡ insert_all rs [])
      × (v.next_view ≤ suc v.target_view)
      × (v.complete ≡ true → (v.next_view ≡ suc v.target_view) × (v.head ≡ v.target_head))

  abbrev pub Outcomes : Map SequenceRecord → Map SequenceOutcome → Type 0
  Outcomes verified outcomes =
      (u : View) (o : SequenceOutcome)
      → lookup u outcomes ≡ some o
      → (r : SequenceRecord) × (lookup u verified ≡ some r)
        × (outcome_digest h u o ≡ r.outcome_digest)

  abbrev pub Deltas : Map SequenceRecord → Map (List Digest) → Type 0
  Deltas verified deltas =
      (u : View) (items : List Digest)
      → lookup u deltas ≡ some items
      → (r : SequenceRecord) × (lookup u verified ≡ some r) × Commits h u r items

  abbrev pub InFlight : Map SequenceRecord → Map DeltaVerifier → Type 0
  InFlight verified flying =
      (u : View) (d : DeltaVerifier)
      → lookup u flying ≡ some d
      → (r : SequenceRecord) × (lookup u verified ≡ some r) × Follows h u r d

  -- In the verified state every record has its outcome and its delta.
  abbrev pub Settled : SequenceTransfer → Type 0
  Settled t =
      t.state ≡ TransferState.verified
      → (t.chain.complete ≡ true)
        × Present t.target_view t.chain.verified t.outcomes
        × Present t.target_view t.chain.verified t.deltas

  pub record IsSound (t : SequenceTransfer) : Type 0 where
    pub aimed : (t.target_view ≡ aim) × (t.target_head ≡ aim_head)
    pub chained :
        (t.chain.target_view ≡ t.target_view)
        × (t.chain.target_head ≡ t.target_head)
        × Chained t.chain
    pub bodies :
        Outcomes t.chain.verified t.outcomes
        × Deltas t.chain.verified t.deltas
        × InFlight t.chain.verified t.delta_in_flight
    pub passed : Passed t.outcome_scan_from t.outcomes × Passed t.delta_scan_from t.deltas
    pub done : Settled t

  pub new_transfer-IsSound :
      (id : ℕ) (sources : List PublicKey)
      → base ≤ aim
      → IsSound (new_transfer id base base_head aim aim_head sources)
  unfolding new_transfer new_chain insert_all lookup
  new_transfer-IsSound id sources l = record {
    aimed = (refl, refl);
    chained = (refl, refl, ([], (refl, refl), refl, omega (arith, l), λ e. ground (arith, e)));
    bodies =
        (λ u o e. ground (arith, e), λ u items e. ground (arith, e), λ u d e. ground (arith, e));
    passed = (
      (omega arith, λ u a b. absurd (omega (arith, a, b))),
      (omega arith, λ u a b. absurd (omega (arith, a, b))),
    );
    done = λ e. absurd (started-unverified sources e);
  }

  pub first_missing_outcome-IsSound :
      (t : SequenceTransfer) → IsSound t → IsSound (first_missing_outcome t).1
  unfolding first_missing_outcome
  first_missing_outcome-IsSound t p = record {
    aimed = p.aimed;
    chained = p.chained;
    bodies = p.bodies;
    passed = (
      (first_missing_lem t.chain.verified t.outcomes t.target_view t.outcome_scan_from
          p.passed.0).1,
      p.passed.1,
    );
    done = p.done;
  }

  pub first_missing_delta-IsSound :
      (t : SequenceTransfer) → IsSound t → IsSound (first_missing_delta t).1
  unfolding first_missing_delta
  first_missing_delta-IsSound t p = record {
    aimed = p.aimed;
    chained = p.chained;
    bodies = p.bodies;
    passed = (
      p.passed.0,
      (first_missing_lem t.chain.verified t.deltas t.target_view t.delta_scan_from p.passed.1).1,
    );
    done = p.done;
  }

  pub with_state-IsSound :
      (state : TransferState) (t : SequenceTransfer)
      → state ≢ TransferState.verified
      → IsSound t
      → IsSound (with_state state t)
  with_state-IsSound state t n p = record {
    aimed = p.aimed;
    chained = p.chained;
    bodies = p.bodies;
    passed = p.passed;
    done = λ e. absurd (n e);
  }

  -- Both scans have found nothing.
  first_missing-Present {ℓ} :
      {A : Type ℓ} (target cursor : View) (verified : Map SequenceRecord) (have : Map A)
      → Passed cursor have
      → is_none (first_missing target cursor verified have).0 ≡ true
      → Present target verified have
  first_missing-Present target cursor verified have p e u a b s =
      find_missing-none verified have target 1 u
        (sym (first_missing_lem verified have target cursor p).0 ∙ none_from _ e) a
        (omega (arith, b)) s

  pub advance_if_done-IsSound : (t : SequenceTransfer) → IsSound t → IsSound (advance_if_done t)
  unfolding advance_if_done verify_if first_missing_outcome first_missing_delta
  advance_if_done-IsSound t p =
      let o = first_missing_outcome t in
      let d = first_missing_delta o.1 in
      let po = first_missing_outcome-IsSound t p in
      let pd = first_missing_delta-IsSound o.1 po in
      if-cases IsSound (not t.chain.complete) t
        (if is_some o.0 then o.1 else verify_if (is_none d.0) d.1) (λ _. p)
        λ c.
          if-cases IsSound (is_some o.0) o.1 (verify_if (is_none d.0) d.1) (λ _. po)
            λ q.
              if-cases IsSound (is_none d.0) (with_state TransferState.verified d.1) d.1
                (λ r. record {
                  aimed = p.aimed;
                  chained = p.chained;
                  bodies = p.bodies;
                  passed = pd.passed;
                  done = λ e. (
                    ground (arith, c),
                    first_missing-Present t.target_view t.outcome_scan_from t.chain.verified
                        t.outcomes p.passed.0 (ground (arith, q)),
                    first_missing-Present t.target_view t.delta_scan_from t.chain.verified t.deltas
                        p.passed.1 r,
                  );
                })
                λ _. pd

  -- Other sources do not matter.
  with_sources-IsSound :
      (sources : List PublicKey) (cursor : ℕ) (invalid : Map ℕ) (t : SequenceTransfer)
      → IsSound t
      → IsSound (record t { sources = sources; cursor = cursor; invalid = invalid })
  with_sources-IsSound sources cursor invalid t p = record {
    aimed = p.aimed;
    chained = p.chained;
    bodies = p.bodies;
    passed = p.passed;
    done = p.done;
  }

  pub drop_source-IsSound :
      (from : PublicKey) (t : SequenceTransfer) → IsSound t → IsSound (drop_source from t)
  unfolding drop_source
  drop_source-IsSound from t p =
      if-cases IsSound (is_empty (remove_source from t.sources)) _ _
        (λ _.
          with_state-IsSound TransferState.exhausted _ (λ e. ground (arith, e))
            (with_sources-IsSound _ _ t.invalid t p))
        λ _. with_sources-IsSound _ _ t.invalid t p

  pub rotate-IsSound : (t : SequenceTransfer) → IsSound t → IsSound (rotate t)
  unfolding rotate
  rotate-IsSound t p =
      if-cases IsSound (is_empty t.sources) t _ (λ _. p) λ _. with_sources-IsSound _ _ t.invalid t p

  pub penalize-IsSound :
      (from : PublicKey) (t : SequenceTransfer) → IsSound t → IsSound (penalize from t)
  unfolding penalize
  penalize-IsSound from t p =
      let u =
        with_sources-IsSound t.sources t.cursor
          (BTree.insert from (get_or (lookup from t.invalid) 0 + 1) t.invalid) t p in
      if-cases IsSound (leb max_invalid_per_source (get_or (lookup from t.invalid) 0 + 1)) _ _
        (λ _. drop_source-IsSound from _ u) λ _. u
