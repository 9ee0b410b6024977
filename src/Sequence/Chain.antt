-- ===== src/Sequence/Chain.antt =====
-- primary/src/vantage/sequence.rs: the verification of record chains and of deltas.
use vantage_bft.Base.{
  ℕ, suc, ◌+◌, Bool, true, false, not, ◌&&◌, Option, none, some, List, [], ◌∷◌, ◌++◌, length, ltb,
  ◌==◌, if◌then◌else◌,
}
use vantage_bft.Base.BTree
use vantage_bft.Base.Map.{Map, lookup}
use vantage_bft.Agb.Types.{View, Digest}
use vantage_bft.Sequence.Hash.{
  Result, ok, err, sequence_version, SequenceOutcome, SequenceRecord, Hashing, outcome_digest,
  delta_seed, delta_fold, record_head,
}

pub data ChainError : Type 0 where
  version : ChainError
  unexpected_view : (expected got : View) → ChainError
  broken_link : (view : View) → ChainError
  head_mismatch : (view : View) → ChainError
  past_target : (target : View) → ChainError
  unexpected_index : (expected got : ℕ) → ChainError
  delta_mismatch : (view : View) → ChainError
  delta_too_long : (view : View) → ChainError
  skip_with_delta : (view : View) → ChainError
  outcome_mismatch : (view : View) → ChainError

pub record ChainVerifier : Type 0 where
  pub target_view : View
  pub target_head : Digest
  pub next_view : View
  pub head : Digest
  pub verified : Map SequenceRecord
  pub complete : Bool

unfoldable pub new_chain : (base_view : View) → (base_head : Digest) → View → Digest → ChainVerifier
new_chain base_view base_head target_view target_head = record {
  target_view = target_view;
  target_head = target_head;
  next_view = base_view + 1;
  head = base_head;
  verified = [];
  complete = false;
}

unfoldable pub insert_all : List SequenceRecord → Map SequenceRecord → Map SequenceRecord
unfolding BTree.insert
insert_all [] verified = verified
insert_all (r ∷ rs) verified = insert_all rs (BTree.insert r.view r verified)

pub record DeltaVerifier : Type 0 where
  pub view : View
  pub expected_len : ℕ
  pub expected_head : Digest
  pub next_index : ℕ
  pub running : Digest
  pub items : List Digest

abbrev pub delta_is_complete : DeltaVerifier → Bool
delta_is_complete d = d.next_index == d.expected_len

abbrev pub take_items : DeltaVerifier → Option (List Digest)
take_items d = if delta_is_complete d then some d.items else none

abbrev pub is_skip : SequenceOutcome → Bool
is_skip SequenceOutcome.skip = true
is_skip o = false

module _ (h : Hashing) where
  -- The check of one record after a view and head.
  unfoldable pub check_record :
      (target : View) → View → Digest → SequenceRecord → Result ChainError Digest
  unfolding record_head
  check_record target view head r =
      if not (r.version == sequence_version)
      then err ChainError.version
      else if ltb target view
      then err (ChainError.past_target target)
      else if not (r.view == view)
      then err (ChainError.unexpected_view view r.view)
      else if not (r.previous_head == head)
      then err (ChainError.broken_link view)
      else ok (record_head h r)

  -- The loop over the records, which ends at a view and head.
  unfoldable pub check_records :
      (target : View) → View → Digest → List SequenceRecord → Result ChainError (View × Digest)
  unfolding check_record
  check_records target view head [] = ok (view, head)
  check_records target view head (r ∷ rs) = elim (check_record target view head r) [
    | err e ↦ err e
    | ok next ↦ check_records target (suc view) next rs
  ]

  -- The records are checked; the chain may have reached its target.
  unfoldable pub finish_records :
      List SequenceRecord → View → Digest → ChainVerifier → Result ChainError Bool × ChainVerifier
  unfolding insert_all
  finish_records rs view head v =
      let reached = ltb v.target_view view in
      if reached && not (head == v.target_head)
      then (err (ChainError.head_mismatch v.target_view), v)
      else (
        ok reached,
        record v {
          verified = insert_all rs v.verified;
          next_view = view;
          head = head;
          complete = reached;
        },
      )

  unfoldable pub absorb_records :
      List SequenceRecord → ChainVerifier → Result ChainError Bool × ChainVerifier
  unfolding check_records finish_records
  absorb_records rs v = elim (check_records v.target_view v.next_view v.head rs) [
    | err e ↦ (err e, v)
    | ok (view, head) ↦ finish_records rs view head v
  ]

  unfoldable pub check_outcome :
      View → SequenceOutcome → ChainVerifier → Result ChainError (Unit {0})
  unfolding lookup outcome_digest
  check_outcome view outcome v = elim (lookup view v.verified) [
    | none ↦ err (ChainError.unexpected_view v.next_view view)
    | some r ↦
        if not (outcome_digest h view outcome == r.outcome_digest)
        then err (ChainError.outcome_mismatch view)
        else if is_skip outcome && not (r.delta_len == 0)
        then err (ChainError.skip_with_delta view)
        else ok tt
  ]

  unfoldable pub new_delta : View → SequenceRecord → DeltaVerifier
  unfolding delta_seed
  new_delta view r = record {
    view = view;
    expected_len = r.delta_len;
    expected_head = r.delta_head;
    next_index = 0;
    running = delta_seed h view;
    items = [];
  }

  unfoldable pub absorb :
      (start_index : ℕ) → List Digest → DeltaVerifier → Result ChainError Bool × DeltaVerifier
  unfolding delta_fold
  absorb start items d =
      let running = delta_fold h d.view d.next_index d.running items in
      let index = d.next_index + length items in
      let complete = index == d.expected_len in
      if not (start == d.next_index)
      then (err (ChainError.unexpected_index d.next_index start), d)
      else if ltb d.expected_len index
      then (err (ChainError.delta_too_long d.view), d)
      else if complete && not (running == d.expected_head)
      then (err (ChainError.delta_mismatch d.view), d)
      else (
        ok complete,
        record d { running = running; next_index = index; items = d.items ++ items },
      )
