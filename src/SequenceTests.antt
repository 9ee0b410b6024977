-- ===== src/SequenceTests.antt =====
-- The properties of primary/src/vantage/sequence.rs at a chain of three views, and tests of it.
use vantage_bft.Base.{
  ℕ, ◌+◌, ◌*◌, ◌/◌, ◌%◌, ◌≤◌, ◌≡◌, refl, ◌⊎◌, true, false, List, [], ◌∷◌, length, arith,
}
use vantage_bft.Base.Map.{Map, lookup}
use vantage_bft.Agb.Types.{View, Digest}
use vantage_bft.Sequence.Hash.{ok, genesis_head, SequenceOutcome, SequenceRecord, Hashing}
use vantage_bft.Sequence.Store.{
  SequenceStore, new_store, record_all, records_from, outcomes_from, delta_entries_from,
}
use vantage_bft.Sequence.Chain.{ChainVerifier, new_chain, absorb_records, new_delta, absorb}
use vantage_bft.Sequence.Transfer.{
  SequenceTransfer, new_transfer, is_verified, find_missing, first_missing,
}
use vantage_bft.Sequence.Handlers.{on_records, on_outcomes, on_delta, on_delta_range}
use vantage_bft.Sequence.Wants.{Event, run, wants}
use vantage_bft.Sequence.Links.{Collision}
use vantage_bft.Sequence.Absorb.{Absorbs, absorb_records-Absorbs}
use vantage_bft.Sequence.Scan.{Passed, first_missing_lem}
use vantage_bft.Sequence.Deltas.{Takes, absorb-Takes, new_delta-Follows}
use vantage_bft.Sequence.Linked.{IsLinked, record_all-IsLinked}
use vantage_bft.Sequence.Errors.{run-max_errors}
use vantage_bft.Sequence.Served.{records_from-absorb_records}
use vantage_bft.Sequence.Collector.{
  SequenceAnnouncement, AnnouncementOutcome, CheckpointCollector, new_collector, on_announcement,
}
use vantage_bft.Sequence.Judged.{Judged}
use vantage_bft.Sequence.Faithful.{Agrees, run-Agrees}

abbrev stir : List ℕ → ℕ
stir [] = 7
stir (b ∷ bs) = (b + 31 * stir bs) % 65521

abbrev encode : View → SequenceOutcome → List ℕ
encode v (SequenceOutcome.full c t) = v ∷ 0 ∷ length c ∷ length t ∷ []
encode v (SequenceOutcome.core c) = v ∷ 1 ∷ length c ∷ []
encode v SequenceOutcome.skip = v ∷ 2 ∷ []

-- A stand-in for the hash and the encodings, which tells the samples apart.
abbrev hashing : Hashing
hashing = record {
  blake3 = stir;
  sid = 9 ∷ [];
  bytes = λ d. d % 256 ∷ d / 256 ∷ [];
  encode_outcome = encode;
  encode_position = λ v i. v ∷ i ∷ [];
  encode_record = λ r.
      r.version ∷ r.view ∷ r.previous_head ∷ r.outcome_digest ∷ r.delta_len ∷ r.delta_head ∷ [];
}

abbrev recorded : List (View × SequenceOutcome × List Digest)
recorded =
    (1, SequenceOutcome.skip, [])
    ∷ (2, SequenceOutcome.core [], 5 ∷ 6 ∷ 8 ∷ [])
    ∷ (7, SequenceOutcome.skip, [])
    ∷ (3, SequenceOutcome.full [] [], 4 ∷ [])
    ∷ []

abbrev kept : SequenceStore
kept = record_all hashing recorded (new_store hashing 2)

-- The view out of order is refused.
kept_views : kept.next_view ≡ 4
unfolding record_all new_store
kept_views = refl

-- The head after view 1, which the receiver starts from.
abbrev base_head : Digest
base_head = (record_all hashing ((1, SequenceOutcome.skip, []) ∷ []) (new_store hashing 2)).head

abbrev started : SequenceTransfer
started = new_transfer 1 1 base_head 3 kept.head (20 ∷ 30 ∷ [])

-- Records, a wrong outcome, the outcomes, half a delta, and the rest of the deltas.
abbrev events : List Event
events =
    Event.serves_records
      (record {
        version = 1;
        transfer_id = 1;
        target_head = kept.head;
        records = records_from 1 5 kept.records;
        serve_floor = 1;
        sender = 20;
      })
      20
    ∷ Event.serves_outcomes
        (record {
          version = 1;
          transfer_id = 1;
          target_head = kept.head;
          outcomes = record { view = 2; outcome = SequenceOutcome.skip } ∷ [];
          sender = 30;
        })
        30
    ∷ Event.asks 2 4 4
    ∷ Event.serves_outcomes
        (record {
          version = 1;
          transfer_id = 1;
          target_head = kept.head;
          outcomes = outcomes_from 1 3 5 9 kept;
          sender = 20;
        })
        20
    ∷ Event.serves_delta
        (record {
          version = 1;
          transfer_id = 1;
          target_head = kept.head;
          view = 2;
          start_index = 0;
          items = 5 ∷ [];
          complete = false;
          sender = 20;
        })
        20
    ∷ Event.serves_deltas
        (record {
          version = 1;
          transfer_id = 1;
          target_head = kept.head;
          entries = delta_entries_from 2 1 3 5 9 kept;
          sender = 20;
        })
        20
    ∷ []

one_error : (run hashing events started).0 ≡ 1
unfolding run record_all new_store records_from new_transfer outcomes_from delta_entries_from
    on_records on_outcomes wants on_delta on_delta_range
one_error = refl

all_verified : is_verified (run hashing events started).1 ≡ true
unfolding run record_all new_store records_from new_transfer outcomes_from delta_entries_from
    on_records on_outcomes wants on_delta on_delta_range
all_verified = refl

run-Agrees_example : Agrees hashing 2 (run hashing events started).1 kept ⊎ Collision hashing
unfolding record_all new_store lookup
run-Agrees_example =
    run-Agrees hashing 2 recorded 1 1 base_head 3 kept.head (20 ∷ 30 ∷ []) events 2 refl
      all_verified (omega arith) (omega arith)

record_all-IsLinked_example : (rs : List SequenceRecord) × IsLinked hashing kept rs
record_all-IsLinked_example = record_all-IsLinked hashing 2 recorded

abbrev chain : ChainVerifier
chain = new_chain 1 base_head 3 kept.head

absorb_records-Absorbs_example :
    Absorbs hashing chain
      (records_from 2 2 kept.records)
      (absorb_records hashing (records_from 2 2 kept.records) chain)
absorb_records-Absorbs_example =
    absorb_records-Absorbs hashing chain (records_from 2 2 kept.records)

abbrev second : SequenceRecord
second = record {
  version = 1;
  view = 2;
  previous_head = 5;
  outcome_digest = 6;
  delta_len = 3;
  delta_head = 9;
}

absorb-Takes_example :
    Takes hashing 2 second 0
      (new_delta hashing 2 second)
      (5 ∷ 6 ∷ [])
      (absorb hashing 0 (5 ∷ 6 ∷ []) (new_delta hashing 2 second))
absorb-Takes_example =
    absorb-Takes hashing 2 second (new_delta hashing 2 second) 0 (5 ∷ 6 ∷ [])
      (new_delta-Follows hashing 2 second)

abbrev records : Map SequenceRecord
records = (2, second) ∷ (3, second) ∷ []

abbrev bodies : Map (List Digest)
bodies = (2, []) ∷ []

bodies-Passed : Passed 1 bodies
bodies-Passed = (omega arith, λ u a b. absurd (omega (arith, a, b)))

first_missing_lem_example :
    ((first_missing 3 1 records bodies).0 ≡ find_missing 3 1 records bodies)
    × Passed (first_missing 3 1 records bodies).1 bodies
first_missing_lem_example = first_missing_lem records bodies 3 1 bodies-Passed

run-max_errors_example : (run hashing events started).0 ≤ 4
run-max_errors_example = run-max_errors hashing 1 1 base_head 3 kept.head (20 ∷ 30 ∷ []) events

records_from-absorb_records_example :
    let result =
      absorb_records hashing
        (records_from 1 3 kept.records)
        (new_chain 0 (genesis_head hashing) 3 kept.head) in
    (result.0 ≡ ok true)
    × (result.1.complete ≡ true)
    × ((u : View) → 1 ≤ u → u ≤ 3 → lookup u result.1.verified ≡ lookup u kept.records)
unfolding record_all new_store lookup
records_from-absorb_records_example =
    records_from-absorb_records hashing 2 recorded 3 kept.head (omega arith) refl

abbrev announcement : SequenceAnnouncement
announcement = record { version = 1; view = 4; head = 70; serve_floor = 1; sender = 30 }

-- The first claim for view 4 counts, and the second one certifies.
abbrev collector : CheckpointCollector
collector =
    (on_announcement (record announcement { sender = 20 }) 20 true 3 (new_collector 2 2 8)).1

second_claim_certifies :
    (on_announcement announcement 30 true 3 collector).0 ≡ AnnouncementOutcome.counted true
unfolding on_announcement new_collector
second_claim_certifies = refl
