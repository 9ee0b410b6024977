-- ===== src/Samples.antt =====
-- A run of four authorities for the tests: the leader proposes view 1, all echo it and all are ready
-- (primary/src/vantage/agb.rs).
use vantage_bft.Agb.Rechecks
use vantage_bft.Agb.Meta
use vantage_bft.Agb.Handlers
use vantage_bft.Agb.Receive
use vantage_bft.Agb.Engine
use vantage_bft.Agb.Monad
use vantage_bft.Agb.Votes
use vantage_bft.Agb.Steps
use vantage_bft.Agb.Statements
use vantage_bft.Agb.Formed
use vantage_bft.Agb.Types
use vantage_bft.Agb.State
use vantage_bft.Base.Map
use vantage_bft.Base.BTree
use vantage_bft.Committee
use vantage_bft.Threshold
use vantage_bft.Base.{member, any, ◌+◌, true, none, List, [], ◌∷◌}
use vantage_bft.Committee.{Committee, PublicKey}
use vantage_bft.Agb.Types.{
  Digest, Echo, Manifest, ProposalOut, Ready, ReadyGrade, ReadyOut, ViewProposal,
}
use vantage_bft.Agb.State.{Config, new_config}
use vantage_bft.Agb.Votes.{LaneView}
use vantage_bft.Agb.Monad.{World, init}
use vantage_bft.Agb.Engine.{Event, run}

abbrev pub committee : Committee
committee = record { authorities = (10, 1) ∷ (20, 1) ∷ (30, 1) ∷ (40, 1) ∷ [] }

-- A stand-in for the domain hash, which tells the samples apart.
abbrev pub digest : ProposalOut → Digest
digest (ProposalOut.single p) = 100 + p.view
digest (ProposalOut.batch p) = 200 + p.view

abbrev pub config : Config
config = new_config 10 committee digest 500

-- Lanes where every block is held and available.
abbrev pub open_lanes : LaneView
open_lanes = record {
  author_ok = λ r. true;
  holds_prefix = λ r. true;
  prefix_contains = λ a r. true;
  locally_available = λ r. true;
}

abbrev pub proposal : ViewProposal
proposal = record { view = 1; c = (10, 3, 71) ∷ []; t = (20, 1, 72) ∷ []; m = none }

abbrev pub echo : PublicKey → Echo
echo sender = record {
  proposal = proposal;
  grade = 1;
  sender = sender;
  wish = 2;
  origin = none;
  avail = none;
}

abbrev pub ready : PublicKey → Ready
ready sender = record { proposal = proposal; grade = ReadyGrade.one; sender = sender; wish = 2 }

abbrev pub opening : List Event
opening =
    Event.enters 1 1000 open_lanes
    ∷ Event.proposes 10 (ProposalOut.single proposal) 1010 open_lanes
    ∷ Event.echoes (echo 10)
    ∷ Event.echoes (echo 20)
    ∷ Event.echoes (echo 30)
    ∷ []

abbrev pub closing : List Event
closing =
    Event.readies (ReadyOut.single (ready 10))
    ∷ Event.readies (ReadyOut.single (ready 20))
    ∷ Event.readies (ReadyOut.single (ready 30))
    ∷ []

-- The worlds of the sample; whoever unfolds them computes with the whole engine.
unfoldable pub opened : World
unfolding Rechecks.two_response_wish_target Rechecks.wish Rechecks.try_seal Rechecks.aux_refs
    Rechecks.count_echo_statement Rechecks.count_ready_statement Rechecks.count_skip_vote_statement
    Rechecks.record_lock Rechecks.recheck_lock_release Rechecks.recheck_fastseal_trigger
    Rechecks.finalize_mix_if_closed Rechecks.recheck_skip_seal_trigger Rechecks.cast_skip_vote
    Rechecks.recheck_skip_vote_trigger Rechecks.announce_completed Rechecks.settle Rechecks.tally_in
    Rechecks.recheck_completion_and_direct Rechecks.build_ready_out Rechecks.emit_initial_ready
    Rechecks.refined Rechecks.emit_ready_refinement Rechecks.initial_ready Rechecks.refine_or_close
    Rechecks.candidate_at Rechecks.after_ready_sent Rechecks.recheck_ready
    Rechecks.recheck_after_echo Rechecks.respond_no_ready Rechecks.ready_deadline_open
    Rechecks.ready_deadline Rechecks.on_ready_timer Meta.stance_excludes Meta.claim_values
    Meta.status_at Meta.meta_entry_status Meta.meta_ok Meta.compute_origin_entry Meta.compute_origin
    Meta.accept_aux Meta.try_meta_ok Meta.positive_gate_holds Meta.decide_vote Meta.sealed_at
    Meta.try_direct_resolution_vote Handlers.find_digest Handlers.cached Handlers.canonical_proposal
    Handlers.build_echo_out Handlers.send_echo Handlers.send_echo_skip Handlers.mark_echo_sent
    Handlers.positive_echo Handlers.gate_fixed Handlers.recheck_gate Handlers.start_activity
    Handlers.activate Handlers.fallback_deadline Handlers.arm_fallback Handlers.enter
    Receive.entry_refs Receive.manifest_refs Receive.batch_manifest_refs Receive.anchors
    Receive.has_echo_of Receive.proposed_by Receive.late Receive.first_instant
    Receive.proposal_deadline Receive.announce_fixed Receive.store_fixed Receive.fix_proposal
    Receive.reject_proposal Receive.take_proposal Receive.on_propose_any Receive.fallback_echo
    Receive.fallback Receive.on_echo_fallback_timer Receive.absolute_skip
    Receive.on_echo_absolute_timer Receive.awaits_proposal Receive.refuse_unproposed_view
    Receive.count_graded Receive.on_echo_any Receive.claim_statements Receive.take_claim
    Receive.carries_claim Receive.on_echo Receive.on_echo_batch Receive.on_echo_skip
    Receive.count_ready_of Receive.on_ready_any Receive.on_noready Receive.on_skip_vote
    Receive.submit_resolution Engine.views_from Engine.views_below Engine.recheck_window
    Engine.gc_below Engine.recheck_views Engine.move_cursor Engine.recheck_all Engine.handle
    Engine.run Monad.◌>>=◌ Monad.pure Monad.output Monad.authorize_all Monad.state Monad.put_state
    Monad.on_state Monad.on_view Monad.modify Monad.modify_view Monad.gets Monad.find_view
    Monad.is_pruned Monad.insert_view Monad.remove_view Monad.on_gate Monad.on_cursor
    Monad.unless_pruned Votes.tip_ok Votes.core_ok Votes.value_status Votes.entry_status
    Votes.excludes_value Votes.claim_non_skip Votes.claim_skip_vote Votes.count_skip_vote
    Votes.claim_skip_seal Votes.origin_bit Steps.ready_guard Steps.candidate_in
    Steps.first_candidate Steps.ready_candidate Steps.ready_refinement_candidate Steps.finalize_mix
    Steps.open_ready Steps.complete Steps.direct Steps.seal Steps.matching_echo_count
    Steps.nonmatching_echo_count Steps.take_lock Steps.release_lock Steps.fastseal
    Statements.bump_ones Statements.empty_echo_tally Statements.add_echo Statements.record_echo
    Statements.count_echo Statements.empty_ready_tally Statements.add_ready Statements.tally_ready
    Statements.record_ready Statements.valid_refinement Statements.refine_ready
    Statements.count_ready Formed.strictly_sorted_and_staked Formed.distinct_hashes
    Formed.formed_resolution_entry Formed.formed_entry Formed.formed Formed.batch_cap
    Formed.formed_batch Formed.proposal_formed Types.target_view Types.references
    Types.proposal_view Types.core_of Types.tip_of Types.entries Types.echo_grade Types.echo_sender
    Types.origin_vec Types.echo_proposal Types.ready_sender Types.ready_grade Types.ready_proposal
    Types.manifest_eq Types.proposal_eq State.new_config Map.lookup Map.insert Map.count
    BTree.insert BTree.split_off Committee.size Committee.stake Committee.total_votes
    Committee.quorum_threshold Threshold.from_party_count member any
opened = run config opening init

unfoldable pub closed : World
closed = run config closing opened
