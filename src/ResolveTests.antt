-- ===== src/ResolveTests.antt =====
-- A resolver alone in its committee, for the tests: one candidate, its check and its decision
-- (primary/src/vantage/direct_resolution.rs).
use vantage_bft.Resolve.Candidates
use vantage_bft.Resolve.Counts
use vantage_bft.Resolve.Engine
use vantage_bft.Resolve.Evidence
use vantage_bft.Resolve.Handlers
use vantage_bft.Resolve.Monad
use vantage_bft.Resolve.Phases
use vantage_bft.Resolve.Propose
use vantage_bft.Resolve.Replay
use vantage_bft.Resolve.Schedule
use vantage_bft.Resolve.State
use vantage_bft.Resolve.Steps
use vantage_bft.Resolve.Views
use vantage_bft.Resolve.Targets
use vantage_bft.Resolve.Values
use vantage_bft.Resolve.Wishes
use vantage_bft.Base.Map
use vantage_bft.Base.BTree
use vantage_bft.Base.{
  ◌*◌, ◌<◌, length, true, ℕ, ◌+◌, ◌≡◌, refl, member, count, none, some, List, [], ◌∷◌, arith,
}
use vantage_bft.Threshold.{from_party_count}
use vantage_bft.Leader.{keys, one_based, at, wrapped_index}
use vantage_bft.Pacemaker.{kth_largest}
use vantage_bft.Committee.{Committee, size, stake}
use vantage_bft.Agb.Types.{Digest, ResolutionEntry, target_view}
use vantage_bft.Agb.Formed.{formed_resolution_entry}
use vantage_bft.Resolve.Types.{Vote}
use vantage_bft.Resolve.Counts.{winner}
use vantage_bft.Resolve.State.{Config, new_config}
use vantage_bft.Resolve.Monad.{World, ◌>>=◌}
use vantage_bft.Resolve.Replay.{◌then_replay◌}
use vantage_bft.Resolve.Engine.{Event, decision, run}
use vantage_bft.Resolve.Lasting.Runs.{start, run-Sound, run-Kept}
use vantage_bft.Resolve.Lasting.{Kept}
use vantage_bft.Resolve.Sound.{Sound, Evolves}
use vantage_bft.Resolve.Schedule.{leads}
use vantage_bft.Resolve.Fair.{leads-IsMember}
use vantage_bft.Resolve.State.{Instance, new_instance}
use vantage_bft.Resolve.Candidates.{next_candidate_of}
use vantage_bft.Resolve.Rotation.{Offers, next_candidate_of-Offers}
use vantage_bft.Resolve.Winners.{Winning, winner-Winning}

abbrev committee : Committee
committee = record { authorities = (10, 1) ∷ [] }

-- A stand-in for the domain hash, which tells the samples apart.
abbrev digest : ResolutionEntry → Digest
digest (ResolutionEntry.full u c t) = 100 + u
digest (ResolutionEntry.core u c t) = 200 + u
digest (ResolutionEntry.skip u) = 300 + u

abbrev config : Config
config = new_config 10 committee digest (λ c t. []) (λ target. target) 500 8

abbrev opening : List (ℕ × Event)
opening = (1000, Event.offers 3 (ResolutionEntry.skip 3 ∷ [])) ∷ []

abbrev closing : List (ℕ × Event)
closing = (1010, Event.votes 3 1 303 (Vote.accept none)) ∷ []

unfoldable opened : World
unfolding Candidates.entry_eq Candidates.bytes_lt Candidates.canonical_entry_key Candidates.before
    Candidates.insert_candidate Candidates.sort_candidates Candidates.contains Candidates.push_new
    Candidates.eligible Candidates.position Candidates.selected Candidates.choose
    Candidates.next_candidate_of Counts.count_up Counts.tally Counts.first_above Counts.winner
    Counts.backing_winner Counts.backed_in Counts.is_backed Counts.accept_key Counts.open_lock
    Counts.count_ballot Counts.ballots Counts.first_ballot Counts.phase_winner Counts.phase_authors
    Counts.fresh_origin_ok Engine.barred_from Engine.prune_books Engine.gc_below Engine.decision
    Engine.current_view Engine.max_view Engine.max_current_view Engine.active_len Engine.awaiting_in
    Engine.views_awaiting_proposal_from Engine.handle Engine.run Evidence.suggestion_ok
    Evidence.on_suggest Evidence.on_proof Evidence.retry_target Evidence.on_witness Handlers.on_vote
    Handlers.reopen_views Handlers.echo_views Handlers.retry_external_validity
    Handlers.statement_formed Handlers.on_statement Handlers.on_done Handlers.answer_once
    Handlers.on_value_fetch Handlers.take_pending Handlers.on_value_serve ◌>>=◌ Monad.pure
    Monad.output Monad.emit_all Monad.gets Monad.instance_of Monad.reads Monad.put_instance
    Monad.on_instance Monad.at_view_mut Monad.at_entry_mut Monad.decided_in Monad.has_instance
    Monad.entry_of Monad.on_books Monad.modify_books Monad.create Monad.conclude
    Phases.emit_statement Phases.act_on_echo Phases.try_echo Phases.emit_backing_witness
    Phases.recheck_backing Phases.emit_done Phases.relay_done Phases.forget_fetches Phases.decide_on
    Phases.recheck_done Phases.adopt_phase Phases.leave_echo Phases.follow_winner
    Phases.advance_phase Phases.finish_lock Phases.then_step Phases.advance_round Phases.after_round
    Phases.advance_loop Phases.advance_view Propose.admits Propose.accepts Propose.accepted_from
    Propose.accepted_suggestions Propose.highest_key Propose.on_proposal Propose.propose
    Propose.take_next_candidate Propose.propose_highest Propose.try_primary_propose
    Replay.has_replay Replay.replay_once Replay.replay_statement Replay.replay_view
    Replay.replay_wish Replay.views_through Replay.send_item Replay.send_items Replay.replay_views
    Replay.mark_done Replay.replay_done Replay.replay_own_wish Replay.replay_progress_to
    Schedule.mix Schedule.next_state Schedule.range Schedule.swap Schedule.shuffle
    Schedule.without_first Schedule.has_name Schedule.move_last Schedule.resolver_schedule
    Schedule.resolution_leader State.new_config Steps.raise_wish Steps.larger_wish Steps.take_wish
    Steps.merge_wishes Steps.with_wishes Steps.with_candidates Steps.mark_entered
    Views.put_suggestion Views.put_proof Views.take_proof Views.put_proposal Views.put_witness
    Views.send_witness Views.request_vote Views.take_vote Views.reopen_vote Views.binding_ok
    Views.with_statement Views.send_statement Views.take_statement Steps.adopt Steps.send_done
    Steps.put_done Steps.echo_action Targets.take_passive Targets.admit_through Targets.add_passive
    Targets.valid_candidates Targets.remember_all Targets.out_of_scope Targets.ensure_instance
    Targets.start_candidates Targets.update_candidates Targets.bar_full_selection
    Targets.activate_with_local_terminal Targets.answer_decided Targets.join_and_replay
    Targets.passive_wish Targets.active_wish Targets.on_wish Targets.on_timer Values.has_pair
    Values.add_pair Values.add_member Values.drop_member Values.is_member Values.valid_entry
    Values.keep_value Values.remember_entry Values.want Values.request_from Values.fetch_from
    Values.ensure_value_fetch Wishes.arm Wishes.announce_wish Wishes.raise_own_wish
    Wishes.send_entry Wishes.enter_marked Wishes.enter_view Wishes.enter_views Wishes.recheck_wishes
    Map.lookup Map.insert Map.remove Map.count Map.values BTree.insert BTree.split_off size stake
    from_party_count keys one_based at wrapped_index kth_largest target_view formed_resolution_entry
    member count
opened = run config opening start

unfoldable closed : World
unfolding Candidates.entry_eq Candidates.bytes_lt Candidates.canonical_entry_key Candidates.before
    Candidates.insert_candidate Candidates.sort_candidates Candidates.contains Candidates.push_new
    Candidates.eligible Candidates.position Candidates.selected Candidates.choose
    Candidates.next_candidate_of Counts.count_up Counts.tally Counts.first_above Counts.winner
    Counts.backing_winner Counts.backed_in Counts.is_backed Counts.accept_key Counts.open_lock
    Counts.count_ballot Counts.ballots Counts.first_ballot Counts.phase_winner Counts.phase_authors
    Counts.fresh_origin_ok Engine.barred_from Engine.prune_books Engine.gc_below Engine.decision
    Engine.current_view Engine.max_view Engine.max_current_view Engine.active_len Engine.awaiting_in
    Engine.views_awaiting_proposal_from Engine.handle Engine.run Evidence.suggestion_ok
    Evidence.on_suggest Evidence.on_proof Evidence.retry_target Evidence.on_witness Handlers.on_vote
    Handlers.reopen_views Handlers.echo_views Handlers.retry_external_validity
    Handlers.statement_formed Handlers.on_statement Handlers.on_done Handlers.answer_once
    Handlers.on_value_fetch Handlers.take_pending Handlers.on_value_serve ◌>>=◌ Monad.pure
    Monad.output Monad.emit_all Monad.gets Monad.instance_of Monad.reads Monad.put_instance
    Monad.on_instance Monad.at_view_mut Monad.at_entry_mut Monad.decided_in Monad.has_instance
    Monad.entry_of Monad.on_books Monad.modify_books Monad.create Monad.conclude
    Phases.emit_statement Phases.act_on_echo Phases.try_echo Phases.emit_backing_witness
    Phases.recheck_backing Phases.emit_done Phases.relay_done Phases.forget_fetches Phases.decide_on
    Phases.recheck_done Phases.adopt_phase Phases.leave_echo Phases.follow_winner
    Phases.advance_phase Phases.finish_lock Phases.then_step Phases.advance_round Phases.after_round
    Phases.advance_loop Phases.advance_view Propose.admits Propose.accepts Propose.accepted_from
    Propose.accepted_suggestions Propose.highest_key Propose.on_proposal Propose.propose
    Propose.take_next_candidate Propose.propose_highest Propose.try_primary_propose
    Replay.has_replay Replay.replay_once Replay.replay_statement Replay.replay_view
    Replay.replay_wish Replay.views_through Replay.send_item Replay.send_items Replay.replay_views
    Replay.mark_done Replay.replay_done Replay.replay_own_wish Replay.replay_progress_to
    Schedule.mix Schedule.next_state Schedule.range Schedule.swap Schedule.shuffle
    Schedule.without_first Schedule.has_name Schedule.move_last Schedule.resolver_schedule
    Schedule.resolution_leader State.new_config Steps.raise_wish Steps.larger_wish Steps.take_wish
    Steps.merge_wishes Steps.with_wishes Steps.with_candidates Steps.mark_entered
    Views.put_suggestion Views.put_proof Views.take_proof Views.put_proposal Views.put_witness
    Views.send_witness Views.request_vote Views.take_vote Views.reopen_vote Views.binding_ok
    Views.with_statement Views.send_statement Views.take_statement Steps.adopt Steps.send_done
    Steps.put_done Steps.echo_action Targets.take_passive Targets.admit_through Targets.add_passive
    Targets.valid_candidates Targets.remember_all Targets.out_of_scope Targets.ensure_instance
    Targets.start_candidates Targets.update_candidates Targets.bar_full_selection
    Targets.activate_with_local_terminal Targets.answer_decided Targets.join_and_replay
    Targets.passive_wish Targets.active_wish Targets.on_wish Targets.on_timer Values.has_pair
    Values.add_pair Values.add_member Values.drop_member Values.is_member Values.valid_entry
    Values.keep_value Values.remember_entry Values.want Values.request_from Values.fetch_from
    Values.ensure_value_fetch Wishes.arm Wishes.announce_wish Wishes.raise_own_wish
    Wishes.send_entry Wishes.enter_marked Wishes.enter_view Wishes.enter_views Wishes.recheck_wishes
    Map.lookup Map.insert Map.remove Map.count Map.values BTree.insert BTree.split_off size stake
    from_party_count keys one_based at wrapped_index kth_largest target_view formed_resolution_entry
    member count
closed = run config closing opened

opened-undecided : decision 3 opened ≡ none
unfolding opened
opened-undecided = refl

closed-decided : decision 3 closed ≡ some (303, ResolutionEntry.skip 3)
unfolding opened closed
closed-decided = refl

run-Sound_example : Sound config (run config opening start)
run-Sound_example = run-Sound config opening

run-Kept_example :
    Evolves Kept (run config opening start) (run config closing (run config opening start))
run-Kept_example = run-Kept config closing (run config opening start) (run-Sound config opening)

winner-Winning_example :
    Winning 2 ((10, 7) ∷ (20, 5) ∷ (30, 5) ∷ []) (winner 2 ((10, 7) ∷ (20, 5) ∷ (30, 5) ∷ []))
winner-Winning_example = winner-Winning 2 ((10, 7) ∷ (20, 5) ∷ (30, 5) ∷ []) (omega arith)

abbrev four : Config
four =
    new_config 10 (record { authorities = (10, 1) ∷ (20, 1) ∷ (30, 1) ∷ (40, 1) ∷ [] }) digest
      (λ c t. []) (λ target. target) 500 8

leads-IsMember_example :
    (k : ℕ) × (k < length (keys four.committee.authorities))
    × ((lap : ℕ) → leads four 3 (1 + k + lap * length (keys four.committee.authorities)) 30 ≡ true)
unfolding keys count new_config
leads-IsMember_example = leads-IsMember four 3 30 (omega arith)

abbrev target : Instance
target = record new_instance {
  candidates = ResolutionEntry.full 3 [] [] ∷ ResolutionEntry.skip 3 ∷ [];
}

next_candidate_of-Offers_example : Offers true target (next_candidate_of true 1 target).0
next_candidate_of-Offers_example = next_candidate_of-Offers true 1 target
