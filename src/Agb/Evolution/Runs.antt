-- ===== src/Agb/Evolution/Runs.antt =====
-- The handlers of messages and timers respect a relation that the steps keep, and so does every run.
use vantage_bft.Base.{
  ℕ, ◌≤◌, ◌≡◌, refl, sym, subst, Bool, true, false, Option, none, some, List, [], ◌∷◌, arith, ◌&&◌,
  not, Bool-cases, inl, inr, if◌then◌else◌,
}
use vantage_bft.Base.BTree.{lookup-split_off}
use vantage_bft.Claim.{BlockRef, AvailClaim}
use vantage_bft.Committee.{PublicKey}
use vantage_bft.Agb.Types.{
  View, Digest, ProposalOut, Echo, EchoBatch, EchoOut, ReadyOut, Outcome, proposal_view,
}
use vantage_bft.Agb.State.{Config, ViewState}
use vantage_bft.Agb.Votes.{LaneView}
use vantage_bft.Agb.Monad.{World, ◌>>=◌, done, state, on_state}
use vantage_bft.Agb.Handlers.{is_unset, canonical_proposal, send_echo_skip}
use vantage_bft.Agb.Receive.{
  take_proposal, on_propose_any, proposed_by, fallback_echo, fallback, on_echo_fallback_timer,
  absolute_skip, on_echo_absolute_timer, refuse_unproposed_view, on_echo_any, take_claim, on_echo,
  on_echo_batch, on_echo_skip, on_ready_any, on_noready, on_skip_vote, submit_resolution,
}
use vantage_bft.Agb.Engine.{recheck_views, move_cursor, recheck_all, gc_below, Event, handle, run}
use vantage_bft.Agb.Respects.{
  Evolves, Evolves-refl, Evolves-trans, Evolves-put_state, Respects, Respects-pure,
  Respects-unless_pruned, Respects-bind,
}
use vantage_bft.Agb.Laws.{StepLaws}
use vantage_bft.Agb.Evolution.{
  step_rules, wish-Respects, try_seal-Respects, count_echo_statement-Respects,
  count_ready_statement-Respects, count_skip_vote_statement-Respects, recheck_lock_release-Respects,
  recheck_fastseal_trigger-Respects, finalize_mix_if_closed-Respects,
  recheck_skip_seal_trigger-Respects, recheck_skip_vote_trigger-Respects,
  recheck_completion_and_direct-Respects, recheck_after_echo-Respects, on_ready_timer-Respects,
}
use vantage_bft.Agb.Evolution.Handlers.{
  state-put_self, try_meta_ok-Respects, try_direct_resolution_vote-Respects,
  mark_echo_sent-Respects, recheck_gate-Respects, activate-Respects, enter-Respects,
  take_proposal-Evolves,
}

and_right : (a b : Bool) → (a && b) ≡ true → b ≡ true
and_right a b h = ground arith

gc_below-floor :
    (floor : View) (w : World) → w.engine.min_live_view ≤ (gc_below floor w).1.engine.min_live_view
unfolding gc_below
gc_below-floor floor w = ground arith

gc_below-state :
    (floor : View) (w : World) (v : View)
    → (gc_below floor w).1.engine.min_live_view ≤ v
    → state v (gc_below floor w).1 ≡ state v w
unfolding gc_below state
gc_below-state floor w v h = ground (arith, lookup-split_off v floor w.engine.views)

module _ {cfg : Config} {S : ViewState → ViewState → Type 0} (L : StepLaws cfg S) where
  open L use {preorder, at_cached}

  -- The first proposal that is taken finds no other fixed.
  open_proposal-Evolves :
      (v : View) (p : ProposalOut) (now : ℕ) (lm : LaneView) (w : World) (b : Bool)
      → (b ≡ true → is_unset (state v w).fixed ≡ true)
      → Evolves S w ((if b then take_proposal cfg v p now lm else done) w).1
  open_proposal-Evolves v p now lm w true h = take_proposal-Evolves L v p now lm w (h refl)
  open_proposal-Evolves v p now lm w false h = (Respects-pure preorder tt).at w

  on_propose_any-Respects :
      (sender : PublicKey) (p : ProposalOut) (now : ℕ) (lm : LaneView)
      → Respects S (on_propose_any cfg sender p now lm)
  unfolding on_propose_any ◌>>=◌ on_state
  on_propose_any-Respects sender p now lm =
      let v = proposal_view p in
      Respects-unless_pruned preorder v tt _ (elim (Bool-cases (not (proposed_by cfg v sender))) [
        | inl e ↦ rw e (Respects-pure preorder tt)
        | inr e ↦ rw e (record {
          at = λ w.
              Evolves-trans preorder w _ _ (Evolves-put_state preorder v _ w (preorder.refl_at _)) (
                open_proposal-Evolves v p now lm _ _
                  (λ h. rw (state-put_self v _ w) (and_right _ _ h)));
        })
      ])

  send_echo_skip-Respects : (v : View) → Respects S (send_echo_skip cfg v)
  unfolding send_echo_skip
  send_echo_skip-Respects v = search (step_rules, preorder, count_echo_statement-Respects) depth 10

  fallback_echo-Respects :
      (v : View) (p : ProposalOut) (d : Digest) (lm : LaneView)
      → Respects S (fallback_echo cfg v p d lm)
  unfolding fallback_echo
  fallback_echo-Respects v p d lm =
      search (step_rules, preorder, try_meta_ok-Respects, count_echo_statement-Respects) depth 20

  fallback-Respects :
      (v : View) (lm : LaneView) (o : Option (ProposalOut × Digest))
      → Respects S (fallback cfg v lm o)
  unfolding fallback
  fallback-Respects v lm none = search (step_rules, preorder)
  fallback-Respects v lm (some (p, d)) =
      search
        (
          step_rules, preorder, mark_echo_sent-Respects, wish-Respects, fallback_echo-Respects,
          recheck_after_echo-Respects,
        )
        depth 16

  on_echo_fallback_timer-Respects :
      (v : View) (lm : LaneView) → Respects S (on_echo_fallback_timer cfg v lm)
  unfolding on_echo_fallback_timer
  on_echo_fallback_timer-Respects v lm = search (step_rules, preorder, fallback-Respects) depth 10

  absolute_skip-Respects : (v : View) → Respects S (absolute_skip cfg v)
  unfolding absolute_skip
  absolute_skip-Respects v =
      search
        (
          step_rules, preorder, mark_echo_sent-Respects, wish-Respects,
          count_echo_statement-Respects, recheck_after_echo-Respects,
        )
        depth 20

  on_echo_absolute_timer-Respects : (v : View) → Respects S (on_echo_absolute_timer cfg v)
  unfolding on_echo_absolute_timer
  on_echo_absolute_timer-Respects v = search (step_rules, preorder, absolute_skip-Respects) depth 10

  refuse_unproposed_view-Respects : (v : View) → Respects S (refuse_unproposed_view cfg v)
  unfolding refuse_unproposed_view
  refuse_unproposed_view-Respects v =
      search (step_rules, preorder, on_echo_absolute_timer-Respects, on_ready_timer-Respects) depth
        14

  canonical_proposal-Respects :
      (v : View) (p : ProposalOut) → Respects S (canonical_proposal cfg v p)
  unfolding canonical_proposal
  canonical_proposal-Respects v p = search (step_rules, preorder, at_cached)

  on_echo_any-Respects : (e : EchoOut) → Respects S (on_echo_any cfg e)
  unfolding on_echo_any
  on_echo_any-Respects e =
      search
        (
          step_rules, preorder, canonical_proposal-Respects, count_echo_statement-Respects,
          recheck_after_echo-Respects,
        )
        depth 20

  take_claim-Respects :
      (k : PublicKey) (refs : List BlockRef) (o : Option AvailClaim)
      → Respects S (take_claim cfg k refs o)
  unfolding take_claim
  take_claim-Respects k refs none = search (step_rules, preorder)
  take_claim-Respects k refs (some c) = search (step_rules, preorder) depth 10

  on_echo-Respects : (e : Echo) → Respects S (on_echo cfg e)
  unfolding on_echo
  on_echo-Respects e =
      search (step_rules, preorder, take_claim-Respects, on_echo_any-Respects) depth 12

  on_echo_batch-Respects : (e : EchoBatch) → Respects S (on_echo_batch cfg e)
  unfolding on_echo_batch
  on_echo_batch-Respects e =
      search (step_rules, preorder, take_claim-Respects, on_echo_any-Respects) depth 12

  on_echo_skip-Respects : (v : View) (k : PublicKey) → Respects S (on_echo_skip cfg v k)
  unfolding on_echo_skip
  on_echo_skip-Respects v k =
      search
        (
          step_rules, preorder, count_echo_statement-Respects, recheck_lock_release-Respects,
          finalize_mix_if_closed-Respects, recheck_fastseal_trigger-Respects,
          recheck_skip_vote_trigger-Respects,
        )
        depth 20

  on_ready_any-Respects : (r : ReadyOut) → Respects S (on_ready_any cfg r)
  unfolding on_ready_any
  on_ready_any-Respects r =
      search
        (
          step_rules, preorder, canonical_proposal-Respects, count_ready_statement-Respects,
          recheck_completion_and_direct-Respects,
        )
        depth 20

  on_noready-Respects : (v : View) (k : PublicKey) → Respects S (on_noready cfg v k)
  unfolding on_noready
  on_noready-Respects v k = search (step_rules, preorder, count_ready_statement-Respects) depth 10

  on_skip_vote-Respects : (v : View) (k : PublicKey) → Respects S (on_skip_vote cfg v k)
  unfolding on_skip_vote
  on_skip_vote-Respects v k =
      search
        (
          step_rules, preorder, count_skip_vote_statement-Respects,
          recheck_skip_seal_trigger-Respects,
        )
        depth 12

  submit_resolution-Respects : (v : View) (o : Outcome) → Respects S (submit_resolution cfg v o)
  unfolding submit_resolution
  submit_resolution-Respects v o = search (step_rules, preorder, try_seal-Respects)

  move_cursor-Respects : (o : Option View) → Respects S (move_cursor cfg o)
  unfolding move_cursor
  move_cursor-Respects none = search (step_rules, preorder)
  move_cursor-Respects (some v) = search (step_rules, preorder)

  recheck_views-Respects : (vs : List View) (lm : LaneView) → Respects S (recheck_views cfg vs lm)
  unfolding recheck_views
  recheck_views-Respects [] lm = search (step_rules, preorder)
  recheck_views-Respects (v ∷ vs) lm =
      Respects-bind preorder _ _ (recheck_gate-Respects L v lm) (λ _. recheck_views-Respects vs lm)

  recheck_all-Respects : (lm : LaneView) → Respects S (recheck_all cfg lm)
  unfolding recheck_all
  recheck_all-Respects lm =
      search (step_rules, preorder, move_cursor-Respects, recheck_views-Respects) depth 10

  gc_below-Respects : (floor : View) → Respects S (gc_below floor)
  gc_below-Respects floor = record {
    at = λ w. record {
      floor = gc_below-floor floor w;
      views = λ v h.
          subst (S (state v w)) (sym (gc_below-state floor w v h)) (preorder.refl_at (state v w));
    };
  }

  pub handle-Respects : (e : Event) → Respects S (handle cfg e)
  unfolding handle
  handle-Respects (Event.enters v now lm) = enter-Respects L v now lm
  handle-Respects (Event.activates v lm) = activate-Respects L v lm
  handle-Respects (Event.proposes sender p now lm) = on_propose_any-Respects sender p now lm
  handle-Respects (Event.rechecks lm) = recheck_all-Respects lm
  handle-Respects (Event.fallback_timer v lm) = on_echo_fallback_timer-Respects v lm
  handle-Respects (Event.echo_timer v) = on_echo_absolute_timer-Respects v
  handle-Respects (Event.ready_timer v) = on_ready_timer-Respects L v
  handle-Respects (Event.refuses v) = refuse_unproposed_view-Respects v
  handle-Respects (Event.echoes e) = on_echo-Respects e
  handle-Respects (Event.echoes_batch e) = on_echo_batch-Respects e
  handle-Respects (Event.skips_echo v k) = on_echo_skip-Respects v k
  handle-Respects (Event.readies r) = on_ready_any-Respects r
  handle-Respects (Event.skips_ready v k) = on_noready-Respects v k
  handle-Respects (Event.votes_skip v k) = on_skip_vote-Respects v k
  handle-Respects (Event.resolves v o) = submit_resolution-Respects v o
  handle-Respects (Event.votes_direct e fresh lm) =
      search (step_rules, preorder, try_direct_resolution_vote-Respects)
  handle-Respects (Event.prunes floor) = gc_below-Respects floor

  pub run-Evolves : (es : List Event) (w : World) → Evolves S w (run cfg es w)
  unfolding run
  run-Evolves [] w = Evolves-refl preorder w
  run-Evolves (e ∷ es) w =
      Evolves-trans preorder w _ _ ((handle-Respects e).at w) (run-Evolves es (handle cfg e w).1)
