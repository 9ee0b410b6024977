-- ===== src/Agb/Evolution.antt =====
-- Every recheck of the engine respects a relation that the steps keep.
pub mod Handlers
pub mod Runs
use vantage_bft.Base.{Bool, true, false, Option, none, some}
use vantage_bft.Committee.{PublicKey}
use vantage_bft.Agb.Types.{View, Digest, ProposalOut, Outcome, ResponseStage}
use vantage_bft.Agb.State.{Config, EchoStatement, ReadyStatement, ReadyTally, ViewState}
use vantage_bft.Agb.Steps.{Candidate}
use vantage_bft.Agb.Monad.{◌>>=◌}
use vantage_bft.Agb.Rechecks.{
  wish, emit_wish, try_seal, seal_option, count_echo_statement, count_ready_statement,
  count_skip_vote_statement, record_lock, recheck_lock_release, recheck_fastseal_trigger,
  finalize_mix_if_closed, recheck_skip_seal_trigger, cast_skip_vote, recheck_skip_vote_trigger,
  announce_completed, settle, recheck_completion_and_direct, emit_initial_ready, refined,
  emit_ready_refinement, initial_ready, refine_or_close, after_ready_sent, recheck_ready,
  recheck_after_echo, respond_no_ready, ready_deadline_open, ready_deadline, on_ready_timer,
}
use vantage_bft.Agb.Respects.{
  Respects, Respects-on_state, Respects-on_view, Respects-modify, Respects-modify_view,
  respects_rules,
}
use vantage_bft.Agb.Laws.{StepLaws}

pub ruleset step_rules =
    (respects_rules, Respects-on_state, Respects-on_view, Respects-modify, Respects-modify_view)

module _ {cfg : Config} {S : ViewState → ViewState → Type 0} (L : StepLaws cfg S) where
  open L use {
    preorder, at_count_echo, at_count_ready, at_count_skip_vote, at_take_lock, at_release_lock,
    at_fastseal, at_finalize_mix, at_claim_skip_seal, at_claim_skip_vote, at_complete, at_direct,
    at_seal, at_open_ready, at_close_mix, at_ready_sent,
  }

  pub identity : (s : ViewState) → S s s
  identity s = preorder.refl_at s

  emit_wish-Respects : (v : Option View) → Respects S (emit_wish v)
  emit_wish-Respects none = search (step_rules, preorder)
  emit_wish-Respects (some v) = search (step_rules, preorder)

  pub wish-Respects : (v : View) (stage : ResponseStage) → Respects S (wish v stage)
  unfolding wish
  wish-Respects v stage = search (step_rules, preorder, emit_wish-Respects)

  pub try_seal-Respects : (v : View) (o : Outcome) → Respects S (try_seal v o)
  unfolding try_seal
  try_seal-Respects v o = search (step_rules, preorder, at_seal) depth 10

  seal_option-Respects : (v : View) (o : Option Outcome) → Respects S (seal_option v o)
  seal_option-Respects v none = search (step_rules, preorder)
  seal_option-Respects v (some o) = try_seal-Respects v o

  pub count_echo_statement-Respects :
      (v : View) (k : PublicKey) (st : EchoStatement) → Respects S (count_echo_statement cfg v k st)
  unfolding count_echo_statement
  count_echo_statement-Respects v k st = search (step_rules, preorder, at_count_echo)

  pub count_ready_statement-Respects :
      (v : View) (k : PublicKey) (st : ReadyStatement)
      → Respects S (count_ready_statement cfg v k st)
  unfolding count_ready_statement
  count_ready_statement-Respects v k st = search (step_rules, preorder, at_count_ready)

  pub count_skip_vote_statement-Respects :
      (v : View) (k : PublicKey) → Respects S (count_skip_vote_statement cfg v k)
  unfolding count_skip_vote_statement
  count_skip_vote_statement-Respects v k = search (step_rules, preorder, at_count_skip_vote)

  pub record_lock-Respects :
      (v : View) (p : ProposalOut) (d : Digest) → Respects S (record_lock cfg v p d)
  unfolding record_lock
  record_lock-Respects v p d = search (step_rules, preorder, at_take_lock)

  pub recheck_lock_release-Respects : (v : View) → Respects S (recheck_lock_release cfg v)
  unfolding recheck_lock_release
  recheck_lock_release-Respects v = search (step_rules, preorder, at_release_lock)

  pub recheck_fastseal_trigger-Respects : (v : View) → Respects S (recheck_fastseal_trigger cfg v)
  unfolding recheck_fastseal_trigger
  recheck_fastseal_trigger-Respects v =
      search (step_rules, preorder, at_fastseal, seal_option-Respects)

  pub finalize_mix_if_closed-Respects :
      (v : View) (deadline : Bool) → Respects S (finalize_mix_if_closed cfg v deadline)
  unfolding finalize_mix_if_closed
  finalize_mix_if_closed-Respects v b = search (step_rules, preorder, at_finalize_mix)

  pub recheck_skip_seal_trigger-Respects : (v : View) → Respects S (recheck_skip_seal_trigger cfg v)
  unfolding recheck_skip_seal_trigger
  recheck_skip_seal_trigger-Respects v =
      search (step_rules, preorder, at_claim_skip_seal, try_seal-Respects) depth 10

  cast_skip_vote-Respects : (v : View) → Respects S (cast_skip_vote cfg v)
  unfolding cast_skip_vote
  cast_skip_vote-Respects v =
      search
        (
          step_rules, preorder, count_skip_vote_statement-Respects,
          recheck_skip_seal_trigger-Respects,
        )
        depth 12

  pub recheck_skip_vote_trigger-Respects : (v : View) → Respects S (recheck_skip_vote_trigger cfg v)
  unfolding recheck_skip_vote_trigger
  recheck_skip_vote_trigger-Respects v =
      search (step_rules, preorder, at_claim_skip_vote, cast_skip_vote-Respects) depth 10

  announce_completed-Respects :
      (v : View) (p : ProposalOut) (o : Option Bool) → Respects S (announce_completed cfg v p o)
  unfolding announce_completed
  announce_completed-Respects v p none = search (step_rules, preorder)
  announce_completed-Respects v p (some b) = search (step_rules, preorder) depth 10

  settle-Respects : (v : View) (t : Option ReadyTally) → Respects S (settle cfg v t)
  unfolding settle
  settle-Respects v none = search (step_rules, preorder)
  settle-Respects v (some t) =
      search
        (
          step_rules, preorder, at_complete, at_direct, announce_completed-Respects,
          seal_option-Respects,
        )
        depth 12

  pub recheck_completion_and_direct-Respects :
      (v : View) (d : Digest) → Respects S (recheck_completion_and_direct cfg v d)
  unfolding recheck_completion_and_direct
  recheck_completion_and_direct-Respects v d =
      search (step_rules, preorder, settle-Respects) depth 10

  pub emit_initial_ready-Respects :
      (v : View) (c : Candidate) → Respects S (emit_initial_ready cfg v c)
  unfolding emit_initial_ready
  emit_initial_ready-Respects v c =
      search
        (
          step_rules, preorder, at_open_ready, count_ready_statement-Respects, wish-Respects,
          recheck_completion_and_direct-Respects, finalize_mix_if_closed-Respects,
        )
        depth 20

  refined-Respects : (v : View) (c : Candidate) (b : Bool) → Respects S (refined cfg v c b)
  unfolding refined
  refined-Respects v c false = search (step_rules, preorder)
  refined-Respects v c true =
      search (step_rules, preorder, at_close_mix, recheck_completion_and_direct-Respects) depth 12

  pub emit_ready_refinement-Respects :
      (v : View) (c : Candidate) → Respects S (emit_ready_refinement cfg v c)
  unfolding emit_ready_refinement
  emit_ready_refinement-Respects v c =
      search (step_rules, preorder, count_ready_statement-Respects, refined-Respects) depth 10

  initial_ready-Respects : (v : View) (c : Option Candidate) → Respects S (initial_ready cfg v c)
  unfolding initial_ready
  initial_ready-Respects v none = search (step_rules, preorder)
  initial_ready-Respects v (some c) = emit_initial_ready-Respects v c

  refine_or_close-Respects :
      (v : View) (b : Bool) (c : Option Candidate) → Respects S (refine_or_close cfg v b c)
  unfolding refine_or_close
  refine_or_close-Respects v b none = finalize_mix_if_closed-Respects v b
  refine_or_close-Respects v b (some c) = emit_ready_refinement-Respects v c

  after_ready_sent-Respects : (v : View) (b : Bool) → Respects S (after_ready_sent cfg v b)
  unfolding after_ready_sent
  after_ready_sent-Respects v false = search (step_rules, preorder, initial_ready-Respects)
  after_ready_sent-Respects v true = search (step_rules, preorder, refine_or_close-Respects)

  pub recheck_ready-Respects : (v : View) → Respects S (recheck_ready cfg v)
  unfolding recheck_ready
  recheck_ready-Respects v =
      search (step_rules, preorder, identity, after_ready_sent-Respects) depth 10

  pub recheck_after_echo-Respects : (v : View) → Respects S (recheck_after_echo cfg v)
  unfolding recheck_after_echo
  recheck_after_echo-Respects v =
      search
        (
          step_rules, preorder, recheck_lock_release-Respects, recheck_ready-Respects,
          recheck_fastseal_trigger-Respects, recheck_skip_vote_trigger-Respects,
        )
        depth 12

  respond_no_ready-Respects : (v : View) → Respects S (respond_no_ready cfg v)
  unfolding respond_no_ready
  respond_no_ready-Respects v =
      search
        (
          step_rules, preorder, at_ready_sent, count_ready_statement-Respects, wish-Respects,
          recheck_skip_vote_trigger-Respects,
        )
        depth 16

  ready_deadline_open-Respects :
      (v : View) (c : Option Candidate) → Respects S (ready_deadline_open cfg v c)
  unfolding ready_deadline_open
  ready_deadline_open-Respects v none = respond_no_ready-Respects v
  ready_deadline_open-Respects v (some c) =
      search (step_rules, preorder, emit_initial_ready-Respects, finalize_mix_if_closed-Respects)

  ready_deadline-Respects : (v : View) (b : Bool) → Respects S (ready_deadline cfg v b)
  unfolding ready_deadline
  ready_deadline-Respects v false = search (step_rules, preorder, ready_deadline_open-Respects)
  ready_deadline-Respects v true = search (step_rules, preorder, refine_or_close-Respects)

  pub on_ready_timer-Respects : (v : View) → Respects S (on_ready_timer cfg v)
  unfolding on_ready_timer
  on_ready_timer-Respects v =
      search (step_rules, preorder, identity, ready_deadline-Respects) depth 10
