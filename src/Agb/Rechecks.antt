-- ===== src/Agb/Rechecks.antt =====
-- primary/src/vantage/agb.rs: the methods that recheck a view's triggers after a statement.
use vantage_bft.Base.{
  ◌+◌, ◌-◌, Bool, true, false, ◌||◌, Option, none, some, List, [], ◌∷◌, ◌++◌, u64, ◌==◌,
  if◌then◌else◌,
}
use vantage_bft.Base.Map.{lookup}
use vantage_bft.Claim.{BlockRef}
use vantage_bft.Committee.{PublicKey, stake}
use vantage_bft.Agb.Types.{
  View, Digest, ProposalOut, ReadyGrade, ReadyOut, ResolutionEntry, Outcome, ResponseStage, core_of,
  tip_of, entries, references,
}
use vantage_bft.Agb.State.{Config, EchoStatement, ReadyStatement, ReadyTally, ViewState}
use vantage_bft.Agb.Statements.{count_echo, count_ready}
use vantage_bft.Agb.Steps.{
  Candidate, ready_candidate, ready_refinement_candidate, finalize_mix, open_ready, complete,
  direct, seal, take_lock, release_lock, fastseal,
}
use vantage_bft.Agb.Votes.{claim_skip_vote, count_skip_vote, claim_skip_seal}
use vantage_bft.Agb.Monad.{
  World, Agb, ◌>>=◌, ◌>>◌, done, emit, authorize_all, when, on_state, on_view, modify, modify_view,
  gets, find_view, is_pruned, unless_pruned, live, quarantine_tips, completed, sealed, raise_wish,
  broadcast_ready, broadcast_no_ready, broadcast_skip_vote,
}

-- Whether the view has a state that passes the test: `views.get(&v).is_some_and(…)`.
abbrev pub passes : (ViewState → Bool) → Option ViewState → Bool
passes p none = false
passes p (some s) = p s

unfoldable pub two_response_wish_target : View → ResponseStage → World → Option View
unfolding find_view is_pruned
two_response_wish_target view ResponseStage.echo w =
    let prev = view - 1 in
    if prev == 0 || is_pruned prev w || passes (λ s. s.ready_sent) (find_view prev w)
    then some (u64 (view + 2))
    else none
two_response_wish_target view ResponseStage.ready w =
    let next = u64 (view + 1) in
    if is_pruned next w || passes (λ s. s.echo_sent) (find_view next w)
    then some (u64 (view + 3))
    else none

abbrev pub emit_wish : Option View → Agb (Unit {0})
emit_wish none = done
emit_wish (some v) = emit (raise_wish v)

unfoldable pub wish : View → ResponseStage → Agb (Unit {0})
unfolding two_response_wish_target
wish view stage = do target ← gets (two_response_wish_target view stage); emit_wish target

unfoldable pub try_seal : View → Outcome → Agb (Unit {0})
unfolding seal
try_seal view outcome =
    live view (do first ← on_state view (seal outcome); when first (emit (sealed view outcome)))

abbrev pub seal_option : View → Option Outcome → Agb (Unit {0})
seal_option view none = done
seal_option view (some outcome) = try_seal view outcome

-- `aux_refs_entries`
unfoldable pub aux_refs : List ResolutionEntry → List BlockRef
unfolding references
aux_refs [] = []
aux_refs (e ∷ rest) = references e ++ aux_refs rest

module _ (cfg : Config) where
  unfoldable pub count_echo_statement : View → PublicKey → EchoStatement → Agb Bool
  unfolding count_echo stake
  count_echo_statement view sender st =
      unless_pruned view false (on_state view (count_echo (stake cfg.committee sender) sender st))

  unfoldable pub count_ready_statement : View → PublicKey → ReadyStatement → Agb Bool
  unfolding count_ready stake
  count_ready_statement view sender st =
      unless_pruned view false (on_state view (count_ready (stake cfg.committee sender) sender st))

  unfoldable pub count_skip_vote_statement : View → PublicKey → Agb Bool
  unfolding count_skip_vote
  count_skip_vote_statement view sender =
      unless_pruned view false (on_state view (count_skip_vote sender))

  unfoldable pub record_lock : View → ProposalOut → Digest → Agb (Unit {0})
  unfolding take_lock
  record_lock view p d = live view (modify view (take_lock cfg p d))

  unfoldable pub recheck_lock_release : View → Agb (Unit {0})
  unfolding release_lock
  recheck_lock_release view = modify_view view (release_lock cfg)

  unfoldable pub recheck_fastseal_trigger : View → Agb (Unit {0})
  unfolding fastseal
  recheck_fastseal_trigger view = do
    outcome ← on_view view none (fastseal cfg)
    seal_option view outcome

  unfoldable pub finalize_mix_if_closed : View → Bool → Agb (Unit {0})
  unfolding finalize_mix
  finalize_mix_if_closed view deadline = modify_view view (finalize_mix cfg deadline)

  unfoldable pub recheck_skip_seal_trigger : View → Agb (Unit {0})
  unfolding claim_skip_seal
  recheck_skip_seal_trigger u =
      live u
        (do claimed ← on_view u false (claim_skip_seal cfg); when claimed (try_seal u Outcome.skip))

  unfoldable pub cast_skip_vote : View → Agb (Unit {0})
  cast_skip_vote u = do
    count_skip_vote_statement u cfg.name >>= λ counted. done
    emit (broadcast_skip_vote u)
    recheck_skip_seal_trigger u

  unfoldable pub recheck_skip_vote_trigger : View → Agb (Unit {0})
  unfolding claim_skip_vote cast_skip_vote
  recheck_skip_vote_trigger u =
      live u (do vote ← on_view u false (claim_skip_vote cfg); when vote (cast_skip_vote u))

  -- What follows when a view completes in this call.
  unfoldable pub announce_completed : View → ProposalOut → Option Bool → Agb (Unit {0})
  unfolding core_of tip_of entries aux_refs
  announce_completed view p none = done
  announce_completed view p (some is_open) = do
    authorize_all (core_of p ++ aux_refs (entries p))
    when is_open (emit (quarantine_tips (tip_of p)))
    emit (completed view (core_of p) (tip_of p))

  unfoldable pub settle : View → Option ReadyTally → Agb (Unit {0})
  unfolding complete direct announce_completed
  settle view none = done
  settle view (some t) = do
    newly ← on_state view (complete cfg t)
    announce_completed view t.proposal newly
    outcome ← on_state view (direct cfg t)
    seal_option view outcome

  unfoldable pub tally_in : Digest → Option ViewState → Option ReadyTally
  unfolding lookup
  tally_in d none = none
  tally_in d (some s) = lookup d s.ready_tallies

  unfoldable pub recheck_completion_and_direct : View → Digest → Agb (Unit {0})
  unfolding settle tally_in find_view
  recheck_completion_and_direct view d =
      live view (do tally ← gets (λ w. tally_in d (find_view view w)); settle view tally)

  unfoldable pub build_ready_out : ProposalOut → ReadyGrade → ReadyOut
  build_ready_out (ProposalOut.single p) grade =
      ReadyOut.single (record { proposal = p; grade = grade; sender = cfg.name; wish = 0 })
  build_ready_out (ProposalOut.batch p) grade =
      ReadyOut.batch (record { proposal = p; grade = grade; sender = cfg.name; wish = 0 })

  unfoldable pub emit_initial_ready : View → Candidate → Agb (Unit {0})
  unfolding open_ready build_ready_out
  emit_initial_ready view (d, p, grade) = do
    modify view (open_ready grade)
    count_ready_statement view cfg.name (ReadyStatement.graded p d grade) >>= λ counted. done
    wish view ResponseStage.ready
    emit (broadcast_ready (build_ready_out p grade))
    recheck_completion_and_direct view d
    finalize_mix_if_closed view false

  unfoldable pub refined : View → Candidate → Bool → Agb (Unit {0})
  unfolding build_ready_out
  refined view c false = done
  refined view (d, p, grade) true = do
    modify view (λ s. record s { ready_mix_open = false })
    emit (broadcast_ready (build_ready_out p grade))
    recheck_completion_and_direct view d

  unfoldable pub emit_ready_refinement : View → Candidate → Agb (Unit {0})
  unfolding refined
  emit_ready_refinement view (d, p, grade) = do
    accepted ← count_ready_statement view cfg.name (ReadyStatement.graded p d grade)
    refined view (d, p, grade) accepted

  unfoldable pub initial_ready : View → Option Candidate → Agb (Unit {0})
  initial_ready view none = done
  initial_ready view (some c) = emit_initial_ready view c

  unfoldable pub refine_or_close : View → Bool → Option Candidate → Agb (Unit {0})
  refine_or_close view deadline none = finalize_mix_if_closed view deadline
  refine_or_close view deadline (some c) = emit_ready_refinement view c

  -- What a read of the view's state finds, with `none` where it has none.
  unfoldable pub candidate_at : (ViewState → Option Candidate) → View → World → Option Candidate
  unfolding find_view
  candidate_at f view w = elim (find_view view w) [ none ↦ none | some s ↦ f s ]

  unfoldable pub after_ready_sent : View → Bool → Agb (Unit {0})
  unfolding candidate_at initial_ready refine_or_close ready_candidate ready_refinement_candidate
  after_ready_sent view false = do
    found ← gets (candidate_at (ready_candidate cfg) view)
    initial_ready view found
  after_ready_sent view true = do
    found ← gets (candidate_at (ready_refinement_candidate cfg) view)
    refine_or_close view false found

  unfoldable pub recheck_ready : View → Agb (Unit {0})
  unfolding after_ready_sent
  recheck_ready view =
      live view (do sent ← on_state view (λ s. (s.ready_sent, s)); after_ready_sent view sent)

  -- The calls that follow every echo-stage response and every echo that is counted.
  unfoldable pub recheck_after_echo : View → Agb (Unit {0})
  recheck_after_echo view = do
    recheck_lock_release view
    recheck_ready view
    recheck_fastseal_trigger view
    recheck_skip_vote_trigger view

  unfoldable pub respond_no_ready : View → Agb (Unit {0})
  respond_no_ready view = do
    modify view (λ s. record s { ready_sent = true })
    count_ready_statement view cfg.name ReadyStatement.no_ready >>= λ counted. done
    wish view ResponseStage.ready
    emit (broadcast_no_ready view)
    recheck_skip_vote_trigger view

  -- `on_ready_timer`, once the response is known to be open or sent.
  unfoldable pub ready_deadline_open : View → Option Candidate → Agb (Unit {0})
  unfolding respond_no_ready
  ready_deadline_open view none = respond_no_ready view
  ready_deadline_open view (some c) = do emit_initial_ready view c; finalize_mix_if_closed view true

  unfoldable pub ready_deadline : View → Bool → Agb (Unit {0})
  unfolding ready_deadline_open candidate_at refine_or_close
  ready_deadline view false = do
    found ← gets (candidate_at (ready_candidate cfg) view)
    ready_deadline_open view found
  ready_deadline view true = do
    found ← gets (candidate_at (ready_refinement_candidate cfg) view)
    refine_or_close view true found

  unfoldable pub on_ready_timer : View → Agb (Unit {0})
  unfolding ready_deadline
  on_ready_timer view =
      live view (do sent ← on_state view (λ s. (s.ready_sent, s)); ready_deadline view sent)
