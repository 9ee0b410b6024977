-- ===== src/Agb/Handlers.antt =====
-- primary/src/vantage/agb.rs: the handlers of proposals, echoes, readies, votes and timers.
use vantage_bft.Base.{
  ℕ, ◌+◌, ◌*◌, min, max, Bool, true, false, not, ◌&&◌, ◌||◌, Option, none, some, List, [], ◌∷◌,
  ◌++◌, is_some, if◌then◌else◌,
}
use vantage_bft.Agb.Types.{
  View, Digest, ProposalOut, EchoOut, TimerKind, ResponseStage, entries, proposal_eq,
}
use vantage_bft.Agb.State.{Config, Fixed, EchoStatement, ViewState}
use vantage_bft.Agb.Votes.{LaneView}
use vantage_bft.Agb.Monad.{
  Agb, ◌>>=◌, ◌>>◌, done, emit, when, on_state, modify, gets, insert_view, remove_view, on_gate,
  live, broadcast_echo, broadcast_echo_skip, arm_timer,
}
use vantage_bft.Agb.Rechecks.{wish, count_echo_statement, record_lock, recheck_after_echo}
use vantage_bft.Agb.Meta.{compute_origin, positive_gate_holds}

-- The cached digest of a proposal body, or a new entry of the cache.
unfoldable pub find_digest :
    ProposalOut → List (ProposalOut × Digest) → Option (ProposalOut × Digest)
unfolding proposal_eq
find_digest p [] = none
find_digest p ((q, d) ∷ rest) = if proposal_eq q p then some (q, d) else find_digest p rest

abbrev pub proposal_in : Fixed → Option (ProposalOut × Digest)
proposal_in (Fixed.proposal p d) = some (p, d)
proposal_in Fixed.unset = none
proposal_in Fixed.reject = none

abbrev pub is_unset : Fixed → Bool
is_unset Fixed.unset = true
is_unset Fixed.reject = false
is_unset (Fixed.proposal p d) = false

abbrev pub theta_echo : Config → ℕ
theta_echo cfg = cfg.delta * 3

abbrev pub theta_ready : Config → ℕ
theta_ready cfg = cfg.delta * 4

module _ (cfg : Config) where
  unfoldable pub cached : ProposalOut → ViewState → (ProposalOut × Digest) × ViewState
  unfolding find_digest
  cached p s = elim (find_digest p s.digest_cache) [
    | some hit ↦ (hit, s)
    | none ↦
        ((p, cfg.digest p), record s { digest_cache = s.digest_cache ++ (p, cfg.digest p) ∷ [] })
  ]

  unfoldable pub canonical_proposal : View → ProposalOut → Agb (ProposalOut × Digest)
  unfolding cached
  canonical_proposal view p = on_state view (cached p)

  unfoldable pub build_echo_out : ProposalOut → ℕ → List (Option ℕ) → EchoOut
  build_echo_out (ProposalOut.single p) grade origin = EchoOut.single (record {
    proposal = p;
    grade = grade;
    sender = cfg.name;
    wish = 0;
    origin = elim origin [ [] ↦ none | o ∷ rest ↦ o ];
    avail = none;
  })
  build_echo_out (ProposalOut.batch p) grade origin =
      EchoOut.batch
        (record { proposal = p; grade = grade; sender = cfg.name; wish = 0; avail = none })

  -- An echo of the own party with this grade: it is counted, and broadcast.
  unfoldable pub send_echo : View → ProposalOut → Digest → ℕ → List (Option ℕ) → Agb (Unit {0})
  unfolding build_echo_out
  send_echo view p d grade origin = do
    count_echo_statement cfg view cfg.name (EchoStatement.graded p d grade origin) >>= λ counted.
        done
    emit (broadcast_echo (build_echo_out p grade origin))

  unfoldable pub send_echo_skip : View → Agb (Unit {0})
  send_echo_skip view = do
    count_echo_statement cfg view cfg.name EchoStatement.skip >>= λ counted. done
    emit (broadcast_echo_skip view)

  unfoldable pub mark_echo_sent : View → Agb (Unit {0})
  mark_echo_sent view = do
    modify view (λ s. record s { echo_sent = true })
    on_gate (remove_view view)

  -- In the positive echo the wish stands between the count and the broadcast.
  unfoldable pub positive_echo : View → ProposalOut → Digest → Agb (Unit {0})
  unfolding build_echo_out mark_echo_sent
  positive_echo view p d = do
    record_lock cfg view p d
    mark_echo_sent view
    origin ← gets (compute_origin cfg (entries p))
    count_echo_statement cfg view cfg.name (EchoStatement.graded p d 1 origin) >>= λ counted. done
    wish view ResponseStage.echo
    emit (broadcast_echo (build_echo_out p 1 origin))
    recheck_after_echo cfg view

  unfoldable pub gate_fixed : View → LaneView → Option (ProposalOut × Digest) → Agb (Unit {0})
  unfolding positive_echo
  gate_fixed view lm none = done
  gate_fixed view lm (some (p, d)) = do
    held ← positive_gate_holds cfg p lm
    when held (positive_echo view p d)

  unfoldable pub recheck_gate : View → LaneView → Agb (Unit {0})
  unfolding gate_fixed
  recheck_gate view lm = live view (do
    s ← on_state view (λ s. (s, s))
    if not s.active || s.echo_sent then done else gate_fixed view lm (proposal_in s.fixed))

  unfoldable pub start_activity : ViewState → Bool × ViewState
  start_activity s = (is_some (proposal_in s.fixed) && not s.echo_sent, record s { active = true })

  unfoldable pub activate : View → LaneView → Agb (Unit {0})
  unfolding start_activity recheck_gate
  activate view lm = live view (do
    was ← on_state view (λ s. (s.active, s))
    if was then done else do
      awaits ← on_state view start_activity
      when awaits (on_gate (insert_view view))
      recheck_gate view lm)

  -- The fallback deadline, when a fixed proposal still awaits its echo.
  unfoldable pub fallback_deadline : ℕ → ViewState → Option ℕ
  fallback_deadline now s =
      if is_some (proposal_in s.fixed) && not s.echo_sent
      then elim s.first_proposal_instant [
        | none ↦ none
        | some rho ↦ some (min (max now rho + cfg.delta) (now + theta_echo cfg))
      ]
      else none

  unfoldable pub arm_fallback : View → Option ℕ → Agb (Unit {0})
  arm_fallback view none = done
  arm_fallback view (some deadline) = emit (arm_timer view TimerKind.echo_fallback deadline)

  unfoldable pub enter : View → (now : ℕ) → LaneView → Agb (Unit {0})
  unfolding fallback_deadline arm_fallback activate
  enter view now lm = live view (do
    was ← on_state view (λ s. (s.entered, s))
    if was then done else do
      modify view (λ s. record s { entered = true; entry_instant = some now })
      emit (arm_timer view TimerKind.echo_absolute (now + theta_echo cfg))
      emit (arm_timer view TimerKind.ready_absolute (now + theta_ready cfg))
      deadline ← on_state view (λ s. (fallback_deadline now s, s))
      arm_fallback view deadline
      activate view lm)
