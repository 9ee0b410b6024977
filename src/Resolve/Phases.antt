-- ===== src/Resolve/Phases.antt =====
-- primary/src/vantage/direct_resolution.rs: echoes, witnesses, keys, locks, and the end of a target.
use vantage_bft.Base.{
  ℕ, zero, suc, Bool, true, false, not, ◌&&◌, ◌||◌, Option, none, some, [], is_some, is_none, ◌==◌,
  if◌then◌else◌,
}
use vantage_bft.Base.Map
use vantage_bft.Base.Map.{Map, lookup}
use vantage_bft.Agb.Types.{View, Digest, ResolutionEntry}
use vantage_bft.Resolve.Types.{ResolverView, Phase, phase_index, is_echo, Effect}
use vantage_bft.Resolve.State.{Books, Config, Instance}
use vantage_bft.Resolve.Counts.{
  at_view, Ballot, backing_winner, is_backed, phase_winner, phase_authors, fresh_origin_ok, winner,
}
use vantage_bft.Resolve.Steps.{EchoAction, echo_action, adopt, send_done}
use vantage_bft.Resolve.Views.{send_witness, binding_ok, send_statement, origin_in, request_vote}
use vantage_bft.Resolve.Values.{valid_entry, ensure_value_fetch}
use vantage_bft.Resolve.Monad.{
  Resolve, ◌>>=◌, ◌>>◌, Output, pure, done, output, emit, when, gets, given, reads, on_instance,
  at_view_mut, at_entry_mut, entry_of, modify_books, conclude,
}

abbrev is_sent : Phase → ResolverView → Instance → Bool
is_sent phase view i = at_view view false (λ s. is_some (lookup (phase_index phase) s.sent)) i

abbrev proposal_is_fresh : ResolverView → Instance → Bool
proposal_is_fresh view i =
    at_view view false (λ s. elim s.proposal [ none ↦ false | some p ↦ p.key_view == 0 ]) i

-- How a step of `advance_view` ends: the loop goes on unmoved, has moved, or returns.
pub data Progress : Type 0 where
  idle moved stopped : Progress

abbrev with_moved : Bool → Progress → Progress
with_moved true Progress.idle = Progress.moved
with_moved b p = p

module _ (cfg : Config) where
  unfoldable pub emit_statement :
      View → ResolverView → Phase → Digest → Option ResolverView → Option ℕ → Resolve (Unit {0})
  unfolding binding_ok send_statement at_entry_mut
  emit_statement target view phase value key origin =
      if not (binding_ok phase view key origin) then done else (do
        sent ←
            on_instance target false
              (at_entry_mut view (send_statement cfg.name phase value key origin))
        when sent (
            emit (
              Effect.broadcast_statement (record {
                target = target;
                view = view;
                value = value;
                phase = phase;
                proposal_key_view = key;
                origin = origin_in phase origin;
                sender = cfg.name;
              }))))

  unfoldable pub act_on_echo : View → ResolverView → EchoAction → Resolve (Unit {0})
  unfolding emit_statement request_vote at_view_mut
  act_on_echo target view EchoAction.wait = done
  act_on_echo target view (EchoAction.state p origin) =
      emit_statement target view Phase.echo p.value (some p.key_view) origin
  act_on_echo target view (EchoAction.ask p) = do
    on_instance target tt (at_view_mut view tt request_vote)
    emit (Effect.validate_vote target view p.value p.entry (p.key_view == 0))

  unfoldable pub try_echo : View → ResolverView → Resolve (Unit {0})
  unfolding echo_action act_on_echo
  try_echo target view = do
    action ← reads target EchoAction.wait (echo_action cfg view)
    act_on_echo target view action

  unfoldable pub emit_backing_witness : View → ResolverView → Digest → Resolve (Unit {0})
  unfolding send_witness at_view_mut
  emit_backing_witness target view value = do
    found ← gets (entry_of target value)
    given found done (λ e. do
      sent ← on_instance target false (at_view_mut view false (send_witness cfg.name value))
      when sent (
          emit (
            Effect.broadcast_witness (record {
              target = target;
              view = view;
              value = value;
              entry = e;
              sender = cfg.name;
            }))))

  -- `recheck_backing`, `advance` being `advance_view(target, view)`.
  unfoldable pub recheck_backing : Resolve (Unit {0}) → View → ResolverView → Resolve (Unit {0})
  unfolding backing_winner emit_backing_witness
  recheck_backing advance target view = do
    relayed ← reads target none (backing_winner view cfg.f_plus_1)
    given relayed done (emit_backing_witness target view)
    delivered ←
        reads target false
          (λ i. is_some (backing_winner view cfg.quorum i) && i.current_view == view)
    when delivered advance

  unfoldable pub emit_done : View → Digest → ResolutionEntry → Resolve (Unit {0})
  unfolding valid_entry send_done
  emit_done target value e =
      if not (valid_entry cfg target e) || not (cfg.digest e == value) then done else (do
        sent ← on_instance target false (send_done cfg.name value)
        when sent (
            emit (
              Effect.broadcast_done
                (record { target = target; value = value; entry = e; sender = cfg.name }))))

  unfoldable pub relay_done : View → Option Digest → Resolve (Unit {0})
  unfolding emit_done
  relay_done target none = done
  relay_done target (some value) = do
    found ← gets (entry_of target value)
    given found (output Output.panic) (emit_done target value)

  -- The books without the target's fetches.
  unfoldable pub forget_fetches : View → Books → Books
  unfolding Map.remove
  forget_fetches target b = record b {
    pending_fetch = Map.remove target b.pending_fetch;
    fetch_requested = Map.remove target b.fetch_requested;
    fetch_answered = Map.remove target b.fetch_answered;
  }

  unfoldable pub decide_on : View → Option Digest → Resolve (Unit {0})
  unfolding conclude forget_fetches
  decide_on target none = done
  decide_on target (some value) = do
    found ← gets (entry_of target value)
    given found (output Output.panic) (λ e. do
      conclude target value e
      modify_books (forget_fetches target)
      emit (Effect.decide e))

  unfoldable pub recheck_done : View → Resolve (Unit {0})
  unfolding winner relay_done decide_on
  recheck_done target = do
    relayed ←
        reads target none (λ i. if is_some i.done_sent then none else winner cfg.f_plus_1 i.done)
    relay_done target relayed
    decided ← reads target none (λ i. winner cfg.quorum i.done)
    decide_on target decided

  -- The value is known: its keys, and the statement of the next phase.
  unfoldable pub adopt_phase : View → ResolverView → Phase → Digest → Resolve Progress
  unfolding adopt emit_statement
  adopt_phase target view to value = do
    on_instance target tt (adopt to view value)
    emit_statement target view to value none none
    pure Progress.moved

  -- The echo phase asks for first-hand origins, and for backing of a fresh value.
  unfoldable pub leave_echo : Resolve (Unit {0}) → View → ResolverView → Digest → Resolve Progress
  unfolding fresh_origin_ok is_backed emit_backing_witness recheck_backing adopt_phase
  leave_echo advance target view value = do
    origin ← reads target false (fresh_origin_ok cfg view value)
    unbacked ← reads target false (λ i. proposal_is_fresh view i && not (is_backed cfg value i))
    if not origin
        then pure Progress.idle
        else if unbacked
        then (do
          emit_backing_witness target view value
          recheck_backing advance target view
          pure Progress.idle)
        else adopt_phase target view Phase.key1 value

  unfoldable pub follow_winner :
      Resolve (Unit {0}) → View → ResolverView → Phase → Phase → Ballot → Resolve Progress
  unfolding valid_entry phase_authors ensure_value_fetch leave_echo adopt_phase
  follow_winner advance target view from to (key, value) = do
    found ← gets (entry_of target value)
    peers ← reads target [] (phase_authors view from value key)
    if given found true (λ e. not (valid_entry cfg target e))
        then (do ensure_value_fetch cfg target value peers; pure Progress.stopped)
        else if is_echo from
        then leave_echo advance target view value
        else adopt_phase target view to value

  unfoldable pub advance_phase :
      Resolve (Unit {0}) → View → ResolverView → Phase → Phase → Resolve Progress
  unfolding phase_winner follow_winner
  advance_phase advance target view from to = do
    won ← reads target none (phase_winner view from cfg.quorum)
    already ← reads target false (is_sent to view)
    given won (pure Progress.idle)
        (λ b. if already then pure Progress.idle else follow_winner advance target view from to b)

  -- The lock phase ends in the party's DONE.
  unfoldable pub finish_lock : View → ResolverView → Resolve Progress
  unfolding phase_winner phase_authors ensure_value_fetch emit_done
  finish_lock target view = do
    won ← reads target none (phase_winner view Phase.lock cfg.quorum)
    unsent ← reads target false (λ i. is_none i.done_sent)
    given won (pure Progress.idle) (λ b. if not unsent then pure Progress.idle else (do
      found ← gets (entry_of target b.1)
      peers ← reads target [] (phase_authors view Phase.lock b.1 b.0)
      given found (do ensure_value_fetch cfg target b.1 peers; pure Progress.stopped)
          (λ e. do emit_done target b.1 e; pure Progress.moved)))

  -- The steps of a round, until one returns.
  unfoldable pub then_step : Progress → Resolve Progress → Resolve Progress
  then_step Progress.stopped m = pure Progress.stopped
  then_step Progress.moved m = do p ← m; pure (with_moved true p)
  then_step Progress.idle m = m

  unfoldable pub advance_round : Resolve (Unit {0}) → View → ResolverView → Resolve Progress
  unfolding advance_phase finish_lock then_step
  advance_round advance target view = do
    a ← advance_phase advance target view Phase.echo Phase.key1
    b ← then_step a (advance_phase advance target view Phase.key1 Phase.key2)
    c ← then_step b (advance_phase advance target view Phase.key2 Phase.key3)
    d ← then_step c (advance_phase advance target view Phase.key3 Phase.lock)
    then_step d (finish_lock target view)

  -- After a round: another one, the end of the loop, or the return.
  unfoldable pub after_round : Resolve (Unit {0}) → View → Progress → Resolve (Unit {0})
  unfolding recheck_done
  after_round again target Progress.moved = again
  after_round again target Progress.idle = recheck_done target
  after_round again target Progress.stopped = done

  -- A call of `advance_view` for the current view, with what it does there.
  abbrev pub if_current : View → ResolverView → Resolve (Unit {0}) → Resolve (Unit {0})
  if_current target view m = do
    current ← reads target false (λ i. view == i.current_view)
    when current m

  -- The loop of `advance_view`. A round may call `advance_view` again, by `recheck_backing`; out of
  -- fuel nothing more is done.
  unfoldable pub advance_loop : ℕ → View → ResolverView → Resolve (Unit {0})
  unfolding advance_round after_round
  advance_loop zero target view = done
  advance_loop (suc fuel) target view = do
    p ← advance_round (if_current target view (advance_loop fuel target view)) target view
    after_round (advance_loop fuel target view) target p

  unfoldable pub advance_view : View → ResolverView → Resolve (Unit {0})
  unfolding advance_loop
  advance_view target view = if_current target view (advance_loop cfg.fuel target view)
