-- ===== src/Resolve/Wishes.antt =====
-- primary/src/vantage/direct_resolution.rs: wishes, and the entry of resolver views.
use vantage_bft.Base.{
  ℕ, zero, suc, ◌+◌, ◌-◌, ◌*◌, Bool, false, not, Option, none, some, saturating_add, ltb, ◌==◌,
  if◌then◌else◌,
}
use vantage_bft.Base.Map
use vantage_bft.Base.Map.{Map}
use vantage_bft.Pacemaker.{kth_largest}
use vantage_bft.Agb.Types.{View, ResolutionEntry}
use vantage_bft.Resolve.Types.{ResolverView, TimerKind, Effect}
use vantage_bft.Resolve.State.{Config, Instance}
use vantage_bft.Resolve.Schedule.{resolution_leader}
use vantage_bft.Resolve.Steps.{raise_wish, mark_entered, own_suggest, own_proof}
use vantage_bft.Resolve.Views.{put_suggestion, put_proof}
use vantage_bft.Resolve.Phases.{try_echo, advance_view}
use vantage_bft.Resolve.Propose.{try_primary_propose}
use vantage_bft.Resolve.Monad.{
  World, Resolve, ◌>>=◌, ◌>>◌, Output, done, output, emit, when, gets, given, reads, on_instance,
  at_entry_mut, entry_of,
}

abbrev pub keyed_entry : View → Instance → World → Option ResolutionEntry
keyed_entry target i w = if ltb 0 i.key3_view then entry_of target i.key3_value w else none

module _ (cfg : Config) where
  abbrev pub proposal_timeout : ℕ
  proposal_timeout = cfg.delta * 5

  abbrev resolver_timeout : ℕ
  resolver_timeout = cfg.delta * 11

  unfoldable pub arm : View → ResolverView → TimerKind → (delay : ℕ) → Resolve (Unit {0})
  arm target view kind delay = do
    now ← gets (λ w. w.now)
    emit (Effect.arm_timer target view kind (now + delay))

  unfoldable pub announce_wish : View → ResolverView → Option Bool → Resolve (Unit {0})
  unfolding arm
  announce_wish target view none = done
  announce_wish target view (some waiting) = do
    emit (Effect.broadcast_wish (record { target = target; view = view; sender = cfg.name }))
    when waiting (arm target view TimerKind.entry proposal_timeout)

  unfoldable pub raise_own_wish : View → ResolverView → Resolve (Unit {0})
  unfolding raise_wish announce_wish
  raise_own_wish target view = do
    raised ← on_instance target none (raise_wish cfg.name view)
    announce_wish target view raised

  -- The sends of an entered view, with the keys as they were at the entry.
  unfoldable pub send_entry :
      View → ResolverView → Option ResolutionEntry → Instance → Resolve (Unit {0})
  unfolding put_suggestion put_proof at_entry_mut arm try_primary_propose try_echo advance_view
      resolution_leader
  send_entry target view e i = do
    on_instance target tt
        (at_entry_mut view (put_suggestion (own_suggest cfg.name target view e i)))
    on_instance target tt (at_entry_mut view (put_proof (own_proof cfg.name target view i)))
    arm target view TimerKind.proposal proposal_timeout
    arm target view TimerKind.view resolver_timeout
    emit (Effect.broadcast_proof (own_proof cfg.name target view i))
    given (resolution_leader cfg target view) (output Output.panic) (λ leader.
        when (not (leader == cfg.name))
          (emit (Effect.suggest_to leader (own_suggest cfg.name target view e i))))
    try_primary_propose cfg target view
    try_echo cfg target view
    advance_view cfg target view

  unfoldable pub enter_marked : View → ResolverView → Option Instance → Resolve (Unit {0})
  unfolding send_entry entry_of
  enter_marked target view none = done
  enter_marked target view (some i) = do e ← gets (keyed_entry target i); send_entry target view e i

  unfoldable pub enter_view : View → ResolverView → Resolve (Unit {0})
  unfolding mark_entered enter_marked
  enter_view target view = do
    entered ← on_instance target false (mark_entered view)
    i ← reads target none (λ j. if entered then some j else none)
    enter_marked target view i

  -- `for view in start..=enter`, for a number of views.
  unfoldable pub enter_views : (count : ℕ) → View → ResolverView → Resolve (Unit {0})
  unfolding enter_view
  enter_views zero target view = done
  enter_views (suc count) target view = do
    enter_view target view
    enter_views count target (suc view)

  unfoldable pub recheck_wishes : View → Resolve (Unit {0})
  unfolding raise_own_wish enter_views kth_largest Map.values
  recheck_wishes target = do
    live ← reads target none (λ i. some (kth_largest (Map.values i.wishes) cfg.f_plus_1))
    given live done (λ amplify. do
      raise_own_wish target amplify
      start ← reads target 0 (λ i. saturating_add i.entered_through 1)
      enter ← reads target 0 (λ i. kth_largest (Map.values i.wishes) cfg.quorum)
      enter_views ((enter + 1) - start) target start)
