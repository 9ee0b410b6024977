-- ===== src/Resolve/Targets.antt =====
-- primary/src/vantage/direct_resolution.rs: candidates, the start of a target, wishes and timers.
use vantage_bft.Base.{
  ℕ, max, Bool, true, false, not, ◌&&◌, ◌||◌, Option, List, [], ◌∷◌, length, is_empty,
  saturating_add, ltb, ◌==◌, if◌then◌else◌,
}
use vantage_bft.Base.BTree
use vantage_bft.Base.Map
use vantage_bft.Base.Map.{Map, lookup}
use vantage_bft.Committee.{PublicKey}
use vantage_bft.Agb.Types.{View, Digest, ResolutionEntry}
use vantage_bft.Resolve.Types.{ResolverView, TimerKind, Wish, Effect}
use vantage_bft.Resolve.State.{Books, Config, Instance, new_instance}
use vantage_bft.Resolve.Candidates.{push_new, sort_candidates}
use vantage_bft.Resolve.Steps.{larger_wish, take_wish, with_wishes, with_candidates}
use vantage_bft.Resolve.Values.{is_member, valid_entry, remember_entry, add_member}
use vantage_bft.Resolve.Propose.{has_proposal, try_primary_propose}
use vantage_bft.Resolve.Replay.{mark_done, replay_progress_to}
use vantage_bft.Resolve.Wishes.{arm, proposal_timeout, raise_own_wish, recheck_wishes}
use vantage_bft.Resolve.Monad.{
  World, Resolve, ◌>>=◌, ◌>>◌, done, emit, when, unless, gets, given, reads, on_instance,
  decided_in, has_instance, on_books, modify_books, create,
}
use mathlib.Core.Option.{get_or}

abbrev pub current : Instance → ResolverView
current i = i.current_view

-- `passive_wishes.remove(&target)`
unfoldable pub take_passive : View → Books → Option (Map ResolverView) × Books
unfolding lookup Map.remove
take_passive target b = (
  lookup target b.passive_wishes,
  record b { passive_wishes = Map.remove target b.passive_wishes },
)

unfoldable pub admit_through : View → Books → Books
admit_through target b = record b { admitted_through = max b.admitted_through target }

-- A passive wish: whether it is new, and how many parties wish.
unfoldable pub add_passive : View → PublicKey → ResolverView → Books → (Bool × ℕ) × Books
unfolding larger_wish lookup BTree.insert
add_passive target sender view b =
    let (new, wishes) = larger_wish sender view (get_or (lookup target b.passive_wishes) []) in
    (
      (new, length wishes),
      record b { passive_wishes = BTree.insert target wishes b.passive_wishes },
    )

module _ (cfg : Config) where
  unfoldable pub valid_candidates : View → List ResolutionEntry → List ResolutionEntry
  unfolding valid_entry
  valid_candidates target [] = []
  valid_candidates target (e ∷ es) =
      let rest = valid_candidates target es in if valid_entry cfg target e then e ∷ rest else rest

  unfoldable pub remember_all : View → List ResolutionEntry → Resolve (Unit {0})
  unfolding remember_entry
  remember_all target [] = done
  remember_all target (e ∷ es) = do
    remember_entry cfg target e >>= λ value. done
    remember_all target es

  unfoldable pub out_of_scope : View → World → Bool
  unfolding decided_in
  out_of_scope target w = target == 0 || ltb target w.resolver.retained_floor || decided_in target w

  -- `instances.entry(target).or_insert_with(…)`
  unfoldable pub ensure_instance : View → Resolve (Unit {0})
  unfolding create has_instance
  ensure_instance target = do
    live ← gets (has_instance target)
    unless live (create target new_instance)

  unfoldable pub start_candidates : View → List ResolutionEntry → Resolve (Unit {0})
  unfolding ensure_instance take_passive with_wishes with_candidates push_new sort_candidates
      raise_own_wish recheck_wishes try_primary_propose
  start_candidates target accepted = do
    ensure_instance target
    passive ← on_books (take_passive target)
    on_instance target tt (λ i. (tt, with_wishes (get_or passive []) i))
    on_instance target tt
        (λ i. (tt, with_candidates (sort_candidates cfg (push_new accepted i.candidates)) i))
    raise_own_wish cfg target 1
    recheck_wishes cfg target
    view ← reads target 0 current
    try_primary_propose cfg target view

  unfoldable pub update_candidates : View → List ResolutionEntry → Resolve (Unit {0})
  unfolding out_of_scope admit_through valid_candidates remember_all start_candidates
  update_candidates target candidates = do
    out ← gets (out_of_scope target)
    unless out (do
      modify_books (admit_through target)
      remember_all target (valid_candidates target candidates)
      unless (is_empty (valid_candidates target candidates))
          (start_candidates target (valid_candidates target candidates)))

  unfoldable pub bar_full_selection : View → Resolve (Unit {0})
  unfolding out_of_scope add_member
  bar_full_selection target = do
    out ← gets (out_of_scope target)
    unless out (modify_books (λ b. record b { full_barred = (add_member target b.full_barred).1 }))

  unfoldable pub activate_with_local_terminal : View → Resolve (Unit {0})
  unfolding out_of_scope has_instance admit_through take_passive create raise_own_wish
      recheck_wishes
  activate_with_local_terminal target = do
    out ← gets (λ w. out_of_scope target w || has_instance target w)
    unless out (do
      modify_books (admit_through target)
      passive ← on_books (take_passive target)
      create target (record new_instance { wishes = get_or passive [] })
      raise_own_wish cfg target 1
      recheck_wishes cfg target)

  -- A wish for a decided target is answered once by the decision.
  unfoldable pub answer_decided : Wish → Digest × ResolutionEntry → Resolve (Unit {0})
  unfolding mark_done
  answer_decided wish (value, e) = do
    new ← on_books (mark_done cfg wish.target wish.sender)
    when new (
        emit (
          Effect.done_to wish.sender
            (record { target = wish.target; value = value; entry = e; sender = cfg.name })))

  unfoldable pub join_and_replay : Wish → Resolve (Unit {0})
  unfolding recheck_wishes replay_progress_to
  join_and_replay wish = do
    recheck_wishes cfg wish.target
    replay_progress_to cfg wish.target wish.sender wish.view

  -- A wish for a target that has no instance.
  unfoldable pub passive_wish : Wish → Resolve (Unit {0})
  unfolding add_passive take_passive create join_and_replay
  passive_wish wish = do
    outside ← gets (λ w.
        ltb wish.target w.resolver.retained_floor
        || ltb w.resolver.books.admitted_through wish.target)
    unless outside (do
      (new, parties) ← on_books (add_passive wish.target wish.sender wish.view)
      when (new && not (ltb parties cfg.f_plus_1)) (do
        passive ← on_books (take_passive wish.target)
        create wish.target (record new_instance { wishes = get_or passive [] })
        join_and_replay wish))

  unfoldable pub active_wish : Wish → Resolve (Unit {0})
  unfolding take_wish join_and_replay
  active_wish wish = do
    new ← on_instance wish.target false (take_wish wish.sender wish.view)
    when new (join_and_replay wish)

  unfoldable pub on_wish : Wish → Resolve (Unit {0})
  unfolding is_member answer_decided passive_wish active_wish has_instance lookup
  on_wish wish = do
    decision ← gets (λ w. lookup wish.target w.resolver.decisions)
    live ← gets (has_instance wish.target)
    unless (not (is_member cfg wish.sender) || wish.target == 0 || wish.view == 0) (
        given decision (if live then active_wish wish else passive_wish wish) (answer_decided wish))

  abbrev is_entry_kind : TimerKind → Bool
  is_entry_kind TimerKind.entry = true
  is_entry_kind kind = false

  abbrev awaits_proposal : TimerKind → Bool
  awaits_proposal TimerKind.proposal = true
  awaits_proposal TimerKind.primary_down = true
  awaits_proposal kind = false

  unfoldable pub on_timer : View → ResolverView → TimerKind → Resolve (Unit {0})
  unfolding arm raise_own_wish recheck_wishes
  on_timer target view kind = do
    waiting ← reads target false (λ i. i.current_view == 0 && i.own_wish == view)
    expired ←
        reads target false
          (λ i. i.current_view == view && not (awaits_proposal kind && has_proposal view i))
    if is_entry_kind kind
        then when waiting (do
          emit (Effect.broadcast_wish (record { target = target; view = view; sender = cfg.name }))
          arm cfg target view TimerKind.entry (proposal_timeout cfg))
        else when expired
            (do raise_own_wish cfg target (saturating_add view 1); recheck_wishes cfg target)
