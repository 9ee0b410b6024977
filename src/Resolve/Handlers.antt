-- ===== src/Resolve/Handlers.antt =====
-- primary/src/vantage/direct_resolution.rs: votes, statements, DONEs and fetched values.
use vantage_bft.Base.{
  Bool, true, false, not, ◌&&◌, List, [], ◌∷◌, is_empty, is_some, is_none, member, ◌==◌,
  if◌then◌else◌,
}
use vantage_bft.Base.BTree
use vantage_bft.Base.Map
use vantage_bft.Base.Map.{Map, lookup}
use vantage_bft.Agb.Types.{View, Digest}
use vantage_bft.Resolve.Types.{
  ResolverView, is_echo, Statement, Done, ValueFetch, ValueServe, Vote, Effect,
}
use vantage_bft.Resolve.State.{Books, Config, Instance}
use vantage_bft.Resolve.Steps.{put_done}
use vantage_bft.Resolve.Views.{
  take_vote, reopen_vote, take_statement, key_below, key_is_positive, is_bad_bit,
}
use vantage_bft.Resolve.Values.{is_member, valid_entry, remember_entry, add_pair, drop_member}
use vantage_bft.Resolve.Phases.{try_echo, recheck_done, advance_view}
use vantage_bft.Resolve.Propose.{admits, try_primary_propose}
use vantage_bft.Resolve.Monad.{
  Resolve, ◌>>=◌, ◌>>◌, pure, done, emit, when, gets, given, reads, on_instance, at_view_mut,
  at_entry_mut, entry_of, decided_in, has_instance, on_books,
}
use vantage_bft.Resolve.Targets.{current}
use vantage_bft.Resolve.Evidence.{misaddressed, retry_target}
use mathlib.Core.Option.{get_or}

module _ (cfg : Config) where
  unfoldable pub on_vote : View → ResolverView → Digest → Vote → Resolve (Unit {0})
  unfolding take_vote at_view_mut try_echo advance_view
  on_vote target view value vote = do
    accepted ← on_instance target false (at_view_mut view false (take_vote value vote))
    when accepted (do try_echo cfg target view; advance_view cfg target view)

  -- The instances whose current view has a check to repeat.
  unfoldable pub reopen_views : List View → Resolve (List (View × ResolverView))
  unfolding reopen_vote at_view_mut
  reopen_views [] = pure []
  reopen_views (target ∷ rest) = do
    view ← reads target 0 current
    again ← on_instance target false (at_view_mut view false reopen_vote)
    more ← reopen_views rest
    pure (if again then (target, view) ∷ more else more)

  unfoldable pub echo_views : List (View × ResolverView) → Resolve (Unit {0})
  unfolding try_echo
  echo_views [] = done
  echo_views ((target, view) ∷ rest) = do try_echo cfg target view; echo_views rest

  abbrev targets_of : Map Instance → List View
  targets_of [] = []
  targets_of ((target, i) ∷ rest) = target ∷ targets_of rest

  unfoldable pub retry_external_validity : Resolve (Unit {0})
  unfolding reopen_views echo_views
  retry_external_validity = do
    targets ← gets (λ w. targets_of w.resolver.instances)
    views ← reopen_views targets
    echo_views views

  -- An echo carries its proposal's key, and an origin only for a fresh one; other phases neither.
  unfoldable pub statement_formed : Statement → Bool
  statement_formed m =
      not (is_bad_bit m.origin)
      && (if is_echo m.phase
          then key_below m.view m.proposal_key_view
            && not (key_is_positive m.proposal_key_view && is_some m.origin)
          else is_none m.proposal_key_view && is_none m.origin)

  unfoldable pub on_statement : Statement → Resolve (Unit {0})
  unfolding is_member statement_formed decided_in has_instance admits take_statement at_entry_mut
      try_primary_propose try_echo advance_view
  on_statement m = do
    lost ← gets (misaddressed cfg m.sender m.target m.view)
    fits ← reads m.target false (admits m.view)
    view ← reads m.target 0 current
    when (not lost && statement_formed m && fits) (do
      new ← on_instance m.target false (
          at_entry_mut m.view (
            take_statement m.phase m.sender (record {
              value = m.value;
              proposal_key_view = m.proposal_key_view;
              origin = m.origin;
            })))
      when new (do
        try_primary_propose cfg m.target view
        try_echo cfg m.target view
        when (m.view == view) (advance_view cfg m.target m.view)))

  unfoldable pub on_done : Done → Resolve (Unit {0})
  unfolding is_member valid_entry decided_in has_instance remember_entry put_done recheck_done
      lookup
  on_done m = do
    decided ← gets (decided_in m.target)
    fits ← reads m.target false (λ i. not (is_some (lookup m.sender i.done)))
    when
        (is_member cfg m.sender
          && not (m.target == 0)
          && cfg.digest m.entry == m.value
          && valid_entry cfg m.target m.entry
          && not decided
          && fits)
        (do
          remember_entry cfg m.target m.entry >>= λ value. done
          on_instance m.target tt (put_done m.sender m.value)
          recheck_done cfg m.target)

  -- `fetch_answered.entry(target).or_default().insert(key)`
  unfoldable pub answer_once : ValueFetch → Books → Bool × Books
  unfolding add_pair lookup BTree.insert
  answer_once m b =
      let (new, answered) =
        add_pair m.value m.requester (get_or (lookup m.target b.fetch_answered) []) in
      (new, record b { fetch_answered = BTree.insert m.target answered b.fetch_answered })

  unfoldable pub on_value_fetch : ValueFetch → Resolve (Unit {0})
  unfolding is_member answer_once
  on_value_fetch m = do
    found ← gets (entry_of m.target m.value)
    when (is_member cfg m.requester && not (m.target == 0)) (
        given found done (λ e. do
          new ← on_books (answer_once m)
          when new (
              emit (
                Effect.value_serve_to m.requester
                  (record { target = m.target; value = m.value; entry = e })))))

  -- `pending_fetch.get_mut(&target)` without the value, and without an empty set.
  unfoldable pub take_pending : ValueServe → Books → Bool × Books
  unfolding member drop_member lookup Map.remove BTree.insert
  take_pending m b =
      let wanted = get_or (lookup m.target b.pending_fetch) [] in
      let left = drop_member m.value wanted in
      if not (member m.value wanted) then (false, b) else (
        true,
        record b {
          pending_fetch =
              if is_empty left
              then Map.remove m.target b.pending_fetch
              else BTree.insert m.target left b.pending_fetch;
        },
      )

  unfoldable pub on_value_serve : ValueServe → Resolve (Unit {0})
  unfolding valid_entry take_pending remember_entry retry_target
  on_value_serve m = when (cfg.digest m.entry == m.value && valid_entry cfg m.target m.entry) (do
    wanted ← on_books (take_pending m)
    when wanted
        (do remember_entry cfg m.target m.entry >>= λ value. done; retry_target cfg m.target))
