-- ===== src/Resolve/Engine.antt =====
-- primary/src/vantage/direct_resolution.rs: pruning, the queries, and the resolver as a machine that
-- handles one event after another.
use vantage_bft.Base.{
  ℕ, max, not, ◌&&◌, Option, List, [], ◌∷◌, length, is_some, ltb, ◌==◌, if◌then◌else◌,
}
use vantage_bft.Base.BTree
use vantage_bft.Base.Map.{Map, lookup}
use vantage_bft.Committee.{PublicKey}
use vantage_bft.Agb.Types.{View, Digest, ResolutionEntry}
use vantage_bft.Resolve.Types.{
  ResolverView, TimerKind, Wish, Suggest, Proof, Witness, Proposal, Statement, Done, ValueFetch,
  ValueServe, Vote,
}
use vantage_bft.Resolve.State.{Books, Config, Instance}
use vantage_bft.Resolve.Schedule.{leads}
use vantage_bft.Resolve.Propose.{has_proposal, on_proposal}
use vantage_bft.Resolve.Monad.{World, Resolve, given, instance_of, modify_books}
use vantage_bft.Resolve.Targets.{
  admit_through, update_candidates, bar_full_selection, activate_with_local_terminal, on_wish,
  on_timer,
}
use vantage_bft.Resolve.Evidence.{on_suggest, on_proof, on_witness}
use vantage_bft.Resolve.Handlers.{
  on_vote, retry_external_validity, on_statement, on_done, on_value_fetch, on_value_serve,
}

unfoldable pub barred_from : View → List View → List View
barred_from floor [] = []
barred_from floor (target ∷ rest) =
    let behind = barred_from floor rest in if ltb target floor then behind else target ∷ behind

unfoldable pub prune_books : View → Books → Books
unfolding BTree.split_off barred_from
prune_books floor b = record {
  values = BTree.split_off floor b.values;
  full_barred = barred_from floor b.full_barred;
  done_replayed_to = BTree.split_off floor b.done_replayed_to;
  admitted_through = b.admitted_through;
  passive_wishes = BTree.split_off floor b.passive_wishes;
  pending_fetch = BTree.split_off floor b.pending_fetch;
  fetch_requested = BTree.split_off floor b.fetch_requested;
  fetch_answered = BTree.split_off floor b.fetch_answered;
}

unfoldable pub gc_below : View → Resolve (Unit {0})
unfolding prune_books BTree.split_off
gc_below floor w = if floor == 0 then (tt, w) else (
  tt,
  record w {
    resolver = record {
      instances = BTree.split_off floor w.resolver.instances;
      decisions = BTree.split_off floor w.resolver.decisions;
      retained_floor = max w.resolver.retained_floor floor;
      books = prune_books floor w.resolver.books;
    };
  },
)

-- The queries that the node reads.
unfoldable pub decision : View → World → Option (Digest × ResolutionEntry)
unfolding lookup
decision target w = lookup target w.resolver.decisions

unfoldable pub current_view : View → World → ResolverView
unfolding instance_of
current_view target w = given (instance_of target w) 0 (λ i. i.current_view)

unfoldable pub max_view : Map Instance → ResolverView
max_view [] = 0
max_view ((target, i) ∷ rest) = max i.current_view (max_view rest)

unfoldable pub max_current_view : World → ResolverView
unfolding max_view
max_current_view w = max_view w.resolver.instances

unfoldable pub active_len : World → ℕ
active_len w = length w.resolver.instances

unfoldable pub awaiting_in :
    Config → PublicKey → Map (Digest × ResolutionEntry) → Map Instance → List (View × ResolverView)
unfolding lookup
awaiting_in cfg primary decisions [] = []
awaiting_in cfg primary decisions ((target, i) ∷ rest) =
    let others = awaiting_in cfg primary decisions rest in
    if ltb 0 i.current_view
      && not (is_some (lookup target decisions))
      && not (has_proposal i.current_view i)
      && leads cfg target i.current_view primary
    then (target, i.current_view) ∷ others
    else others

unfoldable pub views_awaiting_proposal_from :
    Config → PublicKey → World → List (View × ResolverView)
unfolding awaiting_in
views_awaiting_proposal_from cfg primary w =
    awaiting_in cfg primary w.resolver.decisions w.resolver.instances

-- The calls that the node makes of its resolver.
pub data Event : Type 0 where
  offers : View → List ResolutionEntry → Event
  bars_full : View → Event
  activates : View → Event
  admits_through : View → Event
  wishes : Wish → Event
  expires : View → ResolverView → TimerKind → Event
  suggests : Suggest → Event
  proves : Proof → Event
  witnesses : Witness → Event
  proposes : Proposal → Event
  votes : View → ResolverView → Digest → Vote → Event
  retries_validity : Event
  states : Statement → Event
  finishes : Done → Event
  fetches : ValueFetch → Event
  serves : ValueServe → Event
  prunes : View → Event

unfoldable pub handle : Config → Event → Resolve (Unit {0})
handle cfg (Event.offers target es) = update_candidates cfg target es
handle cfg (Event.bars_full target) = bar_full_selection cfg target
handle cfg (Event.activates target) = activate_with_local_terminal cfg target
handle cfg (Event.admits_through target) = modify_books (admit_through target)
handle cfg (Event.wishes m) = on_wish cfg m
handle cfg (Event.expires target view kind) = on_timer cfg target view kind
handle cfg (Event.suggests m) = on_suggest cfg m
handle cfg (Event.proves m) = on_proof cfg m
handle cfg (Event.witnesses m) = on_witness cfg m
handle cfg (Event.proposes m) = on_proposal cfg m
handle cfg (Event.votes target view value vote) = on_vote cfg target view value vote
handle cfg Event.retries_validity = retry_external_validity cfg
handle cfg (Event.states m) = on_statement cfg m
handle cfg (Event.finishes m) = on_done cfg m
handle cfg (Event.fetches m) = on_value_fetch cfg m
handle cfg (Event.serves m) = on_value_serve cfg m
handle cfg (Event.prunes floor) = gc_below floor

-- Each event with the clock's reading.
unfoldable pub run : Config → List (ℕ × Event) → World → World
unfolding handle
run cfg [] w = w
run cfg ((now, e) ∷ rest) w = run cfg rest (handle cfg e (record w { now = now })).1
