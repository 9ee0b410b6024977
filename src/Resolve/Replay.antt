-- ===== src/Resolve/Replay.antt =====
-- primary/src/vantage/direct_resolution.rs: the replay of own sends to a party that wishes late.
use vantage_bft.Base.{
  ℕ, Bool, false, ◌&&◌, ◌||◌, Option, none, some, List, [], ◌∷◌, ◌++◌, saturating_add, leb, ltb,
  ◌==◌, if◌then◌else◌,
}
use vantage_bft.Base.BTree
use vantage_bft.Base.Map
use vantage_bft.Base.Map.{Map, lookup}
use vantage_bft.Committee.{PublicKey}
use vantage_bft.Agb.Types.{View, Digest}
use vantage_bft.Resolve.Types.{ResolverView, Phase, Suggest, Proof, Proposal, Statement, Effect}
use vantage_bft.Resolve.State.{
  Books, Config, Instance, ReplayKind, ResolverViewState, StatementRecord,
}
use vantage_bft.Resolve.Counts.{statements_of}
use vantage_bft.Resolve.Schedule.{leads}
use vantage_bft.Resolve.Values.{add_member}
use vantage_bft.Resolve.Monad.{
  Resolve, ◌>>=◌, ◌>>◌, Output, done, output, emit, when, gets, given, reads, on_instance,
  at_view_mut, entry_of, on_books,
}
use mathlib.Core.Option.{get_or}

pub data ReplayItem : Type 0 where
  suggest : Suggest → ReplayItem
  proof : Proof → ReplayItem
  proposal : Proposal → ReplayItem
  statement : Statement → ReplayItem
  witness : ResolverView → Digest → ReplayItem

abbrev statement_kind : Phase → ReplayKind
statement_kind Phase.echo = ReplayKind.echo
statement_kind Phase.key1 = ReplayKind.key1
statement_kind Phase.key2 = ReplayKind.key2
statement_kind Phase.key3 = ReplayKind.key3
statement_kind Phase.lock = ReplayKind.lock

abbrev kind_index : ReplayKind → ℕ
kind_index ReplayKind.suggest = 0
kind_index ReplayKind.proof = 1
kind_index ReplayKind.proposal = 2
kind_index ReplayKind.echo = 3
kind_index ReplayKind.key1 = 4
kind_index ReplayKind.key2 = 5
kind_index ReplayKind.key3 = 6
kind_index ReplayKind.lock = 7
kind_index ReplayKind.witness = 8

unfoldable pub has_replay : ReplayKind → PublicKey → List (ReplayKind × PublicKey) → Bool
has_replay kind requester [] = false
has_replay kind requester ((k, r) ∷ rest) =
    (kind_index k == kind_index kind && r == requester) || has_replay kind requester rest

-- An item that is there is replayed to a requester once.
unfoldable pub replay_once :
    ReplayKind
    → PublicKey
    → Option ReplayItem
    → ResolverViewState
    → List ReplayItem × ResolverViewState
unfolding has_replay
replay_once kind requester none s = ([], s)
replay_once kind requester (some item) s =
    if has_replay kind requester s.replayed_to
    then ([], s)
    else (item ∷ [], record s { replayed_to = s.replayed_to ++ (kind, requester) ∷ [] })

abbrev mapped : {A B : Type 0} → (A → B) → Option A → Option B
mapped f none = none
mapped f (some a) = some (f a)

abbrev own_proposal : PublicKey → Option Proposal → Option ReplayItem
own_proposal name none = none
own_proposal name (some p) = if p.sender == name then some (ReplayItem.proposal p) else none

abbrev item_of : PublicKey → View → ResolverView → Phase → StatementRecord → ReplayItem
item_of name target view phase r = ReplayItem.statement (record {
  target = target;
  view = view;
  value = r.value;
  phase = phase;
  proposal_key_view = r.proposal_key_view;
  origin = r.origin;
  sender = name;
})

unfoldable pub replay_statement :
    PublicKey
    → View
    → ResolverView
    → PublicKey
    → Phase
    → ResolverViewState
    → List ReplayItem × ResolverViewState
unfolding lookup replay_once
replay_statement name target view requester phase s =
    replay_once (statement_kind phase) requester
      (mapped (item_of name target view phase) (lookup name (statements_of phase s))) s

infixl 20 ◌then_replay◌
abbrev pub ◌then_replay◌ :
    List ReplayItem × ResolverViewState
    → (ResolverViewState → List ReplayItem × ResolverViewState)
    → List ReplayItem × ResolverViewState
(items, s) then_replay f = let (more, t) = f s in (items ++ more, t)

-- All that a view replays, `leads` telling whether the requester is its primary.
unfoldable pub replay_view :
    PublicKey
    → View
    → ResolverView
    → PublicKey
    → (leads : Bool) → ResolverViewState
    → List ReplayItem × ResolverViewState
unfolding replay_once replay_statement lookup
replay_view name target view requester leads s =
    replay_once ReplayKind.suggest requester
      (if leads then mapped ReplayItem.suggest (lookup name s.suggestions) else none) s
    then_replay (λ t.
        replay_once ReplayKind.proof requester (mapped ReplayItem.proof (lookup name t.proofs)) t)
    then_replay (λ t. replay_once ReplayKind.proposal requester (own_proposal name t.proposal) t)
    then_replay replay_statement name target view requester Phase.echo
    then_replay replay_statement name target view requester Phase.key1
    then_replay replay_statement name target view requester Phase.key2
    then_replay replay_statement name target view requester Phase.key3
    then_replay replay_statement name target view requester Phase.lock
    then_replay (λ t.
        replay_once ReplayKind.witness requester (mapped (ReplayItem.witness view) t.backing_sent)
          t)

-- The own wish, if it is above what the requester was sent.
unfoldable pub replay_wish : PublicKey → Instance → Option ResolverView × Instance
unfolding lookup Map.insert
replay_wish requester i =
    let replayed = get_or (lookup requester i.wish_replayed_through) 0 in
    if ltb replayed i.own_wish
    then (
      some i.own_wish,
      record i { wish_replayed_through = Map.insert requester i.own_wish i.wish_replayed_through },
    )
    else (
      none,
      record i { wish_replayed_through = Map.insert requester replayed i.wish_replayed_through },
    )

-- `range(..=last)` of the views.
unfoldable pub views_through : ResolverView → Map ResolverViewState → List ResolverView
views_through last [] = []
views_through last ((view, s) ∷ rest) =
    let more = views_through last rest in if leb view last then view ∷ more else more

module _ (cfg : Config) (target : View) (requester : PublicKey) where
  unfoldable pub send_item : ReplayItem → Resolve (Unit {0})
  send_item (ReplayItem.suggest m) = emit (Effect.suggest_to requester m)
  send_item (ReplayItem.proof m) = emit (Effect.proof_to requester m)
  send_item (ReplayItem.proposal m) = emit (Effect.proposal_to requester m)
  send_item (ReplayItem.statement m) = emit (Effect.statement_to requester m)
  send_item (ReplayItem.witness view value) = do
    found ← gets (entry_of target value)
    given found (output Output.panic) (λ e. emit (
        Effect.witness_to requester
          (record { target = target; view = view; value = value; entry = e; sender = cfg.name })))

  unfoldable pub send_items : List ReplayItem → Resolve (Unit {0})
  unfolding send_item
  send_items [] = done
  send_items (item ∷ rest) = do send_item item; send_items rest

  unfoldable pub replay_views : List ResolverView → Resolve (Unit {0})
  unfolding replay_view send_items at_view_mut
  replay_views [] = done
  replay_views (view ∷ rest) = do
    items ← on_instance target [] (
        at_view_mut view []
          (replay_view cfg.name target view requester (leads cfg target view requester)))
    send_items items
    replay_views rest

  -- `done_replayed_to.entry(target).or_default().insert(requester)`
  unfoldable pub mark_done : Books → Bool × Books
  unfolding add_member lookup BTree.insert
  mark_done b =
      let (new, parties) = add_member requester (get_or (lookup target b.done_replayed_to) []) in
      (new, record b { done_replayed_to = BTree.insert target parties b.done_replayed_to })

  unfoldable pub replay_done : Option Digest → Resolve (Unit {0})
  unfolding mark_done
  replay_done none = done
  replay_done (some value) = do
    new ← on_books mark_done
    found ← gets (entry_of target value)
    when new (
        given found (output Output.panic) (λ e. emit (
          Effect.done_to requester
            (record { target = target; value = value; entry = e; sender = cfg.name }))))

  unfoldable pub replay_own_wish : Option ResolverView → Resolve (Unit {0})
  replay_own_wish none = done
  replay_own_wish (some view) =
      emit (Effect.wish_to requester (record { target = target; view = view; sender = cfg.name }))

  unfoldable pub replay_progress_to : (through : ResolverView) → Resolve (Unit {0})
  unfolding replay_wish replay_own_wish views_through replay_views replay_done
  replay_progress_to through = do
    wish ← on_instance target none (replay_wish requester)
    replay_own_wish wish
    views ← reads target [] (λ i. views_through (saturating_add through 1) i.views)
    replay_views views
    sent ← reads target none (λ i. i.done_sent)
    replay_done sent
