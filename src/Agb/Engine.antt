-- ===== src/Agb/Engine.antt =====
-- primary/src/vantage/agb.rs: the window of rechecks, pruning, the queries, and the engine as a
-- machine that handles one event after another.
use vantage_bft.Base.{
  ℕ, zero, suc, ◌-◌, Bool, not, ◌&&◌, ◌||◌, Option, none, some, List, [], ◌∷◌, ◌++◌, length,
  is_some, saturating_add, ltb, leb, if◌then◌else◌,
}
use vantage_bft.Base.BTree
use vantage_bft.Committee.{PublicKey}
use vantage_bft.Agb.Types.{
  View, Digest, ProposalOut, ResolutionEntry, Echo, EchoBatch, ReadyOut, Outcome,
}
use vantage_bft.Agb.State.{Config, ViewState}
use vantage_bft.Agb.Votes.{LaneView}
use vantage_bft.Agb.Monad.{World, Agb, ◌>>=◌, ◌>>◌, done, gets, on_cursor, find_view, is_pruned}
use vantage_bft.Agb.Rechecks.{passes, on_ready_timer}
use vantage_bft.Agb.Meta.{try_direct_resolution_vote}
use vantage_bft.Agb.Handlers.{recheck_gate, activate, enter, proposal_in}
use vantage_bft.Agb.Receive.{
  on_propose_any, on_echo_fallback_timer, on_echo_absolute_timer, refuse_unproposed_view, on_echo,
  on_echo_batch, on_echo_skip, on_ready_any, on_noready, on_skip_vote, submit_resolution,
}

abbrev pub take : ℕ → List View → List View
take zero vs = []
take (suc n) [] = []
take (suc n) (v ∷ vs) = v ∷ take n vs

-- `range(cursor..)` and `range(..cursor)` of an ascending set.
unfoldable pub views_from : View → List View → List View
views_from cursor [] = []
views_from cursor (v ∷ vs) =
    let rest = views_from cursor vs in if leb cursor v then v ∷ rest else rest

unfoldable pub views_below : View → List View → List View
views_below cursor [] = []
views_below cursor (v ∷ vs) =
    let rest = views_below cursor vs in if ltb v cursor then v ∷ rest else rest

unfoldable pub recheck_window : List View → View → (budget : ℕ) → List View
unfolding views_from views_below
recheck_window pending cursor budget =
    let window = take budget (views_from cursor pending) in
    if leb (length pending) budget
    then pending
    else if ltb (length window) budget
    then window ++ take (budget - length window) (views_below cursor pending)
    else window

abbrev pub recheck_budget : ℕ
recheck_budget = 64

abbrev pub get_last? : List View → Option View
get_last? [] = none
get_last? (v ∷ []) = some v
get_last? (v ∷ u ∷ rest) = get_last? (u ∷ rest)

unfoldable pub gc_below : View → Agb (Unit {0})
unfolding BTree.split_off views_from
gc_below floor w = if leb floor w.engine.min_live_view then (tt, w) else (
  tt,
  record w {
    engine = record w.engine {
      views = BTree.split_off floor w.engine.views;
      pending_gate = views_from floor w.engine.pending_gate;
      min_live_view = floor;
    };
  },
)

-- The queries that the resolver and the node read.
abbrev pub count_at : (ViewState → ℕ) → Option ViewState → ℕ
count_at f none = 0
count_at f (some s) = f s

unfoldable pub ready_stage_total : View → World → ℕ
unfolding find_view
ready_stage_total v w = count_at (λ s. length s.ready_statements) (find_view v w)

unfoldable pub ready_stage_non_grade1_count : View → World → ℕ
unfolding find_view
ready_stage_non_grade1_count v w = count_at (λ s. s.ready_non_grade_one_parties) (find_view v w)

unfoldable pub ready_stage_zero_or_noready_count : View → World → ℕ
unfolding find_view
ready_stage_zero_or_noready_count v w =
    count_at (λ s. s.ready_zero_or_noready_parties) (find_view v w)

unfoldable pub noready_count : View → World → ℕ
unfolding find_view
noready_count v w = count_at (λ s. s.noready_parties) (find_view v w)

unfoldable pub is_sealed : View → World → Bool
unfolding find_view is_pruned
is_sealed v w = is_pruned v w || passes (λ s. is_some s.sealed) (find_view v w)

unfoldable pub ready_finalized : View → World → Bool
unfolding find_view is_pruned
ready_finalized v w =
    is_pruned v w || passes (λ s. s.ready_sent && not s.ready_mix_open) (find_view v w)

unfoldable pub fixed_proposal : View → World → Option (ProposalOut × Digest)
unfolding find_view is_pruned
fixed_proposal v w =
    if is_pruned v w
    then none
    else elim (find_view v w) [ none ↦ none | some s ↦ proposal_in s.fixed ]

module _ (cfg : Config) where
  unfoldable pub recheck_views : List View → LaneView → Agb (Unit {0})
  recheck_views [] lm = done
  recheck_views (v ∷ vs) lm = do recheck_gate cfg v lm; recheck_views vs lm

  unfoldable pub move_cursor : Option View → Agb (Unit {0})
  move_cursor none = done
  move_cursor (some last) = on_cursor (saturating_add last 1)

  unfoldable pub recheck_all : LaneView → Agb (Unit {0})
  unfolding recheck_window recheck_views move_cursor recheck_gate
  recheck_all lm = do
    views ← gets (λ w. recheck_window w.engine.pending_gate w.engine.recheck_cursor recheck_budget)
    move_cursor (get_last? views)
    recheck_views views lm

-- The calls that the node makes of its engine, with what each call reads from outside.
pub data Event : Type 0 where
  enters : View → (now : ℕ) → LaneView → Event
  activates : View → LaneView → Event
  proposes : (sender : PublicKey) → ProposalOut → (now : ℕ) → LaneView → Event
  rechecks : LaneView → Event
  fallback_timer : View → LaneView → Event
  echo_timer : View → Event
  ready_timer : View → Event
  refuses : View → Event
  echoes : Echo → Event
  echoes_batch : EchoBatch → Event
  skips_echo : View → PublicKey → Event
  readies : ReadyOut → Event
  skips_ready : View → PublicKey → Event
  votes_skip : View → PublicKey → Event
  resolves : View → Outcome → Event
  votes_direct : ResolutionEntry → (fresh : Bool) → LaneView → Event
  prunes : View → Event

unfoldable pub handle : Config → Event → Agb (Unit {0})
handle cfg (Event.enters v now lm) = enter cfg v now lm
handle cfg (Event.activates v lm) = activate cfg v lm
handle cfg (Event.proposes sender p now lm) = on_propose_any cfg sender p now lm
handle cfg (Event.rechecks lm) = recheck_all cfg lm
handle cfg (Event.fallback_timer v lm) = on_echo_fallback_timer cfg v lm
handle cfg (Event.echo_timer v) = on_echo_absolute_timer cfg v
handle cfg (Event.ready_timer v) = on_ready_timer cfg v
handle cfg (Event.refuses v) = refuse_unproposed_view cfg v
handle cfg (Event.echoes e) = on_echo cfg e
handle cfg (Event.echoes_batch e) = on_echo_batch cfg e
handle cfg (Event.skips_echo v sender) = on_echo_skip cfg v sender
handle cfg (Event.readies r) = on_ready_any cfg r
handle cfg (Event.skips_ready v sender) = on_noready cfg v sender
handle cfg (Event.votes_skip v sender) = on_skip_vote cfg v sender
handle cfg (Event.resolves v outcome) = submit_resolution cfg v outcome
handle cfg (Event.votes_direct e fresh lm) = do
  try_direct_resolution_vote cfg e fresh lm >>= λ vote. done
handle cfg (Event.prunes floor) = gc_below floor

unfoldable pub run : Config → List Event → World → World
unfolding handle
run cfg [] w = w
run cfg (e ∷ rest) w = run cfg rest (handle cfg e w).1
