-- ===== src/Resolve/Steps.antt =====
-- primary/src/vantage/direct_resolution.rs: the changes of one target's state.
use vantage_bft.Base.{
  ℕ, max, Bool, true, false, not, ◌&&◌, ◌||◌, Option, none, some, List, [], ◌∷◌, is_some, ltb, leb,
  ◌==◌, if◌then◌else◌,
}
use vantage_bft.Base.BTree
use vantage_bft.Base.Map
use vantage_bft.Base.Map.{Map, lookup}
use vantage_bft.Committee.{PublicKey}
use vantage_bft.Agb.Types.{View, Digest, ResolutionEntry}
use vantage_bft.Resolve.Types.{ResolverView, Phase, Suggest, Proof, Proposal}
use vantage_bft.Resolve.State.{Config, Instance, ResolverViewState, VoteStatus, default_view}
use vantage_bft.Resolve.Counts.{at_view, is_backed, open_lock}
use mathlib.Core.Option.{get_or}

-- `raise_own_wish`: whether the wish is new, and whether the target is not entered yet.
unfoldable pub raise_wish : PublicKey → ResolverView → Instance → Option Bool × Instance
unfolding Map.insert
raise_wish name view i = if leb view i.own_wish then (none, i) else (
  some (i.current_view == 0),
  record i { own_wish = view; wishes = Map.insert name view i.wishes },
)

-- A sender's wish, if it is larger than the one before.
unfoldable pub larger_wish : PublicKey → ResolverView → Map ResolverView → Bool × Map ResolverView
unfolding lookup Map.insert
larger_wish sender view wishes =
    if leb view (get_or (lookup sender wishes) 0)
    then (false, wishes)
    else (true, Map.insert sender view wishes)

unfoldable pub take_wish : PublicKey → ResolverView → Instance → Bool × Instance
unfolding larger_wish
take_wish sender view i =
    let (new, wishes) = larger_wish sender view i.wishes in (new, record i { wishes = wishes })

-- Passive wishes, each sender's largest.
unfoldable pub merge_wishes : Map ResolverView → Map ResolverView → Map ResolverView
unfolding lookup Map.insert
merge_wishes [] wishes = wishes
merge_wishes ((sender, view) ∷ rest) wishes =
    merge_wishes rest (Map.insert sender (max (get_or (lookup sender wishes) 0) view) wishes)

unfoldable pub with_wishes : Map ResolverView → Instance → Instance
unfolding merge_wishes
with_wishes wishes i = record i { wishes = merge_wishes wishes i.wishes }

unfoldable pub with_candidates : List ResolutionEntry → Instance → Instance
with_candidates es i = record i { candidates = es }

-- The entry of a view that is above all entered before.
unfoldable pub mark_entered : ResolverView → Instance → Bool × Instance
unfolding lookup BTree.insert
mark_entered view i = if leb view i.entered_through then (false, i) else (
  true,
  record i {
    entered_through = view;
    current_view = view;
    views = BTree.insert view (get_or (lookup view i.views) default_view) i.views;
  },
)

abbrev pub own_suggest :
    PublicKey → View → ResolverView → Option ResolutionEntry → Instance → Suggest
own_suggest name target view entry i = record {
  target = target;
  view = view;
  sender = name;
  key3_view = i.key3_view;
  key3_value = i.key3_value;
  key2_view = i.key2_view;
  key2_value = i.key2_value;
  prev_key2 = i.prev_key2;
  entry = entry;
}

abbrev pub own_proof : PublicKey → View → ResolverView → Instance → Proof
own_proof name target view i = record {
  target = target;
  view = view;
  sender = name;
  key1_view = i.key1_view;
  key1_value = i.key1_value;
  prev_key1 = i.prev_key1;
}

-- The keys and the lock that a phase sets for a value.
unfoldable pub adopt : Phase → ResolverView → Digest → Instance → Unit {0} × Instance
adopt Phase.echo view value i = (tt, i)
adopt Phase.key1 view value i = (
  tt,
  record i {
    prev_key1 = if i.key1_value == value then i.prev_key1 else i.key1_view;
    key1_value = value;
    key1_view = view;
  },
)
adopt Phase.key2 view value i = (
  tt,
  record i {
    prev_key2 = if i.key2_value == value then i.prev_key2 else i.key2_view;
    key2_value = value;
    key2_view = view;
  },
)
adopt Phase.key3 view value i = (tt, record i { key3_view = view; key3_value = value })
adopt Phase.lock view value i = (tt, record i { lock_view = view; lock_value = value })

unfoldable pub send_done : PublicKey → Digest → Instance → Bool × Instance
unfolding Map.insert
send_done name value i =
    if is_some i.done_sent
    then (false, i)
    else (true, record i { done_sent = some value; done = Map.insert name value i.done })

unfoldable pub put_done : PublicKey → Digest → Instance → Unit {0} × Instance
unfolding Map.insert
put_done sender value i = (tt, record i { done = Map.insert sender value i.done })

-- What `try_echo` does next: nothing, an echo, or a request for the caller's vote.
pub data EchoAction : Type 0 where
  wait : EchoAction
  state : Proposal → (origin : Option ℕ) → EchoAction
  ask : Proposal → EchoAction

abbrev lock_ok : Config → ResolverView → Proposal → Instance → Bool
lock_ok cfg view p i =
    i.lock_view == 0
    || i.lock_value == p.value
    || (ltb p.key_view view && leb i.lock_view p.key_view && open_lock cfg view i)

abbrev by_status : VoteStatus → Proposal → Option ℕ → EchoAction
by_status VoteStatus.accepted p origin = EchoAction.state p origin
by_status VoteStatus.unknown p origin = EchoAction.ask p
by_status status p origin = EchoAction.wait

abbrev echo_proposed :
    Config → ResolverView → Option Proposal → ResolverViewState → Instance → EchoAction
echo_proposed cfg view none s i = EchoAction.wait
echo_proposed cfg view (some p) s i =
    if ltb 0 p.key_view && not (is_backed cfg p.value i)
    then EchoAction.wait
    else if not (lock_ok cfg view p i)
    then EchoAction.wait
    else by_status s.vote_status p s.vote_origin

unfoldable pub echo_action : Config → ResolverView → Instance → EchoAction
unfolding lookup is_backed open_lock
echo_action cfg view i =
    if not (view == i.current_view)
    then EchoAction.wait
    else at_view view EchoAction.wait
        (λ s.
          if is_some (lookup 0 s.sent)
          then EchoAction.wait
          else echo_proposed cfg view s.proposal s i)
        i
