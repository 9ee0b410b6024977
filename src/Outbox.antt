-- ===== src/Outbox.antt =====
-- primary/src/vantage/outbox.rs: own broadcasts, kept by view for bounded replay. The message bytes
-- are lists; the sizes are `usize` and bounded by the memory.
pub mod Bounds
pub mod Replay
use vantage_bft.Base.{
  ℕ, suc, ◌+◌, ◌-◌, max, Bool, true, false, not, ◌&&◌, Option, none, some, List, [], ◌∷◌, ◌++◌,
  length, is_empty, ltb, leb, ◌==◌, if◌then◌else◌,
}
use vantage_bft.Base.BTree
use vantage_bft.Base.Map.{Map, lookup}
use vantage_bft.Agb.Types.{View}
use mathlib.Core.Option.{get_or}

abbrev pub Bytes : Type 0
Bytes = List ℕ

pub record Outbox : Type 0 where
  pub views : Map (List Bytes)
  pub total_bytes : ℕ
  pub max_bytes : ℕ
  pub floor : View

unfoldable pub new : ℕ → Outbox
new max_bytes = record { views = []; total_bytes = 0; max_bytes = max_bytes; floor = 0 }

-- `msgs.iter().map(Bytes::len).sum()`
unfoldable pub size_of : List Bytes → ℕ
size_of [] = 0
size_of (b ∷ bs) = length b + size_of bs

unfoldable pub size_of_views : Map (List Bytes) → ℕ
unfolding size_of
size_of_views [] = 0
size_of_views ((key, msgs) ∷ rest) = size_of msgs + size_of_views rest

-- The loop over the oldest views, while the size is over the cap and two views are left.
unfoldable pub evict :
    (limit total : ℕ) (floor : View) → Map (List Bytes) → Map (List Bytes) × ℕ × View
unfolding size_of
evict limit total floor [] = ([], total, floor)
evict limit total floor ((key, msgs) ∷ rest) =
    let fewer = evict limit (total - size_of msgs) (max floor (key + 1)) rest in
    if ltb limit total && not (is_empty rest) then fewer else ((key, msgs) ∷ rest, total, floor)

unfoldable pub evict_over_cap : Outbox → Outbox
unfolding evict
evict_over_cap o =
    let (views, total, floor) = evict o.max_bytes o.total_bytes o.floor o.views in
    record o { views = views; total_bytes = total; floor = floor }

-- The key is not below the newest one; the source asserts it in debug builds.
unfoldable pub push : View → Bytes → Outbox → Outbox
unfolding BTree.insert lookup evict_over_cap
push key bytes o = evict_over_cap (record o {
  views = BTree.insert key (get_or (lookup key o.views) [] ++ bytes ∷ []) o.views;
  total_bytes = o.total_bytes + length bytes;
})

unfoldable pub slice_from : View → Outbox → Map (List Bytes)
unfolding BTree.split_off
slice_from from o = BTree.split_off from o.views

-- The views that `split_off` leaves behind.
unfoldable pub discarded : View → Map (List Bytes) → Map (List Bytes)
discarded floor [] = []
discarded floor ((key, msgs) ∷ rest) =
    let others = discarded floor rest in if ltb key floor then (key, msgs) ∷ others else others

unfoldable pub prune_below : View → Outbox → Outbox
unfolding BTree.split_off discarded size_of_views
prune_below floor o = if leb floor o.floor then o else (record o {
  views = BTree.split_off floor o.views;
  total_bytes = o.total_bytes - size_of_views (discarded floor o.views);
  floor = floor;
})

-- The loop over the groups, with what it has gathered.
unfoldable pub gather :
    Map (List Bytes) → List Bytes → View → (remaining : ℕ) → List Bytes × View × Bool
unfolding size_of
gather [] msgs end_key remaining = (msgs, end_key, true)
gather ((key, key_msgs) ∷ rest) msgs end_key remaining =
    let further = gather rest (msgs ++ key_msgs) (key + 1) (remaining - size_of key_msgs) in
    if not (is_empty msgs) && ltb remaining (size_of key_msgs)
    then (msgs, end_key, false)
    else further

unfoldable pub take_budgeted_slice : View → (budget : ℕ) → Outbox → List Bytes × View × Bool
unfolding gather slice_from
take_budgeted_slice from budget o = gather (slice_from from o) [] from budget
