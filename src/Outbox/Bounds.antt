-- ===== src/Outbox/Bounds.antt =====
-- The outbox counts its bytes and keeps its cap (primary/src/vantage/outbox.rs).
use vantage_bft.Base.{
  ℕ, ◌+◌, ◌-◌, ◌≤◌, ◌<◌, ◌≡◌, ◌⊎◌, refl, inr, max, none, List, [], ◌∷◌, ◌++◌, length, arith,
}
use vantage_bft.Base.BTree
use vantage_bft.Base.Map.{Map, lookup}
use vantage_bft.Agb.Types.{View}
use vantage_bft.Outbox.{
  Bytes, Outbox, discarded, evict, evict_over_cap, new, prune_below, push, size_of, size_of_views,
}
use mathlib.Core.Option.{get_or}

-- The keys of a map above a key, in ascending order.
abbrev pub Above : View → Map (List Bytes) → Type 0
Above k [] = Unit {0}
Above k ((j, v) ∷ m) = (k < j) × Above j m

abbrev pub Ascending : Map (List Bytes) → Type 0
Ascending [] = Unit {0}
Ascending ((k, v) ∷ m) = Above k m

-- The views are ascending, their bytes are counted, and over the cap only one view is left.
pub record IsBounded (o : Outbox) : Type 0 where
  pub ascending : Ascending o.views
  pub total : o.total_bytes ≡ size_of_views o.views
  pub capped : (o.total_bytes ≤ o.max_bytes) ⊎ (length o.views ≤ 1)

pub Above-Ascending : (k : View) (m : Map (List Bytes)) → Above k m → Ascending m
Above-Ascending k [] h = tt
Above-Ascending k ((j, v) ∷ m) h = h.1

Above-lower : (i k : View) (m : Map (List Bytes)) → i ≤ k → Above k m → Above i m
Above-lower i k [] h a = tt
Above-lower i k ((j, v) ∷ m) h a = (omega (arith, a.0), a.1)

size_of-push : (xs : List Bytes) (b : Bytes) → size_of (xs ++ b ∷ []) ≡ size_of xs + length b
unfolding size_of
size_of-push [] b = omega arith
size_of-push (x ∷ xs) b = omega (arith, size_of-push xs b)

lookup-Above : (key k : View) (m : Map (List Bytes)) → key ≤ k → Above k m → lookup key m ≡ none
unfolding lookup
lookup-Above key k [] h a = refl
lookup-Above key k ((j, v) ∷ m) h a = ground (arith, lookup-Above key j m)

insert-Above :
    (i key : View) (msgs : List Bytes) (m : Map (List Bytes))
    → i < key
    → Above i m
    → Above i (BTree.insert key msgs m)
unfolding BTree.insert
insert-Above i key msgs [] h a = (h, tt)
insert-Above i key msgs ((j, v) ∷ m) h a = ground (arith, insert-Above j key msgs m)

insert-Ascending :
    (key : View) (msgs : List Bytes) (m : Map (List Bytes))
    → Ascending m
    → Ascending (BTree.insert key msgs m)
unfolding BTree.insert
insert-Ascending key msgs [] a = tt
insert-Ascending key msgs ((j, v) ∷ m) a = ground (arith, insert-Above j key msgs m)

-- The size with the messages of one view replaced.
size_of_views-insert :
    (key : View) (msgs : List Bytes) (m : Map (List Bytes))
    → Ascending m
    → size_of_views (BTree.insert key msgs m) + size_of (get_or (lookup key m) [])
      ≡ size_of msgs + size_of_views m
unfolding size_of_views size_of BTree.insert lookup
size_of_views-insert key msgs [] a = omega arith
size_of_views-insert key msgs ((k, v) ∷ m) a =
    ground (arith, size_of_views-insert key msgs m (Above-Ascending k m a), lookup-Above key k m)

evict-Ascending :
    (limit total : ℕ) (floor : View) (m : Map (List Bytes))
    → Ascending m
    → Ascending (evict limit total floor m).0
unfolding evict
evict-Ascending limit total floor [] a = tt
evict-Ascending limit total floor ((k, v) ∷ m) a =
    ground (
      arith,
      evict-Ascending limit (total - size_of v) (max floor (k + 1)) m (Above-Ascending k m a),
    )

evict-counted :
    (limit total : ℕ) (floor : View) (m : Map (List Bytes))
    → total ≡ size_of_views m
    → ((evict limit total floor m).1 ≡ size_of_views (evict limit total floor m).0)
      × (((evict limit total floor m).1 ≤ limit) ⊎ (length (evict limit total floor m).0 ≤ 1))
unfolding evict size_of_views
evict-counted limit total floor [] h = (h, inr (omega arith))
evict-counted limit total floor ((k, v) ∷ []) h = ground arith
evict-counted limit total floor ((k, v) ∷ e ∷ m) h =
    ground (
      arith,
      evict-counted limit (total - size_of v) (max floor (k + 1)) (e ∷ m) (omega (arith, h)),
    )

split_off-sizes :
    (floor : View) (m : Map (List Bytes))
    → size_of_views (BTree.split_off floor m) + size_of_views (discarded floor m) ≡ size_of_views m
unfolding size_of_views BTree.split_off discarded
split_off-sizes floor [] = omega arith
split_off-sizes floor ((k, v) ∷ m) = ground (arith, split_off-sizes floor m)

split_off-Above :
    (i floor : View) (m : Map (List Bytes)) → Above i m → Above i (BTree.split_off floor m)
unfolding BTree.split_off
split_off-Above i floor [] a = tt
split_off-Above i floor ((k, v) ∷ m) a =
    ground (arith, split_off-Above k floor m, split_off-Above i floor m, Above-lower i k m)

pub split_off-Ascending :
    (floor : View) (m : Map (List Bytes)) → Ascending m → Ascending (BTree.split_off floor m)
unfolding BTree.split_off
split_off-Ascending floor [] a = tt
split_off-Ascending floor ((k, v) ∷ m) a =
    ground (arith, split_off-Above k floor m, split_off-Ascending floor m (Above-Ascending k m a))

length-split_off :
    (floor : View) (m : Map (List Bytes)) → length (BTree.split_off floor m) ≤ length m
unfolding BTree.split_off
length-split_off floor [] = omega arith
length-split_off floor ((k, v) ∷ m) = ground (arith, length-split_off floor m)

new-IsBounded : (max_bytes : ℕ) → IsBounded (new max_bytes)
unfolding new size_of_views
new-IsBounded max_bytes = record { ascending = tt; total = refl; capped = inr (omega arith) }

evict_over_cap-IsBounded :
    (o : Outbox)
    → Ascending o.views
    → o.total_bytes ≡ size_of_views o.views
    → IsBounded (evict_over_cap o)
unfolding evict_over_cap
evict_over_cap-IsBounded o a h =
    let e = evict-counted o.max_bytes o.total_bytes o.floor o.views h in
    record {
      ascending = evict-Ascending o.max_bytes o.total_bytes o.floor o.views a;
      total = e.0;
      capped = e.1;
    }

-- In an outbox whose views are ascending, whose bytes are counted and whose size is within the cap
-- or in one view, the same holds after a message is recorded.
pub push-IsBounded :
    (key : View) (bytes : Bytes) (o : Outbox) → IsBounded o → IsBounded (push key bytes o)
unfolding push
push-IsBounded key bytes o h =
    let old = get_or (lookup key o.views) [] in
    evict_over_cap-IsBounded
      (record o {
        views = BTree.insert key (old ++ bytes ∷ []) o.views;
        total_bytes = o.total_bytes + length bytes;
      })
      (insert-Ascending key (old ++ bytes ∷ []) o.views h.ascending)
      (omega (
        arith,
        size_of_views-insert key (old ++ bytes ∷ []) o.views h.ascending,
        size_of-push old bytes,
        h.total,
      ))

-- In an outbox whose views are ascending, whose bytes are counted and whose size is within the cap
-- or in one view, the same holds after the views below a floor are pruned.
pub prune_below-IsBounded :
    (floor : View) (o : Outbox) → IsBounded o → IsBounded (prune_below floor o)
unfolding prune_below
prune_below-IsBounded floor o h = record {
  ascending = ground (arith, split_off-Ascending floor o.views);
  total = ground (arith, split_off-sizes floor o.views);
  capped = ground (arith, length-split_off floor o.views);
}
