-- ===== src/Outbox/Replay.antt =====
-- A budgeted slice of the outbox can be resumed (primary/src/vantage/outbox.rs).
use vantage_bft.Base.{ℕ, ◌+◌, ◌-◌, ◌≤◌, ◌≡◌, refl, List, [], ◌∷◌, ◌++◌, arith}
use vantage_bft.Base.BTree
use vantage_bft.Base.Map.{Map}
use vantage_bft.Agb.Types.{View}
use vantage_bft.Outbox.{Bytes, Outbox, gather, size_of, slice_from, take_budgeted_slice}
use vantage_bft.Outbox.Bounds.{Above, Ascending, Above-Ascending, split_off-Ascending}
use mathlib.Core.List.{append_assoc}

-- The messages of views, in order.
unfoldable pub messages : Map (List Bytes) → List Bytes
messages [] = []
messages ((key, msgs) ∷ rest) = msgs ++ messages rest

-- No key is below a view.
abbrev From : View → Map (List Bytes) → Type 0
From v [] = Unit {0}
From v ((k, msgs) ∷ m) = (v ≤ k) × From v m

Above-From-at : (v k : View) (m : Map (List Bytes)) → v ≤ k + 1 → Above k m → From v m
Above-From-at v k [] h a = tt
Above-From-at v k ((j, msgs) ∷ m) h a =
    (omega (arith, h, a.0), Above-From-at v j m (omega (arith, h, a.0)) a.1)

Above-From : (k : View) (m : Map (List Bytes)) → Above k m → From (k + 1) m
Above-From k m a = Above-From-at (k + 1) k m (omega arith) a

split_off-From : (v : View) (m : Map (List Bytes)) → From v m → BTree.split_off v m ≡ m
unfolding BTree.split_off
split_off-From v [] h = refl
split_off-From v ((k, msgs) ∷ m) h = ground (arith, split_off-From v m)

From-split_off : (v : View) (m : Map (List Bytes)) → From v (BTree.split_off v m)
unfolding BTree.split_off
From-split_off v [] = tt
From-split_off v ((k, msgs) ∷ m) = ground (arith, From-split_off v m)

split_off-split_off :
    (v w : View) (m : Map (List Bytes))
    → v ≤ w
    → BTree.split_off w (BTree.split_off v m) ≡ BTree.split_off w m
unfolding BTree.split_off
split_off-split_off v w [] h = refl
split_off-split_off v w ((k, msgs) ∷ m) h = ground (arith, split_off-split_off v w m)

gather-end :
    (m : Map (List Bytes)) (msgs : List Bytes) (from : View) (remaining : ℕ)
    → Ascending m
    → From from m
    → from ≤ (gather m msgs from remaining).1
unfolding gather
gather-end [] msgs from remaining a h = omega arith
gather-end ((k, v) ∷ m) msgs from remaining a h = ground (
  arith,
  gather-end m (msgs ++ v) (k + 1) (remaining - size_of v) (Above-Ascending k m a)
      (Above-From k m a),
)

gather-resumes :
    (m : Map (List Bytes)) (msgs : List Bytes) (from : View) (remaining : ℕ)
    → Ascending m
    → From from m
    → (gather m msgs from remaining).0
        ++ messages (BTree.split_off (gather m msgs from remaining).1 m)
      ≡ msgs ++ messages m
unfolding gather messages BTree.split_off
gather-resumes [] msgs from remaining a h = refl
gather-resumes ((k, v) ∷ m) msgs from remaining a h = ground (
  arith,
  split_off-From from ((k, v) ∷ m) h,
  append_assoc msgs v (messages m),
  gather-end m (msgs ++ v) (k + 1) (remaining - size_of v) (Above-Ascending k m a)
      (Above-From k m a),
  gather-resumes m (msgs ++ v) (k + 1) (remaining - size_of v) (Above-Ascending k m a)
      (Above-From k m a),
)

-- In an outbox whose views are ascending, for every first view and budget: the messages of the slice,
-- followed by the messages from the view at which the slice says to go on, are the messages from the
-- first view, each once and in order.
pub take_budgeted_slice-resumes :
    (from : View) (budget : ℕ) (o : Outbox)
    → Ascending o.views
    → (take_budgeted_slice from budget o).0
        ++ messages (slice_from (take_budgeted_slice from budget o).1 o)
      ≡ messages (slice_from from o)
unfolding take_budgeted_slice slice_from
take_budgeted_slice-resumes from budget o a =
    let kept = BTree.split_off from o.views in
    let ordered = split_off-Ascending from o.views a in
    rw
      (← split_off-split_off from (gather kept [] from budget).1 o.views
        (gather-end kept [] from budget ordered (From-split_off from o.views)))
      (gather-resumes kept [] from budget ordered (From-split_off from o.views))
