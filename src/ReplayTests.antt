-- ===== src/ReplayTests.antt =====
-- The pacemaker's and the outbox's properties at concrete states, and tests.
use vantage_bft.Base.{◌≡◌, ◌≤◌, ◌<◌, ◌++◌, refl, inl, List, [], ◌∷◌, arith, count, leb, ltb, any}
use vantage_bft.Agb.Types.{View}
use vantage_bft.Pacemaker
use vantage_bft.Pacemaker.{Event, Pacemaker, kth_largest, on_wish}
use vantage_bft.Pacemaker.Order.{kth_largest_lem}
use vantage_bft.Pacemaker.Entry.{Advances, Onward, on_wish-Advances, run, run-Onward}
use vantage_bft.Outbox
use vantage_bft.Outbox.{Outbox, prune_below, push, slice_from, take_budgeted_slice}
use vantage_bft.Outbox.Bounds.{IsBounded, prune_below-IsBounded, push-IsBounded}
use vantage_bft.Outbox.Replay.{messages, take_budgeted_slice-resumes}

abbrev wishes : List View
wishes = 3 ∷ 7 ∷ 5 ∷ 2 ∷ []

second_largest : kth_largest wishes 2 ≡ 5
unfolding kth_largest
second_largest = refl

kth_largest_lem_example :
    (2 ≤ count (λ y. leb (kth_largest wishes 2) y) wishes)
    × (count (λ y. ltb (kth_largest wishes 2) y) wishes < 2)
kth_largest_lem_example = kth_largest_lem wishes 2 (omega arith) (omega arith)

abbrev started : Pacemaker
started = record {
  omega = 2 ∷ 2 ∷ 0 ∷ 0 ∷ [];
  names = 10 ∷ 20 ∷ 30 ∷ 40 ∷ [];
  own_index = 0;
  f_plus_1_parties = 2;
  quorum_parties = 3;
  own_watermark = 2;
  entry_target = 0;
  largest_entered_view = 0;
}

third_wish_enters :
    (on_wish 30 2 started).0 ≡ Pacemaker.Effect.enter 1 ∷ Pacemaker.Effect.enter 2 ∷ []
unfolding on_wish
third_wish_enters = refl

on_wish-Advances_example : Advances started (on_wish 30 2 started)
on_wish-Advances_example = on_wish-Advances 30 2 started

run-Forward_example :
    Onward started (run (Event.wishes 30 2 ∷ Event.raises 4 ∷ Event.installs 9 ∷ []) started)
unfolding any
run-Forward_example =
    run-Onward (Event.wishes 30 2 ∷ Event.raises 4 ∷ Event.installs 9 ∷ []) started refl

abbrev outbox : Outbox
outbox = record {
  views = (3, (1 ∷ 2 ∷ []) ∷ (3 ∷ []) ∷ []) ∷ (5, (4 ∷ 5 ∷ []) ∷ []) ∷ [];
  total_bytes = 5;
  max_bytes = 6;
  floor = 0;
}

outbox-IsBounded : IsBounded outbox
unfolding Outbox.size_of_views
outbox-IsBounded = record {
  ascending = (omega arith, tt);
  total = refl;
  capped = inl (omega arith);
}

push_evicts : (push 6 (7 ∷ 8 ∷ []) outbox).floor ≡ 4
unfolding push
push_evicts = refl

push-IsBounded_example : IsBounded (push 6 (7 ∷ 8 ∷ []) outbox)
push-IsBounded_example = push-IsBounded 6 (7 ∷ 8 ∷ []) outbox outbox-IsBounded

prune_below-IsBounded_example : IsBounded (prune_below 4 outbox)
prune_below-IsBounded_example = prune_below-IsBounded 4 outbox outbox-IsBounded

take_budgeted_slice-resumes_example :
    (take_budgeted_slice 1 3 outbox).0
      ++ messages (slice_from (take_budgeted_slice 1 3 outbox).1 outbox)
    ≡ messages (slice_from 1 outbox)
take_budgeted_slice-resumes_example = take_budgeted_slice-resumes 1 3 outbox (omega arith, tt)
