-- ===== src/Sequence/Runs.antt =====
-- Runs of a transfer (primary/src/vantage/sequence.rs, `SequenceTransfer`).
use vantage_bft.Base.{ℕ, ◌≤◌, if-cases, not, ◌||◌, List, [], ◌∷◌, ◌==◌}
use vantage_bft.Committee.{PublicKey}
use vantage_bft.Agb.Types.{View, Digest}
use vantage_bft.Sequence.Hash.{Hashing}
use vantage_bft.Sequence.Transfer.{
  TransferState, SequenceTransfer, SequenceUnavailable, new_transfer, first_missing_outcome,
  first_missing_delta, drop_source,
}
use vantage_bft.Sequence.Handlers.{on_unavailable}
use vantage_bft.Sequence.Wants.{want_in, want, wants_in, wants, missing_spaced, Event, handle, run}
use vantage_bft.Sequence.Sound.{
  IsSound, new_transfer-IsSound, first_missing_outcome-IsSound, first_missing_delta-IsSound,
  drop_source-IsSound, rotate-IsSound,
}
use vantage_bft.Sequence.Steps.{on_records-IsSound}
use vantage_bft.Sequence.Bodies.{on_outcomes-IsSound}
use vantage_bft.Sequence.Entries.{on_delta_range-IsSound, on_delta-IsSound}

module _ (h : Hashing) (base : View) (base_head : Digest) (aim : View) (aim_head : Digest) where
  want_in-IsSound :
      (state : TransferState) (t : SequenceTransfer)
      → IsSound h base base_head aim aim_head t
      → IsSound h base base_head aim aim_head (want_in state t).1
  want_in-IsSound TransferState.fetching_records t p = p
  want_in-IsSound TransferState.fetching_outcomes t p =
      first_missing_outcome-IsSound h base base_head aim aim_head t p
  want_in-IsSound TransferState.fetching_deltas t p =
      first_missing_delta-IsSound h base base_head aim aim_head t p
  want_in-IsSound TransferState.verified t p = p
  want_in-IsSound TransferState.exhausted t p = p

  wants_in-IsSound :
      (state : TransferState) (count : ℕ) (os ds : View) (t : SequenceTransfer)
      → IsSound h base base_head aim aim_head t
      → IsSound h base base_head aim aim_head (wants_in state count os ds t).1
  unfolding want missing_spaced first_missing_outcome first_missing_delta
  wants_in-IsSound TransferState.fetching_records count os ds t p = want_in-IsSound t.state t p
  wants_in-IsSound TransferState.fetching_outcomes count os ds t p =
      first_missing_outcome-IsSound h base base_head aim aim_head t p
  wants_in-IsSound TransferState.fetching_deltas count os ds t p =
      first_missing_delta-IsSound h base base_head aim aim_head t p
  wants_in-IsSound TransferState.verified count os ds t p = want_in-IsSound t.state t p
  wants_in-IsSound TransferState.exhausted count os ds t p = want_in-IsSound t.state t p

  on_unavailable-IsSound :
      (u : SequenceUnavailable) (from : PublicKey) (t : SequenceTransfer)
      → IsSound h base base_head aim aim_head t
      → IsSound h base base_head aim aim_head (on_unavailable u from t)
  unfolding on_unavailable
  on_unavailable-IsSound u from t p =
      if-cases (IsSound h base base_head aim aim_head)
        (not (u.transfer_id == t.transfer_id) || not (u.target_head == t.target_head)) t
        (drop_source from t) (λ _. p)
        λ _. drop_source-IsSound h base base_head aim aim_head from t p

  handle-IsSound :
      (e : Event) (t : SequenceTransfer)
      → IsSound h base base_head aim aim_head t
      → IsSound h base base_head aim aim_head (handle h e t).1
  unfolding handle wants
  handle-IsSound (Event.serves_records chunk from) t p =
      on_records-IsSound h base base_head aim aim_head chunk from t p
  handle-IsSound (Event.serves_outcomes serve from) t p =
      on_outcomes-IsSound h base base_head aim aim_head serve from t p
  handle-IsSound (Event.serves_delta chunk from) t p =
      on_delta-IsSound h base base_head aim aim_head chunk from t p
  handle-IsSound (Event.serves_deltas chunk from) t p =
      on_delta_range-IsSound h base base_head aim aim_head chunk from t p
  handle-IsSound (Event.lacks u from) t p = on_unavailable-IsSound u from t p
  handle-IsSound (Event.drops from) t p = drop_source-IsSound h base base_head aim aim_head from t p
  handle-IsSound Event.rotates t p = rotate-IsSound h base base_head aim aim_head t p
  handle-IsSound (Event.asks count os ds) t p = wants_in-IsSound t.state count os ds t p

  run-IsSound_from :
      (es : List Event) (t : SequenceTransfer)
      → IsSound h base base_head aim aim_head t
      → IsSound h base base_head aim aim_head (run h es t).1
  unfolding run
  run-IsSound_from [] t p = p
  run-IsSound_from (e ∷ es) t p = run-IsSound_from es (handle h e t).1 (handle-IsSound e t p)

pub run-IsSound :
    (h : Hashing) (id : ℕ) (base : View) (base_head : Digest) (target : View) (target_head : Digest)
    (sources : List PublicKey) (es : List Event)
    → base ≤ target
    → IsSound h base base_head target target_head
        (run h es (new_transfer id base base_head target target_head sources)).1
run-IsSound h id base base_head target target_head sources es l =
    run-IsSound_from h base base_head target target_head es
      (new_transfer id base base_head target target_head sources)
      (new_transfer-IsSound h base base_head target target_head id sources l)
