-- ===== src/Sequence/Entries.antt =====
-- What deltas do to a transfer (primary/src/vantage/sequence.rs, `on_delta`, `on_delta_range`).
use vantage_bft.Base.{
  ℕ, ◌≡◌, if-cases, refl, sym, subst, ◌∙◌, inl, inr, Bool, true, false, ◌||◌, Option, none, some,
  is_some, List, [], ◌∷◌, arith, ltb, Option-cases,
}
use vantage_bft.Base.BTree
use vantage_bft.Base.Map
use vantage_bft.Base.Map.{Map, lookup}
use vantage_bft.Committee.{PublicKey}
use vantage_bft.Agb.Types.{View, Digest}
use vantage_bft.Sequence.Hash.{Result, ok, err, SequenceRecord, Hashing}
use vantage_bft.Sequence.Chain.{absorb, delta_is_complete, ChainError, DeltaVerifier}
use vantage_bft.Sequence.Store.{SequenceDeltaEntry}
use vantage_bft.Sequence.Transfer.{
  SequenceDeltaRangeChunk, SequenceDeltaChunk, TransferState, SequenceTransfer, accepts,
  advance_if_done,
}
use vantage_bft.Sequence.Handlers.{
  finish_delta, delta_absorbed, delta_at, entry_at, on_delta_entry, on_delta_entries,
  on_delta_range, on_delta, Handled,
}
use mathlib.Core.Option.{some-injective}
use vantage_bft.Sequence.Deltas.{Commits, Follows, Takes, new_delta-Follows, absorb-Takes}
use vantage_bft.Sequence.Sound.{InFlight, IsSound, advance_if_done-IsSound, penalize-IsSound}
use vantage_bft.Sequence.Steps.{guarded-IsSound}
use vantage_bft.Sequence.Bodies.{grows, and_then-IsSound}

module _ (h : Hashing) (base : View) (base_head : Digest) (aim : View) (aim_head : Digest) where
  with_flying-IsSound :
      (flying : Map DeltaVerifier) (t : SequenceTransfer)
      → InFlight h base base_head aim aim_head t.chain.verified flying
      → IsSound h base base_head aim aim_head t
      → IsSound h base base_head aim aim_head (record t { delta_in_flight = flying })
  with_flying-IsSound flying t f p = record {
    aimed = p.aimed;
    chained = p.chained;
    bodies = (p.bodies.0, p.bodies.1, f);
    passed = p.passed;
    done = p.done;
  }

  with_delta-IsSound :
      (u : View) (items : List Digest) (r : SequenceRecord) (t : SequenceTransfer)
      → lookup u t.chain.verified ≡ some r
      → Commits h u r items
      → IsSound h base base_head aim aim_head t
      → IsSound h base base_head aim aim_head (record t { deltas = BTree.insert u items t.deltas })
  with_delta-IsSound u items r t i q p =
      let (os, ds, fs) = p.bodies in
      record {
        aimed = p.aimed;
        chained = p.chained;
        bodies = (
          os,
          BTree.insert_all_hold
              (λ v x. (z : SequenceRecord) × (lookup v t.chain.verified ≡ some z) × Commits h v z x)
              u items t.deltas (r, i, q) ds,
          fs,
        );
        passed = (
          p.passed.0,
          (
            p.passed.1.0,
            λ v a b. grows h base base_head aim aim_head u v items t.deltas (p.passed.1.1 v a b),
          ),
        );
        done = λ e.
            let (c, x, y) = p.done e in
            (c, x, λ v a b s. grows h base base_head aim aim_head u v items t.deltas (y v a b s));
      }

  landed-IsSound :
      (u : View) (t : SequenceTransfer)
      → IsSound h base base_head aim aim_head t
      → IsSound h base base_head aim aim_head
          (record t { delta_in_flight = Map.remove u t.delta_in_flight })
  landed-IsSound u t p =
      with_flying-IsSound (Map.remove u t.delta_in_flight) t
        (BTree.remove_all_hold
          (λ v d. (z : SequenceRecord) × (lookup v t.chain.verified ≡ some z) × Follows h v z d) u
          t.delta_in_flight p.bodies.2)
        p

  finish_delta-IsSound :
      (u : View) (d : DeltaVerifier) (r : SequenceRecord) (t : SequenceTransfer)
      → lookup u t.chain.verified ≡ some r
      → Commits h u r d.items
      → IsSound h base base_head aim aim_head t
      → IsSound h base base_head aim aim_head (finish_delta h u d t)
  unfolding finish_delta
  finish_delta-IsSound u d r t i q p =
      if-cases
        (λ (o : Option (List Digest)). IsSound h base base_head aim aim_head (elim o [
          | none ↦ t
          | some items ↦ advance_if_done (record t {
            delta_in_flight = Map.remove u t.delta_in_flight;
            deltas = BTree.insert u items t.deltas;
          })
        ]))
        (delta_is_complete d) (some d.items) none
        (λ _. advance_if_done-IsSound h base base_head aim aim_head _ (
          with_delta-IsSound u d.items r
            (record t { delta_in_flight = Map.remove u t.delta_in_flight }) i q
            (landed-IsSound u t p)))
        λ _. p

  delta_absorbed-IsSound :
      (u : View) (from : PublicKey) (t : SequenceTransfer) (r : SequenceRecord) (start : ℕ)
      (d : DeltaVerifier) (items : List Digest) (result : Result ChainError Bool × DeltaVerifier)
      → lookup u t.chain.verified ≡ some r
      → Takes h u r start d items result
      → IsSound h base base_head aim aim_head t
      → IsSound h base base_head aim aim_head (delta_absorbed h u from t result).1
  unfolding delta_absorbed
  delta_absorbed-IsSound u from t r start d items (ok true, e) i (_, _, _, _, c) p =
      finish_delta-IsSound u e r t i (c refl) p
  delta_absorbed-IsSound u from t r start d items (ok false, e) i (f, _, _, _, _) p =
      with_flying-IsSound (BTree.insert u e t.delta_in_flight) t
        (BTree.insert_all_hold
          (λ v d. (z : SequenceRecord) × (lookup v t.chain.verified ≡ some z) × Follows h v z d) u e
          t.delta_in_flight (r, i, f) p.bodies.2)
        p
  delta_absorbed-IsSound u from t r start d items (err error, e) i _ p =
      penalize-IsSound h base base_head aim aim_head from _ (landed-IsSound u t p)

  delta_at-Follows :
      (u : View) (r : SequenceRecord) (t : SequenceTransfer)
      → lookup u t.chain.verified ≡ some r
      → IsSound h base base_head aim aim_head t
      → Follows h u r (delta_at h u r t.delta_in_flight)
  unfolding delta_at
  delta_at-Follows u r t i p = elim (Option-cases (lookup u t.delta_in_flight)) [
    | inl n ↦ rw n (new_delta-Follows h u r)
    | inr (d, q) ↦
        let (z, j, f) = p.bodies.2 u d q in
        rw q (subst (λ z. Follows h u z d) (some-injective z r (sym j ∙ i)) f)
  ]

  entry_at-IsSound :
      (e : SequenceDeltaEntry) (from : PublicKey) (t : SequenceTransfer)
      (found : Option SequenceRecord)
      → lookup e.view t.chain.verified ≡ found
      → IsSound h base base_head aim aim_head t
      → IsSound h base base_head aim aim_head (entry_at h e from t found).1
  unfolding entry_at
  entry_at-IsSound e from t none i p = p
  entry_at-IsSound e from t (some r) i p =
      let d = delta_at h e.view r t.delta_in_flight in
      if-cases (λ (r : Handled). IsSound h base base_head aim aim_head r.1)
        (is_some (lookup e.view t.deltas) || ltb e.start_index d.next_index) (ok tt, t)
        (delta_absorbed h e.view from t (absorb h e.start_index e.items d)) (λ _. p)
        λ _.
          delta_absorbed-IsSound e.view from t r e.start_index d e.items
            (absorb h e.start_index e.items d) i
            (absorb-Takes h e.view r d e.start_index e.items (delta_at-Follows e.view r t i p)) p

  on_delta_entry-IsSound :
      (e : SequenceDeltaEntry) (from : PublicKey) (t : SequenceTransfer)
      → IsSound h base base_head aim aim_head t
      → IsSound h base base_head aim aim_head (on_delta_entry h e from t).1
  unfolding on_delta_entry
  on_delta_entry-IsSound e from t p =
      entry_at-IsSound e from t (lookup e.view t.chain.verified) refl p

  on_delta_entries-IsSound :
      (es : List SequenceDeltaEntry) (from : PublicKey) (t : SequenceTransfer)
      → IsSound h base base_head aim aim_head t
      → IsSound h base base_head aim aim_head (on_delta_entries h es from t).1
  unfolding on_delta_entries
  on_delta_entries-IsSound [] from t p = p
  on_delta_entries-IsSound (e ∷ es) from t p =
      and_then-IsSound h base base_head aim aim_head (on_delta_entry h e from t)
        (on_delta_entries h es from) (on_delta_entry-IsSound e from t p)
        (on_delta_entries-IsSound es from)

  pub on_delta_range-IsSound :
      (chunk : SequenceDeltaRangeChunk) (from : PublicKey) (t : SequenceTransfer)
      → IsSound h base base_head aim aim_head t
      → IsSound h base base_head aim aim_head (on_delta_range h chunk from t).1
  unfolding on_delta_range
  on_delta_range-IsSound chunk from t p =
      guarded-IsSound h base base_head aim aim_head t TransferState.fetching_deltas
        (accepts from chunk.transfer_id chunk.target_head t)
        (on_delta_entries h chunk.entries from t) (λ k. ground (arith, k)) p
        λ _. on_delta_entries-IsSound chunk.entries from t p

  pub on_delta-IsSound :
      (chunk : SequenceDeltaChunk) (from : PublicKey) (t : SequenceTransfer)
      → IsSound h base base_head aim aim_head t
      → IsSound h base base_head aim aim_head (on_delta h chunk from t).1
  unfolding on_delta
  on_delta-IsSound chunk from t p =
      let e : SequenceDeltaEntry = record {
        view = chunk.view;
        start_index = chunk.start_index;
        items = chunk.items;
        complete = chunk.complete;
      } in
      guarded-IsSound h base base_head aim aim_head t TransferState.fetching_deltas
        (accepts from chunk.transfer_id chunk.target_head t) (on_delta_entry h e from t)
        (λ k. ground (arith, k)) p λ _. on_delta_entry-IsSound e from t p
