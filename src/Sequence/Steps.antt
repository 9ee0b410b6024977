-- ===== src/Sequence/Steps.antt =====
-- What each message does to a transfer (primary/src/vantage/sequence.rs, `on_records`,
-- `on_outcomes`, `on_delta`, `on_delta_range`).
use vantage_bft.Base.{
  suc, ◌+◌, ◌≤◌, ◌<◌, ◌≡◌, ◌≢◌, if-cases, sym, ap, subst, ◌∙◌, inl, inr, Bool, true, false, not,
  ◌||◌, some, is_empty, List, [], ◌++◌, arith, if◌then◌else◌,
}
use vantage_bft.Base.Map.{lookup}
use vantage_bft.Committee.{PublicKey}
use vantage_bft.Agb.Types.{View, Digest}
use vantage_bft.Sequence.Hash.{Result, ok, err, SequenceRecord, Hashing}
use vantage_bft.Sequence.Chain.{ChainError, ChainVerifier, insert_all, absorb_records}
use vantage_bft.Sequence.Transfer.{
  TransferState, SequenceTransfer, SequenceRecordChunk, same_state, accepts,
}
use vantage_bft.Sequence.Handlers.{fresh_records, records_absorbed, on_records, Handled}
use vantage_bft.Sequence.Links.{Extends-length, Extends-append}
use vantage_bft.Sequence.Absorb.{
  insert_all-append, lookup-insert_all, Absorbs, absorb_records-Absorbs,
}
use vantage_bft.Sequence.Sound.{Chained, IsSound, advance_if_done-IsSound, penalize-IsSound}

pub same_state-eq : (a b : TransferState) → same_state a b ≡ true → a ≡ b
same_state-eq TransferState.fetching_records b e = ground (arith, e)
same_state-eq TransferState.fetching_outcomes b e = ground (arith, e)
same_state-eq TransferState.fetching_deltas b e = ground (arith, e)
same_state-eq TransferState.verified b e = ground (arith, e)
same_state-eq TransferState.exhausted b e = ground (arith, e)

module _ (h : Hashing) (base : View) (base_head : Digest) (aim : View) (aim_head : Digest) where
  -- The verified records are those after the base and before the next view.
  pub verified_range :
      (v : ChainVerifier) (u : View) (r : SequenceRecord)
      → Chained h base base_head aim aim_head v
      → lookup u v.verified ≡ some r
      → (base < u) × (u < v.next_view)
  unfolding lookup
  verified_range v u r (ss, x, k, _, _) e = ground (
    arith,
    e,
    k,
    lookup-insert_all h u (base + 1) base_head ss v.next_view v.head [] x,
    ap (lookup u) k,
  )

  -- Records that are verified stay so.
  absorbed_lookup :
      (v w : ChainVerifier) (rs : List SequenceRecord) (reached : Bool)
      → Chained h base base_head aim aim_head v
      → Absorbs h v rs (ok reached, w)
      → (u : View) (r : SequenceRecord) → lookup u v.verified ≡ some r
      → lookup u w.verified ≡ some r
  absorbed_lookup v w rs reached c (y, _, m, _, _, _, _, _) u r e =
      let (a, b) = verified_range v u r c e in
      ap (lookup u) m
      ∙ ground
          (arith, e, b, lookup-insert_all h u v.next_view v.head rs w.next_view w.head v.verified y)

  absorbed_chain :
      (v w : ChainVerifier) (rs : List SequenceRecord) (reached : Bool)
      → Chained h base base_head aim aim_head v
      → Absorbs h v rs (ok reached, w)
      → Chained h base base_head aim aim_head w
  absorbed_chain v w rs reached (ss, x, k, l, _) (y, n, m, t, f, c, tv, th) =
      let size = Extends-length h v.next_view v.head rs w.next_view w.head y in
      let bound : w.next_view ≤ suc w.target_view = elim n [
        | inl z ↦ omega (arith, z, size, l, tv)
        | inr b ↦ omega (arith, b, tv)
      ] in
      (
        ss ++ rs,
        Extends-append h (base + 1) base_head ss rs v.next_view w.next_view v.head w.head x y,
        m ∙ ap (insert_all rs) k ∙ sym (insert_all-append ss rs []),
        bound,
        λ e. (ground (arith, bound, e, c, t, tv), f (sym c ∙ e) ∙ sym th),
      )

  absorbed_bodies :
      (t : SequenceTransfer) (w : ChainVerifier) (rs : List SequenceRecord) (reached : Bool)
      (state : TransferState)
      → state ≢ TransferState.verified
      → Absorbs h t.chain rs (ok reached, w)
      → IsSound h base base_head aim aim_head t
      → IsSound h base base_head aim aim_head (record t { chain = w; state = state })
  absorbed_bodies t w rs reached state n a p =
      let (tv, th, c) = p.chained in
      let (os, ds, fs) = p.bodies in
      let keep = absorbed_lookup t.chain w rs reached c a in
      let (_, _, _, _, _, _, wv, wh) = a in
      record {
        aimed = p.aimed;
        chained = (wv ∙ tv, wh ∙ th, absorbed_chain t.chain w rs reached c a);
        bodies = (
          λ u o e. let (r, i, q) = os u o e in (r, keep u r i, q),
          λ u items e. let (r, i, q) = ds u items e in (r, keep u r i, q),
          λ u d e. let (r, i, q) = fs u d e in (r, keep u r i, q),
        );
        passed = p.passed;
        done = λ e. absurd (n e);
      }

  records_absorbed-IsSound :
      (from : PublicKey) (t : SequenceTransfer) (rs : List SequenceRecord)
      (result : Result ChainError Bool × ChainVerifier)
      → t.state ≢ TransferState.verified
      → Absorbs h t.chain rs result
      → IsSound h base base_head aim aim_head t
      → IsSound h base base_head aim aim_head (records_absorbed from t result).1
  unfolding records_absorbed
  records_absorbed-IsSound from t rs (ok true, w) n a p =
      advance_if_done-IsSound h base base_head aim aim_head _
        (absorbed_bodies t w rs true TransferState.fetching_outcomes (λ e. ground (arith, e)) a p)
  records_absorbed-IsSound from t rs (ok false, w) n a p =
      absorbed_bodies t w rs false t.state n a p
  records_absorbed-IsSound from t rs (err e, w) n (q, _) p =
      penalize-IsSound h base base_head aim aim_head from (record t { chain = w })
        (subst (λ c. IsSound h base base_head aim aim_head (record t { chain = c })) (sym q) p)

  -- A message for another state, transfer or source is left aside.
  pub guarded-IsSound :
      (t : SequenceTransfer) (state : TransferState) (accepted : Bool) (body : Handled)
      → state ≢ TransferState.verified
      → IsSound h base base_head aim aim_head t
      → (t.state ≢ TransferState.verified → IsSound h base base_head aim aim_head body.1)
      → IsSound h base base_head aim aim_head
          (if not (same_state t.state state) || not accepted then (ok tt, t) else body).1
  guarded-IsSound t state accepted body n p f =
      if-cases (λ (r : Handled). IsSound h base base_head aim aim_head r.1)
        (not (same_state t.state state) || not accepted) (ok tt, t) body (λ _. p)
        λ e. f λ k. n (sym (same_state-eq t.state state (ground (arith, e))) ∙ k)

  pub on_records-IsSound :
      (chunk : SequenceRecordChunk) (from : PublicKey) (t : SequenceTransfer)
      → IsSound h base base_head aim aim_head t
      → IsSound h base base_head aim aim_head (on_records h chunk from t).1
  unfolding on_records
  on_records-IsSound chunk from t p =
      let fresh = fresh_records t.chain.next_view t.target_view chunk.records in
      let absorbed = records_absorbed from t (absorb_records h fresh t.chain) in
      guarded-IsSound t TransferState.fetching_records
        (accepts from chunk.transfer_id chunk.target_head t)
        (if is_empty fresh then (ok tt, t) else absorbed) (λ k. ground (arith, k)) p
        λ n.
          if-cases (λ (r : Handled). IsSound h base base_head aim aim_head r.1) (is_empty fresh)
            (ok tt, t) absorbed (λ _. p)
            λ _.
              records_absorbed-IsSound from t fresh (absorb_records h fresh t.chain) n
                (absorb_records-Absorbs h t.chain fresh) p
