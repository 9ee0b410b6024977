-- ===== src/Sequence/Served.antt =====
-- The records that a store serves pass a chain verifier (primary/src/vantage/sequence.rs,
-- `records_from` and `absorb_records`).
use vantage_bft.Base.{
  ℕ, suc, ◌≤◌, ◌<◌, ◌≡◌, refl, sym, ap, subst, ◌∙◌, Bool, true, some, List, [], ◌∷◌, length, arith,
}
use vantage_bft.Base.Map.{Map, lookup}
use vantage_bft.Agb.Types.{View, Digest}
use vantage_bft.Sequence.Hash.{
  Result, ok, err, SequenceOutcome, SequenceRecord, Hashing, genesis_head, record_head,
}
use vantage_bft.Sequence.Store.{SequenceStore, new_store, record_all, records_from}
use vantage_bft.Sequence.Chain.{ChainError, ChainVerifier, new_chain, insert_all, absorb_records}
use vantage_bft.Sequence.Links.{Extends, Extends-length}
use vantage_bft.Sequence.Absorb.{lookup-insert_all, Absorbs, absorb_records-Absorbs}
use vantage_bft.Sequence.Linked.{IsLinked, record_all-IsLinked}
use vantage_bft.Sequence.Parts.{get_elem?-some, store_part}
use mathlib.Core.Option.{map, some-injective}

module _ (h : Hashing) where
  first_of :
      (v : View) (d : Digest) (r : SequenceRecord) (rs : List SequenceRecord) (w : View)
      (e : Digest)
      → Extends h v d (r ∷ rs) w e
      → lookup v (insert_all (r ∷ rs) []) ≡ some r
  unfolding lookup
  first_of v d r rs w e (a, b, c, x) = ground (
    arith,
    Extends-length h (suc v) (record_head h r) rs w e x,
    lookup-insert_all h v v d (r ∷ rs) w e [] (a, b, c, x),
  )

  rest_of :
      (u v : View) (d : Digest) (r : SequenceRecord) (rs : List SequenceRecord) (w : View)
      (e : Digest)
      → Extends h v d (r ∷ rs) w e
      → v < u
      → u < w
      → lookup u (insert_all (r ∷ rs) []) ≡ lookup u (insert_all rs [])
  unfolding lookup
  rest_of u v d r rs w e (a, b, c, x) l m = ground (
    arith,
    l,
    m,
    lookup-insert_all h u v d (r ∷ rs) w e [] (a, b, c, x),
    lookup-insert_all h u (suc v) (record_head h r) rs w e [] x,
  )

  -- The records of a chain are served from a map that has them.
  records_from-Extends :
      (v : View) (d : Digest) (rs : List SequenceRecord) (w : View) (e : Digest)
      (records : Map SequenceRecord)
      → Extends h v d rs w e
      → ((u : View) → v ≤ u → u < w → lookup u records ≡ lookup u (insert_all rs []))
      → records_from v (length rs) records ≡ rs
  unfolding records_from
  records_from-Extends v d [] w e records x f = refl
  records_from-Extends v d (r ∷ rs) w e records (a, b, c, x) f =
      let size = Extends-length h (suc v) (record_head h r) rs w e x in
      let here : lookup v records ≡ some r =
        f v (omega arith) (omega (arith, size)) ∙ first_of v d r rs w e (a, b, c, x) in
      let ih : records_from (suc v) (length rs) records ≡ rs =
        records_from-Extends (suc v) (record_head h r) rs w e records x (λ u l m.
          f u (omega (arith, l)) m ∙ rest_of u v d r rs w e (a, b, c, x) (omega (arith, l)) m) in
      ground (arith, here, ih)

  previous_of :
      (v : View) (d : Digest) (rs : List SequenceRecord) (w : View) (e : Digest)
      (r : SequenceRecord)
      → Extends h v d rs w e
      → lookup v (insert_all rs []) ≡ some r
      → r.previous_head ≡ d
  unfolding insert_all lookup
  previous_of v d [] w e r x q = absurd (ground (arith, q))
  previous_of v d (s ∷ rs) w e r x q =
      let (a, b, c, y) = x in
      sym (
        ap (λ (t : SequenceRecord). t.previous_head)
          (some-injective s r (sym (first_of v d s rs w e x) ∙ q)))
      ∙ c

  -- Records that go on to the target complete the chain.
  Absorbs-reached :
      (v : ChainVerifier) (rs : List SequenceRecord)
      (result : Result ChainError Bool × ChainVerifier)
      → Extends h v.next_view v.head rs (suc v.target_view) v.target_head
      → Absorbs h v rs result
      → (result.0 ≡ ok true)
        × (result.1.complete ≡ true)
        × (result.1.verified ≡ insert_all rs v.verified)
  Absorbs-reached v rs (ok reached, w) x (y, _, m, t, _, c, _, _) =
      let a = Extends-length h v.next_view v.head rs (suc v.target_view) v.target_head x in
      let b = Extends-length h v.next_view v.head rs w.next_view w.head y in
      let e : reached ≡ true = ground (arith, a, b, t) in (ap ok e, c ∙ e, m)
  Absorbs-reached v rs (err error, w) x (_, n) =
      absurd ((n (suc v.target_view) v.target_head x (omega arith)).1 refl)

  store-absorbs :
      (s : SequenceStore) (rs : List SequenceRecord) (target : View) (target_head : Digest)
      → IsLinked h s rs
      → 1 ≤ target
      → map (record_head h) (lookup target s.records) ≡ some target_head
      → let result =
          absorb_records h
            (records_from 1 target s.records)
            (new_chain 0 (genesis_head h) target target_head) in
        (result.0 ≡ ok true)
        × (result.1.complete ≡ true)
        × ((u : View) → 1 ≤ u → u ≤ target → lookup u result.1.verified ≡ lookup u s.records)
  unfolding new_chain lookup
  store-absorbs s rs target target_head p l q =
      let (d, ms, x, same) = store_part h s rs 0 target target_head p l q in
      let (r, g) =
        get_elem?-some ms 0
          (omega (arith, l, Extends-length h 1 d ms (suc target) target_head x)) in
      let first : lookup 1 (insert_all ms []) ≡ some r =
        ground (arith, g, l, lookup-insert_all h 1 1 d ms (suc target) target_head [] x) in
      let start : d ≡ genesis_head h =
        sym (previous_of 1 d ms (suc target) target_head r x first)
        ∙ previous_of 1 (genesis_head h) rs s.next_view s.head r p.extends
            (sym (ap (lookup 1) p.kept) ∙ same 1 (omega arith) l ∙ first) in
      let y = subst (λ k. Extends h 1 k ms (suc target) target_head) start x in
      let served : records_from 1 target s.records ≡ ms =
        ap (λ k. records_from 1 k s.records)
          (omega (arith, Extends-length h 1 d ms (suc target) target_head x))
        ∙ records_from-Extends 1 d ms (suc target) target_head s.records x
            (λ u a b. same u (omega (arith, a)) (omega (arith, b))) in
      let v = new_chain 0 (genesis_head h) target target_head in
      let (a, b, c) =
        Absorbs-reached v ms (absorb_records h ms v) y (absorb_records-Absorbs h v ms) in
      rw served (a, b, λ u m n. ap (lookup u) c ∙ sym (same u (omega (arith, m)) n))

-- The records that a store serves from view 1 through a target complete the chain of a verifier that
-- starts at the genesis head towards the store's head at the target: the verifier then has, for every
-- view through the target, the record of the store.
pub records_from-absorb_records :
    (h : Hashing) (interval : ℕ) (recorded : List (View × SequenceOutcome × List Digest))
    (target : View) (target_head : Digest)
    → 1 ≤ target
    → map (record_head h) (lookup target (record_all h recorded (new_store h interval)).records)
      ≡ some target_head
    → let s = record_all h recorded (new_store h interval) in
      let result =
        absorb_records h
          (records_from 1 target s.records)
          (new_chain 0 (genesis_head h) target target_head) in
      (result.0 ≡ ok true)
      × (result.1.complete ≡ true)
      × ((u : View) → 1 ≤ u → u ≤ target → lookup u result.1.verified ≡ lookup u s.records)
records_from-absorb_records h interval recorded target target_head l q =
    let (rs, p) = record_all-IsLinked h interval recorded in
    store-absorbs h (record_all h recorded (new_store h interval)) rs target target_head p l q
