-- ===== src/Sequence/Linked.antt =====
-- What the store of the record chain keeps (primary/src/vantage/sequence.rs, `SequenceStore`).
use vantage_bft.Base.{
  ℕ, ◌+◌, ◌-◌, ◌≡◌, refl, sym, ap, subst, ◌∙◌, inl, inr, Bool, not, none, some, List, [], ◌∷◌, ◌++◌,
  arith, ltb, ◌==◌, Bool-cases, if◌then◌else◌, get_elem?, ◌&&◌,
}
use vantage_bft.Base.BTree
use vantage_bft.Base.Map.{Map, lookup}
use vantage_bft.Agb.Types.{View, Digest}
use vantage_bft.Sequence.Hash.{
  SequenceOutcome, SequenceRecord, Hashing, genesis_head, outcome_digest, delta_commitment,
  record_head,
}
use vantage_bft.Sequence.Store.{
  SequenceStore, is_boundary, new_store, record_of, append, record_view, record_all,
}
use vantage_bft.Sequence.Chain.{insert_all}
use vantage_bft.Sequence.Links.{Extends, Extends-append}
use vantage_bft.Sequence.Absorb.{insert_all-append, lookup-insert_all}
use vantage_bft.Sequence.Deltas.{Commits}
use mathlib.Core.Option.{map, some-injective}

marked_insert :
    (b : View → Bool) (f : SequenceRecord → Digest) (v : View) (r : SequenceRecord)
    (marks : Map Digest) (records : Map SequenceRecord)
    → ((u : View) → lookup u marks ≡ (if b u then map f (lookup u records) else none))
    → (u : View)
    → lookup u (if b v then BTree.insert v (f r) marks else marks)
      ≡ (if b u then map f (lookup u (BTree.insert v r records)) else none)
marked_insert b f v r marks records p u = elim (Bool-cases (v == u)) [
  | inr n ↦ rw (BTree.lookup-insert_other v u r records n) (elim (Bool-cases (b v)) [
    | inl q ↦ rw q (BTree.lookup-insert_other v u (f r) marks n ∙ p u)
    | inr q ↦ rw q (p u)
  ])
  | inl e ↦
      let a : v ≡ u = ground (arith, e) in
      rw (sym a, BTree.lookup-insert_same v r records)
        (elim (Bool-cases (b v)) [
          | inl q ↦ rw q (BTree.lookup-insert_same v (f r) marks)
          | inr q ↦ rw q (p v ∙ rw q refl)
        ])
]

module _ (h : Hashing) where
  -- The outcome and the delta of a view are those of its record.
  abbrev pub Backed : View → SequenceRecord → SequenceStore → Type 0
  Backed u r s =
      (o : SequenceOutcome) × (items : List Digest) × (lookup u s.outcomes ≡ some o)
      × (lookup u s.deltas ≡ some items)
      × (outcome_digest h u o ≡ r.outcome_digest)
      × Commits h u r items

  -- The records are a chain from the genesis head to the store's head, each with its outcome and
  -- delta, and the boundaries are the heads of the views that the interval divides.
  pub record IsLinked (s : SequenceStore) (rs : List SequenceRecord) : Type 0 where
    pub extends : Extends h 1 (genesis_head h) rs s.next_view s.head
    pub kept : s.records ≡ insert_all rs []
    pub backed : (u : View) (r : SequenceRecord) → lookup u s.records ≡ some r → Backed u r s
    pub marked :
        (u : View)
        → lookup u s.boundaries
          ≡ (if is_boundary s.interval u then map (record_head h) (lookup u s.records) else none)

  new_store-IsLinked : (interval : ℕ) → IsLinked (new_store h interval) []
  unfolding new_store insert_all lookup
  new_store-IsLinked interval = record {
    extends = (refl, refl);
    kept = refl;
    backed = λ u r e. ground (arith, e);
    marked = λ u. ground arith;
  }

  -- The map of a chain has no record of a view below its first or after its last.
  pub chain_lookup :
      (u v : View) (d : Digest) (rs : List SequenceRecord) (w : View) (e : Digest)
      → Extends h v d rs w e
      → lookup u (insert_all rs [])
        ≡ (if not (ltb u v) && ltb u w then get_elem? rs (u - v) else none)
  unfolding lookup
  chain_lookup u v d rs w e x = lookup-insert_all h u v d rs w e [] x

  append-IsLinked :
      (s : SequenceStore) (rs : List SequenceRecord) (o : SequenceOutcome) (items : List Digest)
      → IsLinked s rs
      → IsLinked
          (append h s.next_view o items s)
          (rs ++ (record_of h s.next_view o items s.head ∷ []))
  unfolding append insert_all record_of delta_commitment
  append-IsLinked s rs o items p =
      let r = record_of h s.next_view o items s.head in
      record {
        extends =
            Extends-append h 1 (genesis_head h) rs (r ∷ []) s.next_view (s.next_view + 1) s.head
              (record_head h r) p.extends (refl, refl, refl, (omega arith, refl));
        kept = ap (BTree.insert s.next_view r) p.kept ∙ sym (insert_all-append rs (r ∷ []) []);
        backed = λ u x e. elim (Bool-cases (s.next_view == u)) [
          | inl q ↦
              let a : s.next_view ≡ u = ground (arith, q) in
              let b : r ≡ x = some-injective r x (
                sym (BTree.lookup-insert_same s.next_view r s.records)
                ∙ ap (λ k. lookup k (BTree.insert s.next_view r s.records)) a
                ∙ e) in
              rw (sym a, sym b)
                (
                  o,
                  items,
                  BTree.lookup-insert_same s.next_view o s.outcomes,
                  BTree.lookup-insert_same s.next_view items s.deltas,
                  refl,
                  refl,
                )
          | inr n ↦
              let (o', items', a, b, c, d) =
                p.backed u x (sym (BTree.lookup-insert_other s.next_view u r s.records n) ∙ e) in
              (
                o',
                items',
                BTree.lookup-insert_other s.next_view u o s.outcomes n ∙ a,
                BTree.lookup-insert_other s.next_view u items s.deltas n ∙ b,
                c,
                d,
              )
        ];
        marked =
            marked_insert (is_boundary s.interval) (record_head h) s.next_view r s.boundaries
              s.records p.marked;
      }

  record_view-IsLinked :
      (view : View) (o : SequenceOutcome) (items : List Digest) (s : SequenceStore)
      (rs : List SequenceRecord)
      → IsLinked s rs
      → (ss : List SequenceRecord) × IsLinked (record_view h view o items s).1 ss
  unfolding record_view
  record_view-IsLinked view o items s rs p = elim (Bool-cases (view == s.next_view)) [
    | inr n ↦ rw n (rs, p)
    | inl q ↦
        let a : s.next_view ≡ view = ground (arith, q) in
        rw q (
          subst (λ v. (ss : List SequenceRecord) × IsLinked (append h v o items s) ss) a
            (rs ++ (record_of h s.next_view o items s.head ∷ []), append-IsLinked s rs o items p))
  ]

  record_all-IsLinked_from :
      (es : List (View × SequenceOutcome × List Digest)) (s : SequenceStore)
      (rs : List SequenceRecord)
      → IsLinked s rs
      → (ss : List SequenceRecord) × IsLinked (record_all h es s) ss
  unfolding record_all
  record_all-IsLinked_from [] s rs p = (rs, p)
  record_all-IsLinked_from ((view, o, items) ∷ es) s rs p =
      let (ss, q) = record_view-IsLinked view o items s rs p in
      record_all-IsLinked_from es (record_view h view o items s).1 ss q

  -- After any calls of `record` the records are a chain from the genesis head to the head of the store,
  -- each view with the outcome and the delta that its record commits to, and the boundaries are the
  -- heads of the views that the interval divides.
  pub record_all-IsLinked :
      (interval : ℕ) (es : List (View × SequenceOutcome × List Digest))
      → (rs : List SequenceRecord) × IsLinked (record_all h es (new_store h interval)) rs
  record_all-IsLinked interval es =
      record_all-IsLinked_from es (new_store h interval) [] (new_store-IsLinked interval)
