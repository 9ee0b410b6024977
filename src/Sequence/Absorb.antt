-- ===== src/Sequence/Absorb.antt =====
-- Which records a chain verifier takes (primary/src/vantage/sequence.rs, `absorb_records`).
use vantage_bft.Base.{
  suc, ◌-◌, ◌≤◌, ◌<◌, ◌≡◌, ◌≢◌, refl, sym, ◌∙◌, ◌⊎◌, inl, inr, Bool, true, not, ◌&&◌, List, [], ◌∷◌,
  ◌++◌, length, get_elem?, arith, ltb, ◌==◌, Bool-cases, if◌then◌else◌, subst,
}
use vantage_bft.Base.BTree
use vantage_bft.Base.Map.{Map, lookup}
use vantage_bft.Agb.Types.{View, Digest}
use vantage_bft.Sequence.Hash.{
  Result, ok, err, Result-cases, sequence_version, SequenceRecord, Hashing, record_head,
}
use vantage_bft.Sequence.Chain.{
  ChainError, ChainVerifier, insert_all, check_record, check_records, finish_records,
  absorb_records,
}
use vantage_bft.Sequence.Links.{Extends, Extends-length}

pub insert_all-append :
    (rs ss : List SequenceRecord) (m : Map SequenceRecord)
    → insert_all (rs ++ ss) m ≡ insert_all ss (insert_all rs m)
unfolding insert_all
insert_all-append [] ss m = refl
insert_all-append (r ∷ rs) ss m = insert_all-append rs ss (BTree.insert r.view r m)

module _ (h : Hashing) where
  -- The record of each view of a chain.
  pub lookup-insert_all :
      (u v : View) (d : Digest) (rs : List SequenceRecord) (w : View) (e : Digest)
      (m : Map SequenceRecord)
      → Extends h v d rs w e
      → lookup u (insert_all rs m)
        ≡ (if not (ltb u v) && ltb u w then get_elem? rs (u - v) else lookup u m)
  unfolding insert_all
  lookup-insert_all u v d [] w e m x = ground arith
  lookup-insert_all u v d (r ∷ rs) w e m (a, b, c, x) = ground (
    arith,
    Extends-length h (suc v) (record_head h r) rs w e x,
    lookup-insert_all u (suc v) (record_head h r) rs w e (BTree.insert r.view r m) x,
    BTree.lookup-insert r.view u r m,
  )

  abbrev Verdict :
      View → View → Digest → List SequenceRecord → Result ChainError (View × Digest) → Type 0
  Verdict target v d rs (ok (w, e)) = Extends h v d rs w e × ((length rs ≡ 0) ⊎ (w ≤ suc target))
  Verdict target v d rs (err error) =
      (w : View) (e : Digest) → Extends h v d rs w e → w ≤ suc target → ⊥

  -- The check of a record, on every branch.
  abbrev Passes : View → View → Digest → SequenceRecord → Result ChainError Digest → Type 0
  Passes target v d r (ok next) =
      (r.version ≡ sequence_version)
      × (v ≤ target)
      × (r.view ≡ v)
      × (r.previous_head ≡ d)
      × (next ≡ record_head h r)
  Passes target v d r (err error) =
      (r.version ≡ sequence_version) → (v ≤ target) → (r.view ≡ v) → (r.previous_head ≡ d) → ⊥

  check_record-Passes :
      (target v : View) (d : Digest) (r : SequenceRecord)
      → Passes target v d r (check_record h target v d r)
  unfolding check_record
  check_record-Passes target v d r = elim (Bool-cases (r.version == sequence_version)) [
    | inr n ↦ rw n (λ a b c e. ground (arith, n, a))
    | inl a ↦ elim (Bool-cases (ltb target v)) [
      | inl n ↦ rw (a, n) (λ x b c e. ground (arith, n, b))
      | inr b ↦ elim (Bool-cases (r.view == v)) [
        | inr n ↦ rw (a, b, n) (λ x y c e. ground (arith, n, c))
        | inl c ↦ elim (Bool-cases (r.previous_head == d)) [
          | inr n ↦ rw (a, b, c, n) (λ x y z e. ground (arith, n, e))
          | inl e ↦
              rw (a, b, c, e)
                (ground (arith, a), ground (arith, b), ground (arith, c), ground (arith, e), refl)
        ]
      ]
    ]
  ]

  Verdict-after :
      (target v : View) (d : Digest) (r : SequenceRecord) (rs : List SequenceRecord)
      (result : Result ChainError (View × Digest))
      → r.version ≡ sequence_version
      → v ≤ target
      → r.view ≡ v
      → r.previous_head ≡ d
      → Verdict target (suc v) (record_head h r) rs result
      → Verdict target v d (r ∷ rs) result
  Verdict-after target v d r rs (ok (w, e)) a t b c (x, l) =
      ((a, b, c, x), inr (omega (arith, t, l, Extends-length h (suc v) (record_head h r) rs w e x)))
  Verdict-after target v d r rs (err error) a t b c n = λ w e (a', b', c', x) l. n w e x l

  check_records-Verdict :
      (target v : View) (d : Digest) (rs : List SequenceRecord)
      → Verdict target v d rs (check_records h target v d rs)
  unfolding check_records
  check_records-Verdict target v d [] = ((refl, refl), inl refl)
  check_records-Verdict target v d (r ∷ rs) = elim (Result-cases (check_record h target v d r)) [
    | inl (next, q) ↦
        let (a, t, b, c, n) = subst (Passes target v d r) q (check_record-Passes target v d r) in
        rw (check_records, q)
          (Verdict-after target v d r rs (check_records h target (suc v) next rs) a t b c
            (rw n (check_records-Verdict target (suc v) (record_head h r) rs)))
    | inr (error, q) ↦
        rw (check_records, q)
          (λ w e (a, b, c, x) l.
            subst (Passes target v d r) q (check_record-Passes target v d r) a
              (omega (arith, l, Extends-length h (suc v) (record_head h r) rs w e x)) b c)
  ]

  -- The judgement on some records: the new state if they are taken, and the fault if they are not.
  abbrev pub Absorbs :
      ChainVerifier → List SequenceRecord → Result ChainError Bool × ChainVerifier → Type 0
  Absorbs v rs (ok reached, w) =
      Extends h v.next_view v.head rs w.next_view w.head
      × ((length rs ≡ 0) ⊎ (w.next_view ≤ suc v.target_view))
      × (w.verified ≡ insert_all rs v.verified)
      × (reached ≡ ltb v.target_view w.next_view)
      × ((reached ≡ true) → w.head ≡ v.target_head)
      × (w.complete ≡ reached)
      × (w.target_view ≡ v.target_view)
      × (w.target_head ≡ v.target_head)
  Absorbs v rs (err error, w) =
      (w ≡ v)
      × ((u : View) (e : Digest)
          → Extends h v.next_view v.head rs u e
          → u ≤ suc v.target_view
          → (v.target_view < u) × (e ≢ v.target_head))

  Extends-end :
      (v : View) (d : Digest) (rs : List SequenceRecord) (w u : View) (e f : Digest)
      → Extends h v d rs w e
      → Extends h v d rs u f
      → (w ≡ u) × (e ≡ f)
  Extends-end v d [] w u e f (p, q) (p', q') = (sym p ∙ p', sym q ∙ q')
  Extends-end v d (r ∷ rs) w u e f (a, b, c, x) (a', b', c', y) =
      Extends-end (suc v) (record_head h r) rs w u e f x y

  finish_records-Absorbs :
      (v : ChainVerifier) (rs : List SequenceRecord) (w : View) (e : Digest)
      → Verdict v.target_view v.next_view v.head rs (ok (w, e))
      → Absorbs v rs (finish_records h rs w e v)
  unfolding finish_records
  finish_records-Absorbs v rs w e (x, l) = elim (Bool-cases (ltb v.target_view w)) [
    | inr n ↦ rw n (x, l, refl, sym n, λ p. ground (arith, p), refl, refl, refl)
    | inl p ↦ elim (Bool-cases (e == v.target_head)) [
      | inl q ↦ rw (p, q) (x, l, refl, sym p, λ _. ground (arith, q), refl, refl, refl)
      | inr n ↦
          rw (p, n)
            (
              refl,
              λ u f y k.
                  let (a, b) = Extends-end v.next_view v.head rs w u e f x y in
                  (ground (arith, p, a), λ j. ground (arith, n, j, b)),
            )
    ]
  ]

  -- Records are taken just if they go on with the chain, each with the next view and the head before it,
  -- within the target, and have the head of the target where they reach it. Then they are verified, and
  -- the chain is complete if they reach the target; otherwise the verifier is left as it was.
  pub absorb_records-Absorbs :
      (v : ChainVerifier) (rs : List SequenceRecord) → Absorbs v rs (absorb_records h rs v)
  unfolding absorb_records
  absorb_records-Absorbs v rs =
      elim (Result-cases (check_records h v.target_view v.next_view v.head rs)) [
        | inl ((w, e), q) ↦
            rw (absorb_records, q)
              (finish_records-Absorbs v rs w e (
                subst (Verdict v.target_view v.next_view v.head rs) q
                  (check_records-Verdict v.target_view v.next_view v.head rs)))
        | inr (error, q) ↦
            rw (absorb_records, q)
              (
                refl,
                λ u e x l. absurd (
                    subst (Verdict v.target_view v.next_view v.head rs) q
                      (check_records-Verdict v.target_view v.next_view v.head rs) u e x l),
              )
      ]
