-- ===== src/Sequence/Deltas.antt =====
-- What a delta verifier has taken (primary/src/vantage/sequence.rs, `DeltaVerifier::absorb`).
use vantage_bft.Base.{
  ℕ, ◌+◌, ◌≤◌, ◌≡◌, refl, sym, ap, ◌∙◌, inl, inr, Bool, true, List, ◌++◌, length, length-append,
  arith, ltb, ◌==◌, Bool-cases,
}
use vantage_bft.Agb.Types.{View, Digest}
use vantage_bft.Sequence.Hash.{
  Result, ok, err, SequenceRecord, Hashing, delta_seed, delta_fold, delta_commitment,
}
use vantage_bft.Sequence.Chain.{ChainError, DeltaVerifier, new_delta, absorb}
use vantage_bft.Sequence.Links.{delta_fold-append}

module _ (h : Hashing) where
  -- The items of a view commit to what its record says.
  abbrev pub Commits : View → SequenceRecord → List Digest → Type 0
  Commits u r items = delta_commitment h u items ≡ (r.delta_len, r.delta_head)

  -- The verifier's hash is that of its items, which begin a delta of the record.
  abbrev pub Follows : View → SequenceRecord → DeltaVerifier → Type 0
  Follows u r d =
      (d.view ≡ u)
      × (d.expected_len ≡ r.delta_len)
      × (d.expected_head ≡ r.delta_head)
      × (d.next_index ≡ length d.items)
      × (d.running ≡ delta_fold h u 0 (delta_seed h u) d.items)

  pub new_delta-Follows : (u : View) (r : SequenceRecord) → Follows u r (new_delta h u r)
  unfolding new_delta delta_fold
  new_delta-Follows u r = (refl, refl, refl, refl, refl)

  -- What may come of more items. A complete delta commits to its record; on an error the verifier
  -- is left alone, and the items are no next part of a delta of the record.
  abbrev pub Takes :
      View
      → SequenceRecord
      → (start : ℕ) → DeltaVerifier
      → List Digest
      → Result ChainError Bool × DeltaVerifier
      → Type 0
  Takes u r start d items (ok complete, e) =
      Follows u r e
      × (e.items ≡ d.items ++ items)
      × (length e.items ≤ r.delta_len)
      × (complete ≡ e.next_index == e.expected_len)
      × ((complete ≡ true) → Commits u r e.items)
  Takes u r start d items (err error, e) =
      (e ≡ d)
      × (start ≡ length d.items
          → length (d.items ++ items) ≤ r.delta_len
          → (length (d.items ++ items) ≡ r.delta_len → Commits u r (d.items ++ items))
          → ⊥)

  running-append :
      (u : View) (r : SequenceRecord) (d : DeltaVerifier) (items : List Digest)
      → Follows u r d
      → delta_fold h d.view d.next_index d.running items
        ≡ delta_fold h u 0 (delta_seed h u) (d.items ++ items)
  running-append u r d items (a, b, c, n, f) =
      rw (a, n, f)
        (sym (
          delta_fold-append h u 0 (delta_seed h u) d.items items
          ∙ ap (λ k. delta_fold h u k (delta_fold h u 0 (delta_seed h u) d.items) items)
              (omega arith)))

  Commits-head :
      (u : View) (r : SequenceRecord) (items : List Digest)
      → Commits u r items
      → delta_fold h u 0 (delta_seed h u) items ≡ r.delta_head
  unfolding delta_commitment
  Commits-head u r items e = ap (λ (p : ℕ × Digest). p.1) e

  Commits-from :
      (u : View) (r : SequenceRecord) (items : List Digest)
      → length items ≡ r.delta_len
      → delta_fold h u 0 (delta_seed h u) items ≡ r.delta_head
      → Commits u r items
  unfolding delta_commitment
  Commits-from u r items p q = λ i. (p i, q i)

  -- A verifier that holds the first items of a delta takes more items just if they start where it is, do
  -- not pass the record's length and, at that length, have the record's hash; a delta that is complete is
  -- one that the record commits to, and on an error the verifier is left as it was.
  pub absorb-Takes :
      (u : View) (r : SequenceRecord) (d : DeltaVerifier) (start : ℕ) (items : List Digest)
      → Follows u r d
      → Takes u r start d items (absorb h start items d)
  unfolding absorb
  absorb-Takes u r d start items (a, b, c, n, f) =
      let run = running-append u r d items (a, b, c, n, f) in
      let size = length-append d.items items in
      elim (Bool-cases (start == d.next_index)) [
        | inr p ↦ rw p (refl, λ k _ _. ground (arith, p, k, n))
        | inl p ↦ elim (Bool-cases (ltb d.expected_len (d.next_index + length items))) [
          | inl q ↦ rw (p, q) (refl, λ _ l _. ground (arith, q, l, n, b, size))
          | inr q ↦ elim (Bool-cases (d.next_index + length items == d.expected_len)) [
            | inr e ↦
                rw (p, q, e)
                  (
                    (a, b, c, omega (arith, n, size), run),
                    refl,
                    ground (arith, q, n, b, size),
                    sym e,
                    λ w. ground (arith, w),
                  )
            | inl e ↦
                elim (Bool-cases
                  (delta_fold h d.view d.next_index d.running items == d.expected_head)) [
                    | inl k ↦
                        rw (p, q, e, k)
                          (
                            (a, b, c, omega (arith, n, size), run),
                            refl,
                            ground (arith, q, n, b, size),
                            sym e,
                            λ w.
                                Commits-from u r (d.items ++ items) (ground (arith, e, n, b, size))
                                  (ground (arith, k, run, c)),
                          )
                    | inr k ↦
                        rw (p, q, e, k)
                          (
                            refl,
                            λ _ _ l. ground (
                              arith,
                              k,
                              run,
                              c,
                              Commits-head u r (d.items ++ items)
                                  (l (ground (arith, e, n, b, size))),
                            ),
                          )
                  ]
          ]
        ]
      ]
