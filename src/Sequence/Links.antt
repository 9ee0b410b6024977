-- ===== src/Sequence/Links.antt =====
-- Chains of records, and what it takes for two of them to have one head
-- (primary/src/vantage/sequence.rs).
use vantage_bft.Base.{
  ℕ, suc, ◌+◌, ◌≡◌, ◌≢◌, refl, sym, ap, ◌∙◌, ◌⊎◌, inl, inr, List, [], ◌∷◌, ◌++◌, length, arith,
}
use vantage_bft.Agb.Types.{View, Digest}
use vantage_bft.Sequence.Hash.{
  sequence_version, SequenceOutcome, SequenceRecord, Hashing, outcome_digest, delta_step,
  delta_fold, record_head,
}
use native.Mathlib.Decide.{ℕ_discrete}

SequenceRecord-discrete : Discrete SequenceRecord
SequenceRecord-discrete = hlevel ℕ_discrete

SequenceOutcome-discrete : Discrete SequenceOutcome
SequenceOutcome-discrete = hlevel ℕ_discrete

pub Digest-discrete : Discrete Digest
Digest-discrete = hlevel ℕ_discrete

-- Two inputs of the program's hashing that have one digest: two records, two outcomes of a view, or
-- two steps of a delta.
pub data Collision (h : Hashing) : Type 0 where
  of_records : (r s : SequenceRecord) → r ≢ s → record_head h r ≡ record_head h s → Collision h
  of_outcomes :
      (v : View) (o p : SequenceOutcome)
      → o ≢ p
      → outcome_digest h v o ≡ outcome_digest h v p
      → Collision h
  of_steps :
      (v : View) (i : ℕ) (d e x y : Digest)
      → ¬ ((d ≡ e) × (x ≡ y))
      → delta_step h v i d x ≡ delta_step h v i e y
      → Collision h

module _ (h : Hashing) where
  -- The records lead from a view and head to a view and head, each with the next view and the head
  -- before it.
  abbrev pub Extends : View → Digest → List SequenceRecord → View → Digest → Type 0
  Extends v d [] w e = (v ≡ w) × (d ≡ e)
  Extends v d (r ∷ rs) w e =
      (r.version ≡ sequence_version)
      × (r.view ≡ v)
      × (r.previous_head ≡ d)
      × Extends (suc v) (record_head h r) rs w e

  pub Extends-length :
      (v : View) (d : Digest) (rs : List SequenceRecord) (w : View) (e : Digest)
      → Extends v d rs w e
      → w ≡ v + length rs
  Extends-length v d [] w e x = omega (arith, x.0)
  Extends-length v d (r ∷ rs) w e (a, b, c, x) =
      omega (arith, Extends-length (suc v) (record_head h r) rs w e x)

  pub Extends-append :
      (v : View) (d : Digest) (rs ss : List SequenceRecord) (w u : View) (e f : Digest)
      → Extends v d rs w e
      → Extends w e ss u f
      → Extends v d (rs ++ ss) u f
  Extends-append v d [] ss w u e f (p, q) y = rw (p, q) y
  Extends-append v d (r ∷ rs) ss w u e f (a, b, c, x) y =
      (a, b, c, Extends-append (suc v) (record_head h r) rs ss w u e f x y)

  same_record : (r s : SequenceRecord) → record_head h r ≡ record_head h s → (r ≡ s) ⊎ Collision h
  same_record r s e = elim (SequenceRecord-discrete r s) [
    | yes p ↦ inl p
    | no n ↦ inr (Collision.of_records r s n e)
  ]

  -- Two chains to one view and head are one chain, from one head, or show a collision.
  pub Extends-unique :
      (v : View) (d d' : Digest) (rs ss : List SequenceRecord) (w : View) (e : Digest)
      → Extends v d rs w e
      → Extends v d' ss w e
      → ((rs ≡ ss) × (d ≡ d')) ⊎ Collision h
  Extends-unique v d d' [] [] w e (p, q) (p', q') = inl (refl, q ∙ sym q')
  Extends-unique v d d' [] (s ∷ ss) w e (p, q) (a, b, c, y) =
      absurd (omega (arith, p, Extends-length (suc v) (record_head h s) ss w e y))
  Extends-unique v d d' (r ∷ rs) [] w e (a, b, c, x) (p, q) =
      absurd (omega (arith, p, Extends-length (suc v) (record_head h r) rs w e x))
  Extends-unique v d d' (r ∷ rs) (s ∷ ss) w e (a, b, c, x) (a', b', c', y) =
      elim (Extends-unique (suc v) (record_head h r) (record_head h s) rs ss w e x y) [
        | inr k ↦ inr k
        | inl (p, q) ↦ elim (same_record r s q) [
          | inr k ↦ inr k
          | inl z ↦
              inl ((λ i. z i ∷ p i), sym c ∙ ap (λ (t : SequenceRecord). t.previous_head) z ∙ c')
        ]
      ]

  pub same_outcome :
      (v : View) (o p : SequenceOutcome)
      → outcome_digest h v o ≡ outcome_digest h v p
      → (o ≡ p) ⊎ Collision h
  same_outcome v o p e = elim (SequenceOutcome-discrete o p) [
    | yes q ↦ inl q
    | no n ↦ inr (Collision.of_outcomes v o p n e)
  ]

  same_step :
      (v : View) (i : ℕ) (d e x y : Digest)
      → delta_step h v i d x ≡ delta_step h v i e y
      → ((d ≡ e) × (x ≡ y)) ⊎ Collision h
  same_step v i d e x y q = elim (Digest-discrete d e) [
    | yes a ↦ elim (Digest-discrete x y) [
      | yes b ↦ inl (a, b)
      | no n ↦ inr (Collision.of_steps v i d e x y (λ c. n c.1) q)
    ]
    | no n ↦ inr (Collision.of_steps v i d e x y (λ c. n c.0) q)
  ]

  -- Two deltas of one length to one hash are one delta, or show a collision.
  pub same_delta :
      (v : View) (i : ℕ) (d e : Digest) (xs ys : List Digest)
      → length xs ≡ length ys
      → delta_fold h v i d xs ≡ delta_fold h v i e ys
      → ((d ≡ e) × (xs ≡ ys)) ⊎ Collision h
  unfolding delta_fold
  same_delta v i d e [] [] l q = inl (q, refl)
  same_delta v i d e [] (y ∷ ys) l q = absurd (omega (arith, l))
  same_delta v i d e (x ∷ xs) [] l q = absurd (omega (arith, l))
  same_delta v i d e (x ∷ xs) (y ∷ ys) l q =
      elim (same_delta v (suc i) _ _ xs ys (omega (arith, l)) q) [
        | inr k ↦ inr k
        | inl (a, b) ↦ elim (same_step v i d e x y a) [
          | inr k ↦ inr k
          | inl (p, z) ↦ inl (p, λ j. z j ∷ b j)
        ]
      ]

  pub delta_fold-append :
      (v : View) (i : ℕ) (d : Digest) (xs ys : List Digest)
      → delta_fold h v i d (xs ++ ys) ≡ delta_fold h v (i + length xs) (delta_fold h v i d xs) ys
  unfolding delta_fold
  delta_fold-append v i d [] ys = ap (λ k. delta_fold h v k d ys) (omega arith)
  delta_fold-append v i d (x ∷ xs) ys =
      delta_fold-append v (suc i) (delta_step h v i d x) xs ys
      ∙ ap (λ k. delta_fold h v k (delta_fold h v (suc i) (delta_step h v i d x) xs) ys)
          (omega arith)
