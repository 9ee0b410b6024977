-- ===== src/Sequence/Faithful.antt =====
-- A verified transfer agrees with the store whose head it was given (primary/src/vantage/sequence.rs).
use vantage_bft.Base.{
  ℕ, suc, ◌+◌, ◌-◌, ◌≤◌, ◌<◌, ◌≡◌, sym, ap, subst, ◌∙◌, ◌⊎◌, inl, inr, true, some, List, [], arith,
  Option-cases,
}
use vantage_bft.Base.Map.{Map, lookup}
use vantage_bft.Committee.{PublicKey}
use vantage_bft.Agb.Types.{View, Digest}
use vantage_bft.Sequence.Hash.{
  SequenceOutcome, SequenceRecord, Hashing, record_head, outcome_digest, delta_commitment,
  delta_seed,
}
use vantage_bft.Sequence.Store.{SequenceStore, new_store, record_all}
use vantage_bft.Sequence.Chain.{insert_all}
use vantage_bft.Sequence.Transfer.{TransferState, SequenceTransfer, new_transfer, is_verified}
use vantage_bft.Sequence.Wants.{Event, run}
use vantage_bft.Sequence.Links.{Collision, Extends, Extends-length, same_outcome, same_delta}
use vantage_bft.Sequence.Absorb.{lookup-insert_all}
use vantage_bft.Sequence.Deltas.{Commits}
use vantage_bft.Sequence.Linked.{Backed, IsLinked, record_all-IsLinked}
use vantage_bft.Sequence.Sound.{Present, IsSound}
use vantage_bft.Sequence.Steps.{same_state-eq}
use vantage_bft.Sequence.Runs.{run-IsSound}
use mathlib.Core.Option.{map, some-injective}
use vantage_bft.Sequence.Parts.{get_elem?-some, same_records}

module _ (h : Hashing) where
  -- The transfer and the store have one outcome and one delta for a view.
  abbrev pub Agrees : View → SequenceTransfer → SequenceStore → Type 0
  Agrees u t s =
      (o : SequenceOutcome) × (items : List Digest) × (lookup u t.outcomes ≡ some o)
      × (lookup u s.outcomes ≡ some o)
      × (lookup u t.deltas ≡ some items)
      × (lookup u s.deltas ≡ some items)

  same_bodies :
      (u : View) (r : SequenceRecord) (o p : SequenceOutcome) (xs ys : List Digest)
      → outcome_digest h u o ≡ r.outcome_digest
      → outcome_digest h u p ≡ r.outcome_digest
      → Commits h u r xs
      → Commits h u r ys
      → ((o ≡ p) × (xs ≡ ys)) ⊎ Collision h
  unfolding delta_commitment
  same_bodies u r o p xs ys a b c d = elim (same_outcome h u o p (a ∙ sym b)) [
    | inr k ↦ inr k
    | inl e ↦
        elim (same_delta h u 0 (delta_seed h u) (delta_seed h u) xs ys
          (ap (λ (z : ℕ × Digest). z.0) (c ∙ sym d)) (ap (λ (z : ℕ × Digest). z.1) (c ∙ sym d))) [
            | inr k ↦ inr k
            | inl (_, f) ↦ inl (e, f)
          ]
  ]

  bodies_agree :
      (s : SequenceStore) (u : View) (r : SequenceRecord) (t : SequenceTransfer) (base : View)
      (base_head : Digest) (target : View) (target_head : Digest)
      → Backed h u r s
      → IsSound h base base_head target target_head t
      → lookup u t.chain.verified ≡ some r
      → (o : SequenceOutcome) × (lookup u t.outcomes ≡ some o)
      → (items : List Digest) × (lookup u t.deltas ≡ some items)
      → Agrees u t s ⊎ Collision h
  bodies_agree s u r t base base_head target target_head (o, xs, a, b, c, d) p i (o', j) (ys, k) =
      let (r', e, f) = p.bodies.0 u o' j in
      let (r'', e', f') = p.bodies.1 u ys k in
      let g =
        subst (λ (z : SequenceRecord). outcome_digest h u o' ≡ z.outcome_digest)
          (some-injective r' r (sym e ∙ i)) f in
      let g' =
        subst (λ (z : SequenceRecord). Commits h u z ys) (some-injective r'' r (sym e' ∙ i)) f' in
      elim (same_bodies u r o o' xs ys c g d g') [
        | inr x ↦ inr x
        | inl (y, z) ↦ inl (o', ys, j, a ∙ ap some y, k, b ∙ ap some z)
      ]

  covered :
      (base target : View) (base_head target_head : Digest) (t : SequenceTransfer)
      → IsSound h base base_head target target_head t
      → t.state ≡ TransferState.verified
      → (ts : List SequenceRecord) × Extends h (base + 1) base_head ts (suc target) target_head
        × (t.chain.verified ≡ insert_all ts [])
  covered base target base_head target_head t p v =
      let (a, b) = p.aimed in
      let (c, d, (ts, x, m, _, k)) = p.chained in
      let (e, f) = k (p.done v).0 in
      (
        ts,
        subst (λ w. Extends h (base + 1) base_head ts w target_head) (e ∙ ap suc (c ∙ a))
            (subst (λ w. Extends h (base + 1) base_head ts t.chain.next_view w) (f ∙ d ∙ b) x),
        m,
      )

  verified_body {ℓ} :
      {A : Type ℓ} (u target : View) (r : SequenceRecord) (verified : Map SequenceRecord)
      (have : Map A)
      → Present target verified have
      → 1 ≤ u
      → u ≤ target
      → lookup u verified ≡ some r
      → (x : A) × (lookup u have ≡ some x)
  verified_body u target r verified have p a b e = elim (Option-cases (lookup u have)) [
    | inl n ↦ absurd (ground (arith, n, p u a b (ground (arith, e))))
    | inr y ↦ y
  ]

  sound-Agrees :
      (s : SequenceStore) (rs : List SequenceRecord) (base target : View)
      (base_head target_head : Digest) (t : SequenceTransfer) (u : View)
      → IsLinked h s rs
      → IsSound h base base_head target target_head t
      → map (record_head h) (lookup target s.records) ≡ some target_head
      → t.state ≡ TransferState.verified
      → base < u
      → u ≤ target
      → Agrees u t s ⊎ Collision h
  sound-Agrees s rs base target base_head target_head t u p q e v a b =
      let (ts, x, m) = covered base target base_head target_head t q v in
      let (_, os, ds) = q.done v in
      elim (same_records h s rs ts base target base_head target_head p (omega (arith, a, b)) e x) [
        | inr k ↦ inr k
        | inl f ↦
            let size = Extends-length h (base + 1) base_head ts (suc target) target_head x in
            let (r, g) = get_elem?-some ts (u - (base + 1)) (omega (arith, size, a, b)) in
            let i : lookup u (insert_all ts []) ≡ some r = ground (
              arith,
              g,
              a,
              b,
              lookup-insert_all h u (base + 1) base_head ts (suc target) target_head [] x,
            ) in
            let low : 1 ≤ u = omega (arith, a) in
            let high : u ≤ t.target_view = omega (arith, b, q.aimed.0) in
            bodies_agree s u r t base base_head target target_head (p.backed u r (f u a b ∙ i)) q
              (ap (lookup u) m ∙ i)
              (verified_body u t.target_view r t.chain.verified t.outcomes os low high
                (ap (lookup u) m ∙ i))
              (verified_body u t.target_view r t.chain.verified t.deltas ds low high
                (ap (lookup u) m ∙ i))
      ]

-- A transfer towards the head that a store has at the target, in whatever order the messages of its
-- sources came and whatever was in them, has for each view after its base and through its target,
-- once it is verified, the outcome and the delta that the store recorded; or else two inputs of the
-- program's hashing are known that have one digest.
pub run-Agrees :
    (h : Hashing) (interval : ℕ) (recorded : List (View × SequenceOutcome × List Digest)) (id : ℕ)
    (base : View) (base_head : Digest) (target : View) (target_head : Digest)
    (sources : List PublicKey) (es : List Event) (u : View)
    → map (record_head h) (lookup target (record_all h recorded (new_store h interval)).records)
      ≡ some target_head
    → is_verified (run h es (new_transfer id base base_head target target_head sources)).1 ≡ true
    → base < u
    → u ≤ target
    → Agrees h u
        (run h es (new_transfer id base base_head target target_head sources)).1
        (record_all h recorded (new_store h interval))
      ⊎ Collision h
run-Agrees h interval recorded id base base_head target target_head sources es u e v a b =
    let (rs, p) = record_all-IsLinked h interval recorded in
    sound-Agrees h (record_all h recorded (new_store h interval)) rs base target base_head
      target_head (run h es (new_transfer id base base_head target target_head sources)).1 u p
      (run-IsSound h id base base_head target target_head sources es (omega (arith, a, b))) e
      (same_state-eq _ _ v) a b
