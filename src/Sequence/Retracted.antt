-- ===== src/Sequence/Retracted.antt =====
-- A sender that names a second head for a view (primary/src/vantage/sequence.rs, `retract`).
use vantage_bft.Base.{
  ap, not, ◌&&◌, ◌||◌, is_some, is_empty, if◌then◌else◌, ℕ, ◌≡◌, refl, inl, inr, Bool, true, false,
  Option, none, some, List, length, member, arith, ltb, ◌==◌, ==_iff, Bool-cases, Option-cases,
}
use vantage_bft.Base.BTree
use vantage_bft.Base.Map
use vantage_bft.Base.Map.{Map, lookup}
use vantage_bft.Committee.{PublicKey}
use vantage_bft.Agb.Types.{View, Digest}
use vantage_bft.Sequence.Heads.{
  backs, heads_of, member-add, backs-retract_heads, retract_heads-kept,
}
use vantage_bft.Sequence.Collector.{
  supporters, retract, retract_heads, retract_candidates, retract_certified, CheckpointCollector,
  add, support,
}

-- The head has fewer supporters than the threshold.
abbrev unsupported : View → Option Digest → CheckpointCollector → Bool
unsupported view none d = false
unsupported view (some head) d = ltb (support view head d) d.threshold

-- What a second head of a sender for a view does: the sender is marked, and backs no head of the view
-- any more; every other sender backs what it did, and no head is left without one. A head of the view
-- that was certified stays so just while its supporters are as many as the threshold.
pub record Retracted (view : View) (sender : PublicKey) (c d : CheckpointCollector) : Type 0 where
  pub marked : (k : PublicKey) → member k d.equivocators ≡ (k == sender || member k c.equivocators)
  pub backed :
      (v : View) (head : Digest) (k : PublicKey)
      → backs head k (heads_of v d.candidates)
        ≡ (backs head k (heads_of v c.candidates) && not (v == view && k == sender))
  pub supported :
      (head : Digest) (ks : List PublicKey)
      → is_some (lookup view c.candidates) ≡ true
      → lookup head (heads_of view d.candidates) ≡ some ks
      → is_empty ks ≡ false
  pub views : (v : View) → is_some (lookup v d.candidates) ≡ is_some (lookup v c.candidates)
  pub certified :
      (v : View)
      → lookup v d.certified ≡ (
          if v == view && unsupported view (lookup view c.certified) d
          then none
          else lookup v c.certified)
  pub first_claim : d.first_claim ≡ c.first_claim
  pub bounds :
      (d.threshold ≡ c.threshold)
      × (d.max_candidate_views ≡ c.max_candidate_views)
      × (d.future_view_slack ≡ c.future_view_slack)

heads_of-retract_candidates :
    (v view : View) (s : PublicKey) (candidates : Map (Map (List PublicKey)))
    → heads_of v (retract_candidates view s candidates)
      ≡ (if v == view then retract_heads s (heads_of v candidates) else heads_of v candidates)
unfolding retract_candidates retract_heads
heads_of-retract_candidates v view s candidates = elim (Option-cases (lookup view candidates)) [
  | inl e ↦
      rw (retract_candidates, e)
        (elim (Bool-cases (v == view)) [
          | inl q ↦ let p = (==_iff v view).0 q in rw (p, e) (ground arith)
          | inr q ↦ rw q refl
        ])
  | inr (heads, e) ↦
      rw (retract_candidates, e)
        (elim (Bool-cases (v == view)) [
          | inl q ↦
              let p = (==_iff v view).0 q in
              rw (p, e, BTree.lookup-insert_same view (retract_heads s heads) candidates)
                (ground arith)
          | inr q ↦
              rw
                (
                  q,
                  BTree.lookup-insert_other view v (retract_heads s heads) candidates
                      (ground (arith, q)),
                )
                refl
        ])
]

lookup-retract_certified :
    (v view : View) (n : ℕ) (candidates : Map (Map (List PublicKey))) (certified : Map Digest)
    → lookup v (retract_certified n view candidates certified) ≡ (
        if v == view && (elim (lookup view certified) [
          | none ↦ false
          | some head ↦ ltb (length (supporters view head candidates)) n
        ])
        then none
        else lookup v certified)
unfolding retract_certified
lookup-retract_certified v view n candidates certified =
    elim (Option-cases (lookup view certified)) [
      | inl e ↦ rw (retract_certified, e) (ground arith)
      | inr (head, e) ↦
          rw (retract_certified, e) (ground (arith, Map.lookup-remove view v certified))
    ]

is_some-retract_candidates :
    (v view : View) (s : PublicKey) (candidates : Map (Map (List PublicKey)))
    → is_some (lookup v (retract_candidates view s candidates)) ≡ is_some (lookup v candidates)
unfolding retract_candidates
is_some-retract_candidates v view s candidates = elim (Option-cases (lookup view candidates)) [
  | inl e ↦ rw (retract_candidates, e) refl
  | inr (heads, e) ↦
      rw (retract_candidates, e)
        (elim (Bool-cases (v == view)) [
          | inl q ↦
              let p = (==_iff v view).0 q in
              rw (p, e, BTree.lookup-insert_same view (retract_heads s heads) candidates) refl
          | inr q ↦
              rw
                (BTree.lookup-insert_other view v (retract_heads s heads) candidates
                  (ground (arith, q)))
                refl
        ])
]

unsupported-lookup :
    (view : View) (found : Option Digest) (d : CheckpointCollector)
    → unsupported view found d ≡ elim found [
      | none ↦ false
      | some head ↦ ltb (length (supporters view head d.candidates)) d.threshold
    ]
unfolding support
unsupported-lookup view none d = refl
unsupported-lookup view (some head) d = refl

pub retract-Retracted :
    (view : View) (sender : PublicKey) (c : CheckpointCollector)
    → Retracted view sender c
        (retract view sender (record c { equivocators = add sender c.equivocators }))
unfolding retract
retract-Retracted view sender c =
    let candidates = retract_candidates view sender c.candidates in
    record {
      marked = λ k. member-add k sender c.equivocators;
      backed = λ v head k. ground (
        arith,
        ap (backs head k) (heads_of-retract_candidates v view sender c.candidates),
        backs-retract_heads head k sender (heads_of v c.candidates),
      );
      supported = λ head ks l e. retract_heads-kept head sender (heads_of view c.candidates) ks (
          ground (
            arith,
            ap (lookup head) (heads_of-retract_candidates view view sender c.candidates),
            e,
          ));
      views = λ v. is_some-retract_candidates v view sender c.candidates;
      certified = λ v. ground (
        arith,
        lookup-retract_certified v view c.threshold candidates c.certified,
        unsupported-lookup view (lookup view c.certified)
            (retract view sender (record c { equivocators = add sender c.equivocators })),
      );
      first_claim = refl;
      bounds = (refl, refl, refl);
    }
