-- ===== src/Sequence/Counted.antt =====
-- A first claim (primary/src/vantage/sequence.rs, `on_announcement` below its guards).
use vantage_bft.Base.{
  ap, ◌∙◌, ◌&&◌, ◌||◌, ◌++◌, is_some, is_none, if◌then◌else◌, ◌+◌, ◌≤◌, ◌≡◌, if-cases, refl, inl,
  inr, ◌⊎◌, Bool, true, false, Option, none, some, List, [], length, member, arith, leb, ◌==◌,
  ==_iff, Bool-cases,
}
use vantage_bft.Base.BTree
use vantage_bft.Base.Map.{Map, lookup}
use vantage_bft.Committee.{PublicKey}
use vantage_bft.Agb.Types.{View, Digest}
use mathlib.Core.Option.{get_or}
use vantage_bft.Sequence.Heads.{backs, heads_of, member-add, backs-insert}
use vantage_bft.Sequence.Collector.{
  supporters, AnnouncementOutcome, CheckpointCollector, add, claim_of, support, evict_if_needed,
  count_claim, certify, accept_claim,
}
use vantage_bft.Sequence.Evictions.{evict-length, evict-Evicts}

-- What a first claim does: with the sender's claim and its support added, lowest candidate views are
-- dropped with their claims, and no more of them than the bound asks; the head is certified just if
-- the support with the claim is as large as the threshold.
pub record Counted (view : View) (head : Digest) (sender : PublicKey) (newly : Bool)
    (c d : CheckpointCollector) : Type 0 where
  pub candidates : Map (Map (List PublicKey))
  pub dropped : Map (Map (List PublicKey))
  pub split : candidates ≡ dropped ++ d.candidates
  pub bounded : length d.candidates ≤ c.max_candidate_views
  pub needed : (dropped ≡ []) ⊎ (length d.candidates ≡ c.max_candidate_views)
  pub backed :
      (v : View) (other : Digest) (k : PublicKey)
      → backs other k (heads_of v candidates)
        ≡ (backs other k (heads_of v c.candidates) || (v == view && (other == head && k == sender)))
  pub grown : length (supporters view head candidates) ≡ (
      if member sender (supporters view head c.candidates)
      then support view head c
      else 1 + support view head c)
  pub claimed :
      (v : View) (k : PublicKey)
      → claim_of v k d ≡ (
          if is_some (lookup v dropped)
          then none
          else if v == view && k == sender
          then some head
          else claim_of v k c)
  pub certified :
      (v : View)
      → lookup v d.certified ≡ (
          if v == view && leb c.threshold (length (supporters view head candidates))
          then some head
          else lookup v c.certified)
  pub newly_certified : newly ≡ (
      leb c.threshold (length (supporters view head candidates))
      && is_none (lookup view c.certified))
  pub equivocators : d.equivocators ≡ c.equivocators
  pub bounds :
      (d.threshold ≡ c.threshold)
      × (d.max_candidate_views ≡ c.max_candidate_views)
      × (d.future_view_slack ≡ c.future_view_slack)

insert-claims :
    (v view : View) (k sender : PublicKey) (head : Digest) (claims : Map (Map Digest))
    → lookup k (
        get_or
          (lookup v
            (BTree.insert view (BTree.insert sender head (get_or (lookup view claims) [])) claims))
          [])
      ≡ (if v == view && k == sender then some head else lookup k (get_or (lookup v claims) []))
insert-claims v view k sender head claims =
    let claimed = BTree.insert sender head (get_or (lookup view claims) []) in
    elim (Bool-cases (v == view)) [
      | inl q ↦
          let p = (==_iff v view).0 q in
          rw (p, BTree.lookup-insert_same view claimed claims)
            (elim (Bool-cases (k == sender)) [
              | inl r ↦
                  let t = (==_iff k sender).0 r in
                  rw (t, BTree.lookup-insert_same sender head (get_or (lookup view claims) []))
                    (ground arith)
              | inr r ↦
                  rw
                    (
                      r,
                      BTree.lookup-insert_other sender k head (get_or (lookup view claims) [])
                          (ground (arith, r)),
                    )
                    (ground arith)
            ])
      | inr q ↦ rw (q, BTree.lookup-insert_other view v claimed claims (ground (arith, q))) refl
    ]

insert-backs :
    (v view : View) (other head : Digest) (k sender : PublicKey)
    (candidates : Map (Map (List PublicKey)))
    → backs other k (
        heads_of v (
          BTree.insert view
            (BTree.insert head
              (add sender (supporters view head candidates))
              (heads_of view candidates))
            candidates))
      ≡ (backs other k (heads_of v candidates) || (v == view && (other == head && k == sender)))
unfolding supporters
insert-backs v view other head k sender candidates =
    let heads = heads_of view candidates in
    let more = add sender (get_or (lookup head heads) []) in
    elim (Bool-cases (v == view)) [
      | inl q ↦
          let p = (==_iff v view).0 q in
          rw (p, BTree.lookup-insert_same view (BTree.insert head more heads) candidates)
            (ground (
              arith,
              backs-insert other head k sender more heads
                  (member-add k sender (get_or (lookup head heads) [])),
            ))
      | inr q ↦
          rw
            (
              q,
              BTree.lookup-insert_other view v (BTree.insert head more heads) candidates
                  (ground (arith, q)),
            )
            (ground arith)
    ]

-- A claim that no guard has stopped counts.
abbrev pub Counts :
    View
    → Digest
    → PublicKey
    → CheckpointCollector
    → AnnouncementOutcome × CheckpointCollector
    → Type 0
Counts view head sender c (AnnouncementOutcome.ignored reason, d) = ⊥
Counts view head sender c (AnnouncementOutcome.counted newly, d) =
    Counted view head sender newly c d

length-supporters :
    (view : View) (head : Digest) (sender : PublicKey) (c : CheckpointCollector)
    → length (supporters view head (count_claim view head sender c).candidates) ≡ (
        if member sender (supporters view head c.candidates)
        then support view head c
        else 1 + support view head c)
unfolding supporters support count_claim
length-supporters view head sender c =
    let heads = heads_of view c.candidates in
    let more = add sender (get_or (lookup head heads) []) in
    rw
      (
        BTree.lookup-insert_same view (BTree.insert head more heads) c.candidates,
        BTree.lookup-insert_same head more heads,
      )
      (ground arith)

lookup-get_or :
    (k : PublicKey) (gone : Bool) (found : Option (Map Digest))
    → lookup k (get_or (if gone then none else found) [])
      ≡ (if gone then none else lookup k (get_or found []))
unfolding lookup
lookup-get_or k true found = refl
lookup-get_or k false found = refl

evict_if_needed-Counted :
    (view : View) (head : Digest) (sender : PublicKey) (newly : Bool) (c : CheckpointCollector)
    (certified : Map Digest)
    → ((v : View)
        → lookup v certified ≡ (
            if v == view && leb c.threshold (support view head (count_claim view head sender c))
            then some head
            else lookup v c.certified))
    → newly ≡ (
        leb c.threshold (support view head (count_claim view head sender c))
        && is_none (lookup view c.certified))
    → Counted view head sender newly c
        (record (evict_if_needed (count_claim view head sender c)) { certified = certified })
unfolding evict_if_needed claim_of support count_claim
evict_if_needed-Counted view head sender newly c certified f n =
    let m = count_claim view head sender c in
    let (dropped, split, needed, left) =
      evict-Evicts c.max_candidate_views m.candidates m.first_claim in
    record {
      candidates = m.candidates;
      dropped = dropped;
      split = split;
      bounded = evict-length c.max_candidate_views m.candidates m.first_claim;
      needed = needed;
      backed = λ v other k. insert-backs v view other head k sender c.candidates;
      grown = length-supporters view head sender c;
      claimed = λ v k.
          ap (λ found. lookup k (get_or found [])) (left v)
          ∙ lookup-get_or k (is_some (lookup v dropped)) (lookup v m.first_claim)
          ∙ ap (λ found. if is_some (lookup v dropped) then none else found)
              (insert-claims v view k sender head c.first_claim);
      certified = f;
      newly_certified = n;
      equivocators = refl;
      bounds = (refl, refl, refl);
    }

pub accept_claim-Counts :
    (view : View) (head : Digest) (sender : PublicKey) (c : CheckpointCollector)
    → Counts view head sender c (accept_claim view head sender c)
unfolding accept_claim evict_if_needed certify count_claim
accept_claim-Counts view head sender c =
    let m = count_claim view head sender c in
    let e = evict_if_needed m in
    if-cases (Counts view head sender c) (leb m.threshold (support view head m))
      (AnnouncementOutcome.counted (is_none (lookup view e.certified)), certify view head e)
      (AnnouncementOutcome.counted false, e)
      (λ p.
        evict_if_needed-Counted view head sender (is_none (lookup view c.certified)) c
          (BTree.insert view head c.certified)
          (λ v. BTree.lookup-insert view v head c.certified ∙ ground (arith, p))
          (ground (arith, p)))
      λ p.
        evict_if_needed-Counted view head sender false c c.certified (λ v. ground (arith, p))
          (ground (arith, p))
