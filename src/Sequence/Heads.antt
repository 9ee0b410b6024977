-- ===== src/Sequence/Heads.antt =====
-- The senders that back a head of a view (primary/src/vantage/sequence.rs, `CheckpointCollector`).
use vantage_bft.Base.{
  ◌≡◌, refl, subst, inl, inr, Bool, true, false, not, ◌&&◌, ◌||◌, some, List, [], ◌∷◌, is_empty,
  member, arith, ◌==◌, ==_iff, Bool-cases,
}
use vantage_bft.Base.BTree
use vantage_bft.Base.Map.{Map, lookup}
use vantage_bft.Committee.{PublicKey}
use vantage_bft.Agb.Types.{View, Digest}
use vantage_bft.Sequence.Collector.{add, without, retract_heads}
use mathlib.Core.Option.{get_or, some-injective}

-- Some entry of the head has the sender.
unfoldable pub backs : Digest → PublicKey → Map (List PublicKey) → Bool
unfolding member
backs head k [] = false
backs head k ((j, senders) ∷ rest) = (j == head && member k senders) || backs head k rest

-- The heads of a view.
abbrev pub heads_of : View → Map (Map (List PublicKey)) → Map (List PublicKey)
heads_of view candidates = get_or (lookup view candidates) []

pub member-add :
    (k s : PublicKey) (ks : List PublicKey) → member k (add s ks) ≡ (k == s || member k ks)
unfolding member
member-add k s ks = elim (Bool-cases (k == s)) [
  | inl e ↦
      let p = (==_iff k s).0 e in
      rw (e, p)
        (elim (Bool-cases (member s ks)) [
          | inl m ↦ rw (m, add) m
          | inr m ↦ rw (m, add) (ground arith)
        ])
  | inr n ↦ elim (Bool-cases (member s ks)) [
    | inl m ↦ rw (m, n) refl
    | inr m ↦ rw (m, n) (ground (arith, n))
  ]
]

member-without :
    (k s : PublicKey) (ks : List PublicKey)
    → member k (without s ks) ≡ (member k ks && not (k == s))
unfolding member without
member-without k s [] = refl
member-without k s (j ∷ ks) = ground (arith, member-without k s ks)

member-is_empty : (k : PublicKey) (ks : List PublicKey) → is_empty ks ≡ true → member k ks ≡ false
unfolding member
member-is_empty k [] e = refl
member-is_empty k (j ∷ ks) e = ground (arith, e)

-- Without a sender, every other sender backs the heads that it did.
pub backs-retract_heads :
    (head : Digest) (k s : PublicKey) (heads : Map (List PublicKey))
    → backs head k (retract_heads s heads) ≡ (backs head k heads && not (k == s))
unfolding backs retract_heads
backs-retract_heads head k s [] = refl
backs-retract_heads head k s ((j, ks) ∷ heads) = ground (
  arith,
  backs-retract_heads head k s heads,
  member-without k s ks,
  member-is_empty k (without s ks),
)

-- The heads that are left have senders.
pub retract_heads-kept :
    (head : Digest) (s : PublicKey) (heads : Map (List PublicKey)) (ks : List PublicKey)
    → lookup head (retract_heads s heads) ≡ some ks
    → is_empty ks ≡ false
unfolding lookup retract_heads
retract_heads-kept head s [] ks e = ground (arith, e)
retract_heads-kept head s ((j, js) ∷ heads) ks e = elim (Bool-cases (is_empty (without s js))) [
  | inl n ↦ retract_heads-kept head s heads ks (ground (arith, e, n))
  | inr n ↦ elim (Bool-cases (j == head)) [
    | inl q ↦
        subst (λ l. is_empty l ≡ false) (some-injective (without s js) ks (ground (arith, e, n, q)))
          n
    | inr q ↦ retract_heads-kept head s heads ks (ground (arith, e, n, q))
  ]
]

lookup-backs :
    (head : Digest) (k : PublicKey) (heads : Map (List PublicKey))
    → member k (get_or (lookup head heads) []) ≡ true
    → backs head k heads ≡ true
unfolding lookup backs member
lookup-backs head k [] m = m
lookup-backs head k ((j, js) ∷ heads) m = ground (arith, m, lookup-backs head k heads)

-- One more sender of a head backs it, and all else is as before.
pub backs-insert :
    (other head : Digest) (k s : PublicKey) (ks : List PublicKey) (heads : Map (List PublicKey))
    → member k ks ≡ (k == s || member k (get_or (lookup head heads) []))
    → backs other k (BTree.insert head ks heads)
      ≡ (backs other k heads || (other == head && k == s))
unfolding lookup backs member BTree.insert
backs-insert other head k s ks [] m = ground (arith, m)
backs-insert other head k s ks ((j, js) ∷ heads) m = ground (
  arith,
  m,
  backs-insert other head k s ks heads,
  lookup-backs head k heads,
  lookup-backs other k heads,
)
