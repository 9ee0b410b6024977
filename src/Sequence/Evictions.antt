-- ===== src/Sequence/Evictions.antt =====
-- The candidate views that are dropped (primary/src/vantage/sequence.rs, `evict_if_needed`).
use vantage_bft.Base.{
  ap, ◌∙◌, ◌++◌, is_some, if◌then◌else◌, ℕ, ◌≤◌, ◌≡◌, if-cases, refl, inl, inr, ◌⊎◌, true, none,
  List, [], ◌∷◌, length, arith, ltb,
}
use vantage_bft.Base.Map
use vantage_bft.Base.Map.{Map, lookup}
use vantage_bft.Committee.{PublicKey}
use vantage_bft.Agb.Types.{View, Digest}
use vantage_bft.Sequence.Collector.{evict}

pub evict-length :
    (limit : ℕ) (candidates : Map (Map (List PublicKey))) (claims : Map (Map Digest))
    → length (evict limit candidates claims).0 ≤ limit
unfolding evict
evict-length limit [] claims = omega arith
evict-length limit ((lowest, heads) ∷ rest) claims =
    if-cases (λ (p : Map (Map (List PublicKey)) × Map (Map Digest)). length p.0 ≤ limit)
      (ltb limit (length ((lowest, heads) ∷ rest))) (evict limit rest (Map.remove lowest claims))
      ((lowest, heads) ∷ rest, claims) (λ _. evict-length limit rest (Map.remove lowest claims))
      λ e. ground (arith, e)

-- The views that go are the lowest, with their claims, and go only while there are too many.
abbrev pub Evicts :
    (limit : ℕ)
    → Map (Map (List PublicKey))
    → Map (Map Digest)
    → Map (Map (List PublicKey)) × Map (Map Digest)
    → Type 0
Evicts limit candidates claims (left, kept) =
    (dropped : Map (Map (List PublicKey))) × (candidates ≡ dropped ++ left)
    × ((dropped ≡ []) ⊎ (length left ≡ limit))
    × ((v : View) → lookup v kept ≡ (if is_some (lookup v dropped) then none else lookup v claims))

Evicts-further :
    (limit : ℕ) (lowest : View) (heads : Map (List PublicKey)) (rest : Map (Map (List PublicKey)))
    (claims : Map (Map Digest)) (r : Map (Map (List PublicKey)) × Map (Map Digest))
    → ltb limit (length ((lowest, heads) ∷ rest)) ≡ true
    → length r.0 ≤ limit
    → Evicts limit rest (Map.remove lowest claims) r
    → Evicts limit ((lowest, heads) ∷ rest) claims r
unfolding lookup
Evicts-further limit lowest heads rest claims (left, kept) e l (dropped, p, n, f) = (
  (lowest, heads) ∷ dropped,
  ap (λ xs. (lowest, heads) ∷ xs) p,
  inr (elim n [
    | inl z ↦
        let same : length rest ≡ length left = ap length (p ∙ ap (λ xs. xs ++ left) z) in
        ground (arith, e, l, same)
    | inr q ↦ q
  ]),
  λ v. ground (arith, f v, Map.lookup-remove lowest v claims),
)

pub evict-Evicts :
    (limit : ℕ) (candidates : Map (Map (List PublicKey))) (claims : Map (Map Digest))
    → Evicts limit candidates claims (evict limit candidates claims)
unfolding evict lookup
evict-Evicts limit [] claims = ([], refl, inl refl, λ v. refl)
evict-Evicts limit ((lowest, heads) ∷ rest) claims =
    if-cases (Evicts limit ((lowest, heads) ∷ rest) claims)
      (ltb limit (length ((lowest, heads) ∷ rest))) (evict limit rest (Map.remove lowest claims))
      ((lowest, heads) ∷ rest, claims)
      (λ e.
        Evicts-further limit lowest heads rest claims (evict limit rest (Map.remove lowest claims))
          e (evict-length limit rest (Map.remove lowest claims))
          (evict-Evicts limit rest (Map.remove lowest claims)))
      λ _. ([], refl, inl refl, λ v. refl)
