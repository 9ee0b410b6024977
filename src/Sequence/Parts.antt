-- ===== src/Sequence/Parts.antt =====
-- Parts of the chain of a store (primary/src/vantage/sequence.rs).
use vantage_bft.Base.{
  ℕ, zero, suc, ◌+◌, ◌-◌, ◌≤◌, ◌<◌, ◌≡◌, refl, sym, ap, subst, ◌∙◌, ◌⊎◌, inl, inr, some, List, [],
  ◌∷◌, ◌++◌, length, arith, Option-cases, get_elem?,
}
use vantage_bft.Base.Map.{lookup}
use vantage_bft.Agb.Types.{View, Digest}
use vantage_bft.Sequence.Hash.{SequenceRecord, Hashing, record_head, genesis_head}
use vantage_bft.Sequence.Store.{SequenceStore}
use vantage_bft.Sequence.Chain.{insert_all}
use vantage_bft.Sequence.Links.{Collision, Extends, Extends-length, Extends-unique}
use vantage_bft.Sequence.Absorb.{insert_all-append, lookup-insert_all}
use vantage_bft.Sequence.Linked.{IsLinked}
use mathlib.Core.Option.{map, some-injective}

pub get_elem?-some {ℓ} :
    {A : Type ℓ} (xs : List A) (n : ℕ) → n < length xs → (x : A) × (get_elem? xs n ≡ some x)
get_elem?-some [] n l = absurd (omega (arith, l))
get_elem?-some (x ∷ xs) zero l = (x, refl)
get_elem?-some (x ∷ xs) (suc n) l = get_elem?-some xs n (omega (arith, l))

module _ (h : Hashing) where
  -- A chain parts at any of its views.
  Extends-split :
      (n : ℕ) (v : View) (d : Digest) (rs : List SequenceRecord) (w : View) (e : Digest)
      → Extends h v d rs w e
      → v + n ≤ w
      → (f : Digest) × (ps : List SequenceRecord) × (qs : List SequenceRecord) × (rs ≡ ps ++ qs)
        × Extends h v d ps (v + n) f
        × Extends h (v + n) f qs w e
  Extends-split zero v d rs w e x l =
      (d, [], rs, refl, (omega arith, refl), subst (λ k. Extends h k d rs w e) (omega arith) x)
  Extends-split (suc n) v d [] w e (p, q) l = absurd (omega (arith, p, l))
  Extends-split (suc n) v d (r ∷ rs) w e (a, b, c, x) l =
      let (f, ps, qs, q, y, z) =
        Extends-split n (suc v) (record_head h r) rs w e x (omega (arith, l)) in
      let k : suc v + n ≡ v + suc n = omega arith in
      (
        f,
        r ∷ ps,
        qs,
        ap (λ xs. r ∷ xs) q,
        (a, b, c, subst (λ j. Extends h (suc v) (record_head h r) ps j f) k y),
        subst (λ j. Extends h j f qs w e) k z,
      )

  -- The head at the last view of a chain is that of its last record.
  Extends-last :
      (v : View) (d : Digest) (rs : List SequenceRecord) (n : ℕ) (e : Digest) (r : SequenceRecord)
      → Extends h v d rs (suc (v + n)) e
      → get_elem? rs n ≡ some r
      → e ≡ record_head h r
  Extends-last v d [] n e r (p, q) g = absurd (omega (arith, p))
  Extends-last v d (s ∷ rs) (suc n) e r (a, b, c, x) g =
      let k : suc (v + suc n) ≡ suc (suc v + n) = omega arith in
      Extends-last (suc v) (record_head h s) rs n e r
        (subst (λ w. Extends h (suc v) (record_head h s) rs w e) k x) g
  Extends-last v d (s ∷ []) zero e r (a, b, c, (p, q)) g =
      sym q ∙ ap (record_head h) (some-injective s r g)
  Extends-last v d (s ∷ t ∷ rs) zero e r (a, b, c, x) g =
      absurd
        (omega (arith, Extends-length h (suc v) (record_head h s) (t ∷ rs) (suc (v + zero)) e x))

  -- A chain that begins with another, and goes on after it, has its record of every view.
  within :
      (u v w z y : View) (d f e g : Digest) (ps rs qs : List SequenceRecord)
      → Extends h v d ps w f
      → Extends h w f rs z e
      → Extends h z e qs y g
      → w ≤ u
      → u < z
      → lookup u (insert_all (ps ++ (rs ++ qs)) []) ≡ lookup u (insert_all rs [])
  unfolding lookup
  within u v w z y d f e g ps rs qs j x k a b =
      ap (lookup u) (insert_all-append ps (rs ++ qs) [] ∙ insert_all-append rs qs _)
      ∙ ground (
        arith,
        a,
        b,
        lookup-insert_all h u z e qs y g (insert_all rs (insert_all ps [])) k,
        lookup-insert_all h u w f rs z e (insert_all ps []) x,
        lookup-insert_all h u w f rs z e [] x,
      )

  -- The part of a chain after the base and through the target.
  Extends-part :
      (v : View) (d : Digest) (rs : List SequenceRecord) (w : View) (e : Digest)
      (base target : View)
      → Extends h v d rs w e
      → v ≤ base + 1
      → base < target
      → target < w
      → (f : Digest) × (g : Digest) × (ms : List SequenceRecord) × Extends h
          (base + 1)
          f
          ms
          (suc target)
          g
        × ((u : View)
            → base < u
            → u ≤ target
            → lookup u (insert_all rs []) ≡ lookup u (insert_all ms []))
  Extends-part v d rs w e base target x a b c =
      let (f, ps, ns, q, y, z) =
        Extends-split ((base + 1) - v) v d rs w e x (omega (arith, a, b, c)) in
      let at_base : v + ((base + 1) - v) ≡ base + 1 = omega (arith, a) in
      let z' = subst (λ k. Extends h k f ns w e) at_base z in
      let (g, ms, qs, q', y', k) =
        Extends-split (target - base) (base + 1) f ns w e z' (omega (arith, b, c)) in
      let at_target : (base + 1) + (target - base) ≡ suc target = omega (arith, b) in
      let part = subst (λ k. Extends h (base + 1) f ms k g) at_target y' in
      (
        f,
        g,
        ms,
        part,
        λ u l m.
            ap (λ xs. lookup u (insert_all xs [])) (q ∙ ap (λ xs. ps ++ xs) q')
            ∙ within u v (base + 1) (suc target) w d f g e ps ms qs
                (subst (λ k. Extends h v d ps k f) at_base y) part
                (subst (λ j. Extends h j g qs w e) at_target k) (omega (arith, l))
                (omega (arith, m)),
      )

  -- The part of a store's chain after the base and through the target, which ends with the head of
  -- the target's record.
  pub store_part :
      (s : SequenceStore) (rs : List SequenceRecord) (base target : View) (head : Digest)
      → IsLinked h s rs
      → base < target
      → map (record_head h) (lookup target s.records) ≡ some head
      → (d : Digest) × (ms : List SequenceRecord) × Extends h (base + 1) d ms (suc target) head
        × ((u : View) → base < u → u ≤ target → lookup u s.records ≡ lookup u (insert_all ms []))
  unfolding lookup
  store_part s rs base target head p l q = elim (Option-cases (lookup target s.records)) [
    | inl n ↦ absurd (ground (arith, n, q))
    | inr (r, i) ↦
        let high : target < s.next_view = ground (
          arith,
          i,
          l,
          ap (lookup target) p.kept,
          lookup-insert_all h target 1 (genesis_head h) rs s.next_view s.head [] p.extends,
        ) in
        let (d, f, ms, x, same) =
          Extends-part 1 (genesis_head h) rs s.next_view s.head base target p.extends (omega arith)
            l high in
        let found : get_elem? ms (target - (base + 1)) ≡ some r = ground (
          arith,
          i,
          l,
          ap (lookup target) p.kept,
          same target l (omega arith),
          lookup-insert_all h target (base + 1) d ms (suc target) f [] x,
        ) in
        let end : suc target ≡ suc ((base + 1) + (target - (base + 1))) = omega (arith, l) in
        let last : f ≡ head =
          Extends-last (base + 1) d ms (target - (base + 1)) f r
            (subst (λ k. Extends h (base + 1) d ms k f) end x) found
          ∙ some-injective (record_head h r) head (ap (map (record_head h)) (sym i) ∙ q) in
        (
          d,
          ms,
          subst (λ k. Extends h (base + 1) d ms (suc target) k) last x,
          λ u a b. ap (lookup u) p.kept ∙ same u a b,
        )
  ]

  -- Two chains to one head have the same records.
  pub same_records :
      (s : SequenceStore) (rs ts : List SequenceRecord) (base target : View) (b head : Digest)
      → IsLinked h s rs
      → base < target
      → map (record_head h) (lookup target s.records) ≡ some head
      → Extends h (base + 1) b ts (suc target) head
      → ((u : View) → base < u → u ≤ target → lookup u s.records ≡ lookup u (insert_all ts []))
        ⊎ Collision h
  same_records s rs ts base target b head p l q x =
      let (d, ms, y, f) = store_part s rs base target head p l q in
      elim (Extends-unique h (base + 1) b d ts ms (suc target) head x y) [
        | inr k ↦ inr k
        | inl (e, _) ↦ inl (λ u a c. f u a c ∙ ap (λ xs. lookup u (insert_all xs [])) (sym e))
      ]
