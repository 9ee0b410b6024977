-- ===== src/Sequence/Scan.antt =====
-- The scans of a transfer for the first missing body (primary/src/vantage/sequence.rs,
-- `first_missing_outcome` and `first_missing_delta`).
use vantage_bft.Base.{
  ℕ, zero, suc, ◌+◌, ◌-◌, ◌≤◌, ◌<◌, ◌≡◌, refl, sym, ap, ◌∙◌, ◌⊎◌, inl, inr, true, false, Option,
  none, some, is_some, is_none, arith, ltb, Bool-cases, subst,
}
use vantage_bft.Base.Map.{Map, lookup}
use vantage_bft.Agb.Types.{View}
use vantage_bft.Sequence.Hash.{SequenceRecord}
use vantage_bft.Sequence.Transfer.{walk, scan_on, find_missing, first_missing}

-- The views below the cursor have their body.
abbrev pub Passed {ℓ} : {A : Type ℓ} → (cursor : View) → Map A → Type 0
Passed cursor have =
    (1 ≤ cursor) × ((u : View) → 1 ≤ u → u < cursor → is_some (lookup u have) ≡ true)

module _ {ℓ} {A : Type ℓ} (records : Map SequenceRecord) (have : Map A) where
  abbrev Covers : View → View → Type 0
  Covers v w = (u : View) → v ≤ u → u < w → is_some (lookup u have) ≡ true

  find_missing-Covers :
      (n m : ℕ) (v : View)
      → Covers v (v + n)
      → find_missing (n + m) v records have ≡ find_missing m (v + n) records have
  unfolding find_missing
  find_missing-Covers zero m v c =
      let p : 0 + m ≡ m = omega arith in let q : v + 0 ≡ v = omega arith in rw (p, q) refl
  find_missing-Covers (suc n) m v c =
      let ih =
        find_missing-Covers n m (suc v) (λ u a b. c u (omega (arith, a)) (omega (arith, b))) in
      let here = c v (omega arith) (omega arith) in
      let p : suc n + m ≡ suc (n + m) = omega arith in
      let q : v + suc n ≡ suc v + n = omega arith in rw (p, q) (ground (arith, ih, here))

  abbrev Walks : ℕ → View → Option View × View → Type 0
  Walks left v (found, at) =
      (v ≤ at)
      × (at ≤ v + left)
      × Covers v at
      × ((found ≡ none) ⊎ (found ≡ find_missing left v records have))

  walk-Walks_after :
      (left : ℕ) (v : View) (r : Option View × View)
      → is_none (lookup v have) ≡ false
      → Walks left (suc v) r
      → Walks (suc left) v r
  unfolding find_missing
  walk-Walks_after left v (found, at) q (a, b, c, e) = (
    omega (arith, a),
    omega (arith, b),
    λ u x y. elim (Bool-cases (ltb v u)) [
      | inl p ↦ c u (ground (arith, p)) y
      | inr n ↦ let p : u ≡ v = ground (arith, x, n) in rw p (ground (arith, q))
    ],
    elim e [ inl n ↦ inl n | inr m ↦ inr (ground (arith, q, m)) ],
  )

  walk-further :
      (left : ℕ) (v : View)
      → is_none (lookup v records) ≡ false
      → is_none (lookup v have) ≡ false
      → walk (suc left) v records have ≡ walk left (suc v) records have
  unfolding walk
  walk-further left v p q = rw (p, q) refl

  walk-Walks : (left : ℕ) (v : View) → Walks left v (walk left v records have)
  unfolding walk find_missing
  walk-Walks zero v = (omega arith, omega arith, λ u a b. absurd (omega (arith, a, b)), inl refl)
  walk-Walks (suc left) v = elim (Bool-cases (is_none (lookup v records))) [
    | inl p ↦ rw p (omega arith, omega arith, λ u a b. absurd (omega (arith, a, b)), inl refl)
    | inr p ↦ elim (Bool-cases (is_none (lookup v have))) [
      | inl q ↦
          rw (p, q)
            (
              omega arith,
              omega arith,
              λ u a b. absurd (omega (arith, a, b)),
              inr (ground (arith, p)),
            )
      | inr q ↦
          subst (Walks (suc left) v) (sym (walk-further left v p q))
            (walk-Walks_after left v (walk left (suc v) records have) q (walk-Walks left (suc v)))
    ]
  ]

  -- The scan finds what a scan from its cursor finds, and moves the cursor over bodies only.
  abbrev Scans : View → View → Option View × View → Type 0
  Scans target cursor (found, at) =
      (found ≡ find_missing ((target + 1) - cursor) cursor records have)
      × (cursor ≤ at)
      × Covers cursor at

  scan_on-Scans :
      (target cursor : View) (r : Option View × View)
      → Walks ((target + 1) - cursor) cursor r
      → Scans target cursor (scan_on target records have r)
  scan_on-Scans target cursor (none, at) (a, b, c, e) =
      let skip =
        find_missing-Covers (at - cursor) ((target + 1) - at) cursor
          (λ u x y. c u x (omega (arith, a, y))) in
      let p : cursor + (at - cursor) ≡ at = omega (arith, a) in
      let q : (at - cursor) + ((target + 1) - at) ≡ (target + 1) - cursor = omega (arith, a, b) in
      (
        sym (
            ap (λ k. find_missing k cursor records have) (sym q)
            ∙ skip
            ∙ ap (λ k. find_missing ((target + 1) - at) k records have) p),
        a,
        c,
      )
  scan_on-Scans target cursor (some view, at) (a, b, c, e) =
      (elim e [ inl n ↦ ground (arith, n) | inr m ↦ m ], a, c)

  first_missing-Scans :
      (target cursor : View) → Scans target cursor (first_missing target cursor records have)
  unfolding first_missing
  first_missing-Scans target cursor =
      scan_on-Scans target cursor (walk ((target + 1) - cursor) cursor records have)
        (walk-Walks ((target + 1) - cursor) cursor)

  nothing : (v w : View) → find_missing 0 v records have ≡ find_missing 0 w records have
  unfolding find_missing
  nothing v w = refl

  -- A scan may skip views whose bodies are there.
  find_missing-Passed :
      (target cursor : View)
      → Passed cursor have
      → find_missing ((target + 1) - cursor) cursor records have
        ≡ find_missing target 1 records have
  find_missing-Passed target cursor (p, below) = elim (Bool-cases (ltb target cursor)) [
    | inl l ↦
        let at_end = find_missing-Covers target 0 1 (λ u x y. below u x (ground (arith, l, y))) in
        let a : target + 0 ≡ target = omega arith in
        let b : (target + 1) - cursor ≡ 0 = ground (arith, l) in
        ap (λ k. find_missing k cursor records have) b
        ∙ sym
            (ap (λ k. find_missing k 1 records have) (sym a) ∙ at_end ∙ nothing (1 + target) cursor)
    | inr l ↦
        let skip =
          find_missing-Covers (cursor - 1) ((target + 1) - cursor) 1
            (λ u x y. below u x (omega (arith, p, y))) in
        let a : (cursor - 1) + ((target + 1) - cursor) ≡ target = ground (arith, p, l) in
        let b : 1 + (cursor - 1) ≡ cursor = omega (arith, p) in
        sym (
          ap (λ k. find_missing k 1 records have) (sym a)
          ∙ skip
          ∙ ap (λ k. find_missing ((target + 1) - cursor) k records have) b)
  ]

  -- With every body below the cursor there, a scan finds the first view from 1 through the target
  -- whose record is verified and whose body is missing, and keeps every body below the new cursor.
  pub first_missing_lem :
      (target cursor : View)
      → Passed cursor have
      → ((first_missing target cursor records have).0 ≡ find_missing target 1 records have)
        × Passed (first_missing target cursor records have).1 have
  first_missing_lem target cursor (p, below) =
      let (q, a, c) = first_missing-Scans target cursor in
      (
        q ∙ find_missing-Passed target cursor (p, below),
        (
          omega (arith, p, a),
          λ u x y. elim (Bool-cases (ltb u cursor)) [
            | inl l ↦ below u x (ground (arith, l))
            | inr n ↦ c u (ground (arith, n)) y
          ],
        ),
      )

  -- Nothing is missing where a scan finds nothing.
  pub find_missing-none :
      (n : ℕ) (v u : View)
      → find_missing n v records have ≡ none
      → v ≤ u
      → u < v + n
      → is_some (lookup u records) ≡ true
      → is_some (lookup u have) ≡ true
  unfolding find_missing
  find_missing-none zero v u e a b s = absurd (omega (arith, a, b))
  find_missing-none (suc n) v u e a b s = elim (Bool-cases (ltb v u)) [
    | inl l ↦
        find_missing-none n (suc v) u (ground (arith, e, l)) (ground (arith, l)) (omega (arith, b))
          s
    | inr l ↦ let p : v ≡ u = ground (arith, a, l) in ground (arith, e, p, s)
  ]
