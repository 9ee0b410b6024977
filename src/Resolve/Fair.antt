-- ===== src/Resolve/Fair.antt =====
-- Every member leads (primary/src/vantage/direct_resolution.rs, `resolver_schedule`).
use vantage_bft.Base.{
  ℕ, zero, suc, ◌+◌, ◌*◌, ◌-◌, ◌%◌, ◌<◌, ◌≡◌, refl, sym, ap, ◌∙◌, inl, inr, Bool, true, Option,
  none, some, List, [], ◌∷◌, ◌++◌, arith, ◌==◌, if◌then◌else◌, Bool-cases, length, get_elem?, set,
  length-set, count, ◌⊎◌, ==_iff,
}
use vantage_bft.Committee.{Committee, PublicKey, size}
use vantage_bft.Leader.{keys, one_based}
use vantage_bft.Resolve.State.{Config}
use vantage_bft.Resolve.Schedule.{
  range, swap, shuffle, mix, next_state, names_of, without_first, has_name, move_last,
  resolver_schedule, resolution_leader, leads,
}
use mathlib.Core.Option.{get_or}
use native.Mathlib.Nat.{mod-lt, mod-eq_of_lt, add-mul-mod_self_right}

abbrev item : List ℕ → ℕ → ℕ
item xs k = get_or (get_elem? xs k) 0

abbrev one_if : Bool → ℕ
one_if b = if b then 1 else 0

item-set :
    (a : ℕ) (xs : List ℕ) (i j : ℕ)
    → i < length xs
    → item (set xs i a) j ≡ (if i == j then a else item xs j)
item-set a [] i j h = absurd (omega arith)
item-set a (x ∷ xs) zero zero h = ground arith
item-set a (x ∷ xs) zero (suc j) h = ground arith
item-set a (x ∷ xs) (suc i) zero h = ground arith
item-set a (x ∷ xs) (suc i) (suc j) h = ground (arith, item-set a xs i j)

length-swap : (xs : List ℕ) (i j : ℕ) → length (swap xs i j) ≡ length xs
unfolding swap
length-swap xs i j = length-set _ j _ ∙ length-set xs i _

names_of-range :
    (x : ℕ) (xs : List ℕ) (k n : ℕ) → names_of (x ∷ xs) (range (suc k) n) ≡ names_of xs (range k n)
unfolding range
names_of-range x xs k zero = refl
names_of-range x xs k (suc n) = ap (λ ys. item xs k ∷ ys) (names_of-range x xs (suc k) n)

names_in_order : (xs : List ℕ) → names_of xs (range 0 (length xs)) ≡ xs
unfolding range
names_in_order [] = refl
names_in_order (x ∷ xs) = ap (λ ys. x ∷ ys) (names_of-range x xs 0 (length xs) ∙ names_in_order xs)

length-range : (k n : ℕ) → length (range k n) ≡ n
unfolding range
length-range k zero = refl
length-range k (suc n) = ap suc (length-range (suc k) n)

-- What a test counts stays as the list is reordered.
module _ (p : ℕ → Bool) where
  count-set :
      (a : ℕ) (xs : List ℕ) (k : ℕ)
      → k < length xs
      → count p (set xs k a) + one_if (p (item xs k)) ≡ count p xs + one_if (p a)
  unfolding count
  count-set a [] k h = absurd (omega arith)
  count-set a (y ∷ ys) zero h = omega arith
  count-set a (y ∷ ys) (suc k) h = omega (arith, count-set a ys k (omega arith))

  count-swap :
      (xs : List ℕ) (i j : ℕ) → i < length xs → j < length xs → count p (swap xs i j) ≡ count p xs
  unfolding swap
  count-swap xs i j h k =
      let same : item (set xs i (item xs j)) j ≡ item xs j =
        item-set (item xs j) xs i j h ∙ ground arith in
      let second =
        count-set (item xs i) (set xs i (item xs j)) j
          (omega (arith, k, length-set xs i (item xs j))) in
      let first = count-set (item xs j) xs i h in omega (arith, first, rw same at second)

  count-shuffle :
      (i state : ℕ) (xs : List ℕ)
      → (i ≡ 0) ⊎ (i < length xs)
      → count p (shuffle i state xs) ≡ count p xs
  unfolding shuffle
  count-shuffle zero state xs h = refl
  count-shuffle (suc i) state xs h =
      let s = next_state state in
      let j = mix s % (suc i + 1) in
      let far : suc i < length xs = ground (arith, h) in
      let near : j < suc i + 1 = mod-lt (mix s) (omega arith) in
      count-shuffle i s (swap xs (suc i) j) (inr (omega (arith, far, length-swap xs (suc i) j)))
      ∙ count-swap xs (suc i) j far (omega (arith, far, near))

  count-last : (xs : List ℕ) (x : ℕ) → count p (xs ++ x ∷ []) ≡ count p xs + one_if (p x)
  unfolding count
  count-last [] x = omega arith
  count-last (y ∷ ys) x = omega (arith, count-last ys x)

  count-without_first :
      (x : ℕ) (xs : List ℕ)
      → has_name x xs ≡ true
      → count p (without_first x xs) + one_if (p x) ≡ count p xs
  unfolding count without_first has_name
  count-without_first x [] h = ground arith
  count-without_first x (y ∷ ys) h = elim (Bool-cases (y == x)) [
    | inl e ↦ rw (e, (==_iff y x).0 e) (omega arith)
    | inr e ↦ rw e (omega (arith, count-without_first x ys (ground (arith, h, e))))
  ]

  count-move_last : (o : Option ℕ) (xs : List ℕ) → count p (move_last o xs) ≡ count p xs
  unfolding move_last
  count-move_last none xs = refl
  count-move_last (some x) xs = elim (Bool-cases (has_name x xs)) [
    | inl e ↦ rw e (count-last (without_first x xs) x ∙ count-without_first x xs e)
    | inr e ↦ rw e refl
  ]

count-names_of :
    (p : ℕ → Bool) (names ks : List ℕ)
    → count p (names_of names ks) ≡ count (λ k. p (item names k)) ks
unfolding count
count-names_of p names [] = refl
count-names_of p names (k ∷ ks) = omega (arith, count-names_of p names ks)

in_range :
    (names : List ℕ) → (length names - 1 ≡ 0) ⊎ (length names - 1 < length (range 0 (length names)))
in_range [] = inl refl
in_range (x ∷ xs) = inr (omega (arith, length-range 0 (length (x ∷ xs))))

-- The schedule holds the members' names, each as often as the committee does.
count-schedule :
    (p : ℕ → Bool) (c : Committee) (seed target : ℕ)
    → count p (resolver_schedule c seed target) ≡ count p (keys c.authorities)
unfolding resolver_schedule
count-schedule p c seed target =
    let names = keys c.authorities in
    let n = length names in
    count-move_last p (one_based c target) _
    ∙ count-names_of p names (shuffle (n - 1) seed (range 0 n))
    ∙ count-shuffle (λ k. p (item names k)) (n - 1) seed (range 0 n) (in_range names)
    ∙ sym (count-names_of p names (range 0 n))
    ∙ ap (count p) (names_in_order names)

count-all : (xs : List ℕ) → count (λ k. true) xs ≡ length xs
unfolding count
count-all [] = refl
count-all (x ∷ xs) = omega (arith, count-all xs)

length-schedule :
    (c : Committee) (seed target : ℕ)
    → length (resolver_schedule c seed target) ≡ length (keys c.authorities)
length-schedule c seed target =
    sym (count-all (resolver_schedule c seed target))
    ∙ count-schedule (λ k. true) c seed target
    ∙ count-all (keys c.authorities)

-- Where a counted name is.
place_of :
    (name : ℕ) (xs : List ℕ)
    → 0 < count (λ x. x == name) xs
    → (k : ℕ) × (k < length xs) × (get_elem? xs k ≡ some name)
unfolding count
place_of name [] h = absurd (omega (arith, h))
place_of name (x ∷ xs) h = elim (Bool-cases (x == name)) [
  | inl e ↦ (0, omega arith, ap some ((==_iff x name).0 e))
  | inr e ↦ let (k, l, g) = place_of name xs (ground (arith, h, e)) in (suc k, omega (arith, l), g)
]

lap_turn : (k lap n m : ℕ) → m ≡ n → k < m → (1 + k + lap * n - 1) % m ≡ k
lap_turn k lap n m e h =
    (let shifted : 1 + k + lap * n - 1 ≡ k + lap * n = omega arith in ap (λ x. x % m) shifted)
    ∙ ap (λ x. (k + lap * n) % x) e
    ∙ add-mul-mod_self_right k lap n
    ∙ mod-eq_of_lt (omega (arith, h, e))

leader_at :
    (cfg : Config) (target name k lap n : ℕ)
    → length (resolver_schedule cfg.committee (cfg.seed target) target) ≡ n
    → k < length (resolver_schedule cfg.committee (cfg.seed target) target)
    → get_elem? (resolver_schedule cfg.committee (cfg.seed target) target) k ≡ some name
    → resolution_leader cfg target (1 + k + lap * n) ≡ some name
unfolding resolution_leader
leader_at cfg target name k lap n size l g =
    let plan = resolver_schedule cfg.committee (cfg.seed target) target in
    ap (get_elem? plan) (lap_turn k lap n (length plan) size l) ∙ g

-- A member is a name of the committee.
abbrev pub IsMember : PublicKey → Config → Type 0
IsMember name cfg = 0 < count (λ x. x == name) (keys cfg.committee.authorities)

-- Every member of a committee of `n` names has a turn in every target's schedule: there is a
-- `k < n` such that it is the primary of the resolver views `1 + k`, `1 + k + n`, `1 + k + 2 n` and
-- so on, whatever the seed of the target.
pub leads-IsMember :
    (cfg : Config) (target name : ℕ)
    → IsMember name cfg
    → (k : ℕ) × (k < length (keys cfg.committee.authorities))
      × ((lap : ℕ)
          → leads cfg target (1 + k + lap * length (keys cfg.committee.authorities)) name ≡ true)
leads-IsMember cfg target name h =
    let c = cfg.committee in
    let plan = resolver_schedule c (cfg.seed target) target in
    let size = length-schedule c (cfg.seed target) target in
    let (k, l, g) =
      place_of name plan
        (omega (arith, h, count-schedule (λ x. x == name) c (cfg.seed target) target)) in
    (
      k,
      omega (arith, l, size),
      λ lap. rw (leader_at cfg target name k lap _ size l g, leads) ((==_iff name name).1 refl),
    )
