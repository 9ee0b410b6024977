-- ===== src/Pacemaker/Order.antt =====
-- The k-th largest wish (primary/src/vantage/pacemaker.rs).
use vantage_bft.Base.{
  ℕ, zero, suc, ◌+◌, ◌-◌, ◌≤◌, ◌<◌, ◌≡◌, refl, Bool, List, [], ◌∷◌, length, get_elem?, count, ltb,
  leb, if◌then◌else◌, arith,
}
use vantage_bft.Agb.Types.{View}
use vantage_bft.Pacemaker.{descending, insert_descending, kth_largest}
use mathlib.Core.Option.{get_or}

count-insert_descending :
    (p : View → Bool) (x : View) (ys : List View)
    → count p (insert_descending x ys) ≡ (if p x then 1 else 0) + count p ys
unfolding count insert_descending
count-insert_descending p x [] = refl
count-insert_descending p x (y ∷ ys) = ground (arith, count-insert_descending p x ys)

count-descending : (p : View → Bool) (xs : List View) → count p (descending xs) ≡ count p xs
unfolding count descending
count-descending p [] = refl
count-descending p (x ∷ xs) =
    ground (arith, count-insert_descending p x (descending xs), count-descending p xs)

-- No value after the head is above it.
abbrev Below : View → List View → Type 0
Below b [] = Unit
Below b (y ∷ ys) = (y ≤ b) × Below y ys

abbrev Falls : List View → Type 0
Falls [] = Unit
Falls (y ∷ ys) = Below y ys

insert_descending-Below :
    (b x : View) (ys : List View) → x ≤ b → Below b ys → Below b (insert_descending x ys)
unfolding insert_descending
insert_descending-Below b x [] h w = (h, tt)
insert_descending-Below b x (y ∷ ys) h w = ground (arith, insert_descending-Below y x ys)

insert_descending-Falls : (x : View) (ys : List View) → Falls ys → Falls (insert_descending x ys)
unfolding insert_descending
insert_descending-Falls x [] w = tt
insert_descending-Falls x (y ∷ ys) w = ground (arith, insert_descending-Below y x ys)

descending-Falls : (xs : List View) → Falls (descending xs)
unfolding descending
descending-Falls [] = tt
descending-Falls (x ∷ xs) = insert_descending-Falls x (descending xs) (descending-Falls xs)

-- In a falling list the value at `i` has more than `i` values at or above it, and at most `i` above.
abbrev at_or_above : View → List View → ℕ
at_or_above v ys = count (λ y. leb v y) ys

abbrev above : View → List View → ℕ
above v ys = count (λ y. ltb v y) ys

none_above : (b v : View) (ys : List View) → b ≤ v → Below b ys → above v ys ≡ 0
unfolding count
none_above b v [] h w = refl
none_above b v (y ∷ ys) h w = ground (arith, none_above y v ys)

value_fits : (b : View) (ys : List View) (i : ℕ) → Below b ys → get_or (get_elem? ys i) 0 ≤ b
value_fits b [] i w = omega arith
value_fits b (y ∷ ys) zero w = w.0
value_fits b (y ∷ ys) (suc i) w = omega (arith, value_fits y ys i w.1, w.0)

rank_low :
    (ys : List View) (i : ℕ)
    → Falls ys
    → i < length ys
    → i < at_or_above (get_or (get_elem? ys i) 0) ys
unfolding count
rank_low [] i w h = omega arith
rank_low (y ∷ ys) zero w h = ground arith
rank_low (y ∷ []) (suc i) w h = omega arith
rank_low (y ∷ z ∷ ys) (suc i) w h =
    ground
      (arith, rank_low (z ∷ ys) i w.1, value_fits y (z ∷ ys) (suc i) w, value_fits y (z ∷ ys) i w)

rank_high :
    (ys : List View) (i : ℕ) → Falls ys → i < length ys → above (get_or (get_elem? ys i) 0) ys ≤ i
unfolding count
rank_high [] i w h = omega arith
rank_high (y ∷ ys) zero w h = ground (arith, none_above y y ys)
rank_high (y ∷ []) (suc i) w h = omega arith
rank_high (y ∷ z ∷ ys) (suc i) w h = ground (arith, rank_high (z ∷ ys) i w.1)

length-insert_descending :
    (x : View) (ys : List View) → length (insert_descending x ys) ≡ suc (length ys)
unfolding insert_descending
length-insert_descending x [] = refl
length-insert_descending x (y ∷ ys) = ground (arith, length-insert_descending x ys)

length-descending : (xs : List View) → length (descending xs) ≡ length xs
unfolding descending
length-descending [] = refl
length-descending (x ∷ xs) =
    omega (arith, length-insert_descending x (descending xs), length-descending xs)

-- For `k` from 1 to the number of wishes: at least `k` of the wishes reach the `k`th largest, and
-- fewer than `k` are above it.
pub kth_largest_lem :
    (wishes : List View) (k : ℕ)
    → 1 ≤ k
    → k ≤ length wishes
    → (k ≤ count (λ y. leb (kth_largest wishes k) y) wishes)
      × (count (λ y. ltb (kth_largest wishes k) y) wishes < k)
unfolding kth_largest
kth_largest_lem wishes k low high = (
  omega (
    arith,
    rank_low (descending wishes) (k - 1) (descending-Falls wishes) within,
    count-descending (λ y. leb (kth_largest wishes k) y) wishes,
  ),
  omega (
    arith,
    rank_high (descending wishes) (k - 1) (descending-Falls wishes) within,
    count-descending (λ y. ltb (kth_largest wishes k) y) wishes,
  ),
)
  where
    within : k - 1 < length (descending wishes)
    within = omega (arith, length-descending wishes)
