-- ===== src/Leader/Schedule.antt =====
-- The schedule of the slots' leaders (primary/src/leader.rs).
use vantage_bft.Base.{
  ℕ, suc, ◌+◌, ◌-◌, ◌*◌, ◌/◌, ◌%◌, ◌^◌, ◌≤◌, ◌<◌, ◌≡◌, refl, sym, ◌∙◌, ap, [], ◌∷◌, length,
  get_elem?, arith, u64,
}
use vantage_bft.Base.Map.{Map}
use vantage_bft.Committee.{Committee, size}
use vantage_bft.Leader.{at, get_leader, keys, leader_position, slot_offset, wrapped_index}
use native.Mathlib.Nat.{
  add-mul-mod_self_right, mod-add-div', mod-eq_of_lt, mod-lt, mod-mod, add-mod, mul-le-mul, add-mul,
  mul_right_comm,
}

length-keys : (m : Map ℕ) → length (keys m) ≡ length m
unfolding keys
length-keys [] = refl
length-keys ((name, s) ∷ m) = ap suc (length-keys m)

mul-mod_left : (a b n : ℕ) → a % n * b % n ≡ a * b % n
mul-mod_left a b n =
    sym (add-mul-mod_self_right (a % n * b) (a / n * b) n)
    ∙ ap (λ x. x % n)
        (ap (λ y. a % n * b + y) (mul_right_comm (a / n) b n)
          ∙ sym (add-mul (a % n) (a / n * n) b)
          ∙ ap (λ x. x * b) (mod-add-div' a n))

product_fits : (a b n : ℕ) → a < n → b < n → n < 2 ^ 32 → a * b < 2 ^ 64
product_fits a b n ha hb hn = omega (arith, below)
  where
    below : a * b ≤ 4294967295 * 4294967295
    below =
        mul-le-mul {n₂ = 4294967295} {m₂ = 4294967295} (omega (arith, ha, hn))
          (omega (arith, hb, hn))

-- For a committee of `n` authorities, `1 ≤ n < 2^32`, and every slot and view: the leader is the
-- authority at `(view + slot * f) mod n` in the order of names, where `f = (n - 1) / 3`, although the
-- source computes in `u64`.
pub get_leader_lem :
    (c : Committee) (slot view : ℕ)
    → 1 ≤ size c
    → size c < 2 ^ 32
    → get_leader c slot view
      ≡ get_elem? (keys c.authorities) ((view + slot * ((size c - 1) / 3)) % size c)
unfolding get_leader at wrapped_index leader_position slot_offset size
get_leader_lem c slot view low high = ap (get_elem? (keys c.authorities)) (
    ap (λ m. leader_position c slot view % m) (length-keys c.authorities)
    ∙ ap (λ x. x % n % n) fits
    ∙ mod-mod (view % n + shift) n
    ∙ sums)
  where
    n : ℕ
    n = size c

    f : ℕ
    f = (n - 1) / 3

    shift : ℕ
    shift = slot % n * f % n

    within : f < n
    within = omega (arith, low)

    fits : u64 (view % n + (u64 (slot % n * (f % n)) % n)) ≡ view % n + shift
    fits =
        ap (λ g. u64 (view % n + u64 (slot % n * g) % n)) (mod-eq_of_lt within)
        ∙ ap (λ x. u64 (view % n + x % n))
            (mod-eq_of_lt (product_fits (slot % n) f n (mod-lt slot low) within high))
        ∙ mod-eq_of_lt (omega (arith, mod-lt view low, mod-lt (slot % n * f) low, high))

    sums : (view % n + shift) % n ≡ (view + slot * f) % n
    sums = ap (λ x. (view % n + x) % n) (mul-mod_left slot f n) ∙ sym (add-mod view (slot * f) n)
