-- ===== src/Leader.antt =====
-- primary/src/leader.rs: round-robin schedules over the committee's sorted authorities.
pub mod Schedule
use vantage_bft.Base.{ℕ, ◌+◌, ◌-◌, ◌*◌, ◌/◌, ◌%◌, Option, List, [], ◌∷◌, length, get_elem?, u64}
use vantage_bft.Base.Map.{Map}
use vantage_bft.Committee.{Committee, PublicKey, size}

unfoldable pub keys : Map ℕ → List PublicKey
keys [] = []
keys ((name, s) ∷ rest) = name ∷ keys rest

-- `position % authority_count as u64`; the committee is not empty.
unfoldable pub wrapped_index : ℕ → ℕ → ℕ
wrapped_index count position = position % count

-- `RoundRobin::at`. `none` is the panic of an index out of range.
unfoldable pub at : Committee → ℕ → Option PublicKey
unfolding keys wrapped_index
at c position =
    let authorities = keys c.authorities in
    get_elem? authorities (wrapped_index (length authorities) position)

unfoldable pub one_based : Committee → ℕ → Option PublicKey
unfolding at
one_based c round = at c (round - 1)

unfoldable pub slot_offset : Committee → ℕ
unfolding size
slot_offset c = (size c - 1) / 3

-- `u64` arithmetic, which wraps where it overflows.
unfoldable pub leader_position : Committee → (slot view : ℕ) → ℕ
unfolding slot_offset size
leader_position c slot view =
    let count = size c in
    let slot_shift = u64 ((slot % count) * (slot_offset c % count)) % count in
    u64 (view % count + slot_shift) % count

unfoldable pub get_leader : Committee → (slot view : ℕ) → Option PublicKey
unfolding leader_position at
get_leader c slot view = at c (leader_position c slot view)
