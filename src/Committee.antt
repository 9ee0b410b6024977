-- ===== src/Committee.antt =====
-- config/src/lib.rs: the committee with its stakes and stake thresholds.
pub mod Census
unfoldable pub use Census.{sum_stakes}
use vantage_bft.Base.{ℕ, ◌+◌, ◌*◌, ◌/◌, length, u32}
use vantage_bft.Base.Map.{Map, lookup}
use mathlib.Core.Option.{get_or}

-- Names are public keys. Only their equality and the order of the `BTreeMap` are used.
abbrev pub PublicKey : Type 0
PublicKey = ℕ

-- `u32`
abbrev pub Stake : Type 0
Stake = ℕ

-- Of an authority only the stake is modelled, and not its addresses.
pub record Committee : Type 0 where
  pub authorities : Map Stake

unfoldable pub size : Committee → ℕ
size c = length c.authorities

unfoldable pub stake : Committee → PublicKey → Stake
unfolding lookup
stake c name = get_or (lookup name c.authorities) 0

-- `values().map(|x| x.stake).sum()` in `u32`
unfoldable pub total_votes : Committee → Stake
unfolding sum_stakes
total_votes c = u32 (sum_stakes c.authorities)

unfoldable pub quorum_threshold : Committee → Stake
unfolding total_votes
quorum_threshold c = u32 (2 * total_votes c) / 3 + 1

-- `div_ceil(3)`
unfoldable pub validity_threshold : Committee → Stake
unfolding total_votes
validity_threshold c = (total_votes c + 2) / 3

unfoldable pub fast_threshold : Committee → Stake
unfolding total_votes
fast_threshold c = total_votes c
