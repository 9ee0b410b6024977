-- ===== src/Threshold.antt =====
-- primary/src/vantage/threshold.rs: party-count thresholds.
use vantage_bft.Base.{ℕ, ◌+◌, ◌-◌, ◌*◌, ◌/◌, ◌≤◌, ◌<◌, arith}

pub record Thresholds : Type 0 where
  pub n : ℕ
  pub f_parties : ℕ
  pub f_plus_1_parties : ℕ
  pub n_minus_f_parties : ℕ

-- `n` is the size of a committee, which is not empty: `n - 1` does not underflow.
unfoldable pub from_party_count : ℕ → Thresholds
from_party_count n =
    let f_parties = (n - 1) / 3 in
    record {
      n = n;
      f_parties = f_parties;
      f_plus_1_parties = f_parties + 1;
      n_minus_f_parties = n - f_parties;
    }

pub record IsBft (t : Thresholds) : Type 0 where
  pub tolerates : 3 * t.f_parties < t.n
  pub intersect : t.n + t.f_plus_1_parties ≤ t.n_minus_f_parties + t.n_minus_f_parties
  pub correct_in_quorum : t.f_plus_1_parties + t.f_parties ≤ t.n_minus_f_parties
  pub plus_one_fits : (1 ≤ t.f_plus_1_parties) × (t.f_plus_1_parties ≤ t.n_minus_f_parties)
  pub quorum_fits : t.n_minus_f_parties ≤ t.n

-- For every committee size `n ≥ 1`: `n > 3f`, two quorums of `n - f` parties share at least `f + 1`
-- of the `n` parties, every quorum holds `f + 1` parties beside any `f` faulty ones, and
-- `1 ≤ f + 1 ≤ n - f ≤ n`.
pub from_party_count-IsBft : (n : ℕ) → 1 ≤ n → IsBft (from_party_count n)
unfolding from_party_count
from_party_count-IsBft n h = record {
  tolerates = omega arith;
  intersect = omega arith;
  correct_in_quorum = omega arith;
  plus_one_fits = omega arith;
  quorum_fits = omega arith;
}
