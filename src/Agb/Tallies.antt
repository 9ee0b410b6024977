-- ===== src/Agb/Tallies.antt =====
-- What the counters and tallies of a view should hold, by its statements
-- (primary/src/vantage/agb.rs).
pub mod Echoes
pub mod Readies
pub mod Runs
use vantage_bft.Base.{ℕ, ◌≤◌, ◌≡◌, Bool, true, false, not, ◌&&◌, Option, none, some, u32, ◌==◌}
use vantage_bft.Base.Map
use vantage_bft.Base.Map.{Map, lookup}
use vantage_bft.Committee.{Stake}
use vantage_bft.Committee.Census.{census}
use vantage_bft.Agb.Types.{Digest, ReadyGrade}
use vantage_bft.Agb.State.{EchoStatement, EchoTally, ReadyStatement, ReadyTally, ViewState}

-- An echo of the digest with grade 1, and one with another grade.
abbrev pub echoes_one : Digest → EchoStatement → Bool
echoes_one d (EchoStatement.graded p e g o) = e == d && g == 1
echoes_one d EchoStatement.skip = false

abbrev pub echoes_zero : Digest → EchoStatement → Bool
echoes_zero d (EchoStatement.graded p e g o) = e == d && not (g == 1)
echoes_zero d EchoStatement.skip = false

abbrev pub echo_skips : EchoStatement → Bool
echo_skips (EchoStatement.graded p e g o) = false
echo_skips EchoStatement.skip = true

abbrev pub one_stake : Option EchoTally → ℕ
one_stake none = 0
one_stake (some t) = t.grade_one

abbrev pub zero_stake : Option EchoTally → ℕ
zero_stake none = 0
zero_stake (some t) = t.grade_zero

abbrev pub one_parties : Option EchoTally → ℕ
one_parties none = 0
one_parties (some t) = t.grade_one_parties

abbrev pub zero_parties : Option EchoTally → ℕ
zero_parties none = 0
zero_parties (some t) = t.grade_zero_parties

-- The echo-stage tallies and counters, against the echo-stage statements.
pub record EchoesTally (authorities : Map Stake) (s : ViewState) : Type 0 where
  pub one :
      (d : Digest)
      → one_stake (lookup d s.echo_tallies)
        ≡ u32 (census (echoes_one d) authorities s.echo_statements)
  pub zero :
      (d : Digest)
      → zero_stake (lookup d s.echo_tallies)
        ≡ u32 (census (echoes_zero d) authorities s.echo_statements)
  pub one_count :
      (d : Digest)
      → one_parties (lookup d s.echo_tallies) ≡ Map.count (echoes_one d) s.echo_statements
  pub zero_count :
      (d : Digest)
      → zero_parties (lookup d s.echo_tallies) ≡ Map.count (echoes_zero d) s.echo_statements
  pub skips : s.echo_skip_parties ≡ Map.count echo_skips s.echo_statements

-- A ready of the digest, of any grade, of grade 1 and of grade 0.
abbrev pub readies : Digest → ReadyStatement → Bool
readies d (ReadyStatement.graded p e g) = e == d
readies d ReadyStatement.no_ready = false

abbrev pub readies_one : Digest → ReadyStatement → Bool
readies_one d (ReadyStatement.graded p e ReadyGrade.one) = e == d
readies_one d st = false

abbrev pub readies_zero : Digest → ReadyStatement → Bool
readies_zero d (ReadyStatement.graded p e ReadyGrade.zero) = e == d
readies_zero d st = false

-- Grade-0 or no-ready; no-ready; all but grade 1.
abbrev pub rejects : ReadyStatement → Bool
rejects (ReadyStatement.graded p e ReadyGrade.zero) = true
rejects (ReadyStatement.graded p e g) = false
rejects ReadyStatement.no_ready = true

abbrev pub refuses : ReadyStatement → Bool
refuses (ReadyStatement.graded p e g) = false
refuses ReadyStatement.no_ready = true

abbrev pub not_one : ReadyStatement → Bool
not_one (ReadyStatement.graded p e ReadyGrade.one) = false
not_one (ReadyStatement.graded p e g) = true
not_one ReadyStatement.no_ready = true

abbrev pub ready_any : Option ReadyTally → ℕ
ready_any none = 0
ready_any (some t) = t.any

abbrev pub ready_one : Option ReadyTally → ℕ
ready_one none = 0
ready_one (some t) = t.grade_one

abbrev pub ready_zero : Option ReadyTally → ℕ
ready_zero none = 0
ready_zero (some t) = t.grade_zero

-- The ready-stage tallies and counters, against the ready-stage statements. A mix that has refined
-- to grade 1 stays in the count of parties without grade 1, so that one is a bound.
pub record ReadiesTally (authorities : Map Stake) (s : ViewState) : Type 0 where
  pub any :
      (d : Digest)
      → ready_any (lookup d s.ready_tallies)
        ≡ u32 (census (readies d) authorities s.ready_statements)
  pub one :
      (d : Digest)
      → ready_one (lookup d s.ready_tallies)
        ≡ u32 (census (readies_one d) authorities s.ready_statements)
  pub zero :
      (d : Digest)
      → ready_zero (lookup d s.ready_tallies)
        ≡ u32 (census (readies_zero d) authorities s.ready_statements)
  pub rejecters : s.ready_zero_or_noready_parties ≡ Map.count rejects s.ready_statements
  pub refusers : s.noready_parties ≡ Map.count refuses s.ready_statements
  pub doubters : Map.count not_one s.ready_statements ≤ s.ready_non_grade_one_parties
  pub doubters_fit : s.ready_non_grade_one_parties ≤ Map.count (λ st. true) s.ready_statements

-- The two invariants of a view's census.
pub record IsTallied (authorities : Map Stake) (s : ViewState) : Type 0 where
  pub echoes : EchoesTally authorities s
  pub readies : ReadiesTally authorities s
