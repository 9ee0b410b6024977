-- ===== src/Agb/Quorums.antt =====
-- Stake quorums of ready statements agree within a view (primary/src/vantage/agb.rs).
use vantage_bft.Base.{
  ℕ, ◌+◌, ◌^◌, ◌≤◌, ◌<◌, ◌≡◌, ◌⊎◌, refl, true, false, List, arith, u32, ◌==◌, ==_iff, Bool-cases,
  inl, inr,
}
use vantage_bft.Base.Map.{lookup}
use vantage_bft.Committee.{Committee, PublicKey, quorum_threshold, sum_stakes}
use vantage_bft.Committee.Census.{Distinct, census_disjoint}
use vantage_bft.Agb.Types.{View, Digest, ProposalOut, ReadyGrade}
use vantage_bft.Agb.State.{ReadyStatement, ViewState, new_config}
use vantage_bft.Agb.Monad.{state, init}
use vantage_bft.Agb.Engine.{Event, run}
use vantage_bft.Agb.Tallies.{
  IsTallied, readies, readies_one, readies_zero, ready_any, ready_one, ready_zero,
}
use vantage_bft.Agb.Tallies.Runs.{run-IsTallied}

leb_cases : (a b : ℕ) → (a ≤ b) ⊎ (b < a)
leb_cases a b = omega arith

-- Two quorums do not fit into the total.
two_quorums :
    (c : Committee) (x y : ℕ)
    → sum_stakes c.authorities < 2 ^ 31
    → x + y ≤ sum_stakes c.authorities
    → quorum_threshold c ≤ u32 x
    → quorum_threshold c ≤ u32 y
    → ⊥
unfolding quorum_threshold
two_quorums c x y small fits qx qy = omega arith

readies_apart :
    (d e : Digest)
    → (d == e) ≡ false
    → (st : ReadyStatement) → readies d st ≡ true
    → readies e st ≡ false
readies_apart d e h (ReadyStatement.graded p x g) r = ground arith
readies_apart d e h ReadyStatement.no_ready r = cc

grades_apart :
    (d e : Digest) (st : ReadyStatement) → readies_one d st ≡ true → readies_zero e st ≡ false
grades_apart d e (ReadyStatement.graded p x ReadyGrade.one) r = refl
grades_apart d e (ReadyStatement.graded p x g) r = cc
grades_apart d e ReadyStatement.no_ready r = cc

module _ (name : PublicKey) (c : Committee) (digest : ProposalOut → Digest) (delta : ℕ)
    (es : List Event) (v : View) (distinct : Distinct c.authorities)
    (small : sum_stakes c.authorities < 2 ^ 31)
    (live : (run (new_config name c digest delta) es init).engine.min_live_view ≤ v) where
  abbrev reached : ViewState
  reached = state v (run (new_config name c digest delta) es init)

  tallied : IsTallied c.authorities reached
  unfolding new_config
  tallied = run-IsTallied (new_config name c digest delta) distinct es v live

  -- For an engine with the committee's quorum, distinct names and a total stake below 2^31, after
  -- any events and for every view that is not pruned: two digests whose ready tallies of any grade
  -- reach the quorum are the same.
  pub run-ready_any :
      (d e : Digest)
      → quorum_threshold c ≤ ready_any (lookup d reached.ready_tallies)
      → quorum_threshold c ≤ ready_any (lookup e reached.ready_tallies)
      → d ≡ e
  run-ready_any d e qd qe = elim (Bool-cases (d == e)) [
    | inl same ↦ (==_iff d e).0 same
    | inr apart ↦ absurd (
        two_quorums c _ _ small
          (census_disjoint _ _ c.authorities reached.ready_statements (readies_apart d e apart))
          (rw (← tallied.readies.any d) qd) (rw (← tallied.readies.any e) qe))
  ]

  -- For an engine with the committee's quorum, distinct names and a total stake below 2^31, after
  -- any events and for every view that is not pruned: when the grade-1 ready tally of a digest
  -- reaches the quorum, the grade-0 ready tally of every digest, the same one included, is below it.
  pub run-ready_one :
      (d e : Digest)
      → quorum_threshold c ≤ ready_one (lookup d reached.ready_tallies)
      → ready_zero (lookup e reached.ready_tallies) < quorum_threshold c
  run-ready_one d e qd =
      elim (leb_cases (quorum_threshold c) (ready_zero (lookup e reached.ready_tallies))) [
        | inl qe ↦ absurd (
            two_quorums c _ _ small
              (census_disjoint _ _ c.authorities reached.ready_statements (grades_apart d e))
              (rw (← tallied.readies.one d) qd) (rw (← tallied.readies.zero e) qe))
        | inr low ↦ low
      ]
