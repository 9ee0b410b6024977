-- ===== src/Agb/Tallies/Echoes.antt =====
-- Counting an echo-stage statement keeps the tallies true to the statements.
use vantage_bft.Base.{◌≡◌, none, arith, Option-cases, inl, inr}
use vantage_bft.Base.Map.{Map, lookup, lookup-insert, count-insert}
use vantage_bft.Committee.{PublicKey, Stake}
use vantage_bft.Committee.Census.{Distinct, stake_of, census-insert}
use vantage_bft.Agb.State.{EchoStatement, ViewState}
use vantage_bft.Agb.Statements.{record_echo, count_echo}
use vantage_bft.Agb.Tallies.{EchoesTally, echoes_one, echoes_zero, echo_skips}

module _ (A : Map Stake) (distinct : Distinct A) where
  record_echo-EchoesTally :
      (sender : PublicKey) (st : EchoStatement) (s : ViewState)
      → lookup sender s.echo_statements ≡ none
      → EchoesTally A s
      → EchoesTally A (record_echo (stake_of A sender) sender st s)
  unfolding record_echo
  record_echo-EchoesTally k (EchoStatement.graded p e g o) s fresh h =
      let st = EchoStatement.graded p e g o in
      let m = s.echo_statements in
      record {
        one = λ d.
            rw lookup-insert
              (ground (arith, h.one d, h.one e, census-insert (echoes_one d) A k st m distinct));
        zero = λ d.
            rw lookup-insert
              (ground (arith, h.zero d, h.zero e, census-insert (echoes_zero d) A k st m distinct));
        one_count = λ d. rw lookup-insert (
            ground (arith, h.one_count d, h.one_count e, count-insert (echoes_one d) k st m fresh));
        zero_count = λ d. rw lookup-insert (
            ground
              (arith, h.zero_count d, h.zero_count e, count-insert (echoes_zero d) k st m fresh));
        skips = ground (arith, h.skips, count-insert echo_skips k st m fresh);
      }
  record_echo-EchoesTally k EchoStatement.skip s fresh h =
      let m = s.echo_statements in
      let st = EchoStatement.skip in
      record {
        one = λ d. ground (arith, h.one d, census-insert (echoes_one d) A k st m distinct);
        zero = λ d. ground (arith, h.zero d, census-insert (echoes_zero d) A k st m distinct);
        one_count = λ d. ground (arith, h.one_count d, count-insert (echoes_one d) k st m fresh);
        zero_count = λ d. ground (arith, h.zero_count d, count-insert (echoes_zero d) k st m fresh);
        skips = ground (arith, h.skips, count-insert echo_skips k st m fresh);
      }

  pub count_echo-EchoesTally :
      (sender : PublicKey) (st : EchoStatement) (s : ViewState)
      → EchoesTally A s
      → EchoesTally A (count_echo (stake_of A sender) sender st s).1
  unfolding count_echo
  count_echo-EchoesTally k st s h = elim (Option-cases (lookup k s.echo_statements)) [
    | inl e ↦ rw e (record_echo-EchoesTally k st s e h)
    | inr (old, e) ↦ rw e h
  ]
