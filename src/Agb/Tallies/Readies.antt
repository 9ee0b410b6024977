-- ===== src/Agb/Tallies/Readies.antt =====
-- Counting a ready-stage statement, or the refinement of a mix, keeps the tallies true.
use vantage_bft.Base.{◌≡◌, true, none, some, arith, Option-cases, Bool-cases, inl, inr}
use vantage_bft.Base.Map.{Map, lookup, lookup-insert, count-insert, count-replace}
use vantage_bft.Committee.{PublicKey, Stake}
use vantage_bft.Committee.Census.{Distinct, stake_of, census-insert}
use vantage_bft.Agb.Types.{ReadyGrade}
use vantage_bft.Agb.State.{ReadyStatement, ViewState}
use vantage_bft.Agb.Statements.{record_ready, refine_ready, valid_refinement, count_ready}
use vantage_bft.Agb.Tallies.{
  ReadiesTally, readies, readies_one, readies_zero, rejects, refuses, not_one,
}

module _ (A : Map Stake) (distinct : Distinct A) where
  record_ready-ReadiesTally :
      (sender : PublicKey) (st : ReadyStatement) (s : ViewState)
      → lookup sender s.ready_statements ≡ none
      → ReadiesTally A s
      → ReadiesTally A (record_ready (stake_of A sender) sender st s)
  unfolding record_ready
  record_ready-ReadiesTally k (ReadyStatement.graded p e g) s fresh h =
      let st = ReadyStatement.graded p e g in
      let m = s.ready_statements in
      record {
        any = λ d.
            rw lookup-insert
              (ground (arith, h.any d, h.any e, census-insert (readies d) A k st m distinct));
        one = λ d.
            rw lookup-insert
              (ground (arith, h.one d, h.one e, census-insert (readies_one d) A k st m distinct));
        zero = λ d.
            rw lookup-insert (
              ground (arith, h.zero d, h.zero e, census-insert (readies_zero d) A k st m distinct));
        rejecters = ground (arith, h.rejecters, count-insert rejects k st m fresh);
        refusers = ground (arith, h.refusers, count-insert refuses k st m fresh);
        doubters = ground (arith, h.doubters, count-insert not_one k st m fresh);
        doubters_fit =
            ground
              (arith, h.doubters_fit, count-insert (λ (x : ReadyStatement). true) k st m fresh);
      }
  record_ready-ReadiesTally k ReadyStatement.no_ready s fresh h =
      let st = ReadyStatement.no_ready in
      let m = s.ready_statements in
      record {
        any = λ d. ground (arith, h.any d, census-insert (readies d) A k st m distinct);
        one = λ d. ground (arith, h.one d, census-insert (readies_one d) A k st m distinct);
        zero = λ d. ground (arith, h.zero d, census-insert (readies_zero d) A k st m distinct);
        rejecters = ground (arith, h.rejecters, count-insert rejects k st m fresh);
        refusers = ground (arith, h.refusers, count-insert refuses k st m fresh);
        doubters = ground (arith, h.doubters, count-insert not_one k st m fresh);
        doubters_fit =
            ground
              (arith, h.doubters_fit, count-insert (λ (x : ReadyStatement). true) k st m fresh);
      }

  refine_ready-ReadiesTally :
      (sender : PublicKey) (old st : ReadyStatement) (s : ViewState)
      → lookup sender s.ready_statements ≡ some old
      → valid_refinement old st ≡ true
      → ReadiesTally A s
      → ReadiesTally A (refine_ready (stake_of A sender) sender st s).1
  unfolding refine_ready valid_refinement
  refine_ready-ReadiesTally k (ReadyStatement.graded q x ReadyGrade.mix)
        (ReadyStatement.graded p e ReadyGrade.mix) s at v h =
      cc
  refine_ready-ReadiesTally k (ReadyStatement.graded q x ReadyGrade.mix)
        (ReadyStatement.graded p e g) s at v h =
      elim (Option-cases (lookup e s.ready_tallies)) [
        | inl gone ↦ rw gone h
        | inr (t, found) ↦
            let st = ReadyStatement.graded p e g in
            let old = ReadyStatement.graded q x ReadyGrade.mix in
            let m = s.ready_statements in
            rw found (record {
              any = λ d.
                  rw lookup-insert
                    (ground (arith, h.any d, h.any e, census-insert (readies d) A k st m distinct));
              one = λ d. rw lookup-insert (
                  ground
                    (arith, h.one d, h.one e, census-insert (readies_one d) A k st m distinct));
              zero = λ d. rw lookup-insert (
                  ground
                    (arith, h.zero d, h.zero e, census-insert (readies_zero d) A k st m distinct));
              rejecters = ground (arith, h.rejecters, count-replace rejects k st old m at);
              refusers = ground (arith, h.refusers, count-replace refuses k st old m at);
              doubters = ground (arith, h.doubters, count-replace not_one k st old m at);
              doubters_fit = ground (
                arith,
                h.doubters_fit,
                count-replace (λ (x : ReadyStatement). true) k st old m at,
              );
            })
      ]
  refine_ready-ReadiesTally k old st s at v h = cc

  pub count_ready-ReadiesTally :
      (sender : PublicKey) (st : ReadyStatement) (s : ViewState)
      → ReadiesTally A s
      → ReadiesTally A (count_ready (stake_of A sender) sender st s).1
  unfolding count_ready
  count_ready-ReadiesTally k st s h = elim (Option-cases (lookup k s.ready_statements)) [
    | inl e ↦ rw e (record_ready-ReadiesTally k st s e h)
    | inr (old, e) ↦ elim (Bool-cases (valid_refinement old st)) [
      | inl v ↦ rw (e, v) (refine_ready-ReadiesTally k old st s e v h)
      | inr v ↦ rw (e, v) h
    ]
  ]
