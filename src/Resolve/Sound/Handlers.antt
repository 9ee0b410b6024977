-- ===== src/Resolve/Sound/Handlers.antt =====
-- Every handler keeps what the steps keep, and so does every run.
use vantage_bft.Base.{List, [], ◌∷◌}
use vantage_bft.Agb.Types.{View, Digest}
use vantage_bft.Resolve.Types.{
  ResolverView, TimerKind, Suggest, Proof, Witness, Statement, Done, ValueFetch, ValueServe, Vote,
}
use vantage_bft.Resolve.State.{Config, Instance}
use vantage_bft.Resolve.Targets.{bar_full_selection, on_timer}
use vantage_bft.Resolve.Evidence.{suggestion_ok, on_suggest, on_proof, retry_target, on_witness}
use vantage_bft.Resolve.Handlers.{
  on_vote, reopen_views, echo_views, retry_external_validity, on_statement, on_done, on_value_fetch,
  on_value_serve,
}
use vantage_bft.Resolve.Sound.{Keeps}
use vantage_bft.Resolve.Sound.Rules.{Keeps-bind}
use vantage_bft.Resolve.Sound.Laws.{StepLaws}
use vantage_bft.Resolve.Sound.Decides.{remember_entry-Keeps}
use vantage_bft.Resolve.Sound.Phases.{
  step_rules, try_echo-Keeps, recheck_backing-Keeps, recheck_done-Keeps, advance_view-Keeps,
}
use vantage_bft.Resolve.Sound.Wishes.{
  try_primary_propose-Keeps, arm-Keeps, raise_own_wish-Keeps, recheck_wishes-Keeps,
}

module _ {cfg : Config} {S : Instance → Instance → Type 0} (L : StepLaws S) where
  open L use {
    preorder, at_take_wish, at_with_wishes, at_with_candidates, at_put_suggestion, at_take_proof,
    at_put_witness, at_take_vote, at_reopen_vote, at_take_statement, at_put_done,
  }

  pub on_vote-Keeps :
      (t : View) (v : ResolverView) (d : Digest) (vote : Vote)
      → Keeps cfg S (on_vote cfg t v d vote)
  unfolding on_vote
  on_vote-Keeps t v d vote =
      search (step_rules, preorder, at_take_vote, try_echo-Keeps, advance_view-Keeps) depth 14

  reopen_views-Keeps : (ts : List View) → Keeps cfg S (reopen_views cfg ts)
  unfolding reopen_views
  reopen_views-Keeps [] = search (step_rules, preorder)
  reopen_views-Keeps (t ∷ ts) = Keeps-bind cfg S preorder _ _ (search (step_rules, preorder)) (λ v.
      Keeps-bind cfg S preorder _ _ (search (step_rules, preorder, at_reopen_vote)) (λ again.
        Keeps-bind cfg S preorder _ _ (reopen_views-Keeps ts)
          (λ more. search (step_rules, preorder))))

  echo_views-Keeps : (vs : List (View × ResolverView)) → Keeps cfg S (echo_views cfg vs)
  unfolding echo_views
  echo_views-Keeps [] = search (step_rules, preorder)
  echo_views-Keeps ((t, v) ∷ vs) =
      Keeps-bind cfg S preorder _ _ (try_echo-Keeps L t v) (λ u. echo_views-Keeps vs)

  pub retry_external_validity-Keeps : Keeps cfg S (retry_external_validity cfg)
  unfolding retry_external_validity
  retry_external_validity-Keeps =
      search (step_rules, preorder, reopen_views-Keeps, echo_views-Keeps) depth 10

  pub on_statement-Keeps : (m : Statement) → Keeps cfg S (on_statement cfg m)
  unfolding on_statement
  on_statement-Keeps m =
      search
        (
          step_rules, preorder, at_take_statement, try_primary_propose-Keeps, try_echo-Keeps,
          advance_view-Keeps,
        )
        depth 24

  pub on_done-Keeps : (m : Done) → Keeps cfg S (on_done cfg m)
  unfolding on_done
  on_done-Keeps m =
      search (step_rules, preorder, remember_entry-Keeps, at_put_done, recheck_done-Keeps) depth 20

  pub on_value_fetch-Keeps : (m : ValueFetch) → Keeps cfg S (on_value_fetch cfg m)
  unfolding on_value_fetch
  on_value_fetch-Keeps m = search (step_rules, preorder) depth 14

  retry_target-Keeps : (t : View) → Keeps cfg S (retry_target cfg t)
  unfolding retry_target
  retry_target-Keeps t =
      search
        (
          step_rules, preorder, try_primary_propose-Keeps, try_echo-Keeps, advance_view-Keeps,
          recheck_done-Keeps,
        )
        depth 16

  pub on_value_serve-Keeps : (m : ValueServe) → Keeps cfg S (on_value_serve cfg m)
  unfolding on_value_serve
  on_value_serve-Keeps m =
      search (step_rules, preorder, remember_entry-Keeps, retry_target-Keeps) depth 16

  suggestion_ok-Keeps : (m : Suggest) → Keeps cfg S (suggestion_ok cfg m)
  unfolding suggestion_ok
  suggestion_ok-Keeps m = search (step_rules, preorder, remember_entry-Keeps) depth 10

  pub on_suggest-Keeps : (m : Suggest) → Keeps cfg S (on_suggest cfg m)
  unfolding on_suggest
  on_suggest-Keeps m =
      search
        (step_rules, preorder, suggestion_ok-Keeps, at_put_suggestion, try_primary_propose-Keeps)
        depth 20

  pub on_proof-Keeps : (m : Proof) → Keeps cfg S (on_proof cfg m)
  unfolding on_proof
  on_proof-Keeps m = search (step_rules, preorder, at_take_proof, try_echo-Keeps) depth 16

  pub on_witness-Keeps : (m : Witness) → Keeps cfg S (on_witness cfg m)
  unfolding on_witness
  on_witness-Keeps m =
      search
        (
          step_rules, preorder, remember_entry-Keeps, at_put_witness, recheck_backing-Keeps,
          advance_view-Keeps, retry_target-Keeps,
        )
        depth 24

  pub on_timer-Keeps :
      (t : View) (v : ResolverView) (k : TimerKind) → Keeps cfg S (on_timer cfg t v k)
  unfolding on_timer
  on_timer-Keeps t v k =
      search (step_rules, preorder, arm-Keeps, raise_own_wish-Keeps, recheck_wishes-Keeps) depth 16

  pub bar_full_selection-Keeps : (t : View) → Keeps cfg S (bar_full_selection cfg t)
  unfolding bar_full_selection
  bar_full_selection-Keeps t = search (step_rules, preorder) depth 12
