-- ===== src/Agb/Evolution/Handlers.antt =====
-- Every handler of the engine respects a relation that the steps keep, and so does every run.
use vantage_bft.Base.{
  ℕ, ◌≡◌, Bool, true, Option, none, some, List, [], ◌∷◌, arith, ==-refl, not, Bool-cases, inl, inr,
}
use vantage_bft.Agb.Types.{View, Digest, ProposalOut, ResolutionEntry}
use vantage_bft.Agb.Formed.{proposal_formed}
use vantage_bft.Agb.State.{Config, Fixed, ViewState}
use vantage_bft.Agb.Votes.{LaneView, MetaEntryStatus, claim_non_skip}
use vantage_bft.Agb.Monad.{World, ◌>>=◌, output, state, put_state, on_state, modify}
use vantage_bft.Agb.Meta.{
  claim_values, accept_aux, try_meta_ok, positive_gate_holds, decide_vote,
  try_direct_resolution_vote,
}
use vantage_bft.Agb.Handlers.{
  is_unset, cached, canonical_proposal, mark_echo_sent, positive_echo, gate_fixed, recheck_gate,
  activate, arm_fallback, enter,
}
use vantage_bft.Agb.Receive.{
  announce_fixed, store_fixed, fix_proposal, reject_proposal, take_proposal,
}
use vantage_bft.Agb.Respects.{
  Evolves, Evolves-trans, Evolves-put_state, Respects, Respects-bind, Respects-output,
  Respects-modify, state-put_state,
}
use vantage_bft.Agb.Laws.{StepLaws}
use vantage_bft.Agb.Evolution.{
  step_rules, wish-Respects, count_echo_statement-Respects, record_lock-Respects,
  recheck_after_echo-Respects,
}

-- The view has fixed no proposal.
abbrev pub Unset : View → World → Type 0
Unset v w = is_unset (state v w).fixed ≡ true

pub state-put_self : (v : View) (s : ViewState) (w : World) → state v (put_state v s w) ≡ s
state-put_self v s w = rw (state-put_state v v s w, ==-refl v)

cached-fixed : (cfg : Config) (p : ProposalOut) (s : ViewState) → (cached cfg p s).1.fixed ≡ s.fixed
unfolding cached
cached-fixed cfg p s = ground arith

module _ {cfg : Config} {S : ViewState → ViewState → Type 0} (L : StepLaws cfg S) where
  open L use {
    preorder, at_echo_sent, at_claim_non_skip, at_aux_accepted, at_start_activity, at_entered,
    at_cached, at_first_instant, at_fixed,
  }

  pub claim_values-Respects : (es : List ResolutionEntry) → Respects S (claim_values es)
  unfolding claim_values
  claim_values-Respects [] = search (step_rules, preorder)
  claim_values-Respects (ResolutionEntry.full u c t ∷ es) =
      Respects-bind preorder _ _ (Respects-modify preorder u claim_non_skip at_claim_non_skip)
        (λ _. claim_values-Respects es)
  claim_values-Respects (ResolutionEntry.core u c t ∷ es) =
      Respects-bind preorder _ _ (Respects-modify preorder u claim_non_skip at_claim_non_skip)
        (λ _. claim_values-Respects es)
  claim_values-Respects (ResolutionEntry.skip u ∷ es) = claim_values-Respects es

  pub accept_aux-Respects :
      (v : View) (es : List ResolutionEntry) → Respects S (accept_aux cfg v es)
  unfolding accept_aux
  accept_aux-Respects v es =
      search (step_rules, preorder, at_aux_accepted, claim_values-Respects) depth 10

  pub try_meta_ok-Respects :
      (v : View) (es : List ResolutionEntry) (lm : LaneView) → Respects S (try_meta_ok cfg v es lm)
  unfolding try_meta_ok
  try_meta_ok-Respects v es lm = search (step_rules, preorder, accept_aux-Respects) depth 14

  positive_gate_holds-Respects :
      (p : ProposalOut) (lm : LaneView) → Respects S (positive_gate_holds cfg p lm)
  unfolding positive_gate_holds
  positive_gate_holds-Respects p lm = search (step_rules, preorder, try_meta_ok-Respects) depth 10

  decide_vote-Respects :
      (e : ResolutionEntry) (st : MetaEntryStatus) → Respects S (decide_vote cfg e st)
  unfolding decide_vote
  decide_vote-Respects e MetaEntryStatus.never = search (step_rules, preorder)
  decide_vote-Respects e MetaEntryStatus.not_yet = search (step_rules, preorder)
  decide_vote-Respects e MetaEntryStatus.ok =
      search (step_rules, preorder, claim_values-Respects) depth 10

  pub try_direct_resolution_vote-Respects :
      (e : ResolutionEntry) (fresh : Bool) (lm : LaneView)
      → Respects S (try_direct_resolution_vote cfg e fresh lm)
  unfolding try_direct_resolution_vote
  try_direct_resolution_vote-Respects e fresh lm =
      search (step_rules, preorder, decide_vote-Respects) depth 16

  pub mark_echo_sent-Respects : (v : View) → Respects S (mark_echo_sent cfg v)
  unfolding mark_echo_sent
  mark_echo_sent-Respects v = search (step_rules, preorder, at_echo_sent)

  positive_echo-Respects :
      (v : View) (p : ProposalOut) (d : Digest) → Respects S (positive_echo cfg v p d)
  unfolding positive_echo
  positive_echo-Respects v p d =
      search
        (
          step_rules, preorder, record_lock-Respects, mark_echo_sent-Respects,
          count_echo_statement-Respects, wish-Respects, recheck_after_echo-Respects,
        )
        depth 20

  gate_fixed-Respects :
      (v : View) (lm : LaneView) (o : Option (ProposalOut × Digest))
      → Respects S (gate_fixed cfg v lm o)
  unfolding gate_fixed
  gate_fixed-Respects v lm none = search (step_rules, preorder)
  gate_fixed-Respects v lm (some (p, d)) =
      search (step_rules, preorder, positive_gate_holds-Respects, positive_echo-Respects) depth 10

  pub recheck_gate-Respects : (v : View) (lm : LaneView) → Respects S (recheck_gate cfg v lm)
  unfolding recheck_gate
  recheck_gate-Respects v lm = search (step_rules, preorder, gate_fixed-Respects) depth 12

  pub activate-Respects : (v : View) (lm : LaneView) → Respects S (activate cfg v lm)
  unfolding activate
  activate-Respects v lm =
      search (step_rules, preorder, at_start_activity, recheck_gate-Respects) depth 16

  arm_fallback-Respects : (v : View) (o : Option ℕ) → Respects S (arm_fallback cfg v o)
  unfolding arm_fallback
  arm_fallback-Respects v none = search (step_rules, preorder)
  arm_fallback-Respects v (some d) = search (step_rules, preorder)

  pub enter-Respects : (v : View) (now : ℕ) (lm : LaneView) → Respects S (enter cfg v now lm)
  unfolding enter
  enter-Respects v now lm =
      search (step_rules, preorder, at_entered, arm_fallback-Respects, activate-Respects) depth 24

  announce_fixed-Respects :
      (v : View) (p : ProposalOut) (now : ℕ) (lm : LaneView)
      → Respects S (announce_fixed cfg v p now lm)
  unfolding announce_fixed
  announce_fixed-Respects v p now lm =
      search (step_rules, preorder, arm_fallback-Respects, recheck_gate-Respects) depth 24

  store_fixed-Evolves :
      (v : View) (hit : ProposalOut × Digest) (now : ℕ) (lm : LaneView) (w : World)
      → Unset v w
      → Evolves S w (store_fixed cfg v hit now lm w).1
  unfolding store_fixed ◌>>=◌ modify on_state
  store_fixed-Evolves v hit now lm w unset =
      Evolves-trans preorder w _ _ (Evolves-put_state preorder v _ w (at_fixed _ _ unset))
        ((announce_fixed-Respects v hit.0 now lm).at _)

  fix_proposal-Evolves :
      (v : View) (p : ProposalOut) (now : ℕ) (lm : LaneView) (w : World)
      → Unset v w
      → Evolves S w (fix_proposal cfg v p now lm w).1
  unfolding fix_proposal ◌>>=◌ canonical_proposal on_state
  fix_proposal-Evolves v p now lm w unset =
      Evolves-trans preorder w _ _ (Evolves-put_state preorder v _ w (at_cached p _)) (
        store_fixed-Evolves v (canonical_proposal cfg v p w).0 now lm _
          (rw (state-put_self v _ w, cached-fixed cfg p (state v w)) unset))

  reject_proposal-Evolves :
      (v : View) (w : World) → Unset v w → Evolves S w (reject_proposal cfg v w).1
  unfolding reject_proposal ◌>>=◌ modify on_state output
  reject_proposal-Evolves v w unset =
      Evolves-trans preorder w _ _
        (Evolves-put_state preorder v _ w (at_fixed Fixed.reject _ unset))
        ((Respects-output preorder _).at _)

  pub take_proposal-Evolves :
      (v : View) (p : ProposalOut) (now : ℕ) (lm : LaneView) (w : World)
      → Unset v w
      → Evolves S w (take_proposal cfg v p now lm w).1
  unfolding take_proposal ◌>>=◌ modify on_state
  take_proposal-Evolves v p now lm w unset =
      Evolves-trans preorder w _ _ (Evolves-put_state preorder v _ w (at_first_instant now _))
        (elim (Bool-cases (not (proposal_formed cfg.committee p))) [
          | inl e ↦ rw e (reject_proposal-Evolves v _ (rw (state-put_self v _ w) unset))
          | inr e ↦ rw e (fix_proposal-Evolves v p now lm _ (rw (state-put_self v _ w) unset))
        ])
