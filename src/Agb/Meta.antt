-- ===== src/Agb/Meta.antt =====
-- primary/src/vantage/agb.rs: the gates on a proposal's references and resolution entries.
use vantage_bft.Base.{
  ℕ, Bool, true, false, not, ◌&&◌, ◌||◌, Option, none, some, List, [], ◌∷◌, all, any, is_empty, map,
  if◌then◌else◌,
}
use vantage_bft.Base.Map.{lookup}
use vantage_bft.Agb.Types.{
  View, ProposalOut, ResolutionEntry, Outcome, target_view, core_of, tip_of, entries, proposal_view,
  manifest_eq,
}
use vantage_bft.Agb.State.{Config, EchoStatement, ViewState}
use vantage_bft.Agb.Votes.{
  LaneView, tip_ok, core_ok, MetaEntryStatus, entry_status, excludes_value, claim_non_skip,
  origin_bit,
}
use vantage_bft.Agb.Monad.{
  World, Agb, ◌>>=◌, ◌>>◌, pure, done, modify, gets, find_view, is_pruned, unless_pruned,
}
use vantage_bft.Agb.Rechecks.{passes}

abbrev pub is_ok : MetaEntryStatus → Bool
is_ok MetaEntryStatus.ok = true
is_ok MetaEntryStatus.not_yet = false
is_ok MetaEntryStatus.never = false

-- `DirectVoteDecision`
pub data DirectVoteDecision : Type 0 where
  accept : (origin : Option ℕ) → DirectVoteDecision
  not_yet never : DirectVoteDecision

abbrev pub is_value : ResolutionEntry → Bool
is_value (ResolutionEntry.full u c t) = true
is_value (ResolutionEntry.core u c t) = true
is_value (ResolutionEntry.skip u) = false

unfoldable pub stance_excludes : ResolutionEntry → World → Bool
unfolding excludes_value is_pruned find_view target_view
stance_excludes e w =
    is_value e
    && not (is_pruned (target_view e) w)
    && passes excludes_value (find_view (target_view e) w)

abbrev pub own_echo_of : ℕ → Option ViewState → Option EchoStatement
own_echo_of name none = none
own_echo_of name (some s) = lookup name s.echo_statements

unfoldable pub claim_values : List ResolutionEntry → Agb (Unit {0})
unfolding claim_non_skip
claim_values [] = done
claim_values (ResolutionEntry.full u c t ∷ rest) = do modify u claim_non_skip; claim_values rest
claim_values (ResolutionEntry.core u c t ∷ rest) = do modify u claim_non_skip; claim_values rest
claim_values (ResolutionEntry.skip u ∷ rest) = claim_values rest

-- Whether a terminal outcome is the value of the entry.
abbrev pub compatible : Outcome → ResolutionEntry → Bool
compatible (Outcome.full c t) (ResolutionEntry.full u c' t') = manifest_eq c c' && manifest_eq t t'
compatible (Outcome.core c) (ResolutionEntry.core u c' t') = manifest_eq c c'
compatible Outcome.skip (ResolutionEntry.skip u) = true
compatible outcome e = false

abbrev pub sealed_against : ResolutionEntry → Option Outcome → Bool
sealed_against e none = false
sealed_against e (some outcome) = not (compatible outcome e)

module _ (cfg : Config) where
  unfoldable pub status_at : LaneView → ResolutionEntry → Option ViewState → MetaEntryStatus
  unfolding entry_status
  status_at lm e none = MetaEntryStatus.not_yet
  status_at lm e (some s) = entry_status cfg lm e s

  unfoldable pub meta_entry_status : ResolutionEntry → LaneView → World → MetaEntryStatus
  unfolding status_at is_pruned find_view target_view
  meta_entry_status e lm w =
      if is_pruned (target_view e) w
      then MetaEntryStatus.never
      else status_at lm e (find_view (target_view e) w)

  unfoldable pub meta_ok : List ResolutionEntry → LaneView → World → Bool
  unfolding meta_entry_status all
  meta_ok es lm w = all (λ e. is_ok (meta_entry_status e lm w)) es

  unfoldable pub compute_origin_entry : World → ResolutionEntry → Option ℕ
  unfolding origin_bit find_view lookup target_view
  compute_origin_entry w e = origin_bit e (own_echo_of cfg.name (find_view (target_view e) w))

  unfoldable pub compute_origin : List ResolutionEntry → World → List (Option ℕ)
  unfolding compute_origin_entry
  compute_origin es w = map (compute_origin_entry w) es

  unfoldable pub accept_aux : View → List ResolutionEntry → Agb Bool
  unfolding claim_values
  accept_aux view es = do
    claim_values es
    modify view (λ s. record s { aux_accepted = true })
    pure true

  unfoldable pub try_meta_ok : View → List ResolutionEntry → LaneView → Agb Bool
  unfolding accept_aux meta_ok stance_excludes any
  try_meta_ok view es lm = if is_empty es then pure true else do
    accepted ← gets (λ w. passes (λ s. s.aux_accepted) (find_view view w))
    if accepted then pure true else do
      excluded ← gets (λ w. any (λ e. stance_excludes e w) es)
      if excluded
          then pure false
          else do held ← gets (meta_ok es lm); if held then accept_aux view es else pure false

  unfoldable pub positive_gate_holds : ProposalOut → LaneView → Agb Bool
  unfolding try_meta_ok core_ok tip_ok core_of tip_of entries proposal_view all
  positive_gate_holds p lm =
      if not (core_ok (core_of p) lm)
      then pure false
      else if not (all lm.author_ok (tip_of p))
      then pure false
      else if not (tip_ok (core_of p) (tip_of p) lm)
      then pure false
      else try_meta_ok (proposal_view p) (entries p) lm

  unfoldable pub decide_vote : ResolutionEntry → MetaEntryStatus → Agb DirectVoteDecision
  unfolding claim_values compute_origin_entry
  decide_vote e MetaEntryStatus.never = pure DirectVoteDecision.never
  decide_vote e MetaEntryStatus.not_yet = pure DirectVoteDecision.not_yet
  decide_vote e MetaEntryStatus.ok = do
    claim_values (e ∷ [])
    origin ← gets (λ w. compute_origin_entry w e)
    pure (DirectVoteDecision.accept origin)

  unfoldable pub sealed_at : ResolutionEntry → Option ViewState → Bool
  unfolding manifest_eq
  sealed_at e none = false
  sealed_at e (some s) = sealed_against e s.sealed

  unfoldable pub try_direct_resolution_vote :
      ResolutionEntry → (fresh : Bool) → LaneView → Agb DirectVoteDecision
  unfolding decide_vote sealed_at stance_excludes meta_entry_status target_view find_view
  try_direct_resolution_vote e fresh lm = unless_pruned (target_view e) DirectVoteDecision.never (
      if not fresh then pure (DirectVoteDecision.accept none) else do
        against ← gets (λ w. sealed_at e (find_view (target_view e) w))
        excluded ← gets (stance_excludes e)
        if against || excluded
            then pure DirectVoteDecision.never
            else do status ← gets (meta_entry_status e lm); decide_vote e status)
