-- ===== src/Agb/Laws.antt =====
-- What a relation between two states of a view must satisfy to hold across every handler of the
-- engine: it is a preorder, and each step of Statements, Steps and Votes keeps it.
use vantage_bft.Base.{ℕ, ◌≡◌, Bool, true, false, some}
use vantage_bft.Committee.{PublicKey, stake}
use vantage_bft.Agb.Types.{Digest, ProposalOut, ReadyGrade, Outcome}
use vantage_bft.Agb.State.{Config, Fixed, EchoStatement, ReadyStatement, ReadyTally, ViewState}
use vantage_bft.Agb.Statements.{count_echo, count_ready}
use vantage_bft.Agb.Steps.{
  finalize_mix, open_ready, complete, direct, seal, take_lock, release_lock, fastseal,
}
use vantage_bft.Agb.Votes.{claim_non_skip, claim_skip_vote, count_skip_vote, claim_skip_seal}
use vantage_bft.Agb.Handlers.{is_unset, cached, start_activity}
use vantage_bft.Agb.Receive.{first_instant}
use vantage_bft.Agb.Respects.{Preorder}

pub record StepLaws (cfg : Config) (S : ViewState → ViewState → Type 0) : Type 0 where
  pub preorder : Preorder S
  pub at_count_echo :
      (k : PublicKey) (st : EchoStatement) (s : ViewState)
      → S s (count_echo (stake cfg.committee k) k st s).1
  pub at_count_ready :
      (k : PublicKey) (st : ReadyStatement) (s : ViewState)
      → S s (count_ready (stake cfg.committee k) k st s).1
  pub at_count_skip_vote : (k : PublicKey) (s : ViewState) → S s (count_skip_vote k s).1
  pub at_take_lock : (p : ProposalOut) (d : Digest) (s : ViewState) → S s (take_lock cfg p d s)
  pub at_release_lock : (s : ViewState) → S s (release_lock cfg s)
  pub at_fastseal : (s : ViewState) → S s (fastseal cfg s).1
  pub at_finalize_mix : (b : Bool) (s : ViewState) → S s (finalize_mix cfg b s)
  pub at_claim_skip_seal : (s : ViewState) → S s (claim_skip_seal cfg s).1
  pub at_claim_skip_vote : (s : ViewState) → S s (claim_skip_vote cfg s).1
  pub at_complete : (t : ReadyTally) (s : ViewState) → S s (complete cfg t s).1
  pub at_direct : (t : ReadyTally) (s : ViewState) → S s (direct cfg t s).1
  pub at_seal : (o : Outcome) (s : ViewState) → S s (seal o s).1
  pub at_open_ready : (g : ReadyGrade) (s : ViewState) → S s (open_ready g s)
  pub at_close_mix : (s : ViewState) → S s (record s { ready_mix_open = false })
  pub at_ready_sent : (s : ViewState) → S s (record s { ready_sent = true })
  pub at_echo_sent : (s : ViewState) → S s (record s { echo_sent = true })
  pub at_claim_non_skip : (s : ViewState) → S s (claim_non_skip s)
  pub at_aux_accepted : (s : ViewState) → S s (record s { aux_accepted = true })
  pub at_start_activity : (s : ViewState) → S s (start_activity cfg s).1
  pub at_entered :
      (now : ℕ) (s : ViewState) → S s (record s { entered = true; entry_instant = some now })
  pub at_cached : (p : ProposalOut) (s : ViewState) → S s (cached cfg p s).1
  pub at_first_instant :
      (now : ℕ) (s : ViewState)
      → S s (record s { first_proposal_instant = first_instant cfg now s.first_proposal_instant })
  pub at_fixed :
      (f : Fixed) (s : ViewState) → is_unset s.fixed ≡ true → S s (record s { fixed = f })
