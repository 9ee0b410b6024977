-- ===== src/Resolve/Sound/Laws.antt =====
-- What a relation between two states of an instance must satisfy to hold across every handler of the
-- resolver: it is a preorder, and each step keeps it.
use vantage_bft.Base.{ℕ, ◌≡◌, Bool, false, Option, List}
use vantage_bft.Base.Map.{Map}
use vantage_bft.Committee.{PublicKey}
use vantage_bft.Agb.Types.{View, Digest, ResolutionEntry}
use vantage_bft.Resolve.Types.{ResolverView, Phase, Suggest, Proof, Proposal, Vote}
use vantage_bft.Resolve.State.{Instance, StatementRecord}
use vantage_bft.Resolve.Monad.{at_view_mut, at_entry_mut}
use vantage_bft.Resolve.Candidates.{next_candidate_of}
use vantage_bft.Resolve.Steps.{
  raise_wish, mark_entered, take_wish, with_wishes, with_candidates, adopt, send_done, put_done,
}
use vantage_bft.Resolve.Views.{
  put_suggestion, put_proof, take_proof, put_proposal, put_witness, send_witness, request_vote,
  take_vote, reopen_vote, send_statement, take_statement,
}
use vantage_bft.Resolve.Propose.{has_proposal}
use vantage_bft.Resolve.Replay.{replay_view, replay_wish}
use vantage_bft.Resolve.Sound.{Preorder}

pub record StepLaws (S : Instance → Instance → Type 0) : Type 0 where
  pub preorder : Preorder S
  pub at_raise_wish :
      (name : PublicKey) (v : ResolverView) (i : Instance) → S i (raise_wish name v i).1
  pub at_mark_entered : (v : ResolverView) (i : Instance) → S i (mark_entered v i).1
  pub at_take_wish : (k : PublicKey) (v : ResolverView) (i : Instance) → S i (take_wish k v i).1
  pub at_with_wishes : (m : Map ResolverView) (i : Instance) → S i (with_wishes m i)
  pub at_with_candidates : (es : List ResolutionEntry) (i : Instance) → S i (with_candidates es i)
  pub at_next_candidate_of :
      (b : Bool) (v : ResolverView) (i : Instance) → S i (next_candidate_of b v i).1
  pub at_replay_wish : (k : PublicKey) (i : Instance) → S i (replay_wish k i).1
  pub at_adopt : (p : Phase) (v : ResolverView) (d : Digest) (i : Instance) → S i (adopt p v d i).1
  pub at_send_done : (k : PublicKey) (d : Digest) (i : Instance) → S i (send_done k d i).1
  pub at_put_done : (k : PublicKey) (d : Digest) (i : Instance) → S i (put_done k d i).1
  pub at_put_suggestion :
      (v : ResolverView) (m : Suggest) (i : Instance) → S i (at_entry_mut v (put_suggestion m) i).1
  pub at_put_proof :
      (v : ResolverView) (m : Proof) (i : Instance) → S i (at_entry_mut v (put_proof m) i).1
  pub at_take_proof :
      (v : ResolverView) (m : Proof) (i : Instance) → S i (at_entry_mut v (take_proof m) i).1
  pub at_put_proposal :
      (v : ResolverView) (p : Proposal) (i : Instance)
      → has_proposal v i ≡ false
      → S i (at_entry_mut v (put_proposal p) i).1
  pub at_put_witness :
      (v : ResolverView) (k : PublicKey) (d : Digest) (i : Instance)
      → S i (at_entry_mut v (put_witness k d) i).1
  pub at_send_statement :
      (v : ResolverView) (k : PublicKey) (p : Phase) (d : Digest) (key : Option ResolverView)
      (o : Option ℕ) (i : Instance)
      → S i (at_entry_mut v (send_statement k p d key o) i).1
  pub at_take_statement :
      (v : ResolverView) (p : Phase) (k : PublicKey) (r : StatementRecord) (i : Instance)
      → S i (at_entry_mut v (take_statement p k r) i).1
  pub at_send_witness :
      (v : ResolverView) (k : PublicKey) (d : Digest) (i : Instance)
      → S i (at_view_mut v Bool.false (send_witness k d) i).1
  pub at_request_vote : (v : ResolverView) (i : Instance) → S i (at_view_mut v tt request_vote i).1
  pub at_take_vote :
      (v : ResolverView) (d : Digest) (vote : Vote) (i : Instance)
      → S i (at_view_mut v Bool.false (take_vote d vote) i).1
  pub at_reopen_vote :
      (v : ResolverView) (i : Instance) → S i (at_view_mut v Bool.false reopen_vote i).1
  pub at_replay_view :
      (v : ResolverView) (name : PublicKey) (t : View) (u : ResolverView) (k : PublicKey) (b : Bool)
      (i : Instance)
      → S i (at_view_mut v List.[] (replay_view name t u k b) i).1
