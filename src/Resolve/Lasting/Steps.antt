-- ===== src/Resolve/Lasting/Steps.antt =====
-- Every step on an instance keeps what lasts.
use vantage_bft.Base.{
  ◌≡◌, refl, sym, ◌∙◌, leb, is_some, inl, inr, Bool, false, arith, Bool-cases, List, [],
}
use vantage_bft.Base.Map.{Map}
use vantage_bft.Committee.{PublicKey}
use vantage_bft.Agb.Types.{Digest, ResolutionEntry}
use vantage_bft.Resolve.Types.{ResolverView, Phase, Suggest, Proof}
use vantage_bft.Resolve.State.{Instance, ResolverViewState}
use vantage_bft.Resolve.Candidates.{next_candidate_of}
use vantage_bft.Resolve.Steps.{
  raise_wish, mark_entered, take_wish, with_wishes, with_candidates, adopt, send_done, put_done,
}
use vantage_bft.Resolve.Views.{put_suggestion, put_proof, put_witness, request_vote}
use vantage_bft.Resolve.Replay.{replay_wish}
use vantage_bft.Resolve.Sound.Laws.{StepLaws}
use vantage_bft.Resolve.Lasting.{view_of, Kept}
use vantage_bft.Resolve.Lasting.Views.{
  Kept-Preorder, KeptView-refl, SameView, at_entry_mut-Kept, at_view_mut-Kept, take_proposal-Kept,
  reopen_vote-Same, replay_view-Same, same_view, send_statement-Kept, send_witness-Kept,
  take_proof-Same, take_statement-Same, take_vote-Same, with_view,
}

-- The steps on the fields beside the views.
module _ (i : Instance) where
  raise_wish-Kept : (k : PublicKey) (v : ResolverView) → Kept i (raise_wish k v i).1
  unfolding raise_wish
  raise_wish-Kept k v = elim (Bool-cases (leb v i.own_wish)) [
    | inl e ↦ rw e (Kept-Preorder.refl_at i)
    | inr e ↦ rw e (record {
      own_wish = ground (arith, e);
      entered_through = omega arith;
      in_step = λ h. h;
      done_sent = λ d h. h;
      views = λ u. KeptView-refl _;
    })
  ]

  mark_entered-Kept : (v : ResolverView) → Kept i (mark_entered v i).1
  unfolding mark_entered
  mark_entered-Kept v = elim (Bool-cases (leb v i.entered_through)) [
    | inl e ↦ rw e (Kept-Preorder.refl_at i)
    | inr e ↦
        let k = with_view v (view_of v i) i (KeptView-refl _) in
        rw e (record {
          own_wish = omega arith;
          entered_through = ground (arith, e);
          in_step = λ h. refl;
          done_sent = λ d h. h;
          views = k.views;
        })
  ]

  send_done-Kept : (k : PublicKey) (d : Digest) → Kept i (send_done k d i).1
  unfolding send_done
  send_done-Kept k d = elim (Bool-cases (is_some i.done_sent)) [
    | inl e ↦ rw e (Kept-Preorder.refl_at i)
    | inr e ↦ rw e (record {
      own_wish = omega arith;
      entered_through = omega arith;
      in_step = λ h. h;
      done_sent = λ d h. ground arith;
      views = λ u. KeptView-refl _;
    })
  ]

  -- A step that leaves the marks and the views.
  same_marks :
      (j : Instance)
      → j.own_wish ≡ i.own_wish
      → j.entered_through ≡ i.entered_through
      → j.current_view ≡ i.current_view
      → j.done_sent ≡ i.done_sent
      → j.views ≡ i.views
      → Kept i j
  same_marks j a b c d e = record {
    own_wish = omega (arith, a);
    entered_through = omega (arith, b);
    in_step = λ h. c ∙ h ∙ sym b;
    done_sent = λ x h. d ∙ h;
    views = λ u. rw e (KeptView-refl _);
  }

  take_wish-Kept : (k : PublicKey) (v : ResolverView) → Kept i (take_wish k v i).1
  unfolding take_wish
  take_wish-Kept k v = same_marks _ refl refl refl refl refl

  with_wishes-Kept : (m : Map ResolverView) → Kept i (with_wishes m i)
  unfolding with_wishes
  with_wishes-Kept m = same_marks _ refl refl refl refl refl

  next_candidate_of-Kept : (b : Bool) (v : ResolverView) → Kept i (next_candidate_of b v i).1
  unfolding next_candidate_of
  next_candidate_of-Kept b v = same_marks _ refl refl refl refl refl

  with_candidates-Kept : (es : List ResolutionEntry) → Kept i (with_candidates es i)
  unfolding with_candidates
  with_candidates-Kept es = same_marks _ refl refl refl refl refl

  replay_wish-Kept : (k : PublicKey) → Kept i (replay_wish k i).1
  unfolding replay_wish
  replay_wish-Kept k =
      same_marks _ (ground arith) (ground arith) (ground arith) (ground arith) (ground arith)

  adopt-Kept : (p : Phase) (v : ResolverView) (d : Digest) → Kept i (adopt p v d i).1
  unfolding adopt
  adopt-Kept Phase.echo v d = same_marks _ refl refl refl refl refl
  adopt-Kept Phase.key1 v d = same_marks _ refl refl refl refl refl
  adopt-Kept Phase.key2 v d = same_marks _ refl refl refl refl refl
  adopt-Kept Phase.key3 v d = same_marks _ refl refl refl refl refl
  adopt-Kept Phase.lock v d = same_marks _ refl refl refl refl refl

  put_done-Kept : (k : PublicKey) (d : Digest) → Kept i (put_done k d i).1
  unfolding put_done
  put_done-Kept k d = same_marks _ refl refl refl refl refl

put_suggestion-Same : (m : Suggest) (s : ResolverViewState) → SameView s (put_suggestion m s).1
unfolding put_suggestion
put_suggestion-Same m s = record { proposal = refl; backing_sent = refl; sent = refl }

put_proof-Same : (m : Proof) (s : ResolverViewState) → SameView s (put_proof m s).1
unfolding put_proof
put_proof-Same m s = record { proposal = refl; backing_sent = refl; sent = refl }

put_witness-Same :
    (k : PublicKey) (d : Digest) (s : ResolverViewState) → SameView s (put_witness k d s).1
unfolding put_witness
put_witness-Same k d s = record { proposal = refl; backing_sent = refl; sent = refl }

request_vote-Same : (s : ResolverViewState) → SameView s (request_vote s).1
unfolding request_vote
request_vote-Same s = record { proposal = refl; backing_sent = refl; sent = refl }

pub Kept-StepLaws : StepLaws Kept
Kept-StepLaws = record {
  preorder = Kept-Preorder;
  at_raise_wish = λ k v i. raise_wish-Kept i k v;
  at_mark_entered = λ v i. mark_entered-Kept i v;
  at_take_wish = λ k v i. take_wish-Kept i k v;
  at_with_wishes = λ m i. with_wishes-Kept i m;
  at_with_candidates = λ es i. with_candidates-Kept i es;
  at_next_candidate_of = λ b v i. next_candidate_of-Kept i b v;
  at_replay_wish = λ k i. replay_wish-Kept i k;
  at_adopt = λ p v d i. adopt-Kept i p v d;
  at_send_done = λ k d i. send_done-Kept i k d;
  at_put_done = λ k d i. put_done-Kept i k d;
  at_put_suggestion = λ v m. at_entry_mut-Kept v _ (λ s. same_view s _ (put_suggestion-Same m s));
  at_put_proof = λ v m. at_entry_mut-Kept v _ (λ s. same_view s _ (put_proof-Same m s));
  at_take_proof = λ v m. at_entry_mut-Kept v _ (λ s. same_view s _ (take_proof-Same m s));
  at_put_proposal = take_proposal-Kept;
  at_put_witness = λ v k d. at_entry_mut-Kept v _ (λ s. same_view s _ (put_witness-Same k d s));
  at_send_statement = λ v k p d key o. at_entry_mut-Kept v _ (send_statement-Kept k p d key o);
  at_take_statement =
      λ v p k r. at_entry_mut-Kept v _ (λ s. same_view s _ (take_statement-Same p k r s));
  at_send_witness = λ v k d. at_view_mut-Kept v _ (send_witness-Kept k d) false;
  at_request_vote = λ v. at_view_mut-Kept v _ (λ s. same_view s _ (request_vote-Same s)) tt;
  at_take_vote =
      λ v d vote. at_view_mut-Kept v _ (λ s. same_view s _ (take_vote-Same d vote s)) false;
  at_reopen_vote = λ v. at_view_mut-Kept v _ (λ s. same_view s _ (reopen_vote-Same s)) false;
  at_replay_view = λ v name t u k b.
      at_view_mut-Kept v _ (λ s. same_view s _ (replay_view-Same name t u k b s)) [];
}
