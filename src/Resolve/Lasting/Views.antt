-- ===== src/Resolve/Lasting/Views.antt =====
-- The steps on one resolver view keep what lasts.
use vantage_bft.Base.{
  ℕ, ◌≡◌, refl, sym, ap, ◌∙◌, subst, inl, inr, Bool, false, Option, none, some, arith, ==_iff, ◌==◌,
  Option-cases, Bool-cases, List,
}
use vantage_bft.Base.BTree
use vantage_bft.Base.Map
use vantage_bft.Base.Map.{Map, lookup}
use vantage_bft.Committee.{PublicKey}
use vantage_bft.Agb.Types.{View, Digest}
use vantage_bft.Resolve.Types.{ResolverView, Phase, phase_index, Proof, Proposal, Vote}
use vantage_bft.Resolve.State.{
  Instance, ReplayKind, ResolverViewState, StatementRecord, default_view,
}
use vantage_bft.Resolve.Monad.{at_view_mut, at_entry_mut}
use vantage_bft.Resolve.Views.{
  take_proof, put_proposal, send_witness, take_vote, reopen_vote, send_statement, take_statement,
}
use vantage_bft.Resolve.Propose.{has_proposal}
use vantage_bft.Resolve.Replay.{
  ReplayItem, ◌then_replay◌, replay_once, replay_statement, replay_view,
}
use vantage_bft.Resolve.Sound.{Preorder}
use vantage_bft.Resolve.Lasting.{view_of, KeptView, Kept}
use mathlib.Core.Option.{get_or, none-ne-some}

pub KeptView-refl : (s : ResolverViewState) → KeptView s s
KeptView-refl s = record { proposal = λ p h. h; backing_sent = λ d h. h; sent = λ p d h. h }

KeptView-trans : (a b c : ResolverViewState) → KeptView a b → KeptView b c → KeptView a c
KeptView-trans a b c p q = record {
  proposal = λ x h. q.proposal x (p.proposal x h);
  backing_sent = λ x h. q.backing_sent x (p.backing_sent x h);
  sent = λ x d h. q.sent x d (p.sent x d h);
}

pub Kept-Preorder : Preorder Kept
Kept-Preorder = record {
  refl_at = λ i. record {
    own_wish = omega arith;
    entered_through = omega arith;
    in_step = λ h. h;
    done_sent = λ d h. h;
    views = λ v. KeptView-refl _;
  };
  trans_at = λ a b c p q. record {
    own_wish = omega (arith, p.own_wish, q.own_wish);
    entered_through = omega (arith, p.entered_through, q.entered_through);
    in_step = λ h. q.in_step (p.in_step h);
    done_sent = λ d h. q.done_sent d (p.done_sent d h);
    views = λ v. KeptView-trans _ _ _ (p.views v) (q.views v);
  };
}

-- Another state of one view.
pub with_view :
    (v : ResolverView) (s : ResolverViewState) (i : Instance)
    → KeptView (view_of v i) s
    → Kept i (record i { views = BTree.insert v s i.views })
with_view v s i h = record {
  own_wish = omega arith;
  entered_through = omega arith;
  in_step = λ e. e;
  done_sent = λ d e. e;
  views = λ u. rw (BTree.lookup-insert v u s i.views) (elim (Bool-cases (v == u)) [
    | inl e ↦ rw e (subst (λ x. KeptView (view_of x i) s) ((==_iff v u).0 e) h)
    | inr e ↦ rw e (KeptView-refl _)
  ]);
}

module _ {A : Type 0} (v : ResolverView) (f : ResolverViewState → A × ResolverViewState)
    (h : (s : ResolverViewState) → KeptView s (f s).1) where
  pub at_entry_mut-Kept : (i : Instance) → Kept i (at_entry_mut v f i).1
  unfolding at_entry_mut
  at_entry_mut-Kept i = with_view v _ i (h (view_of v i))

  pub at_view_mut-Kept : (d : A) (i : Instance) → Kept i (at_view_mut v d f i).1
  unfolding at_view_mut
  at_view_mut-Kept d i = elim (Option-cases (lookup v i.views)) [
    | inl e ↦ rw (e, at_view_mut) (Kept-Preorder.refl_at i)
    | inr (s, e) ↦
        rw (e, at_view_mut)
          (with_view v (f s).1 i
            (subst (λ x. KeptView x (f s).1) (sym (ap (λ o. get_or o default_view) e)) (h s)))
  ]

-- A step that leaves what a view keeps.
pub record SameView (s t : ResolverViewState) : Type 0 where
  pub proposal : t.proposal ≡ s.proposal
  pub backing_sent : t.backing_sent ≡ s.backing_sent
  pub sent : t.sent ≡ s.sent

pub same_view : (s t : ResolverViewState) → SameView s t → KeptView s t
same_view s t e = record {
  proposal = λ p h. rw e.proposal h;
  backing_sent = λ d h. rw e.backing_sent h;
  sent = λ p d h. rw e.sent h;
}

put_proposal-Kept :
    (p : Proposal) (s : ResolverViewState) → s.proposal ≡ none → KeptView s (put_proposal p s).1
unfolding put_proposal
put_proposal-Kept p s n = record {
  proposal = λ q h. absurd (none-ne-some q (sym n ∙ h));
  backing_sent = λ d h. h;
  sent = λ p d h. h;
}

-- A view that has no proposal takes one.
pub take_proposal-Kept :
    (v : ResolverView) (p : Proposal) (i : Instance)
    → has_proposal v i ≡ false
    → Kept i (at_entry_mut v (put_proposal p) i).1
unfolding at_entry_mut
take_proposal-Kept v p i n = with_view v _ i (
    put_proposal-Kept p (view_of v i) (elim (Option-cases (lookup v i.views)) [
      | inl e ↦ rw e refl
      | inr (s, e) ↦ rw e (ground (arith, e, n))
    ]))

pub send_witness-Kept :
    (k : PublicKey) (d : Digest) (s : ResolverViewState) → KeptView s (send_witness k d s).1
unfolding send_witness
send_witness-Kept k d s = record {
  proposal = λ q h. ground arith;
  backing_sent = λ d h. ground arith;
  sent = λ p d h. ground arith;
}

pub send_statement-Kept :
    (k : PublicKey) (p : Phase) (d : Digest) (key : Option ResolverView) (o : Option ℕ)
    (s : ResolverViewState)
    → KeptView s (send_statement k p d key o s).1
unfolding send_statement
send_statement-Kept k p d key o s = record {
  proposal = λ q h. ground arith;
  backing_sent = λ d h. ground arith;
  sent = λ q e h. ground (arith, Map.lookup-insert (phase_index p) q d s.sent);
}

pub take_vote-Same :
    (d : Digest) (vote : Vote) (s : ResolverViewState) → SameView s (take_vote d vote s).1
unfolding take_vote
take_vote-Same d (Vote.reject b) s = record {
  proposal = ground arith;
  backing_sent = ground arith;
  sent = ground arith;
}
take_vote-Same d (Vote.accept o) s = record {
  proposal = ground arith;
  backing_sent = ground arith;
  sent = ground arith;
}

pub take_proof-Same : (m : Proof) (s : ResolverViewState) → SameView s (take_proof m s).1
unfolding take_proof
take_proof-Same m s = record {
  proposal = ground arith;
  backing_sent = ground arith;
  sent = ground arith;
}

pub take_statement-Same :
    (p : Phase) (k : PublicKey) (r : StatementRecord) (s : ResolverViewState)
    → SameView s (take_statement p k r s).1
unfolding take_statement
take_statement-Same p k r s = record {
  proposal = ground arith;
  backing_sent = ground arith;
  sent = ground arith;
}

pub reopen_vote-Same : (s : ResolverViewState) → SameView s (reopen_vote s).1
unfolding reopen_vote
reopen_vote-Same s = record {
  proposal = ground arith;
  backing_sent = ground arith;
  sent = ground arith;
}

replay_once-Same :
    (kind : ReplayKind) (k : PublicKey) (o : Option ReplayItem) (s : ResolverViewState)
    → SameView s (replay_once kind k o s).1
unfolding replay_once
replay_once-Same kind k none s = record { proposal = refl; backing_sent = refl; sent = refl }
replay_once-Same kind k (some item) s = record {
  proposal = ground arith;
  backing_sent = ground arith;
  sent = ground arith;
}

then_replay-Same :
    (s : ResolverViewState) (r : List ReplayItem × ResolverViewState)
    (g : ResolverViewState → List ReplayItem × ResolverViewState)
    → SameView s r.1
    → ((t : ResolverViewState) → SameView t (g t).1)
    → SameView s (r then_replay g).1
then_replay-Same s (items, t) g p q = record {
  proposal = (q t).proposal ∙ p.proposal;
  backing_sent = (q t).backing_sent ∙ p.backing_sent;
  sent = (q t).sent ∙ p.sent;
}

replay_statement-Same :
    (name : PublicKey) (t : View) (v : ResolverView) (k : PublicKey) (p : Phase)
    (s : ResolverViewState)
    → SameView s (replay_statement name t v k p s).1
unfolding replay_statement
replay_statement-Same name t v k p s = replay_once-Same _ k _ s

pub replay_view-Same :
    (name : PublicKey) (t : View) (v : ResolverView) (k : PublicKey) (b : Bool)
    (s : ResolverViewState)
    → SameView s (replay_view name t v k b s).1
unfolding replay_view
replay_view-Same name t v k b s = search (then_replay-Same, replay_once-Same) depth 20
