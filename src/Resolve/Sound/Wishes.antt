-- ===== src/Resolve/Sound/Wishes.antt =====
-- Replays, proposals, wishes and entered views keep what the steps keep.
use mathlib.Core.Option.{some-injective}
use vantage_bft.Base.{
  ◌≡◌, sym, subst, ◌∙◌, false, true, not, ◌&&◌, arith, ltb, ◌==◌, zero, suc, ℕ, Bool, Option, none,
  some, List, [], ◌∷◌,
}
use vantage_bft.Committee.{PublicKey}
use vantage_bft.Agb.Types.{View, Digest, ResolutionEntry}
use vantage_bft.Resolve.Types.{ResolverView, TimerKind, Proposal}
use vantage_bft.Resolve.State.{Config, Instance}
use vantage_bft.Resolve.Replay.{
  ReplayItem, send_item, send_items, replay_views, replay_done, replay_own_wish, replay_progress_to,
}
use vantage_bft.Resolve.Propose.{
  admits, has_proposal, on_proposal, propose, take_next_candidate, propose_highest,
  try_primary_propose,
}
use vantage_bft.Resolve.Wishes.{
  arm, announce_wish, raise_own_wish, send_entry, enter_marked, enter_view, enter_views,
  recheck_wishes,
}
use vantage_bft.Resolve.Monad.{World, done, instance_of}
use vantage_bft.Resolve.Sound.{Keeps, KeepsIf}
use vantage_bft.Resolve.Sound.Rules.{Keeps-bind, KeepsIf-of, KeepsIf-if, KeepsIf-bind, KeepsIf-then}
use vantage_bft.Resolve.Sound.Fresh.{
  Fresh, Fresh-Stable, Keeps-when-reads, KeepsIf-given, KeepsIf-on_instance, remember_entry-Quiet,
}
use vantage_bft.Resolve.Sound.Laws.{StepLaws}
use vantage_bft.Resolve.Sound.Decides.{remember_entry-Keeps}
use vantage_bft.Resolve.Sound.Phases.{step_rules, try_echo-Keeps, advance_view-Keeps}

-- The test of `on_proposal` establishes that the view has no proposal.
has_proposal-Fresh :
    (p : Proposal) (w : World) (i : Instance)
    → instance_of p.target w ≡ some i
    → (admits p.view i && not (ltb p.view i.current_view) && not (has_proposal p.view i)) ≡ true
    → Fresh p.target p.view w
has_proposal-Fresh p w i e f j g =
    subst (λ x. has_proposal p.view x ≡ false) (some-injective i j (sym e ∙ g)) (ground (arith, f))

module _ {cfg : Config} {S : Instance → Instance → Type 0} (L : StepLaws S) where
  open L use {
    preorder, at_raise_wish, at_mark_entered, at_next_candidate_of, at_replay_wish, at_replay_view,
    at_put_suggestion, at_put_proof, at_put_proposal,
  }

  send_item-Keeps :
      (t : View) (k : PublicKey) (item : ReplayItem) → Keeps cfg S (send_item cfg t k item)
  unfolding send_item
  send_item-Keeps t k (ReplayItem.suggest m) = search (step_rules, preorder)
  send_item-Keeps t k (ReplayItem.proof m) = search (step_rules, preorder)
  send_item-Keeps t k (ReplayItem.proposal m) = search (step_rules, preorder)
  send_item-Keeps t k (ReplayItem.statement m) = search (step_rules, preorder)
  send_item-Keeps t k (ReplayItem.witness v d) = search (step_rules, preorder)

  send_items-Keeps :
      (t : View) (k : PublicKey) (items : List ReplayItem) → Keeps cfg S (send_items cfg t k items)
  unfolding send_items
  send_items-Keeps t k [] = search (step_rules, preorder)
  send_items-Keeps t k (item ∷ items) =
      Keeps-bind cfg S preorder _ _ (send_item-Keeps t k item) (λ u. send_items-Keeps t k items)

  replay_views-Keeps :
      (t : View) (k : PublicKey) (vs : List ResolverView) → Keeps cfg S (replay_views cfg t k vs)
  unfolding replay_views
  replay_views-Keeps t k [] = search (step_rules, preorder)
  replay_views-Keeps t k (v ∷ vs) =
      Keeps-bind cfg S preorder _ _ (search (step_rules, preorder, at_replay_view)) (λ items.
        Keeps-bind cfg S preorder _ _ (send_items-Keeps t k items) (λ u. replay_views-Keeps t k vs))

  replay_done-Keeps :
      (t : View) (k : PublicKey) (o : Option Digest) → Keeps cfg S (replay_done cfg t k o)
  unfolding replay_done
  replay_done-Keeps t k none = search (step_rules, preorder)
  replay_done-Keeps t k (some d) = search (step_rules, preorder) depth 12

  replay_own_wish-Keeps :
      (t : View) (k : PublicKey) (o : Option ResolverView) → Keeps cfg S (replay_own_wish cfg t k o)
  unfolding replay_own_wish
  replay_own_wish-Keeps t k none = search (step_rules, preorder)
  replay_own_wish-Keeps t k (some v) = search (step_rules, preorder)

  pub replay_progress_to-Keeps :
      (t : View) (k : PublicKey) (v : ResolverView) → Keeps cfg S (replay_progress_to cfg t k v)
  unfolding replay_progress_to
  replay_progress_to-Keeps t k v =
      search
        (
          step_rules, preorder, at_replay_wish, replay_own_wish-Keeps, replay_views-Keeps,
          replay_done-Keeps,
        )
        depth 14

  pub on_proposal-Keeps : (p : Proposal) → Keeps cfg S (on_proposal cfg p)
  unfolding on_proposal
  on_proposal-Keeps p =
      let Q : World → Type 0 = Fresh p.target p.view in
      let idle : KeepsIf cfg S Q done =
        KeepsIf-of cfg S preorder Q done (search (step_rules, preorder)) in
      Keeps-bind cfg S preorder _ _ (search (step_rules, preorder)) (λ decided.
        Keeps-bind cfg S preorder _ _ (search (step_rules, preorder)) (λ live.
          Keeps-when-reads cfg S preorder Q p.target _ _ _ (has_proposal-Fresh p) (
            KeepsIf-bind cfg S preorder Q (Fresh-Stable p.target p.view) _ _
              (remember_entry-Quiet cfg p.target p.entry)
              (remember_entry-Keeps cfg S preorder p.target p.entry)
              (λ value. KeepsIf-given cfg S preorder Q value _ _ idle (λ v.
                KeepsIf-if cfg S preorder Q (not (v == p.value)) _ _ idle (
                  KeepsIf-then cfg S preorder Q _ _
                    (KeepsIf-on_instance cfg S preorder Q p.target tt _
                      (λ w i q e. at_put_proposal p.view p i (q i e)))
                    (λ u. try_echo-Keeps L p.target p.view)))))))

  propose-Keeps :
      (t : View) (v key : ResolverView) (e : ResolutionEntry) → Keeps cfg S (propose cfg t v key e)
  unfolding propose
  propose-Keeps t v key e = search (step_rules, preorder, on_proposal-Keeps)

  take_next_candidate-Keeps :
      (t : View) (v : ResolverView) → Keeps cfg S (take_next_candidate cfg t v)
  unfolding take_next_candidate
  take_next_candidate-Keeps t v = search (step_rules, preorder, at_next_candidate_of) depth 10

  propose_highest-Keeps :
      (t : View) (v : ResolverView) (x : ResolverView × Digest)
      → Keeps cfg S (propose_highest cfg t v x)
  unfolding propose_highest
  propose_highest-Keeps t v (key, d) =
      search (step_rules, preorder, propose-Keeps, take_next_candidate-Keeps) depth 12

  pub try_primary_propose-Keeps :
      (t : View) (v : ResolverView) → Keeps cfg S (try_primary_propose cfg t v)
  unfolding try_primary_propose
  try_primary_propose-Keeps t v = search (step_rules, preorder, propose_highest-Keeps) depth 12

  pub arm-Keeps :
      (t : View) (v : ResolverView) (k : TimerKind) (delay : ℕ) → Keeps cfg S (arm cfg t v k delay)
  unfolding arm
  arm-Keeps t v k delay = search (step_rules, preorder)

  announce_wish-Keeps :
      (t : View) (v : ResolverView) (o : Option Bool) → Keeps cfg S (announce_wish cfg t v o)
  unfolding announce_wish
  announce_wish-Keeps t v none = search (step_rules, preorder)
  announce_wish-Keeps t v (some b) = search (step_rules, preorder, arm-Keeps) depth 10

  pub raise_own_wish-Keeps : (t : View) (v : ResolverView) → Keeps cfg S (raise_own_wish cfg t v)
  unfolding raise_own_wish
  raise_own_wish-Keeps t v = search (step_rules, preorder, at_raise_wish, announce_wish-Keeps)

  send_entry-Keeps :
      (t : View) (v : ResolverView) (e : Option ResolutionEntry) (i : Instance)
      → Keeps cfg S (send_entry cfg t v e i)
  unfolding send_entry
  send_entry-Keeps t v e i =
      search
        (
          step_rules, preorder, at_put_suggestion, at_put_proof, arm-Keeps,
          try_primary_propose-Keeps, try_echo-Keeps, advance_view-Keeps,
        )
        depth 30

  enter_marked-Keeps :
      (t : View) (v : ResolverView) (o : Option Instance) → Keeps cfg S (enter_marked cfg t v o)
  unfolding enter_marked
  enter_marked-Keeps t v none = search (step_rules, preorder)
  enter_marked-Keeps t v (some i) = search (step_rules, preorder, send_entry-Keeps)

  enter_view-Keeps : (t : View) (v : ResolverView) → Keeps cfg S (enter_view cfg t v)
  unfolding enter_view
  enter_view-Keeps t v = search (step_rules, preorder, at_mark_entered, enter_marked-Keeps) depth 10

  enter_views-Keeps : (n : ℕ) (t : View) (v : ResolverView) → Keeps cfg S (enter_views cfg n t v)
  unfolding enter_views
  enter_views-Keeps zero t v = search (step_rules, preorder)
  enter_views-Keeps (suc n) t v =
      Keeps-bind cfg S preorder _ _ (enter_view-Keeps t v) (λ u. enter_views-Keeps n t (suc v))

  pub recheck_wishes-Keeps : (t : View) → Keeps cfg S (recheck_wishes cfg t)
  unfolding recheck_wishes
  recheck_wishes-Keeps t =
      search (step_rules, preorder, raise_own_wish-Keeps, enter_views-Keeps) depth 14
