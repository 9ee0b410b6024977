-- ===== src/Resolve/Sound/Runs.antt =====
-- The handlers that make an instance check that its target is retained, undecided and vacant. With
-- them every handler keeps what the steps keep, and so does every run.
use vantage_bft.Base.{
  ◌≡◌, refl, ℕ, if◌then◌else◌, Bool, true, false, not, ◌&&◌, ◌||◌, Option, none, some, List, [],
  ◌∷◌, is_empty, ltb, arith, inl, inr, Bool-cases,
}
use vantage_bft.Agb.Types.{View, Digest, ResolutionEntry}
use vantage_bft.Resolve.Types.{Wish}
use vantage_bft.Resolve.State.{Config, Instance, new_instance}
use vantage_bft.Resolve.Targets.{
  take_passive, add_passive, remember_all, out_of_scope, ensure_instance, valid_candidates,
  start_candidates, update_candidates, activate_with_local_terminal, answer_decided,
  join_and_replay, passive_wish, active_wish, on_wish,
}
use vantage_bft.Resolve.Monad.{
  World, ◌>>=◌, pure, done, unless, given, decided_in, has_instance, instance_of, entry_of, gets,
}
use vantage_bft.Resolve.Engine.{decision, Event, handle, run}
use vantage_bft.Resolve.Sound.{
  Sound, After, Keeps, KeepsIf, Quiet, Room, Vacant, Room-Stable, Vacant-Stable,
}
use vantage_bft.Resolve.Sound.Rules.{
  After-same, After-trans, Keeps-bind, KeepsIf-of, KeepsIf-if, KeepsIf-bind, KeepsIf-then,
  KeepsIf-create, Keeps-unless, Quiet-bind, Quiet-modify_books, Quiet-on_books, quiet_rules,
}
use vantage_bft.Resolve.Sound.Fresh.{remember_entry-Quiet}
use vantage_bft.Resolve.Sound.Laws.{StepLaws}
use vantage_bft.Resolve.Sound.Decides.{remember_entry-Keeps, gc_below-Keeps}
use vantage_bft.Resolve.Sound.Phases.{step_rules}
use vantage_bft.Resolve.Sound.Wishes.{
  replay_progress_to-Keeps, try_primary_propose-Keeps, raise_own_wish-Keeps, recheck_wishes-Keeps,
  on_proposal-Keeps,
}
use vantage_bft.Resolve.Sound.Handlers
use mathlib.Core.Option.{get_or}

out_of_scope-Room : (cfg : Config) (t : View) (w : World) → out_of_scope cfg t w ≡ false → Room t w
unfolding out_of_scope decided_in decision
out_of_scope-Room cfg t w h = record { undecided = ground arith; retained = ground arith }

has_instance-Vacant : (t : View) (w : World) → Room t w → has_instance t w ≡ false → Vacant t w
unfolding has_instance
has_instance-Vacant t w r h = record { room = r; no_instance = ground arith }

-- A target that is not decided and has no instance.
record NoTarget (t : View) (w : World) : Type 0 where
  pub undecided : decision t w ≡ none
  pub no_instance : instance_of t w ≡ none

no_target : (t : View) (w : World) → decision t w ≡ none → has_instance t w ≡ false → NoTarget t w
unfolding has_instance
no_target t w d h = record { undecided = d; no_instance = ground arith }

remember_all-Quiet :
    (cfg : Config) (t : View) (es : List ResolutionEntry) → Quiet (remember_all cfg t es)
unfolding remember_all
remember_all-Quiet cfg t [] = search quiet_rules
remember_all-Quiet cfg t (e ∷ es) =
    Quiet-bind _ _ (search (quiet_rules, remember_entry-Quiet)) (λ u. remember_all-Quiet cfg t es)

module _ {cfg : Config} {S : Instance → Instance → Type 0} (L : StepLaws S) where
  open L use {preorder, at_take_wish, at_with_wishes, at_with_candidates}

  remember_all-Keeps : (t : View) (es : List ResolutionEntry) → Keeps cfg S (remember_all cfg t es)
  unfolding remember_all
  remember_all-Keeps t [] = search (step_rules, preorder)
  remember_all-Keeps t (e ∷ es) =
      Keeps-bind cfg S preorder _ _ (search (step_rules, preorder, remember_entry-Keeps))
        (λ u. remember_all-Keeps t es)

  -- A target with room gets an instance, unless it has one.
  ensure_instance-Keeps : (t : View) → KeepsIf cfg S (Room t) (ensure_instance cfg t)
  unfolding ensure_instance ◌>>=◌ gets pure
  ensure_instance-Keeps t = record {
    at = λ w s r. elim (Bool-cases (has_instance t w)) [
      | inl e ↦ rw e (After-same cfg S preorder w s)
      | inr e ↦
          rw e ((KeepsIf-create cfg S preorder t new_instance).at w s (has_instance-Vacant t w r e))
    ];
  }

  start_candidates-Keeps :
      (t : View) (es : List ResolutionEntry) → KeepsIf cfg S (Room t) (start_candidates cfg t es)
  unfolding start_candidates
  start_candidates-Keeps t es =
      KeepsIf-then cfg S preorder (Room t) _ _ (ensure_instance-Keeps t) (λ u.
        search
          (
            step_rules, preorder, at_with_wishes, at_with_candidates, raise_own_wish-Keeps,
            recheck_wishes-Keeps, try_primary_propose-Keeps,
          )
          depth 24)

  update_candidates-Keeps :
      (t : View) (es : List ResolutionEntry) → Keeps cfg S (update_candidates cfg t es)
  unfolding update_candidates
  update_candidates-Keeps t es =
      Keeps-unless cfg S preorder (Room t) (out_of_scope cfg t) _ (out_of_scope-Room cfg t) (
        KeepsIf-bind cfg S preorder (Room t) (Room-Stable t) _ _ (Quiet-modify_books _)
          (search (step_rules, preorder))
          (λ u.
            KeepsIf-bind cfg S preorder (Room t) (Room-Stable t) _ _
              (remember_all-Quiet cfg t (valid_candidates cfg t es))
              (remember_all-Keeps t (valid_candidates cfg t es))
              (λ u.
                KeepsIf-if cfg S preorder (Room t) (is_empty (valid_candidates cfg t es)) _ _
                  (KeepsIf-of cfg S preorder (Room t) done (search (step_rules, preorder)))
                  (start_candidates-Keeps t (valid_candidates cfg t es)))))

  activate-Keeps : (t : View) → Keeps cfg S (activate_with_local_terminal cfg t)
  unfolding activate_with_local_terminal
  activate-Keeps t =
      Keeps-unless cfg S preorder (Vacant t) (λ w. out_of_scope cfg t w || has_instance t w) _
        (λ w h.
          has_instance-Vacant t w (out_of_scope-Room cfg t w (ground (arith, h)))
            (ground (arith, h)))
        (KeepsIf-bind cfg S preorder (Vacant t) (Vacant-Stable t) _ _ (Quiet-modify_books _)
          (search (step_rules, preorder))
          (λ u.
            KeepsIf-bind cfg S preorder (Vacant t) (Vacant-Stable t) _ _ (Quiet-on_books _)
              (search (step_rules, preorder))
              (λ passive.
                KeepsIf-then cfg S preorder (Vacant t) _ _ (KeepsIf-create cfg S preorder t _) (λ u.
                  search (step_rules, preorder, raise_own_wish-Keeps, recheck_wishes-Keeps) depth
                    10))))

  answer_decided-Keeps :
      (m : Wish) (x : Digest × ResolutionEntry) → Keeps cfg S (answer_decided cfg m x)
  unfolding answer_decided
  answer_decided-Keeps m (d, e) = search (step_rules, preorder) depth 10

  join_and_replay-Keeps : (m : Wish) → Keeps cfg S (join_and_replay cfg m)
  unfolding join_and_replay
  join_and_replay-Keeps m =
      search (step_rules, preorder, recheck_wishes-Keeps, replay_progress_to-Keeps)

  active_wish-Keeps : (m : Wish) → Keeps cfg S (active_wish cfg m)
  unfolding active_wish
  active_wish-Keeps m = search (step_rules, preorder, at_take_wish, join_and_replay-Keeps) depth 10

  -- The first wishes for a target, once its instance is due.
  passive_wish-Keeps : (m : Wish) → KeepsIf cfg S (NoTarget m.target) (passive_wish cfg m)
  unfolding passive_wish ◌>>=◌ gets pure
  passive_wish-Keeps m = record {
    at = λ w s n.
        elim (Bool-cases (
          ltb m.target w.resolver.retained_floor
          || ltb w.resolver.books.admitted_through m.target)) [
            | inl e ↦ rw e (After-same cfg S preorder w s)
            | inr e ↦ rw e (
                (KeepsIf-bind cfg S preorder (Vacant m.target) (Vacant-Stable m.target) _ _
                    (Quiet-on_books (add_passive m.target m.sender m.view))
                    (search (step_rules, preorder))
                    (λ x.
                      KeepsIf-if cfg S preorder (Vacant m.target)
                        (x.0 && not (ltb x.1 cfg.f_plus_1)) _ _
                        (KeepsIf-bind cfg S preorder (Vacant m.target) (Vacant-Stable m.target) _ _
                          (Quiet-on_books (take_passive m.target)) (search (step_rules, preorder))
                          (λ passive.
                            KeepsIf-then cfg S preorder (Vacant m.target) _ _
                              (KeepsIf-create cfg S preorder m.target
                                (record new_instance { wishes = get_or passive [] }))
                              (λ u. join_and_replay-Keeps m)))
                        (KeepsIf-of cfg S preorder (Vacant m.target) done
                          (search (step_rules, preorder))))).at
                  w s
                  (record {
                    room = record { undecided = n.undecided; retained = ground (arith, e) };
                    no_instance = n.no_instance;
                  }))
          ];
  }

  on_wish-After :
      (m : Wish) (o : Option (Digest × ResolutionEntry)) (live lost : Bool) (w : World)
      → decision m.target w ≡ o
      → has_instance m.target w ≡ live
      → Sound cfg w
      → After cfg S w
          ((unless lost (
              given o
                (if live then active_wish cfg m else passive_wish cfg m)
                (answer_decided cfg m)))
            w).1
  unfolding pure
  on_wish-After m o live true w d i s = After-same cfg S preorder w s
  on_wish-After m (some x) live false w d i s = (answer_decided-Keeps m x).at w s
  on_wish-After m none true false w d i s = (active_wish-Keeps m).at w s
  on_wish-After m none false false w d i s =
      (passive_wish-Keeps m).at w s (no_target m.target w d i)

  on_wish-Keeps : (m : Wish) → Keeps cfg S (on_wish cfg m)
  unfolding on_wish ◌>>=◌ gets decision
  on_wish-Keeps m = record { at = λ w s. on_wish-After m _ _ _ w refl refl s }

  handle-Keeps : (e : Event) → Keeps cfg S (handle cfg e)
  unfolding handle
  handle-Keeps (Event.offers t es) = update_candidates-Keeps t es
  handle-Keeps (Event.bars_full t) = Handlers.bar_full_selection-Keeps L t
  handle-Keeps (Event.activates t) = activate-Keeps t
  handle-Keeps (Event.admits_through t) = search (step_rules, preorder)
  handle-Keeps (Event.wishes m) = on_wish-Keeps m
  handle-Keeps (Event.expires t v k) = Handlers.on_timer-Keeps L t v k
  handle-Keeps (Event.suggests m) = Handlers.on_suggest-Keeps L m
  handle-Keeps (Event.proves m) = Handlers.on_proof-Keeps L m
  handle-Keeps (Event.witnesses m) = Handlers.on_witness-Keeps L m
  handle-Keeps (Event.proposes m) = on_proposal-Keeps L m
  handle-Keeps (Event.votes t v d vote) = Handlers.on_vote-Keeps L t v d vote
  handle-Keeps Event.retries_validity = Handlers.retry_external_validity-Keeps L
  handle-Keeps (Event.states m) = Handlers.on_statement-Keeps L m
  handle-Keeps (Event.finishes m) = Handlers.on_done-Keeps L m
  handle-Keeps (Event.fetches m) = Handlers.on_value_fetch-Keeps L m
  handle-Keeps (Event.serves m) = Handlers.on_value_serve-Keeps L m
  handle-Keeps (Event.prunes floor) = gc_below-Keeps cfg S preorder floor

  -- The clock's reading is no part of what is kept.
  at_clock : (now : ℕ) (w : World) → Sound cfg w → After cfg S w (record w { now = now })
  unfolding instance_of decision entry_of
  at_clock now w s = record {
    sound = record {
      disjoint = s.disjoint;
      retained = s.retained;
      values = s.values;
      decided = s.decided;
    };
    evolves = record {
      floor = omega arith;
      decided = λ t x h d. d;
      instances = λ t i h e. inl (i, e, preorder.refl_at i);
    };
  }

  pub run-After : (es : List (ℕ × Event)) (w : World) → Sound cfg w → After cfg S w (run cfg es w)
  unfolding run
  run-After [] w s = After-same cfg S preorder w s
  run-After ((now, e) ∷ es) w s =
      let c = at_clock now w s in
      let h = (handle-Keeps e).at (record w { now = now }) c.sound in
      let r = run-After es (handle cfg e (record w { now = now })).1 h.sound in
      After-trans cfg S preorder w (handle cfg e (record w { now = now })).1 _
        (After-trans cfg S preorder w (record w { now = now }) _ c h) r
