-- ===== src/Resolve/Sound/Phases.antt =====
-- The echoes, witnesses, phases and ends of a target keep what the steps keep.
use vantage_bft.Base.{◌≡◌, zero, suc, ℕ, inl, inr, Option, none, some, List, [], ◌∷◌, Option-cases}
use vantage_bft.Committee.{PublicKey}
use vantage_bft.Agb.Types.{View, Digest, ResolutionEntry}
use vantage_bft.Resolve.Types.{ResolverView, Phase, Effect}
use vantage_bft.Resolve.State.{Config, Instance}
use vantage_bft.Resolve.Counts.{Ballot, winner}
use vantage_bft.Resolve.Steps.{EchoAction}
use vantage_bft.Resolve.Values.{fetch_from, ensure_value_fetch}
use vantage_bft.Resolve.Phases.{
  Progress, emit_statement, act_on_echo, try_echo, emit_backing_witness, recheck_backing, emit_done,
  relay_done, forget_fetches, decide_on, recheck_done, adopt_phase, leave_echo, follow_winner,
  advance_phase, finish_lock, then_step, advance_round, after_round, if_current, advance_loop,
  advance_view,
}
use vantage_bft.Resolve.Monad.{
  World, Resolve, ◌>>=◌, ◌>>◌, Output, output, gets, reads, instance_of, entry_of, modify_books,
  conclude,
}
use vantage_bft.Resolve.Sound.{Sound, Keeps, After}
use vantage_bft.Resolve.Sound.Rules.{
  After-same, After-trans, Keeps-output, keeps_rules, Keeps-bind, Keeps-given, Keeps-if,
  Keeps-on_books, Keeps-reads,
}
use vantage_bft.Resolve.Sound.Laws.{StepLaws}
use vantage_bft.Resolve.Sound.Books.{books_rules}
use vantage_bft.Resolve.Sound.Decides.{conclude-After}

pub ruleset step_rules = (keeps_rules, books_rules)

module _ {cfg : Config} {S : Instance → Instance → Type 0} (L : StepLaws S) where
  open L use {preorder, at_send_statement, at_request_vote, at_send_witness, at_send_done, at_adopt}

  pub fetch_from-Keeps :
      (t : View) (v : Digest) (ks : List PublicKey) → Keeps cfg S (fetch_from cfg t v ks)
  unfolding fetch_from
  fetch_from-Keeps t v [] = search (step_rules, preorder)
  fetch_from-Keeps t v (k ∷ ks) =
      Keeps-bind cfg S preorder _ _ (search (step_rules, preorder)) (λ new.
        Keeps-bind cfg S preorder _ _ (search (step_rules, preorder))
          (λ u. fetch_from-Keeps t v ks))

  pub ensure_value_fetch-Keeps :
      (t : View) (v : Digest) (ks : List PublicKey) → Keeps cfg S (ensure_value_fetch cfg t v ks)
  unfolding ensure_value_fetch
  ensure_value_fetch-Keeps t v ks = search (step_rules, preorder, fetch_from-Keeps) depth 10

  pub emit_statement-Keeps :
      (t : View) (v : ResolverView) (p : Phase) (d : Digest) (key : Option ResolverView)
      (o : Option ℕ)
      → Keeps cfg S (emit_statement cfg t v p d key o)
  unfolding emit_statement
  emit_statement-Keeps t v p d key o = search (step_rules, preorder, at_send_statement) depth 10

  act_on_echo-Keeps :
      (t : View) (v : ResolverView) (a : EchoAction) → Keeps cfg S (act_on_echo cfg t v a)
  unfolding act_on_echo
  act_on_echo-Keeps t v EchoAction.wait = search (step_rules, preorder)
  act_on_echo-Keeps t v (EchoAction.state p o) =
      emit_statement-Keeps t v Phase.echo p.value (some p.key_view) o
  act_on_echo-Keeps t v (EchoAction.ask p) = search (step_rules, preorder, at_request_vote) depth 10

  pub try_echo-Keeps : (t : View) (v : ResolverView) → Keeps cfg S (try_echo cfg t v)
  unfolding try_echo
  try_echo-Keeps t v = search (step_rules, preorder, act_on_echo-Keeps)

  pub emit_backing_witness-Keeps :
      (t : View) (v : ResolverView) (d : Digest) → Keeps cfg S (emit_backing_witness cfg t v d)
  unfolding emit_backing_witness
  emit_backing_witness-Keeps t v d = search (step_rules, preorder, at_send_witness) depth 12

  pub recheck_backing-Keeps :
      (advance : Resolve (Unit {0})) (t : View) (v : ResolverView)
      → Keeps cfg S advance
      → Keeps cfg S (recheck_backing cfg advance t v)
  unfolding recheck_backing
  recheck_backing-Keeps advance t v h =
      search (step_rules, preorder, emit_backing_witness-Keeps) depth 12

  pub emit_done-Keeps :
      (t : View) (d : Digest) (e : ResolutionEntry) → Keeps cfg S (emit_done cfg t d e)
  unfolding emit_done
  emit_done-Keeps t d e = search (step_rules, preorder, at_send_done) depth 10

  relay_done-Keeps : (t : View) (o : Option Digest) → Keeps cfg S (relay_done cfg t o)
  unfolding relay_done
  relay_done-Keeps t none = search (step_rules, preorder)
  relay_done-Keeps t (some d) = search (step_rules, preorder, emit_done-Keeps) depth 10

  -- What follows the end of an instance.
  settle-Keeps :
      (t : View) (o : Output) → Keeps cfg S (modify_books (forget_fetches cfg t) >> output o)
  settle-Keeps t o = search (step_rules, preorder)

  Keeps-none : (t : View) → Keeps cfg S (decide_on cfg t none)
  unfolding decide_on
  Keeps-none t = search (step_rules, preorder)

  decide_on-After :
      (t : View) (d : Digest) (i : Instance) (w : World)
      → Sound cfg w
      → instance_of t w ≡ some i
      → After cfg S w (decide_on cfg t (some d) w).1
  unfolding decide_on ◌>>=◌ gets output
  decide_on-After t d i w s live = elim (Option-cases (entry_of t d w)) [
    | inl e ↦ rw e ((Keeps-output cfg S preorder Output.panic).at w s)
    | inr (e, known) ↦
        let c = conclude-After cfg S preorder t d e i w s live known in
        rw known (
          After-trans cfg S preorder w (conclude t d e w).1 _ c
            ((settle-Keeps t (Output.effect (Effect.decide e))).at (conclude t d e w).1 c.sound))
  ]

  -- A decision needs the target's instance.
  decide-Keeps :
      (t : View) → Keeps cfg S (reads t none (λ i. winner cfg.quorum i.done) >>= decide_on cfg t)
  unfolding ◌>>=◌ reads
  decide-Keeps t = record {
    at = λ w s. elim (Option-cases (instance_of t w)) [
      | inl e ↦ rw (e, reads) ((Keeps-none t).at w s)
      | inr (i, e) ↦
          rw (e, reads)
            (elim (Option-cases (winner cfg.quorum i.done)) [
              | inl g ↦ rw g ((Keeps-none t).at w s)
              | inr (d, g) ↦ rw g (decide_on-After t d i w s e)
            ])
    ];
  }

  pub recheck_done-Keeps : (t : View) → Keeps cfg S (recheck_done cfg t)
  unfolding recheck_done
  recheck_done-Keeps t =
      Keeps-bind cfg S preorder _ _ (search (step_rules, preorder)) (λ relayed.
        Keeps-bind cfg S preorder _ _ (relay_done-Keeps t relayed) (λ u. decide-Keeps t))

  adopt_phase-Keeps :
      (t : View) (v : ResolverView) (p : Phase) (d : Digest) → Keeps cfg S (adopt_phase cfg t v p d)
  unfolding adopt_phase
  adopt_phase-Keeps t v p d = search (step_rules, preorder, at_adopt, emit_statement-Keeps) depth 10

  module _ (advance : Resolve (Unit {0})) (h : Keeps cfg S advance) where
    leave_echo-Keeps :
        (t : View) (v : ResolverView) (d : Digest) → Keeps cfg S (leave_echo cfg advance t v d)
    unfolding leave_echo
    leave_echo-Keeps t v d =
        search
          (
            step_rules, preorder, emit_backing_witness-Keeps, recheck_backing-Keeps,
            adopt_phase-Keeps,
          )
          depth 14

    follow_winner-Keeps :
        (t : View) (v : ResolverView) (p q : Phase) (b : Ballot)
        → Keeps cfg S (follow_winner cfg advance t v p q b)
    unfolding follow_winner
    follow_winner-Keeps t v p q (key, d) =
        search (step_rules, preorder, ensure_value_fetch-Keeps, leave_echo-Keeps, adopt_phase-Keeps)
          depth 14

    advance_phase-Keeps :
        (t : View) (v : ResolverView) (p q : Phase)
        → Keeps cfg S (advance_phase cfg advance t v p q)
    unfolding advance_phase
    advance_phase-Keeps t v p q = search (step_rules, preorder, follow_winner-Keeps) depth 14

    finish_lock-Keeps : (t : View) (v : ResolverView) → Keeps cfg S (finish_lock cfg t v)
    unfolding finish_lock
    finish_lock-Keeps t v =
        search (step_rules, preorder, ensure_value_fetch-Keeps, emit_done-Keeps) depth 14

    then_step-Keeps :
        (p : Progress) (m : Resolve Progress) → Keeps cfg S m → Keeps cfg S (then_step cfg p m)
    unfolding then_step
    then_step-Keeps Progress.stopped m k = search (step_rules, preorder)
    then_step-Keeps Progress.moved m k = search (step_rules, preorder)
    then_step-Keeps Progress.idle m k = k

    advance_round-Keeps :
        (t : View) (v : ResolverView) → Keeps cfg S (advance_round cfg advance t v)
    unfolding advance_round
    advance_round-Keeps t v =
        search (step_rules, preorder, advance_phase-Keeps, then_step-Keeps, finish_lock-Keeps) depth
          20

    after_round-Keeps : (t : View) (p : Progress) → Keeps cfg S (after_round cfg advance t p)
    unfolding after_round
    after_round-Keeps t Progress.moved = h
    after_round-Keeps t Progress.idle = recheck_done-Keeps t
    after_round-Keeps t Progress.stopped = search (step_rules, preorder)

  if_current-Keeps :
      (t : View) (v : ResolverView) (m : Resolve (Unit {0}))
      → Keeps cfg S m
      → Keeps cfg S (if_current cfg t v m)
  if_current-Keeps t v m k = search (step_rules, preorder)

  advance_loop-Keeps :
      (fuel : ℕ) (t : View) (v : ResolverView) → Keeps cfg S (advance_loop cfg fuel t v)
  unfolding advance_loop
  advance_loop-Keeps zero t v = search (step_rules, preorder)
  advance_loop-Keeps (suc fuel) t v =
      let again = advance_loop-Keeps fuel t v in
      Keeps-bind cfg S preorder _ _ (advance_round-Keeps _ (if_current-Keeps t v _ again) t v)
        (after_round-Keeps _ again t)

  pub advance_view-Keeps : (t : View) (v : ResolverView) → Keeps cfg S (advance_view cfg t v)
  unfolding advance_view
  advance_view-Keeps t v = if_current-Keeps t v _ (advance_loop-Keeps cfg.fuel t v)
