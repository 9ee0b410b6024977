-- ===== src/Agb/Irrevocable/Runs.antt =====
-- Every step of the engine is irrevocable, and so is every run.
use vantage_bft.Base.{
  ◌≤◌, ◌≡◌, refl, inl, inr, Bool, true, false, some, List, arith, member, Option-cases, Bool-cases,
  if◌then◌else◌,
}
use vantage_bft.Base.Map.{lookup, lookup-insert}
use vantage_bft.Committee.{PublicKey, stake}
use vantage_bft.Agb.Types.{View, Digest, ProposalOut}
use vantage_bft.Agb.State.{Config, EchoStatement, Lock, ReadyStatement, ViewState}
use vantage_bft.Agb.Statements.{count_echo, count_ready, refine_ready, valid_refinement}
use vantage_bft.Agb.Steps.{
  finalize_mix, open_ready, complete, direct, seal, take_lock, release_lock, fastseal,
}
use vantage_bft.Agb.Votes.{claim_non_skip, claim_skip_vote, count_skip_vote, claim_skip_seal}
use vantage_bft.Agb.Handlers.{cached, start_activity}
use vantage_bft.Agb.Monad.{World, state}
use vantage_bft.Agb.Engine.{Event, run}
use vantage_bft.Agb.Laws.{StepLaws}
use vantage_bft.Agb.Evolution.Runs.{run-Evolves}
use vantage_bft.Agb.Irrevocable.{KeepsMarks, KeepsResults, Irrevocable, KeptReady, SameLock}
use vantage_bft.Agb.Irrevocable.Order.{
  SameStatements, keeps_same, ready_same, lock_same, insert-KeptReady, Irrevocable-Preorder,
}

irrevocable :
    {s t : ViewState} → KeepsMarks s t → KeepsResults s t → SameStatements s t → Irrevocable s t
irrevocable {s} {t} m r e = record { marks = m; results = r; statements = keeps_same s t e }

same_after :
    (l : Lock) (s : ViewState) (b : Bool)
    → s.lock ≡ some l
    → SameLock l (if b then (record s { lock = some (record l { active = false }) }) else s).lock
same_after l s true h = (refl, refl, λ a. refl)
same_after l s false h = rw h (refl, refl, λ a. a)

module _ (cfg : Config) where
  count_echo-Irrevocable :
      (k : PublicKey) (st : EchoStatement) (s : ViewState)
      → Irrevocable s (count_echo (stake cfg.committee k) k st s).1
  unfolding count_echo
  count_echo-Irrevocable k (EchoStatement.graded p d g o) s = record {
    marks = ground arith;
    results = ground arith;
    statements = record {
      echo = λ j x h.
          ground (arith, lookup-insert k j (EchoStatement.graded p d g o) s.echo_statements);
      ready =
          ready_same s (count_echo (stake cfg.committee k) k (EchoStatement.graded p d g o) s).1
            (ground arith);
      skip_vote = λ j h. ground (arith, h);
      lock =
          lock_same s (count_echo (stake cfg.committee k) k (EchoStatement.graded p d g o) s).1
            (ground arith);
    };
  }
  count_echo-Irrevocable k EchoStatement.skip s = record {
    marks = ground arith;
    results = ground arith;
    statements = record {
      echo = λ j x h. ground (arith, lookup-insert k j EchoStatement.skip s.echo_statements);
      ready =
          ready_same s (count_echo (stake cfg.committee k) k EchoStatement.skip s).1 (ground arith);
      skip_vote = λ j h. ground (arith, h);
      lock =
          lock_same s (count_echo (stake cfg.committee k) k EchoStatement.skip s).1 (ground arith);
    };
  }

  refine_ready-KeptReady :
      (k : PublicKey) (old st : ReadyStatement) (s : ViewState)
      → lookup k s.ready_statements ≡ some old
      → valid_refinement old st ≡ true
      → (j : PublicKey) (x : ReadyStatement) → lookup j s.ready_statements ≡ some x
      → KeptReady x (lookup j (refine_ready (stake cfg.committee k) k st s).1.ready_statements)
  unfolding refine_ready
  refine_ready-KeptReady k old ReadyStatement.no_ready s e v j x h = rw h (inl refl)
  refine_ready-KeptReady k old (ReadyStatement.graded p d g) s e v j x h =
      elim (Option-cases (lookup d s.ready_tallies)) [
        | inl gone ↦ rw (gone, h) (inl refl)
        | inr (t, found) ↦ rw found (insert-KeptReady s.ready_statements k j _ x (λ o f. cc) h)
      ]

  count_ready-KeptReady :
      (k : PublicKey) (st : ReadyStatement) (s : ViewState) (j : PublicKey) (x : ReadyStatement)
      → lookup j s.ready_statements ≡ some x
      → KeptReady x (lookup j (count_ready (stake cfg.committee k) k st s).1.ready_statements)
  unfolding count_ready
  count_ready-KeptReady k st s j x h = elim (Option-cases (lookup k s.ready_statements)) [
    | inl e ↦ rw e (insert-KeptReady s.ready_statements k j st x (λ o f. cc) h)
    | inr (old, e) ↦ elim (Bool-cases (valid_refinement old st)) [
      | inl v ↦ rw (e, v) (refine_ready-KeptReady k old st s e v j x h)
      | inr v ↦ rw (e, v) (rw h (inl refl))
    ]
  ]

  count_ready-Irrevocable :
      (k : PublicKey) (st : ReadyStatement) (s : ViewState)
      → Irrevocable s (count_ready (stake cfg.committee k) k st s).1
  unfolding count_ready
  count_ready-Irrevocable k st s = record {
    marks = ground arith;
    results = ground arith;
    statements = record {
      echo = λ j x h. ground (arith, h);
      ready = count_ready-KeptReady k st s;
      skip_vote = λ j h. ground (arith, h);
      lock = lock_same s (count_ready (stake cfg.committee k) k st s).1 (ground arith);
    };
  }

  count_skip_vote-Irrevocable :
      (k : PublicKey) (s : ViewState) → Irrevocable s (count_skip_vote k s).1
  unfolding count_skip_vote member
  count_skip_vote-Irrevocable k s = record {
    marks = ground arith;
    results = ground arith;
    statements = record {
      echo = λ j x h. ground (arith, h);
      ready = ready_same s (count_skip_vote k s).1 (ground arith);
      skip_vote = λ j h. ground (arith, h);
      lock = lock_same s (count_skip_vote k s).1 (ground arith);
    };
  }

  take_lock-Irrevocable :
      (p : ProposalOut) (d : Digest) (s : ViewState) → Irrevocable s (take_lock cfg p d s)
  unfolding take_lock
  take_lock-Irrevocable p d s = record {
    marks = ground arith;
    results = ground arith;
    statements = record {
      echo = λ j x h. ground (arith, h);
      ready = ready_same s (take_lock cfg p d s) (ground arith);
      skip_vote = λ j h. ground (arith, h);
      lock = λ l h. rw (h, take_lock) (refl, refl, λ a. a);
    };
  }

  release_lock-SameLock :
      (s : ViewState) (l : Lock) → s.lock ≡ some l → SameLock l (release_lock cfg s).lock
  unfolding release_lock
  release_lock-SameLock s l h = rw (h, release_lock) (same_after l s _ h)

  release_lock-Irrevocable : (s : ViewState) → Irrevocable s (release_lock cfg s)
  unfolding release_lock
  release_lock-Irrevocable s = record {
    marks = ground arith;
    results = ground arith;
    statements = record {
      echo = λ j x h. ground (arith, h);
      ready = ready_same s (release_lock cfg s) (ground arith);
      skip_vote = λ j h. ground (arith, h);
      lock = release_lock-SameLock s;
    };
  }

  Irrevocable-StepLaws : StepLaws cfg Irrevocable
  unfolding fastseal finalize_mix claim_skip_seal claim_skip_vote complete direct seal open_ready
      claim_non_skip cached start_activity
  Irrevocable-StepLaws = record {
    preorder = Irrevocable-Preorder;
    at_count_echo = count_echo-Irrevocable;
    at_count_ready = count_ready-Irrevocable;
    at_count_skip_vote = count_skip_vote-Irrevocable;
    at_take_lock = take_lock-Irrevocable;
    at_release_lock = release_lock-Irrevocable;
    at_fastseal = λ s. irrevocable (ground arith) (ground arith) (ground arith);
    at_finalize_mix = λ b s. irrevocable (ground arith) (ground arith) (ground arith);
    at_claim_skip_seal = λ s. irrevocable (ground arith) (ground arith) (ground arith);
    at_claim_skip_vote = λ s. irrevocable (ground arith) (ground arith) (ground arith);
    at_complete = λ t s. irrevocable (ground arith) (ground arith) (ground arith);
    at_direct = λ t s. irrevocable (ground arith) (ground arith) (ground arith);
    at_seal = λ o s. irrevocable (ground arith) (ground arith) (ground arith);
    at_open_ready = λ g s. irrevocable (ground arith) (ground arith) (ground arith);
    at_close_mix = λ s. irrevocable (ground arith) (ground arith) (ground arith);
    at_ready_sent = λ s. irrevocable (ground arith) (ground arith) (ground arith);
    at_echo_sent = λ s. irrevocable (ground arith) (ground arith) (ground arith);
    at_claim_non_skip = λ s. irrevocable (ground arith) (ground arith) (ground arith);
    at_aux_accepted = λ s. irrevocable (ground arith) (ground arith) (ground arith);
    at_start_activity = λ s. irrevocable (ground arith) (ground arith) (ground arith);
    at_entered = λ now s. irrevocable (ground arith) (ground arith) (ground arith);
    at_cached = λ p s. irrevocable (ground arith) (ground arith) (ground arith);
    at_first_instant = λ now s. irrevocable (ground arith) (ground arith) (ground arith);
    at_fixed = λ f s unset. irrevocable (ground arith) (ground arith) (ground arith);
  }

  -- Through any events from any state, and for every view that is not pruned at the end: a fixed or
  -- rejected proposal stays; echo_sent, ready_sent, entered, active, fastsealed, skip_sealed and
  -- aux_accepted stay set; a stance that is not free stays; completed, directed and sealed keep their
  -- first value; the first echo-stage statement of a party stays; its first ready-stage statement
  -- stays or is a mix that was refined to a grade of the same digest; its skip vote stays; and a lock
  -- stays on its proposal and digest, and inactive once it is inactive.
  pub run-Irrevocable :
      (es : List Event) (w : World) (v : View)
      → (run cfg es w).engine.min_live_view ≤ v
      → Irrevocable (state v w) (state v (run cfg es w))
  run-Irrevocable es w v h = (run-Evolves Irrevocable-StepLaws es w).views v h
