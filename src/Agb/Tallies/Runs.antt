-- ===== src/Agb/Tallies/Runs.antt =====
-- Through every run of the engine, the counters and tallies of a view are true to its statements.
use vantage_bft.Base.{ℕ, ◌≤◌, ◌≡◌, refl, sym, subst, List, arith}
use vantage_bft.Base.Map
use vantage_bft.Base.Map.{Map, lookup}
use vantage_bft.Committee.{Stake, stake}
use vantage_bft.Committee.Census.{Distinct, census-nil}
use vantage_bft.Agb.Types.{View}
use vantage_bft.Agb.State.{Config, EchoStatement, ReadyStatement, ViewState, default}
use vantage_bft.Agb.Statements.{count_echo, count_ready}
use vantage_bft.Agb.Steps.{
  finalize_mix, open_ready, complete, direct, seal, take_lock, release_lock, fastseal,
}
use vantage_bft.Agb.Votes.{claim_non_skip, claim_skip_vote, count_skip_vote, claim_skip_seal}
use vantage_bft.Agb.Monad.{state, init}
use vantage_bft.Agb.Handlers.{cached, start_activity}
use vantage_bft.Agb.Engine.{Event, run}
use vantage_bft.Agb.Laws.{StepLaws}
use vantage_bft.Agb.Evolution.Runs.{run-Evolves}
use vantage_bft.Agb.Tallies.{EchoesTally, ReadiesTally, IsTallied}
use vantage_bft.Agb.Tallies.Echoes.{count_echo-EchoesTally}
use vantage_bft.Agb.Tallies.Readies.{count_ready-ReadiesTally}

-- The echo-stage census of two states is the same, and so is the ready-stage census.
record SameEchoes (s t : ViewState) : Type 0 where
  statements : s.echo_statements ≡ t.echo_statements
  tallies : s.echo_tallies ≡ t.echo_tallies
  skips : s.echo_skip_parties ≡ t.echo_skip_parties

record SameReadies (s t : ViewState) : Type 0 where
  statements : s.ready_statements ≡ t.ready_statements
  tallies : s.ready_tallies ≡ t.ready_tallies
  doubters : s.ready_non_grade_one_parties ≡ t.ready_non_grade_one_parties
  rejecters : s.ready_zero_or_noready_parties ≡ t.ready_zero_or_noready_parties
  refusers : s.noready_parties ≡ t.noready_parties

module _ {A : Map Stake} where
  echoes-same : {s t : ViewState} → SameEchoes s t → EchoesTally A s → EchoesTally A t
  echoes-same e h = record {
    one = λ d. rw (← e.statements, ← e.tallies) (h.one d);
    zero = λ d. rw (← e.statements, ← e.tallies) (h.zero d);
    one_count = λ d. rw (← e.statements, ← e.tallies) (h.one_count d);
    zero_count = λ d. rw (← e.statements, ← e.tallies) (h.zero_count d);
    skips = rw (← e.statements, ← e.skips) h.skips;
  }

  readies-same : {s t : ViewState} → SameReadies s t → ReadiesTally A s → ReadiesTally A t
  readies-same e h = record {
    any = λ d. rw (← e.statements, ← e.tallies) (h.any d);
    one = λ d. rw (← e.statements, ← e.tallies) (h.one d);
    zero = λ d. rw (← e.statements, ← e.tallies) (h.zero d);
    rejecters = rw (← e.statements, ← e.rejecters) h.rejecters;
    refusers = rw (← e.statements, ← e.refusers) h.refusers;
    doubters = rw (← e.statements, ← e.doubters) h.doubters;
    doubters_fit = rw (← e.statements, ← e.doubters) h.doubters_fit;
  }

  same-IsTallied :
      {s t : ViewState} → SameEchoes s t → SameReadies s t → IsTallied A s → IsTallied A t
  same-IsTallied e r h = record {
    echoes = echoes-same e h.echoes;
    readies = readies-same r h.readies;
  }

-- A step keeps the census true.
abbrev Keeps : Map Stake → ViewState → ViewState → Type 0
Keeps A s t = IsTallied A s → IsTallied A t

module _ (cfg : Config) (distinct : Distinct cfg.committee.authorities) where
  abbrev A : Map Stake
  A = cfg.committee.authorities

  count_echo-SameReadies :
      (k : ℕ) (st : EchoStatement) (s : ViewState)
      → SameReadies s (count_echo (stake cfg.committee k) k st s).1
  unfolding count_echo
  count_echo-SameReadies k (EchoStatement.graded p d g o) s = ground arith
  count_echo-SameReadies k EchoStatement.skip s = ground arith

  count_ready-SameEchoes :
      (k : ℕ) (st : ReadyStatement) (s : ViewState)
      → SameEchoes s (count_ready (stake cfg.committee k) k st s).1
  unfolding count_ready
  count_ready-SameEchoes k st s = ground arith

  Keeps-StepLaws : StepLaws cfg (Keeps A)
  unfolding count_skip_vote take_lock release_lock fastseal finalize_mix claim_skip_seal
      claim_skip_vote complete direct seal open_ready claim_non_skip cached start_activity stake
  Keeps-StepLaws = record {
    preorder = record { refl_at = λ s h. h; trans_at = λ a b c p q h. q (p h) };
    at_count_echo = λ k st s h. record {
      echoes = count_echo-EchoesTally A distinct k st s h.echoes;
      readies = readies-same (count_echo-SameReadies k st s) h.readies;
    };
    at_count_ready = λ k st s h. record {
      echoes = echoes-same (count_ready-SameEchoes k st s) h.echoes;
      readies = count_ready-ReadiesTally A distinct k st s h.readies;
    };
    at_count_skip_vote = λ k s. same-IsTallied (ground arith) (ground arith);
    at_take_lock = λ p d s. same-IsTallied (ground arith) (ground arith);
    at_release_lock = λ s. same-IsTallied (ground arith) (ground arith);
    at_fastseal = λ s. same-IsTallied (ground arith) (ground arith);
    at_finalize_mix = λ b s. same-IsTallied (ground arith) (ground arith);
    at_claim_skip_seal = λ s. same-IsTallied (ground arith) (ground arith);
    at_claim_skip_vote = λ s. same-IsTallied (ground arith) (ground arith);
    at_complete = λ t s. same-IsTallied (ground arith) (ground arith);
    at_direct = λ t s. same-IsTallied (ground arith) (ground arith);
    at_seal = λ o s. same-IsTallied (ground arith) (ground arith);
    at_open_ready = λ g s. same-IsTallied (ground arith) (ground arith);
    at_close_mix = λ s. same-IsTallied (ground arith) (ground arith);
    at_ready_sent = λ s. same-IsTallied (ground arith) (ground arith);
    at_echo_sent = λ s. same-IsTallied (ground arith) (ground arith);
    at_claim_non_skip = λ s. same-IsTallied (ground arith) (ground arith);
    at_aux_accepted = λ s. same-IsTallied (ground arith) (ground arith);
    at_start_activity = λ s. same-IsTallied (ground arith) (ground arith);
    at_entered = λ now s. same-IsTallied (ground arith) (ground arith);
    at_cached = λ p s. same-IsTallied (ground arith) (ground arith);
    at_first_instant = λ now s. same-IsTallied (ground arith) (ground arith);
    at_fixed = λ f s unset. same-IsTallied (ground arith) (ground arith);
  }

  IsTallied-default : IsTallied A default
  unfolding lookup Map.count
  IsTallied-default = record {
    echoes = record {
      one = λ d. rw census-nil;
      zero = λ d. rw census-nil;
      one_count = λ d. refl;
      zero_count = λ d. refl;
      skips = refl;
    };
    readies = record {
      any = λ d. rw census-nil;
      one = λ d. rw census-nil;
      zero = λ d. rw census-nil;
      rejecters = refl;
      refusers = refl;
      doubters = omega arith;
      doubters_fit = omega arith;
    };
  }

  state-init : (v : View) → state v init ≡ default
  unfolding state
  state-init v = refl

  -- For a committee with distinct names, after any events from the start and for every view that is
  -- not pruned: each echo tally and each ready tally of a digest is, in `u32`, the summed stake of the
  -- authorities whose counted statement is of that digest and grade; the party counters of echo
  -- tallies, echo-skip, no-ready, and grade-0 or no-ready are the numbers of such statements; and the
  -- count of parties without grade 1 lies between the number of such statements and of all.
  pub run-IsTallied :
      (es : List Event) (v : View)
      → (run cfg es init).engine.min_live_view ≤ v
      → IsTallied A (state v (run cfg es init))
  run-IsTallied es v h =
      (run-Evolves Keeps-StepLaws es init).views v h
        (subst (IsTallied A) (sym (state-init v)) IsTallied-default)
