-- ===== src/Resolve/Lasting/Runs.antt =====
-- A run of the resolver keeps its invariant, and what it has said or decided.
use vantage_bft.Base.{ℕ, refl, List, []}
use vantage_bft.Base.Map.{lookup}
use vantage_bft.Resolve.State.{Config, new_resolver}
use vantage_bft.Resolve.Monad.{World, instance_of, entry_of}
use vantage_bft.Resolve.Engine.{Event, decision, run}
use vantage_bft.Resolve.Sound.{Sound, Evolves}
use vantage_bft.Resolve.Sound.Runs.{run-After}
use vantage_bft.Resolve.Lasting.{Kept}
use vantage_bft.Resolve.Lasting.Steps.{Kept-StepLaws}
use mathlib.Core.Option.{none-ne-some}

-- A new resolver.
abbrev pub start : World
start = record { resolver = new_resolver; now = 0; out = [] }

start-Sound : (cfg : Config) → Sound cfg start
unfolding instance_of decision entry_of lookup
start-Sound cfg = record {
  disjoint = λ t i h. refl;
  retained = λ t i h. absurd (none-ne-some i h);
  values = λ t v e h. absurd (none-ne-some e h);
  decided = λ t v e h. absurd (none-ne-some (v, e) h);
}

-- In whatever order events reach a new resolver, and for every fuel: a target with an instance is
-- retained and not decided; every stored value, and the entry of every decision, is a well-formed
-- entry of its target whose digest is the value it is stored under or decided as.
pub run-Sound : (cfg : Config) (es : List (ℕ × Event)) → Sound cfg (run cfg es start)
run-Sound cfg es = (run-After Kept-StepLaws es start (start-Sound cfg)).sound

-- From a sound state, in any run: the floor goes up, and above the last floor a decision never
-- changes, and an instance goes on or ends in a decision. While it goes on, its wish and its
-- entered views go up, its DONE stays, and each view keeps the proposal that it took, the witness
-- that it sent, and the value that it stated in each phase.
pub run-Kept :
    (cfg : Config) (es : List (ℕ × Event)) (w : World) → Sound cfg w → Evolves Kept w (run cfg es w)
run-Kept cfg es w s = (run-After Kept-StepLaws es w s).evolves
