-- ===== src/Tests.antt =====
-- The properties at the sample run, and tests of it.
use vantage_bft.Base.{◌≡◌, ◌<◌, refl, some, [], ◌∷◌, ◌++◌, arith}
use vantage_bft.Base.{◌+◌, ◌*◌, ◌%◌, get_elem?}
use vantage_bft.Leader.{get_leader, keys}
use vantage_bft.Leader.Schedule.{get_leader_lem}
use vantage_bft.Committee.{size}
use vantage_bft.Base.Map.{lookup}
use vantage_bft.Threshold.{IsBft, from_party_count, from_party_count-IsBft}
use vantage_bft.Committee.{quorum_threshold}
use vantage_bft.Agb.Types.{Digest, Outcome}
use vantage_bft.Agb.Monad.{state, init}
use vantage_bft.Agb.Engine.{run}
use vantage_bft.Agb.Tallies.{IsTallied, ready_zero}
use vantage_bft.Agb.Tallies.Runs.{run-IsTallied}
use vantage_bft.Agb.Irrevocable.{Irrevocable}
use vantage_bft.Agb.Irrevocable.Runs.{run-Irrevocable}
use vantage_bft.Agb.Quorums.{run-ready_any, run-ready_one}
use vantage_bft.Samples.{committee, config, digest, opening, closing, opened, closed}

closed_outcome : (state 1 closed).sealed ≡ some (Outcome.full ((10, 3, 71) ∷ []) ((20, 1, 72) ∷ []))
unfolding opened closed
closed_outcome = refl

from_party_count-IsBft_example : IsBft (from_party_count 4)
from_party_count-IsBft_example = from_party_count-IsBft 4 (omega arith)

run-IsTallied_example : IsTallied committee.authorities (state 1 (run config opening init))
unfolding opened
run-IsTallied_example =
    run-IsTallied config (refl, (refl, (refl, (refl, tt)))) opening 1 (omega arith)

run-Irrevocable_example : Irrevocable (state 1 opened) (state 1 (run config closing opened))
unfolding opened closed
run-Irrevocable_example = run-Irrevocable config closing opened 1 (omega arith)

abbrev accepted : Digest
accepted = 101

run-ready_any_example : accepted ≡ accepted
unfolding opened closed
run-ready_any_example =
    run-ready_any 10 committee digest 500 (opening ++ closing) 1 (refl, (refl, (refl, (refl, tt))))
      (omega arith) (omega arith) accepted accepted (omega arith) (omega arith)

run-ready_one_example :
    ready_zero (lookup accepted (state 1 (run config (opening ++ closing) init)).ready_tallies)
    < quorum_threshold committee
unfolding opened closed
run-ready_one_example =
    run-ready_one 10 committee digest 500 (opening ++ closing) 1 (refl, (refl, (refl, (refl, tt))))
      (omega arith) (omega arith) accepted accepted (omega arith)

get_leader_lem_example :
    get_leader committee 3 6 ≡ get_elem? (keys committee.authorities) ((6 + 3 * 1) % 4)
unfolding size
get_leader_lem_example = get_leader_lem committee 3 6 (omega arith) (omega arith)
