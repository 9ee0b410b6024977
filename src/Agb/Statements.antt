-- ===== src/Agb/Statements.antt =====
-- primary/src/vantage/agb.rs: counting the echo-stage and ready-stage statements of a view. Tallies
-- are in `u32` stake. The engine's methods read the view's state and call these.
use vantage_bft.Base.{
  ℕ, ◌+◌, Bool, true, false, Option, none, some, List, [], ◌∷◌, length, replicate, is_some, u32,
  ◌==◌, if◌then◌else◌,
}
use vantage_bft.Base.Map.{Map, lookup, insert}
use vantage_bft.Committee.{PublicKey, Stake}
use vantage_bft.Agb.Types.{Digest, ProposalOut, ReadyGrade, entries}
use vantage_bft.Agb.State.{EchoStatement, EchoTally, ReadyStatement, ReadyTally, ViewState}
use mathlib.Core.Option.{get_or}

abbrev is_one : Option ℕ → Bool
is_one none = false
is_one (some b) = b == 1

-- The loop over `origin`. It has no more bits than the proposal has entries.
unfoldable pub bump_ones : List (Option ℕ) → List ℕ → List ℕ
bump_ones [] ones = ones
bump_ones (bit ∷ bits) [] = []
bump_ones (bit ∷ bits) (x ∷ xs) = (if is_one bit then x + 1 else x) ∷ bump_ones bits xs

unfoldable pub empty_echo_tally : ProposalOut → EchoTally
unfolding entries
empty_echo_tally p = record {
  proposal = p;
  grade_one = 0;
  grade_zero = 0;
  grade_one_parties = 0;
  grade_zero_parties = 0;
  origin_ones = replicate (length (entries p)) 0;
}

unfoldable pub add_echo : Stake → ℕ → List (Option ℕ) → EchoTally → EchoTally
unfolding bump_ones
add_echo stake grade origin t =
    if grade == 1
    then (record t {
      grade_one = u32 (t.grade_one + stake);
      grade_one_parties = t.grade_one_parties + 1;
      origin_ones = bump_ones origin t.origin_ones;
    })
    else (record t {
      grade_zero = u32 (t.grade_zero + stake);
      grade_zero_parties = t.grade_zero_parties + 1;
      origin_ones = bump_ones origin t.origin_ones;
    })

unfoldable pub record_echo : Stake → PublicKey → EchoStatement → ViewState → ViewState
unfolding add_echo empty_echo_tally lookup insert
record_echo stake sender (EchoStatement.graded p d grade origin) s = record s {
  echo_tallies =
      insert d (add_echo stake grade origin (get_or (lookup d s.echo_tallies) (empty_echo_tally p)))
        s.echo_tallies;
  echo_statements = insert sender (EchoStatement.graded p d grade origin) s.echo_statements;
}
record_echo stake sender EchoStatement.skip s = record s {
  echo_skip_parties = s.echo_skip_parties + 1;
  echo_statements = insert sender EchoStatement.skip s.echo_statements;
}

unfoldable pub count_echo : Stake → PublicKey → EchoStatement → ViewState → Bool × ViewState
unfolding record_echo
count_echo stake sender st s =
    if is_some (lookup sender s.echo_statements)
    then (false, s)
    else (true, record_echo stake sender st s)

unfoldable pub empty_ready_tally : ProposalOut → ReadyTally
empty_ready_tally p = record { proposal = p; any = 0; grade_one = 0; grade_zero = 0 }

abbrev add_grade : Stake → ReadyGrade → ReadyTally → ReadyTally
add_grade stake ReadyGrade.one t = record t { grade_one = u32 (t.grade_one + stake) }
add_grade stake ReadyGrade.zero t = record t { grade_zero = u32 (t.grade_zero + stake) }
add_grade stake ReadyGrade.mix t = t

unfoldable pub add_ready : Stake → ReadyGrade → ReadyTally → ReadyTally
add_ready stake g t = add_grade stake g (record t { any = u32 (t.any + stake) })

-- What a new ready-stage statement adds to the counters of parties.
abbrev non_grade_one : ReadyStatement → ℕ
non_grade_one (ReadyStatement.graded p d ReadyGrade.one) = 0
non_grade_one (ReadyStatement.graded p d ReadyGrade.zero) = 1
non_grade_one (ReadyStatement.graded p d ReadyGrade.mix) = 1
non_grade_one ReadyStatement.no_ready = 1

abbrev zero_or_noready : ReadyStatement → ℕ
zero_or_noready (ReadyStatement.graded p d ReadyGrade.one) = 0
zero_or_noready (ReadyStatement.graded p d ReadyGrade.zero) = 1
zero_or_noready (ReadyStatement.graded p d ReadyGrade.mix) = 0
zero_or_noready ReadyStatement.no_ready = 1

abbrev noready : ReadyStatement → ℕ
noready (ReadyStatement.graded p d g) = 0
noready ReadyStatement.no_ready = 1

unfoldable pub tally_ready : Stake → ReadyStatement → Map ReadyTally → Map ReadyTally
unfolding add_ready empty_ready_tally lookup insert
tally_ready stake (ReadyStatement.graded p d g) tallies =
    insert d (add_ready stake g (get_or (lookup d tallies) (empty_ready_tally p))) tallies
tally_ready stake ReadyStatement.no_ready tallies = tallies

unfoldable pub record_ready : Stake → PublicKey → ReadyStatement → ViewState → ViewState
unfolding tally_ready
record_ready stake sender st s = record s {
  ready_tallies = tally_ready stake st s.ready_tallies;
  ready_non_grade_one_parties = s.ready_non_grade_one_parties + non_grade_one st;
  ready_zero_or_noready_parties = s.ready_zero_or_noready_parties + zero_or_noready st;
  noready_parties = s.noready_parties + noready st;
  ready_statements = insert sender st s.ready_statements;
}

-- `valid_refinement`: from a mix to another grade of the same digest.
unfoldable pub valid_refinement : ReadyStatement → ReadyStatement → Bool
valid_refinement (ReadyStatement.graded p d ReadyGrade.mix)
      (ReadyStatement.graded q e ReadyGrade.zero) =
    d == e
valid_refinement (ReadyStatement.graded p d ReadyGrade.mix)
      (ReadyStatement.graded q e ReadyGrade.one) =
    d == e
valid_refinement old new = false

-- A refinement of the statement `st` of `sender` to the tally that its mix has counted in.
refine_tally :
    Stake
    → PublicKey
    → ReadyStatement
    → Digest
    → ReadyGrade
    → Option ReadyTally
    → ViewState
    → Bool × ViewState
unfolding insert
refine_tally stake sender st d g none s = (false, s)
refine_tally stake sender st d g (some t) s = (
  true,
  record s {
    ready_tallies = insert d (add_grade stake g t) s.ready_tallies;
    ready_zero_or_noready_parties = s.ready_zero_or_noready_parties + zero_or_noready st;
    ready_statements = insert sender st s.ready_statements;
  },
)

unfoldable pub refine_ready : Stake → PublicKey → ReadyStatement → ViewState → Bool × ViewState
unfolding refine_tally lookup
refine_ready stake sender (ReadyStatement.graded p d g) s =
    refine_tally stake sender (ReadyStatement.graded p d g) d g (lookup d s.ready_tallies) s
refine_ready stake sender ReadyStatement.no_ready s = (false, s)

count_ready_after :
    Option ReadyStatement → Stake → PublicKey → ReadyStatement → ViewState → Bool × ViewState
unfolding record_ready refine_ready valid_refinement
count_ready_after none stake sender st s = (true, record_ready stake sender st s)
count_ready_after (some old) stake sender st s =
    if valid_refinement old st then refine_ready stake sender st s else (false, s)

unfoldable pub count_ready : Stake → PublicKey → ReadyStatement → ViewState → Bool × ViewState
unfolding count_ready_after
count_ready stake sender st s =
    count_ready_after (lookup sender s.ready_statements) stake sender st s
