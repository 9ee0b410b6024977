-- ===== src/Agb/Steps.antt =====
-- primary/src/vantage/agb.rs: what the engine's methods do to the state of one view. Each step reads
-- and writes one `ViewState`, as the methods do behind `state_mut`.
use vantage_bft.Base.{
  ℕ, ◌+◌, ◌-◌, Bool, true, false, not, ◌&&◌, ◌||◌, Option, none, some, List, [], ◌∷◌, length,
  is_some, is_none, is_empty, u32, ltb, leb, ◌==◌, if◌then◌else◌,
}
use vantage_bft.Base.Map.{Map, lookup}
use vantage_bft.Committee.{Stake}
use vantage_bft.Agb.Types.{
  Digest, ProposalOut, ResolutionEntry, ReadyGrade, Outcome, core_of, tip_of, entries,
}
use vantage_bft.Agb.State.{Config, EchoTally, ReadyStatement, ReadyTally, ViewState}

-- The proposal that a ready names: its digest, its body and the grade.
abbrev pub Candidate : Type 0
Candidate = Digest × ProposalOut × ReadyGrade

-- `l[i]` where the index is in range.
abbrev at_or_zero : List ℕ → ℕ
at_or_zero [] = 0
at_or_zero (x ∷ xs) = x

abbrev tail : List ℕ → List ℕ
tail [] = []
tail (x ∷ xs) = xs

abbrev needs_origin : ResolutionEntry → Bool
needs_origin (ResolutionEntry.full u c t) = true
needs_origin (ResolutionEntry.core u c t) = true
needs_origin (ResolutionEntry.skip u) = false

-- The ready guard over the entries and their `origin_ones`, which are as many.
unfoldable pub ready_guard : ℕ → List ResolutionEntry → List ℕ → Bool
ready_guard f_plus_1 [] ones = true
ready_guard f_plus_1 (e ∷ rest) ones =
    (not (needs_origin e) || leb f_plus_1 (at_or_zero ones))
    && ready_guard f_plus_1 rest (tail ones)

abbrev pub grade_of : Stake → EchoTally → ReadyGrade
grade_of quorum t =
    if leb quorum t.grade_one
    then ReadyGrade.one
    else if leb quorum t.grade_zero
    then ReadyGrade.zero
    else ReadyGrade.mix

-- The body of `find_map`: the candidate that one tally makes.
unfoldable pub candidate_in : Config → Digest → EchoTally → Option Candidate
unfolding ready_guard entries
candidate_in cfg digest t =
    if ltb (u32 (t.grade_one + t.grade_zero)) cfg.quorum
    then none
    else if not (ready_guard cfg.f_plus_1_parties (entries t.proposal) t.origin_ones)
    then none
    else some (digest, t.proposal, grade_of cfg.quorum t)

unfoldable pub first_candidate : Config → Map EchoTally → Option Candidate
unfolding candidate_in
first_candidate cfg [] = none
first_candidate cfg ((d, t) ∷ rest) =
    let later = first_candidate cfg rest in
    elim (candidate_in cfg d t) [ some c ↦ some c | none ↦ later ]

unfoldable pub ready_candidate : Config → ViewState → Option Candidate
unfolding first_candidate
ready_candidate cfg s = first_candidate cfg s.echo_tallies

refined_grade : Config → ProposalOut → Digest → Option EchoTally → Option Candidate
refined_grade cfg p d none = none
refined_grade cfg p d (some t) =
    if leb cfg.quorum t.grade_one
    then some (d, p, ReadyGrade.one)
    else if leb cfg.quorum t.grade_zero
    then some (d, p, ReadyGrade.zero)
    else none

own_mix : Config → Map EchoTally → Option ReadyStatement → Option Candidate
unfolding refined_grade lookup
own_mix cfg tallies (some (ReadyStatement.graded p d ReadyGrade.mix)) =
    refined_grade cfg p d (lookup d tallies)
own_mix cfg tallies other = none

unfoldable pub ready_refinement_candidate : Config → ViewState → Option Candidate
unfolding own_mix
ready_refinement_candidate cfg s =
    if not s.ready_mix_open
    then none
    else own_mix cfg s.echo_tallies (lookup cfg.name s.ready_statements)

unfoldable pub finalize_mix : Config → Bool → ViewState → ViewState
finalize_mix cfg deadline s =
    if s.ready_mix_open && (deadline || length s.echo_statements == cfg.n)
    then (record s { ready_mix_open = false })
    else s

abbrev is_mix : ReadyGrade → Bool
is_mix ReadyGrade.mix = true
is_mix g = false

unfoldable pub open_ready : ReadyGrade → ViewState → ViewState
open_ready grade s = record s { ready_sent = true; ready_mix_open = is_mix grade }

-- `completed` is set once, at a quorum of readies of any grade. The result says whether the view is
-- completed open, if it is completed by this call.
unfoldable pub complete : Config → ReadyTally → ViewState → Option Bool × ViewState
unfolding core_of tip_of
complete cfg t s =
    let c = core_of t.proposal in
    let tips = tip_of t.proposal in
    let is_open =
      ltb t.grade_one cfg.quorum && ltb t.grade_zero cfg.quorum && not (is_empty tips) in
    if leb cfg.quorum t.any && is_none s.completed
    then (
      some is_open,
      record s {
        completed = some (c, tips);
        completed_open_unsealed = is_open && is_none s.sealed;
      },
    )
    else (none, s)

-- `directed` is set once, at a quorum of readies of grade 1 or of grade 0.
unfoldable pub direct : Config → ReadyTally → ViewState → Option Outcome × ViewState
unfolding core_of tip_of
direct cfg t s =
    let full = Outcome.full (core_of t.proposal) (tip_of t.proposal) in
    let core = Outcome.core (core_of t.proposal) in
    if is_some s.directed
    then (none, s)
    else if leb cfg.quorum t.grade_one
    then (some full, record s { directed = some full })
    else if leb cfg.quorum t.grade_zero
    then (some core, record s { directed = some core })
    else (none, s)

-- The terminal arbiter: the first outcome stays.
unfoldable pub seal : Outcome → ViewState → Bool × ViewState
seal outcome s =
    if is_some s.sealed
    then (false, s)
    else (true, record s { completed_open_unsealed = false; sealed = some outcome })

abbrev one_parties_of : Option EchoTally → ℕ
one_parties_of none = 0
one_parties_of (some t) = t.grade_one_parties

unfoldable pub matching_echo_count : ViewState → Digest → ℕ
unfolding lookup
matching_echo_count s d = one_parties_of (lookup d s.echo_tallies)

unfoldable pub nonmatching_echo_count : ViewState → Digest → ℕ
unfolding matching_echo_count
nonmatching_echo_count s d = length s.echo_statements - matching_echo_count s d

unfoldable pub take_lock : Config → ProposalOut → Digest → ViewState → ViewState
unfolding nonmatching_echo_count
take_lock cfg p d s = if is_some s.lock then s else (record s {
  lock = some (record {
    proposal = p;
    digest = d;
    active = ltb (nonmatching_echo_count s d) cfg.f_plus_1_parties;
  });
})

unfoldable pub release_lock : Config → ViewState → ViewState
unfolding nonmatching_echo_count
release_lock cfg s = elim s.lock [
  | none ↦ s
  | some l ↦
      if l.active && leb cfg.f_plus_1_parties (nonmatching_echo_count s l.digest)
      then (record s { lock = some (record l { active = false }) })
      else s
]

unfoldable pub fastseal : Config → ViewState → Option Outcome × ViewState
unfolding matching_echo_count core_of tip_of
fastseal cfg s = elim s.lock [
  | none ↦ (none, s)
  | some l ↦
      if l.active && not s.fastsealed && matching_echo_count s l.digest == cfg.n
      then (
        some (Outcome.full (core_of l.proposal) (tip_of l.proposal)),
        record s { fastsealed = true },
      )
      else (none, s)
]
