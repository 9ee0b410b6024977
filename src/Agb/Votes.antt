-- ===== src/Agb/Votes.antt =====
-- primary/src/vantage/agb.rs: skip votes and the stance of a view, and the verdict on resolution
-- entries, as steps on one `ViewState`.
use vantage_bft.Base.{
  ℕ, Bool, true, false, not, ◌&&◌, ◌||◌, Option, none, some, [], ◌∷◌, length, all, member, is_some,
  ltb, leb, ◌==◌, if◌then◌else◌,
}
use vantage_bft.Base.Map.{lookup}
use vantage_bft.Claim.{BlockRef}
use vantage_bft.Committee.{PublicKey}
use vantage_bft.Agb.Types.{
  Manifest, ReadyGrade, ResolutionEntry, Outcome, core_of, tip_of, manifest_eq,
}
use vantage_bft.Agb.State.{Config, EchoStatement, Lock, ReadyStatement, Stance, ViewState}

-- What the engine asks of the lanes (primary/src/vantage/lanes.rs): four tests on a block reference.
-- `holds_prefix` also pins the blocks of the prefix, which none of the four answers depends on.
pub record LaneView : Type 0 where
  pub author_ok : BlockRef → Bool
  pub holds_prefix : BlockRef → Bool
  pub prefix_contains : BlockRef → BlockRef → Bool
  pub locally_available : BlockRef → Bool

-- `by_author`: the last entry of an author wins, as `collect` into a `HashMap` keeps it.
pub by_author : PublicKey → Manifest → Option BlockRef
by_author a [] = none
by_author a (r ∷ rest) = elim (by_author a rest) [
  | some later ↦ some later
  | none ↦ if r.0 == a then some r else none
]

abbrev tip_extends : LaneView → BlockRef → Option BlockRef → Bool
tip_extends lm t none = true
tip_extends lm t (some c) =
    if leb t.1 c.1 then false else if not (lm.holds_prefix t) then false else lm.prefix_contains t c

unfoldable pub tip_ok : Manifest → Manifest → LaneView → Bool
unfolding all by_author
tip_ok c t lm = all (λ r. tip_extends lm r (by_author r.0 c)) t

unfoldable pub core_ok : Manifest → LaneView → Bool
unfolding all
core_ok c lm = all lm.author_ok c

pub data MetaEntryStatus : Type 0 where
  ok not_yet never : MetaEntryStatus

abbrev lock_blocks : ResolutionEntry → Option Lock → Bool
lock_blocks e none = false
lock_blocks (ResolutionEntry.full u c t) (some l) =
    l.active && not (manifest_eq (core_of l.proposal) c && manifest_eq (tip_of l.proposal) t)
lock_blocks (ResolutionEntry.core u c t) (some l) = l.active
lock_blocks (ResolutionEntry.skip u) (some l) = l.active

abbrev grade_is : ReadyGrade → ReadyGrade → Bool
grade_is ReadyGrade.zero ReadyGrade.zero = true
grade_is ReadyGrade.one ReadyGrade.one = true
grade_is ReadyGrade.mix ReadyGrade.mix = true
grade_is a b = false

-- Whether the own ready is of the excluded grade, or names another payload.
abbrev ready_contradicts : ReadyGrade → Manifest → Manifest → ReadyStatement → Bool
ready_contradicts excluded c t (ReadyStatement.graded p d g) =
    grade_is g excluded || not (manifest_eq (core_of p) c) || not (manifest_eq (tip_of p) t)
ready_contradicts excluded c t ReadyStatement.no_ready = false

abbrev available : LaneView → Manifest → Bool
available lm m = all lm.locally_available m

abbrev is_noready : ReadyStatement → Bool
is_noready (ReadyStatement.graded p d g) = false
is_noready ReadyStatement.no_ready = true

-- The verdict once the own echo and the own ready are known and no lock stands in the way.
unfoldable pub value_status : LaneView → ReadyStatement → ResolutionEntry → MetaEntryStatus
unfolding all tip_ok manifest_eq core_of tip_of
value_status lm ready (ResolutionEntry.full u c t) =
    if ready_contradicts ReadyGrade.zero c t ready
    then MetaEntryStatus.never
    else if not (available lm c)
    then MetaEntryStatus.not_yet
    else if not (available lm t)
    then MetaEntryStatus.not_yet
    else if tip_ok c t lm
    then MetaEntryStatus.ok
    else MetaEntryStatus.not_yet
value_status lm ready (ResolutionEntry.core u c t) =
    if ready_contradicts ReadyGrade.one c t ready
    then MetaEntryStatus.never
    else if available lm c
    then MetaEntryStatus.ok
    else MetaEntryStatus.not_yet
value_status lm ready (ResolutionEntry.skip u) =
    if is_noready ready then MetaEntryStatus.ok else MetaEntryStatus.never

status_after_ready :
    LaneView → ResolutionEntry → ViewState → Option ReadyStatement → MetaEntryStatus
unfolding value_status
status_after_ready lm e s none = MetaEntryStatus.not_yet
status_after_ready lm e s (some ready) =
    if s.ready_mix_open
    then MetaEntryStatus.not_yet
    else if lock_blocks e s.lock
    then MetaEntryStatus.not_yet
    else value_status lm ready e

-- The verdict at a target that is not pruned and has state.
unfoldable pub entry_status : Config → LaneView → ResolutionEntry → ViewState → MetaEntryStatus
unfolding status_after_ready lookup
entry_status cfg lm e s =
    if is_some (lookup cfg.name s.echo_statements)
    then status_after_ready lm e s (lookup cfg.name s.ready_statements)
    else MetaEntryStatus.not_yet

abbrev is_skip_voted : Stance → Bool
is_skip_voted Stance.skip_voted = true
is_skip_voted Stance.non_skip = false
is_skip_voted Stance.free = false

abbrev is_free : Stance → Bool
is_free Stance.free = true
is_free Stance.non_skip = false
is_free Stance.skip_voted = false

abbrev pub sealed_skip : Option Outcome → Bool
sealed_skip none = false
sealed_skip (some (Outcome.full c t)) = false
sealed_skip (some (Outcome.core c)) = false
sealed_skip (some Outcome.skip) = true

abbrev sealed_value : Option Outcome → Bool
sealed_value none = false
sealed_value (some (Outcome.full c t)) = true
sealed_value (some (Outcome.core c)) = true
sealed_value (some Outcome.skip) = false

-- `stance_excludes`, for an entry that is no skip, at a target that has state.
unfoldable pub excludes_value : ViewState → Bool
excludes_value s = is_skip_voted s.stance || sealed_skip s.sealed

unfoldable pub claim_non_skip : ViewState → ViewState
claim_non_skip s = if is_free s.stance then (record s { stance = Stance.non_skip }) else s

abbrev own_noready : Option ReadyStatement → Bool
own_noready none = false
own_noready (some r) = is_noready r

-- The trigger of a skip vote: the stance is free, the own response is no-ready, no value is sealed,
-- and a quorum of parties has sent echo-skip.
unfoldable pub claim_skip_vote : Config → ViewState → Bool × ViewState
unfolding lookup
claim_skip_vote cfg s =
    if is_free s.stance
      && own_noready (lookup cfg.name s.ready_statements)
      && not (sealed_value s.sealed)
      && not (ltb s.echo_skip_parties cfg.quorum_parties)
    then (true, record s { stance = Stance.skip_voted })
    else (false, s)

unfoldable pub count_skip_vote : PublicKey → ViewState → Bool × ViewState
unfolding member
count_skip_vote sender s =
    if member sender s.skip_vote_statements
    then (false, s)
    else (true, record s { skip_vote_statements = sender ∷ s.skip_vote_statements })

unfoldable pub claim_skip_seal : Config → ViewState → Bool × ViewState
claim_skip_seal cfg s =
    if s.skip_sealed
    then (false, s)
    else if ltb (length s.skip_vote_statements) cfg.quorum_parties
    then (false, s)
    else (true, record s { skip_sealed = true })

-- The origin bit of a fresh value, from the own echo for its target.
abbrev echoed_one : Manifest → Manifest → Option EchoStatement → Bool
echoed_one c t (some (EchoStatement.graded p d g o)) =
    g == 1 && manifest_eq (core_of p) c && manifest_eq (tip_of p) t
echoed_one c t other = false

abbrev echoed_any : Manifest → Manifest → Option EchoStatement → Bool
echoed_any c t (some (EchoStatement.graded p d g o)) =
    manifest_eq (core_of p) c && manifest_eq (tip_of p) t
echoed_any c t other = false

unfoldable pub origin_bit : ResolutionEntry → Option EchoStatement → Option ℕ
unfolding manifest_eq core_of tip_of
origin_bit (ResolutionEntry.full u c t) own = some (if echoed_one c t own then 1 else 0)
origin_bit (ResolutionEntry.core u c t) own = some (if echoed_any c t own then 1 else 0)
origin_bit (ResolutionEntry.skip u) own = none
