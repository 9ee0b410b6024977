-- ===== src/Resolve/Views.antt =====
-- primary/src/vantage/direct_resolution.rs: the changes of one resolver view's state.
use vantage_bft.Base.{
  ℕ, Bool, true, false, not, ◌&&◌, ◌||◌, Option, none, some, [], is_some, is_none, ltb, ◌==◌,
  if◌then◌else◌,
}
use vantage_bft.Base.Map
use vantage_bft.Base.Map.{Map, lookup}
use vantage_bft.Committee.{PublicKey}
use vantage_bft.Agb.Types.{Digest}
use vantage_bft.Resolve.Types.{
  ResolverView, Phase, phase_index, is_echo, Suggest, Proof, Proposal, Vote,
}
use vantage_bft.Resolve.State.{ResolverViewState, StatementRecord, VoteStatus}
use mathlib.Core.Option.{get_or}

-- Steps of one resolver view.
unfoldable pub put_suggestion : Suggest → ResolverViewState → Unit {0} × ResolverViewState
unfolding Map.insert
put_suggestion m s = (tt, record s { suggestions = Map.insert m.sender m s.suggestions })

unfoldable pub put_proof : Proof → ResolverViewState → Unit {0} × ResolverViewState
unfolding Map.insert
put_proof m s = (tt, record s { proofs = Map.insert m.sender m s.proofs })

-- Another party's proof, the first one.
unfoldable pub take_proof : Proof → ResolverViewState → Bool × ResolverViewState
unfolding lookup Map.insert
take_proof m s =
    if is_some (lookup m.sender s.proofs)
    then (false, s)
    else (true, record s { proofs = Map.insert m.sender m s.proofs })

-- A proposal, where there is none: every caller has looked.
unfoldable pub put_proposal : Proposal → ResolverViewState → Unit {0} × ResolverViewState
put_proposal p s = (tt, record s { proposal = some p })

unfoldable pub put_witness : PublicKey → Digest → ResolverViewState → Unit {0} × ResolverViewState
unfolding Map.insert
put_witness sender value s =
    (tt, record s { backing_witnesses = Map.insert sender value s.backing_witnesses })

unfoldable pub send_witness : PublicKey → Digest → ResolverViewState → Bool × ResolverViewState
unfolding Map.insert
send_witness name value s = if is_some s.backing_sent then (false, s) else (
  true,
  record s {
    backing_sent = some value;
    backing_witnesses = Map.insert name value s.backing_witnesses;
  },
)

abbrev status_eq : VoteStatus → VoteStatus → Bool
status_eq VoteStatus.unknown VoteStatus.unknown = true
status_eq VoteStatus.requested VoteStatus.requested = true
status_eq VoteStatus.rejected VoteStatus.rejected = true
status_eq VoteStatus.rejected_permanently VoteStatus.rejected_permanently = true
status_eq VoteStatus.accepted VoteStatus.accepted = true
status_eq a b = false

unfoldable pub request_vote : ResolverViewState → Unit {0} × ResolverViewState
request_vote s = (tt, record s { vote_status = VoteStatus.requested })

abbrev has_value : Digest → Option Proposal → Bool
has_value value none = false
has_value value (some p) = p.value == value

abbrev bad_bit : Option ℕ → Bool
bad_bit none = false
bad_bit (some b) = ltb 1 b

abbrev pub is_bad_bit : Option ℕ → Bool
is_bad_bit o = bad_bit o

abbrev vote_on : Vote → ResolverViewState → Bool × ResolverViewState
vote_on (Vote.reject permanent) s = (
  false,
  record s {
    vote_status = if permanent then VoteStatus.rejected_permanently else VoteStatus.rejected;
  },
)
vote_on (Vote.accept origin) s =
    if bad_bit origin
    then (false, record s { vote_status = VoteStatus.rejected })
    else (true, record s { vote_status = VoteStatus.accepted; vote_origin = origin })

-- The caller's answer; whether the view may now echo.
unfoldable pub take_vote : Digest → Vote → ResolverViewState → Bool × ResolverViewState
take_vote value vote s =
    if not (status_eq s.vote_status VoteStatus.requested) || not (has_value value s.proposal)
    then (false, s)
    else vote_on vote s

-- A rejected check is open again.
unfoldable pub reopen_vote : ResolverViewState → Bool × ResolverViewState
reopen_vote s =
    if not (status_eq s.vote_status VoteStatus.rejected)
    then (false, s)
    else (true, record s { vote_status = VoteStatus.unknown })

abbrev pub key_below : ResolverView → Option ResolverView → Bool
key_below view none = false
key_below view (some key) = ltb key view

abbrev pub key_is_positive : Option ResolverView → Bool
key_is_positive none = false
key_is_positive (some key) = ltb 0 key

unfoldable pub binding_ok : Phase → ResolverView → Option ResolverView → Option ℕ → Bool
binding_ok phase view key origin =
    (if is_echo phase then key_below view key else is_none key)
    && not (key_is_positive key && is_some origin)

abbrev pub origin_in : Phase → Option ℕ → Option ℕ
origin_in phase origin = if is_echo phase then origin else none

-- The insertion of a statement under its phase and sender.
unfoldable pub with_statement :
    Phase → PublicKey → StatementRecord → Map (Map StatementRecord) → Map (Map StatementRecord)
unfolding lookup Map.insert
with_statement phase sender r statements =
    Map.insert (phase_index phase)
      (Map.insert sender r (get_or (lookup (phase_index phase) statements) [])) statements

-- `emit_statement`, once its binding is valid: one statement for each phase.
unfoldable pub send_statement :
    PublicKey
    → Phase
    → Digest
    → Option ResolverView
    → Option ℕ
    → ResolverViewState
    → Bool × ResolverViewState
unfolding with_statement lookup Map.insert
send_statement name phase value key origin s =
    if is_some (lookup (phase_index phase) s.sent) then (false, s) else (
      true,
      record s {
        sent = Map.insert (phase_index phase) value s.sent;
        statements =
            with_statement phase name
              (record { value = value; proposal_key_view = key; origin = origin_in phase origin })
              s.statements;
      },
    )

-- Another party's statement, the first of its phase.
unfoldable pub take_statement :
    Phase → PublicKey → StatementRecord → ResolverViewState → Bool × ResolverViewState
unfolding with_statement lookup
take_statement phase sender r s =
    if is_some (lookup sender (get_or (lookup (phase_index phase) s.statements) []))
    then (false, s)
    else (true, record s { statements = with_statement phase sender r s.statements })
