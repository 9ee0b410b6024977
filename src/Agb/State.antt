-- ===== src/Agb/State.antt =====
-- primary/src/vantage/agb.rs: the state of a view and of the engine.
use vantage_bft.Base.{ℕ, Bool, false, Option, none, List, []}
use vantage_bft.Base.Map.{Map}
use vantage_bft.Threshold.{from_party_count}
use vantage_bft.Committee.{Committee, PublicKey, Stake, size, quorum_threshold}
use vantage_bft.Agb.Types.{View, Digest, Manifest, ProposalOut, ReadyGrade, Outcome}

pub data Fixed : Type 0 where
  unset reject : Fixed
  proposal : ProposalOut → Digest → Fixed

pub data EchoStatement : Type 0 where
  graded : ProposalOut → Digest → (grade : ℕ) → (origin : List (Option ℕ)) → EchoStatement
  skip : EchoStatement

pub record EchoTally : Type 0 where
  pub proposal : ProposalOut
  pub grade_one : Stake
  pub grade_zero : Stake
  pub grade_one_parties : ℕ
  pub grade_zero_parties : ℕ
  pub origin_ones : List ℕ

pub record ReadyTally : Type 0 where
  pub proposal : ProposalOut
  pub any : Stake
  pub grade_one : Stake
  pub grade_zero : Stake

pub data ReadyStatement : Type 0 where
  graded : ProposalOut → Digest → ReadyGrade → ReadyStatement
  no_ready : ReadyStatement

pub record Lock : Type 0 where
  pub proposal : ProposalOut
  pub digest : Digest
  pub active : Bool

pub data Stance : Type 0 where
  free non_skip skip_voted : Stance

-- `completed_instant` is left out: only logs and metrics read it. An instant is a number of
-- milliseconds.
pub record ViewState : Type 0 where
  pub fixed : Fixed
  pub echo_sent : Bool
  pub ready_sent : Bool
  pub ready_mix_open : Bool
  pub completed : Option (Manifest × Manifest)
  pub completed_open_unsealed : Bool
  pub directed : Option Outcome
  pub sealed : Option Outcome
  pub fastsealed : Bool
  pub active : Bool
  pub entered : Bool
  pub entry_instant : Option ℕ
  pub first_proposal_instant : Option ℕ
  pub echo_statements : Map EchoStatement
  pub echo_tallies : Map EchoTally
  pub echo_skip_parties : ℕ
  pub ready_statements : Map ReadyStatement
  pub ready_tallies : Map ReadyTally
  pub ready_non_grade_one_parties : ℕ
  pub ready_zero_or_noready_parties : ℕ
  pub noready_parties : ℕ
  pub lock : Option Lock
  pub digest_cache : List (ProposalOut × Digest)
  pub stance : Stance
  pub aux_accepted : Bool
  pub skip_vote_statements : List PublicKey
  pub skip_sealed : Bool

abbrev pub default : ViewState
default = record {
  fixed = Fixed.unset;
  echo_sent = false;
  ready_sent = false;
  ready_mix_open = false;
  completed = none;
  completed_open_unsealed = false;
  directed = none;
  sealed = none;
  fastsealed = false;
  active = false;
  entered = false;
  entry_instant = none;
  first_proposal_instant = none;
  echo_statements = [];
  echo_tallies = [];
  echo_skip_parties = 0;
  ready_statements = [];
  ready_tallies = [];
  ready_non_grade_one_parties = 0;
  ready_zero_or_noready_parties = 0;
  noready_parties = 0;
  lock = none;
  digest_cache = [];
  stance = Stance.free;
  aux_accepted = false;
  skip_vote_statements = [];
  skip_sealed = false;
}

-- The fields of the engine that `new` sets and nothing writes again. `digest` is the domain hash of
-- a proposal under `sid`, a BLAKE3 digest of its bincode encoding. The metrics are left out.
pub record Config : Type 0 where
  pub name : PublicKey
  pub committee : Committee
  pub digest : ProposalOut → Digest
  pub delta : ℕ
  pub n : ℕ
  pub f_plus_1_parties : ℕ
  pub quorum_parties : ℕ
  pub quorum : Stake

-- The fields that the handlers write.
pub record AgbEngine : Type 0 where
  pub views : Map ViewState
  pub pending_gate : List View
  pub recheck_cursor : View
  pub min_live_view : View

unfoldable pub new_config : PublicKey → Committee → (ProposalOut → Digest) → ℕ → Config
unfolding size from_party_count quorum_threshold
new_config name committee digest delta_ms =
    let thresholds = from_party_count (size committee) in
    record {
      name = name;
      committee = committee;
      digest = digest;
      delta = delta_ms;
      n = size committee;
      f_plus_1_parties = thresholds.f_plus_1_parties;
      quorum_parties = thresholds.n_minus_f_parties;
      quorum = quorum_threshold committee;
    }

abbrev pub new_engine : AgbEngine
new_engine = record { views = []; pending_gate = []; recheck_cursor = 1; min_live_view = 1 }
