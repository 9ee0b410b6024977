-- ===== src/Resolve/Types.antt =====
-- primary/src/vantage/direct_resolution.rs: messages, phases, votes and effects of the resolver.
use vantage_bft.Base.{ℕ, Bool, Option}
use vantage_bft.Committee.{PublicKey}
use vantage_bft.Agb.Types.{View, Digest, ResolutionEntry}

-- `DirectResolverView`, a `u64`.
abbrev pub ResolverView : Type 0
ResolverView = ℕ

pub data TimerKind : Type 0 where
  entry proposal view primary_down : TimerKind

pub record Wish : Type 0 where
  pub target : View
  pub view : ResolverView
  pub sender : PublicKey

pub record Suggest : Type 0 where
  pub target : View
  pub view : ResolverView
  pub sender : PublicKey
  pub key3_view : ResolverView
  pub key3_value : Digest
  pub key2_view : ResolverView
  pub key2_value : Digest
  pub prev_key2 : ResolverView
  pub entry : Option ResolutionEntry

pub record Proof : Type 0 where
  pub target : View
  pub view : ResolverView
  pub sender : PublicKey
  pub key1_view : ResolverView
  pub key1_value : Digest
  pub prev_key1 : ResolverView

pub record Witness : Type 0 where
  pub target : View
  pub view : ResolverView
  pub value : Digest
  pub entry : ResolutionEntry
  pub sender : PublicKey

pub record Proposal : Type 0 where
  pub target : View
  pub view : ResolverView
  pub key_view : ResolverView
  pub value : Digest
  pub entry : ResolutionEntry
  pub sender : PublicKey

pub data Phase : Type 0 where
  echo key1 key2 key3 lock : Phase

-- A phase as the key of a map.
abbrev pub phase_index : Phase → ℕ
phase_index Phase.echo = 0
phase_index Phase.key1 = 1
phase_index Phase.key2 = 2
phase_index Phase.key3 = 3
phase_index Phase.lock = 4

abbrev pub is_echo : Phase → Bool
is_echo Phase.echo = Bool.true
is_echo p = Bool.false

pub record Statement : Type 0 where
  pub target : View
  pub view : ResolverView
  pub value : Digest
  pub phase : Phase
  pub proposal_key_view : Option ResolverView
  pub origin : Option ℕ
  pub sender : PublicKey

pub record Done : Type 0 where
  pub target : View
  pub value : Digest
  pub entry : ResolutionEntry
  pub sender : PublicKey

pub record ValueFetch : Type 0 where
  pub target : View
  pub value : Digest
  pub requester : PublicKey

pub record ValueServe : Type 0 where
  pub target : View
  pub value : Digest
  pub entry : ResolutionEntry

pub data Vote : Type 0 where
  reject : (permanent : Bool) → Vote
  accept : (origin : Option ℕ) → Vote

pub data Effect : Type 0 where
  broadcast_wish : Wish → Effect
  wish_to : PublicKey → Wish → Effect
  suggest_to : PublicKey → Suggest → Effect
  broadcast_proof : Proof → Effect
  proof_to : PublicKey → Proof → Effect
  broadcast_witness : Witness → Effect
  witness_to : PublicKey → Witness → Effect
  broadcast_proposal : Proposal → Effect
  proposal_to : PublicKey → Proposal → Effect
  broadcast_statement : Statement → Effect
  statement_to : PublicKey → Statement → Effect
  broadcast_done : Done → Effect
  done_to : PublicKey → Done → Effect
  value_fetch_to : PublicKey → ValueFetch → Effect
  value_serve_to : PublicKey → ValueServe → Effect
  arm_timer : View → ResolverView → TimerKind → (deadline : ℕ) → Effect
  validate_vote : View → ResolverView → Digest → ResolutionEntry → (fresh : Bool) → Effect
  decide : ResolutionEntry → Effect
