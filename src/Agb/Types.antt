-- ===== src/Agb/Types.antt =====
-- primary/src/vantage/agb.rs: proposals, echoes, readies and outcomes.
use vantage_bft.Base.{ℕ, ◌≡◌, Bool, true, false, Option, none, some, List, [], ◌∷◌, ◌++◌}
use vantage_bft.Claim.{BlockRef, AvailClaim}
use vantage_bft.Committee.{PublicKey}
use native.Mathlib.Decide.{ℕ_discrete}

-- `u64`
abbrev pub View : Type 0
View = ℕ

abbrev pub Digest : Type 0
Digest = ℕ

abbrev pub Manifest : Type 0
Manifest = List BlockRef

pub data ResolutionEntry : Type 0 where
  full : View → Manifest → Manifest → ResolutionEntry
  core : View → Manifest → Manifest → ResolutionEntry
  skip : View → ResolutionEntry

unfoldable pub target_view : ResolutionEntry → View
target_view (ResolutionEntry.full u c t) = u
target_view (ResolutionEntry.core u c t) = u
target_view (ResolutionEntry.skip u) = u

unfoldable pub references : ResolutionEntry → List BlockRef
references (ResolutionEntry.full u c t) = c ++ t
references (ResolutionEntry.core u c t) = c ++ t
references (ResolutionEntry.skip u) = []

pub record ViewProposal : Type 0 where
  pub view : View
  pub c : Manifest
  pub t : Manifest
  pub m : Option ResolutionEntry

pub record BatchViewProposal : Type 0 where
  pub view : View
  pub c : Manifest
  pub t : Manifest
  pub m : List ResolutionEntry

pub data ProposalOut : Type 0 where
  single : ViewProposal → ProposalOut
  batch : BatchViewProposal → ProposalOut

unfoldable pub proposal_view : ProposalOut → View
proposal_view (ProposalOut.single p) = p.view
proposal_view (ProposalOut.batch p) = p.view

unfoldable pub core_of : ProposalOut → Manifest
core_of (ProposalOut.single p) = p.c
core_of (ProposalOut.batch p) = p.c

unfoldable pub tip_of : ProposalOut → Manifest
tip_of (ProposalOut.single p) = p.t
tip_of (ProposalOut.batch p) = p.t

-- `Option::as_slice`
abbrev pub as_slice : Option ResolutionEntry → List ResolutionEntry
as_slice none = []
as_slice (some e) = e ∷ []

unfoldable pub entries : ProposalOut → List ResolutionEntry
entries (ProposalOut.single p) = as_slice p.m
entries (ProposalOut.batch p) = p.m

pub data ReadyGrade : Type 0 where
  zero one mix : ReadyGrade

-- The wire grade of an echo is a `u8`.
pub record Echo : Type 0 where
  pub proposal : ViewProposal
  pub grade : ℕ
  pub sender : PublicKey
  pub wish : View
  pub origin : Option ℕ
  pub avail : Option AvailClaim

pub record EchoBatch : Type 0 where
  pub proposal : BatchViewProposal
  pub grade : ℕ
  pub sender : PublicKey
  pub wish : View
  pub avail : Option AvailClaim

pub data EchoOut : Type 0 where
  single : Echo → EchoOut
  batch : EchoBatch → EchoOut

unfoldable pub echo_grade : EchoOut → ℕ
echo_grade (EchoOut.single e) = e.grade
echo_grade (EchoOut.batch e) = e.grade

unfoldable pub echo_sender : EchoOut → PublicKey
echo_sender (EchoOut.single e) = e.sender
echo_sender (EchoOut.batch e) = e.sender

abbrev origin_if : Option ResolutionEntry → Option ℕ → List (Option ℕ)
origin_if none o = []
origin_if (some e) o = o ∷ []

unfoldable pub origin_vec : EchoOut → List (Option ℕ)
origin_vec (EchoOut.single e) = origin_if e.proposal.m e.origin
origin_vec (EchoOut.batch e) = []

unfoldable pub echo_proposal : EchoOut → ProposalOut
echo_proposal (EchoOut.single e) = ProposalOut.single e.proposal
echo_proposal (EchoOut.batch e) = ProposalOut.batch e.proposal

pub record Ready : Type 0 where
  pub proposal : ViewProposal
  pub grade : ReadyGrade
  pub sender : PublicKey
  pub wish : View

pub record ReadyBatch : Type 0 where
  pub proposal : BatchViewProposal
  pub grade : ReadyGrade
  pub sender : PublicKey
  pub wish : View

pub data ReadyOut : Type 0 where
  single : Ready → ReadyOut
  batch : ReadyBatch → ReadyOut

unfoldable pub ready_sender : ReadyOut → PublicKey
ready_sender (ReadyOut.single r) = r.sender
ready_sender (ReadyOut.batch r) = r.sender

unfoldable pub ready_grade : ReadyOut → ReadyGrade
ready_grade (ReadyOut.single r) = r.grade
ready_grade (ReadyOut.batch r) = r.grade

unfoldable pub ready_proposal : ReadyOut → ProposalOut
ready_proposal (ReadyOut.single r) = ProposalOut.single r.proposal
ready_proposal (ReadyOut.batch r) = ProposalOut.batch r.proposal

pub data Outcome : Type 0 where
  full : Manifest → Manifest → Outcome
  core : Manifest → Outcome
  skip : Outcome

pub data TimerKind : Type 0 where
  echo_fallback echo_absolute ready_absolute proposer_down own_proposal_due : TimerKind

pub data ResponseStage : Type 0 where
  echo ready : ResponseStage

pub Manifest-discrete : Discrete Manifest
Manifest-discrete = hlevel ℕ_discrete

pub ProposalOut-discrete : Discrete ProposalOut
ProposalOut-discrete = hlevel ℕ_discrete

abbrev decided : {P : Type 0} → Dec P → Bool
decided (yes p) = true
decided (no p) = false

-- The derived `==` of manifests and of proposals.
unfoldable pub manifest_eq : Manifest → Manifest → Bool
unfolding Manifest-discrete ℕ_discrete
manifest_eq a b = decided (Manifest-discrete a b)

unfoldable pub proposal_eq : ProposalOut → ProposalOut → Bool
unfolding ProposalOut-discrete ℕ_discrete
proposal_eq a b = decided (ProposalOut-discrete a b)

decided_sound : {P : Type 0} (d : Dec P) → decided d ≡ true → P
decided_sound (yes p) h = p
decided_sound (no p) h = cc

pub proposal_eq_sound : (a b : ProposalOut) → proposal_eq a b ≡ true → a ≡ b
unfolding proposal_eq
proposal_eq_sound a b h = decided_sound (ProposalOut-discrete a b) h
