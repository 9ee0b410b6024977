-- ===== src/Agb/Irrevocable.antt =====
-- What the engine has said or decided about a view, and how it may change
-- (primary/src/vantage/agb.rs).
pub mod Order
pub mod Runs
use vantage_bft.Base.{◌≡◌, ◌≢◌, ◌⊎◌, Bool, true, false, Option, none, some, member}
use vantage_bft.Base.Map.{lookup}
use vantage_bft.Committee.{PublicKey}
use vantage_bft.Agb.Types.{Manifest, Outcome}
use vantage_bft.Agb.State.{EchoStatement, Lock, ReadyStatement, Stance, ViewState}
use vantage_bft.Agb.Statements.{valid_refinement}
use vantage_bft.Agb.Handlers.{is_unset}

-- The marks of a view that are set once.
pub record KeepsMarks (s t : ViewState) : Type 0 where
  pub fixed : is_unset s.fixed ≡ false → t.fixed ≡ s.fixed
  pub echo_sent : s.echo_sent ≡ true → t.echo_sent ≡ true
  pub ready_sent : s.ready_sent ≡ true → t.ready_sent ≡ true
  pub entered : s.entered ≡ true → t.entered ≡ true
  pub active : s.active ≡ true → t.active ≡ true
  pub fastsealed : s.fastsealed ≡ true → t.fastsealed ≡ true
  pub skip_sealed : s.skip_sealed ≡ true → t.skip_sealed ≡ true
  pub aux_accepted : s.aux_accepted ≡ true → t.aux_accepted ≡ true
  pub stance : s.stance ≢ Stance.free → t.stance ≡ s.stance

-- The results of a view that are set once.
pub record KeepsResults (s t : ViewState) : Type 0 where
  pub completed : (x : Manifest × Manifest) → s.completed ≡ some x → t.completed ≡ some x
  pub directed : (o : Outcome) → s.directed ≡ some o → t.directed ≡ some o
  pub sealed : (o : Outcome) → s.sealed ≡ some o → t.sealed ≡ some o

abbrev pub SameLock : Lock → Option Lock → Type 0
SameLock l none = ⊥
SameLock l (some m) =
    (m.proposal ≡ l.proposal) × (m.digest ≡ l.digest) × (l.active ≡ false → m.active ≡ false)

-- The statement of a party stays, or is a mix that has refined once to a grade of its digest.
abbrev pub KeptReady : ReadyStatement → Option ReadyStatement → Type 0
KeptReady old none = ⊥
KeptReady old (some new) = (new ≡ old) ⊎ (valid_refinement old new ≡ true)

pub record KeepsStatements (s t : ViewState) : Type 0 where
  pub echo :
      (k : PublicKey) (st : EchoStatement)
      → lookup k s.echo_statements ≡ some st
      → lookup k t.echo_statements ≡ some st
  pub ready :
      (k : PublicKey) (st : ReadyStatement)
      → lookup k s.ready_statements ≡ some st
      → KeptReady st (lookup k t.ready_statements)
  pub skip_vote :
      (k : PublicKey)
      → member k s.skip_vote_statements ≡ true
      → member k t.skip_vote_statements ≡ true
  pub lock : (l : Lock) → s.lock ≡ some l → SameLock l t.lock

pub record Irrevocable (s t : ViewState) : Type 0 where
  pub marks : KeepsMarks s t
  pub results : KeepsResults s t
  pub statements : KeepsStatements s t
