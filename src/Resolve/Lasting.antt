-- ===== src/Resolve/Lasting.antt =====
-- What the resolver has said or decided about a target, and how it may change
-- (primary/src/vantage/direct_resolution.rs).
pub mod Steps
pub mod Views
pub mod Runs
use vantage_bft.Base.{ℕ, ◌≤◌, ◌≡◌, Option, some}
use vantage_bft.Base.Map.{lookup}
use vantage_bft.Agb.Types.{Digest}
use vantage_bft.Resolve.Types.{ResolverView, Proposal}
use vantage_bft.Resolve.State.{Instance, ResolverViewState, default_view}
use mathlib.Core.Option.{get_or}

-- The state of a view, which is the default where there is none.
abbrev pub view_of : ResolverView → Instance → ResolverViewState
view_of v i = get_or (lookup v i.views) default_view

-- A view keeps its proposal, its witness, and its statement of each phase.
pub record KeptView (s t : ResolverViewState) : Type 0 where
  pub proposal : (p : Proposal) → s.proposal ≡ some p → t.proposal ≡ some p
  pub backing_sent : (d : Digest) → s.backing_sent ≡ some d → t.backing_sent ≡ some d
  pub sent : (phase : ℕ) (d : Digest) → lookup phase s.sent ≡ some d → lookup phase t.sent ≡ some d

-- The own wish and the entered views go up, the DONE stays, and so does what each view keeps.
pub record Kept (i j : Instance) : Type 0 where
  pub own_wish : i.own_wish ≤ j.own_wish
  pub entered_through : i.entered_through ≤ j.entered_through
  pub in_step : i.current_view ≡ i.entered_through → j.current_view ≡ j.entered_through
  pub done_sent : (d : Digest) → i.done_sent ≡ some d → j.done_sent ≡ some d
  pub views : (v : ResolverView) → KeptView (view_of v i) (view_of v j)
