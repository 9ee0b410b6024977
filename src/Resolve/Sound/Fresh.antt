-- ===== src/Resolve/Sound/Fresh.antt =====
-- A view that has no proposal, from the test that sees it to the step that takes one
-- (primary/src/vantage/direct_resolution.rs, `on_proposal`).
use vantage_bft.Base.{
  ◌≡◌, sym, subst, ◌∙◌, inl, inr, Bool, true, false, Option, none, some, Option-cases, Bool-cases,
}
use vantage_bft.Base.Map.{lookup}
use vantage_bft.Agb.Types.{View, ResolutionEntry}
use vantage_bft.Resolve.Types.{ResolverView}
use vantage_bft.Resolve.State.{Config, Instance}
use vantage_bft.Resolve.Values.{remember_entry}
use vantage_bft.Resolve.Propose.{has_proposal}
use vantage_bft.Resolve.Monad.{
  World, Resolve, ◌>>=◌, pure, given, reads, when, unless, instance_of, on_instance,
}
use vantage_bft.Resolve.Sound.{Preorder, Keeps, KeepsIf, Quiet, Stable}
use vantage_bft.Resolve.Sound.Rules.{After-same, After-put_instance, quiet_rules}
use mathlib.Core.Option.{some-injective}

pub remember_entry-Quiet :
    (cfg : Config) (t : View) (e : ResolutionEntry) → Quiet (remember_entry cfg t e)
unfolding remember_entry
remember_entry-Quiet cfg t e = search quiet_rules

-- The instance of the target, if there is one, has no proposal in the view.
abbrev pub Fresh : View → ResolverView → World → Type 0
Fresh t v w = (i : Instance) → instance_of t w ≡ some i → has_proposal v i ≡ false

pub Fresh-Stable : (t : View) (v : ResolverView) → Stable (Fresh t v)
unfolding instance_of
Fresh-Stable t v = record {
  at = λ w w' s f i e. f i (subst (λ m. lookup t m ≡ some i) s.instances e);
}

module _ (cfg : Config) (S : Instance → Instance → Type 0) (P : Preorder S) where
  -- An action that runs only where a test of the instance passes.
  pub Keeps-when-reads :
      (Q : World → Type 0) (t : View) (f : Instance → Bool) (c : Bool) (m : Resolve (Unit {0}))
      → ((w : World) (i : Instance) → instance_of t w ≡ some i → f i ≡ true → Q w)
      → KeepsIf cfg S Q m
      → Keeps cfg S (reads t false f >>= λ b. unless c (when b m))
  unfolding ◌>>=◌ reads pure
  Keeps-when-reads Q t f true m h k = record {
    at = λ w s. elim (Option-cases (instance_of t w)) [
      | inl e ↦ rw (e, reads) (After-same cfg S P w s)
      | inr (i, e) ↦ rw (e, reads) (After-same cfg S P w s)
    ];
  }
  Keeps-when-reads Q t f false m h k = record {
    at = λ w s. elim (Option-cases (instance_of t w)) [
      | inl e ↦ rw (e, reads) (After-same cfg S P w s)
      | inr (i, e) ↦ elim (Bool-cases (f i)) [
        | inl p ↦ rw (e, reads, p) (k.at w s (h w i e p))
        | inr p ↦ rw (e, reads, p) (After-same cfg S P w s)
      ]
    ];
  }

  pub KeepsIf-given :
      {A B : Type 0} (Q : World → Type 0) (o : Option A) (m : Resolve B) (f : A → Resolve B)
      → KeepsIf cfg S Q m
      → ((a : A) → KeepsIf cfg S Q (f a))
      → KeepsIf cfg S Q (given o m f)
  KeepsIf-given Q none m f km kf = km
  KeepsIf-given Q (some a) m f km kf = kf a

  -- A step that needs the condition of the instance it changes.
  pub KeepsIf-on_instance :
      {A : Type 0} (Q : World → Type 0) (t : View) (d : A) (f : Instance → A × Instance)
      → ((w : World) (i : Instance) → Q w → instance_of t w ≡ some i → S i (f i).1)
      → KeepsIf cfg S Q (on_instance t d f)
  unfolding on_instance
  KeepsIf-on_instance Q t d f h = record {
    at = λ w s q. elim (Option-cases (instance_of t w)) [
      | inl e ↦ rw (e, on_instance) (After-same cfg S P w s)
      | inr (i, e) ↦
          rw (e, on_instance)
            (After-put_instance cfg S P t (f i).1 w s
              (record { undecided = s.disjoint t i e; retained = s.retained t i e })
              (λ j g. subst (λ x. S x (f i).1) (some-injective _ _ (sym e ∙ g)) (h w i q e)))
    ];
  }
