-- ===== src/Resolve/Sound.antt =====
-- The resolver's invariant, and relations between its states before and after an action
-- (primary/src/vantage/direct_resolution.rs).
pub mod Rules
pub mod Fresh
pub mod Decides
pub mod Books
pub mod Laws
pub mod Phases
pub mod Runs
pub mod Handlers
pub mod Wishes
use vantage_bft.Base.{◌≤◌, ◌≡◌, refl, ◌⊎◌, inl, inr, Bool, true, Option, none, some, arith}
use vantage_bft.Agb.Types.{View, Digest, ResolutionEntry}
use vantage_bft.Resolve.State.{Config, Instance}
use vantage_bft.Resolve.Values.{valid_entry}
use vantage_bft.Resolve.Monad.{World, Resolve, instance_of, entry_of}
use vantage_bft.Resolve.Engine.{decision}

-- An entry of the target that is well formed and has the digest.
pub record Valid (cfg : Config) (target : View) (value : Digest) (e : ResolutionEntry)
    : Type 0 where
  pub digest : cfg.digest e ≡ value
  pub formed : valid_entry cfg target e ≡ true

-- A target with an instance is retained and not decided, and every value and decision is valid.
pub record Sound (cfg : Config) (w : World) : Type 0 where
  pub disjoint :
      (target : View) (i : Instance) → instance_of target w ≡ some i → decision target w ≡ none
  pub retained :
      (target : View) (i : Instance)
      → instance_of target w ≡ some i
      → w.resolver.retained_floor ≤ target
  pub values :
      (target : View) (value : Digest) (e : ResolutionEntry)
      → entry_of target value w ≡ some e
      → Valid cfg target value e
  pub decided :
      (target : View) (value : Digest) (e : ResolutionEntry)
      → decision target w ≡ some (value, e)
      → Valid cfg target value e

-- The instance goes on, related to what it was, or has ended in a decision.
abbrev pub GoesOn : (Instance → Instance → Type 0) → Instance → View → World → Type 0
GoesOn S i target w =
    ((j : Instance) × (instance_of target w ≡ some j) × S i j)
    ⊎ ((x : Digest × ResolutionEntry) × (decision target w ≡ some x))

pub record Evolves (S : Instance → Instance → Type 0) (w w' : World) : Type 0 where
  pub floor : w.resolver.retained_floor ≤ w'.resolver.retained_floor
  pub decided :
      (target : View) (x : Digest × ResolutionEntry)
      → w'.resolver.retained_floor ≤ target
      → decision target w ≡ some x
      → decision target w' ≡ some x
  pub instances :
      (target : View) (i : Instance)
      → w'.resolver.retained_floor ≤ target
      → instance_of target w ≡ some i
      → GoesOn S i target w'

pub record Preorder (S : Instance → Instance → Type 0) : Type 0 where
  pub refl_at : (i : Instance) → S i i
  pub trans_at : (a b c : Instance) → S a b → S b c → S a c

-- What holds after an action that starts in a sound state.
pub record After (cfg : Config) (S : Instance → Instance → Type 0) (w w' : World) : Type 0 where
  pub sound : Sound cfg w'
  pub evolves : Evolves S w w'

pub record Keeps {A : Type 0} (cfg : Config) (S : Instance → Instance → Type 0) (m : Resolve A)
    : Type 0 where
  pub at : (w : World) → Sound cfg w → After cfg S w (m w).1

-- Instances, decisions and the floor are the same.
pub record SameTargets (w w' : World) : Type 0 where
  pub instances : w'.resolver.instances ≡ w.resolver.instances
  pub decisions : w'.resolver.decisions ≡ w.resolver.decisions
  pub floor : w'.resolver.retained_floor ≡ w.resolver.retained_floor

pub record Quiet {A : Type 0} (m : Resolve A) : Type 0 where
  pub at : (w : World) → SameTargets w (m w).1

-- A target that an instance may be made for.
pub record Room (target : View) (w : World) : Type 0 where
  pub undecided : decision target w ≡ none
  pub retained : w.resolver.retained_floor ≤ target

pub record Vacant (target : View) (w : World) : Type 0 where
  pub room : Room target w
  pub no_instance : instance_of target w ≡ none

pub record KeepsIf {A : Type 0} (cfg : Config) (S : Instance → Instance → Type 0)
    (P : World → Type 0) (m : Resolve A) : Type 0 where
  pub at : (w : World) → Sound cfg w → P w → After cfg S w (m w).1

-- A condition that only instances, decisions and the floor decide.
pub record Stable (P : World → Type 0) : Type 0 where
  pub at : (w w' : World) → SameTargets w w' → P w → P w'

pub Room-Stable : (target : View) → Stable (Room target)
unfolding decision
Room-Stable target = record {
  at = λ w w' s r. record {
    undecided = rw s.decisions r.undecided;
    retained = omega (arith, s.floor, r.retained);
  };
}

pub Vacant-Stable : (target : View) → Stable (Vacant target)
unfolding instance_of
Vacant-Stable target = record {
  at = λ w w' s r. record {
    room = (Room-Stable target).at w w' s r.room;
    no_instance = rw s.instances r.no_instance;
  };
}
