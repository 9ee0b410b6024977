-- ===== src/Resolve/Monad.antt =====
-- The resolver's methods as actions on its state and on the effects emitted so far
-- (primary/src/vantage/direct_resolution.rs). Effects that a method returns are appended here, as
-- every caller extends its own vector at the place of the call.
use vantage_bft.Base.{ℕ, Bool, Option, none, some, List, [], ◌∷◌, ◌++◌, is_some, if◌then◌else◌}
use vantage_bft.Base.BTree
use vantage_bft.Base.Map
use vantage_bft.Base.Map.{Map, lookup}
use vantage_bft.Agb.Types.{View, Digest, ResolutionEntry}
use vantage_bft.Resolve.Types.{ResolverView, Effect}
use vantage_bft.Resolve.State.{Books, Instance, Resolver, ResolverViewState, default_view}
use mathlib.Core.Option.{get_or}

-- An effect, or a call of `expect` that finds nothing.
pub data Output : Type 0 where
  effect : Effect → Output
  panic : Output

-- `now` is what the handler reads of the clock.
pub record World : Type 0 where
  pub resolver : Resolver
  pub now : ℕ
  pub out : List Output

abbrev pub Resolve : Type 0 → Type 0
Resolve A = World → A × World

infixl 5 ◌>>=◌ ◌>>◌
unfoldable pub ◌>>=◌ : {A B : Type 0} → Resolve A → (A → Resolve B) → Resolve B
◌>>=◌ m f w = let (a, w') = m w in f a w'

abbrev pub ◌>>◌ : {B : Type 0} → Resolve (Unit {0}) → Resolve B → Resolve B
m >> k = m >>= λ _. k

unfoldable pub pure : {A : Type 0} → A → Resolve A
pure a w = (a, w)

abbrev pub done : Resolve (Unit {0})
done = pure tt

unfoldable pub output : Output → Resolve (Unit {0})
output o w = (tt, record w { out = w.out ++ o ∷ [] })

abbrev pub emit : Effect → Resolve (Unit {0})
emit e = output (Output.effect e)

unfoldable pub emit_all : List Effect → Resolve (Unit {0})
unfolding output
emit_all [] = done
emit_all (e ∷ rest) = do emit e; emit_all rest

abbrev pub when : Bool → Resolve (Unit {0}) → Resolve (Unit {0})
when b m = if b then m else done

abbrev pub unless : Bool → Resolve (Unit {0}) → Resolve (Unit {0})
unless b m = if b then done else m

unfoldable pub gets : {A : Type 0} → (World → A) → Resolve A
gets f w = (f w, w)

-- What a method does with a value that may be missing.
abbrev pub given {ℓ} : {A : Type ℓ} {B : Type 0} → Option A → B → (A → B) → B
given none b f = b
given (some a) b f = f a

unfoldable pub instance_of : View → World → Option Instance
unfolding lookup
instance_of target w = lookup target w.resolver.instances

-- What `f` reads of the target's instance, or `d` where there is none.
unfoldable pub reads : {A : Type 0} → View → A → (Instance → A) → Resolve A
unfolding instance_of
reads target d f w = elim (instance_of target w) [ none ↦ (d, w) | some i ↦ (f i, w) ]

unfoldable pub put_instance : View → Instance → World → World
unfolding BTree.insert
put_instance target i w = record w {
  resolver = record w.resolver { instances = BTree.insert target i w.resolver.instances };
}

-- A step behind `instances.get_mut(&target)`, with the result `d` where there is no instance.
unfoldable pub on_instance : {A : Type 0} → View → A → (Instance → A × Instance) → Resolve A
unfolding instance_of put_instance
on_instance target d f w = elim (instance_of target w) [
  | none ↦ (d, w)
  | some i ↦ let (a, i') = f i in (a, put_instance target i' w)
]

-- A step on a view of the instance, if it has the view.
unfoldable pub at_view_mut :
    {A : Type 0}
    → ResolverView
    → A
    → (ResolverViewState → A × ResolverViewState)
    → Instance
    → A × Instance
unfolding lookup BTree.insert
at_view_mut view d f i = elim (lookup view i.views) [
  | none ↦ (d, i)
  | some s ↦ let (a, s') = f s in (a, record i { views = BTree.insert view s' i.views })
]

-- A step on `views.entry(view).or_default()`.
unfoldable pub at_entry_mut :
    {A : Type 0}
    → ResolverView
    → (ResolverViewState → A × ResolverViewState)
    → Instance
    → A × Instance
unfolding lookup BTree.insert
at_entry_mut view f i =
    let (a, s') = f (get_or (lookup view i.views) default_view) in
    (a, record i { views = BTree.insert view s' i.views })

unfoldable pub decided_in : View → World → Bool
unfolding lookup
decided_in target w = is_some (lookup target w.resolver.decisions)

unfoldable pub has_instance : View → World → Bool
unfolding instance_of
has_instance target w = is_some (instance_of target w)

-- `entry(target, value)`
unfoldable pub entry_of : View → Digest → World → Option ResolutionEntry
unfolding lookup
entry_of target value w = lookup value (get_or (lookup target w.resolver.books.values) [])

-- A change of the fields other than instances, decisions and the floor.
unfoldable pub on_books : {A : Type 0} → (Books → A × Books) → Resolve A
on_books f w =
    let (a, b) = f w.resolver.books in (a, record w { resolver = record w.resolver { books = b } })

unfoldable pub modify_books : (Books → Books) → Resolve (Unit {0})
unfolding on_books
modify_books f = on_books (λ b. (tt, f b))

-- A new instance, where the target has none.
unfoldable pub create : View → Instance → Resolve (Unit {0})
unfolding put_instance
create target i w = (tt, put_instance target i w)

-- The decision of a target, and the end of its instance.
unfoldable pub conclude : View → Digest → ResolutionEntry → Resolve (Unit {0})
unfolding BTree.insert Map.remove
conclude target value entry w = (
  tt,
  record w {
    resolver = record w.resolver {
      instances = Map.remove target w.resolver.instances;
      decisions = BTree.insert target (value, entry) w.resolver.decisions;
    };
  },
)
