-- ===== src/Agb/Monad.antt =====
-- The engine's methods as actions on its state and on the effects emitted so far
-- (primary/src/vantage/agb.rs). A method that returns a vector of effects appends them here: every
-- caller extends its own vector by what it gets, at the place of the call.
use vantage_bft.Base.{ℕ, Bool, Option, none, some, List, [], ◌∷◌, ◌++◌, ltb, ◌==◌, if◌then◌else◌}
use vantage_bft.Base.BTree
use vantage_bft.Base.Map.{lookup}
use vantage_bft.Claim.{BlockRef, ClaimRef}
use vantage_bft.Committee.{PublicKey}
use vantage_bft.Agb.Types.{View, Manifest, EchoOut, ReadyOut, Outcome, TimerKind}
use vantage_bft.Agb.State.{ViewState, AgbEngine, default, new_engine}
use mathlib.Core.Option.{get_or}

-- The effects of primary/src/vantage/mod.rs that the engine emits.
pub data Effect : Type 0 where
  broadcast_echo : EchoOut → Effect
  broadcast_echo_skip : View → Effect
  quarantine_tips : Manifest → Effect
  broadcast_ready : ReadyOut → Effect
  broadcast_no_ready : View → Effect
  broadcast_skip_vote : View → Effect
  fixed : View → Bool → Effect
  completed : View → Manifest → Manifest → Effect
  sealed : View → Outcome → Effect
  arm_timer : View → TimerKind → (deadline : ℕ) → Effect
  raise_wish : View → Effect
  avail_claimed : PublicKey → List ClaimRef → Effect

-- An effect, or a call `rep.authorize(r)` of the repairer, whose effects stand at its place.
pub data Output : Type 0 where
  effect : Effect → Output
  authorize : BlockRef → Output

pub record World : Type 0 where
  pub engine : AgbEngine
  pub out : List Output

abbrev pub Agb : Type 0 → Type 0
Agb A = World → A × World

infixl 5 ◌>>=◌ ◌>>◌
unfoldable pub ◌>>=◌ : {A B : Type 0} → Agb A → (A → Agb B) → Agb B
◌>>=◌ m f w = let (a, w') = m w in f a w'

abbrev pub ◌>>◌ : {B : Type 0} → Agb (Unit {0}) → Agb B → Agb B
m >> k = m >>= λ _. k

unfoldable pub pure : {A : Type 0} → A → Agb A
pure a w = (a, w)

abbrev pub done : Agb (Unit {0})
done = pure tt

unfoldable pub output : Output → Agb (Unit {0})
output o w = (tt, record w { out = w.out ++ o ∷ [] })

abbrev pub emit : Effect → Agb (Unit {0})
emit e = output (Output.effect e)

abbrev pub emit_option : Option Effect → Agb (Unit {0})
emit_option none = done
emit_option (some e) = emit e

unfoldable pub authorize_all : List BlockRef → Agb (Unit {0})
authorize_all [] = done
authorize_all (r ∷ rest) = do output (Output.authorize r); authorize_all rest

abbrev pub when : Bool → Agb (Unit {0}) → Agb (Unit {0})
when b m = if b then m else done

-- The state that `state_mut` reads: the default where the view has none.
unfoldable pub state : View → World → ViewState
unfolding lookup
state v w = get_or (lookup v w.engine.views) default

unfoldable pub put_state : View → ViewState → World → World
unfolding BTree.insert
put_state v s w = record w { engine = record w.engine { views = BTree.insert v s w.engine.views } }

-- A step behind `state_mut(v)`, which makes the default state if there is none.
unfoldable pub on_state : {A : Type 0} → View → (ViewState → A × ViewState) → Agb A
unfolding state put_state
on_state v f w = let (a, s) = f (state v w) in (a, put_state v s w)

-- A step behind `views.get(&v)`, with the result `d` where the view has no state.
unfoldable pub on_view : {A : Type 0} → View → A → (ViewState → A × ViewState) → Agb A
unfolding lookup put_state
on_view v d f w = elim (lookup v w.engine.views) [
  | none ↦ (d, w)
  | some s ↦ let (a, s') = f s in (a, put_state v s' w)
]

unfoldable pub modify : View → (ViewState → ViewState) → Agb (Unit {0})
unfolding on_state
modify v f = on_state v (λ s. (tt, f s))

unfoldable pub modify_view : View → (ViewState → ViewState) → Agb (Unit {0})
unfolding on_view
modify_view v f = on_view v tt (λ s. (tt, f s))

unfoldable pub gets : {A : Type 0} → (World → A) → Agb A
gets f w = (f w, w)

-- `views.get(&v)`
unfoldable pub find_view : View → World → Option ViewState
unfolding lookup
find_view v w = lookup v w.engine.views

unfoldable pub is_pruned : View → World → Bool
is_pruned v w = ltb v w.engine.min_live_view

-- A set of views, ascending: `BTreeSet`.
unfoldable pub insert_view : View → List View → List View
insert_view v [] = v ∷ []
insert_view v (u ∷ rest) =
    if u == v then u ∷ rest else if ltb v u then v ∷ u ∷ rest else u ∷ insert_view v rest

unfoldable pub remove_view : View → List View → List View
remove_view v [] = []
remove_view v (u ∷ rest) = if u == v then rest else u ∷ remove_view v rest

unfoldable pub on_gate : (List View → List View) → Agb (Unit {0})
on_gate f w = (tt, record w { engine = record w.engine { pending_gate = f w.engine.pending_gate } })

unfoldable pub on_cursor : View → Agb (Unit {0})
on_cursor v w = (tt, record w { engine = record w.engine { recheck_cursor = v } })

-- A method whose first lines are `if self.is_pruned(view) { return … }`.
unfoldable pub unless_pruned : {A : Type 0} → View → A → Agb A → Agb A
unfolding is_pruned
unless_pruned v a m w = if is_pruned v w then (a, w) else m w

abbrev pub live : View → Agb (Unit {0}) → Agb (Unit {0})
live v m = unless_pruned v tt m

abbrev pub init : World
init = record { engine = new_engine; out = [] }
