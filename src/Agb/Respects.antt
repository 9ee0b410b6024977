-- ===== src/Agb/Respects.antt =====
-- Relations between the engine's states before and after an action, one rule for each way to build
-- an action. A relation on the states of a view is lifted to all views that are not pruned.
use vantage_bft.Base.{
  ◌≤◌, ◌≡◌, sym, subst, ==_iff, Bool, true, false, some, List, [], ◌∷◌, arith, ◌==◌, if◌then◌else◌,
  Option-cases, Bool-cases, inl, inr,
}
use vantage_bft.Base.BTree
use vantage_bft.Base.Map.{lookup}
use vantage_bft.Claim.{BlockRef}
use vantage_bft.Agb.Types.{View}
use vantage_bft.Agb.State.{ViewState}
use vantage_bft.Agb.Monad.{
  World, Output, Agb, ◌>>=◌, pure, output, authorize_all, state, put_state, on_state, on_view,
  modify, modify_view, gets, on_gate, on_cursor, unless_pruned, is_pruned,
}

pub record Evolves (S : ViewState → ViewState → Type 0) (w w' : World) : Type 0 where
  pub floor : w.engine.min_live_view ≤ w'.engine.min_live_view
  pub views : (v : View) → w'.engine.min_live_view ≤ v → S (state v w) (state v w')

pub record Respects {A : Type 0} (S : ViewState → ViewState → Type 0) (m : Agb A) : Type 0 where
  pub at : (w : World) → Evolves S w (m w).1

pub state-put_state :
    (u v : View) (s : ViewState) (w : World)
    → state u (put_state v s w) ≡ (if v == u then s else state u w)
unfolding state put_state
state-put_state u v s w = rw BTree.lookup-insert (ground arith)

floor-put_state :
    (v : View) (s : ViewState) (w : World)
    → w.engine.min_live_view ≤ (put_state v s w).engine.min_live_view
unfolding put_state
floor-put_state v s w = omega arith

state_found :
    (v : View) (w : World) (s : ViewState) → lookup v w.engine.views ≡ some s → state v w ≡ s
unfolding state
state_found v w s e = rw e

pub record Preorder (S : ViewState → ViewState → Type 0) : Type 0 where
  pub refl_at : (s : ViewState) → S s s
  pub trans_at : (a b c : ViewState) → S a b → S b c → S a c

module _ {S : ViewState → ViewState → Type 0} (P : Preorder S) where
  pub Evolves-refl : (w : World) → Evolves S w w
  Evolves-refl w = record { floor = omega arith; views = λ v h. P.refl_at _ }

  pub Evolves-trans : (a b c : World) → Evolves S a b → Evolves S b c → Evolves S a c
  Evolves-trans a b c p q = record {
    floor = omega (arith, p.floor, q.floor);
    views = λ v h. P.trans_at _ _ _ (p.views v (omega (arith, q.floor))) (q.views v h);
  }

  pub Respects-pure : {A : Type 0} (a : A) → Respects S (pure a)
  unfolding pure
  Respects-pure a = record { at = Evolves-refl }

  pub Respects-gets : {A : Type 0} (f : World → A) → Respects S (gets f)
  unfolding gets
  Respects-gets f = record { at = Evolves-refl }

  pub Respects-bind :
      {A B : Type 0} (m : Agb A) (f : A → Agb B)
      → Respects S m
      → ((a : A) → Respects S (f a))
      → Respects S (m >>= f)
  unfolding ◌>>=◌
  Respects-bind m f km kf = record {
    at = λ w. Evolves-trans w (m w).1 _ (km.at w) ((kf (m w).0).at (m w).1);
  }

  pub Respects-if :
      {A : Type 0} (b : Bool) (m n : Agb A)
      → Respects S m
      → Respects S n
      → Respects S (if b then m else n)
  Respects-if true m n km kn = km
  Respects-if false m n km kn = kn

  pub Respects-output : (o : Output) → Respects S (output o)
  unfolding output state
  Respects-output o = record {
    at = λ w. record { floor = omega arith; views = λ v h. P.refl_at _ };
  }

  pub Respects-on_gate : (f : List View → List View) → Respects S (on_gate f)
  unfolding on_gate state
  Respects-on_gate f = record {
    at = λ w. record { floor = omega arith; views = λ v h. P.refl_at _ };
  }

  pub Respects-on_cursor : (c : View) → Respects S (on_cursor c)
  unfolding on_cursor state
  Respects-on_cursor f = record {
    at = λ w. record { floor = omega arith; views = λ v h. P.refl_at _ };
  }

  pub Respects-unless_pruned :
      {A : Type 0} (v : View) (a : A) (m : Agb A) → Respects S m → Respects S (unless_pruned v a m)
  unfolding unless_pruned
  Respects-unless_pruned v a m km = record {
    at = λ w. elim (Bool-cases (is_pruned v w)) [
      | inl gone ↦ rw gone (Evolves-refl w)
      | inr kept ↦ rw kept (km.at w)
    ];
  }

  pub Evolves-put_state :
      (v : View) (s : ViewState) (w : World) → S (state v w) s → Evolves S w (put_state v s w)
  Evolves-put_state v s w h = record {
    floor = floor-put_state v s w;
    views = λ u fits. rw (state-put_state u v s w) (elim (Bool-cases (v == u)) [
      | inl e ↦ rw e (subst (λ x. S (state x w) s) ((==_iff v u).0 e) h)
      | inr e ↦ rw e (P.refl_at _)
    ]);
  }

  pub Respects-on_state :
      {A : Type 0} (v : View) (f : ViewState → A × ViewState)
      → ((s : ViewState) → S s (f s).1)
      → Respects S (on_state v f)
  unfolding on_state
  Respects-on_state v f h = record { at = λ w. Evolves-put_state v _ w (h (state v w)) }

  pub Respects-on_view :
      {A : Type 0} (v : View) (d : A) (f : ViewState → A × ViewState)
      → ((s : ViewState) → S s (f s).1)
      → Respects S (on_view v d f)
  unfolding on_view
  Respects-on_view v d f h = record {
    at = λ w. elim (Option-cases (lookup v w.engine.views)) [
      | inl e ↦ rw (e, on_view) (Evolves-refl w)
      | inr (s, e) ↦
          rw (e, on_view)
            (Evolves-put_state v _ w (subst (λ x. S x (f s).1) (sym (state_found v w s e)) (h s)))
    ];
  }

  pub Respects-modify :
      (v : View) (f : ViewState → ViewState)
      → ((s : ViewState) → S s (f s))
      → Respects S (modify v f)
  unfolding modify
  Respects-modify v f h = Respects-on_state v (λ s. (tt, f s)) h

  pub Respects-modify_view :
      (v : View) (f : ViewState → ViewState)
      → ((s : ViewState) → S s (f s))
      → Respects S (modify_view v f)
  unfolding modify_view
  Respects-modify_view v f h = Respects-on_view v tt (λ s. (tt, f s)) h

  pub Respects-authorize_all : (rs : List BlockRef) → Respects S (authorize_all rs)
  unfolding authorize_all
  Respects-authorize_all [] = Respects-pure tt
  Respects-authorize_all (r ∷ rs) =
      Respects-bind _ _ (Respects-output _) (λ _. Respects-authorize_all rs)

pub ruleset respects_rules = (
  Respects-pure, Respects-gets, Respects-bind, Respects-if, Respects-output, Respects-on_gate,
  Respects-on_cursor, Respects-unless_pruned, Respects-authorize_all,
)
