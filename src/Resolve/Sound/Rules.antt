-- ===== src/Resolve/Sound/Rules.antt =====
-- One rule for each way to build an action of the resolver.
use vantage_bft.Base.{
  ◌≡◌, refl, sym, subst, ◌∙◌, inl, inr, Bool, true, false, Option, none, some, arith, ==_iff, ◌==◌,
  if◌then◌else◌, Option-cases, Bool-cases,
}
use vantage_bft.Base.BTree
use vantage_bft.Agb.Types.{View, Digest}
use vantage_bft.Resolve.State.{Books, Config, Instance}
use vantage_bft.Resolve.Monad.{
  World, Resolve, ◌>>=◌, Output, pure, output, gets, given, reads, instance_of, entry_of,
  put_instance, on_instance, on_books, modify_books, create, unless,
}
use mathlib.Core.Option.{some-injective, none-ne-some}
use vantage_bft.Resolve.Engine.{decision}
use vantage_bft.Resolve.Sound.{
  Sound, Evolves, Preorder, After, Keeps, Quiet, Room, Vacant, KeepsIf, Stable,
}

pub instance_of-put_instance :
    (u t : View) (i : Instance) (w : World)
    → instance_of u (put_instance t i w) ≡ (if t == u then some i else instance_of u w)
unfolding instance_of put_instance
instance_of-put_instance u t i w = BTree.lookup-insert t u i w.resolver.instances

decision-put_instance :
    (u t : View) (i : Instance) (w : World) → decision u (put_instance t i w) ≡ decision u w
unfolding decision put_instance
decision-put_instance u t i w = refl

entry_of-put_instance :
    (u t : View) (v : Digest) (i : Instance) (w : World)
    → entry_of u v (put_instance t i w) ≡ entry_of u v w
unfolding entry_of put_instance
entry_of-put_instance u t v i w = refl

floor-put_instance :
    (t : View) (i : Instance) (w : World)
    → (put_instance t i w).resolver.retained_floor ≡ w.resolver.retained_floor
unfolding put_instance
floor-put_instance t i w = refl

module _ (cfg : Config) (S : Instance → Instance → Type 0) (P : Preorder S) where
  pub Evolves-trans : (a b c : World) → Evolves S a b → Evolves S b c → Evolves S a c
  Evolves-trans a b c p q = record {
    floor = omega (arith, p.floor, q.floor);
    decided = λ t x h d. q.decided t x h (p.decided t x (omega (arith, q.floor, h)) d);
    instances = λ t i h e. elim (p.instances t i (omega (arith, q.floor, h)) e) [
      | inl (j, f, s) ↦ elim (q.instances t j h f) [
        | inl (k, g, r) ↦ inl (k, g, P.trans_at i j k s r)
        | inr d ↦ inr d
      ]
      | inr (x, d) ↦ inr (x, q.decided t x h d)
    ];
  }

  pub After-same : (w : World) → Sound cfg w → After cfg S w w
  After-same w s = record {
    sound = s;
    evolves = record {
      floor = omega arith;
      decided = λ t x h d. d;
      instances = λ t i h e. inl (i, e, P.refl_at i);
    };
  }

  pub After-trans : (a b c : World) → After cfg S a b → After cfg S b c → After cfg S a c
  After-trans a b c p q = record {
    sound = q.sound;
    evolves = Evolves-trans a b c p.evolves q.evolves;
  }

  pub Keeps-pure : {A : Type 0} (a : A) → Keeps cfg S (pure a)
  unfolding pure
  Keeps-pure a = record { at = After-same }

  pub Keeps-gets : {A : Type 0} (f : World → A) → Keeps cfg S (gets f)
  unfolding gets
  Keeps-gets f = record { at = After-same }

  pub Keeps-reads : {A : Type 0} (t : View) (d : A) (f : Instance → A) → Keeps cfg S (reads t d f)
  unfolding reads
  Keeps-reads t d f = record {
    at = λ w s. elim (Option-cases (instance_of t w)) [
      | inl e ↦ rw (e, reads) (After-same w s)
      | inr (i, e) ↦ rw (e, reads) (After-same w s)
    ];
  }

  pub Keeps-bind :
      {A B : Type 0} (m : Resolve A) (f : A → Resolve B)
      → Keeps cfg S m
      → ((a : A) → Keeps cfg S (f a))
      → Keeps cfg S (m >>= f)
  unfolding ◌>>=◌
  Keeps-bind m f km kf = record {
    at = λ w s. After-trans w (m w).1 _ (km.at w s) ((kf (m w).0).at (m w).1 (km.at w s).sound);
  }

  pub Keeps-if :
      {A : Type 0} (b : Bool) (m n : Resolve A)
      → Keeps cfg S m
      → Keeps cfg S n
      → Keeps cfg S (if b then m else n)
  Keeps-if true m n km kn = km
  Keeps-if false m n km kn = kn

  pub Keeps-given :
      {A B : Type 0} (o : Option A) (m : Resolve B) (f : A → Resolve B)
      → Keeps cfg S m
      → ((a : A) → Keeps cfg S (f a))
      → Keeps cfg S (given o m f)
  Keeps-given none m f km kf = km
  Keeps-given (some a) m f km kf = kf a

  pub Keeps-output : (o : Output) → Keeps cfg S (output o)
  unfolding output instance_of decision entry_of
  Keeps-output o = record {
    at = λ w s. record {
      sound = record {
        disjoint = s.disjoint;
        retained = s.retained;
        values = s.values;
        decided = s.decided;
      };
      evolves = record {
        floor = omega arith;
        decided = λ t x h d. d;
        instances = λ t i h e. inl (i, e, P.refl_at i);
      };
    };
  }

  pub Keeps-on_books :
      {A : Type 0} (f : Books → A × Books)
      → ((b : Books) → (f b).1.values ≡ b.values)
      → Keeps cfg S (on_books f)
  unfolding on_books instance_of decision entry_of
  Keeps-on_books f h = record {
    at = λ w s. record {
      sound = record {
        disjoint = s.disjoint;
        retained = s.retained;
        values = λ t v e g. s.values t v e (rw (sym (h w.resolver.books)) g);
        decided = s.decided;
      };
      evolves = record {
        floor = omega arith;
        decided = λ t x h d. d;
        instances = λ t i h e. inl (i, e, P.refl_at i);
      };
    };
  }

  pub Keeps-modify_books :
      (f : Books → Books) → ((b : Books) → (f b).values ≡ b.values) → Keeps cfg S (modify_books f)
  unfolding modify_books
  Keeps-modify_books f h = Keeps-on_books (λ b. (tt, f b)) h

  -- The new instance of a target that may have one, related to the one before.
  pub After-put_instance :
      (t : View) (i : Instance) (w : World)
      → Sound cfg w
      → Room t w
      → ((j : Instance) → instance_of t w ≡ some j → S j i)
      → After cfg S w (put_instance t i w)
  After-put_instance t i w s r h = record {
    sound = record {
      disjoint = λ u j e. rw decision-put_instance (elim (Bool-cases (t == u)) [
        | inl q ↦ subst (λ x. decision x w ≡ none) ((==_iff t u).0 q) r.undecided
        | inr q ↦ s.disjoint u j (ground (arith, instance_of-put_instance u t i w))
      ]);
      retained = λ u j e. elim (Bool-cases (t == u)) [
        | inl q ↦ omega (arith, floor-put_instance t i w, r.retained, (==_iff t u).0 q)
        | inr q ↦ omega (
          arith,
          floor-put_instance t i w,
          s.retained u j (ground (arith, instance_of-put_instance u t i w)),
        )
      ];
      values = λ u v e g. s.values u v e (rw (sym (entry_of-put_instance u t v i w)) g);
      decided = λ u v e g. s.decided u v e (rw (sym (decision-put_instance u t i w)) g);
    };
    evolves = record {
      floor = omega (arith, floor-put_instance t i w);
      decided = λ u x k d. rw decision-put_instance d;
      instances = λ u j k e. elim (Bool-cases (t == u)) [
        | inl q ↦ inl (
          i,
          ground (arith, instance_of-put_instance u t i w),
          h j (subst (λ x. instance_of x w ≡ some j) (sym ((==_iff t u).0 q)) e),
        )
        | inr q ↦ inl (j, ground (arith, instance_of-put_instance u t i w), P.refl_at j)
      ];
    };
  }

  pub Keeps-on_instance :
      {A : Type 0} (t : View) (d : A) (f : Instance → A × Instance)
      → ((i : Instance) → S i (f i).1)
      → Keeps cfg S (on_instance t d f)
  unfolding on_instance
  Keeps-on_instance t d f h = record {
    at = λ w s. elim (Option-cases (instance_of t w)) [
      | inl e ↦ rw (e, on_instance) (After-same w s)
      | inr (i, e) ↦
          rw (e, on_instance)
            (After-put_instance t (f i).1 w s
              (record { undecided = s.disjoint t i e; retained = s.retained t i e })
              (λ j g. subst (λ x. S x (f i).1) (some-injective _ _ (sym e ∙ g)) (h i)))
    ];
  }

  pub KeepsIf-of :
      {A : Type 0} (P : World → Type 0) (m : Resolve A) → Keeps cfg S m → KeepsIf cfg S P m
  KeepsIf-of P m k = record { at = λ w s p. k.at w s }

  pub KeepsIf-if :
      {A : Type 0} (P : World → Type 0) (b : Bool) (m n : Resolve A)
      → KeepsIf cfg S P m
      → KeepsIf cfg S P n
      → KeepsIf cfg S P (if b then m else n)
  KeepsIf-if P true m n km kn = km
  KeepsIf-if P false m n km kn = kn

  -- An action that leaves the targets as they are, before one with a condition on them.
  pub KeepsIf-bind :
      {A B : Type 0} (P : World → Type 0)
      → Stable P
      → (m : Resolve A) (f : A → Resolve B) → Quiet m
      → Keeps cfg S m
      → ((a : A) → KeepsIf cfg S P (f a))
      → KeepsIf cfg S P (m >>= f)
  unfolding ◌>>=◌
  KeepsIf-bind P st m f q km kf = record {
    at = λ w s p.
        After-trans w (m w).1 _ (km.at w s)
          ((kf (m w).0).at (m w).1 (km.at w s).sound (st.at w (m w).1 (q.at w) p));
  }

  -- An action under a condition, before any other.
  pub KeepsIf-then :
      {A B : Type 0} (P : World → Type 0) (m : Resolve A) (f : A → Resolve B)
      → KeepsIf cfg S P m
      → ((a : A) → Keeps cfg S (f a))
      → KeepsIf cfg S P (m >>= f)
  unfolding ◌>>=◌
  KeepsIf-then P m f km kf = record {
    at = λ w s p.
        After-trans w (m w).1 _ (km.at w s p) ((kf (m w).0).at (m w).1 (km.at w s p).sound);
  }

  -- A test that establishes the condition where it fails.
  pub Keeps-unless :
      (P : World → Type 0) (f : World → Bool) (m : Resolve (Unit {0}))
      → ((w : World) → f w ≡ false → P w)
      → KeepsIf cfg S P m
      → Keeps cfg S (gets f >>= λ b. unless b m)
  unfolding ◌>>=◌ gets pure
  Keeps-unless P f m h k = record {
    at = λ w s. elim (Bool-cases (f w)) [
      | inl e ↦ rw e (After-same w s)
      | inr e ↦ rw e (k.at w s (h w e))
    ];
  }

  pub KeepsIf-create : (t : View) (i : Instance) → KeepsIf cfg S (Vacant t) (create t i)
  unfolding create
  KeepsIf-create t i = record {
    at = λ w s v.
        After-put_instance t i w s v.room (λ j e. absurd (none-ne-some j (sym v.no_instance ∙ e)));
  }

pub Quiet-pure : {A : Type 0} (a : A) → Quiet (pure a)
unfolding pure
Quiet-pure a = record { at = λ w. record { instances = refl; decisions = refl; floor = refl } }

pub Quiet-gets : {A : Type 0} (f : World → A) → Quiet (gets f)
unfolding gets
Quiet-gets f = record { at = λ w. record { instances = refl; decisions = refl; floor = refl } }

pub Quiet-on_books : {A : Type 0} (f : Books → A × Books) → Quiet (on_books f)
unfolding on_books
Quiet-on_books f = record { at = λ w. record { instances = refl; decisions = refl; floor = refl } }

pub Quiet-modify_books : (f : Books → Books) → Quiet (modify_books f)
unfolding modify_books
Quiet-modify_books f = Quiet-on_books (λ b. (tt, f b))

pub Quiet-bind :
    {A B : Type 0} (m : Resolve A) (f : A → Resolve B)
    → Quiet m
    → ((a : A) → Quiet (f a))
    → Quiet (m >>= f)
unfolding ◌>>=◌
Quiet-bind m f km kf = record {
  at = λ w.
      let p = km.at w in
      let q = (kf (m w).0).at (m w).1 in
      record {
        instances = q.instances ∙ p.instances;
        decisions = q.decisions ∙ p.decisions;
        floor = q.floor ∙ p.floor;
      };
}

pub Quiet-if :
    {A : Type 0} (b : Bool) (m n : Resolve A) → Quiet m → Quiet n → Quiet (if b then m else n)
Quiet-if true m n km kn = km
Quiet-if false m n km kn = kn

pub ruleset keeps_rules = (
  Keeps-pure, Keeps-gets, Keeps-reads, Keeps-bind, Keeps-if, Keeps-given, Keeps-output,
  Keeps-on_books, Keeps-modify_books, Keeps-on_instance,
)

pub ruleset quiet_rules =
    (Quiet-pure, Quiet-gets, Quiet-on_books, Quiet-modify_books, Quiet-bind, Quiet-if)
