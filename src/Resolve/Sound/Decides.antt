-- ===== src/Resolve/Sound/Decides.antt =====
-- The steps that store a value, decide a target or prune: each keeps the resolver sound.
use vantage_bft.Base.{
  ◌≡◌, sym, ap, subst, ◌∙◌, inl, inr, true, not, ◌&&◌, Option, some, [], arith, ==_iff, is_some,
  ◌==◌, if◌then◌else◌, Bool-cases,
}
use vantage_bft.Base.BTree
use vantage_bft.Base.Map
use vantage_bft.Base.Map.{Map, lookup}
use vantage_bft.Agb.Types.{View, Digest, ResolutionEntry}
use vantage_bft.Resolve.State.{Books, Config, Instance}
use vantage_bft.Resolve.Values.{valid_entry, keep_value, remember_entry}
use vantage_bft.Resolve.Monad.{
  World, ◌>>=◌, pure, instance_of, entry_of, on_books, modify_books, conclude,
}
use vantage_bft.Resolve.Engine.{decision, gc_below, prune_books}
use vantage_bft.Resolve.Sound.{Valid, Sound, Preorder, After, Keeps}
use vantage_bft.Resolve.Sound.Rules.{After-same}
use mathlib.Core.Option.{get_or, some-injective}

-- A value of the books.
abbrev stored : View → Digest → Books → Option ResolutionEntry
stored t v b = lookup v (get_or (lookup t b.values) [])

-- A value that is stored after `keep_value` is the new one, or was there.
stored-keep_value :
    (cfg : Config) (t u : View) (v d : Digest) (e : ResolutionEntry) (b : Books)
    → stored u v (keep_value cfg t d e b)
      ≡ (if t == u && d == v && not (is_some (stored t d b)) then some e else stored u v b)
unfolding keep_value
stored-keep_value cfg t u v d e b = ground (
  arith,
  BTree.lookup-insert t u (BTree.insert d e (get_or (lookup t b.values) [])) b.values,
  BTree.lookup-insert d v e (get_or (lookup t b.values) []),
)

-- The same entry for the same target under its digest.
valid_copy :
    (cfg : Config) (t u : View) (v : Digest) (e x : ResolutionEntry)
    → t ≡ u
    → cfg.digest e ≡ v
    → valid_entry cfg t e ≡ true
    → Path (Option ResolutionEntry) (some e) (some x)
    → Valid cfg u v x
valid_copy cfg t u v e x p d h q =
    let r = some-injective e x q in
    record {
      digest = ap cfg.digest (sym r) ∙ d;
      formed =
          subst (λ y. valid_entry cfg u y ≡ true) r (subst (λ y. valid_entry cfg y e ≡ true) p h);
    }

same_decision :
    (cfg : Config) (t u : View) (v d : Digest) (e x : ResolutionEntry)
    → t ≡ u
    → Valid cfg t v e
    → Path (Option (Digest × ResolutionEntry)) (some (v, e)) (some (d, x))
    → Valid cfg u d x
same_decision cfg t u v d e x p h q =
    let r = some-injective (v, e) (d, x) q in
    valid_copy cfg t u d e x p (h.digest ∙ ap (λ y. y.0) r) h.formed (ap (λ y. some y.1) r)

module _ (cfg : Config) (S : Instance → Instance → Type 0) (P : Preorder S) where
  -- A valid entry is stored under its digest.
  keep_value-After :
      (t : View) (e : ResolutionEntry) (w : World)
      → Sound cfg w
      → valid_entry cfg t e ≡ true
      → After cfg S w (modify_books (keep_value cfg t (cfg.digest e) e) w).1
  unfolding modify_books on_books instance_of decision entry_of
  keep_value-After t e w s h = record {
    sound = record {
      disjoint = s.disjoint;
      retained = s.retained;
      values = λ u v x g.
          elim (Bool-cases (
            t == u
            && cfg.digest e == v
            && not (is_some (stored t (cfg.digest e) w.resolver.books)))) [
              | inl q ↦
                  valid_copy cfg t u v e x (ground (arith, q)) (ground (arith, q)) h
                    (ground (arith, stored-keep_value cfg t u v (cfg.digest e) e w.resolver.books))
              | inr q ↦
                  s.values u v x
                    (ground (arith, stored-keep_value cfg t u v (cfg.digest e) e w.resolver.books))
            ];
      decided = s.decided;
    };
    evolves = record {
      floor = omega arith;
      decided = λ t x h d. d;
      instances = λ t i h e. inl (i, e, P.refl_at i);
    };
  }

  pub remember_entry-Keeps : (t : View) (e : ResolutionEntry) → Keeps cfg S (remember_entry cfg t e)
  unfolding remember_entry ◌>>=◌ pure
  remember_entry-Keeps t e = record {
    at = λ w s. elim (Bool-cases (valid_entry cfg t e)) [
      | inl h ↦ rw h (keep_value-After t e w s h)
      | inr h ↦ rw h (After-same cfg S P w s)
    ];
  }

  -- The end of an instance in a decision on one of the target's values.
  pub conclude-After :
      (t : View) (v : Digest) (e : ResolutionEntry) (i : Instance) (w : World)
      → Sound cfg w
      → instance_of t w ≡ some i
      → entry_of t v w ≡ some e
      → After cfg S w (conclude t v e w).1
  unfolding conclude instance_of decision entry_of
  conclude-After t v e i w s live known = record {
    sound = record {
      disjoint = λ u j g. ground (
        arith,
        Map.lookup-remove t u w.resolver.instances,
        s.disjoint u j,
        BTree.lookup-insert t u (v, e) w.resolver.decisions,
      );
      retained =
          λ u j g. s.retained u j (ground (arith, Map.lookup-remove t u w.resolver.instances));
      values = s.values;
      decided = λ u d x g. elim (Bool-cases (t == u)) [
        | inl q ↦
            same_decision cfg t u v d e x ((==_iff t u).0 q) (s.values t v e known)
              (ground (arith, BTree.lookup-insert t u (v, e) w.resolver.decisions))
        | inr q ↦
            s.decided u d x (ground (arith, BTree.lookup-insert t u (v, e) w.resolver.decisions))
      ];
    };
    evolves = record {
      floor = omega arith;
      decided = λ u x h g.
          ground (arith, s.disjoint t i live, BTree.lookup-insert t u (v, e) w.resolver.decisions);
      instances = λ u j h g. elim (Bool-cases (t == u)) [
        | inl q ↦ inr ((v, e), ground (arith, BTree.lookup-insert t u (v, e) w.resolver.decisions))
        | inr q ↦ inl (j, ground (arith, Map.lookup-remove t u w.resolver.instances), P.refl_at j)
      ];
    };
  }

  pub gc_below-Keeps : (floor : View) → Keeps cfg S (gc_below floor)
  unfolding gc_below prune_books instance_of decision entry_of
  gc_below-Keeps floor = record {
    at = λ w s. elim (Bool-cases (floor == 0)) [
      | inl z ↦ rw z (After-same cfg S P w s)
      | inr z ↦ rw z (record {
        sound = record {
          disjoint = λ u j g. ground (
            arith,
            BTree.lookup-split_off u floor w.resolver.instances,
            s.disjoint u j,
            BTree.lookup-split_off u floor w.resolver.decisions,
          );
          retained = λ u j g.
              ground (arith, BTree.lookup-split_off u floor w.resolver.instances, s.retained u j);
          values = λ u d x g.
              s.values u d x
                (ground (arith, BTree.lookup-split_off u floor w.resolver.books.values));
          decided = λ u d x g.
              s.decided u d x (ground (arith, BTree.lookup-split_off u floor w.resolver.decisions));
        };
        evolves = record {
          floor = omega arith;
          decided = λ u x h g. ground (arith, BTree.lookup-split_off u floor w.resolver.decisions);
          instances = λ u j h g.
              inl (
                j,
                ground (arith, BTree.lookup-split_off u floor w.resolver.instances),
                P.refl_at j,
              );
        };
      })
    ];
  }
