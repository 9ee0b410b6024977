-- ===== src/Pacemaker/Entry.antt =====
-- The pacemaker moves forward, and enters views one by one (primary/src/vantage/pacemaker.rs).
use vantage_bft.Base.{
  ℕ, zero, suc, ◌+◌, ◌-◌, ◌≤◌, ◌≡◌, refl, Bool, true, false, List, [], ◌∷◌, ◌++◌, leb, arith, inl,
  inr, any, Option-cases, Bool-cases,
}
use vantage_bft.Committee.{PublicKey}
use vantage_bft.Agb.Types.{View}
use vantage_bft.Pacemaker.{
  Effect, Event, Pacemaker, advance_entry_target, amplify, amplify_and_advance, enter_views,
  fast_forward_installed_entry, genesis, handle, index_of, omega_q, on_wish, raise_own_wish,
  raise_to, take_wish,
}

-- The views that effects enter, in order.
abbrev pub entered_by : List Effect → List View
entered_by [] = []
entered_by (Effect.broadcast_wish x ∷ effects) = entered_by effects
entered_by (Effect.enter v ∷ effects) = v ∷ entered_by effects

-- The views after `low`, up to `low + count`.
abbrev pub views_after : (low count : ℕ) → List View
views_after low zero = []
views_after low (suc count) = suc low ∷ views_after (suc low) count

pub record Onward (p q : Pacemaker) : Type 0 where
  pub watermark : p.own_watermark ≤ q.own_watermark
  pub target : p.entry_target ≤ q.entry_target
  pub entered : p.largest_entered_view ≤ q.largest_entered_view

-- A step goes forward and enters the views between the largest entered before and after.
pub record Advances (p : Pacemaker) (step : List Effect × Pacemaker) : Type 0 where
  pub forward : Onward p step.1
  pub consecutive :
      entered_by step.0
      ≡ views_after p.largest_entered_view (step.1.largest_entered_view - p.largest_entered_view)

entered_by-enter_views :
    (count largest : ℕ) → entered_by (enter_views count largest) ≡ views_after largest count
unfolding enter_views
entered_by-enter_views zero largest = refl
entered_by-enter_views (suc count) largest = rw (entered_by-enter_views count (suc largest)) refl

difference : (a b : ℕ) → a + b - a ≡ b
difference a b = omega arith

nothing : (a : ℕ) → a - a ≡ 0
nothing a = omega arith

advance_entry_target-Advances : (t : View) (p : Pacemaker) → Advances p (advance_entry_target t p)
unfolding advance_entry_target
advance_entry_target-Advances t p = record {
  forward = record { watermark = ground arith; target = ground arith; entered = ground arith };
  consecutive = ground (
    arith,
    entered_by-enter_views (t - p.largest_entered_view) p.largest_entered_view,
    difference p.largest_entered_view (t - p.largest_entered_view),
    nothing p.largest_entered_view,
  );
}

raise_own_wish-Advances : (x : View) (p : Pacemaker) → Advances p (raise_own_wish x p)
unfolding raise_own_wish raise_to
raise_own_wish-Advances x p = elim (Bool-cases (leb x p.own_watermark)) [
  | inl low ↦ rw low (record {
    forward = record { watermark = omega arith; target = omega arith; entered = omega arith };
    consecutive = rw (nothing p.largest_entered_view) refl;
  })
  | inr high ↦ rw high (
      let h = advance_entry_target-Advances (omega_q (raise_to x p)) (raise_to x p) in
      record {
        forward = record {
          watermark = ground (arith, h.forward.watermark);
          target = h.forward.target;
          entered = h.forward.entered;
        };
        consecutive = h.consecutive;
      })
]

amplify-Onward :
    (p : Pacemaker)
    → Onward p (amplify p).1
      × ((amplify p).1.largest_entered_view ≡ p.largest_entered_view)
      × (entered_by (amplify p).0 ≡ [])
unfolding amplify raise_to
amplify-Onward p = (
  record { watermark = ground arith; target = ground arith; entered = ground arith },
  ground arith,
  ground arith,
)

entered_by-append : (xs ys : List Effect) → entered_by (xs ++ ys) ≡ entered_by xs ++ entered_by ys
entered_by-append [] ys = refl
entered_by-append (Effect.broadcast_wish x ∷ xs) ys = entered_by-append xs ys
entered_by-append (Effect.enter v ∷ xs) ys = rw (entered_by-append xs ys) refl

amplify_and_advance-Advances : (p : Pacemaker) → Advances p (amplify_and_advance p)
unfolding amplify_and_advance
amplify_and_advance-Advances p =
    let a = amplify-Onward p in
    let h = advance_entry_target-Advances (omega_q (amplify p).1) (amplify p).1 in
    record {
      forward = record {
        watermark = omega (arith, a.0.watermark, h.forward.watermark);
        target = omega (arith, a.0.target, h.forward.target);
        entered = omega (arith, a.0.entered, h.forward.entered);
      };
      consecutive =
          rw
            (
              entered_by-append (amplify p).0
                  (advance_entry_target (omega_q (amplify p).1) (amplify p).1).0,
              a.2,
              h.consecutive,
              a.1,
            )
            refl;
    }

take_wish-entered :
    (i : ℕ) (x : View) (p : Pacemaker)
    → (take_wish i x p).largest_entered_view ≡ p.largest_entered_view
unfolding take_wish
take_wish-entered i x p = ground arith

-- For every pacemaker, sender and wish: the own watermark, the entry target and the largest entered
-- view do not go down, and the views that are entered are exactly those after the largest entered
-- view before, one by one, up to the largest entered view after.
pub on_wish-Advances :
    (sender : PublicKey) (x : View) (p : Pacemaker) → Advances p (on_wish sender x p)
unfolding on_wish take_wish
on_wish-Advances sender x p = elim (Option-cases (index_of sender p.names)) [
  | inl gone ↦
      rw (gone, on_wish)
        (record {
          forward = record { watermark = omega arith; target = omega arith; entered = omega arith };
          consecutive = rw (nothing p.largest_entered_view) refl;
        })
  | inr (i, found) ↦
      let h = amplify_and_advance-Advances (take_wish i x p) in
      rw (found, on_wish)
        (record {
          forward = record {
            watermark = ground (arith, h.forward.watermark);
            target = ground (arith, h.forward.target);
            entered = ground (arith, h.forward.entered);
          };
          consecutive = rw (h.consecutive, take_wish-entered i x p) refl;
        })
]

genesis-Onward : (p : Pacemaker) → p.largest_entered_view ≡ 0 → Onward p (genesis p).1
unfolding genesis
genesis-Onward p fresh =
    let h = raise_own_wish-Advances 2 (record p { largest_entered_view = 1 }) in
    record {
      watermark = h.forward.watermark;
      target = h.forward.target;
      entered = omega (arith, fresh);
    }

fast_forward-Onward : (x : View) (p : Pacemaker) → Onward p (fast_forward_installed_entry x p)
unfolding fast_forward_installed_entry raise_to
fast_forward-Onward x p = record {
  watermark = ground arith;
  target = ground arith;
  entered = ground arith;
}

abbrev pub run : List Event → Pacemaker → Pacemaker
run [] p = p
run (e ∷ events) p = run events (handle e p).1

abbrev pub is_start : Event → Bool
is_start Event.starts = true
is_start e = false

handle-Onward : (e : Event) (p : Pacemaker) → is_start e ≡ false → Onward p (handle e p).1
unfolding handle
handle-Onward Event.starts p later = cc
handle-Onward (Event.wishes sender x) p later = (on_wish-Advances sender x p).forward
handle-Onward (Event.raises x) p later = (raise_own_wish-Advances x p).forward
handle-Onward (Event.installs x) p later = fast_forward-Onward x p

Onward-trans : (p q r : Pacemaker) → Onward p q → Onward q r → Onward p r
Onward-trans p q r a b = record {
  watermark = omega (arith, a.watermark, b.watermark);
  target = omega (arith, a.target, b.target);
  entered = omega (arith, a.entered, b.entered);
}

-- Through any wishes, raises of the own wish and installed states, the own watermark, the entry
-- target and the largest entered view do not go down.
pub run-Onward :
    (events : List Event) (p : Pacemaker) → any is_start events ≡ false → Onward p (run events p)
unfolding any
run-Onward [] p later = record {
  watermark = omega arith;
  target = omega arith;
  entered = omega arith;
}
run-Onward (e ∷ events) p later =
    Onward-trans p (handle e p).1 (run events (handle e p).1) (handle-Onward e p (ground arith))
      (run-Onward events (handle e p).1 (ground arith))
