-- ===== src/Pacemaker.antt =====
-- primary/src/vantage/pacemaker.rs: wishes for views, their amplification, and view entry.
pub mod Order
pub mod Entry
use vantage_bft.Base.{
  ℕ, zero, suc, ◌+◌, ◌-◌, Bool, true, false, Option, none, some, List, [], ◌∷◌, ◌++◌, replicate,
  length, set, get_elem?, ltb, leb, ◌==◌, if◌then◌else◌,
}
use vantage_bft.Threshold.{from_party_count}
use vantage_bft.Committee.{Committee, PublicKey, size}
use vantage_bft.Leader.{keys}
use vantage_bft.Agb.Types.{View}
use mathlib.Core.Option.{get_or}

-- The effects of primary/src/vantage/mod.rs that the pacemaker emits.
pub data Effect : Type 0 where
  broadcast_wish : View → Effect
  enter : View → Effect

-- `index_of` is the position of a name in the sorted names of the committee.
pub record Pacemaker : Type 0 where
  pub omega : List View
  pub names : List PublicKey
  pub own_index : ℕ
  pub f_plus_1_parties : ℕ
  pub quorum_parties : ℕ
  pub own_watermark : View
  pub entry_target : View
  pub largest_entered_view : View

abbrev index_from : ℕ → PublicKey → List PublicKey → Option ℕ
index_from i name [] = none
index_from i name (k ∷ ks) =
    let later = index_from (suc i) name ks in if k == name then some i else later

unfoldable pub index_of : PublicKey → List PublicKey → Option ℕ
index_of name names = index_from 0 name names

-- `none` is the panic of a name that is not in the committee.
unfoldable pub new : PublicKey → Committee → Option Pacemaker
unfolding index_of from_party_count keys
new name c =
    let names = keys c.authorities in
    let thresholds = from_party_count (length names) in
    elim (index_of name names) [
      | none ↦ none
      | some own ↦ some (record {
        omega = replicate (length names) 0;
        names = names;
        own_index = own;
        f_plus_1_parties = thresholds.f_plus_1_parties;
        quorum_parties = thresholds.n_minus_f_parties;
        own_watermark = 0;
        entry_target = 0;
        largest_entered_view = 0;
      })
    ]

-- A descending list with one more value.
unfoldable pub insert_descending : View → List View → List View
insert_descending x [] = x ∷ []
insert_descending x (y ∷ ys) =
    let behind = insert_descending x ys in if leb y x then x ∷ y ∷ ys else y ∷ behind

unfoldable pub descending : List View → List View
unfolding insert_descending
descending [] = []
descending (x ∷ xs) = insert_descending x (descending xs)

-- The one-based `k`th largest: what stands at `k - 1` in descending order. The source selects it
-- without sorting the rest; `k` is a threshold of the committee, from 1 to its size, and out of that
-- range, where the source panics, the model gives 0.
unfoldable pub kth_largest : List View → ℕ → View
unfolding descending
kth_largest omega k = get_or (get_elem? (descending omega) (k - 1)) 0

unfoldable pub omega_plus : Pacemaker → View
unfolding kth_largest
omega_plus p = kth_largest p.omega p.f_plus_1_parties

unfoldable pub omega_q : Pacemaker → View
unfolding kth_largest
omega_q p = kth_largest p.omega p.quorum_parties

-- The loop from `largest` up to the target, `count` views away.
unfoldable pub enter_views : (count : ℕ) → (largest : View) → List Effect
enter_views zero largest = []
enter_views (suc count) largest = Effect.enter (suc largest) ∷ enter_views count (suc largest)

unfoldable pub advance_entry_target : View → Pacemaker → List Effect × Pacemaker
unfolding enter_views
advance_entry_target target p =
    if ltb p.entry_target target
    then (
      enter_views (target - p.largest_entered_view) p.largest_entered_view,
      record p {
        entry_target = target;
        largest_entered_view = p.largest_entered_view + (target - p.largest_entered_view);
      },
    )
    else ([], p)

unfoldable pub raise_to : View → Pacemaker → Pacemaker
raise_to x p = record p { omega = set p.omega p.own_index x; own_watermark = x }

unfoldable pub raise_own_wish : View → Pacemaker → List Effect × Pacemaker
unfolding raise_to advance_entry_target omega_q
raise_own_wish x p =
    if leb x p.own_watermark
    then ([], p)
    else advance_entry_target (omega_q (raise_to x p)) (raise_to x p)

unfoldable pub genesis : Pacemaker → List Effect × Pacemaker
unfolding raise_own_wish
genesis p =
    let (effects, q) = raise_own_wish 2 (record p { largest_entered_view = 1 }) in
    (Effect.broadcast_wish 2 ∷ effects, q)

-- The sender's wish, kept when it is larger than the one before.
unfoldable pub take_wish : ℕ → View → Pacemaker → Pacemaker
take_wish i x p =
    if ltb (get_or (get_elem? p.omega i) 0) x then (record p { omega = set p.omega i x }) else p

unfoldable pub amplify : Pacemaker → List Effect × Pacemaker
unfolding omega_plus raise_to
amplify p =
    if ltb p.own_watermark (omega_plus p)
    then (Effect.broadcast_wish (omega_plus p) ∷ [], raise_to (omega_plus p) p)
    else ([], p)

unfoldable pub amplify_and_advance : Pacemaker → List Effect × Pacemaker
unfolding amplify advance_entry_target omega_q
amplify_and_advance p =
    let (wishes, q) = amplify p in
    let (entries, r) = advance_entry_target (omega_q q) q in (wishes ++ entries, r)

unfoldable pub on_wish : PublicKey → View → Pacemaker → List Effect × Pacemaker
unfolding index_of take_wish amplify_and_advance
on_wish sender x p = elim (index_of sender p.names) [
  | none ↦ ([], p)
  | some i ↦ amplify_and_advance (take_wish i x p)
]

unfoldable pub fast_forward_installed_entry : View → Pacemaker → Pacemaker
unfolding raise_to
fast_forward_installed_entry next_live p =
    let targeted =
      if ltb p.entry_target next_live then (record p { entry_target = next_live }) else p in
    let entered =
      if ltb p.largest_entered_view next_live
      then (record targeted { largest_entered_view = next_live })
      else targeted in
    if ltb p.own_watermark next_live then raise_to next_live entered else entered

-- The calls that the node makes of its pacemaker.
pub data Event : Type 0 where
  starts : Event
  wishes : PublicKey → View → Event
  raises : View → Event
  installs : View → Event

unfoldable pub handle : Event → Pacemaker → List Effect × Pacemaker
unfolding genesis on_wish raise_own_wish fast_forward_installed_entry
handle Event.starts p = genesis p
handle (Event.wishes sender x) p = on_wish sender x p
handle (Event.raises x) p = raise_own_wish x p
handle (Event.installs x) p = ([], fast_forward_installed_entry x p)
