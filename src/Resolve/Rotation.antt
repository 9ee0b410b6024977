-- ===== src/Resolve/Rotation.antt =====
-- A primary's next candidate (primary/src/vantage/direct_resolution.rs, `take_next_candidate`).
use vantage_bft.Base.{
  ℕ, zero, suc, ◌+◌, ◌-◌, ◌<◌, ◌≡◌, refl, subst, inl, inr, Bool, false, ◌&&◌, Option, none, some,
  List, [], ◌∷◌, arith, length, get_elem?, Option-cases, Bool-cases,
}
use vantage_bft.Agb.Types.{ResolutionEntry}
use vantage_bft.Resolve.Types.{ResolverView}
use vantage_bft.Resolve.State.{Instance}
use vantage_bft.Resolve.Candidates.{
  choose, eligible, is_full, next_candidate_of, position, position_from, selected,
}
use native.Mathlib.Nat.{mod-lt}
use mathlib.Core.Option.{none-ne-some, some-injective}

-- Membership by the place in the list.
abbrev pub Holds : ResolutionEntry → List ResolutionEntry → Type 0
Holds e es = (k : ℕ) × (get_elem? es k ≡ some e)

get_elem-below :
    (es : List ResolutionEntry) (k : ℕ)
    → k < length es
    → (e : ResolutionEntry) × (get_elem? es k ≡ some e)
get_elem-below [] k h = absurd (omega (arith, h))
get_elem-below (e ∷ es) zero h = (e, refl)
get_elem-below (e ∷ es) (suc k) h = get_elem-below es k (omega (arith, h))

-- An eligible entry is a candidate, and is not full where full entries are barred.
eligible-Holds :
    (b : Bool) (es : List ResolutionEntry) (e : ResolutionEntry) (k : ℕ)
    → get_elem? (eligible b es) k ≡ some e
    → Holds e es × ((b && is_full e) ≡ false)
unfolding eligible
eligible-Holds b [] e k h = absurd (none-ne-some e h)
eligible-Holds b (f ∷ fs) e k h = elim (Bool-cases (b && is_full f)) [
  | inl out ↦ let ((j, g), t) = eligible-Holds b fs e k (rw out at h) in ((suc j, g), t)
  | inr fits ↦ eligible_head b f fs e k fits (rw fits at h) (eligible-Holds b fs e)
]
  where
    eligible_head :
        (b : Bool) (f : ResolutionEntry) (fs : List ResolutionEntry) (e : ResolutionEntry) (k : ℕ)
        → (b && is_full f) ≡ false
        → get_elem? (f ∷ eligible b fs) k ≡ some e
        → ((j : ℕ) → get_elem? (eligible b fs) j ≡ some e → Holds e fs × ((b && is_full e) ≡ false))
        → Holds e (f ∷ fs) × ((b && is_full e) ≡ false)
    eligible_head b f fs e zero fits h rest =
        ((0, h), subst (λ x. (b && is_full x) ≡ false) (some-injective f e h) fits)
    eligible_head b f fs e (suc k) fits h rest = let ((j, g), t) = rest k h in ((suc j, g), t)

position_from-below :
    (n : ℕ) (e : ResolutionEntry) (es : List ResolutionEntry) (k : ℕ)
    → position_from n e es ≡ some k
    → k < n + length es
position_from-below n e [] k h = absurd (none-ne-some k h)
position_from-below n e (f ∷ fs) k h = ground (arith, h, position_from-below (suc n) e fs k)

selected-below :
    (view : ResolverView) (next : Option ResolutionEntry) (e : ResolutionEntry)
    (es : List ResolutionEntry)
    → selected view next (e ∷ es) < length (e ∷ es)
unfolding selected position
selected-below view none e es = mod-lt (view - 1) (omega arith)
selected-below view (some c) e es = elim (Option-cases (position_from 0 c (e ∷ es))) [
  | inl g ↦ rw g (mod-lt (view - 1) (omega arith))
  | inr (k, g) ↦ rw g (omega (arith, position_from-below 0 c (e ∷ es) k g))
]

-- The choice among entries: one of them, where there is any.
abbrev Picks : List ResolutionEntry → Option ResolutionEntry → Type 0
Picks es none = es ≡ []
Picks es (some e) = Holds e es

choose-Picks :
    (view : ResolverView) (next : Option ResolutionEntry) (es : List ResolutionEntry)
    → Picks es (choose view next es).0
unfolding choose
choose-Picks view next [] = refl
choose-Picks view next (e ∷ es) =
    let (x, g) =
      get_elem-below (e ∷ es) (selected view next (e ∷ es)) (selected-below view next e es) in
    rw g (selected view next (e ∷ es), g)

abbrev pub Offers : (barred : Bool) → Instance → Option ResolutionEntry → Type 0
Offers barred i none = eligible barred i.candidates ≡ []
Offers barred i (some e) = Holds e i.candidates × ((barred && is_full e) ≡ false)

Picks-Offers :
    (b : Bool) (i : Instance) (o : Option ResolutionEntry)
    → Picks (eligible b i.candidates) o
    → Offers b i o
Picks-Offers b i none h = h
Picks-Offers b i (some e) (k, h) = eligible-Holds b i.candidates e k h

-- A fresh proposal takes one of the target's candidates, and none only if no candidate is eligible;
-- where full entries are barred, it never takes a full one.
pub next_candidate_of-Offers :
    (barred : Bool) (view : ResolverView) (i : Instance)
    → Offers barred i (next_candidate_of barred view i).0
unfolding next_candidate_of
next_candidate_of-Offers barred view i =
    Picks-Offers barred i _ (choose-Picks view i.next_candidate (eligible barred i.candidates))
