-- ===== src/Resolve/Sound/Books.antt =====
-- What the steps on the resolver's books keep, and the values that they store.
use vantage_bft.Base.{◌≡◌, refl, arith}
use vantage_bft.Committee.{PublicKey}
use vantage_bft.Agb.Types.{View, Digest}
use vantage_bft.Resolve.Types.{ResolverView, ValueFetch, ValueServe}
use vantage_bft.Resolve.State.{Books, Config}
use vantage_bft.Resolve.Values.{want, request_from}
use vantage_bft.Resolve.Phases.{forget_fetches}
use vantage_bft.Resolve.Replay.{mark_done}
use vantage_bft.Resolve.Targets.{take_passive, admit_through, add_passive}
use vantage_bft.Resolve.Handlers.{answer_once, take_pending}

pub want-values :
    (cfg : Config) (t : View) (v : Digest) (b : Books) → (want cfg t v b).values ≡ b.values
unfolding want
want-values cfg t v b = refl

pub request_from-values :
    (cfg : Config) (t : View) (v : Digest) (k : PublicKey) (b : Books)
    → (request_from cfg t v k b).1.values ≡ b.values
unfolding request_from
request_from-values cfg t v k b = refl

pub forget_fetches-values :
    (cfg : Config) (t : View) (b : Books) → (forget_fetches cfg t b).values ≡ b.values
unfolding forget_fetches
forget_fetches-values cfg t b = refl

pub mark_done-values :
    (cfg : Config) (t : View) (k : PublicKey) (b : Books)
    → (mark_done cfg t k b).1.values ≡ b.values
unfolding mark_done
mark_done-values cfg t k b = refl

pub take_passive-values : (t : View) (b : Books) → (take_passive t b).1.values ≡ b.values
unfolding take_passive
take_passive-values t b = refl

pub admit_through-values : (t : View) (b : Books) → (admit_through t b).values ≡ b.values
unfolding admit_through
admit_through-values t b = refl

pub add_passive-values :
    (t : View) (k : PublicKey) (v : ResolverView) (b : Books)
    → (add_passive t k v b).1.values ≡ b.values
unfolding add_passive
add_passive-values t k v b = refl

pub answer_once-values :
    (cfg : Config) (m : ValueFetch) (b : Books) → (answer_once cfg m b).1.values ≡ b.values
unfolding answer_once
answer_once-values cfg m b = refl

pub take_pending-values :
    (cfg : Config) (m : ValueServe) (b : Books) → (take_pending cfg m b).1.values ≡ b.values
unfolding take_pending
take_pending-values cfg m b = ground arith

pub ruleset books_rules = (
  want-values, request_from-values, forget_fetches-values, mark_done-values, take_passive-values,
  admit_through-values, add_passive-values, answer_once-values, take_pending-values,
)
