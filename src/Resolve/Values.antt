-- ===== src/Resolve/Values.antt =====
-- primary/src/vantage/direct_resolution.rs: the values of a target, and fetches of missing ones.
use vantage_bft.Base.{
  ℕ, Bool, true, false, not, ◌&&◌, ◌||◌, Option, none, some, List, [], ◌∷◌, ◌++◌, is_some, member,
  ltb, ◌==◌, if◌then◌else◌,
}
use vantage_bft.Base.BTree
use vantage_bft.Base.Map.{lookup}
use vantage_bft.Committee.{PublicKey, stake}
use vantage_bft.Agb.Types.{View, Digest, ResolutionEntry, target_view}
use vantage_bft.Agb.Formed.{formed_resolution_entry}
use vantage_bft.Resolve.Types.{Effect}
use vantage_bft.Resolve.State.{Books, Config}
use vantage_bft.Resolve.Monad.{
  Resolve, ◌>>=◌, ◌>>◌, pure, done, emit, when, gets, on_books, modify_books, entry_of,
}
use mathlib.Core.Option.{get_or}

-- Sets of pairs, and of numbers, with `insert` telling whether the element is new.
unfoldable pub has_pair : ℕ → ℕ → List (ℕ × ℕ) → Bool
has_pair a b [] = false
has_pair a b ((c, d) ∷ rest) = (c == a && d == b) || has_pair a b rest

unfoldable pub add_pair : ℕ → ℕ → List (ℕ × ℕ) → Bool × List (ℕ × ℕ)
unfolding has_pair
add_pair a b set = if has_pair a b set then (false, set) else (true, set ++ (a, b) ∷ [])

unfoldable pub add_member : ℕ → List ℕ → Bool × List ℕ
unfolding member
add_member a set = if member a set then (false, set) else (true, set ++ a ∷ [])

unfoldable pub drop_member : ℕ → List ℕ → List ℕ
drop_member a [] = []
drop_member a (b ∷ rest) = if b == a then rest else b ∷ drop_member a rest

module _ (cfg : Config) where
  unfoldable pub is_member : PublicKey → Bool
  unfolding stake
  is_member sender = ltb 0 (stake cfg.committee sender)

  unfoldable pub valid_entry : View → ResolutionEntry → Bool
  unfolding target_view formed_resolution_entry
  valid_entry target e = target_view e == target && formed_resolution_entry cfg.committee e

  -- `values.entry((target, value)).or_insert(entry)`
  unfoldable pub keep_value : View → Digest → ResolutionEntry → Books → Books
  unfolding lookup BTree.insert
  keep_value target value e b =
      let known = get_or (lookup target b.values) [] in
      if is_some (lookup value known)
      then b
      else (record b { values = BTree.insert target (BTree.insert value e known) b.values })

  unfoldable pub remember_entry : View → ResolutionEntry → Resolve (Option Digest)
  unfolding valid_entry keep_value
  remember_entry target e =
      if not (valid_entry target e)
      then pure none
      else (do modify_books (keep_value target (cfg.digest e) e); pure (some (cfg.digest e)))

  -- `pending_fetch.entry(target).or_default().insert(value)`
  unfoldable pub want : View → Digest → Books → Books
  unfolding add_member lookup BTree.insert
  want target value b = record b {
    pending_fetch =
        BTree.insert target (add_member value (get_or (lookup target b.pending_fetch) [])).1
          b.pending_fetch;
  }

  unfoldable pub request_from : View → Digest → PublicKey → Books → Bool × Books
  unfolding add_pair lookup BTree.insert
  request_from target value peer b =
      let (new, requested) = add_pair value peer (get_or (lookup target b.fetch_requested) []) in
      (new, record b { fetch_requested = BTree.insert target requested b.fetch_requested })

  unfoldable pub fetch_from : View → Digest → List PublicKey → Resolve (Unit {0})
  unfolding request_from
  fetch_from target value [] = done
  fetch_from target value (peer ∷ rest) = do
    new ← on_books (request_from target value peer)
    when new (
        emit (
          Effect.value_fetch_to peer
            (record { target = target; value = value; requester = cfg.name })))
    fetch_from target value rest

  unfoldable pub ensure_value_fetch : View → Digest → List PublicKey → Resolve (Unit {0})
  unfolding want fetch_from
  ensure_value_fetch target value peers = do
    found ← gets (entry_of target value)
    if is_some found
        then done
        else (do modify_books (want target value); fetch_from target value peers)
