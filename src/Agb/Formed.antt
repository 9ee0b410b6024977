-- ===== src/Agb/Formed.antt =====
-- primary/src/vantage/agb.rs: well-formed proposals and resolution entries.
use vantage_bft.Base.{
  ℕ, ◌-◌, max, Bool, true, false, not, ◌&&◌, ◌||◌, Option, none, some, List, [], ◌∷◌, ◌++◌, length,
  member, ltb, leb, ◌==◌, if◌then◌else◌,
}
use vantage_bft.Threshold.{from_party_count}
use vantage_bft.Committee.{Committee, PublicKey, size, stake}
use vantage_bft.Agb.Types.{View, Manifest, ResolutionEntry, ProposalOut, target_view}

-- `author <= prev`, for the author of the entry before, if there is one.
abbrev not_above : ℕ → Option ℕ → Bool
not_above k none = false
not_above k (some prev) = leb k prev

sorted_from : Committee → Option PublicKey → Manifest → Bool
unfolding stake
sorted_from c last [] = true
sorted_from c last ((author, height, digest) ∷ rest) =
    let more = sorted_from c (some author) rest in
    if ltb height 1
    then false
    else if stake c author == 0
    then false
    else if not_above author last
    then false
    else more

unfoldable pub strictly_sorted_and_staked : Committee → Manifest → Bool
unfolding sorted_from
strictly_sorted_and_staked c m = sorted_from c none m

-- `hashes` holds the digests that the loop has inserted.
fresh_hashes : List ℕ → Manifest → Bool
unfolding member
fresh_hashes hashes [] = true
fresh_hashes hashes ((author, height, h) ∷ rest) =
    let more = fresh_hashes (h ∷ hashes) rest in if member h hashes then false else more

unfoldable pub distinct_hashes : Manifest → Manifest → Bool
unfolding fresh_hashes
distinct_hashes m1 m2 = fresh_hashes [] (m1 ++ m2)

abbrev formed_pair : Committee → Manifest → Manifest → Bool
formed_pair c m1 m2 =
    strictly_sorted_and_staked c m1 && strictly_sorted_and_staked c m2 && distinct_hashes m1 m2

abbrev formed_value : Committee → ResolutionEntry → Bool
formed_value c (ResolutionEntry.full u m1 m2) = formed_pair c m1 m2
formed_value c (ResolutionEntry.core u m1 m2) = formed_pair c m1 m2
formed_value c (ResolutionEntry.skip u) = true

unfoldable pub formed_resolution_entry : Committee → ResolutionEntry → Bool
unfolding strictly_sorted_and_staked distinct_hashes target_view
formed_resolution_entry c e = if ltb (target_view e) 1 then false else formed_value c e

unfoldable pub formed_entry : Committee → View → ResolutionEntry → Bool
unfolding formed_resolution_entry
formed_entry c view e =
    if ltb (target_view e) 1 || ltb (view - 3) (target_view e)
    then false
    else formed_resolution_entry c e

abbrev formed_option : Committee → View → Option ResolutionEntry → Bool
formed_option c view none = true
formed_option c view (some e) = formed_entry c view e

unfoldable pub formed : Committee → View → Manifest → Manifest → Option ResolutionEntry → Bool
unfolding formed_entry
formed c view m1 m2 m = formed_pair c m1 m2 && formed_option c view m

unfoldable pub batch_cap : Committee → ℕ
unfolding size from_party_count
batch_cap c = max ((from_party_count (size c)).f_plus_1_parties - 1) 1

abbrev is_skip : ResolutionEntry → Bool
is_skip (ResolutionEntry.skip u) = true
is_skip (ResolutionEntry.full u c t) = false
is_skip (ResolutionEntry.core u c t) = false

-- The loop over the entries of a batch, `prev` being the target before.
formed_entries : Committee → View → Option View → List ResolutionEntry → Bool
unfolding formed_entry
formed_entries c view prev [] = true
formed_entries c view prev (e ∷ rest) =
    let more = formed_entries c view (some (target_view e)) rest in
    if not (is_skip e)
    then false
    else if not (formed_entry c view e)
    then false
    else if not_above (target_view e) prev
    then false
    else more

unfoldable pub formed_batch : Committee → View → Manifest → Manifest → List ResolutionEntry → Bool
unfolding batch_cap formed_entries
formed_batch c view m1 m2 m =
    if not (formed_pair c m1 m2)
    then false
    else if ltb (length m) 2 || ltb (batch_cap c) (length m)
    then false
    else formed_entries c view none m

unfoldable pub proposal_formed : Committee → ProposalOut → Bool
unfolding formed formed_batch
proposal_formed c (ProposalOut.single p) = formed c p.view p.c p.t p.m
proposal_formed c (ProposalOut.batch p) = formed_batch c p.view p.c p.t p.m
