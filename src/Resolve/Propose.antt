-- ===== src/Resolve/Propose.antt =====
-- primary/src/vantage/direct_resolution.rs: the primary's proposal, and its receipt.
use vantage_bft.Base.{
  Bool, true, false, not, ◌&&◌, ◌||◌, Option, none, List, [], ◌∷◌, length, member, is_some,
  saturating_add, max, ltb, leb, ◌==◌, if◌then◌else◌,
}
use vantage_bft.Base.Map.{Map, lookup}
use vantage_bft.Agb.Types.{View, Digest, ResolutionEntry}
use vantage_bft.Resolve.Types.{ResolverView, Suggest, Proposal, Effect}
use vantage_bft.Resolve.State.{Config, Instance}
use vantage_bft.Resolve.Counts.{at_view, accept_key, is_backed}
use vantage_bft.Resolve.Candidates.{next_candidate_of}
use vantage_bft.Resolve.Schedule.{leads}
use vantage_bft.Resolve.Views.{put_proposal}
use vantage_bft.Resolve.Values.{is_member, valid_entry, remember_entry}
use vantage_bft.Resolve.Phases.{try_echo}
use vantage_bft.Resolve.Monad.{
  World, Resolve, ◌>>=◌, ◌>>◌, done, emit, when, unless, gets, given, reads, on_instance,
  instance_of, at_entry_mut, entry_of, decided_in, has_instance,
}

-- `admits_phase_view`
unfoldable pub admits : ResolverView → Instance → Bool
admits view i = ltb 0 view && leb view (saturating_add (max i.own_wish i.entered_through) 1)

abbrev pub has_proposal : ResolverView → Instance → Bool
has_proposal view i = at_view view false (λ s. is_some s.proposal) i

module _ (cfg : Config) where
  -- A suggestion with a key is accepted when its key is, and its value is backed and known.
  unfoldable pub accepts : View → ResolverView → Instance → World → Suggest → Bool
  unfolding accept_key is_backed entry_of valid_entry
  accepts target view i w s =
      if s.key3_view == 0
      then true
      else ltb s.key3_view view
        && accept_key cfg view s.key3_view s.key3_value i
        && is_backed cfg s.key3_value i
        && given (entry_of target s.key3_value w) false (valid_entry cfg target)

  unfoldable pub accepted_from : View → ResolverView → Instance → World → Map Suggest → List Suggest
  unfolding accepts
  accepted_from target view i w [] = []
  accepted_from target view i w ((sender, s) ∷ rest) =
      let more = accepted_from target view i w rest in
      if accepts target view i w s then s ∷ more else more

  unfoldable pub accepted_suggestions : View → ResolverView → World → List Suggest
  unfolding accepted_from instance_of lookup
  accepted_suggestions target view w =
      given (instance_of target w) []
        (λ i. at_view view [] (λ s. accepted_from target view i w s.suggestions) i)

  -- The key and value of the last suggestion after the sort by key view and key value.
  unfoldable pub highest_key : List Suggest → ResolverView × Digest
  highest_key [] = (0, 0)
  highest_key (s ∷ rest) =
      let (view, value) = highest_key rest in
      if ltb view s.key3_view || (s.key3_view == view && ltb value s.key3_value)
      then (s.key3_view, s.key3_value)
      else (view, value)

  unfoldable pub on_proposal : Proposal → Resolve (Unit {0})
  unfolding is_member admits remember_entry put_proposal try_echo at_entry_mut decided_in
      has_instance
  on_proposal p = do
    decided ← gets (decided_in p.target)
    live ← gets (has_instance p.target)
    fits ←
        reads p.target false
          (λ i. admits p.view i && not (ltb p.view i.current_view) && not (has_proposal p.view i))
    unless
        (not (is_member cfg p.sender)
          || p.target == 0
          || p.view == 0
          || leb p.view p.key_view
          || not (leads cfg p.target p.view p.sender)
          || decided
          || not live)
        (when fits (do
          value ← remember_entry cfg p.target p.entry
          given value done (λ v. unless (not (v == p.value)) (do
            on_instance p.target tt (at_entry_mut p.view (put_proposal p))
            try_echo cfg p.target p.view))))

  unfoldable pub propose :
      View → ResolverView → (key_view : ResolverView) → ResolutionEntry → Resolve (Unit {0})
  unfolding on_proposal
  propose target view key_view e =
      let p : Proposal = record {
        target = target;
        view = view;
        key_view = key_view;
        value = cfg.digest e;
        entry = e;
        sender = cfg.name;
      } in
      (do emit (Effect.broadcast_proposal p); on_proposal p)

  unfoldable pub take_next_candidate : View → ResolverView → Resolve (Option ResolutionEntry)
  unfolding next_candidate_of member
  take_next_candidate target view = do
    barred ← gets (λ w. member target w.resolver.books.full_barred)
    on_instance target none (next_candidate_of barred view)

  -- With a key the value of the highest one, else a fresh candidate.
  unfoldable pub propose_highest : View → ResolverView → ResolverView × Digest → Resolve (Unit {0})
  unfolding propose take_next_candidate
  propose_highest target view (key, value) = do
    known ← gets (entry_of target value)
    if ltb 0 key
        then given known done (propose target view key)
        else (do e ← take_next_candidate target view; given e done (propose target view 0))

  unfoldable pub try_primary_propose : View → ResolverView → Resolve (Unit {0})
  unfolding accepted_suggestions highest_key propose_highest
  try_primary_propose target view = do
    turn ← reads target false (λ i. view == i.current_view && not (has_proposal view i))
    accepted ← gets (accepted_suggestions target view)
    when (turn && leads cfg target view cfg.name) (
        unless (ltb (length accepted) cfg.quorum)
          (propose_highest target view (highest_key accepted)))
