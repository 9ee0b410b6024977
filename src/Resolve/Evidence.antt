-- ===== src/Resolve/Evidence.antt =====
-- primary/src/vantage/direct_resolution.rs: suggestions, proofs and witnesses.
use vantage_bft.Base.{
  Bool, false, not, ◌&&◌, ◌||◌, none, some, is_some, is_none, ltb, ◌==◌, if◌then◌else◌,
}
use vantage_bft.Base.Map.{lookup}
use vantage_bft.Committee.{PublicKey}
use vantage_bft.Agb.Types.{View}
use vantage_bft.Resolve.Types.{ResolverView, Suggest, Proof, Witness}
use vantage_bft.Resolve.State.{Config, Instance}
use vantage_bft.Resolve.Counts.{at_view}
use vantage_bft.Resolve.Views.{put_suggestion, take_proof, put_witness}
use vantage_bft.Resolve.Values.{is_member, remember_entry}
use vantage_bft.Resolve.Phases.{try_echo, recheck_backing, recheck_done, advance_view}
use vantage_bft.Resolve.Propose.{admits, try_primary_propose}
use vantage_bft.Resolve.Monad.{
  World, Resolve, ◌>>=◌, ◌>>◌, pure, done, when, gets, given, reads, on_instance, at_entry_mut,
  decided_in, has_instance,
}

module _ (cfg : Config) where
  -- The checks that suggestions and proofs share.
  abbrev pub misaddressed : PublicKey → View → ResolverView → World → Bool
  misaddressed sender target view w =
      not (is_member cfg sender)
      || target == 0
      || view == 0
      || decided_in target w
      || not (has_instance target w)

  abbrev pub in_phase : ResolverView → Instance → Bool
  in_phase view i = admits view i && not (ltb view i.current_view)

  -- A suggestion without a key names no entry; one with a key names the entry of its value.
  unfoldable pub suggestion_ok : Suggest → Resolve Bool
  unfolding remember_entry
  suggestion_ok m =
      if m.key3_view == 0
      then pure (is_none m.entry)
      else given m.entry (pure false) (λ e. do
        value ← remember_entry cfg m.target e
        pure (given value false (λ v. v == m.key3_value)))

  unfoldable pub on_suggest : Suggest → Resolve (Unit {0})
  unfolding is_member decided_in has_instance admits suggestion_ok put_suggestion at_entry_mut
      try_primary_propose lookup
  on_suggest m = do
    lost ← gets (misaddressed m.sender m.target m.view)
    fits ← reads m.target false (λ i.
        in_phase m.view i
        && not (at_view m.view false (λ s. is_some (lookup m.sender s.suggestions)) i))
    when (not lost && fits) (do
      ok ← suggestion_ok m
      when ok (do
        on_instance m.target tt (at_entry_mut m.view (put_suggestion m))
        try_primary_propose cfg m.target m.view))

  unfoldable pub on_proof : Proof → Resolve (Unit {0})
  unfolding is_member decided_in has_instance admits take_proof at_entry_mut try_echo
  on_proof m = do
    lost ← gets (misaddressed m.sender m.target m.view)
    fits ← reads m.target false (in_phase m.view)
    when (not lost && fits) (do
      new ← on_instance m.target false (at_entry_mut m.view (take_proof m))
      when new (try_echo cfg m.target m.view))

  unfoldable pub retry_target : View → Resolve (Unit {0})
  unfolding try_primary_propose try_echo advance_view recheck_done
  retry_target target = do
    live ← reads target none (λ i. some i.current_view)
    given live done (λ view. do
      try_primary_propose cfg target view
      try_echo cfg target view
      advance_view cfg target view
      recheck_done cfg target)

  unfoldable pub on_witness : Witness → Resolve (Unit {0})
  unfolding is_member decided_in has_instance admits remember_entry put_witness at_entry_mut
      recheck_backing advance_view retry_target lookup
  on_witness m = do
    lost ← gets (misaddressed m.sender m.target m.view)
    fits ← reads m.target false (λ i.
        admits m.view i
        && not (at_view m.view false (λ s. is_some (lookup m.sender s.backing_witnesses)) i))
    when (not lost && cfg.digest m.entry == m.value && fits) (do
      value ← remember_entry cfg m.target m.entry
      when (is_some value) (do
        on_instance m.target tt (at_entry_mut m.view (put_witness m.sender m.value))
        recheck_backing cfg (advance_view cfg m.target m.view) m.target m.view
        retry_target m.target))
