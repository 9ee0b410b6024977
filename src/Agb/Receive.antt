-- ===== src/Agb/Receive.antt =====
-- primary/src/vantage/agb.rs: the handlers of messages and timers, and the engine as a whole.
use vantage_bft.Base.{
  ℕ, ◌+◌, min, max, Bool, true, false, not, ◌&&◌, Option, none, some, List, [], ◌∷◌, ◌++◌, is_some,
  is_none, is_empty, ltb, leb, ◌==◌, if◌then◌else◌,
}
use vantage_bft.Base.Map.{lookup}
use vantage_bft.Claim.{BlockRef, ClaimRef, AvailClaim, statements}
use vantage_bft.Committee.{PublicKey}
use vantage_bft.Leader.{one_based}
use vantage_bft.Agb.Types.{
  View, Digest, ProposalOut, ViewProposal, BatchViewProposal, ResolutionEntry, Echo, EchoBatch,
  EchoOut, ReadyOut, Outcome, ResponseStage, core_of, tip_of, entries, proposal_view, references,
  echo_grade, echo_sender, echo_proposal, origin_vec, ready_sender, ready_grade, ready_proposal,
}
use vantage_bft.Agb.Formed.{formed, formed_batch, proposal_formed}
use vantage_bft.Agb.State.{Config, Fixed, EchoStatement, ReadyStatement, ViewState}
use vantage_bft.Agb.Votes.{LaneView, core_ok}
use vantage_bft.Agb.Monad.{
  World, Agb, ◌>>=◌, ◌>>◌, pure, done, emit, authorize_all, when, on_state, modify, gets, find_view,
  is_pruned, insert_view, on_gate, live, fixed, avail_claimed,
}
use vantage_bft.Agb.Rechecks.{
  passes, wish, try_seal, aux_refs, count_echo_statement, count_ready_statement,
  count_skip_vote_statement, recheck_lock_release, recheck_fastseal_trigger, finalize_mix_if_closed,
  recheck_skip_seal_trigger, recheck_skip_vote_trigger, recheck_completion_and_direct,
  recheck_after_echo, on_ready_timer,
}
use vantage_bft.Agb.Meta.{try_meta_ok, compute_origin}
use vantage_bft.Agb.Handlers.{
  theta_echo, proposal_in, is_unset, canonical_proposal, send_echo, send_echo_skip, mark_echo_sent,
  arm_fallback, recheck_gate,
}

-- The indices of `refs` in the fixed order: `C`, `T`, then the references of the entry.
unfoldable pub entry_refs : Option ResolutionEntry → List BlockRef
unfolding references
entry_refs none = []
entry_refs (some e) = references e

unfoldable pub manifest_refs : ViewProposal → List BlockRef
unfolding entry_refs
manifest_refs p = p.c ++ p.t ++ entry_refs p.m

unfoldable pub batch_manifest_refs : BatchViewProposal → List BlockRef
batch_manifest_refs p = p.c ++ p.t

abbrev pub anchor_of : ClaimRef → BlockRef
anchor_of (ClaimRef.exact r) = r
anchor_of (ClaimRef.ancestor r delta) = r

unfoldable pub anchors : List ClaimRef → List BlockRef
anchors [] = []
anchors (c ∷ rest) = anchor_of c ∷ anchors rest

unfoldable pub has_echo_of : PublicKey → ViewState → Bool
unfolding lookup
has_echo_of sender s = is_some (lookup sender s.echo_statements)

module _ (cfg : Config) where
  unfoldable pub proposed_by : View → PublicKey → Bool
  unfolding one_based
  proposed_by view sender = elim (one_based cfg.committee view) [
    | none ↦ false
    | some p ↦ sender == p
  ]

  -- `now > entry + theta_echo`, for a view that is entered.
  unfoldable pub late : ℕ → Option ℕ → Bool
  late now none = false
  late now (some entry) = ltb (entry + theta_echo cfg) now

  unfoldable pub first_instant : ℕ → Option ℕ → Option ℕ
  first_instant now none = some now
  first_instant now (some t) = some t

  unfoldable pub proposal_deadline : ℕ → Option ℕ → Option ℕ
  proposal_deadline now none = none
  proposal_deadline now (some entry) =
      some (min (max entry now + cfg.delta) (entry + theta_echo cfg))

  unfoldable pub announce_fixed : View → ProposalOut → (now : ℕ) → LaneView → Agb (Unit {0})
  unfolding proposal_deadline arm_fallback recheck_gate core_of tip_of entries aux_refs
  announce_fixed view p now lm = do
    awaits ← on_state view (λ s. (s.active && not s.echo_sent, s))
    when awaits (on_gate (insert_view view))
    authorize_all (core_of p ++ tip_of p ++ aux_refs (entries p))
    emit (fixed view true)
    deadline ← on_state view (λ s. (proposal_deadline now s.entry_instant, s))
    arm_fallback cfg view deadline
    recheck_gate cfg view lm

  unfoldable pub store_fixed : View → ProposalOut × Digest → (now : ℕ) → LaneView → Agb (Unit {0})
  unfolding announce_fixed
  store_fixed view hit now lm = do
    modify view (λ s. record s { fixed = Fixed.proposal hit.0 hit.1 })
    announce_fixed view hit.0 now lm

  -- The first formed proposal of the view is fixed.
  unfoldable pub fix_proposal : View → ProposalOut → (now : ℕ) → LaneView → Agb (Unit {0})
  unfolding canonical_proposal store_fixed
  fix_proposal view body now lm = do
    hit ← canonical_proposal cfg view body
    store_fixed view hit now lm

  unfoldable pub reject_proposal : View → Agb (Unit {0})
  reject_proposal view = do
    modify view (λ s. record s { fixed = Fixed.reject })
    emit (fixed view false)

  unfoldable pub take_proposal : View → ProposalOut → (now : ℕ) → LaneView → Agb (Unit {0})
  unfolding proposal_formed fix_proposal first_instant reject_proposal
  take_proposal view p now lm = do
    modify view
        (λ s. record s { first_proposal_instant = first_instant now s.first_proposal_instant })
    if not (proposal_formed cfg.committee p)
        then reject_proposal view
        else fix_proposal view p now lm

  unfoldable pub on_propose_any :
      (sender : PublicKey) → ProposalOut → (now : ℕ) → LaneView → Agb (Unit {0})
  unfolding take_proposal proposed_by late proposal_view
  on_propose_any sender p now lm =
      let view = proposal_view p in
      live view (
        if not (proposed_by view sender) then done else do
          s ← on_state view (λ s. (s, s))
          let open_now = not (late now s.entry_instant) && is_unset s.fixed
          when open_now (take_proposal view p now lm))

  -- The fallback echo of grade 0, or the echo-skip where the core or the metadata is not accepted.
  unfoldable pub fallback_echo : View → ProposalOut → Digest → LaneView → Agb (Unit {0})
  unfolding send_echo send_echo_skip core_ok core_of entries
  fallback_echo view p d lm = do
    held ← (if core_ok (core_of p) lm then try_meta_ok cfg view (entries p) lm else pure false)
    if held
        then (do origin ← gets (compute_origin cfg (entries p)); send_echo cfg view p d 0 origin)
        else send_echo_skip cfg view

  unfoldable pub fallback : View → LaneView → Option (ProposalOut × Digest) → Agb (Unit {0})
  unfolding fallback_echo mark_echo_sent
  fallback view lm none = done
  fallback view lm (some (p, d)) = do
    mark_echo_sent cfg view
    wish view ResponseStage.echo
    fallback_echo view p d lm
    recheck_after_echo cfg view

  unfoldable pub on_echo_fallback_timer : View → LaneView → Agb (Unit {0})
  unfolding fallback
  on_echo_fallback_timer view lm = live view (do
    s ← on_state view (λ s. (s, s))
    if s.echo_sent then done else fallback view lm (proposal_in s.fixed))

  unfoldable pub absolute_skip : View → Agb (Unit {0})
  unfolding mark_echo_sent send_echo_skip
  absolute_skip view = do
    mark_echo_sent cfg view
    wish view ResponseStage.echo
    send_echo_skip cfg view
    recheck_after_echo cfg view

  unfoldable pub on_echo_absolute_timer : View → Agb (Unit {0})
  unfolding absolute_skip
  on_echo_absolute_timer view =
      live view
        (do sent ← on_state view (λ s. (s.echo_sent, s)); if sent then done else absolute_skip view)

  unfoldable pub awaits_proposal : ViewState → Bool
  awaits_proposal s = s.entered && is_none s.sealed && not s.echo_sent && is_unset s.fixed

  unfoldable pub refuse_unproposed_view : View → Agb (Unit {0})
  unfolding awaits_proposal on_echo_absolute_timer
  refuse_unproposed_view view = live view (do
    awaits ← gets (λ w. passes awaits_proposal (find_view view w))
    if not awaits then done else do on_echo_absolute_timer view; on_ready_timer cfg view)

  unfoldable pub count_graded : View → EchoOut → Agb Bool
  unfolding echo_proposal echo_sender echo_grade origin_vec
  count_graded view e = do
    hit ← canonical_proposal cfg view (echo_proposal e)
    count_echo_statement cfg view (echo_sender e)
        (EchoStatement.graded hit.0 hit.1 (echo_grade e) (origin_vec e))

  unfoldable pub on_echo_any : EchoOut → Agb (Unit {0})
  unfolding count_graded
  on_echo_any e =
      let view = proposal_view (echo_proposal e) in
      if ltb 1 (echo_grade e)
      then done
      else live view (do counted ← count_graded view e; when counted (recheck_after_echo cfg view))

  unfoldable pub claim_statements : PublicKey → List ClaimRef → Agb (Unit {0})
  unfolding anchors
  claim_statements sender cs =
      if is_empty cs then done else do emit (avail_claimed sender cs); authorize_all (anchors cs)

  -- The claim of an echo that may carry one.
  unfoldable pub take_claim : PublicKey → List BlockRef → Option AvailClaim → Agb (Unit {0})
  unfolding claim_statements statements
  take_claim sender refs none = done
  take_claim sender refs (some claim) = claim_statements sender (statements claim refs)

  unfoldable pub carries_claim :
      View → (grade : ℕ) → PublicKey → (well_formed : Bool) → World → Bool
  unfolding has_echo_of lookup
  carries_claim view grade sender well_formed w =
      leb grade 1
      && not (is_pruned view w)
      && not (passes (has_echo_of sender) (find_view view w))
      && is_some (lookup sender cfg.committee.authorities)
      && well_formed

  unfoldable pub on_echo : Echo → Agb (Unit {0})
  unfolding carries_claim take_claim manifest_refs formed on_echo_any
  on_echo e = do
    let p = e.proposal
    carrier ← gets (carries_claim p.view e.grade e.sender (formed cfg.committee p.view p.c p.t p.m))
    when carrier (take_claim e.sender (manifest_refs p) e.avail)
    on_echo_any (EchoOut.single e)

  unfoldable pub on_echo_batch : EchoBatch → Agb (Unit {0})
  unfolding carries_claim take_claim batch_manifest_refs formed_batch on_echo_any
  on_echo_batch e = do
    let p = e.proposal
    carrier ←
        gets (carries_claim p.view e.grade e.sender (formed_batch cfg.committee p.view p.c p.t p.m))
    when carrier (take_claim e.sender (batch_manifest_refs p) e.avail)
    on_echo_any (EchoOut.batch e)

  unfoldable pub on_echo_skip : View → PublicKey → Agb (Unit {0})
  on_echo_skip view sender = live view (do
    counted ← count_echo_statement cfg view sender EchoStatement.skip
    when counted (do
      recheck_lock_release cfg view
      finalize_mix_if_closed cfg view false
      recheck_fastseal_trigger cfg view
      recheck_skip_vote_trigger cfg view))

  unfoldable pub count_ready_of : View → ReadyOut → Digest → ProposalOut → Agb Bool
  unfolding ready_sender ready_grade
  count_ready_of view r d p =
      count_ready_statement cfg view (ready_sender r) (ReadyStatement.graded p d (ready_grade r))

  unfoldable pub on_ready_any : ReadyOut → Agb (Unit {0})
  unfolding count_ready_of ready_proposal
  on_ready_any r =
      let view = proposal_view (ready_proposal r) in
      live view (do
        hit ← canonical_proposal cfg view (ready_proposal r)
        counted ← count_ready_of view r hit.1 hit.0
        when counted (recheck_completion_and_direct cfg view hit.1))

  unfoldable pub on_noready : View → PublicKey → Agb (Unit {0})
  on_noready view sender =
      live view
        (do count_ready_statement cfg view sender ReadyStatement.no_ready >>= λ counted. done)

  unfoldable pub on_skip_vote : View → PublicKey → Agb (Unit {0})
  on_skip_vote view sender = live view (do
    counted ← count_skip_vote_statement cfg view sender
    when counted (recheck_skip_seal_trigger cfg view))

  unfoldable pub submit_resolution : View → Outcome → Agb (Unit {0})
  submit_resolution view outcome = live view (try_seal view outcome)
