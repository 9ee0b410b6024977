-- ===== src/Sequence/Judged.antt =====
-- What comes of an announcement (primary/src/vantage/sequence.rs, `on_announcement`).
use vantage_bft.Base.{
  ◌≤◌, ◌<◌, ◌≡◌, ◌≢◌, ◌⊎◌, Bool, true, false, none, some, member, saturating_add,
}
use vantage_bft.Committee.{PublicKey}
use vantage_bft.Agb.Types.{View, Digest}
use vantage_bft.Sequence.Hash.{sequence_version}
use vantage_bft.Sequence.Collector.{
  SequenceAnnouncement, IgnoreReason, AnnouncementOutcome, CheckpointCollector, claim_of,
}
use vantage_bft.Sequence.Retracted.{Retracted}
use vantage_bft.Sequence.Counted.{Counted}

-- What each outcome says of the announcement and of the collector.
abbrev pub Judged :
    SequenceAnnouncement
    → PublicKey
    → Bool
    → View
    → CheckpointCollector
    → AnnouncementOutcome × CheckpointCollector
    → Type 0
Judged a sender is_member local_view c (AnnouncementOutcome.counted newly, d) =
    (a.version ≡ sequence_version)
    × (a.sender ≡ sender)
    × (is_member ≡ true)
    × (a.view ≤ saturating_add local_view c.future_view_slack)
    × (claim_of a.view sender c ≡ none)
    × (member sender c.equivocators ≡ false)
    × Counted a.view a.head sender newly c d
Judged a sender is_member local_view c (AnnouncementOutcome.ignored IgnoreReason.version, d) =
    (a.version ≢ sequence_version) × (d ≡ c)
Judged a sender is_member local_view c
      (AnnouncementOutcome.ignored IgnoreReason.sender_mismatch, d) =
    (a.sender ≢ sender) × (d ≡ c)
Judged a sender is_member local_view c (AnnouncementOutcome.ignored IgnoreReason.not_a_member, d) =
    (is_member ≡ false) × (d ≡ c)
Judged a sender is_member local_view c (AnnouncementOutcome.ignored IgnoreReason.too_far_ahead, d) =
    (saturating_add local_view c.future_view_slack < a.view) × (d ≡ c)
Judged a sender is_member local_view c (AnnouncementOutcome.ignored IgnoreReason.duplicate, d) =
    (claim_of a.view sender c ≡ some a.head) × (d ≡ c)
Judged a sender is_member local_view c (AnnouncementOutcome.ignored IgnoreReason.equivocation, d) =
    ((claim_of a.view sender c ≡ none) × (member sender c.equivocators ≡ true) × (d ≡ c))
    ⊎ ((previous : Digest) × (claim_of a.view sender c ≡ some previous)
        × (previous ≢ a.head)
        × Retracted a.view sender c d)
