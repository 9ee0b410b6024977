-- ===== src/Sequence/Hash.antt =====
-- primary/src/vantage/sequence.rs: outcomes, records and their hashes.
use vantage_bft.Base.{ℕ, suc, ◌≡◌, refl, ◌⊎◌, inl, inr, List, [], ◌∷◌, ◌++◌, length, saturating_add}
use vantage_bft.Agb.Types.{View, Digest, Manifest, Outcome}

-- A result, or an error.
pub data Result (E A : Type 0) : Type 0 where
  ok : A → Result E A
  err : E → Result E A

pub Result-cases :
    {E A : Type 0} (r : Result E A) → ((a : A) × (r ≡ ok a)) ⊎ ((e : E) × (r ≡ err e))
Result-cases (ok a) = inl (a, refl)
Result-cases (err e) = inr (e, refl)

abbrev pub sequence_version : ℕ
sequence_version = 1

unfoldable pub tag_genesis : List ℕ
tag_genesis =
    b'v' ∷ b'a' ∷ b'n' ∷ b't' ∷ b'a' ∷ b'g' ∷ b'e' ∷ b'-' ∷ b's' ∷ b'e' ∷ b'q' ∷ b'u' ∷ b'e' ∷ b'n'
    ∷ b'c' ∷ b'e' ∷ b'-' ∷ b'g' ∷ b'e' ∷ b'n' ∷ b'e' ∷ b's' ∷ b'i' ∷ b's' ∷ []

unfoldable pub tag_record : List ℕ
tag_record =
    b'v' ∷ b'a' ∷ b'n' ∷ b't' ∷ b'a' ∷ b'g' ∷ b'e' ∷ b'-' ∷ b's' ∷ b'e' ∷ b'q' ∷ b'u' ∷ b'e' ∷ b'n'
    ∷ b'c' ∷ b'e' ∷ b'-' ∷ b'r' ∷ b'e' ∷ b'c' ∷ b'o' ∷ b'r' ∷ b'd' ∷ []

unfoldable pub tag_outcome : List ℕ
tag_outcome =
    b'v' ∷ b'a' ∷ b'n' ∷ b't' ∷ b'a' ∷ b'g' ∷ b'e' ∷ b'-' ∷ b's' ∷ b'e' ∷ b'q' ∷ b'u' ∷ b'e' ∷ b'n'
    ∷ b'c' ∷ b'e' ∷ b'-' ∷ b'o' ∷ b'u' ∷ b't' ∷ b'c' ∷ b'o' ∷ b'm' ∷ b'e' ∷ []

unfoldable pub tag_delta : List ℕ
tag_delta =
    b'v' ∷ b'a' ∷ b'n' ∷ b't' ∷ b'a' ∷ b'g' ∷ b'e' ∷ b'-' ∷ b's' ∷ b'e' ∷ b'q' ∷ b'u' ∷ b'e' ∷ b'n'
    ∷ b'c' ∷ b'e' ∷ b'-' ∷ b'd' ∷ b'e' ∷ b'l' ∷ b't' ∷ b'a' ∷ []

unfoldable pub tag_item : List ℕ
tag_item =
    b'v' ∷ b'a' ∷ b'n' ∷ b't' ∷ b'a' ∷ b'g' ∷ b'e' ∷ b'-' ∷ b's' ∷ b'e' ∷ b'q' ∷ b'u' ∷ b'e' ∷ b'n'
    ∷ b'c' ∷ b'e' ∷ b'-' ∷ b'i' ∷ b't' ∷ b'e' ∷ b'm' ∷ []

pub data SequenceOutcome : Type 0 where
  full : Manifest → Manifest → SequenceOutcome
  core : Manifest → SequenceOutcome
  skip : SequenceOutcome

unfoldable pub manifest_items : SequenceOutcome → ℕ
manifest_items (SequenceOutcome.full c t) = saturating_add (length c) (length t)
manifest_items (SequenceOutcome.core c) = length c
manifest_items SequenceOutcome.skip = 0

-- `From<&Outcome>`
unfoldable pub of_outcome : Outcome → SequenceOutcome
of_outcome (Outcome.full c t) = SequenceOutcome.full c t
of_outcome (Outcome.core c) = SequenceOutcome.core c
of_outcome Outcome.skip = SequenceOutcome.skip

pub record SequenceRecord : Type 0 where
  pub version : ℕ
  pub view : View
  pub previous_head : Digest
  pub outcome_digest : Digest
  pub delta_len : ℕ
  pub delta_head : Digest

-- What hashing takes from elsewhere: BLAKE3 of a byte string, the bytes of the session identifier
-- and of a digest, and the bincode encodings.
pub record Hashing : Type 0 where
  pub blake3 : List ℕ → Digest
  pub sid : List ℕ
  pub bytes : Digest → List ℕ
  pub encode_outcome : View → SequenceOutcome → List ℕ
  pub encode_position : View → ℕ → List ℕ
  pub encode_record : SequenceRecord → List ℕ

module _ (h : Hashing) where
  unfoldable pub domain_hash : (tag payload : List ℕ) → Digest
  domain_hash tag payload = h.blake3 (tag ++ (h.sid ++ payload))

  -- `SequenceOutcome::digest`
  unfoldable pub outcome_digest : View → SequenceOutcome → Digest
  unfolding domain_hash tag_outcome
  outcome_digest view outcome = domain_hash tag_outcome (h.encode_outcome view outcome)

  unfoldable pub delta_seed : View → Digest
  unfolding domain_hash tag_delta
  delta_seed view = domain_hash tag_delta (h.encode_position view 0)

  unfoldable pub delta_step : View → (index : ℕ) → (previous item : Digest) → Digest
  unfolding domain_hash tag_item
  delta_step view index previous item =
      domain_hash tag_item (h.encode_position view index ++ (h.bytes previous ++ h.bytes item))

  -- The loop over the items, from an index and a hash on.
  unfoldable pub delta_fold : View → (index : ℕ) → Digest → List Digest → Digest
  unfolding delta_step
  delta_fold view index head [] = head
  delta_fold view index head (item ∷ items) =
      delta_fold view (suc index) (delta_step view index head item) items

  unfoldable pub delta_commitment : View → List Digest → ℕ × Digest
  unfolding delta_seed delta_fold
  delta_commitment view items = (length items, delta_fold view 0 (delta_seed view) items)

  unfoldable pub genesis_head : Digest
  unfolding domain_hash tag_genesis
  genesis_head = domain_hash tag_genesis []

  -- `SequenceRecord::head`
  unfoldable pub record_head : SequenceRecord → Digest
  unfolding domain_hash tag_record
  record_head r = domain_hash tag_record (h.encode_record r)
