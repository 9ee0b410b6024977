-- ===== src/Claim.antt =====
-- primary/src/vantage/claim.rs: positional availability claims. A word of the bitmap is a `u64`;
-- bit `b` of it is read and set by arithmetic.
use vantage_bft.Base.{
  ℕ, ◌+◌, ◌/◌, ◌%◌, ◌^◌, Bool, true, false, not, ◌&&◌, ◌||◌, Option, none, some, List, [], ◌∷◌,
  ◌++◌, length, get_elem?, set, replicate, any, member, ltb, leb, ◌==◌, if◌then◌else◌,
}

-- `(author, height, digest)`, of block.rs.
abbrev pub BlockRef : Type 0
BlockRef = ℕ × ℕ × ℕ

pub record ShortClaim : Type 0 where
  pub lane : ℕ  -- u16
  pub delta : ℕ

pub data ClaimRef : Type 0 where
  exact : BlockRef → ClaimRef
  ancestor : (anchor : BlockRef) (delta : ℕ) → ClaimRef

pub record AvailClaim : Type 0 where
  pub at_tip : List ℕ
  pub short : List ShortClaim

-- `len.div_ceil(64)`
abbrev pub words_for : ℕ → ℕ
words_for len = (len + 63) / 64

unfoldable pub with_capacity : ℕ → AvailClaim
with_capacity len = record { at_tip = replicate (words_for len) 0; short = [] }

-- `word & (1u64 << b) != 0`
abbrev pub bit : ℕ → ℕ → Bool
bit word b = word / 2 ^ b % 2 == 1

-- `word | (1u64 << b)`
abbrev pub set_bit : ℕ → ℕ → ℕ
set_bit word b = if bit word b then word else word + 2 ^ b

set_word : List ℕ → ℕ → ℕ → List ℕ
set_word words w b = elim (get_elem? words w) [
  | none ↦ words
  | some word ↦ set words w (set_bit word b)
]

unfoldable pub set_at_tip : AvailClaim → ℕ → AvailClaim
unfolding set_word
set_at_tip c lane = record c { at_tip = set_word c.at_tip (lane / 64) (lane % 64) }

unfoldable pub is_at_tip : AvailClaim → ℕ → Bool
is_at_tip c lane = elim (get_elem? c.at_tip (lane / 64)) [
  | none ↦ false
  | some word ↦ bit word (lane % 64)
]

unfoldable pub push_short : AvailClaim → ℕ → ℕ → AvailClaim × Bool
unfolding any is_at_tip
push_short c lane delta =
    if delta == 0 || is_at_tip c lane || ltb 0xffff lane || any (λ s. s.lane == lane) c.short
    then (c, false)
    else (record c { short = c.short ++ record { lane = lane; delta = delta } ∷ [] }, true)

-- Whether a bit of the last word stands for no reference: `*last & (!0u64 << used) != 0`.
unfoldable pub stray_bits : List ℕ → ℕ → Bool
stray_bits [] used = false
stray_bits (last ∷ []) used = not (used == 0) && not (last / 2 ^ used == 0)
stray_bits (word ∷ next ∷ rest) used = stray_bits (next ∷ rest) used

-- The loop over `refs.iter().enumerate()`, from index `j` on.
unfoldable pub exact_claims : AvailClaim → ℕ → List BlockRef → List ClaimRef
unfolding is_at_tip
exact_claims c j [] = []
exact_claims c j (r ∷ rest) =
    let more = exact_claims c (j + 1) rest in if is_at_tip c j then exact r ∷ more else more

-- What the loop over `short` does with one claim, `seen` being the lanes of `seen_short`.
unfoldable pub short_claim : AvailClaim → List BlockRef → List ℕ → ShortClaim → Option ClaimRef
unfolding is_at_tip member
short_claim c refs seen s = elim (get_elem? refs s.lane) [
  | none ↦ none
  | some r ↦
      if is_at_tip c s.lane || member s.lane seen || s.delta == 0 || leb r.1 s.delta
      then none
      else some (ancestor r s.delta)
]

-- `seen_short.insert(j)` is reached only for a lane that names a reference and is not at its tip.
unfoldable pub seen_after : AvailClaim → List BlockRef → List ℕ → ShortClaim → List ℕ
unfolding is_at_tip
seen_after c refs seen s = elim (get_elem? refs s.lane) [
  | none ↦ seen
  | some r ↦ if is_at_tip c s.lane then seen else s.lane ∷ seen
]

abbrev pub push_claim : Option ClaimRef → List ClaimRef → List ClaimRef
push_claim none more = more
push_claim (some r) more = r ∷ more

unfoldable pub short_claims : AvailClaim → List BlockRef → List ℕ → List ShortClaim → List ClaimRef
unfolding short_claim seen_after
short_claims c refs seen [] = []
short_claims c refs seen (s ∷ rest) =
    push_claim (short_claim c refs seen s) (short_claims c refs (seen_after c refs seen s) rest)

unfoldable pub statements : AvailClaim → List BlockRef → List ClaimRef
unfolding stray_bits exact_claims short_claims
statements c refs =
    if not (length c.at_tip == words_for (length refs)) || ltb (length refs) (length c.short)
    then []
    else if stray_bits c.at_tip (length refs % 64)
    then []
    else exact_claims c 0 refs ++ short_claims c refs [] c.short
