-- ===== src/TwoFactor/Metadata.antt =====
-- The metadata of a verification record. A number is kept as it is, which is what its way through a float64 does to those up
-- to 2 ^ 53; the counts of attempts stay at or below ChallengeMaxAttempts, which normalizeConfig bounds by 20.
use better_auth_go.Prelude.{
  zero, suc, ◌≤◌, ◌<◌, ap, ◌∙◌, String, ◌≡◌, refl, inl, inr, ◌⊎◌, false, lookup, text_cases, ◌==◌,
}
use better_auth_go.Prelude.Int.{ℤ, pos, negsuc}
use better_auth_go.Action.{ok}
use better_auth_go.Value.{Record, field}
use better_auth_go.TwoFactor.Records.{
  VerificationMetadata, metadata_value, metadata_of_value, read_metadata, parse_metadata,
}

abbrev ReadBack : String → ℤ → String → Type 0
ReadBack u n h =
    metadata_of_value (metadata_value (record { user_id = u; attempts = n; code_hash = h }))
    ≡ ok (record { user_id = u; attempts = n; code_hash = h })

with_hash :
    (u : String) (n : ℤ) (h : String)
    → (u ≡ "") ⊎ ((u == "") ≡ false)
    → (h ≡ "") ⊎ ((h == "") ≡ false)
    → ReadBack u n h
unfolding metadata_value read_metadata lookup
with_hash u (pos zero) h (inl a) (inl b) = rw (a, b) refl
with_hash u (pos zero) h (inl a) (inr b) = rw (a, b) refl
with_hash u (pos zero) h (inr a) (inl b) = rw (a, b) refl
with_hash u (pos zero) h (inr a) (inr b) = rw (a, b) refl
with_hash u (pos (suc n)) h (inl a) (inl b) = rw (a, b) refl
with_hash u (pos (suc n)) h (inl a) (inr b) = rw (a, b) refl
with_hash u (pos (suc n)) h (inr a) (inl b) = rw (a, b) refl
with_hash u (pos (suc n)) h (inr a) (inr b) = rw (a, b) refl
with_hash u (negsuc n) h (inl a) (inl b) = rw (a, b) refl
with_hash u (negsuc n) h (inl a) (inr b) = rw (a, b) refl
with_hash u (negsuc n) h (inr a) (inl b) = rw (a, b) refl
with_hash u (negsuc n) h (inr a) (inr b) = rw (a, b) refl

pub metadata_of_value-metadata_value :
    (m : VerificationMetadata) → metadata_of_value (metadata_value m) ≡ ok m
metadata_of_value-metadata_value m =
    with_hash m.user_id m.attempts m.code_hash (text_cases m.user_id "") (text_cases m.code_hash "")

-- the numbers that a float64 carries exactly
abbrev pub IsExact : ℤ → Type 0
IsExact (pos n) = n ≤ 9007199254740992
IsExact (negsuc n) = n < 9007199254740992

-- parseMetadata reads back the metadata that createVerification stored, zero values included, where a float64
-- carries the number of attempts exactly: up to 2 ^ 53.
pub parse_metadata-metadata_value :
    (m : VerificationMetadata) (row : Record)
    → IsExact m.attempts
    → field row "metadata" ≡ metadata_value m
    → parse_metadata row ≡ ok m
unfolding parse_metadata
parse_metadata-metadata_value m row small stored =
    ap metadata_of_value stored ∙ metadata_of_value-metadata_value m
