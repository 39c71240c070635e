-- ===== src/Core/Shamir/Commitments.antt =====
-- crates/kms-core/src/shamir.rs: the checks of shares and coefficients against commitments, and of a
-- reconstruction against an expected secret. `none` is a panic.
use gm_kms.Base.{
  ℕ, none, some, [], ◌∷◌, ◌++◌, ◌+◌, ◌%◌, ◌^◌, Bytes, Bool, true, false, Option, List,
  if◌then◌else◌, nat_eq, ltb, length, filter, bytes_Eq, ◌==◌,
}
use gm_kms.Audit.Entry.{le_bytes}
use gm_kms.Core.Shamir.{Share}
use gm_kms.Core.Shamir.Shares.{
  Commitment, ReconstructionResult, no_secret, first_of, le_value, reconstruct, hash_mismatch,
}

-- the messages of a check that fails
pub data VerificationError : Type 0 where
  no_commitments_available : VerificationError
  no_commitments_for_block : ℕ → VerificationError
  value_out_of_range : ℕ → VerificationError
  no_commitments_for_verification : VerificationError
  coefficient_failed : (i block_index : ℕ) → VerificationError

pub record ShareVerification : Type 0 where
  pub valid : Bool
  pub x : ℕ
  pub error : Option VerificationError

abbrev pub is_valid : ℕ → ShareVerification
is_valid x = record { valid = true; x = x; error = none }

abbrev pub invalid : ℕ → VerificationError → ShareVerification
invalid x e = record { valid = false; x = x; error = some e }

abbrev pub of_block : ℕ → List Commitment → List Commitment
of_block block_index commitments = filter (λ c. nat_eq c.block_index block_index) commitments

module _ (prime : ℕ) where
  unfoldable pub verify_share : Share → List Commitment → ShareVerification
  verify_share share commitments =
      if nat_eq (length (of_block share.block_index commitments)) 0
      then invalid share.x (no_commitments_for_block share.block_index)
      else if ltb share.y prime
      then is_valid share.x
      else invalid share.x (value_out_of_range share.block_index)

  abbrev first_x : List Share → ℕ
  first_x [] = 0
  first_x (s ∷ shares) = s.x

  -- the loop over the shares, which returns the first result that is not valid
  unfoldable pub verify_each : ℕ → List Commitment → List Share → ShareVerification
  unfolding verify_share
  verify_each x commitments [] = is_valid x
  verify_each x commitments (s ∷ shares) =
      let rest = verify_each x commitments shares in
      let result = verify_share s commitments in if result.valid then rest else result

  unfoldable pub verify_share_all_blocks : List Share → List Commitment → ShareVerification
  unfolding verify_each
  verify_share_all_blocks shares_for_x commitments =
      if nat_eq (length commitments) 0
      then invalid (first_x shares_for_x) no_commitments_available
      else verify_each (first_x shares_for_x) commitments shares_for_x

module _ (prime : ℕ) (sha256 hex_encode : Bytes → Bytes) where
  -- the commitment of a coefficient
  abbrev pub committed : ℕ → ℕ → ℕ → ℕ
  committed block_index i coeff = le_value (
      first_of 8 (sha256 (le_bytes 4 block_index ++ (le_bytes 4 (i % 2 ^ 32) ++ le_bytes 8 coeff))))

  -- the loop over the coefficients, at index i of the block's commitments
  unfoldable pub verify_from : ℕ → ℕ → List ℕ → List Commitment → Option ShareVerification
  verify_from block_index i [] commitments = some (is_valid 0)
  verify_from block_index i (coeff ∷ coefficients) [] = none
  verify_from block_index i (coeff ∷ coefficients) (c ∷ commitments) =
      let rest = verify_from block_index (i + 1) coefficients commitments in
      if nat_eq (committed block_index i coeff) c.value
      then rest
      else some (invalid 0 (coefficient_failed i block_index))

  unfoldable pub verify_coefficients_against_commitments :
      List ℕ → List Commitment → ℕ → Option ShareVerification
  unfolding verify_from
  verify_coefficients_against_commitments coefficients commitments block_index =
      if nat_eq (length (of_block block_index commitments)) 0
      then some (invalid 0 no_commitments_for_verification)
      else verify_from block_index 0 coefficients (of_block block_index commitments)

  -- the hash of what was reconstructed against the hash of what was expected
  abbrev compared : ℕ → Bytes → ReconstructionResult → Option ReconstructionResult
  compared count expected_secret result = elim result.secret [
    | none ↦ none
    | some secret ↦
        if hex_encode (sha256 secret) == hex_encode (sha256 expected_secret)
        then some result
        else some (no_secret (count % 2 ^ 32) hash_mismatch)
  ]

  unfoldable pub verify_reconstruction :
      Bytes → ℕ → List Share → Bytes → Option ReconstructionResult
  unfolding reconstruct
  verify_reconstruction nil now shares expected_secret =
      let result = reconstruct prime sha256 hex_encode nil now shares in
      if result.success then compared (length shares) expected_secret result else some result
