-- ===== src/Api/Errors.antt =====
-- crates/kms-api/src/error.rs and crates/kms-api/src/service: what a failed call of the key store is
-- answered with. The texts of the answers are left out, but for what they name.
use gm_kms.Base.{ℕ, ok, err, Bytes, Result}
use gm_kms.Core.Key.{KeySpec}
use gm_kms.Keystore.Software.{
  KeystoreError, key_not_found, key_version_not_found, key_operation_not_allowed, not_implemented,
  invalid_algorithm, invalid_ciphertext, crypto_failed, key_exchange_failed,
}

-- what a request is told to be wrong with it
pub data Invalid : Type 0 where
  bad_ciphertext : Invalid
  bad_algorithm : KeySpec → Invalid
  not_hmac_key : ℕ → Invalid
  not_generatable : KeySpec → Invalid

pub data ApiError : Type 0 where
  no_key : ℕ → ApiError
  forbidden : ℕ → ApiError
  invalid_request : Invalid → ApiError
  internal : ApiError
  quota_exceeded : Bytes → ℕ → ℕ → ApiError

-- `ServiceError::from(e).into_api_error()`
abbrev pub api_error : KeystoreError → ApiError
api_error (key_not_found id) = no_key id
api_error (key_version_not_found id version) = no_key id
api_error (key_operation_not_allowed id) = forbidden id
api_error (not_implemented spec) = internal
api_error (invalid_algorithm spec) = invalid_request (bad_algorithm spec)
api_error invalid_ciphertext = invalid_request bad_ciphertext
api_error (crypto_failed message) = internal
api_error (key_exchange_failed message) = internal

abbrev pub or_api_error {ℓ} : {A : Type ℓ} → Result KeystoreError A → Result ApiError A
or_api_error (ok a) = ok a
or_api_error (err e) = err (api_error e)
