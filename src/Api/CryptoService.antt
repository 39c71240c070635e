-- ===== src/Api/CryptoService.antt =====
-- crates/kms-api/src/service/crypto_service.rs: the operations on keys, over the software key store.
-- The four checked operations differ in the call of the store and the name of the operation; `serve`
-- is what they share. The metrics are the list of what was recorded, the last entry first; log lines
-- leave no trace. HMAC-SM3 is a parameter.
pub mod Access
pub mod Counting
pub mod Mac
pub mod RoundTrip
use mathlib.Core.Option
use gm_kms.Base.{
  ℕ, none, some, [], ◌∷◌, ◌++◌, ◌+◌, ◌≡◌, ok, err, Bytes, Bool, Option, bytes_Eq, ◌==◌, not,
  if◌then◌else◌, List, Result, length, ascii,
}
use gm_kms.Core.Key.{KeySpec, sm3_hmac, spec_eq, KeyMeta, Ciphertext, Signature}
use gm_kms.Core.Aad.{be_bytes}
use gm_kms.Keystore.Software.{Keys, Crypto, get_key_material}
use gm_kms.Keystore.Software.Lifecycle.{get_key_metadata}
use gm_kms.Keystore.Software.Ciphers
use gm_kms.Api.Errors.{
  ApiError, no_key, internal, quota_exceeded, invalid_request, not_hmac_key, or_api_error,
}
use gm_kms.Api.Quota.{QuotaConfig, Counters, QuotaExceeded, Readings, record_request}

-- `OperationCounter` of rotation.rs
pub record OperationCounter (C : Type 0) : Type 0 where
  pub increment : ℕ → C → C × ℕ
  pub get_count : ℕ → C → ℕ

-- `record_key_op_with_spec` and `record_key_access`
pub record Metric : Type 0 where
  pub operation : Bytes
  pub spec : KeySpec
  pub key_id : ℕ

pub record CryptoService (S C : Type 0) : Type 0 where
  pub keystore : Keys
  pub quota_tracker : Option S
  pub op_counter : Option C
  pub metrics : List Metric

-- A bare message is authenticated as it is; additional data is preceded by its length, a u32.
unfoldable pub build_mac_input : Option Bytes → Bytes → Bytes
unfolding be_bytes
build_mac_input none message = message
build_mac_input (some []) message = message
build_mac_input (some (b ∷ a)) message = be_bytes 4 (length (b ∷ a)) ++ ((b ∷ a) ++ message)

-- An answer of `Sm3Hmac`.
pub record Sm3Hmac : Type 0 where
  pub compute : Bytes → Bytes → Result Bytes Bytes
  pub verify : Bytes → Bytes → Bytes → Result Bytes Bool

abbrev pub or_internal {ℓ} : {A : Type ℓ} → Result Bytes A → Result ApiError A
or_internal (ok a) = ok a
or_internal (err e) = err internal

-- The metadata of a key, if it is the tenant's.
unfoldable pub fetch_owned_key_meta : ℕ → Bytes → Keys → Result ApiError KeyMeta
unfolding get_key_metadata
fetch_owned_key_meta key_id tenant_id keys = elim (or_api_error (get_key_metadata key_id keys)) [
  | err e ↦ err e
  | ok meta ↦ if meta.tenant_id == tenant_id then ok meta else err (no_key key_id)
]

abbrev pub quota_error : QuotaExceeded → ApiError
quota_error e = quota_exceeded e.resource e.current e.limit

module _ (crypto : Crypto) where
  -- The caller's additional data is handed to the store, which does not read it.
  abbrev pub encrypt_call : Bytes → ℕ → Bytes → Bytes → KeyMeta → Keys → Result ApiError Ciphertext
  encrypt_call draw key_id plaintext tenant_id meta keys =
      or_api_error (Ciphers.encrypt crypto draw key_id plaintext tenant_id keys)

  abbrev pub decrypt_call : ℕ → Ciphertext → Bytes → KeyMeta → Keys → Result ApiError Bytes
  decrypt_call key_id c tenant_id meta keys =
      or_api_error (Ciphers.decrypt crypto key_id c tenant_id keys)

  abbrev pub sign_call : Bytes → ℕ → Bytes → Bytes → KeyMeta → Keys → Result ApiError Signature
  sign_call draw key_id message tenant_id meta keys =
      or_api_error (Ciphers.sign crypto draw key_id message tenant_id keys)

  abbrev pub verify_call : ℕ → Bytes → Signature → Bytes → KeyMeta → Keys → Result ApiError Bool
  verify_call key_id message signature tenant_id meta keys =
      or_api_error (Ciphers.verify crypto key_id message signature tenant_id keys)

  -- the material of an HMAC-SM3 key, the end of `prepare_hmac`
  unfoldable pub hmac_material : ℕ → Bytes → KeyMeta → Keys → Result ApiError Bytes
  unfolding get_key_material
  hmac_material key_id tenant_id meta keys =
      if not (spec_eq meta.spec sm3_hmac)
      then err (invalid_request (not_hmac_key key_id))
      else or_api_error (get_key_material key_id tenant_id keys)

  unfoldable pub hmac_call :
      Sm3Hmac → ℕ → Bytes → Option Bytes → Bytes → KeyMeta → Keys → Result ApiError (Bytes × ℕ)
  unfolding hmac_material build_mac_input
  hmac_call sm3 key_id message aad tenant_id meta keys =
      elim (hmac_material key_id tenant_id meta keys) [
        | err e ↦ err e
        | ok material ↦ elim (or_internal (sm3.compute material (build_mac_input aad message))) [
          | err e ↦ err e
          | ok mac ↦ ok (mac, meta.version)
        ]
      ]

  unfoldable pub hmac_verify_call :
      Sm3Hmac → ℕ → Bytes → Option Bytes → Bytes → Bytes → KeyMeta → Keys → Result ApiError Bool
  unfolding hmac_material build_mac_input
  hmac_verify_call sm3 key_id message aad expected_mac tenant_id meta keys =
      elim (hmac_material key_id tenant_id meta keys) [
        | err e ↦ err e
        | ok material ↦ or_internal (sm3.verify material (build_mac_input aad message) expected_mac)
      ]

module _ {S C : Type 0} (redis : Counters S) (config : QuotaConfig) (counter : OperationCounter C)
    (crypto : Crypto) where
  -- `if let Some(ref tracker) = self.quota_tracker`
  unfoldable pub check_quota :
      Readings → Bytes → CryptoService S C → CryptoService S C × Result ApiError (Unit {0})
  unfolding record_request
  check_quota at tenant_id s = elim s.quota_tracker [
    | none ↦ (s, ok tt)
    | some tracker ↦
        let (next, answer) = record_request redis config at tenant_id tracker in
        (
          record s { quota_tracker = some next },
          elim answer [ ok done ↦ ok tt | err e ↦ err (quota_error e) ],
        )
  ]

  -- the metrics and the counter of a successful operation
  unfoldable pub record_op : Bytes → KeySpec → ℕ → CryptoService S C → CryptoService S C
  record_op operation spec key_id s = record s {
    op_counter = Option.map (λ c. (counter.increment key_id c).0) s.op_counter;
    metrics = record { operation = operation; spec = spec; key_id = key_id } ∷ s.metrics;
  }

  -- the records of a call that succeeds
  unfoldable pub after_call {ℓ} :
      {A : Type ℓ}
      → Bytes
      → ℕ
      → CryptoService S C
      → KeyMeta
      → Result ApiError A
      → CryptoService S C × Result ApiError A
  unfolding record_op
  after_call operation key_id s meta (err e) = (s, err e)
  after_call operation key_id s meta (ok a) = (record_op operation meta.spec key_id s, ok a)

  -- what follows the check of the owner
  unfoldable pub after_owner {ℓ} :
      {A : Type ℓ}
      → Bytes
      → ℕ
      → (KeyMeta → Keys → Result ApiError A)
      → CryptoService S C
      → Result ApiError KeyMeta
      → CryptoService S C × Result ApiError A
  unfolding after_call
  after_owner operation key_id call s (err e) = (s, err e)
  after_owner operation key_id call s (ok meta) =
      after_call operation key_id s meta (call meta s.keystore)

  -- what follows the check of the quota
  unfoldable pub after_quota {ℓ} :
      {A : Type ℓ}
      → Bytes
      → ℕ
      → Bytes
      → (KeyMeta → Keys → Result ApiError A)
      → CryptoService S C × Result ApiError (Unit {0})
      → CryptoService S C × Result ApiError A
  unfolding after_owner fetch_owned_key_meta
  after_quota operation key_id tenant_id call (s, err e) = (s, err e)
  after_quota operation key_id tenant_id call (s, ok done) =
      after_owner operation key_id call s (fetch_owned_key_meta key_id tenant_id s.keystore)

  unfoldable pub serve {ℓ} :
      {A : Type ℓ}
      → Readings
      → Bytes
      → ℕ
      → Bytes
      → (KeyMeta → Keys → Result ApiError A)
      → CryptoService S C
      → CryptoService S C × Result ApiError A
  unfolding check_quota after_quota
  serve at operation key_id tenant_id call s =
      after_quota operation key_id tenant_id call (check_quota at tenant_id s)

  unfoldable pub encrypt :
      Readings
      → Bytes
      → ℕ
      → Bytes
      → Option Bytes
      → Bytes
      → CryptoService S C
      → CryptoService S C × Result ApiError Ciphertext
  unfolding serve
  encrypt at draw key_id plaintext aad tenant_id =
      serve at (ascii "encrypt") key_id tenant_id
        (encrypt_call crypto draw key_id plaintext tenant_id)

  unfoldable pub decrypt :
      Readings
      → ℕ
      → Ciphertext
      → Option Bytes
      → Bytes
      → CryptoService S C
      → CryptoService S C × Result ApiError Bytes
  unfolding serve
  decrypt at key_id c aad tenant_id =
      serve at (ascii "decrypt") key_id tenant_id (decrypt_call crypto key_id c tenant_id)

  unfoldable pub sign :
      Readings
      → Bytes
      → ℕ
      → Bytes
      → Bytes
      → CryptoService S C
      → CryptoService S C × Result ApiError Signature
  unfolding serve
  sign at draw key_id message tenant_id =
      serve at (ascii "sign") key_id tenant_id (sign_call crypto draw key_id message tenant_id)

  unfoldable pub verify :
      Readings
      → ℕ
      → Bytes
      → Signature
      → Bytes
      → CryptoService S C
      → CryptoService S C × Result ApiError Bool
  unfolding serve
  verify at key_id message signature tenant_id =
      serve at (ascii "verify") key_id tenant_id
        (verify_call crypto key_id message signature tenant_id)

  unfoldable pub hmac :
      Sm3Hmac
      → Readings
      → ℕ
      → Bytes
      → Option Bytes
      → Bytes
      → CryptoService S C
      → CryptoService S C × Result ApiError (Bytes × ℕ)
  unfolding serve hmac_call
  hmac sm3 at key_id message aad tenant_id =
      serve at (ascii "hmac") key_id tenant_id (hmac_call crypto sm3 key_id message aad tenant_id)

  unfoldable pub hmac_verify :
      Sm3Hmac
      → Readings
      → ℕ
      → Bytes
      → Option Bytes
      → Bytes
      → Bytes
      → CryptoService S C
      → CryptoService S C × Result ApiError Bool
  unfolding serve hmac_verify_call
  hmac_verify sm3 at key_id message aad expected_mac tenant_id =
      serve at (ascii "hmac_verify") key_id tenant_id
        (hmac_verify_call crypto sm3 key_id message aad expected_mac tenant_id)
