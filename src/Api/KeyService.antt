-- ===== src/Api/KeyService.antt =====
-- crates/kms-api/src/service/key_service.rs: the life cycle of keys, over the software key store, with
-- the quota of keys. Import and export, which wrap and parse key material, are left out.
pub mod Quotas
pub mod Listing
use gm_kms.Base.{
  ℕ, none, some, ok, err, Bytes, Bool, true, Option, if◌then◌else◌, List, Result, bytes_Eq, ◌==◌,
  not, ascii, false,
}
use gm_kms.Core.Key.{KeySpec, is_generatable, KeyMeta, KeyFilter}
use gm_kms.Keystore.Software.{Keys, Draw, generate_key}
use gm_kms.Keystore.Software.Lifecycle
use gm_kms.Api.Errors.{
  ApiError, no_key, quota_exceeded, invalid_request, not_generatable, or_api_error,
}
use gm_kms.Api.Quota.{QuotaConfig, Counters, can_create_key, increment_key_count}
use gm_kms.Api.CryptoService.{fetch_owned_key_meta}

pub record KeyService (S : Type 0) : Type 0 where
  pub keystore : Keys
  pub quota_tracker : Option S

module _ {S : Type 0} (redis : Counters S) (config : QuotaConfig) where
  -- `tracker.can_create_key(tenant_id).await.is_err()`, for a tracker that there is
  unfoldable pub is_over : Bytes → Option S → Bool
  unfolding can_create_key
  is_over tenant_id none = false
  is_over tenant_id (some tracker) = elim (can_create_key redis config tenant_id tracker) [
    | ok b ↦ false
    | err e ↦ true
  ]

  -- A count that cannot be stored is only logged.
  unfoldable pub count_key : Bytes → Option S → Option S
  unfolding increment_key_count
  count_key tenant_id none = none
  count_key tenant_id (some tracker) = some (increment_key_count redis config tenant_id tracker).0

  unfoldable pub create_key :
      ℕ → ℕ → Draw → KeySpec → Bytes → Bytes → KeyService S → KeyService S × Result ApiError KeyMeta
  unfolding is_over generate_key count_key
  create_key id now draw spec name tenant_id s =
      if not (is_generatable spec)
      then (s, err (invalid_request (not_generatable spec)))
      else if is_over tenant_id s.quota_tracker
      then (s, err (quota_exceeded (ascii "keys") 0 0))
      else let (keys, made) = generate_key id now draw spec name tenant_id s.keystore in
        elim made [
          | err e ↦ (record s { keystore = keys }, or_api_error (err e))
          | ok meta ↦ (
            record { keystore = keys; quota_tracker = count_key tenant_id s.quota_tracker },
            ok meta,
          )
        ]

  unfoldable pub rotate_key :
      ℕ → Draw → ℕ → Bytes → KeyService S → KeyService S × Result ApiError KeyMeta
  unfolding fetch_owned_key_meta Lifecycle.rotate_key
  rotate_key now draw key_id tenant_id s = elim (fetch_owned_key_meta key_id tenant_id s.keystore) [
    | err e ↦ (s, err e)
    | ok meta ↦
        let (keys, rotated) = Lifecycle.rotate_key now draw key_id tenant_id s.keystore in
        (record s { keystore = keys }, or_api_error rotated)
  ]

  unfoldable pub delete_key : ℕ → Bytes → KeyService S → KeyService S × Result ApiError (Unit {0})
  unfolding fetch_owned_key_meta Lifecycle.delete_key
  delete_key key_id tenant_id s = elim (fetch_owned_key_meta key_id tenant_id s.keystore) [
    | err e ↦ (s, err e)
    | ok meta ↦
        let (keys, deleted) = Lifecycle.delete_key key_id tenant_id s.keystore in
        (record s { keystore = keys }, or_api_error deleted)
  ]

  unfoldable pub get_key : ℕ → Bytes → KeyService S → Result ApiError KeyMeta
  unfolding fetch_owned_key_meta
  get_key key_id tenant_id s = fetch_owned_key_meta key_id tenant_id s.keystore

  unfoldable pub list_keys : KeyFilter → Bytes → KeyService S → List KeyMeta
  unfolding Lifecycle.list_keys
  list_keys filter tenant_id s =
      Lifecycle.list_keys (record filter { tenant_id = some tenant_id }) s.keystore
