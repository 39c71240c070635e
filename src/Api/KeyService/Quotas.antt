-- ===== src/Api/KeyService/Quotas.antt =====
-- crates/kms-api/src/service/key_service.rs: the quota of keys.
use gm_kms.Api.CryptoService.{fetch_owned_key_meta}
use gm_kms.Base.{
  Result-cases, Bool-cases, inl, inr, ◌∙◌, ◌∷◌, ℕ, some, ◌≤◌, ◌≡◌, err, Bytes, true, List, refl,
  arith, ascii, ap, [],
}
use gm_kms.Core.Key.{KeySpec, is_generatable}
use gm_kms.Keystore.Software.{Draw}
use gm_kms.Api.Errors.{quota_exceeded}
use gm_kms.Api.Quota.{QuotaConfig, Counters, keys_of, or_zero, can_create_key}
use gm_kms.Api.KeyService.{KeyService, is_over, create_key, delete_key}

-- a creation or a deletion of a tenant
pub data Call : Type 0 where
  creation : (id now : ℕ) (draw : Draw) (spec : KeySpec) (name : Bytes) → Call
  deletion : (key_id : ℕ) → Call

module _ {S : Type 0} (redis : Counters S) (config : QuotaConfig) (tenant_id : Bytes) where
  abbrev pub run : List Call → KeyService S → KeyService S
  run [] s = s
  run (creation id now draw spec name ∷ calls) s =
      run calls (create_key redis config id now draw spec name tenant_id s).0
  run (deletion key_id ∷ calls) s = run calls (delete_key redis config key_id tenant_id s).0

  delete_key-quota_tracker :
      (key_id : ℕ) (s : KeyService S)
      → (delete_key redis config key_id tenant_id s).0.quota_tracker ≡ s.quota_tracker
  unfolding delete_key
  delete_key-quota_tracker key_id s =
      elim (Result-cases (fetch_owned_key_meta key_id tenant_id s.keystore)) [
        | inl (e, foreign) ↦ rw (delete_key, foreign) refl
        | inr (meta, owned) ↦ rw (delete_key, owned) refl
      ]

  module _ (tracker : S)
      (full : config.max_keys ≤ or_zero (redis.read (keys_of tenant_id) tracker)) where
    over : is_over redis config tenant_id (some tracker) ≡ true
    unfolding is_over can_create_key
    over = ground (arith, full)

    refused :
        (id now : ℕ) (draw : Draw) (spec : KeySpec) (name : Bytes) (s : KeyService S)
        → s.quota_tracker ≡ some tracker
        → (create_key redis config id now draw spec name tenant_id s).0 ≡ s
    unfolding create_key
    refused id now draw spec name s tracked = elim (Bool-cases (is_generatable spec)) [
      | inl allowed ↦ rw (create_key, allowed, tracked, over) refl
      | inr other ↦ rw (create_key, other) refl
    ]

    run-quota_tracker :
        (calls : List Call) (s : KeyService S)
        → s.quota_tracker ≡ some tracker
        → (run calls s).quota_tracker ≡ some tracker
    run-quota_tracker [] s tracked = tracked
    run-quota_tracker (creation id now draw spec name ∷ calls) s tracked =
        run-quota_tracker calls (create_key redis config id now draw spec name tenant_id s).0 (
          ap (λ (t : KeyService S). t.quota_tracker) (refused id now draw spec name s tracked)
          ∙ tracked)
    run-quota_tracker (deletion key_id ∷ calls) s tracked =
        run-quota_tracker calls (delete_key redis config key_id tenant_id s).0
          (delete_key-quota_tracker key_id s ∙ tracked)

  -- Where the count of a tenant's keys has reached its limit, and as long as it does not expire, a
  -- creation of a key that can be generated is refused after any creations and deletions of the tenant:
  -- no deletion lowers the count.
  pub create_key-run :
      (id now : ℕ) (draw : Draw) (spec : KeySpec) (name : Bytes) (calls : List Call)
      (s : KeyService S) (tracker : S)
      → s.quota_tracker ≡ some tracker
      → config.max_keys ≤ or_zero (redis.read (keys_of tenant_id) tracker)
      → is_generatable spec ≡ true
      → create_key redis config id now draw spec name tenant_id (run calls s)
        ≡ (run calls s, err (quota_exceeded (ascii "keys") 0 0))
  unfolding create_key
  create_key-run id now draw spec name calls s tracker tracked full allowed =
      rw (create_key, allowed, run-quota_tracker tracker full calls s tracked, over tracker full)
        refl
