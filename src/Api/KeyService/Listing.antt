-- ===== src/Api/KeyService/Listing.antt =====
-- crates/kms-api/src/service/key_service.rs: which keys a tenant is shown.
use gm_kms.Base.{
  ℕ, zero, suc, some, none, [], ◌∷◌, ◌≡◌, Bytes, Option, List, All, filter, map, values, bytes_Eq,
  Bool-cases, inl, inr, arith,
}
use gm_kms.Core.Key.{KeyMeta, KeyFilter}
use gm_kms.Keystore.Software.{KeyEntry}
use gm_kms.Keystore.Software.Lifecycle.{skip, first_of, skip_if, first_if, passes}
use gm_kms.Keystore.Software.Lifecycle
use gm_kms.Api.Quota.{QuotaConfig, Counters}
use gm_kms.Api.KeyService.{KeyService, list_keys}

module _ {A : Type 0} (P : A → Type 0) where
  All-skip : (n : ℕ) (xs : List A) → All P xs → All P (skip n xs)
  All-skip zero xs h = h
  All-skip (suc n) [] h = h
  All-skip (suc n) (x ∷ xs) h = All-skip n xs h.1

  All-first_of : (n : ℕ) (xs : List A) → All P xs → All P (first_of n xs)
  All-first_of zero xs h = tt
  All-first_of (suc n) [] h = tt
  All-first_of (suc n) (x ∷ xs) h = (h.0, All-first_of n xs h.1)

  All-page :
      (offset limit : Option ℕ) (xs : List A)
      → All P xs
      → All P (first_if limit (skip_if offset xs))
  All-page none none xs h = h
  All-page (some n) none xs h = All-skip n xs h
  All-page none (some m) xs h = All-first_of m xs h
  All-page (some n) (some m) xs h = All-first_of m (skip n xs) (All-skip n xs h)

-- what passes a filter on a tenant is the tenant's
shown :
    (f : KeyFilter) (tenant_id : Bytes) (es : List KeyEntry)
    → All
        (λ (m : KeyMeta). m.tenant_id ≡ tenant_id)
        (map
          (λ (e : KeyEntry). e.meta)
          (filter (passes (record f { tenant_id = some tenant_id })) es))
shown f tenant_id [] = tt
shown f tenant_id (e ∷ es) =
    elim (Bool-cases (passes (record f { tenant_id = some tenant_id }) e)) [
      | inl passed ↦
          rw passed
            ((bytes_Eq.test_iff e.meta.tenant_id tenant_id).0 (ground arith), shown f tenant_id es)
      | inr failed ↦ rw failed (shown f tenant_id es)
    ]

module _ {S : Type 0} (redis : Counters S) (config : QuotaConfig) where
  -- Every key that a tenant is shown is the tenant's, whatever filter is asked for.
  pub list_keys-IsOwned :
      (f : KeyFilter) (tenant_id : Bytes) (s : KeyService S)
      → All (λ (m : KeyMeta). m.tenant_id ≡ tenant_id) (list_keys redis config f tenant_id s)
  unfolding list_keys Lifecycle.list_keys
  list_keys-IsOwned f tenant_id s =
      All-page _ f.offset f.limit _ (shown f tenant_id (values s.keystore))
