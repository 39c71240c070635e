-- ===== src/Api/CryptoService/Access.antt =====
-- crates/kms-api/src/service/crypto_service.rs: what an operation asks first, and what it records.
use mathlib.Core.Path.{subst}
use gm_kms.Base.{
  nat_Eq, ap, sym, ◌∙◌, ℕ, none, some, [], ◌≡◌, ok, err, Bytes, Option, List, Result, refl,
  bytes_Eq, ==_refl, get, inl, inr, ascii,
}
use gm_kms.Core.Key.{KeyMeta, Ciphertext, Signature}
use gm_kms.Keystore.Software.{Keys, KeyEntry, Crypto}
use gm_kms.Keystore.Software.Lifecycle.{get_key_metadata}
use gm_kms.Keystore.Software.Access.{IsForeign}
use gm_kms.Api.Errors.{ApiError, no_key}
use gm_kms.Api.Quota.{QuotaConfig, Counters, Readings}
use gm_kms.Api.CryptoService.{
  CryptoService, OperationCounter, Sm3Hmac, fetch_owned_key_meta, check_quota, serve, encrypt,
  decrypt, sign, verify, hmac, hmac_verify, Metric, after_quota, after_owner, encrypt_call,
  decrypt_call, sign_call, verify_call, hmac_call, hmac_verify_call,
}

pub fetch_owned_foreign :
    (key_id : ℕ) (tenant_id : Bytes) (keys : Keys)
    → IsForeign key_id tenant_id keys
    → fetch_owned_key_meta key_id tenant_id keys ≡ err (no_key key_id)
unfolding fetch_owned_key_meta get_key_metadata
fetch_owned_foreign key_id tenant_id keys (inl missing) =
    rw (fetch_owned_key_meta, get_key_metadata, missing) refl
fetch_owned_foreign key_id tenant_id keys (inr (e, there, other)) =
    rw (fetch_owned_key_meta, get_key_metadata, there, other) refl

pub fetch_owned_owner :
    (key_id : ℕ) (tenant_id : Bytes) (keys : Keys) (e : KeyEntry)
    → get key_id keys ≡ some e
    → e.meta.tenant_id ≡ tenant_id
    → fetch_owned_key_meta key_id tenant_id keys ≡ ok e.meta
unfolding fetch_owned_key_meta get_key_metadata
fetch_owned_owner key_id tenant_id keys e there owner =
    rw (fetch_owned_key_meta, get_key_metadata, there, owner, ==_refl tenant_id) refl

module _ {S C : Type 0} (redis : Counters S) (config : QuotaConfig) (counter : OperationCounter C)
    (crypto : Crypto) (at : Readings) (key_id : ℕ) (tenant_id : Bytes) where
  by_tracker :
      (keys k : Keys) (q : Option S) (c : Option C) (m : List Metric)
      → let s : CryptoService S C = record {
        keystore = k;
        quota_tracker = q;
        op_counter = c;
        metrics = m;
      } in
        let r = check_quota redis config counter crypto at tenant_id s in
        (check_quota redis config counter crypto at tenant_id (record s { keystore = keys })
          ≡ (record r.0 { keystore = keys }, r.1))
        × (r.0.keystore ≡ k)
        × (r.0.op_counter ≡ c)
  unfolding check_quota
  by_tracker keys k none c m = (refl, refl, refl)
  by_tracker keys k (some tracker) c m = (refl, refl, refl)

  -- the check of the quota, which neither reads nor changes the keys
  abbrev pub checked : CryptoService S C → CryptoService S C × Result ApiError (Unit {0})
  checked s = check_quota redis config counter crypto at tenant_id s

  pub checked_keys :
      (keys : Keys) (s : CryptoService S C)
      → (checked (record s { keystore = keys })
          ≡ (record (checked s).0 { keystore = keys }, (checked s).1))
        × ((checked s).0.keystore ≡ s.keystore)
        × ((checked s).0.op_counter ≡ s.op_counter)
  checked_keys keys s = by_tracker keys s.keystore s.quota_tracker s.op_counter s.metrics

  abbrev refusal {ℓ} : {A : Type ℓ} → Result ApiError (Unit {0}) → Result ApiError A
  refusal (err e) = err e
  refusal (ok done) = err (no_key key_id)

  after_quota_foreign {ℓ} :
      {A : Type ℓ} (operation : Bytes) (call : KeyMeta → Keys → Result ApiError A)
      (s : CryptoService S C) (answer : Result ApiError (Unit {0}))
      → IsForeign key_id tenant_id s.keystore
      → after_quota redis config counter crypto operation key_id tenant_id call (s, answer)
        ≡ (s, refusal answer)
  unfolding after_quota after_owner
  after_quota_foreign operation call s (err e) h = refl
  after_quota_foreign operation call s (ok done) h =
      rw (fetch_owned_foreign key_id tenant_id s.keystore h) refl

  -- the answer on an empty store, and the state it leaves with the keys of this one
  abbrev pub IsBlind {ℓ} :
      {A : Type ℓ}
      → (CryptoService S C → CryptoService S C × Result ApiError A)
      → CryptoService S C
      → Type ℓ
  IsBlind operation s = operation s ≡ (
      let r = operation (record s { keystore = [] }) in (record r.0 { keystore = s.keystore }, r.1))

  serve_foreign {ℓ} :
      {A : Type ℓ} (operation : Bytes) (call : KeyMeta → Keys → Result ApiError A)
      (s : CryptoService S C)
      → IsForeign key_id tenant_id s.keystore
      → serve redis config counter crypto at operation key_id tenant_id call s
        ≡ ((checked s).0, refusal (checked s).1)
  unfolding serve
  serve_foreign operation call s h =
      after_quota_foreign operation call (checked s).0 (checked s).1
        (subst (IsForeign key_id tenant_id) (sym (checked_keys [] s).1) h)

  abbrev with_keys {ℓ} :
      {A : Type ℓ}
      → Keys
      → CryptoService S C × Result ApiError A
      → CryptoService S C × Result ApiError A
  with_keys keys r = (record r.0 { keystore = keys }, r.1)

  abbrev refused {ℓ} :
      {A : Type ℓ}
      → CryptoService S C × Result ApiError (Unit {0})
      → CryptoService S C × Result ApiError A
  refused r = (r.0, refusal r.1)

  serve-IsBlind {ℓ} :
      {A : Type ℓ} (operation : Bytes) (call : KeyMeta → Keys → Result ApiError A)
      (s : CryptoService S C)
      → IsForeign key_id tenant_id s.keystore
      → IsBlind (serve redis config counter crypto at operation key_id tenant_id call) s
  unfolding get
  serve-IsBlind {A = A} operation call s h =
      let restored : Keys → CryptoService S C × Result ApiError A =
        λ k. (record (checked s).0 { keystore = k }, refusal (checked s).1) in
      serve_foreign operation call s h
      ∙ (ap restored (checked_keys [] s).1
          ∙ sym (
              ap (with_keys s.keystore) (
                serve_foreign operation call (record s { keystore = [] }) (inl refl)
                ∙ ap refused (checked_keys [] s).0)))

  -- The operations with a key that does not exist, or is another tenant's, answer, count and record as
  -- they do on a store without any key, and leave the keys as they are.
  pub operations-IsBlind :
      (draw message : Bytes) (aad : Option Bytes) (c : Ciphertext) (signature : Signature)
      (sm3 : Sm3Hmac) (s : CryptoService S C)
      → IsForeign key_id tenant_id s.keystore
      → IsBlind (encrypt redis config counter crypto at draw key_id message aad tenant_id) s
        × IsBlind (decrypt redis config counter crypto at key_id c aad tenant_id) s
        × IsBlind (sign redis config counter crypto at draw key_id message tenant_id) s
        × IsBlind (verify redis config counter crypto at key_id message signature tenant_id) s
        × IsBlind (hmac redis config counter crypto sm3 at key_id message aad tenant_id) s
        × IsBlind
            (hmac_verify redis config counter crypto sm3 at key_id message aad draw tenant_id)
            s
  unfolding encrypt decrypt sign verify hmac hmac_verify
  operations-IsBlind draw message aad c signature sm3 s h = (
    serve-IsBlind (ascii "encrypt") (encrypt_call crypto draw key_id message tenant_id) s h,
    serve-IsBlind (ascii "decrypt") (decrypt_call crypto key_id c tenant_id) s h,
    serve-IsBlind (ascii "sign") (sign_call crypto draw key_id message tenant_id) s h,
    serve-IsBlind (ascii "verify") (verify_call crypto key_id message signature tenant_id) s h,
    serve-IsBlind (ascii "hmac") (hmac_call crypto sm3 key_id message aad tenant_id) s h,
    serve-IsBlind (ascii "hmac_verify")
        (hmac_verify_call crypto sm3 key_id message aad draw tenant_id) s h,
  )
