-- ===== src/Api/CryptoService/RoundTrip.antt =====
-- crates/kms-api/src/service/crypto_service.rs: what was encrypted is decrypted, through the service.
use gm_kms.Keystore.Software.Versions.{IsOrdered}
use gm_kms.Keystore.Software.{find_entry, Keys, KeyEntry, KeystoreError, Crypto}
use gm_kms.Keystore.Software.Lifecycle.{get_key_metadata}
use gm_kms.Keystore.Software.Calls.{decrypt-encrypt, Call, IsDrawn, calls}
use gm_kms.Api.CryptoService.Access.{checked_keys}
use gm_kms.Base.{
  Result-cases, ok_injective, none, bytes_Eq, ℕ, some, ◌+◌, ◌<◌, ◌^◌, ◌≡◌, ok, err, Bytes, Option,
  List, Result, refl, is_ok, true, sym, ◌∙◌, get, nat_Eq, All, length, arith, Bool-cases, [], ascii,
  inl, ◌==◌, inr,
}
use gm_kms.Core.Key.{KeyMeta, Ciphertext}
use gm_kms.Keystore.Software.Ciphers
use gm_kms.Api.Errors.{ApiError, or_api_error}
use gm_kms.Api.Quota.{QuotaConfig, Counters, Readings}
use gm_kms.Api.CryptoService.{
  CryptoService, OperationCounter, fetch_owned_key_meta, check_quota, serve, after_owner,
  after_quota, after_call, encrypt, decrypt, encrypt_call, decrypt_call, get_key_metadata,
}

or_api_error-ok :
    {A : Type 0} (r : Result KeystoreError A) (a : A) → or_api_error r ≡ ok a → r ≡ ok a
or_api_error-ok (ok b) a h = ground arith
or_api_error-ok (err e) a h = absurd (ground arith)

-- the owner's check finds the metadata of the entry that the store finds
fetched :
    (key_id : ℕ) (tenant_id : Bytes) (keys : Keys) (e : KeyEntry) (found : Option KeyEntry)
    → get key_id keys ≡ found
    → find_entry key_id tenant_id keys ≡ ok e
    → fetch_owned_key_meta key_id tenant_id keys ≡ ok e.meta
unfolding find_entry fetch_owned_key_meta get_key_metadata
fetched key_id tenant_id keys e none there h = absurd (ground (arith, rw (find_entry, there) at h))
fetched key_id tenant_id keys e (some d) there h =
    elim (Bool-cases (d.meta.tenant_id == tenant_id)) [
      | inl same ↦
          let one : d ≡ e = ok_injective _ _ d e (rw (find_entry, there, same) refl) h refl in
          rw (fetch_owned_key_meta, get_key_metadata, there, same, one) refl
      | inr differ ↦ absurd (ground (arith, rw (find_entry, there, differ) at h))
    ]

-- a decryption that succeeds has found the entry
found_entry :
    (crypto : Crypto) (key_id : ℕ) (c : Ciphertext) (tenant_id plain : Bytes) (keys : Keys)
    → Ciphers.decrypt crypto key_id c tenant_id keys ≡ ok plain
    → (e : KeyEntry) × (find_entry key_id tenant_id keys ≡ ok e)
unfolding Ciphers.decrypt
found_entry crypto key_id c tenant_id plain keys h =
    elim (Result-cases (find_entry key_id tenant_id keys)) [
      | inl (failed, bad) ↦ absurd (ground (arith, rw (Ciphers.decrypt, bad) at h))
      | inr found ↦ found
    ]

module _ {S C : Type 0} (redis : Counters S) (config : QuotaConfig) (counter : OperationCounter C)
    (crypto : Crypto) (key_id : ℕ) (tenant_id : Bytes) where
  answered :
      {A : Type 0} (operation : Bytes) (s : CryptoService S C) (meta : KeyMeta)
      (r : Result ApiError A)
      → (after_call redis config counter crypto operation key_id s meta r).1 ≡ r
  unfolding after_call
  answered operation s meta (err e) = refl
  answered operation s meta (ok a) = refl

  -- an operation that succeeds has called the store
  called :
      {A : Type 0} (operation : Bytes) (call : KeyMeta → Keys → Result ApiError A)
      (s : CryptoService S C) (a : A) (owner : Result ApiError KeyMeta)
      → (after_owner redis config counter crypto operation key_id call s owner).1 ≡ ok a
      → (meta : KeyMeta) × (call meta s.keystore ≡ ok a)
  unfolding after_owner
  called operation call s a (err e) h = absurd (ground arith)
  called operation call s a (ok meta) h =
      (meta, sym (answered operation s meta (call meta s.keystore)) ∙ h)

  admitted :
      {A : Type 0} (operation : Bytes) (call : KeyMeta → Keys → Result ApiError A)
      (s : CryptoService S C) (a : A) (quota : Result ApiError (Unit {0}))
      → (after_quota redis config counter crypto operation key_id tenant_id call (s, quota)).1
        ≡ ok a
      → (meta : KeyMeta) × (call meta s.keystore ≡ ok a)
  unfolding after_quota
  admitted operation call s a (err e) h = absurd (ground arith)
  admitted operation call s a (ok done) h =
      called operation call s a (fetch_owned_key_meta key_id tenant_id s.keystore) h

  -- the call of a key of the tenant, within the quota, is answered by the store
  passed :
      {A : Type 0} (operation : Bytes) (call : KeyMeta → Keys → Result ApiError A)
      (s : CryptoService S C) (meta : KeyMeta) (quota : Result ApiError (Unit {0}))
      → is_ok quota ≡ true
      → fetch_owned_key_meta key_id tenant_id s.keystore ≡ ok meta
      → (after_quota redis config counter crypto operation key_id tenant_id call (s, quota)).1
        ≡ call meta s.keystore
  unfolding after_quota after_owner
  passed operation call s meta (err e) h owned = absurd (ground arith)
  passed operation call s meta (ok done) h owned =
      rw owned (answered operation s meta (call meta s.keystore))

  abbrev checked : Readings → CryptoService S C → CryptoService S C × Result ApiError (Unit {0})
  checked at s = check_quota redis config counter crypto at tenant_id s

  kept : (at : Readings) (s : CryptoService S C) → (checked at s).0.keystore ≡ s.keystore
  kept at s = (checked_keys redis config counter crypto at key_id tenant_id [] s).1

  -- What was encrypted with a key through the service is decrypted through it to the same text, after
  -- any number of rotations and deletions of the key, whose generator does not fail, as long as its
  -- version is a u32 and the quota admits the request; the additional data of the two requests need
  -- not be the same.
  pub decrypt-encrypt_any :
      (at back : Readings) (draw plain : Bytes) (aad other : Option Bytes)
      (s later : CryptoService S C) (e : KeyEntry) (c : Ciphertext) (rest : List Call)
      → get key_id s.keystore ≡ some e
      → e.meta.tenant_id ≡ tenant_id
      → IsOrdered e
      → e.meta.version + length rest < 2 ^ 32
      → All IsDrawn rest
      → (encrypt redis config counter crypto at draw key_id plain aad tenant_id s).1 ≡ ok c
      → later.keystore ≡ calls key_id tenant_id rest s.keystore
      → is_ok (check_quota redis config counter crypto back tenant_id later).1 ≡ true
      → (decrypt redis config counter crypto back key_id c other tenant_id later).1 ≡ ok plain
  unfolding encrypt decrypt serve
  decrypt-encrypt_any at back draw plain aad other s later e c rest there owner ordered small drawn
        h evolved within =
      let encrypted =
        admitted (ascii "encrypt") (encrypt_call crypto draw key_id plain tenant_id)
          (checked at s).0 c (checked at s).1 h in
      let sealed : Ciphers.encrypt crypto draw key_id plain tenant_id s.keystore ≡ ok c =
        or_api_error-ok (Ciphers.encrypt crypto draw key_id plain tenant_id s.keystore) c
          (rw (kept at s) at encrypted.1) in
      let opened =
        decrypt-encrypt key_id tenant_id crypto draw plain s.keystore e c rest there owner ordered
          small drawn sealed in
      let (d, found) = found_entry crypto key_id c tenant_id plain _ opened in
      passed (ascii "decrypt") (decrypt_call crypto key_id c tenant_id) (checked back later).0
        d.meta (checked back later).1 within
        (rw (kept back later, evolved)
          (fetched key_id tenant_id (calls key_id tenant_id rest s.keystore) d
            (get key_id (calls key_id tenant_id rest s.keystore)) refl found))
      ∙ rw (kept back later, evolved, opened) refl
