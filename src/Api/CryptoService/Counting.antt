-- ===== src/Api/CryptoService/Counting.antt =====
-- crates/kms-api/src/service/crypto_service.rs: what an operation leaves of the keys, and counts.
use mathlib.Core.Option
use gm_kms.Base.{
  ℕ, none, some, ◌+◌, ◌≡◌, ok, err, Bytes, Option, Result, refl, is_ok, nat_eq, ap, ◌∙◌, ◌&&◌,
  if◌then◌else◌, ascii, Bool, arith,
}
use gm_kms.Core.Key.{KeyMeta, Ciphertext, Signature}
use gm_kms.Keystore.Software.{Keys, Crypto}
use gm_kms.Api.Errors.{ApiError}
use gm_kms.Api.Quota.{QuotaConfig, Counters, Readings}
use gm_kms.Api.CryptoService.{
  CryptoService, OperationCounter, Sm3Hmac, fetch_owned_key_meta, check_quota, serve, record_op,
  after_owner, after_quota, encrypt, decrypt, sign, verify, hmac, hmac_verify, encrypt_call,
  decrypt_call, sign_call, verify_call, hmac_call, hmac_verify_call, after_call,
}
use gm_kms.Api.CryptoService.Access.{checked_keys}

-- one more for the key, if the condition holds
abbrev pub one_if : Bool → ℕ
one_if b = if b then 1 else 0

-- a counter that answers
abbrev pub IsIncrementing : {C : Type 0} → OperationCounter C → Type 0
IsIncrementing counter =
    (key_id other : ℕ) (c : _)
    → counter.get_count other (counter.increment key_id c).0
      ≡ one_if (nat_eq other key_id) + counter.get_count other c

module _ {S C : Type 0} (redis : Counters S) (config : QuotaConfig) (counter : OperationCounter C)
    (crypto : Crypto) (at : Readings) (key_id : ℕ) (tenant_id : Bytes)
    (incrementing : IsIncrementing counter) where
  -- The keys are as before, and the counter of the key has grown by one if the operation succeeded.
  abbrev pub IsRecorded {ℓ} :
      {A : Type ℓ} → CryptoService S C → CryptoService S C × Result ApiError A → Type 0
  IsRecorded s r =
      (r.0.keystore ≡ s.keystore)
      × ((other : ℕ)
          → Option.map (counter.get_count other) r.0.op_counter
            ≡ Option.map
                (λ c. one_if (is_ok r.1 && nat_eq other key_id) + counter.get_count other c)
                s.op_counter)

  counted :
      (other : ℕ) (c : Option C)
      → Option.map (counter.get_count other) (Option.map (λ c. (counter.increment key_id c).0) c)
        ≡ Option.map (λ c. one_if (nat_eq other key_id) + counter.get_count other c) c
  counted other none = refl
  counted other (some c) = ap some (incrementing key_id other c)

  uncounted :
      (other : ℕ) (c : Option C)
      → Option.map (counter.get_count other) c ≡ Option.map (λ c. 0 + counter.get_count other c) c
  uncounted other none = refl
  uncounted other (some c) = ap some (omega arith)

  call-IsRecorded {ℓ} :
      {A : Type ℓ} (operation : Bytes) (meta : KeyMeta) (s : CryptoService S C)
      (answer : Result ApiError A)
      → IsRecorded s (after_call redis config counter crypto operation key_id s meta answer)
  unfolding after_call record_op
  call-IsRecorded operation meta s (err e) = (refl, λ other. uncounted other s.op_counter)
  call-IsRecorded operation meta s (ok a) = (refl, λ other. counted other s.op_counter)

  owner-IsRecorded {ℓ} :
      {A : Type ℓ} (operation : Bytes) (call : KeyMeta → Keys → Result ApiError A)
      (s : CryptoService S C) (owner : Result ApiError KeyMeta)
      → IsRecorded s (after_owner redis config counter crypto operation key_id call s owner)
  unfolding after_owner
  owner-IsRecorded operation call s (err e) = (refl, λ other. uncounted other s.op_counter)
  owner-IsRecorded operation call s (ok meta) =
      call-IsRecorded operation meta s (call meta s.keystore)

  quota-IsRecorded {ℓ} :
      {A : Type ℓ} (operation : Bytes) (call : KeyMeta → Keys → Result ApiError A)
      (s : CryptoService S C) (answer : Result ApiError (Unit {0}))
      → IsRecorded s
          (after_quota redis config counter crypto operation key_id tenant_id call (s, answer))
  unfolding after_quota
  quota-IsRecorded operation call s (err e) = (refl, λ other. uncounted other s.op_counter)
  quota-IsRecorded operation call s (ok done) =
      owner-IsRecorded operation call s (fetch_owned_key_meta key_id tenant_id s.keystore)

  serve-IsRecorded {ℓ} :
      {A : Type ℓ} (operation : Bytes) (call : KeyMeta → Keys → Result ApiError A)
      (s : CryptoService S C)
      → IsRecorded s (serve redis config counter crypto at operation key_id tenant_id call s)
  unfolding serve
  serve-IsRecorded operation call s =
      let r = check_quota redis config counter crypto at tenant_id s in
      let (same, keys, ops) =
        checked_keys redis config counter crypto at key_id tenant_id s.keystore s in
      let (kept, grown) = quota-IsRecorded operation call r.0 r.1 in
      (kept ∙ keys, λ other. grown other ∙ ap (Option.map _) ops)

  -- Every operation leaves the keys as they are, and adds one to the count of its key if it succeeds
  -- and nothing to any count otherwise, on a counter that answers.
  pub operations-IsRecorded :
      (draw message : Bytes) (aad : Option Bytes) (c : Ciphertext) (signature : Signature)
      (sm3 : Sm3Hmac) (s : CryptoService S C)
      → IsRecorded s (encrypt redis config counter crypto at draw key_id message aad tenant_id s)
        × IsRecorded s (decrypt redis config counter crypto at key_id c aad tenant_id s)
        × IsRecorded s (sign redis config counter crypto at draw key_id message tenant_id s)
        × IsRecorded s (verify redis config counter crypto at key_id message signature tenant_id s)
        × IsRecorded s (hmac redis config counter crypto sm3 at key_id message aad tenant_id s)
        × IsRecorded s
            (hmac_verify redis config counter crypto sm3 at key_id message aad draw tenant_id s)
  unfolding encrypt decrypt sign verify hmac hmac_verify
  operations-IsRecorded draw message aad c signature sm3 s = (
    serve-IsRecorded (ascii "encrypt") (encrypt_call crypto draw key_id message tenant_id) s,
    serve-IsRecorded (ascii "decrypt") (decrypt_call crypto key_id c tenant_id) s,
    serve-IsRecorded (ascii "sign") (sign_call crypto draw key_id message tenant_id) s,
    serve-IsRecorded (ascii "verify") (verify_call crypto key_id message signature tenant_id) s,
    serve-IsRecorded (ascii "hmac") (hmac_call crypto sm3 key_id message aad tenant_id) s,
    serve-IsRecorded (ascii "hmac_verify")
        (hmac_verify_call crypto sm3 key_id message aad draw tenant_id) s,
  )
