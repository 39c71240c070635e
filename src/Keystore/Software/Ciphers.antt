-- ===== src/Keystore/Software/Ciphers.antt =====
-- crates/kms-keystore/src/software/mod.rs: encryption, decryption and signatures. A draw is the random
-- bytes of one call. The nonce of AES is the last twelve of sixteen random bytes, which the ciphertext
-- carries.
use gm_kms.Base.{
  ℕ, [], ok, err, Bytes, Bool, bytes_Eq, nat_Eq, if◌then◌else◌, Result, not, length, nat_eq, drop,
  ◌||◌, leb,
}
use gm_kms.Core.Key.{
  KeySpec, aes256_gcm, hmac_sha256, sm4, sm2, ed25519, active, can_decrypt, status_eq, KeyMeta,
  Ciphertext, Signature,
}
use gm_kms.Core.Aad.{user_data_aad, zero_hash}
use gm_kms.Keystore.Software.{
  KeyEntry, Keys, KeystoreError, Crypto, key_operation_not_allowed, invalid_algorithm,
  invalid_ciphertext, find_entry, find_version, with_entry, or_failed, or_invalid, or_missing,
  then_do,
}

-- the nonce that the counter yields first, from its stored start
abbrev pub counter_nonce : Bytes → Bytes
counter_nonce start = if nat_eq (length start) 16 then drop 4 start else zero_hash 12

-- the material of a version, the current one or one of the history
unfoldable pub material_of : ℕ → ℕ → KeyEntry → Result KeystoreError Bytes
material_of key_id version entry =
    if nat_eq version entry.meta.version
    then ok entry.material
    else or_missing key_id version (find_version version entry.versions)

module _ (crypto : Crypto) where
  abbrev pub aad_of : ℕ → KeyMeta → ℕ → Bytes
  aad_of key_id meta version = user_data_aad crypto.sha256 key_id meta.tenant_id version

  abbrev pub sealed : ℕ → KeyMeta → Bytes → Bytes × Bytes → Ciphertext
  sealed key_id meta nonce parts = record {
    key_id = key_id;
    version = meta.version;
    format_version = 2;
    nonce = nonce;
    ciphertext = parts.0;
    tag = parts.1;
  }

  unfoldable pub encrypt_aes : Bytes → ℕ → KeyEntry → Bytes → Result KeystoreError Ciphertext
  unfolding user_data_aad
  encrypt_aes draw key_id entry plain =
      then_do
        (or_failed (
          crypto.aes_seal entry.material (counter_nonce draw)
            (aad_of key_id entry.meta entry.meta.version) plain))
        (λ parts. ok (sealed key_id entry.meta draw parts))

  unfoldable pub encrypt_sm4 : Bytes → ℕ → KeyEntry → Bytes → Result KeystoreError Ciphertext
  unfolding user_data_aad
  encrypt_sm4 draw key_id entry plain =
      then_do
        (or_failed
          (crypto.sm4_seal entry.material draw (aad_of key_id entry.meta entry.meta.version) plain))
        (λ parts. ok (sealed key_id entry.meta draw parts))

  unfoldable pub encrypt_sm2 : Bytes → ℕ → KeyEntry → Bytes → Result KeystoreError Ciphertext
  encrypt_sm2 draw key_id entry plain =
      then_do (or_failed (crypto.sm2_encrypt entry.material draw plain)) (λ parts. ok (record {
        key_id = key_id;
        version = entry.meta.version;
        format_version = 1;
        nonce = parts.c1;
        ciphertext = parts.c2;
        tag = parts.c3;
      }))

  unfoldable pub encrypt_by :
      KeySpec → Bytes → ℕ → KeyEntry → Bytes → Result KeystoreError Ciphertext
  unfolding encrypt_aes encrypt_sm4 encrypt_sm2
  encrypt_by aes256_gcm draw key_id entry plain = encrypt_aes draw key_id entry plain
  encrypt_by hmac_sha256 draw key_id entry plain = encrypt_aes draw key_id entry plain
  encrypt_by sm4 draw key_id entry plain = encrypt_sm4 draw key_id entry plain
  encrypt_by sm2 draw key_id entry plain = encrypt_sm2 draw key_id entry plain
  encrypt_by spec draw key_id entry plain = err (invalid_algorithm spec)

  unfoldable pub encrypt : Bytes → ℕ → Bytes → Bytes → Keys → Result KeystoreError Ciphertext
  unfolding find_entry encrypt_by
  encrypt draw key_id plain tenant_id keys = with_entry (find_entry key_id tenant_id keys) (λ entry.
      if not (status_eq entry.meta.status active)
      then err (key_operation_not_allowed key_id)
      else encrypt_by entry.meta.spec draw key_id entry plain)

  -- the authenticated data of a format
  abbrev pub format_aad : ℕ → KeyMeta → Ciphertext → Result KeystoreError Bytes
  format_aad key_id meta c =
      if leb c.format_version 1
      then ok []
      else if nat_eq c.format_version 2
      then ok (aad_of key_id meta c.version)
      else err invalid_ciphertext

  unfoldable pub decrypt_by :
      KeySpec → ℕ → KeyEntry → Bytes → Ciphertext → Result KeystoreError Bytes
  unfolding user_data_aad
  decrypt_by aes256_gcm key_id entry material c =
      then_do (or_failed (crypto.aes_key material)) (λ _.
        then_do (format_aad key_id entry.meta c) (λ aad.
          or_invalid (crypto.aes_open material (counter_nonce c.nonce) aad c.ciphertext c.tag)))
  decrypt_by hmac_sha256 key_id entry material c =
      then_do (or_failed (crypto.aes_key material)) (λ _.
        then_do (format_aad key_id entry.meta c) (λ aad.
          or_invalid (crypto.aes_open material (counter_nonce c.nonce) aad c.ciphertext c.tag)))
  decrypt_by sm4 key_id entry material c = then_do (or_failed (crypto.sm4_key material)) (λ _.
      then_do (format_aad key_id entry.meta c)
        (λ aad. or_invalid (crypto.sm4_open material c.nonce aad c.ciphertext c.tag)))
  decrypt_by sm2 key_id entry material c = then_do (or_failed (crypto.sm2_key material)) (λ _.
      if not (nat_eq (length c.nonce) 65) || not (nat_eq (length c.tag) 32)
      then err invalid_ciphertext
      else or_invalid
          (crypto.sm2_decrypt material (record { c1 = c.nonce; c3 = c.tag; c2 = c.ciphertext })))
  decrypt_by spec key_id entry material c = err (invalid_algorithm spec)

  unfoldable pub decrypt : ℕ → Ciphertext → Bytes → Keys → Result KeystoreError Bytes
  unfolding find_entry material_of decrypt_by
  decrypt key_id c tenant_id keys = with_entry (find_entry key_id tenant_id keys) (λ entry.
      if not (can_decrypt entry.meta.status)
      then err (key_operation_not_allowed key_id)
      else then_do (material_of key_id c.version entry)
          (λ material. decrypt_by entry.meta.spec key_id entry material c))

  unfoldable pub sign_by : KeySpec → Bytes → Bytes → Bytes → Result KeystoreError Bytes
  sign_by ed25519 draw material data_bytes = or_failed (crypto.ed25519_sign material data_bytes)
  sign_by sm2 draw material data_bytes = or_failed (crypto.sm2_sign material draw data_bytes)
  sign_by spec draw material data_bytes = err (invalid_algorithm spec)

  unfoldable pub sign : Bytes → ℕ → Bytes → Bytes → Keys → Result KeystoreError Signature
  unfolding find_entry sign_by
  sign draw key_id data_bytes tenant_id keys =
      with_entry (find_entry key_id tenant_id keys) (λ entry.
        if not (status_eq entry.meta.status active)
        then err (key_operation_not_allowed key_id)
        else then_do (sign_by entry.meta.spec draw entry.material data_bytes)
            (λ s. ok (record { key_id = key_id; version = entry.meta.version; signature = s })))

  unfoldable pub verify_by : KeySpec → Bytes → Bytes → Bytes → Result KeystoreError Bool
  verify_by ed25519 material data_bytes s = or_failed (crypto.ed25519_verify material data_bytes s)
  verify_by sm2 material data_bytes s = or_failed (crypto.sm2_verify material data_bytes s)
  verify_by spec material data_bytes s = err (invalid_algorithm spec)

  unfoldable pub verify : ℕ → Bytes → Signature → Bytes → Keys → Result KeystoreError Bool
  unfolding find_entry verify_by
  verify key_id data_bytes s tenant_id keys =
      with_entry (find_entry key_id tenant_id keys)
        (λ entry. verify_by entry.meta.spec entry.material data_bytes s.signature)
