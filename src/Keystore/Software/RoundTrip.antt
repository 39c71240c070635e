-- ===== src/Keystore/Software/RoundTrip.antt =====
-- Decryption of what the software key store (crates/kms-keystore/src/software/mod.rs) encrypted, with
-- rotations and deletions of the key in between.
use gm_kms.Base.{
  Result-cases, ℕ, some, ◌≡◌, ok, inl, inr, refl, Bytes, Result, nat_Eq, bytes_Eq, arith,
  ok_injective,
}
use mathlib.Core.Path.{subst}
use gm_kms.Core.Key.{
  KeySpec, Ciphertext, aes256_gcm, hmac_sha256, sm4, sm2, rsa4096, ecdsa_p256, ecdsa_p384, ed25519,
  ed448, sm3_hmac, sm9_signing, sm9_encryption,
}
use gm_kms.Keystore.Software.{
  KeyEntry, KeystoreError, Crypto, Generator, random_bytes, sm2_scalar, generator_of,
}
use gm_kms.Keystore.Software.Ciphers.{
  encrypt_by, encrypt_aes, encrypt_sm4, encrypt_sm2, decrypt_by, sealed, counter_nonce, aad_of,
}

-- a specification that the store generates
abbrev pub IsGenerated : KeySpec → Type 0
IsGenerated spec = (g : Generator) × (generator_of spec ≡ some g)

made_ciphertext :
    (r : Result KeystoreError Ciphertext) (made c : Ciphertext) → r ≡ ok made → r ≡ ok c → made ≡ c
made_ciphertext r made c h k = ok_injective r r made c h k refl

module _ (crypto : Crypto) where
  -- what is asked of a ciphertext: its version, and that it is decrypted at a later entry
  abbrev pub IsOpened : KeySpec → ℕ → KeyEntry → KeyEntry → Bytes → Ciphertext → Type 0
  IsOpened spec key_id e later plain c =
      (c.version ≡ e.meta.version) × (decrypt_by crypto spec key_id later e.material c ≡ ok plain)

  opened_aes :
      (draw : Bytes) (key_id : ℕ) (e later : KeyEntry) (plain : Bytes) (c : Ciphertext)
      → later.meta.tenant_id ≡ e.meta.tenant_id
      → encrypt_aes crypto draw key_id e plain ≡ ok c
      → IsOpened aes256_gcm key_id e later plain c
  unfolding encrypt_aes decrypt_by
  opened_aes draw key_id e later plain c tenant h =
      elim (Result-cases (
        crypto.aes_seal e.material (counter_nonce draw) (aad_of crypto key_id e.meta e.meta.version)
          plain)) [
            | inl (failed, bad) ↦ absurd (ground (arith, rw (encrypt_aes, bad) at h))
            | inr (parts, made) ↦
                let law = crypto.aes_open-aes_seal _ _ _ _ parts made in
                subst (IsOpened aes256_gcm key_id e later plain)
                  (made_ciphertext _ (sealed crypto key_id e.meta draw parts) c (rw made refl) h)
                  (refl, rw (law.0, tenant, law.1) refl)
          ]

  opened_sm4 :
      (draw : Bytes) (key_id : ℕ) (e later : KeyEntry) (plain : Bytes) (c : Ciphertext)
      → later.meta.tenant_id ≡ e.meta.tenant_id
      → encrypt_sm4 crypto draw key_id e plain ≡ ok c
      → IsOpened sm4 key_id e later plain c
  unfolding encrypt_sm4 decrypt_by
  opened_sm4 draw key_id e later plain c tenant h =
      elim (Result-cases
        (crypto.sm4_seal e.material draw (aad_of crypto key_id e.meta e.meta.version) plain)) [
          | inl (failed, bad) ↦ absurd (ground (arith, rw (encrypt_sm4, bad) at h))
          | inr (parts, made) ↦
              let law = crypto.sm4_open-sm4_seal _ _ _ _ parts made in
              subst (IsOpened sm4 key_id e later plain)
                (made_ciphertext _ (sealed crypto key_id e.meta draw parts) c (rw made refl) h)
                (refl, rw (law.0, tenant, law.1) refl)
        ]

  opened_sm2 :
      (draw : Bytes) (key_id : ℕ) (e later : KeyEntry) (plain : Bytes) (c : Ciphertext)
      → encrypt_sm2 crypto draw key_id e plain ≡ ok c
      → IsOpened sm2 key_id e later plain c
  unfolding encrypt_sm2 decrypt_by
  opened_sm2 draw key_id e later plain c h =
      elim (Result-cases (crypto.sm2_encrypt e.material draw plain)) [
        | inl (failed, bad) ↦ absurd (ground (arith, rw (encrypt_sm2, bad) at h))
        | inr (parts, made) ↦
            let law = crypto.sm2_decrypt-sm2_encrypt _ _ _ parts made in
            let lengths = crypto.sm2_encrypt_lengths _ _ _ parts made in
            subst (IsOpened sm2 key_id e later plain)
              (made_ciphertext _
                (record {
                  key_id = key_id;
                  version = e.meta.version;
                  format_version = 1;
                  nonce = parts.c1;
                  ciphertext = parts.c2;
                  tag = parts.c3;
                })
                c (rw made refl) h)
              (refl, rw (law.0, lengths.0, lengths.1, law.1) refl)
      ]

  -- an encryption that succeeds, by its specification
  pub opened :
      (spec : KeySpec) (draw : Bytes) (key_id : ℕ) (e later : KeyEntry) (plain : Bytes)
      (c : Ciphertext)
      → later.meta.tenant_id ≡ e.meta.tenant_id
      → encrypt_by crypto spec draw key_id e plain ≡ ok c
      → IsGenerated spec × IsOpened spec key_id e later plain c
  unfolding encrypt_by decrypt_by
  opened aes256_gcm draw key_id e later plain c tenant h =
      ((random_bytes 32, refl), opened_aes draw key_id e later plain c tenant h)
  opened hmac_sha256 draw key_id e later plain c tenant h =
      ((random_bytes 32, refl), opened_aes draw key_id e later plain c tenant h)
  opened sm4 draw key_id e later plain c tenant h =
      ((random_bytes 16, refl), opened_sm4 draw key_id e later plain c tenant h)
  opened sm2 draw key_id e later plain c tenant h =
      ((sm2_scalar, refl), opened_sm2 draw key_id e later plain c h)
  opened rsa4096 draw key_id e later plain c tenant h = absurd (ground arith)
  opened ecdsa_p256 draw key_id e later plain c tenant h = absurd (ground arith)
  opened ecdsa_p384 draw key_id e later plain c tenant h = absurd (ground arith)
  opened ed25519 draw key_id e later plain c tenant h = absurd (ground arith)
  opened ed448 draw key_id e later plain c tenant h = absurd (ground arith)
  opened sm3_hmac draw key_id e later plain c tenant h = absurd (ground arith)
  opened sm9_signing draw key_id e later plain c tenant h = absurd (ground arith)
  opened sm9_encryption draw key_id e later plain c tenant h = absurd (ground arith)
