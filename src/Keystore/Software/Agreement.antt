-- ===== src/Keystore/Software/Agreement.antt =====
-- crates/kms-keystore/src/software/mod.rs and crates/kms-core/src/dh.rs: the derivation of a shared
-- secret. The exchanges of the p256, p384 and x25519-dalek crates are parameters.
use gm_kms.Base.{
  some, ok, err, ◌++◌, ℕ, Bytes, Option, Result, ascii, length, ltb, nat_eq, not, if◌then◌else◌,
}
use gm_kms.Core.Aad.{first_bytes}
use gm_kms.Core.Key.{active, status_eq}
use gm_kms.Keystore.Software.{
  Keys, KeystoreError, key_exchange_failed, key_operation_not_allowed, find_entry, then_do,
}

pub data DhAlgorithm : Type 0 where
  ecdsa_p256 ecdsa_p384 x25519 sm2_kex : DhAlgorithm

pub record SharedSecret : Type 0 where
  pub secret : Bytes
  pub kdf : Option Bytes

-- an exchange of a drawn ephemeral key, or of a private key, with the peer's public key
pub record Exchanges : Type 0 where
  pub p256 : Bytes → Bytes → Result Bytes Bytes
  pub p384 : Bytes → Bytes → Result Bytes Bytes
  pub curve25519 : Bytes → Bytes → Bytes

abbrev or_invalid_key : Bytes → Result Bytes Bytes → Result KeystoreError Bytes
or_invalid_key text (ok secret) = ok secret
or_invalid_key text (err e) = err (key_exchange_failed (text ++ e))

module _ (exchanges : Exchanges) where
  -- The private key is not read.
  abbrev pub derive_ecdh_p256 : Bytes → Bytes → Bytes → Result KeystoreError Bytes
  derive_ecdh_p256 draw private_key peer =
      or_invalid_key (ascii "invalid P-256 public key: ") (exchanges.p256 draw peer)

  abbrev pub derive_ecdh_p384 : Bytes → Bytes → Bytes → Result KeystoreError Bytes
  derive_ecdh_p384 draw private_key peer =
      or_invalid_key (ascii "invalid P-384 public key: ") (exchanges.p384 draw peer)

  abbrev pub derive_x25519 : Bytes → Bytes → Result KeystoreError Bytes
  derive_x25519 private_key peer =
      if ltb (length private_key) 32
      then err (key_exchange_failed (ascii "X25519 private key must be at least 32 bytes"))
      else if not (nat_eq (length peer) 32)
      then err (key_exchange_failed (ascii "X25519 public key must be exactly 32 bytes"))
      else ok (exchanges.curve25519 (first_bytes 32 private_key) peer)

  abbrev pub derive_sm2_kex : Result KeystoreError Bytes
  derive_sm2_kex = err (
      key_exchange_failed (
        ascii
          "SM2-KEX requires session-based API. Use create_sm2_kex_session and process_sm2_kex_message"))

  abbrev pub derive_by : DhAlgorithm → Bytes → Bytes → Bytes → Result KeystoreError Bytes
  derive_by ecdsa_p256 draw material peer = derive_ecdh_p256 draw material peer
  derive_by ecdsa_p384 draw material peer = derive_ecdh_p384 draw material peer
  derive_by x25519 draw material peer = derive_x25519 material peer
  derive_by sm2_kex draw material peer = derive_sm2_kex

  unfoldable pub derive_shared_secret :
      Bytes → ℕ → Bytes → DhAlgorithm → Bytes → Keys → Result KeystoreError SharedSecret
  unfolding find_entry
  derive_shared_secret draw key_id peer algorithm tenant_id keys =
      then_do (find_entry key_id tenant_id keys) λ entry.
        if not (status_eq entry.meta.status active)
        then err (key_operation_not_allowed key_id)
        else then_do (derive_by algorithm draw entry.material peer) λ shared_secret.
          ok (record { secret = shared_secret; kdf = some (ascii "HKDF-SHA256") })
