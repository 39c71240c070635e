-- ===== src/Keystore/Software.antt =====
-- crates/kms-keystore/src/software/mod.rs: the keys of the software key store. The cryptographic
-- libraries are the interface `Crypto`; ids, instants and random draws are arguments. The sessions of
-- the key exchange and the derivation of shared secrets are left out.
pub mod Lifecycle
pub mod Ciphers
pub mod Agreement
pub mod Versions
pub mod RoundTrip
pub mod Calls
pub mod Access
pub mod Toys
mod Tests
use gm_kms.Base.{
  ℕ, zero, suc, none, some, [], ◌∷◌, ◌++◌, ◌+◌, ◌%◌, ◌^◌, ok, err, Bytes, Bool, true, false, Option,
  bytes_Eq, nat_Eq, ◌==◌, if◌then◌else◌, List, HashMap, Result, nat_eq, not, length, push, get,
  insert, remove, map, values, filter, ascii, ◌≡◌, ◌||◌,
}
use gm_kms.Core.Key.{
  KeySpec, aes256_gcm, rsa4096, ecdsa_p256, ecdsa_p384, ed25519, ed448, hmac_sha256, sm3_hmac, sm2,
  sm4, sm9_signing, sm9_encryption, KeyStatus, active, pending_deletion, can_decrypt, can_rotate,
  status_eq, spec_eq, KeyMeta, KeyFilter, Ciphertext, Signature, DestructionProof, default_metadata,
}
use gm_kms.Core.Aad.{user_data_aad}

pub record KeyEntry : Type 0 where
  pub meta : KeyMeta
  pub material : Bytes
  pub versions : List (ℕ × Bytes)

abbrev pub Keys : Type 0
Keys = HashMap ℕ KeyEntry

pub data KeystoreError : Type 0 where
  key_not_found : ℕ → KeystoreError
  key_version_not_found : ℕ → ℕ → KeystoreError
  key_operation_not_allowed : ℕ → KeystoreError
  not_implemented : KeySpec → KeystoreError
  invalid_algorithm : KeySpec → KeystoreError
  invalid_ciphertext : KeystoreError
  crypto_failed : Bytes → KeystoreError
  key_exchange_failed : Bytes → KeystoreError

-- A ciphertext of SM2 as the store cuts it: the point of 65 bytes, the hash of 32 bytes, the
-- encrypted text.
pub record Sm2Parts : Type 0 where
  pub c1 : Bytes
  pub c3 : Bytes
  pub c2 : Bytes

-- ring's AES-256-GCM and Ed25519, gm-crypto's SM4, SM2: what was encrypted with a key, a nonce and
-- authenticated data is decrypted with the same. The `key` tests are those of the
-- constructors, which the encryptions make too.
pub record Crypto : Type 0 where
  pub sha256 : Bytes → Bytes
  pub aes_key : Bytes → Result Bytes (Unit {0})
  pub sm4_key : Bytes → Result Bytes (Unit {0})
  pub sm2_key : Bytes → Result Bytes (Unit {0})
  pub aes_seal : Bytes → Bytes → Bytes → Bytes → Result Bytes (Bytes × Bytes)
  pub aes_open : Bytes → Bytes → Bytes → Bytes → Bytes → Result Bytes Bytes
  pub sm4_seal : Bytes → Bytes → Bytes → Bytes → Result Bytes (Bytes × Bytes)
  pub sm4_open : Bytes → Bytes → Bytes → Bytes → Bytes → Result Bytes Bytes
  pub sm2_encrypt : Bytes → Bytes → Bytes → Result Bytes Sm2Parts
  pub sm2_decrypt : Bytes → Sm2Parts → Result Bytes Bytes
  pub ed25519_sign : Bytes → Bytes → Result Bytes Bytes
  pub ed25519_verify : Bytes → Bytes → Bytes → Result Bytes Bool
  pub sm2_sign : Bytes → Bytes → Bytes → Result Bytes Bytes
  pub sm2_verify : Bytes → Bytes → Bytes → Result Bytes Bool
  pub aes_open-aes_seal :
      (key nonce aad plain : Bytes) (sealed : Bytes × Bytes)
      → aes_seal key nonce aad plain ≡ ok sealed
      → (aes_key key ≡ ok tt) × (aes_open key nonce aad sealed.0 sealed.1 ≡ ok plain)
  pub sm4_open-sm4_seal :
      (key nonce aad plain : Bytes) (sealed : Bytes × Bytes)
      → sm4_seal key nonce aad plain ≡ ok sealed
      → (sm4_key key ≡ ok tt) × (sm4_open key nonce aad sealed.0 sealed.1 ≡ ok plain)
  pub sm2_decrypt-sm2_encrypt :
      (key draw plain : Bytes) (parts : Sm2Parts)
      → sm2_encrypt key draw plain ≡ ok parts
      → (sm2_key key ≡ ok tt) × (sm2_decrypt key parts ≡ ok plain)
  pub sm2_encrypt_lengths :
      (key draw plain : Bytes) (parts : Sm2Parts)
      → sm2_encrypt key draw plain ≡ ok parts
      → (length parts.c1 ≡ 65) × (length parts.c3 ≡ 32)

-- which generator makes the material of a specification, if one does
pub data Generator : Type 0 where
  random_bytes : ℕ → Generator
  sm2_scalar : Generator

abbrev pub generator_of : KeySpec → Option Generator
generator_of aes256_gcm = some (random_bytes 32)
generator_of hmac_sha256 = some (random_bytes 32)
generator_of sm3_hmac = some (random_bytes 32)
generator_of ed25519 = some (random_bytes 32)
generator_of sm4 = some (random_bytes 16)
generator_of sm2 = some sm2_scalar
generator_of _ = none

-- The draw: bytes for every length, and the scalar or the error of its generation.
pub record Draw : Type 0 where
  pub bytes : ℕ → Bytes
  pub scalar : Result Bytes Bytes

abbrev pub generate_material : Draw → Generator → Result KeystoreError Bytes
generate_material draw (random_bytes n) = ok (draw.bytes n)
generate_material draw sm2_scalar = elim draw.scalar [ ok s ↦ ok s | err e ↦ err (crypto_failed e) ]

abbrev pub new_meta : ℕ → ℕ → KeySpec → Bytes → Bytes → Option Bytes → KeyMeta
new_meta id now spec name tenant_id description = record {
  id = id;
  tenant_id = tenant_id;
  name = name;
  spec = spec;
  status = active;
  created_at = now;
  rotated_at = none;
  version = 1;
  description = description;
  metadata = default_metadata;
}

unfoldable pub store_key : ℕ → KeyMeta → Bytes → Keys → Keys
unfolding insert
store_key id meta material keys =
    insert id (record { meta = meta; material = material; versions = [] }) keys

unfoldable pub generate_key :
    ℕ → ℕ → Draw → KeySpec → Bytes → Bytes → Keys → Keys × Result KeystoreError KeyMeta
unfolding store_key
generate_key id now draw spec name tenant_id keys = elim (generator_of spec) [
  | none ↦ (keys, err (not_implemented spec))
  | some generator ↦ elim (generate_material draw generator) [
    | err e ↦ (keys, err e)
    | ok material ↦
        let meta = new_meta id now spec name tenant_id none in
        (store_key id meta material keys, ok meta)
  ]
]

-- The validation of the material is a parameter.
unfoldable pub import_key_material :
    (KeySpec → Bytes → Bool)
    → ℕ
    → ℕ
    → KeySpec
    → Bytes
    → Bytes
    → Bytes
    → Keys
    → Keys × Result KeystoreError KeyMeta
unfolding store_key
import_key_material is_valid id now spec name tenant_id material keys =
    let meta = new_meta id now spec name tenant_id (some (ascii "imported")) in
    if not (is_valid spec material)
    then (keys, err (invalid_algorithm spec))
    else (store_key id meta material keys, ok meta)

-- `verify_tenant`, and the entry that every operation looks up after it
unfoldable pub find_entry : ℕ → Bytes → Keys → Result KeystoreError KeyEntry
unfolding get
find_entry key_id tenant_id keys = elim (get key_id keys) [
  | none ↦ err (key_not_found key_id)
  | some entry ↦ if entry.meta.tenant_id == tenant_id then ok entry else err (key_not_found key_id)
]

-- what is done with an entry that was found
abbrev pub with_entry {ℓ} :
    {A : Type ℓ}
    → Result KeystoreError KeyEntry
    → (KeyEntry → Result KeystoreError A)
    → Result KeystoreError A
with_entry (err e) f = err e
with_entry (ok entry) f = f entry

abbrev pub or_failed {ℓ} : {A : Type ℓ} → Result Bytes A → Result KeystoreError A
or_failed (err e) = err (crypto_failed e)
or_failed (ok a) = ok a

abbrev pub or_invalid {ℓ} : {A : Type ℓ} → Result Bytes A → Result KeystoreError A
or_invalid (err e) = err invalid_ciphertext
or_invalid (ok a) = ok a

abbrev pub then_do {ℓ κ} :
    {A : Type ℓ} {B : Type κ}
    → Result KeystoreError A
    → (A → Result KeystoreError B)
    → Result KeystoreError B
then_do (err e) f = err e
then_do (ok a) f = f a

unfoldable pub export_key_material : ℕ → Bytes → Keys → Result KeystoreError Bytes
unfolding find_entry
export_key_material key_id tenant_id keys = with_entry (find_entry key_id tenant_id keys) (λ entry.
    if not (status_eq entry.meta.status active)
    then err (key_operation_not_allowed key_id)
    else ok entry.material)

unfoldable pub get_key_material : ℕ → Bytes → Keys → Result KeystoreError Bytes
unfolding find_entry
get_key_material key_id tenant_id keys =
    with_entry (find_entry key_id tenant_id keys) (λ entry. ok entry.material)

-- `versions.iter().find(…).map(…)`
abbrev pub find_version : ℕ → List (ℕ × Bytes) → Option Bytes
find_version version [] = none
find_version version ((v, material) ∷ rest) =
    let later = find_version version rest in if nat_eq v version then some material else later

abbrev pub or_missing : ℕ → ℕ → Option Bytes → Result KeystoreError Bytes
or_missing key_id version none = err (key_version_not_found key_id version)
or_missing key_id version (some material) = ok material

unfoldable pub get_key_material_version : ℕ → ℕ → Bytes → Keys → Result KeystoreError Bytes
unfolding find_entry
get_key_material_version key_id version tenant_id keys =
    with_entry (find_entry key_id tenant_id keys) (λ entry.
      if nat_eq version 0 || nat_eq version entry.meta.version
      then ok entry.material
      else or_missing key_id version (find_version version entry.versions))
