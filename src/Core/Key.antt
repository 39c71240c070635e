-- ===== src/Core/Key.antt =====
-- crates/kms-core/src/key.rs: key specifications, life cycle states and metadata. Ids and instants
-- are numbers.
use gm_kms.Base.{
  ℕ, none, [], Bytes, Bool, true, false, Option, List, HashMap, bytes_Eq, ascii, nat_eq,
}

pub data KeySpec : Type 0 where
  aes256_gcm rsa4096 ecdsa_p256 ecdsa_p384 ed25519 ed448 : KeySpec
  hmac_sha256 sm3_hmac sm2 sm4 sm9_signing sm9_encryption : KeySpec

pub data KeyPurpose : Type 0 where
  data_encryption key_encryption signing audit_signing : KeyPurpose

abbrev pub algorithm_name : KeySpec → Bytes
algorithm_name aes256_gcm = ascii "AES-256-GCM"
algorithm_name rsa4096 = ascii "RSA-4096"
algorithm_name ecdsa_p256 = ascii "ECDSA-P256"
algorithm_name ecdsa_p384 = ascii "ECDSA-P384"
algorithm_name ed25519 = ascii "Ed25519"
algorithm_name ed448 = ascii "Ed448"
algorithm_name hmac_sha256 = ascii "HMAC-SHA256"
algorithm_name sm3_hmac = ascii "HMAC-SM3"
algorithm_name sm2 = ascii "SM2"
algorithm_name sm4 = ascii "SM4"
algorithm_name sm9_signing = ascii "SM9-Signing"
algorithm_name sm9_encryption = ascii "SM9-Encryption"

-- `==` on specifications, derived: by the constructor
abbrev pub spec_number : KeySpec → ℕ
spec_number aes256_gcm = 0
spec_number rsa4096 = 1
spec_number ecdsa_p256 = 2
spec_number ecdsa_p384 = 3
spec_number ed25519 = 4
spec_number ed448 = 5
spec_number hmac_sha256 = 6
spec_number sm3_hmac = 7
spec_number sm2 = 8
spec_number sm4 = 9
spec_number sm9_signing = 10
spec_number sm9_encryption = 11

abbrev pub spec_eq : KeySpec → KeySpec → Bool
spec_eq a b = nat_eq (spec_number a) (spec_number b)

abbrev pub is_asymmetric : KeySpec → Bool
is_asymmetric rsa4096 = true
is_asymmetric ecdsa_p256 = true
is_asymmetric ecdsa_p384 = true
is_asymmetric ed25519 = true
is_asymmetric ed448 = true
is_asymmetric sm2 = true
is_asymmetric sm9_signing = true
is_asymmetric sm9_encryption = true
is_asymmetric _ = false

abbrev pub is_symmetric : KeySpec → Bool
is_symmetric aes256_gcm = true
is_symmetric hmac_sha256 = true
is_symmetric sm3_hmac = true
is_symmetric sm4 = true
is_symmetric _ = false

abbrev pub supports_encryption : KeySpec → Bool
supports_encryption aes256_gcm = true
supports_encryption rsa4096 = true
supports_encryption sm4 = true
supports_encryption sm2 = true
supports_encryption sm9_encryption = true
supports_encryption _ = false

abbrev pub supports_signing : KeySpec → Bool
supports_signing rsa4096 = true
supports_signing ecdsa_p256 = true
supports_signing ecdsa_p384 = true
supports_signing ed25519 = true
supports_signing ed448 = true
supports_signing sm2 = true
supports_signing sm9_signing = true
supports_signing _ = false

abbrev pub is_generatable : KeySpec → Bool
is_generatable aes256_gcm = true
is_generatable hmac_sha256 = true
is_generatable sm3_hmac = true
is_generatable sm4 = true
is_generatable sm2 = true
is_generatable ed25519 = true
is_generatable _ = false

abbrev pub is_importable : KeySpec → Bool
is_importable sm9_signing = false
is_importable sm9_encryption = false
is_importable _ = true

abbrev pub default_purpose : KeySpec → KeyPurpose
default_purpose hmac_sha256 = audit_signing
default_purpose sm3_hmac = audit_signing
default_purpose sm2 = signing
default_purpose ed25519 = signing
default_purpose ed448 = signing
default_purpose ecdsa_p256 = signing
default_purpose ecdsa_p384 = signing
default_purpose rsa4096 = signing
default_purpose sm9_signing = signing
default_purpose _ = data_encryption

pub data KeyStatus : Type 0 where
  active pending_deletion obsolete destroyed : KeyStatus

abbrev pub status_eq : KeyStatus → KeyStatus → Bool
status_eq active active = true
status_eq pending_deletion pending_deletion = true
status_eq obsolete obsolete = true
status_eq destroyed destroyed = true
status_eq _ _ = false

abbrev pub can_use : KeyStatus → Bool
can_use active = true
can_use _ = false

abbrev pub can_decrypt : KeyStatus → Bool
can_decrypt active = true
can_decrypt pending_deletion = true
can_decrypt obsolete = true
can_decrypt destroyed = false

abbrev pub can_rotate : KeyStatus → Bool
can_rotate active = true
can_rotate obsolete = true
can_rotate _ = false

pub record KeyMetadata : Type 0 where
  pub tags : List Bytes
  pub labels : HashMap Bytes Bytes
  pub max_usage_count : Option ℕ
  pub current_usage_count : ℕ
  pub allowed_operations : List Bytes

abbrev pub default_metadata : KeyMetadata
default_metadata = record {
  tags = [];
  labels = [];
  max_usage_count = none;
  current_usage_count = 0;
  allowed_operations = [];
}

pub record KeyMeta : Type 0 where
  pub id : ℕ
  pub tenant_id : Bytes
  pub name : Bytes
  pub spec : KeySpec
  pub status : KeyStatus
  pub created_at : ℕ
  pub rotated_at : Option ℕ
  pub version : ℕ
  pub description : Option Bytes
  pub metadata : KeyMetadata

pub record KeyFilter : Type 0 where
  pub tenant_id : Option Bytes
  pub status : Option KeyStatus
  pub spec : Option KeySpec
  pub tags : Option (List Bytes)
  pub limit : Option ℕ
  pub offset : Option ℕ

pub record Ciphertext : Type 0 where
  pub key_id : ℕ
  pub version : ℕ
  pub format_version : ℕ
  pub nonce : Bytes
  pub ciphertext : Bytes
  pub tag : Bytes

pub record Signature : Type 0 where
  pub key_id : ℕ
  pub version : ℕ
  pub signature : Bytes

pub record DestructionProof : Type 0 where
  pub key_id : ℕ
  pub material_hash : Bytes
  pub destroyed_at : ℕ
  pub hash_algorithm : Bytes
  pub key_size_bytes : ℕ
  pub zeroization_verified : Bool
  pub hmac_signature : Option Bytes
