-- ===== src/Core/Aad.antt =====
-- crates/kms-core/src/aad.rs: the authenticated data of a ciphertext. SHA-256 is a parameter, and a key
-- id is a number of 128 bits.
use gm_kms.Base.{ℕ, zero, suc, [], ◌∷◌, ◌++◌, ◌/◌, ◌%◌, ◌^◌, Bytes}

-- `to_be_bytes`, in so many bytes
unfoldable pub be_bytes : ℕ → ℕ → Bytes
be_bytes zero n = []
be_bytes (suc w) n = n / 256 ^ w % 256 ∷ be_bytes w n

pub data Purpose : Type 0 where
  user_data kek_wrap export_wrap : Purpose

abbrev pub purpose_bytes : Purpose → Bytes
purpose_bytes user_data = 0 ∷ 1 ∷ []
purpose_bytes kek_wrap = 0 ∷ 2 ∷ []
purpose_bytes export_wrap = 0 ∷ 3 ∷ []

abbrev pub first_bytes : ℕ → Bytes → Bytes
first_bytes zero t = []
first_bytes (suc n) [] = []
first_bytes (suc n) (b ∷ t) = b ∷ first_bytes n t

unfoldable pub build_v2 : Purpose → ℕ → Bytes → ℕ → Bytes
unfolding be_bytes
build_v2 purpose key_id hash version =
    0x6d
    ∷ 0xb5
    ∷ (be_bytes 2 2
        ++ (purpose_bytes purpose ++ (be_bytes 16 key_id ++ (hash ++ be_bytes 4 version))))

module _ (sha256 : Bytes → Bytes) where
  unfoldable pub tenant_hash : Bytes → Bytes
  tenant_hash tenant_id = first_bytes 16 (sha256 tenant_id)

  unfoldable pub user_data_aad : ℕ → Bytes → ℕ → Bytes
  unfolding build_v2 tenant_hash
  user_data_aad key_id tenant_id version = build_v2 user_data key_id (tenant_hash tenant_id) version

  unfoldable pub export_wrap_aad : ℕ → Bytes → Bytes
  unfolding build_v2 tenant_hash
  export_wrap_aad key_id tenant_id = build_v2 export_wrap key_id (tenant_hash tenant_id) 0

abbrev pub zero_hash : ℕ → Bytes
zero_hash zero = []
zero_hash (suc n) = 0 ∷ zero_hash n

unfoldable pub kek_wrap_aad : ℕ → Bytes
unfolding build_v2
kek_wrap_aad key_id = build_v2 kek_wrap key_id (zero_hash 16) 0
