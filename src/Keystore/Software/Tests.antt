-- ===== src/Keystore/Software/Tests.antt =====
-- Runs of the software key store (crates/kms-keystore).
use gm_kms.Base.{some, [], ◌∷◌, ◌≡◌, ok, err, inr, refl, nat_Eq, bytes_Eq, get, ascii, arith}
use gm_kms.Core.Key.{Signature, aes256_gcm}
use gm_kms.Keystore.Software.Agreement.{Exchanges, x25519, derive_shared_secret}
use gm_kms.Keystore.Software.{
  Keys, generate_key, key_not_found, export_key_material, get_key_material,
  get_key_material_version,
}
use gm_kms.Keystore.Software.Toys.{
  toy, fresh, tenant, aes_entry, one_key, there, hello, ecdsa_entry,
}
use gm_kms.Keystore.Software.Lifecycle.{rotate_key, delete_key}
use gm_kms.Keystore.Software.Ciphers.{encrypt, decrypt, sign, verify}
use gm_kms.Keystore.Software.Calls.{rotating, deleting, calls, decrypt-encrypt}
use gm_kms.Keystore.Software.Access.{find_entry_foreign}

generates_it : (generate_key 7 0 fresh aes256_gcm (ascii "k") tenant []).0 ≡ one_key
unfolding generate_key
generates_it = refl

seals_it : encrypt toy [] 7 (ascii "hello") tenant one_key ≡ ok hello
unfolding encrypt
seals_it = refl

decrypt-encrypt_example :
    decrypt toy 7 hello tenant
      (calls 7 tenant (rotating 5 fresh ∷ rotating 6 fresh ∷ deleting ∷ []) one_key)
    ≡ ok (ascii "hello")
decrypt-encrypt_example =
    decrypt-encrypt 7 tenant toy [] (ascii "hello") one_key aes_entry hello
      (rotating 5 fresh ∷ rotating 6 fresh ∷ deleting ∷ []) there refl tt (omega arith)
      ((ascii "scalar", refl), ((ascii "scalar", refl), (tt, tt))) seals_it

abbrev signed : Signature
signed = record { key_id = 7; version = 1; signature = [] }

abbrev toy_exchanges : Exchanges
toy_exchanges = record {
  p256 = λ key peer. ok key;
  p384 = λ key peer. ok key;
  curve25519 = λ key peer. peer;
}

find_entry_foreign_example :
    (encrypt toy [] 7 [] (ascii "u") one_key ≡ err (key_not_found 7))
    × (decrypt toy 7 hello (ascii "u") one_key ≡ err (key_not_found 7))
    × (sign toy [] 7 [] (ascii "u") one_key ≡ err (key_not_found 7))
    × (verify toy 7 [] signed (ascii "u") one_key ≡ err (key_not_found 7))
    × (export_key_material 7 (ascii "u") one_key ≡ err (key_not_found 7))
    × (get_key_material 7 (ascii "u") one_key ≡ err (key_not_found 7))
    × (get_key_material_version 7 1 (ascii "u") one_key ≡ err (key_not_found 7))
    × (rotate_key 5 fresh 7 (ascii "u") one_key ≡ (one_key, err (key_not_found 7)))
    × (delete_key 7 (ascii "u") one_key ≡ (one_key, err (key_not_found 7)))
    × (derive_shared_secret toy_exchanges [] 7 [] x25519 (ascii "u") one_key
        ≡ err (key_not_found 7))
find_entry_foreign_example =
    find_entry_foreign 7 (ascii "u") one_key toy toy_exchanges [] [] hello signed 1 5 fresh x25519
      (inr (aes_entry, there, refl))

abbrev ecdsa_key : Keys
ecdsa_key = (7, ecdsa_entry) ∷ []

there_too : get 7 ecdsa_key ≡ some ecdsa_entry
unfolding get
there_too = refl
