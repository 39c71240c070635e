-- ===== src/Keystore/Software/Toys.antt =====
-- A software key store (crates/kms-keystore) to run, with toys for the cryptographic libraries: a
-- sealed text is the text itself, with the authenticated data as its tag.
use gm_kms.Base.{
  none, some, [], ◌∷◌, ◌≡◌, ok, err, refl, Bytes, Result, nat_Eq, bytes_Eq, ◌==◌, ==_refl, get,
  ok_injective, length, ascii, if◌then◌else◌,
}
use mathlib.Core.Path.{subst}
use gm_kms.Core.Key.{Ciphertext, aes256_gcm, ecdsa_p256}
use gm_kms.Core.Aad.{zero_hash}
use gm_kms.Keystore.Software.{KeyEntry, Keys, Crypto, Draw, Sm2Parts, new_meta}

abbrev seal : Bytes → Bytes → Result Bytes (Bytes × Bytes)
seal aad plain = ok (plain, aad)

abbrev open_sealed : Bytes → Bytes → Bytes → Result Bytes Bytes
open_sealed aad text tag = if tag == aad then ok text else err []

pub opens :
    (aad plain : Bytes) (sealed : Bytes × Bytes)
    → seal aad plain ≡ ok sealed
    → open_sealed aad sealed.0 sealed.1 ≡ ok plain
opens aad plain sealed h =
    subst (λ (p : Bytes × Bytes). open_sealed aad p.0 p.1 ≡ ok plain)
      (ok_injective (seal aad plain) (ok sealed) (plain, aad) sealed refl refl h)
      (rw (==_refl aad) refl)

abbrev in_parts : Bytes → Sm2Parts
in_parts plain = record { c1 = zero_hash 65; c3 = zero_hash 32; c2 = plain }

abbrev wrap : Bytes → Result Bytes Sm2Parts
wrap plain = ok (in_parts plain)

abbrev unwrap : Sm2Parts → Result Bytes Bytes
unwrap parts = ok parts.c2

pub wrapped : (plain : Bytes) (parts : Sm2Parts) → wrap plain ≡ ok parts → in_parts plain ≡ parts
wrapped plain parts h = ok_injective (wrap plain) (ok parts) (in_parts plain) parts refl refl h

abbrev pub toy : Crypto
toy = record {
  sha256 = λ t. zero_hash 32;
  aes_key = λ key. ok tt;
  sm4_key = λ key. ok tt;
  sm2_key = λ key. ok tt;
  aes_seal = λ key nonce aad plain. seal aad plain;
  aes_open = λ key nonce aad text tag. open_sealed aad text tag;
  sm4_seal = λ key nonce aad plain. seal aad plain;
  sm4_open = λ key nonce aad text tag. open_sealed aad text tag;
  sm2_encrypt = λ key draw plain. wrap plain;
  sm2_decrypt = λ key parts. unwrap parts;
  ed25519_sign = λ key text. ok text;
  ed25519_verify = λ key text s. ok (text == s);
  sm2_sign = λ key draw text. ok text;
  sm2_verify = λ key text s. ok (text == s);
  aes_open-aes_seal = λ key nonce aad plain sealed h. (refl, opens aad plain sealed h);
  sm4_open-sm4_seal = λ key nonce aad plain sealed h. (refl, opens aad plain sealed h);
  sm2_decrypt-sm2_encrypt = λ key draw plain parts h.
      (refl, subst (λ (p : Sm2Parts). unwrap p ≡ ok plain) (wrapped plain parts h) refl);
  sm2_encrypt_lengths = λ key draw plain parts h.
      subst (λ (p : Sm2Parts). (length p.c1 ≡ 65) × (length p.c3 ≡ 32)) (wrapped plain parts h)
        (refl, refl);
}

abbrev pub fresh : Draw
fresh = record { bytes = λ n. zero_hash n; scalar = ok (ascii "scalar") }

abbrev pub tenant : Bytes
tenant = ascii "t"

abbrev pub aes_entry : KeyEntry
aes_entry = record {
  meta = new_meta 7 0 aes256_gcm (ascii "k") tenant none;
  material = zero_hash 32;
  versions = [];
}

abbrev pub one_key : Keys
one_key = (7, aes_entry) ∷ []

pub there : get 7 one_key ≡ some aes_entry
unfolding get
there = refl

abbrev pub hello : Ciphertext
hello = record {
  key_id = 7;
  version = 1;
  format_version = 2;
  nonce = [];
  ciphertext = ascii "hello";
  tag =
      0x6d ∷ 0xb5 ∷ 0 ∷ 2 ∷ 0 ∷ 1 ∷ 0 ∷ 0 ∷ 0 ∷ 0 ∷ 0 ∷ 0 ∷ 0 ∷ 0 ∷ 0 ∷ 0 ∷ 0 ∷ 0 ∷ 0 ∷ 0 ∷ 0 ∷ 7
      ∷ 0 ∷ 0 ∷ 0 ∷ 0 ∷ 0 ∷ 0 ∷ 0 ∷ 0 ∷ 0 ∷ 0 ∷ 0 ∷ 0 ∷ 0 ∷ 0 ∷ 0 ∷ 0 ∷ 0 ∷ 0 ∷ 0 ∷ 1 ∷ [];
}

abbrev pub ecdsa_entry : KeyEntry
ecdsa_entry = record {
  meta = new_meta 7 0 ecdsa_p256 (ascii "k") tenant none;
  material = ascii "imported";
  versions = [];
}
