-- ===== src/Keystore/Software/Access.antt =====
-- Who may use which key of the software key store (crates/kms-keystore/src/software/mod.rs), and in
-- which state.
use gm_kms.Base.{
  ℕ, none, some, [], ◌≡◌, ◌⊎◌, ok, err, inl, inr, refl, Bytes, true, false, nat_Eq, bytes_Eq, ◌==◌,
  get, insert, get-insert_self, get-remove, arith, ap, sym, is_ok, remove, nat_eq_iff,
}
use mathlib.Core.Path.{subst}
use gm_kms.Core.Key.{Ciphertext, Signature, can_rotate, pending_deletion}
use gm_kms.Keystore.Software.{
  KeyEntry, Keys, Crypto, Draw, key_not_found, key_operation_not_allowed, generator_of, find_entry,
  export_key_material, get_key_material, get_key_material_version,
}
use gm_kms.Keystore.Software.Lifecycle.{rotate_key, rotate_entry, archive, delete_key, destroy_key}
use gm_kms.Keystore.Software.Ciphers.{encrypt, decrypt, sign, verify}
use gm_kms.Keystore.Software.Agreement.{DhAlgorithm, Exchanges, derive_shared_secret}
use gm_kms.Keystore.Software.Calls.{find_entry-get, delete_key_done}

module _ (key_id : ℕ) (tenant_id : Bytes) (keys : Keys) where
  -- there is no such key, or it is another tenant's
  abbrev pub IsForeign : Type 0
  IsForeign =
      (get key_id keys ≡ none)
      ⊎ ((e : KeyEntry) × (get key_id keys ≡ some e) × (e.meta.tenant_id == tenant_id ≡ false))

  foreign : IsForeign → find_entry key_id tenant_id keys ≡ err (key_not_found key_id)
  unfolding find_entry
  foreign (inl missing) = rw (find_entry, missing) refl
  foreign (inr (e, there, other)) = rw (there, find_entry, other) refl

  -- A key of another tenant is answered as a key that does not exist, by encryption, decryption,
  -- signing, verification, export, the reading of its material and of a version, rotation, deletion and
  -- the derivation of a shared secret, and rotation and deletion leave it as it is.
  pub find_entry_foreign :
      (crypto : Crypto) (exchanges : Exchanges) (draw plain : Bytes) (c : Ciphertext)
      (s : Signature) (version now : ℕ) (fresh : Draw) (algorithm : DhAlgorithm)
      → IsForeign
      → (encrypt crypto draw key_id plain tenant_id keys ≡ err (key_not_found key_id))
        × (decrypt crypto key_id c tenant_id keys ≡ err (key_not_found key_id))
        × (sign crypto draw key_id plain tenant_id keys ≡ err (key_not_found key_id))
        × (verify crypto key_id plain s tenant_id keys ≡ err (key_not_found key_id))
        × (export_key_material key_id tenant_id keys ≡ err (key_not_found key_id))
        × (get_key_material key_id tenant_id keys ≡ err (key_not_found key_id))
        × (get_key_material_version key_id version tenant_id keys ≡ err (key_not_found key_id))
        × (rotate_key now fresh key_id tenant_id keys ≡ (keys, err (key_not_found key_id)))
        × (delete_key key_id tenant_id keys ≡ (keys, err (key_not_found key_id)))
        × (derive_shared_secret exchanges draw key_id plain algorithm tenant_id keys
            ≡ err (key_not_found key_id))
  unfolding encrypt decrypt sign verify export_key_material get_key_material
      get_key_material_version rotate_key delete_key derive_shared_secret
  find_entry_foreign crypto exchanges draw plain c s version now fresh algorithm h =
      rw
        (
          encrypt,
          decrypt,
          sign,
          verify,
          export_key_material,
          get_key_material,
          get_key_material_version,
          rotate_key,
          delete_key,
          derive_shared_secret,
          foreign h,
        )
        (refl, refl, refl, refl, refl, refl, refl, refl, refl, refl)

  -- A rotation that is refused because the store has no generator for the key has moved the key's
  -- material into the history all the same: what is left as the current material is empty.
  pub rotate_key_emptied :
      (now : ℕ) (fresh : Draw) (e : KeyEntry)
      → get key_id keys ≡ some e
      → e.meta.tenant_id ≡ tenant_id
      → can_rotate e.meta.status ≡ true
      → generator_of e.meta.spec ≡ none
      → (is_ok (rotate_key now fresh key_id tenant_id keys).1 ≡ false)
        × (get_key_material key_id tenant_id (rotate_key now fresh key_id tenant_id keys).0 ≡ ok [])
  unfolding rotate_key rotate_entry get_key_material
  rotate_key_emptied now fresh e there owner may made =
      rw (rotate_key, find_entry-get key_id tenant_id keys e there owner, may, rotate_entry, made)
        (
          refl,
          rw
              (find_entry-get key_id tenant_id (insert key_id (archive e) keys) (archive e)
                (get-insert_self key_id (archive e) keys) owner)
              refl,
        )

  -- A key that was deleted is not used any more for encryption, signatures, export and rotation.
  pub delete_key_unusable :
      (crypto : Crypto) (draw plain : Bytes) (now : ℕ) (fresh : Draw) (e : KeyEntry)
      → get key_id keys ≡ some e
      → e.meta.tenant_id ≡ tenant_id
      → let after = (delete_key key_id tenant_id keys).0 in
        (encrypt crypto draw key_id plain tenant_id after ≡ err (key_operation_not_allowed key_id))
        × (sign crypto draw key_id plain tenant_id after ≡ err (key_operation_not_allowed key_id))
        × (export_key_material key_id tenant_id after ≡ err (key_operation_not_allowed key_id))
        × (rotate_key now fresh key_id tenant_id after
            ≡ (after, err (key_operation_not_allowed key_id)))
  unfolding encrypt sign export_key_material rotate_key
  delete_key_unusable crypto draw plain now fresh e there owner =
      subst
        (λ (after : Keys).
          (encrypt crypto draw key_id plain tenant_id after
            ≡ err (key_operation_not_allowed key_id))
          × (sign crypto draw key_id plain tenant_id after ≡ err (key_operation_not_allowed key_id))
          × (export_key_material key_id tenant_id after ≡ err (key_operation_not_allowed key_id))
          × (rotate_key now fresh key_id tenant_id after
              ≡ (after, err (key_operation_not_allowed key_id))))
        (sym (
          ap (λ r. r.0)
            (delete_key_done key_id tenant_id keys e
              (find_entry-get key_id tenant_id keys e there owner))))
        (rw (encrypt, sign, export_key_material, rotate_key, found) (refl, refl, refl, refl))
    where
      pending : KeyEntry
      pending = record e { meta = record e.meta { status = pending_deletion } }

      found : find_entry key_id tenant_id (insert key_id pending keys) ≡ ok pending
      found =
          find_entry-get key_id tenant_id (insert key_id pending keys) pending
            (get-insert_self key_id pending keys) owner

  -- A key that was destroyed does not exist any more, for any tenant.
  pub destroy_key_gone :
      (crypto : Crypto) (c : Ciphertext) (e : KeyEntry)
      → get key_id keys ≡ some e
      → (is_ok (destroy_key key_id keys).1 ≡ true)
        × (decrypt crypto key_id c tenant_id (destroy_key key_id keys).0
            ≡ err (key_not_found key_id))
        × (get_key_material key_id tenant_id (destroy_key key_id keys).0
            ≡ err (key_not_found key_id))
  unfolding destroy_key decrypt get_key_material find_entry
  destroy_key_gone crypto c e there =
      rw (destroy_key, there, decrypt, get_key_material, find_entry, gone) (refl, refl, refl)
    where
      gone : get key_id (remove key_id keys) ≡ none
      gone = ground (arith, get-remove key_id key_id keys, nat_eq_iff key_id key_id)
