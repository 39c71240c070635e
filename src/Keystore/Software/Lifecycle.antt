-- ===== src/Keystore/Software/Lifecycle.antt =====
-- crates/kms-keystore/src/software/mod.rs: rotation, deletion, destruction and the list of the keys.
use gm_kms.Base.{
  ℕ, zero, suc, none, some, [], ◌∷◌, ◌+◌, ◌%◌, ◌^◌, ok, err, Bytes, Bool, true, Option, bytes_Eq,
  nat_Eq, ◌==◌, if◌then◌else◌, List, Result, not, length, push, get, insert, remove, map, values,
  filter, ascii, ◌&&◌,
}
use gm_kms.Core.Key.{
  KeySpec, sm9_signing, sm9_encryption, pending_deletion, active, can_rotate, status_eq, spec_eq,
  KeyMeta, KeyFilter, DestructionProof,
}
use gm_kms.Keystore.Software.{
  KeyEntry, Keys, KeystoreError, key_not_found, key_operation_not_allowed, not_implemented,
  generator_of, generate_material, Draw, find_entry,
}

unfoldable pub get_key_metadata : ℕ → Keys → Result KeystoreError KeyMeta
unfolding get
get_key_metadata key_id keys = elim (get key_id keys) [
  | none ↦ err (key_not_found key_id)
  | some entry ↦ ok entry.meta
]

-- The entry after its material was moved into the history. `mem::take` leaves empty material.
abbrev pub archive : KeyEntry → KeyEntry
archive entry = record entry {
  material = [];
  versions = push entry.versions (entry.meta.version, entry.material);
}

-- why a specification without a generator is refused
abbrev pub rotation_refused : ℕ → KeySpec → KeystoreError
rotation_refused key_id sm9_signing = key_operation_not_allowed key_id
rotation_refused key_id sm9_encryption = key_operation_not_allowed key_id
rotation_refused key_id spec = not_implemented spec

abbrev pub rotated_entry : ℕ → Bytes → KeyEntry → KeyEntry
rotated_entry now material entry = record (archive entry) {
  meta = record entry.meta {
    status = active;
    version = (entry.meta.version + 1) % 2 ^ 32;
    rotated_at = some entry.meta.created_at;
    created_at = now;
  };
  material = material;
}

-- what a rotation makes of an entry that may be rotated
unfoldable pub rotate_entry : ℕ → Draw → ℕ → KeyEntry → KeyEntry × Result KeystoreError KeyMeta
rotate_entry now draw key_id entry = elim (generator_of entry.meta.spec) [
  | none ↦ (archive entry, err (rotation_refused key_id entry.meta.spec))
  | some generator ↦ elim (generate_material draw generator) [
    | err e ↦ (archive entry, err e)
    | ok material ↦ (rotated_entry now material entry, ok (rotated_entry now material entry).meta)
  ]
]

unfoldable pub rotate_key : ℕ → Draw → ℕ → Bytes → Keys → Keys × Result KeystoreError KeyMeta
unfolding find_entry rotate_entry insert
rotate_key now draw key_id tenant_id keys = elim (find_entry key_id tenant_id keys) [
  | err e ↦ (keys, err e)
  | ok entry ↦
      if not (can_rotate entry.meta.status)
      then (keys, err (key_operation_not_allowed key_id))
      else (
        insert key_id (rotate_entry now draw key_id entry).0 keys,
        (rotate_entry now draw key_id entry).1,
      )
]

unfoldable pub delete_key : ℕ → Bytes → Keys → Keys × Result KeystoreError (Unit {0})
unfolding find_entry insert
delete_key key_id tenant_id keys = elim (find_entry key_id tenant_id keys) [
  | err e ↦ (keys, err e)
  | ok entry ↦ (
    insert key_id (record entry { meta = record entry.meta { status = pending_deletion } }) keys,
    ok tt,
  )
]

unfoldable pub destroy_key : ℕ → Keys → Keys × Result KeystoreError (Unit {0})
unfolding get remove
destroy_key key_id keys = elim (get key_id keys) [
  | none ↦ (keys, err (key_not_found key_id))
  | some entry ↦ (remove key_id keys, ok tt)
]

-- The hash is SHA-256 in hexadecimal.
unfoldable pub destroy_key_with_proof :
    (Bytes → Bytes) → ℕ → ℕ → Keys → Keys × Result KeystoreError DestructionProof
unfolding get remove
destroy_key_with_proof sha256_hex now key_id keys = elim (get key_id keys) [
  | none ↦ (keys, err (key_not_found key_id))
  | some entry ↦ (
    remove key_id keys,
    ok (record {
      key_id = key_id;
      material_hash = sha256_hex entry.material;
      destroyed_at = now;
      hash_algorithm = ascii "SHA256";
      key_size_bytes = length entry.material;
      zeroization_verified = true;
      hmac_signature = none;
    }),
  )
]

abbrev pub is_wanted {ℓ} : {A : Type ℓ} → (A → A → Bool) → Option A → A → Bool
is_wanted same none a = true
is_wanted same (some wanted) a = same a wanted

abbrev pub passes : KeyFilter → KeyEntry → Bool
passes f e =
    is_wanted (λ a b. a == b) f.tenant_id e.meta.tenant_id
    && (is_wanted status_eq f.status e.meta.status && is_wanted spec_eq f.spec e.meta.spec)

-- `skip` and `take` of an iterator
abbrev pub skip {ℓ} : {A : Type ℓ} → ℕ → List A → List A
skip zero xs = xs
skip (suc n) [] = []
skip (suc n) (x ∷ xs) = skip n xs

abbrev pub first_of {ℓ} : {A : Type ℓ} → ℕ → List A → List A
first_of zero xs = []
first_of (suc n) [] = []
first_of (suc n) (x ∷ xs) = x ∷ first_of n xs

abbrev pub skip_if {ℓ} : {A : Type ℓ} → Option ℕ → List A → List A
skip_if none xs = xs
skip_if (some n) xs = skip n xs

abbrev pub first_if {ℓ} : {A : Type ℓ} → Option ℕ → List A → List A
first_if none xs = xs
first_if (some n) xs = first_of n xs

unfoldable pub list_keys : KeyFilter → Keys → List KeyMeta
list_keys f keys =
    first_if f.limit
      (skip_if f.offset (map (λ (e : KeyEntry). e.meta) (filter (passes f) (values keys))))
