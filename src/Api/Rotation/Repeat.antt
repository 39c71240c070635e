-- ===== src/Api/Rotation/Repeat.antt =====
-- crates/kms-api/src/rotation.rs: what the automatic rotation does to a key, sweep after sweep.
use mathlib.Core.Path.{subst}
use gm_kms.Base.{
  ℕ, some, none, [], ◌∷◌, ◌+◌, ◌<◌, ◌≤◌, ◌^◌, ◌≡◌, ◌⊎◌, ok, err, Bytes, true, false, Option, List,
  Result, refl, arith, is_ok, nat_Eq, get, get-insert_self, All, length, bytes_Eq,
}
use gm_kms.Core.Key.{KeyMeta, can_rotate}
use gm_kms.Keystore.Software.{
  Keys, KeyEntry, Draw, Generator, random_bytes, sm2_scalar, generator_of, generate_material,
  get_key_material, KeystoreError,
}
use gm_kms.Keystore.Software.Lifecycle
use gm_kms.Keystore.Software.Lifecycle.{get_key_metadata, rotated_entry}
use gm_kms.Keystore.Software.RoundTrip.{IsGenerated}
use gm_kms.Keystore.Software.Calls.{find_entry-get, rotate_key_done}
use gm_kms.Keystore.Software.Access.{rotate_key_emptied}
use gm_kms.Api.CryptoService.{OperationCounter}
use gm_kms.Api.Rotation.{
  RotationPolicy, combined, needs_rotation, count_of, check_rotation, rotate_key, check_and_rotate,
  RotationError, keystore_error,
}

-- the readings of the clock and the draw of one sweep
pub record Sweep : Type 0 where
  pub now : ℕ
  pub later : ℕ
  pub rotated_at : ℕ
  pub draw : Draw

-- the generator of the scalars does not fail
abbrev pub IsDrawn : Sweep → Type 0
IsDrawn w = (s : Bytes) × (w.draw.scalar ≡ ok s)

generates :
    (draw : Draw) (s : Bytes) (g : Generator)
    → draw.scalar ≡ ok s
    → (fresh : Bytes) × (generate_material draw g ≡ ok fresh)
generates draw s (random_bytes n) h = (draw.bytes n, refl)
generates draw s sm2_scalar h = (s, rw h refl)

not_ok :
    (r : Result KeystoreError KeyMeta)
    → is_ok r ≡ false
    → is_ok {E = RotationError} (elim r [ ok meta ↦ ok meta | err e ↦ err (keystore_error e) ])
      ≡ false
not_ok (ok meta) h = h
not_ok (err e) h = refl

module _ {C : Type 0} (counter : OperationCounter C) (policy : RotationPolicy) (key_id : ℕ)
    (op_counter : Option C) where
  abbrev pub sweep : Sweep → Keys → Keys × Result RotationError KeyMeta
  sweep w keys =
      check_and_rotate counter policy w.now w.later w.rotated_at w.draw key_id op_counter keys

  abbrev pub sweeps : List Sweep → Keys → Keys
  sweeps [] keys = keys
  sweeps (w ∷ rest) keys = sweeps rest (sweep w keys).0

  metadata :
      (keys : Keys) (e : KeyEntry)
      → get key_id keys ≡ some e
      → get_key_metadata key_id keys ≡ ok e.meta
  unfolding get_key_metadata
  metadata keys e there = rw (get_key_metadata, there) refl

  -- a sweep whose policy triggers asks the store for a rotation
  triggered :
      (w : Sweep) (keys : Keys) (e : KeyEntry)
      → get key_id keys ≡ some e
      → needs_rotation policy w.now e.meta (count_of counter policy key_id op_counter) ≡ true
      → sweep w keys ≡ rotate_key counter policy w.rotated_at w.draw key_id e.meta.tenant_id keys
  unfolding check_and_rotate check_rotation
  triggered w keys e there needed =
      rw (check_and_rotate, check_rotation, metadata keys e there, metadata keys e there, needed)
        refl

  -- Where the policy triggers for a key in a state that can be rotated, but with a specification that
  -- the key store has no generator for, the sweep fails, and leaves empty material as the key's current
  -- material.
  pub check_and_rotate_emptied :
      (w : Sweep) (keys : Keys) (e : KeyEntry)
      → get key_id keys ≡ some e
      → can_rotate e.meta.status ≡ true
      → generator_of e.meta.spec ≡ none
      → needs_rotation policy w.now e.meta (count_of counter policy key_id op_counter) ≡ true
      → (is_ok (sweep w keys).1 ≡ false)
        × (get_key_material key_id e.meta.tenant_id (sweep w keys).0 ≡ ok [])
  unfolding rotate_key
  check_and_rotate_emptied w keys e there may made needed =
      let (refused, emptied) =
        rotate_key_emptied key_id e.meta.tenant_id keys w.rotated_at w.draw e there refl may made in
      rw (triggered w keys e there needed) (
        not_ok (Lifecycle.rotate_key w.rotated_at w.draw key_id e.meta.tenant_id keys).1 refused,
        emptied,
      )

  -- the state of the sweeps: the key is there, with the version
  abbrev HasVersion : ℕ → Keys → Type 0
  HasVersion version keys =
      (e : KeyEntry) × (get key_id keys ≡ some e)
      × (can_rotate e.meta.status ≡ true)
      × IsGenerated e.meta.spec
      × (e.meta.version ≡ version)

  sweep-HasVersion :
      (version : ℕ) (w : Sweep) (keys : Keys)
      → version + 1 < 2 ^ 32
      → IsDrawn w
      → ((meta : KeyMeta)
          → meta.version ≡ version
          → needs_rotation policy w.now meta (count_of counter policy key_id op_counter) ≡ true)
      → HasVersion version keys
      → HasVersion (version + 1) (sweep w keys).0
  unfolding rotate_key
  sweep-HasVersion version w keys small (s, drawn) needed (e, there, may, (g, made), same) =
      let (fresh, generated) = generates w.draw s g drawn in
      let found = find_entry-get key_id e.meta.tenant_id keys e there refl in
      let rotated =
        rotate_key_done key_id e.meta.tenant_id w.rotated_at w.draw keys e g fresh found may made
          generated in
      rw (triggered w keys e there (needed e.meta same), rotated)
        (
          rotated_entry w.rotated_at fresh e,
          get-insert_self key_id (rotated_entry w.rotated_at fresh e) keys,
          refl,
          (g, made),
          omega arith,
        )

  sweeps-HasVersion :
      (version : ℕ) (ws : List Sweep) (keys : Keys)
      → version + length ws < 2 ^ 32
      → All IsDrawn ws
      → ((now : ℕ) (meta : KeyMeta)
          → version ≤ meta.version
          → needs_rotation policy now meta (count_of counter policy key_id op_counter) ≡ true)
      → HasVersion version keys
      → HasVersion (version + length ws) (sweeps ws keys)
  sweeps-HasVersion version [] keys small drawn needed h =
      subst (λ v. HasVersion v keys) (omega arith) h
  sweeps-HasVersion version (w ∷ ws) keys small drawn needed h =
      subst (λ v. HasVersion v (sweeps ws (sweep w keys).0)) (omega arith)
        (sweeps-HasVersion (version + 1) ws (sweep w keys).0 (omega arith) drawn.1
          (λ now meta q. needed now meta (omega arith))
          (sweep-HasVersion version w keys (omega arith) drawn.0
            (λ meta q. needed w.now meta (omega arith)) h))

-- Under a policy of days, operations and versions, a key in a state that can be rotated, with a
-- specification that the key store generates keys for, which has reached one of the two limits on
-- operations and versions, is rotated by every sweep from then on, as long as the draws do not fail and
-- the version stays a u32: a rotation adds one to the version, and the sweeps leave the count of
-- operations as it is.
pub sweeps_rotate :
    {C : Type 0} (counter : OperationCounter C) (days max_operations max_versions key_id : ℕ)
    (op_counter : Option C) (ws : List Sweep) (keys : Keys) (e : KeyEntry)
    → get key_id keys ≡ some e
    → can_rotate e.meta.status ≡ true
    → IsGenerated e.meta.spec
    → All IsDrawn ws
    → e.meta.version + length ws < 2 ^ 32
    → let policy = combined days max_operations max_versions in
      (max_versions ≤ e.meta.version) ⊎ (max_operations ≤ count_of counter policy key_id op_counter)
      → (d : KeyEntry) × (get key_id (sweeps counter policy key_id op_counter ws keys) ≡ some d)
        × (d.meta.version ≡ e.meta.version + length ws)
unfolding needs_rotation
sweeps_rotate counter days max_operations max_versions key_id op_counter ws keys e there may made
      drawn small reached =
    let policy = combined days max_operations max_versions in
    let (d, there', may', made', version) =
      sweeps-HasVersion counter policy key_id op_counter e.meta.version ws keys small drawn
        (λ now meta q. limit_reached now meta q reached) (e, there, may, made, refl) in
    (d, there', version)
  where
    limit_reached :
        (now : ℕ) (meta : KeyMeta)
        → e.meta.version ≤ meta.version
        → (max_versions ≤ e.meta.version)
          ⊎ (max_operations
              ≤ count_of counter (combined days max_operations max_versions) key_id op_counter)
        → needs_rotation
            (combined days max_operations max_versions)
            now
            meta
            (count_of counter (combined days max_operations max_versions) key_id op_counter)
          ≡ true
    limit_reached now meta q r = ground arith
