-- ===== src/Api/Rotation.antt =====
-- crates/kms-api/src/rotation.rs: the automatic rotation by policy, over the software key store. Instants
-- are nanoseconds; a meta's age is the difference of i64 instants. The SM9 adapter, the metrics and the
-- log are left out: a service without the adapter is modelled.
pub mod Repeat
use gm_kms.Base.{
  ℕ, none, some, ◌+◌, ◌-◌, ◌*◌, ◌/◌, ◌≡◌, ok, err, Bytes, Bool, true, false, Option, if◌then◌else◌,
  List, Result, ltb, leb, not, ◌&&◌, ◌||◌, map, filter,
}
use gm_kms.Core.Key.{KeyMeta, active, status_eq}
use gm_kms.Keystore.Software.{Keys, Draw, KeystoreError}
use gm_kms.Keystore.Software.Lifecycle
use gm_kms.Api.CryptoService.{OperationCounter}

pub data RotationPolicy : Type 0 where
  time_based usage_based version_based : ℕ → RotationPolicy
  combined : ℕ → ℕ → ℕ → RotationPolicy

abbrev pub default_policy : RotationPolicy
default_policy = combined 90 1000000 10

pub data RotationReason : Type 0 where
  time_limit usage_limit version_limit : ℕ → ℕ → RotationReason
  manual : RotationReason

pub record RotationCheckResult : Type 0 where
  pub key_id : ℕ
  pub needs_rotation : Bool
  pub reason : Option RotationReason

pub data RotationError : Type 0 where
  keystore_error : KeystoreError → RotationError
  policy_not_triggered : RotationError

-- `Duration::days`, in nanoseconds
abbrev pub day : ℕ
day = 86400000000000

-- `age > Duration::days(days)`, for an age that may be negative
abbrev pub is_older : ℕ → KeyMeta → ℕ → Bool
is_older now meta days = ltb (meta.created_at + days * day) now

unfoldable pub needs_rotation : RotationPolicy → ℕ → KeyMeta → ℕ → Bool
needs_rotation (time_based days) now meta count = is_older now meta days
needs_rotation (usage_based max_operations) now meta count = leb max_operations count
needs_rotation (version_based max_versions) now meta count = leb max_versions meta.version
needs_rotation (combined days max_operations max_versions) now meta count =
    is_older now meta days || leb max_operations count || leb max_versions meta.version

-- The key's age is in whole days.
unfoldable pub determine_reason : RotationPolicy → ℕ → KeyMeta → ℕ → RotationReason
determine_reason (time_based days) now meta count =
    RotationReason.time_limit days ((now - meta.created_at) / day)
determine_reason (usage_based max_operations) now meta count =
    RotationReason.usage_limit max_operations count
determine_reason (version_based max_versions) now meta count =
    RotationReason.version_limit max_versions meta.version
determine_reason (combined days max_operations max_versions) now meta count = manual

module _ {C : Type 0} (counter : OperationCounter C) (policy : RotationPolicy) where
  abbrev pub count_of : ℕ → Option C → ℕ
  count_of key_id none = 0
  count_of key_id (some c) = counter.get_count key_id c

  unfoldable pub check_rotation :
      ℕ → ℕ → ℕ → Option C → Keys → Result RotationError RotationCheckResult
  unfolding needs_rotation determine_reason Lifecycle.get_key_metadata
  check_rotation now later key_id op_counter keys = elim (Lifecycle.get_key_metadata key_id keys) [
    | err e ↦ err (keystore_error e)
    | ok meta ↦
        let count = count_of key_id op_counter in
        let needed = needs_rotation policy now meta count in
        ok (record {
          key_id = key_id;
          needs_rotation = needed;
          reason = if needed then some (determine_reason policy later meta count) else none;
        })
  ]

  -- without an SM9 adapter
  unfoldable pub rotate_key : ℕ → Draw → ℕ → Bytes → Keys → Keys × Result RotationError KeyMeta
  unfolding Lifecycle.rotate_key
  rotate_key now draw key_id tenant_id keys =
      let (after, rotated) = Lifecycle.rotate_key now draw key_id tenant_id keys in
      (after, elim rotated [ ok meta ↦ ok meta | err e ↦ err (keystore_error e) ])

  unfoldable pub check_and_rotate :
      ℕ → ℕ → ℕ → Draw → ℕ → Option C → Keys → Keys × Result RotationError KeyMeta
  unfolding check_rotation rotate_key Lifecycle.get_key_metadata
  check_and_rotate now later rotated_at draw key_id op_counter keys =
      elim (check_rotation now later key_id op_counter keys) [
        | err e ↦ (keys, err e)
        | ok check ↦ elim (Lifecycle.get_key_metadata key_id keys) [
          | err e ↦ (keys, err (keystore_error e))
          | ok meta ↦
              if check.needs_rotation
              then rotate_key rotated_at draw key_id meta.tenant_id keys
              else (keys, err policy_not_triggered)
        ]
      ]

-- `remaining > 0 && remaining <= threshold`, 90 days after the creation
unfoldable pub is_expiring : ℕ → KeyMeta → Bool
is_expiring now meta =
    status_eq meta.status active
    && (ltb now (meta.created_at + 90 * day) && leb (meta.created_at + 90 * day) (now + 7 * day))

unfoldable pub check_expiring_keys : ℕ → List KeyMeta → List ℕ
unfolding is_expiring
check_expiring_keys now keys = map (λ (m : KeyMeta). m.id) (filter (is_expiring now) keys)
