-- ===== src/Audit/Types.antt =====
-- crates/kms-core/src/event.rs and crates/kms-audit/src/lib.rs: what is logged. Ids and instants are
-- numbers, and texts are their bytes.
use gm_kms.Base.{ℕ, Bytes, Option, HashMap, bytes_Eq, insert}
use gm_kms.Policy.Json.{Value, ℤ}

pub data EventType : Type 0 where
  key_created key_accessed key_material_accessed key_encrypted key_decrypted key_signed : EventType
  key_verified key_rotated key_deleted key_destroyed key_imported key_export_requested : EventType
  key_exported policy_created policy_updated policy_deleted policy_changed : EventType
  policy_evaluated access_granted access_denied system_started system_stopped health_check :
      EventType
  self_test_passed self_test_failed admin_login admin_logout config_changed mfa_setup : EventType
  mfa_verified mfa_failed mfa_backup_code_used api_key_created api_key_rotated : EventType
  api_key_revoked rate_limit_triggered session_created session_expired backup_created : EventType
  backup_restored approval_requested approval_granted approval_denied : EventType

pub record Event : Type 0 where
  pub event_id : ℕ
  pub timestamp : ℕ
  pub event_type : EventType
  pub actor_id : Bytes
  pub actor_type : Bytes
  pub action : Bytes
  pub resource_type : Bytes
  pub resource_id : Option Bytes
  pub result : Bytes
  pub metadata : HashMap Bytes Value

pub record AuditEvent : Type 0 where
  pub event_id : ℕ
  pub timestamp : ℕ
  pub event_type : EventType
  pub actor_id : Bytes
  pub actor_type : Bytes
  pub action : Bytes
  pub resource_type : Bytes
  pub resource_id : Option Bytes
  pub result : Bytes
  pub metadata : HashMap Bytes Value

-- `AuditEvent::from`
unfoldable pub from_event : Event → AuditEvent
from_event e = record {
  event_id = e.event_id;
  timestamp = e.timestamp;
  event_type = e.event_type;
  actor_id = e.actor_id;
  actor_type = e.actor_type;
  action = e.action;
  resource_type = e.resource_type;
  resource_id = e.resource_id;
  result = e.result;
  metadata = e.metadata;
}

unfoldable pub with_metadata : Bytes → Value → Event → Event
unfolding insert
with_metadata key value e = record e { metadata = insert key value e.metadata }

pub record TrustedTimestamp : Type 0 where
  pub raw_token : Bytes
  pub gen_time : ℤ
  pub serial_number : Bytes
  pub policy : Bytes
  pub hash_algorithm : Bytes
  pub nonce : Bytes
  pub accuracy_millis : ℕ

pub record SignedAuditEntry : Type 0 where
  pub payload : AuditEvent
  pub signature : Bytes
  pub sequence : ℕ
  pub previous_signature : Option Bytes
  pub trusted_timestamp : Option TrustedTimestamp
