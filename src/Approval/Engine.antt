-- ===== src/Approval/Engine.antt =====
-- crates/kms-approval/src/lib.rs: `ApprovalEngine`, both of its maps and all of its methods. A
-- method that takes `&mut self` returns the new engine beside its result. The engine's `config` is
-- never read by the code and is left out.
pub mod Invariant
pub mod Provenance
pub mod Gate
pub mod Lifecycle
pub mod Emergency
pub mod Cleanup
use gm_kms.Base.{
  map_values, ℕ, ◌+◌, ◌*◌, Bool, false, ◌&&◌, String, Option, none, some, List, [], ◌∷◌, ◌==◌,
  string_Eq, nat_Eq, HashMap, get, insert, contains_key, values, any, filter, count_if, leb, Result,
  ok, err, if◌then◌else◌,
}
use gm_kms.Approval.Types.{
  OperationType, operation_Eq, ApprovalStatus, ApprovalLevel, is_approved_status, is_pending, Role,
  determine_approval_level,
}
use gm_kms.Approval.Request.{
  Uuid, DateTime, Clock, hour, ApprovalError, request_not_found, workflow_error,
  ApprovalRequestEntity, Outcome, timeout_hours, check_approval_complete, approve_request,
  reject_request, cancel_request, is_overdue, expire_overdue,
}
use gm_kms.Approval.BreakGlass.{
  BreakGlassRequest, BreakGlassForm, BreakGlassOutcome, open_break_glass, confirm_first,
  confirm_second, cancel_break_glass_request, is_overdue_break_glass, expire_overdue_break_glass,
  is_live,
}

pub record ApprovalEngine : Type 0 where
  pub pending_requests : HashMap Uuid ApprovalRequestEntity
  pub break_glass_requests : HashMap Uuid BreakGlassRequest

unfoldable pub new : ApprovalEngine
new = record { pending_requests = []; break_glass_requests = [] }

-- the arguments of `create_request`
pub record RequestForm : Type 0 where
  pub operation : OperationType
  pub resource_id : String
  pub resource_type : String
  pub tenant_id : String
  pub requestor_id : String
  pub justification : Option String
  pub required_level : ApprovalLevel

unfoldable pub new_request : Uuid → DateTime → RequestForm → ApprovalRequestEntity
new_request id now f = record {
  id = id;
  operation = f.operation;
  resource_id = f.resource_id;
  resource_type = f.resource_type;
  tenant_id = f.tenant_id;
  requestor_id = f.requestor_id;
  justification = f.justification;
  status = ApprovalStatus.pending;
  required_level = f.required_level;
  current_level = ApprovalLevel.none;
  approvals = [];
  rejections = [];
  created_at = now;
  expires_at = now + timeout_hours f.required_level * hour;
  completed_at = none;
}

abbrev pub Answer : Type 0
Answer = ApprovalEngine × Result ApprovalError ApprovalRequestEntity

unfoldable pub create_request : Uuid → DateTime → RequestForm → ApprovalEngine → Answer
unfolding new_request
create_request id now f e =
    let r = new_request id now f in
    (record e { pending_requests = insert id r e.pending_requests }, ok r)

unfoldable pub restore_request :
    ApprovalRequestEntity → ApprovalEngine → ApprovalEngine × Result ApprovalError (Unit {0})
restore_request r e =
    if contains_key r.id e.pending_requests
    then (e, err (workflow_error r.id))
    else (record e { pending_requests = insert r.id r e.pending_requests }, ok tt)

-- `get_mut(&request_id).ok_or(RequestNotFound)?` and the rest of the method on what it finds
unfoldable pub with_request : Uuid → (ApprovalRequestEntity → Outcome) → ApprovalEngine → Answer
with_request id method e = elim (get id e.pending_requests) [
  | none ↦ (e, err request_not_found)
  | some r ↦
      (record e { pending_requests = insert id (method r).0 e.pending_requests }, (method r).1)
]

unfoldable pub approve : Clock → Uuid → String → Role → Option String → ApprovalEngine → Answer
unfolding with_request determine_approval_level
approve now id approver role comment e =
    with_request id (approve_request now approver (determine_approval_level role) comment) e

unfoldable pub reject : Clock → Uuid → String → Role → String → ApprovalEngine → Answer
unfolding with_request determine_approval_level
reject now id rejector role reason e =
    with_request id (reject_request now rejector (determine_approval_level role) reason) e

unfoldable pub cancel : Clock → Uuid → String → ApprovalEngine → Answer
unfolding with_request
cancel now id requestor e = with_request id (cancel_request now requestor) e

unfoldable pub get_request : Uuid → ApprovalEngine → Result ApprovalError ApprovalRequestEntity
get_request id e = elim (get id e.pending_requests) [ none ↦ err request_not_found | some r ↦ ok r ]

-- the conditions of `is_approved` on the request that it finds
unfoldable pub grants : DateTime → OperationType → String → ApprovalRequestEntity → Bool
grants now op resource r =
    (r.operation == op)
    && (r.resource_id == resource)
    && is_approved_status r.status
    && leb now r.expires_at
    && check_approval_complete r

unfoldable pub is_approved : DateTime → Uuid → OperationType → String → ApprovalEngine → Bool
unfolding get_request grants
is_approved now id op resource e = elim (get_request id e) [
  | ok r ↦ grants now op resource r
  | err x ↦ false
]

unfoldable pub list_pending : String → ApprovalEngine → List ApprovalRequestEntity
list_pending tenant e =
    filter (λ r. (r.tenant_id == tenant) && is_pending r.status) (values e.pending_requests)

unfoldable pub list_all : String → ApprovalEngine → List ApprovalRequestEntity
list_all tenant e = filter (λ r. r.tenant_id == tenant) (values e.pending_requests)

unfoldable pub cleanup_expired : DateTime → ApprovalEngine → ApprovalEngine × ℕ
cleanup_expired now e = (
  record e { pending_requests = map_values (expire_overdue now) e.pending_requests },
  count_if (is_overdue now) (values e.pending_requests),
)

abbrev pub BreakGlassAnswer : Type 0
BreakGlassAnswer = ApprovalEngine × Result ApprovalError BreakGlassRequest

unfoldable pub store_break_glass :
    Uuid → ApprovalEngine → Result ApprovalError BreakGlassRequest → BreakGlassAnswer
store_break_glass id e (ok r) =
    (record e { break_glass_requests = insert id r e.break_glass_requests }, ok r)
store_break_glass id e (err x) = (e, err x)

unfoldable pub create_break_glass_request :
    Uuid → DateTime → BreakGlassForm → ApprovalEngine → BreakGlassAnswer
unfolding store_break_glass
create_break_glass_request id now f e = store_break_glass id e (open_break_glass id now f)

unfoldable pub with_break_glass :
    Uuid → (BreakGlassRequest → BreakGlassOutcome) → ApprovalEngine → BreakGlassAnswer
with_break_glass id method e = elim (get id e.break_glass_requests) [
  | none ↦ (e, err request_not_found)
  | some r ↦ (
    record e { break_glass_requests = insert id (method r).0 e.break_glass_requests },
    (method r).1,
  )
]

unfoldable pub confirm_break_glass_first : Clock → Uuid → String → ApprovalEngine → BreakGlassAnswer
unfolding with_break_glass
confirm_break_glass_first now id approver e = with_break_glass id (confirm_first now approver) e

unfoldable pub confirm_break_glass_second :
    Clock → Uuid → String → ApprovalEngine → BreakGlassAnswer
unfolding with_break_glass
confirm_break_glass_second now id approver e = with_break_glass id (confirm_second now approver) e

unfoldable pub cancel_break_glass : Uuid → String → ApprovalEngine → BreakGlassAnswer
unfolding with_break_glass
cancel_break_glass id requestor e = with_break_glass id (cancel_break_glass_request requestor) e

unfoldable pub cleanup_expired_break_glass : DateTime → ApprovalEngine → ApprovalEngine × ℕ
cleanup_expired_break_glass now e = (
  record e {
    break_glass_requests = map_values (expire_overdue_break_glass now) e.break_glass_requests;
  },
  count_if (is_overdue_break_glass now) (values e.break_glass_requests),
)

unfoldable pub get_break_glass : Uuid → ApprovalEngine → Result ApprovalError BreakGlassRequest
get_break_glass id e = elim (get id e.break_glass_requests) [
  | none ↦ err request_not_found
  | some r ↦ ok r
]

unfoldable pub is_break_glass_active : DateTime → String → ApprovalEngine → Bool
is_break_glass_active now resource e =
    any (λ r. (r.resource_id == resource) && is_live now r) (values e.break_glass_requests)

-- the tenant argument is not read
unfoldable pub list_active_break_glass : DateTime → String → ApprovalEngine → List BreakGlassRequest
list_active_break_glass now tenant e = filter (is_live now) (values e.break_glass_requests)
