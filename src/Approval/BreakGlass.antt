-- ===== src/Approval/BreakGlass.antt =====
-- crates/kms-approval/src/workflow.rs and lib.rs: a break-glass request, its creation, and what
-- each method does to the one request that it looks up.
pub mod Custody
use gm_kms.Base.{
  ℕ, ◌+◌, ◌*◌, Bool, ◌&&◌, ◌||◌, not, String, ◌==◌, string_Eq, min, ltb, leb, Result, ok, err,
  if◌then◌else◌,
}
use gm_kms.Approval.Types.{
  OperationType, BreakGlassStatus, is_pending_dual, is_activated, is_break_glass_expired,
}
use gm_kms.Approval.Request.{
  Uuid, DateTime, Clock, minute, ApprovalError, request_already_completed, not_authorized,
  request_expired, invalid_config,
}

pub record BreakGlassRequest : Type 0 where
  pub id : Uuid
  pub operation : OperationType
  pub resource_id : String
  pub resource_type : String
  pub tenant_id : String
  pub requestor_id : String
  pub emergency_reason : String
  pub first_approver_id : String
  pub second_approver_id : String
  pub duration_minutes : ℕ
  pub status : BreakGlassStatus
  pub created_at : DateTime
  pub expires_at : DateTime

abbrev pub max_break_glass_duration_mins : ℕ
max_break_glass_duration_mins = 60

-- the arguments of `create_break_glass_request`
pub record BreakGlassForm : Type 0 where
  pub operation : OperationType
  pub resource_id : String
  pub resource_type : String
  pub tenant_id : String
  pub requestor_id : String
  pub emergency_reason : String
  pub first_approver_id : String
  pub second_approver_id : String
  pub duration_minutes : ℕ

-- the request that `create_break_glass_request` builds; `id` is what `Uuid::new_v4` returned
unfoldable pub new_break_glass : Uuid → DateTime → BreakGlassForm → BreakGlassRequest
new_break_glass id now f =
    let duration = min f.duration_minutes max_break_glass_duration_mins in
    record {
      id = id;
      operation = f.operation;
      resource_id = f.resource_id;
      resource_type = f.resource_type;
      tenant_id = f.tenant_id;
      requestor_id = f.requestor_id;
      emergency_reason = f.emergency_reason;
      first_approver_id = f.first_approver_id;
      second_approver_id = f.second_approver_id;
      duration_minutes = duration;
      status = BreakGlassStatus.pending_dual_approval;
      created_at = now;
      expires_at = now + duration * minute;
    }

-- the guard of `create_break_glass_request`
unfoldable pub open_break_glass :
    Uuid → DateTime → BreakGlassForm → Result ApprovalError BreakGlassRequest
unfolding new_break_glass
open_break_glass id now f =
    if f.first_approver_id == f.second_approver_id
    then err (invalid_config "Dual custody requires two different approvers")
    else ok (new_break_glass id now f)

abbrev pub BreakGlassOutcome : Type 0
BreakGlassOutcome = BreakGlassRequest × Result ApprovalError BreakGlassRequest

unfoldable pub confirm_first : Clock → String → BreakGlassRequest → BreakGlassOutcome
confirm_first now approver r =
    if not (is_pending_dual r.status)
    then (r, err request_already_completed)
    else if not (r.first_approver_id == approver)
    then (r, err not_authorized)
    else if ltb r.expires_at (now 0)
    then (record r { status = BreakGlassStatus.expired }, err request_expired)
    else (r, ok r)

unfoldable pub confirm_second : Clock → String → BreakGlassRequest → BreakGlassOutcome
confirm_second now approver r =
    if not (is_pending_dual r.status)
    then (r, err request_already_completed)
    else if not (r.second_approver_id == approver)
    then (r, err not_authorized)
    else if ltb r.expires_at (now 0)
    then (record r { status = BreakGlassStatus.expired }, err request_expired)
    else let done = record r { status = BreakGlassStatus.activated } in (done, ok done)

unfoldable pub cancel_break_glass_request : String → BreakGlassRequest → BreakGlassOutcome
cancel_break_glass_request requestor r =
    if not (r.requestor_id == requestor)
    then (r, err not_authorized)
    else if is_activated r.status || is_break_glass_expired r.status
    then (r, err request_already_completed)
    else let done = record r { status = BreakGlassStatus.cancelled } in (done, ok done)

-- the body of the loop in `cleanup_expired_break_glass`
abbrev pub is_overdue_break_glass : DateTime → BreakGlassRequest → Bool
is_overdue_break_glass now r = is_activated r.status && ltb r.expires_at now

unfoldable pub expire_overdue_break_glass : DateTime → BreakGlassRequest → BreakGlassRequest
expire_overdue_break_glass now r =
    if is_overdue_break_glass now r then record r { status = BreakGlassStatus.expired } else r

-- the test of `is_break_glass_active` and of `list_active_break_glass`
abbrev pub is_live : DateTime → BreakGlassRequest → Bool
is_live now r = is_activated r.status && leb now r.expires_at
