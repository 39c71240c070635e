-- ===== src/Approval/Request.antt =====
-- crates/kms-approval/src/lib.rs: an approval request, and what `approve`, `reject`, `cancel` and
-- the clean-up do to the one request that they look up. Instants are nanoseconds; each call of
-- `Utc::now()` within a method is one reading of the method's clock, in the order of the code.
pub mod Invariant
pub mod Outcomes
use gm_kms.Base.{
  ℕ, Bool, true, false, ◌&&◌, ◌||◌, not, String, Option, some, List, [], ◌∷◌, ◌==◌, length, push,
  any, string_Eq, ltb, leb, Result, ok, err, if◌then◌else◌,
}
use gm_kms.Approval.Types.{
  OperationType, ApprovalStatus, approved, rejected, ApprovalLevel, single, double, triple,
  level_lt, level_eq, level_max, is_terminal, is_pending,
}

abbrev pub Uuid : Type 0
Uuid = ℕ

abbrev pub DateTime : Type 0
DateTime = ℕ

-- the readings of `Utc::now()` within one call
abbrev pub Clock : Type 0
Clock = ℕ → DateTime

abbrev pub minute : ℕ
minute = 60_000_000_000

abbrev pub hour : ℕ
hour = 3_600_000_000_000

pub data ApprovalError : Type 0 where
  request_not_found request_already_completed request_expired already_voted : ApprovalError
  insufficient_approval_level not_authorized self_approval : ApprovalError
  invalid_config operation_requires_approval : String → ApprovalError
  threshold_not_reached : ApprovalError
  workflow_error : Uuid → ApprovalError

pub record ApprovalRecord : Type 0 where
  pub approver_id : String
  pub level : ApprovalLevel
  pub approved_at : DateTime
  pub comment : Option String

pub record RejectionRecord : Type 0 where
  pub rejector_id : String
  pub level : ApprovalLevel
  pub rejected_at : DateTime
  pub reason : String

-- `metadata`, a JSON value that no operation reads, is left out.
pub record ApprovalRequestEntity : Type 0 where
  pub id : Uuid
  pub operation : OperationType
  pub resource_id : String
  pub resource_type : String
  pub tenant_id : String
  pub requestor_id : String
  pub justification : Option String
  pub status : ApprovalStatus
  pub required_level : ApprovalLevel
  pub current_level : ApprovalLevel
  pub approvals : List ApprovalRecord
  pub rejections : List RejectionRecord
  pub created_at : DateTime
  pub expires_at : DateTime
  pub completed_at : Option DateTime

-- the `match` on the required level at the head of `create_request`
unfoldable pub timeout_hours : ApprovalLevel → ℕ
timeout_hours ApprovalLevel.none = 0
timeout_hours single = 12
timeout_hours double = 24
timeout_hours triple = 48
timeout_hours ApprovalLevel.manager = 8
timeout_hours ApprovalLevel.admin = 4

abbrev pub has_level : ApprovalLevel → ApprovalRecord → Bool
has_level l a = level_eq a.level l

abbrev pub is_empty {ℓ} : {A : Type ℓ} → List A → Bool
is_empty [] = true
is_empty (x ∷ xs) = false

-- `check_approval_complete`, on the two fields that it reads
abbrev pub quorum_reached : ApprovalLevel → List ApprovalRecord → Bool
quorum_reached ApprovalLevel.none votes = true
quorum_reached single votes = not (is_empty votes)
quorum_reached double votes = leb 2 (length votes)
quorum_reached triple votes = leb 3 (length votes)
quorum_reached ApprovalLevel.manager votes = any (has_level ApprovalLevel.manager) votes
quorum_reached ApprovalLevel.admin votes = any (has_level ApprovalLevel.admin) votes

unfoldable pub check_approval_complete : ApprovalRequestEntity → Bool
check_approval_complete r = quorum_reached r.required_level r.approvals

abbrev pub approved_by : String → ApprovalRecord → Bool
approved_by who a = a.approver_id == who

abbrev pub rejected_by : String → RejectionRecord → Bool
rejected_by who x = x.rejector_id == who

abbrev pub has_voted : String → ApprovalRequestEntity → Bool
has_voted who r = any (approved_by who) r.approvals || any (rejected_by who) r.rejections

abbrev pub Outcome : Type 0
Outcome = ApprovalRequestEntity × Result ApprovalError ApprovalRequestEntity

-- the lazy expiry of `approve` and `reject`: the status changes although the call fails
unfoldable pub expire : Clock → ApprovalRequestEntity → ApprovalRequestEntity
expire now r = record r { status = ApprovalStatus.expired; completed_at = some (now 1) }

-- the vote that `approve` records
unfoldable pub record_approval :
    Clock → String → ApprovalLevel → Option String → ApprovalRequestEntity → ApprovalRequestEntity
record_approval now approver l comment r = record r {
  approvals =
      push r.approvals
        (record { approver_id = approver; level = l; approved_at = now 1; comment = comment });
  current_level = level_max r.current_level l;
}

-- the completion test at the end of `approve`
unfoldable pub complete : Clock → ApprovalRequestEntity → ApprovalRequestEntity
complete now r =
    if check_approval_complete r
    then record r { status = approved; completed_at = some (now 2) }
    else r

unfoldable pub approve_request :
    Clock → String → ApprovalLevel → Option String → ApprovalRequestEntity → Outcome
approve_request now approver l comment r =
    if r.requestor_id == approver
    then (r, err self_approval)
    else if level_lt l r.required_level
    then (r, err insufficient_approval_level)
    else if is_terminal r.status
    then (r, err request_already_completed)
    else if ltb r.expires_at (now 0)
    then (expire now r, err request_expired)
    else if has_voted approver r
    then (r, err already_voted)
    else let done = complete now (record_approval now approver l comment r) in (done, ok done)

unfoldable pub record_rejection :
    Clock → String → ApprovalLevel → String → ApprovalRequestEntity → ApprovalRequestEntity
record_rejection now rejector l reason r = record r {
  rejections =
      push r.rejections
        (record { rejector_id = rejector; level = l; rejected_at = now 1; reason = reason });
  status = rejected;
  completed_at = some (now 2);
}

unfoldable pub reject_request :
    Clock → String → ApprovalLevel → String → ApprovalRequestEntity → Outcome
reject_request now rejector l reason r =
    if r.requestor_id == rejector
    then (r, err self_approval)
    else if is_terminal r.status
    then (r, err request_already_completed)
    else if ltb r.expires_at (now 0)
    then (expire now r, err request_expired)
    else if has_voted rejector r
    then (r, err already_voted)
    else let done = record_rejection now rejector l reason r in (done, ok done)

unfoldable pub cancel_request : Clock → String → ApprovalRequestEntity → Outcome
cancel_request now requestor r =
    if not (r.requestor_id == requestor)
    then (r, err not_authorized)
    else if is_terminal r.status
    then (r, err request_already_completed)
    else let done = record r { status = ApprovalStatus.cancelled; completed_at = some (now 0) } in
      (done, ok done)

-- the body of the loop in `cleanup_expired`, with what it adds to the count
abbrev pub is_overdue : DateTime → ApprovalRequestEntity → Bool
is_overdue now r = is_pending r.status && ltb r.expires_at now

unfoldable pub expire_overdue : DateTime → ApprovalRequestEntity → ApprovalRequestEntity
expire_overdue now r =
    if is_overdue now r
    then record r { status = ApprovalStatus.expired; completed_at = some now }
    else r
