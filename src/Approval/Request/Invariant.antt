-- ===== src/Approval/Request/Invariant.antt =====
-- What holds of every approval request, and that each method of crates/kms-approval/src/lib.rs
-- keeps it on the request that it works on.
use gm_kms.Base.{
  ltb, not, Result, some, ◌≡◌, ◌==◌, ◌≢◌, ◌≤◌, true, false, Option, none, String, List, [], ◌∷◌,
  push, any, All, All-push, All-imp, All-of_any-false, string_Eq, arith, if-cases,
}
use gm_kms.Approval.Types.{ApprovalStatus, approved, ApprovalLevel, level, is_terminal, level_lt}
use gm_kms.Approval.Request.{
  ApprovalError, is_overdue, record_rejection, reject_request, cancel_request, expire_overdue,
  has_voted, Clock, DateTime, Outcome, ApprovalRecord, ApprovalRequestEntity, quorum_reached,
  check_approval_complete, is_empty, approved_by, expire, record_approval, complete,
  approve_request,
}

-- no approver votes twice
abbrev pub Distinct : List ApprovalRecord → Type 0
Distinct [] = Unit
Distinct (a ∷ votes) = All (λ b. b.approver_id ≢ a.approver_id) votes × Distinct votes

abbrev pub IsIndependent : String → ApprovalRecord → Type 0
IsIndependent requestor a = a.approver_id ≢ requestor

abbrev pub IsAuthorised : ApprovalLevel → ApprovalRecord → Type 0
IsAuthorised required a = level required ≤ level a.level

pub record IsValid (r : ApprovalRequestEntity) : Type 0 where
  pub independent : All (IsIndependent r.requestor_id) r.approvals
  pub authorised : All (IsAuthorised r.required_level) r.approvals
  pub distinct : Distinct r.approvals
  pub decided : r.status ≡ approved → quorum_reached r.required_level r.approvals ≡ true
  pub unopposed : is_terminal r.status ≡ false → is_empty r.rejections ≡ true
  pub approved_unopposed : r.status ≡ approved → is_empty r.rejections ≡ true
  pub unstamped : is_terminal r.status ≡ false → r.completed_at ≡ none
  pub stamped : is_terminal r.status ≡ true → r.completed_at ≢ none

Distinct-push :
    (votes : List ApprovalRecord) (a : ApprovalRecord)
    → Distinct votes
    → All (λ b. a.approver_id ≢ b.approver_id) votes
    → Distinct (push votes a)
Distinct-push [] a d h = (tt, tt)
Distinct-push (b ∷ votes) a d h =
    (All-push (λ c. c.approver_id ≢ b.approver_id) votes a d.0 h.0, Distinct-push votes a d.1 h.1)

-- what a failed search for the voter says
unvoted :
    (who : String) (votes : List ApprovalRecord)
    → any (approved_by who) votes ≡ false
    → All (λ b. who ≢ b.approver_id) votes
unvoted who votes h =
    All-imp (λ a q e. ground (arith, string_Eq.test_iff a.approver_id who)) votes
      (All-of_any-false (approved_by who) votes h)

-- The vote that passed every guard of `approve` leaves a valid request.
accepted-IsValid :
    (now : Clock) (who : String) (l : ApprovalLevel) (comment : Option String)
    (r : ApprovalRequestEntity)
    → IsValid r
    → (r.requestor_id == who) ≡ false
    → level_lt l r.required_level ≡ false
    → is_terminal r.status ≡ false
    → has_voted who r ≡ false
    → IsValid (complete now (record_approval now who l comment r))
unfolding complete record_approval check_approval_complete
accepted-IsValid now who l comment r v own auth live new = ground (
  arith,
  All-push (IsIndependent r.requestor_id) r.approvals vote v.independent
      (λ e. ground (arith, string_Eq.test_iff r.requestor_id who)),
  All-push (IsAuthorised r.required_level) r.approvals vote v.authorised (ground arith),
  Distinct-push r.approvals vote v.distinct (unvoted who r.approvals (ground arith)),
)
  where
    vote : ApprovalRecord
    vote = record { approver_id = who; level = l; approved_at = now 1; comment = comment }

expire-IsValid : (now : Clock) (r : ApprovalRequestEntity) → IsValid r → IsValid (expire now r)
unfolding expire
expire-IsValid now r v = ground arith

-- A method that answers with an error leaves the request or expires it.
data Keeps : Outcome → Type 0 where
  keep :
      {r : ApprovalRequestEntity} {x : Result ApprovalError ApprovalRequestEntity}
      → IsValid r
      → Keeps (r, x)

kept : {o : Outcome} → Keeps o → IsValid o.0
kept (keep v) = v

-- `approve` keeps a request valid, whatever it answers.
pub approve_request-IsValid :
    (now : Clock) (who : String) (l : ApprovalLevel) (comment : Option String)
    (r : ApprovalRequestEntity)
    → IsValid r
    → IsValid (approve_request now who l comment r).0
unfolding approve_request
approve_request-IsValid now who l comment r v =
    let every_branch : Keeps (approve_request now who l comment r) =
      if-cases Keeps (r.requestor_id == who) (λ _. keep v)
        λ own.
          if-cases Keeps (level_lt l r.required_level) (λ _. keep v)
            λ auth.
              if-cases Keeps (is_terminal r.status) (λ _. keep v)
                λ live.
                  if-cases Keeps (ltb r.expires_at (now 0)) (λ _. keep (expire-IsValid now r v))
                    λ _.
                      if-cases Keeps (has_voted who r) (λ _. keep v)
                        λ new. keep (accepted-IsValid now who l comment r v own auth live new) in
    kept every_branch

rejected-IsValid :
    (now : Clock) (who : String) (l : ApprovalLevel) (reason : String) (r : ApprovalRequestEntity)
    → IsValid r
    → IsValid (record_rejection now who l reason r)
unfolding record_rejection
rejected-IsValid now who l reason r v = ground arith

-- `reject` keeps a request valid, whatever it answers.
pub reject_request-IsValid :
    (now : Clock) (who : String) (l : ApprovalLevel) (reason : String) (r : ApprovalRequestEntity)
    → IsValid r
    → IsValid (reject_request now who l reason r).0
unfolding reject_request
reject_request-IsValid now who l reason r v =
    let every_branch : Keeps (reject_request now who l reason r) =
      if-cases Keeps (r.requestor_id == who) (λ _. keep v)
        λ _.
          if-cases Keeps (is_terminal r.status) (λ _. keep v)
            λ _.
              if-cases Keeps (ltb r.expires_at (now 0)) (λ _. keep (expire-IsValid now r v))
                λ _.
                  if-cases Keeps (has_voted who r) (λ _. keep v)
                    λ _. keep (rejected-IsValid now who l reason r v) in
    kept every_branch

cancelled-IsValid :
    (now : Clock) (r : ApprovalRequestEntity)
    → IsValid r
    → IsValid (record r { status = ApprovalStatus.cancelled; completed_at = some (now 0) })
cancelled-IsValid now r v = ground arith

-- `cancel` keeps a request valid, whatever it answers.
pub cancel_request-IsValid :
    (now : Clock) (who : String) (r : ApprovalRequestEntity)
    → IsValid r
    → IsValid (cancel_request now who r).0
unfolding cancel_request
cancel_request-IsValid now who r v =
    let every_branch : Keeps (cancel_request now who r) =
      if-cases Keeps (not (r.requestor_id == who)) (λ _. keep v)
        λ _.
          if-cases Keeps (is_terminal r.status) (λ _. keep v)
            λ _. keep (cancelled-IsValid now r v) in
    kept every_branch

-- The periodic clean-up keeps a request valid.
pub expire_overdue-IsValid :
    (now : DateTime) (r : ApprovalRequestEntity) → IsValid r → IsValid (expire_overdue now r)
unfolding expire_overdue expire
expire_overdue-IsValid now r v =
    if-cases IsValid (is_overdue now r) (λ _. expire-IsValid (λ _. now) r v) (λ _. v)
