-- ===== src/Approval/Request/Outcomes.antt =====
-- When the vote methods of crates/kms-approval/src/lib.rs accept, and what a refusal leaves behind.
use gm_kms.Base.{
  ◌≢◌, is_ok, ◌≤◌, ◌≡◌, ◌⊎◌, false, String, Option, err, ◌==◌, string_Eq, arith, true, ◌↔◌,
}
use gm_kms.Approval.Types.{ApprovalLevel, level, is_terminal}
use gm_kms.Approval.Request.{
  approve_request, reject_request, expire, has_voted, Clock, ApprovalError, request_expired,
  ApprovalRequestEntity,
}

-- who may vote on a request, and when
pub record MayVote (now : Clock) (who : String) (r : ApprovalRequestEntity) : Type 0 where
  pub other : (r.requestor_id == who) ≡ false
  pub live : is_terminal r.status ≡ false
  pub timely : now 0 ≤ r.expires_at
  pub first : has_voted who r ≡ false

module _ (now : Clock) (who : String) (l : ApprovalLevel) (r : ApprovalRequestEntity) where
  -- `approve` accepts a vote exactly if the voter may vote and has the required level.
  pub is_ok-approve_request :
      (comment : Option String)
      → (is_ok (approve_request now who l comment r).1 ≡ true)
        ↔ (MayVote now who r × (level r.required_level ≤ level l))
  unfolding approve_request
  is_ok-approve_request comment = (λ h. ground arith, λ h. ground arith)

  -- A vote that `approve` refuses leaves the request as it was, or marks it expired, the latter
  -- exactly where the error says so.
  pub approve_request_refused :
      (comment : Option String) {x : ApprovalError}
      → (approve_request now who l comment r).1 ≡ err x
      → ((x ≡ request_expired) × ((approve_request now who l comment r).0 ≡ expire now r))
        ⊎ ((x ≢ request_expired) × ((approve_request now who l comment r).0 ≡ r))
  unfolding approve_request
  approve_request_refused comment h = ground arith

  -- `reject` accepts a vote exactly if the voter may vote, at any level.
  pub is_ok-reject_request :
      (reason : String) → (is_ok (reject_request now who l reason r).1 ≡ true) ↔ MayVote now who r
  unfolding reject_request
  is_ok-reject_request reason = (λ h. ground arith, λ h. ground arith)
