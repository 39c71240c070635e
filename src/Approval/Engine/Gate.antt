-- ===== src/Approval/Engine/Gate.antt =====
-- `is_approved` of crates/kms-approval/src/lib.rs, the gate in front of export and delete: what it
-- guarantees, and when the last vote opens it.
use gm_kms.Base.{
  ℕ, ◌+◌, ◌≤◌, ◌≡◌, ◌≢◌, refl, Bool, true, false, String, Option, some, List, [], ◌∷◌, push, length,
  length-push, any, any-push, get, nat_Eq, All, ◌⊎◌, ◌==◌, string_Eq, Option-cases, inl, inr, arith,
}
use gm_kms.Approval.Types.{
  OperationType, operation_Eq, operation_eq_iff, approved, ApprovalLevel, single, double, triple,
  Role, level, is_terminal, determine_approval_level,
}
use gm_kms.Approval.Request.{
  Uuid, DateTime, Clock, ApprovalRecord, ApprovalRequestEntity, quorum_reached, has_level, is_empty,
  expire, check_approval_complete, has_voted, record_approval, complete, approve_request,
}
use gm_kms.Approval.Request.Invariant.{Distinct, IsIndependent, IsAuthorised, IsValid}
use gm_kms.Approval.Engine.{ApprovalEngine, new, get_request, grants, is_approved}
use gm_kms.Approval.Engine.Invariant.{Reach}
use gm_kms.Approval.Engine.Provenance.{WasRestored, Reach-IsValid}

-- how many people an approval at a level takes
abbrev pub votes_needed : ApprovalLevel → ℕ
votes_needed ApprovalLevel.none = 0
votes_needed single = 1
votes_needed double = 2
votes_needed triple = 3
votes_needed ApprovalLevel.manager = 1
votes_needed ApprovalLevel.admin = 1

length_of_any :
    (p : ApprovalRecord → Bool) (votes : List ApprovalRecord)
    → any p votes ≡ true
    → 1 ≤ length votes
length_of_any p [] h = cc
length_of_any p (a ∷ votes) h = omega arith

quorum-votes :
    (l : ApprovalLevel) (votes : List ApprovalRecord)
    → quorum_reached l votes ≡ true
    → votes_needed l ≤ length votes
quorum-votes ApprovalLevel.none votes h = omega arith
quorum-votes single [] h = cc
quorum-votes single (a ∷ votes) h = omega arith
quorum-votes double votes h = ground arith
quorum-votes triple votes h = ground arith
quorum-votes ApprovalLevel.manager votes h = length_of_any (has_level ApprovalLevel.manager) votes h
quorum-votes ApprovalLevel.admin votes h = length_of_any (has_level ApprovalLevel.admin) votes h

-- What an open gate stands for: enough different people, none of them the requestor, each with the
-- authority that the request asks for, and nobody against.
pub record IsEndorsed (r : ApprovalRequestEntity) : Type 0 where
  pub enough : votes_needed r.required_level ≤ length r.approvals
  pub distinct : Distinct r.approvals
  pub independent : All (IsIndependent r.requestor_id) r.approvals
  pub authorised : All (IsAuthorised r.required_level) r.approvals
  pub unopposed : is_empty r.rejections ≡ true

granted_for :
    (now : DateTime) (op : OperationType) (resource : String) (r : ApprovalRequestEntity)
    → grants now op resource r ≡ true
    → (r.operation ≡ op) × (r.resource_id ≡ resource) × (now ≤ r.expires_at)
unfolding grants
granted_for now op resource r h =
    ground (arith, operation_eq_iff r.operation op, string_Eq.test_iff r.resource_id resource)

endorsed :
    (now : DateTime) (op : OperationType) (resource : String) (r : ApprovalRequestEntity)
    → IsValid r
    → grants now op resource r ≡ true
    → IsEndorsed r
unfolding grants check_approval_complete
endorsed now op resource r v h = ground (arith, quorum-votes r.required_level r.approvals)

-- In every engine that calls build, the gate opens only on a stored request for exactly this
-- operation and this resource, not expired, and unless a request was restored under its id, which is
-- not checked, with enough approvals from different people, each with the required authority, none
-- from the requestor, and no rejection.
pub is_approved_sound :
    (e : ApprovalEngine) (now : DateTime) (id : Uuid) (op : OperationType) (resource : String)
    (path : Reach new e)
    → is_approved now id op resource e ≡ true
    → (r : ApprovalRequestEntity) × (get id e.pending_requests ≡ some r)
      × ((r.operation ≡ op)
          × (r.resource_id ≡ resource)
          × (now ≤ r.expires_at)
          × (IsEndorsed r ⊎ WasRestored id path))
unfolding is_approved get_request
is_approved_sound e now id op resource path h = elim (Option-cases (get id e.pending_requests)) [
  | inl missing ↦ absurd (ground arith)
  | inr (r, found) ↦
      let open_gate : grants now op resource r ≡ true = ground arith in
      let (same_op, same_resource, early) = granted_for now op resource r open_gate in
      (
        r,
        found,
        (
          same_op,
          same_resource,
          early,
          elim (Reach-IsValid id path r found) [
            | inl v ↦ inl (endorsed now op resource r v open_gate)
            | inr restored ↦ inr restored
          ],
        ),
      )
]

-- On a live request, the vote that makes up the number is answered by `Approved`: at the levels
-- that count votes, for a voter with the authority who is not the requestor and has not voted.
pub approve_last_vote :
    (now : Clock) (who : String) (role : Role) (comment : Option String) (r : ApprovalRequestEntity)
    → (r.requestor_id == who) ≡ false
    → level r.required_level ≤ level (determine_approval_level role)
    → level r.required_level ≤ 3
    → is_terminal r.status ≡ false
    → now 0 ≤ r.expires_at
    → has_voted who r ≡ false
    → votes_needed r.required_level ≤ length r.approvals + 1
    → (approve_request now who (determine_approval_level role) comment r).0.status ≡ approved
unfolding approve_request complete record_approval check_approval_complete
approve_last_vote now who role comment r own auth counted live early new enough =
    ground (arith, length-push r.approvals vote, nonempty r.approvals vote)
  where
    vote : ApprovalRecord
    vote = record {
      approver_id = who;
      level = determine_approval_level role;
      approved_at = now 1;
      comment = comment;
    }

    nonempty : (votes : List ApprovalRecord) (a : ApprovalRecord) → is_empty (push votes a) ≡ false
    nonempty [] a = refl
    nonempty (b ∷ votes) a = refl

-- An administrator's vote never completes a request that asks for a manager: the level is compared
-- for equality. It is stated of a request without a vote of that very level.
pub admin_vote_incomplete :
    (now : Clock) (who : String) (comment : Option String) (r : ApprovalRequestEntity)
    → r.required_level ≡ ApprovalLevel.manager
    → r.status ≢ approved
    → any (has_level ApprovalLevel.manager) r.approvals ≡ false
    → (approve_request now who (determine_approval_level Role.admin) comment r).0.status ≢ approved
unfolding approve_request expire complete record_approval check_approval_complete
    determine_approval_level
admin_vote_incomplete now who comment r asks pending none_yet = ground (arith, short)
  where
    vote : ApprovalRecord
    vote = record {
      approver_id = who;
      level = ApprovalLevel.admin;
      approved_at = now 1;
      comment = comment;
    }

    short : quorum_reached r.required_level (push r.approvals vote) ≡ false
    short = rw (asks, any-push (has_level ApprovalLevel.manager) r.approvals vote, none_yet)
