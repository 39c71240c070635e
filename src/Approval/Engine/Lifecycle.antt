-- ===== src/Approval/Engine/Lifecycle.antt =====
-- The life of one stored request of crates/kms-approval/src/lib.rs across calls: terminal requests
-- are frozen, refused calls change nothing, and the clean-up.
use gm_kms.Base.{
  contains_key, get-map_values, get-insert, nat_Eq, ap, arith, some, ◌≡◌, refl, true, String,
  Option, get, Result, ok, err, Option-cases, inl, inr,
}
use gm_kms.Approval.Types.{Role, is_terminal, determine_approval_level}
use gm_kms.Approval.Request.{
  Uuid, DateTime, Clock, ApprovalRequestEntity, ApprovalError, Outcome, approve_request,
  reject_request, cancel_request, expire_overdue,
}
use gm_kms.Approval.Engine.Invariant.{Step, Reach}
use gm_kms.Approval.BreakGlass.{open_break_glass}
use gm_kms.Approval.Engine.{
  create_request, restore_request, new_request, approve, reject, cancel, cleanup_expired,
  create_break_glass_request, confirm_break_glass_first, confirm_break_glass_second,
  cancel_break_glass, cleanup_expired_break_glass, ApprovalEngine, with_request, store_break_glass,
  with_break_glass,
}

-- the engine stores the request `r` under `id`
abbrev pub Holds : Uuid → ApprovalRequestEntity → ApprovalEngine → Type 0
Holds id r e = get id e.pending_requests ≡ some r

with_request-Holds :
    (j : Uuid) (method : ApprovalRequestEntity → Outcome) (id : Uuid) (r : ApprovalRequestEntity)
    (e : ApprovalEngine)
    → (method r).0 ≡ r
    → Holds id r e
    → Holds id r (with_request j method e).0
unfolding with_request
with_request-Holds j method id r e idle h = elim (Option-cases (get j e.pending_requests)) [
  | inl missing ↦ rw (missing, with_request) h
  | inr (x, found) ↦
      rw (found, with_request)
        (ground (arith, get-insert j id (method x).0 e.pending_requests, nat_Eq.test_iff j id))
]

restored :
    (x : ApprovalRequestEntity) (e : ApprovalEngine) (id : Uuid) (r : ApprovalRequestEntity)
    → Holds id r e
    → Holds id r (restore_request x e).0
unfolding restore_request contains_key
restored x e id r h = elim (Option-cases (get x.id e.pending_requests)) [
  | inl missing ↦
      rw (missing, contains_key)
        (ground (arith, get-insert x.id id x e.pending_requests, nat_Eq.test_iff x.id id))
  | inr (y, found) ↦ rw (found, contains_key) h
]

pub store-Holds :
    (j : Uuid) (e : ApprovalEngine) (x : Result ApprovalError _)
    → (store_break_glass j e x).0.pending_requests ≡ e.pending_requests
unfolding store_break_glass
store-Holds j e (ok r) = refl
store-Holds j e (err x) = refl

pub break_glass-pending :
    (j : Uuid) (method : _ → _) (e : ApprovalEngine)
    → (with_break_glass j method e).0.pending_requests ≡ e.pending_requests
unfolding with_break_glass
break_glass-pending j method e = ground arith

module _ (r : ApprovalRequestEntity) (closed : is_terminal r.status ≡ true) where
  approve_terminal :
      (now : Clock) (who : String) (role : Role) (comment : Option String)
      → (approve_request now who (determine_approval_level role) comment r).0 ≡ r
  unfolding approve_request
  approve_terminal now who role comment = ground arith

  reject_terminal :
      (now : Clock) (who : String) (role : Role) (reason : String)
      → (reject_request now who (determine_approval_level role) reason r).0 ≡ r
  unfolding reject_request
  reject_terminal now who role reason = ground arith

  cancel_terminal : (now : Clock) (who : String) → (cancel_request now who r).0 ≡ r
  unfolding cancel_request
  cancel_terminal now who = ground arith

  expire_terminal : (now : DateTime) → expire_overdue now r ≡ r
  unfolding expire_overdue
  expire_terminal now = ground arith

module _ (id : Uuid) (r : ApprovalRequestEntity) (closed : is_terminal r.status ≡ true) where
  -- A request that is approved, rejected, cancelled or expired is stored unchanged by every call.
  pub Step-frozen : {e f : ApprovalEngine} → Step e f → Holds id r e → Holds id r f
  unfolding create_request restore_request approve reject cancel cleanup_expired
      create_break_glass_request confirm_break_glass_first confirm_break_glass_second
      cancel_break_glass cleanup_expired_break_glass
  Step-frozen {e} (Step.create j now f unused) h =
      ground (arith, get-insert j id (new_request j now f) e.pending_requests, nat_Eq.test_iff j id)
  Step-frozen {e} (Step.restore x) h = restored x e id r h
  Step-frozen {e} (Step.approving now j who role comment) h =
      with_request-Holds j _ id r e (approve_terminal r closed now who role comment) h
  Step-frozen {e} (Step.rejecting now j who role reason) h =
      with_request-Holds j _ id r e (reject_terminal r closed now who role reason) h
  Step-frozen {e} (Step.cancelling now j who) h =
      with_request-Holds j _ id r e (cancel_terminal r closed now who) h
  Step-frozen {e} (Step.cleaning now) h =
      rw (get-map_values id (expire_overdue now) e.pending_requests, h)
        (ap some (expire_terminal r closed now))
  Step-frozen {e} (Step.create_break_glass j now f unused) h =
      rw (store-Holds j e (open_break_glass j now f)) h
  Step-frozen {e} (Step.confirming_first now j who) h = rw (break_glass-pending j _ e) h
  Step-frozen {e} (Step.confirming_second now j who) h = rw (break_glass-pending j _ e) h
  Step-frozen {e} (Step.cancelling_break_glass j who) h = rw (break_glass-pending j _ e) h
  Step-frozen (Step.cleaning_break_glass now) h = h

  -- A request that is approved, rejected, cancelled or expired stays as it is for ever.
  pub Reach-frozen : {e f : ApprovalEngine} → Reach e f → Holds id r e → Holds id r f
  Reach-frozen Reach.here h = h
  Reach-frozen (Reach.next path s) h = Step-frozen s (Reach-frozen path h)
