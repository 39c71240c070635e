-- ===== src/Approval/Engine/Invariant.antt =====
-- The engine of crates/kms-approval/src/lib.rs as a transition system, and the invariant of the
-- break-glass requests of every engine that can be reached.
use gm_kms.Base.{
  ◌≡◌, refl, String, Option, none, get, values, nat_Eq, contains_key, Result, ok, err, All,
  All-insert, All-get, All-map_values, Option-cases, Bool-cases, inl, inr,
}
use gm_kms.Approval.Types.{Role}
use gm_kms.Approval.Request.{Uuid, DateTime, Clock, ApprovalRequestEntity, Outcome}
use gm_kms.Approval.BreakGlass.{
  BreakGlassRequest, BreakGlassForm, BreakGlassOutcome, open_break_glass,
  expire_overdue_break_glass,
}
use gm_kms.Approval.BreakGlass.Custody.{
  IsBounded, open_break_glass-IsBounded, confirm_first-IsBounded, confirm_second-IsBounded,
  cancel_break_glass_request-IsBounded, expire_overdue_break_glass-IsBounded,
}
use gm_kms.Approval.Engine.{
  ApprovalEngine, RequestForm, new, create_request, restore_request, with_request, approve, reject,
  cancel, cleanup_expired, create_break_glass_request, store_break_glass, with_break_glass,
  confirm_break_glass_first, confirm_break_glass_second, cancel_break_glass,
  cleanup_expired_break_glass,
}

-- One call of a method. A new request gets an id that the engine does not hold (`Uuid::new_v4`); a
-- restored request is any.
pub data Step (e : ApprovalEngine) : ApprovalEngine → Type 0 where
  create :
      (id : Uuid) (now : DateTime) (f : RequestForm)
      → get id e.pending_requests ≡ none
      → Step e (create_request id now f e).0
  restore : (r : ApprovalRequestEntity) → Step e (restore_request r e).0
  approving :
      (now : Clock) (id : Uuid) (who : String) (role : Role) (comment : Option String)
      → Step e (approve now id who role comment e).0
  rejecting :
      (now : Clock) (id : Uuid) (who : String) (role : Role) (reason : String)
      → Step e (reject now id who role reason e).0
  cancelling : (now : Clock) (id : Uuid) (who : String) → Step e (cancel now id who e).0
  cleaning : (now : DateTime) → Step e (cleanup_expired now e).0
  create_break_glass :
      (id : Uuid) (now : DateTime) (f : BreakGlassForm)
      → get id e.break_glass_requests ≡ none
      → Step e (create_break_glass_request id now f e).0
  confirming_first :
      (now : Clock) (id : Uuid) (who : String) → Step e (confirm_break_glass_first now id who e).0
  confirming_second :
      (now : Clock) (id : Uuid) (who : String) → Step e (confirm_break_glass_second now id who e).0
  cancelling_break_glass : (id : Uuid) (who : String) → Step e (cancel_break_glass id who e).0
  cleaning_break_glass : (now : DateTime) → Step e (cleanup_expired_break_glass now e).0

pub data Reach (e : ApprovalEngine) : ApprovalEngine → Type 0 where
  here : Reach e e
  next : {f g : ApprovalEngine} → Reach e f → Step f g → Reach e g

pub record IsSound (e : ApprovalEngine) : Type 0 where
  pub break_glass : All IsBounded (values e.break_glass_requests)

with_request-IsSound :
    (id : Uuid) (method : ApprovalRequestEntity → Outcome) (e : ApprovalEngine)
    → IsSound e
    → IsSound (with_request id method e).0
unfolding with_request
with_request-IsSound id method e s = elim (Option-cases (get id e.pending_requests)) [
  | inl missing ↦ rw (missing, with_request) s
  | inr (r, found) ↦ rw (found, with_request) (record { break_glass = s.break_glass })
]

with_break_glass-IsSound :
    (id : Uuid) (method : BreakGlassRequest → BreakGlassOutcome) (e : ApprovalEngine)
    → ((r : BreakGlassRequest) → IsBounded r → IsBounded (method r).0)
    → IsSound e
    → IsSound (with_break_glass id method e).0
unfolding with_break_glass
with_break_glass-IsSound id method e keep s = elim (Option-cases (get id e.break_glass_requests)) [
  | inl missing ↦ rw (missing, with_break_glass) s
  | inr (r, found) ↦
      rw (found, with_break_glass)
        (record {
          break_glass =
              All-insert IsBounded id (method r).0 e.break_glass_requests
                (keep r (All-get IsBounded id e.break_glass_requests s.break_glass found))
                s.break_glass;
        })
]

restore_request-IsSound :
    (r : ApprovalRequestEntity) (e : ApprovalEngine) → IsSound e → IsSound (restore_request r e).0
unfolding restore_request
restore_request-IsSound r e s = elim (Bool-cases (contains_key r.id e.pending_requests)) [
  | inl present ↦ rw (present, restore_request) s
  | inr absent ↦ rw (absent, restore_request) (record { break_glass = s.break_glass })
]

store_break_glass-IsSound :
    (id : Uuid) (e : ApprovalEngine) (x : Result _ BreakGlassRequest)
    → ((r : BreakGlassRequest) → x ≡ ok r → IsBounded r)
    → IsSound e
    → IsSound (store_break_glass id e x).0
unfolding store_break_glass
store_break_glass-IsSound id e (ok r) b s = record {
  break_glass = All-insert IsBounded id r e.break_glass_requests (b r refl) s.break_glass;
}
store_break_glass-IsSound id e (err x) b s = s

-- Every call of a method keeps the invariant.
pub Step-IsSound : {e f : ApprovalEngine} → Step e f → IsSound e → IsSound f
unfolding create_request approve reject cancel cleanup_expired create_break_glass_request
    confirm_break_glass_first confirm_break_glass_second cancel_break_glass
    cleanup_expired_break_glass
Step-IsSound {e} (create id now f _) s = record { break_glass = s.break_glass }
Step-IsSound {e} (restore r) s = restore_request-IsSound r e s
Step-IsSound {e} (approving now id who role comment) s = with_request-IsSound id _ e s
Step-IsSound {e} (rejecting now id who role reason) s = with_request-IsSound id _ e s
Step-IsSound {e} (cancelling now id who) s = with_request-IsSound id _ e s
Step-IsSound {e} (cleaning now) s = record { break_glass = s.break_glass }
Step-IsSound {e} (create_break_glass id now f _) s =
    store_break_glass-IsSound id e (open_break_glass id now f)
      (λ r h. open_break_glass-IsBounded id now f h) s
Step-IsSound {e} (confirming_first now id who) s =
    with_break_glass-IsSound id _ e (confirm_first-IsBounded now who) s
Step-IsSound {e} (confirming_second now id who) s =
    with_break_glass-IsSound id _ e (confirm_second-IsBounded now who) s
Step-IsSound {e} (cancelling_break_glass id who) s =
    with_break_glass-IsSound id _ e (cancel_break_glass_request-IsBounded who) s
Step-IsSound {e} (cleaning_break_glass now) s = record {
  break_glass =
      All-map_values IsBounded (expire_overdue_break_glass now) e.break_glass_requests
        (expire_overdue_break_glass-IsBounded now) s.break_glass;
}

-- Every engine that calls can build from an empty one satisfies the invariant.
pub Reach-IsSound : {e : ApprovalEngine} → Reach new e → IsSound e
unfolding new
Reach-IsSound here = record { break_glass = tt }
Reach-IsSound (next r s) = Step-IsSound s (Reach-IsSound r)
