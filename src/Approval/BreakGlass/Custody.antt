-- ===== src/Approval/BreakGlass/Custody.antt =====
-- Break-glass requests: the bounds that every request keeps, and what the two confirmations of
-- crates/kms-approval/src/lib.rs really ask for.
use gm_kms.Base.{◌+◌, ◌*◌, ◌≤◌, ◌≡◌, ◌≢◌, String, string_Eq, ok, arith}
use gm_kms.Approval.Types.{BreakGlassStatus}
use gm_kms.Approval.Request.{DateTime, Clock, Uuid, minute}
use gm_kms.Approval.BreakGlass.{
  BreakGlassRequest, BreakGlassForm, max_break_glass_duration_mins, open_break_glass, confirm_first,
  confirm_second, cancel_break_glass_request, expire_overdue_break_glass,
}

pub record IsBounded (r : BreakGlassRequest) : Type 0 where
  pub short : r.duration_minutes ≤ max_break_glass_duration_mins
  pub expiry : r.expires_at ≡ r.created_at + r.duration_minutes * minute
  pub dual : r.first_approver_id ≢ r.second_approver_id

-- A request that the engine agrees to open is bounded.
pub open_break_glass-IsBounded :
    (id : Uuid) (now : DateTime) (f : BreakGlassForm) {r : BreakGlassRequest}
    → open_break_glass id now f ≡ ok r
    → IsBounded r
unfolding open_break_glass
open_break_glass-IsBounded id now f h =
    ground (arith, string_Eq.test_iff f.first_approver_id f.second_approver_id)

pub confirm_first-IsBounded :
    (now : Clock) (who : String) (r : BreakGlassRequest)
    → IsBounded r
    → IsBounded (confirm_first now who r).0
unfolding confirm_first
confirm_first-IsBounded now who r b = ground arith

pub confirm_second-IsBounded :
    (now : Clock) (who : String) (r : BreakGlassRequest)
    → IsBounded r
    → IsBounded (confirm_second now who r).0
unfolding confirm_second
confirm_second-IsBounded now who r b = ground arith

pub cancel_break_glass_request-IsBounded :
    (who : String) (r : BreakGlassRequest)
    → IsBounded r
    → IsBounded (cancel_break_glass_request who r).0
unfolding cancel_break_glass_request
cancel_break_glass_request-IsBounded who r b = ground arith

pub expire_overdue_break_glass-IsBounded :
    (now : DateTime) (r : BreakGlassRequest)
    → IsBounded r
    → IsBounded (expire_overdue_break_glass now r)
unfolding expire_overdue_break_glass
expire_overdue_break_glass-IsBounded now r b = ground arith

-- A first confirmation that succeeds leaves the request exactly as it was.
pub confirm_first_unrecorded :
    (now : Clock) (who : String) (r : BreakGlassRequest) {x : BreakGlassRequest}
    → (confirm_first now who r).1 ≡ ok x
    → (confirm_first now who r).0 ≡ r
unfolding confirm_first
confirm_first_unrecorded now who r h = ground arith

-- The second confirmation alone activates a pending request.
pub confirm_second_alone :
    (now : Clock) (r : BreakGlassRequest)
    → r.status ≡ BreakGlassStatus.pending_dual_approval
    → now 0 ≤ r.expires_at
    → (confirm_second now r.second_approver_id r).0
      ≡ record r { status = BreakGlassStatus.activated }
unfolding confirm_second
confirm_second_alone now r p h =
    ground (arith, string_Eq.test_iff r.second_approver_id r.second_approver_id)
