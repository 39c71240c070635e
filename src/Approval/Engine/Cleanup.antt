-- ===== src/Approval/Engine/Cleanup.antt =====
-- The two periodic clean-ups of crates/kms-approval/src/lib.rs.
use gm_kms.Base.{
  ℕ, ◌+◌, ◌≡◌, refl, String, [], ◌∷◌, HashMap, values, map_values, count_if, filter, arith,
}
use gm_kms.Approval.Types.{is_pending, is_activated}
use gm_kms.Approval.Request.{Uuid, DateTime, ApprovalRequestEntity, is_overdue, expire_overdue}
use gm_kms.Approval.BreakGlass.{BreakGlassRequest, expire_overdue_break_glass, is_live}
use gm_kms.Approval.Engine.{
  ApprovalEngine, cleanup_expired, cleanup_expired_break_glass, list_active_break_glass,
}

abbrev pub pending_count : ApprovalEngine → ℕ
pending_count e = count_if (λ r. is_pending r.status) (values e.pending_requests)

abbrev pub overdue_count : DateTime → ApprovalEngine → ℕ
overdue_count now e = count_if (is_overdue now) (values e.pending_requests)

none_overdue :
    (now : DateTime) (m : HashMap Uuid ApprovalRequestEntity)
    → count_if (is_overdue now) (values (map_values (expire_overdue now) m)) ≡ 0
unfolding expire_overdue
none_overdue now [] = refl
none_overdue now ((k, r) ∷ m) = ground (arith, none_overdue now m)

cleaned :
    (now : DateTime) (m : HashMap Uuid ApprovalRequestEntity)
    → count_if (λ r. is_pending r.status) (values m)
      ≡ count_if (λ r. is_pending r.status) (values (map_values (expire_overdue now) m))
        + count_if (is_overdue now) (values m)
unfolding expire_overdue
cleaned now [] = refl
cleaned now ((k, r) ∷ m) = ground (arith, cleaned now m)

-- After the clean-up no pending request is overdue, and the number that it returns is the number
-- of requests that stopped being pending.
pub cleanup_expired_lem :
    (now : DateTime) (e : ApprovalEngine)
    → (overdue_count now (cleanup_expired now e).0 ≡ 0)
      × (pending_count e ≡ pending_count (cleanup_expired now e).0 + (cleanup_expired now e).1)
unfolding cleanup_expired
cleanup_expired_lem now e = (none_overdue now e.pending_requests, cleaned now e.pending_requests)

activated_live :
    (now : DateTime) (m : HashMap Uuid BreakGlassRequest)
    → filter (λ r. is_activated r.status) (values (map_values (expire_overdue_break_glass now) m))
      ≡ filter (is_live now) (values m)
unfolding expire_overdue_break_glass
activated_live now [] = refl
activated_live now ((k, r) ∷ m) = ground (arith, activated_live now m)

-- The break-glass clean-up revokes exactly the overdue access: what is still activated after it is
-- what was live before it, in the same state.
pub cleanup_expired_break_glass_lem :
    (now : DateTime) (tenant : String) (e : ApprovalEngine)
    → filter
        (λ r. is_activated r.status)
        (values (cleanup_expired_break_glass now e).0.break_glass_requests)
      ≡ list_active_break_glass now tenant e
unfolding cleanup_expired_break_glass list_active_break_glass
cleanup_expired_break_glass_lem now tenant e = activated_live now e.break_glass_requests
