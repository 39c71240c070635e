-- ===== src/Approval/Engine/Emergency.antt =====
-- Break-glass access in the engine of crates/kms-approval/src/lib.rs: how long it lasts, and how
-- many people it takes.
use gm_kms.Base.{
  some, ◌+◌, ◌*◌, ◌≤◌, ◌≡◌, ◌≢◌, refl, true, ◌&&◌, ◌==◌, string_Eq, nat_Eq, String, get,
  get-insert_self, values, any-insert, All_at, find_of_any, min, arith,
}
use mathlib.Core.List.{Memᴰ}
use gm_kms.Approval.Types.{is_activated}
use gm_kms.Approval.Request.{Uuid, DateTime, Clock, minute}
use gm_kms.Approval.BreakGlass.{
  BreakGlassRequest, BreakGlassForm, new_break_glass, open_break_glass, confirm_second, is_live,
}
use gm_kms.Approval.BreakGlass.Custody.{IsBounded, confirm_second_alone}
use gm_kms.Approval.Engine.{
  ApprovalEngine, new, create_break_glass_request, store_break_glass, confirm_break_glass_second,
  with_break_glass, is_break_glass_active,
}
use gm_kms.Approval.Engine.Invariant.{Reach, Reach-IsSound}

-- what stands behind emergency access to a resource
pub record IsEmergency (now : DateTime) (resource : String) (r : BreakGlassRequest) : Type 0 where
  pub same_resource : r.resource_id ≡ resource
  pub active : is_activated r.status ≡ true
  pub short : now ≤ r.created_at + 60 * minute
  pub dual : r.first_approver_id ≢ r.second_approver_id

emergency :
    (now : DateTime) (resource : String) (r : BreakGlassRequest)
    → IsBounded r
    → ((r.resource_id == resource) && is_live now r) ≡ true
    → IsEmergency now resource r
emergency now resource r b h = ground (arith, string_Eq.test_iff r.resource_id resource)

-- In an engine that calls have built, emergency access to a resource comes from a stored, activated
-- request for it that names two different approvers, and ends within 60 minutes of its creation.
pub is_break_glass_active_sound :
    (e : ApprovalEngine) (now : DateTime) (resource : String)
    → Reach new e
    → is_break_glass_active now resource e ≡ true
    → (r : BreakGlassRequest) × Memᴰ r (values e.break_glass_requests) × IsEmergency now resource r
unfolding is_break_glass_active
is_break_glass_active_sound e now resource path h =
    let (r, m, q) = find_of_any _ (values e.break_glass_requests) h in
    (r, m, emergency now resource r (All_at IsBounded (Reach-IsSound path).break_glass m) q)

module _ (id : Uuid) (now : DateTime) (f : BreakGlassForm) (e : ApprovalEngine) where
  created :
      f.first_approver_id ≢ f.second_approver_id
      → get id (create_break_glass_request id now f e).0.break_glass_requests
        ≡ some (new_break_glass id now f)
  unfolding create_break_glass_request store_break_glass open_break_glass
  created differ = ground (
    arith,
    string_Eq.test_iff f.first_approver_id f.second_approver_id,
    get-insert_self id (new_break_glass id now f) e.break_glass_requests,
  )

  -- One confirmation, by the second approver, is enough: right after the request is created, and
  -- with no call by the first approver, it opens the emergency access. Nothing is asked of who the
  -- requestor is.
  pub break_glass_single_custody :
      (clock : Clock)
      → f.first_approver_id ≢ f.second_approver_id
      → clock 0 ≤ now + min f.duration_minutes 60 * minute
      → (let opened = (create_break_glass_request id now f e).0 in
          let confirmed = (confirm_break_glass_second clock id f.second_approver_id opened).0 in
          is_break_glass_active (clock 0) f.resource_id confirmed)
        ≡ true
  unfolding confirm_break_glass_second is_break_glass_active new_break_glass
  break_glass_single_custody clock differ timely =
      rw (created differ, with_break_glass)
        (any-insert _ id _ (create_break_glass_request id now f e).0.break_glass_requests activates)
    where
      activates :
          (((confirm_second clock f.second_approver_id (new_break_glass id now f)).0.resource_id
              == f.resource_id)
            && is_live
                (clock 0)
                (confirm_second clock f.second_approver_id (new_break_glass id now f)).0)
          ≡ true
      activates =
          rw (confirm_second_alone clock (new_break_glass id now f) refl timely)
            (ground (arith, string_Eq.test_iff f.resource_id f.resource_id))
