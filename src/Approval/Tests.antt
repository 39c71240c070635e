-- ===== src/Approval/Tests.antt =====
-- Runs of the approval engine (crates/kms-approval): a dual approval, a break-glass request, and
-- the theorems at them.
use mathlib.Core.List.{Memᴰ}
use gm_kms.Base.{
  ◌⊎◌, ◌∷◌, [], ◌++◌, ℕ, ◌≡◌, refl, ◌+◌, ◌*◌, ◌≤◌, true, false, none, some, get, nat_Eq, values,
  insert, err, string_Eq,
}
use gm_kms.Approval.Types.{OperationType, approved, ApprovalLevel, double, operator}
use gm_kms.Approval.Request.{
  Clock, ApprovalRequestEntity, hour, record_approval, complete, check_approval_complete,
  approve_request, self_approval, timeout_hours,
}
use gm_kms.Approval.BreakGlass.{BreakGlassForm, BreakGlassRequest}
use gm_kms.Approval.Engine.{
  ApprovalEngine, RequestForm, new, new_request, create_request, approve, is_approved,
  create_break_glass_request, confirm_break_glass_second, is_break_glass_active, cleanup_expired,
}
use gm_kms.Approval.Engine.Invariant.{Step, Reach}
use gm_kms.Approval.Engine.Provenance.{WasRestored}
use gm_kms.Approval.Engine.Gate.{IsEndorsed, is_approved_sound}
use gm_kms.Approval.Engine.Lifecycle.{Holds, Reach-frozen}
use gm_kms.Approval.Engine.Emergency.{IsEmergency, is_break_glass_active_sound}

abbrev at : ℕ → Clock
at t n = t

abbrev export_form : RequestForm
export_form = record {
  operation = OperationType.key_delete;
  resource_id = "key-1";
  resource_type = "key";
  tenant_id = "t";
  requestor_id = "alice";
  justification = none;
  required_level = double;
}

opened : ApprovalEngine
unfolding new create_request insert timeout_hours
opened = (create_request 7 100 export_form new).0

half_way : ApprovalEngine
unfolding opened approve approve_request record_approval complete check_approval_complete get
half_way = (approve (at 200) 7 "bob" operator none opened).0

granted : ApprovalEngine
unfolding half_way
granted = (approve (at 300) 7 "carol" operator none half_way).0

granted_path : Reach new granted
unfolding granted
granted_path =
    Reach.next
      (Reach.next (Reach.next Reach.here (Step.create 7 100 export_form refl))
        (Step.approving (at 200) 7 "bob" operator none))
      (Step.approving (at 300) 7 "carol" operator none)

granted_open : is_approved 400 7 OperationType.key_delete "key-1" granted ≡ true
unfolding is_approved granted
granted_open = refl

half_way_shut : is_approved 400 7 OperationType.key_delete "key-1" half_way ≡ false
unfolding is_approved half_way
half_way_shut = refl

is_approved_sound_example :
    (r : ApprovalRequestEntity) × (get 7 granted.pending_requests ≡ some r)
    × ((r.operation ≡ OperationType.key_delete)
        × (r.resource_id ≡ "key-1")
        × (400 ≤ r.expires_at)
        × (IsEndorsed r ⊎ WasRestored 7 granted_path))
is_approved_sound_example =
    is_approved_sound granted 400 7 OperationType.key_delete "key-1" granted_path granted_open

-- the stored request when it is open, and after one vote
ticket : ApprovalRequestEntity
unfolding new_request timeout_hours
ticket = new_request 7 100 export_form

voted : ApprovalRequestEntity
unfolding ticket record_approval
voted = record_approval (at 200) "bob" double none ticket

high_value : ApprovalRequestEntity
unfolding ticket
high_value = record ticket { required_level = ApprovalLevel.manager }

-- Alice may not vote on her own request.
own_vote : (approve_request (at 200) "alice" double none ticket).1 ≡ err self_approval
unfolding ticket approve_request
own_vote = refl

finished : ApprovalRequestEntity
unfolding voted
finished = record voted {
  current_level = double;
  approvals =
      voted.approvals
      ++ record { approver_id = "carol"; level = double; approved_at = 300; comment = none } ∷ [];
  status = approved;
  completed_at = some 300;
}

granted-Holds : Holds 7 finished granted
unfolding granted finished
granted-Holds = refl

Reach-frozen_example : Holds 7 finished (cleanup_expired (100 + 100 * hour) granted).0
unfolding finished
Reach-frozen_example =
    Reach-frozen 7 finished refl {e = granted}
      (Reach.next Reach.here (Step.cleaning (100 + 100 * hour))) granted-Holds

-- Mallory names herself as the second approver of her own emergency request.
break_glass_form : BreakGlassForm
break_glass_form = record {
  operation = OperationType.key_export;
  resource_id = "key-1";
  resource_type = "key";
  tenant_id = "t";
  requestor_id = "mallory";
  emergency_reason = "outage";
  first_approver_id = "bob";
  second_approver_id = "mallory";
  duration_minutes = 90;
}

emergency_engine : ApprovalEngine
emergency_engine =
    (confirm_break_glass_second (at 500) 9 "mallory"
      (create_break_glass_request 9 100 break_glass_form new).0).0

emergency_path : Reach new emergency_engine
unfolding emergency_engine new get
emergency_path =
    Reach.next (Reach.next Reach.here (Step.create_break_glass 9 100 break_glass_form refl))
      (Step.confirming_second (at 500) 9 "mallory")

emergency_open : is_break_glass_active 500 "key-1" emergency_engine ≡ true
unfolding emergency_engine is_break_glass_active confirm_break_glass_second get
    create_break_glass_request gm_kms.Approval.BreakGlass.open_break_glass break_glass_form insert
    new gm_kms.Approval.BreakGlass.confirm_second
emergency_open = refl

is_break_glass_active_sound_example :
    (r : BreakGlassRequest) × Memᴰ r (values emergency_engine.break_glass_requests)
    × IsEmergency 500 "key-1" r
unfolding emergency_engine
is_break_glass_active_sound_example =
    is_break_glass_active_sound emergency_engine 500 "key-1" emergency_path emergency_open
