-- ===== src/Approval/Approvers.antt =====
-- crates/kms-approval/src/approver.rs: the registry of approvers; and the request of
-- crates/kms-approval/src/workflow.rs in the form of the API.
pub mod Listing
mod Tests
use gm_kms.Base.{
  ℕ, none, some, [], ◌∷◌, string_Eq, get, insert, String, HashMap, Option, push, Bool, List, ◌==◌,
  false, ◌&&◌,
}
use gm_kms.Approval.Types.{
  OperationType, ApprovalLevel, Role, can_approve_operation, default_required_level,
}

pub record Approver : Type 0 where
  pub id : String
  pub name : String
  pub email : String
  pub role : Role
  pub tenant_id : String
  pub active : Bool

pub record ApproverConfig : Type 0 where
  pub approvers : HashMap String Approver
  pub tenant_approvers : HashMap String (List String)

abbrev pub no_approvers : ApproverConfig
no_approvers = record { approvers = []; tenant_approvers = [] }

-- `unwrap_or_default()`, and the start of `entry().or_default()`
abbrev pub or_empty {ℓ} : {A : Type ℓ} → Option (List A) → List A
or_empty none = []
or_empty (some xs) = xs

unfoldable pub add_approver : Approver → ApproverConfig → ApproverConfig
unfolding get insert
add_approver a c = record {
  approvers = insert a.id a c.approvers;
  tenant_approvers =
      insert a.tenant_id (push (or_empty (get a.tenant_id c.tenant_approvers)) a.id)
        c.tenant_approvers;
}

-- `filter_map` of a lookup
unfoldable pub look_up : HashMap String Approver → List String → List Approver
unfolding get
look_up m [] = []
look_up m (id ∷ ids) = elim (get id m) [ none ↦ look_up m ids | some a ↦ a ∷ look_up m ids ]

unfoldable pub list_for_tenant : String → ApproverConfig → List Approver
unfolding look_up get
list_for_tenant tenant c = look_up c.approvers (or_empty (get tenant c.tenant_approvers))

unfoldable pub can_approve : String → OperationType → ApproverConfig → Bool
unfolding get
can_approve id operation c = elim (get id c.approvers) [
  | none ↦ false
  | some a ↦ a.active && can_approve_operation a.role operation
]

pub record ApprovalRequest : Type 0 where
  pub operation : OperationType
  pub resource_id : String
  pub resource_type : String
  pub justification : Option String
  pub required_level : Option ApprovalLevel
  pub requestor_id : String

unfoldable pub get_required_level : ApprovalRequest → ApprovalLevel
get_required_level r = elim r.required_level [
  | none ↦ default_required_level r.operation
  | some l ↦ l
]

abbrev pub is_self_approval : String → ApprovalRequest → Bool
is_self_approval approver r = r.requestor_id == approver
