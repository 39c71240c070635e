-- ===== src/Approval/Approvers/Tests.antt =====
-- Runs of the registry of approvers (crates/kms-approval/src/approver.rs).
use gm_kms.Base.{some, string_Eq, get, refl, true, ◌≡◌}
use gm_kms.Approval.Types.{Role}
use gm_kms.Approval.Approvers.{Approver, ApproverConfig, no_approvers, add_approver}
use gm_kms.Approval.Approvers.Listing.{Built}

bob : Approver
bob = record {
  id = "bob";
  name = "Bob";
  email = "bob@t";
  role = Role.operator;
  tenant_id = "t";
  active = true;
}

moved : Approver
unfolding bob
moved = record bob { tenant_id = "u" }

registry : ApproverConfig
unfolding add_approver bob
registry = add_approver bob no_approvers

built : Built registry
unfolding registry
built = Built.adding bob Built.empty

found : get "bob" registry.approvers ≡ some bob
unfolding registry get
found = refl
