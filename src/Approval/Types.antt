-- ===== src/Approval/Types.antt =====
-- crates/kms-approval/src/workflow.rs and approver.rs: the enumerations, their order and
-- equality, and the levels that operations ask for and roles provide.
use gm_kms.Base.{ℕ, ◌≡◌, ◌↔◌, Bool, true, false, nat_eq, ltb, leb, PartialEq, arith, if◌then◌else◌}

pub data OperationType : Type 0 where
  key_delete key_export key_rotate policy_change high_value_key_create : OperationType
  audit_access mfa_change tenant_admin : OperationType

pub data ApprovalStatus : Type 0 where
  pending approved rejected cancelled expired emergency_activated emergency_expired : ApprovalStatus

pub data ApprovalLevel : Type 0 where
  none single double triple manager admin : ApprovalLevel

pub data BreakGlassStatus : Type 0 where
  pending_dual_approval activated expired cancelled : BreakGlassStatus

pub data Role : Type 0 where
  user operator manager admin security_officer : Role

-- The discriminants, by which the derived `PartialEq` and `Ord` compare.
abbrev pub operation_tag : OperationType → ℕ
operation_tag key_delete = 0
operation_tag key_export = 1
operation_tag key_rotate = 2
operation_tag policy_change = 3
operation_tag high_value_key_create = 4
operation_tag audit_access = 5
operation_tag mfa_change = 6
operation_tag tenant_admin = 7

abbrev pub operation_eq : OperationType → OperationType → Bool
operation_eq a b = nat_eq (operation_tag a) (operation_tag b)

pub operation_eq_iff : (a b : OperationType) → (operation_eq a b ≡ true) ↔ (a ≡ b)
operation_eq_iff a b = ground arith

instance abbrev pub operation_Eq : PartialEq OperationType
operation_Eq = record { test = operation_eq; test_iff = operation_eq_iff }

abbrev pub level : ApprovalLevel → ℕ
level none = 0
level single = 1
level double = 2
level triple = 3
level ApprovalLevel.manager = 4
level ApprovalLevel.admin = 5

abbrev pub level_lt : ApprovalLevel → ApprovalLevel → Bool
level_lt a b = ltb (level a) (level b)

abbrev pub level_eq : ApprovalLevel → ApprovalLevel → Bool
level_eq a b = nat_eq (level a) (level b)

-- `Ord::max` gives its second argument where the two are equal.
abbrev pub level_max : ApprovalLevel → ApprovalLevel → ApprovalLevel
level_max a b = if level_lt b a then a else b

abbrev pub is_terminal : ApprovalStatus → Bool
is_terminal approved = true
is_terminal rejected = true
is_terminal ApprovalStatus.cancelled = true
is_terminal ApprovalStatus.expired = true
is_terminal _ = false

abbrev pub is_pending : ApprovalStatus → Bool
is_pending pending = true
is_pending _ = false

abbrev pub is_approved_status : ApprovalStatus → Bool
is_approved_status approved = true
is_approved_status _ = false

abbrev pub is_pending_dual : BreakGlassStatus → Bool
is_pending_dual pending_dual_approval = true
is_pending_dual _ = false

abbrev pub is_activated : BreakGlassStatus → Bool
is_activated activated = true
is_activated _ = false

abbrev pub is_break_glass_expired : BreakGlassStatus → Bool
is_break_glass_expired BreakGlassStatus.expired = true
is_break_glass_expired _ = false

unfoldable pub default_required_level : OperationType → ApprovalLevel
default_required_level key_delete = double
default_required_level key_export = triple
default_required_level high_value_key_create = ApprovalLevel.manager
default_required_level key_rotate = double
default_required_level policy_change = double
default_required_level audit_access = single
default_required_level mfa_change = single
default_required_level tenant_admin = ApprovalLevel.admin

unfoldable pub is_sensitive : OperationType → Bool
is_sensitive key_delete = true
is_sensitive key_export = true
is_sensitive tenant_admin = true
is_sensitive _ = false

-- `Role::approval_level`, and the engine's own copy of it.
unfoldable pub approval_level : Role → ApprovalLevel
approval_level user = single
approval_level operator = double
approval_level Role.manager = triple
approval_level Role.admin = ApprovalLevel.admin
approval_level security_officer = ApprovalLevel.manager

unfoldable pub determine_approval_level : Role → ApprovalLevel
determine_approval_level user = single
determine_approval_level operator = double
determine_approval_level Role.manager = triple
determine_approval_level Role.admin = ApprovalLevel.admin
determine_approval_level security_officer = ApprovalLevel.manager

unfoldable pub can_approve_operation : Role → OperationType → Bool
unfolding approval_level default_required_level
can_approve_operation r o = leb (level (default_required_level o)) (level (approval_level r))
