-- ===== src/Approval/Approvers/Listing.antt =====
-- Who is listed for a tenant by the registry of crates/kms-approval/src/approver.rs.
use mathlib.Core.Option.{some-injective}
use gm_kms.Base.{
  some, [], ◌∷◌, string_Eq, get, insert, inl, inr, ◌==◌, ◌≡◌, ◌||◌, String, HashMap, ◌&&◌, Bool,
  List, true, any, arith, Bool-cases, get-insert, ap, push, ==_refl, any-push, get-insert_self,
}
use gm_kms.Approval.Approvers.{
  Approver, ApproverConfig, no_approvers, or_empty, add_approver, look_up, list_for_tenant,
}

abbrev pub names_id : String → Approver → Bool
names_id id a = a.id == id

-- the id is in the tenant's list of ids
abbrev is_enlisted : String → String → ApproverConfig → Bool
is_enlisted tenant id c = any (λ j. j == id) (or_empty (get tenant c.tenant_approvers))

-- an id in the list that has an approver gives that approver
look_up_lem :
    (p : Approver → Bool) (m : HashMap String Approver) (ids : List String) (id : String)
    {a : Approver}
    → get id m ≡ some a
    → p a ≡ true
    → any (λ j. j == id) ids ≡ true
    → any p (look_up m ids) ≡ true
unfolding look_up
look_up_lem p m [] id found fits h = absurd (ground arith)
look_up_lem p m (j ∷ ids) id {a} found fits h = elim (Bool-cases (j == id)) [
  | inl same ↦ ground (arith, ap (λ k. get k m) ((string_Eq.test_iff j id).0 same))
  | inr other ↦ ground (arith, look_up_lem p m ids id found fits)
]

enlisted-add_approver :
    (a : Approver) (c : ApproverConfig) (tenant id : String)
    → is_enlisted tenant id (add_approver a c)
      ≡ (is_enlisted tenant id c || (a.tenant_id == tenant && a.id == id))
unfolding add_approver
enlisted-add_approver a c tenant id = ground (
  arith,
  get-insert a.tenant_id tenant (push (or_empty (get a.tenant_id c.tenant_approvers)) a.id)
      c.tenant_approvers,
  any-push (λ j. j == id) (or_empty (get a.tenant_id c.tenant_approvers)) a.id,
  string_Eq.test_iff a.tenant_id tenant,
)

-- the registries that additions build
pub data Built : ApproverConfig → Type 0 where
  empty : Built no_approvers
  adding : {c : ApproverConfig} (a : Approver) → Built c → Built (add_approver a c)

enlisted :
    {c : ApproverConfig} (id : String) {a : Approver}
    → Built c
    → get id c.approvers ≡ some a
    → is_enlisted a.tenant_id id c ≡ true
unfolding get add_approver
enlisted id empty found = absurd (ground arith)
enlisted id {a} (adding {c} b built) found = elim (Bool-cases (b.id == id)) [
  | inl same ↦
      let b_a : b ≡ a = some-injective b a (ground (arith, get-insert b.id id b c.approvers)) in
      ground (
        arith,
        enlisted-add_approver b c a.tenant_id id,
        ap (λ x. b.tenant_id == x.tenant_id) b_a,
        ==_refl b.tenant_id,
      )
  | inr other ↦
      let old : get id c.approvers ≡ some a = ground (arith, get-insert b.id id b c.approvers) in
      ground (arith, enlisted-add_approver b c a.tenant_id id, enlisted id built old)
]

-- In a registry that additions build, every approver is listed for the own tenant.
pub list_for_tenant_complete :
    (c : ApproverConfig) (id : String) {a : Approver}
    → Built c
    → get id c.approvers ≡ some a
    → any (names_id a.id) (list_for_tenant a.tenant_id c) ≡ true
unfolding list_for_tenant
list_for_tenant_complete c id {a} built found =
    look_up_lem (names_id a.id) c.approvers (or_empty (get a.tenant_id c.tenant_approvers)) id found
      (==_refl a.id) (enlisted id built found)

-- An approver that is added again, under another tenant, is still listed for the first tenant, as
-- an approver of the other.
pub add_approver_moved :
    (a b : Approver) (c : ApproverConfig)
    → a.id ≡ b.id
    → any
        (λ x. x.id == b.id && x.tenant_id == b.tenant_id)
        (list_for_tenant a.tenant_id (add_approver b (add_approver a c)))
      ≡ true
unfolding list_for_tenant add_approver
add_approver_moved a b c same_id =
    look_up_lem (λ x. x.id == b.id && x.tenant_id == b.tenant_id)
      (insert b.id b (insert a.id a c.approvers)) _ b.id
      (get-insert_self b.id b (insert a.id a c.approvers))
      (ground (arith, ==_refl b.id, ==_refl b.tenant_id))
      (ground (
        arith,
        enlisted-add_approver b (add_approver a c) a.tenant_id b.id,
        enlisted-add_approver a c a.tenant_id b.id,
        ==_refl a.tenant_id,
        (string_Eq.test_iff a.id b.id).1 same_id,
      ))
