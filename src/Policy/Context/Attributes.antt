-- ===== src/Policy/Context/Attributes.antt =====
-- The attributes that a condition sees, by `to_policy_context` of crates/kms-policy/src/lib.rs.
use mathlib.Core.Option
use gm_kms.Base.{
  none, some, [], ◌∷◌, bytes_Eq, ascii, refl, ◌++◌, get, insert, get-insert, ◌∙◌, Bytes, ◌≡◌,
  HashMap, ◌==◌, false, Option, get-insert_self,
}
use gm_kms.Policy.Json.{Value, text, array, texts}
use gm_kms.Policy.Context.{
  AccessContext, PolicyContext, with_attr, insert_all, insert_tenant, to_policy_context,
}

-- a loop whose prefix does not fit leaves an attribute alone
insert_all-other :
    (prefix k : Bytes) (m : HashMap Bytes Value) (ctx : PolicyContext)
    → ((j : Bytes) → (prefix ++ j) == k ≡ false)
    → get k (insert_all prefix m ctx) ≡ get k ctx
unfolding insert_all
insert_all-other prefix k [] ctx h = refl
insert_all-other prefix k ((j, v) ∷ m) ctx h =
    insert_all-other prefix k m (insert (prefix ++ j) v ctx) h
    ∙ (get-insert (prefix ++ j) k v ctx ∙ rw (h j) refl)

-- the attributes before the loops, and after the tenant
abbrev attributes : AccessContext → Option Bytes → PolicyContext
attributes c tenant = insert (ascii "subject.roles") (array (texts c.subject_roles)) (
    insert_tenant tenant (
      insert (ascii "action") (text c.action) (
        insert (ascii "resource.type") (text c.resource_type) (
          insert (ascii "resource.id") (text c.resource_id) (
            insert (ascii "subject.type") (text c.subject_type)
              (insert (ascii "subject.id") (text c.subject_id) []))))))

attributes-tenant :
    (c : AccessContext) (tenant : Option Bytes)
    → get (ascii "tenant") (attributes c tenant) ≡ Option.map text tenant
unfolding get insert insert_tenant
attributes-tenant c none = refl
attributes-tenant c (some t) = refl

-- The tenant that a condition sees is the request's own, whatever attributes and environment the
-- caller adds.
pub tenant_attribute :
    (c : AccessContext) → get (ascii "tenant") (to_policy_context c) ≡ Option.map text c.tenant_id
unfolding to_policy_context
tenant_attribute c =
    insert_all-other (ascii "env.") (ascii "tenant") c.environment _ (λ j. refl)
    ∙ (insert_all-other (ascii "subject.") (ascii "tenant") c.subject_attrs _ (λ j. refl)
        ∙ attributes-tenant c c.tenant_id)

-- A subject attribute with the name id, the only one, takes the place of the subject's id in the
-- conditions.
pub subject_id_shadowed :
    (c : AccessContext) (v : Value)
    → c.subject_attrs ≡ []
    → get (ascii "subject.id") (to_policy_context (with_attr (ascii "id") v c)) ≡ some v
unfolding to_policy_context with_attr insert_all insert
subject_id_shadowed c v none_yet =
    insert_all-other (ascii "env.") (ascii "subject.id") c.environment _ (λ j. refl)
    ∙ rw none_yet (get-insert_self (ascii "subject.id") v (attributes c c.tenant_id))
