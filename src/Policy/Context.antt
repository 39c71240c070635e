-- ===== src/Policy/Context.antt =====
-- crates/kms-policy/src/lib.rs: `AccessContext` and the attributes that it hands to the conditions,
-- and crates/kms-core/src/policy.rs: `PolicyContext`.
pub mod Attributes
use gm_kms.Base.{
  Option, none, some, List, [], ◌∷◌, ◌++◌, HashMap, get, insert, Bytes, bytes_Eq, ascii,
}
use mathlib.Core.Option
use gm_kms.Policy.Json.{ℤ, Value, text, array, as_str, as_i64, texts}

pub record AccessContext : Type 0 where
  pub subject_id : Bytes
  pub subject_type : Bytes
  pub subject_roles : List Bytes
  pub subject_attrs : HashMap Bytes Value
  pub resource_id : Bytes
  pub resource_type : Bytes
  pub action : Bytes
  pub tenant_id : Option Bytes
  pub environment : HashMap Bytes Value

unfoldable pub new_context : Bytes → Bytes → Bytes → AccessContext
new_context subject action resource = record {
  subject_id = subject;
  subject_type = ascii "user";
  subject_roles = [];
  subject_attrs = [];
  resource_id = resource;
  resource_type = ascii "key";
  action = action;
  tenant_id = none;
  environment = [];
}

-- an empty tenant is no tenant
unfoldable pub with_tenant : Bytes → AccessContext → AccessContext
with_tenant [] c = record c { tenant_id = none }
with_tenant (b ∷ tenant) c = record c { tenant_id = some (b ∷ tenant) }

unfoldable pub with_subject_type : Bytes → AccessContext → AccessContext
with_subject_type t c = record c { subject_type = t }

unfoldable pub with_roles : List Bytes → AccessContext → AccessContext
with_roles roles c = record c { subject_roles = roles }

unfoldable pub with_resource_type : Bytes → AccessContext → AccessContext
with_resource_type t c = record c { resource_type = t }

unfoldable pub with_env : Bytes → Value → AccessContext → AccessContext
with_env k v c = record c { environment = insert k v c.environment }

unfoldable pub with_attr : Bytes → Value → AccessContext → AccessContext
with_attr k v c = record c { subject_attrs = insert k v c.subject_attrs }

abbrev pub PolicyContext : Type 0
PolicyContext = HashMap Bytes Value

unfoldable pub get_str : Bytes → PolicyContext → Option Bytes
get_str k ctx = Option.bind (get k ctx) as_str

unfoldable pub get_i64 : Bytes → PolicyContext → Option ℤ
get_i64 k ctx = Option.bind (get k ctx) as_i64

-- `for (k, v) in … { insert(format!("{prefix}{k}"), v) }`
unfoldable pub insert_all : Bytes → HashMap Bytes Value → PolicyContext → PolicyContext
insert_all prefix [] ctx = ctx
insert_all prefix ((k, v) ∷ m) ctx = insert_all prefix m (insert (prefix ++ k) v ctx)

unfoldable pub insert_tenant : Option Bytes → PolicyContext → PolicyContext
insert_tenant none ctx = ctx
insert_tenant (some t) ctx = insert (ascii "tenant") (text t) ctx

unfoldable pub to_policy_context : AccessContext → PolicyContext
unfolding insert_all insert_tenant
to_policy_context c =
    let ctx1 = insert (ascii "subject.id") (text c.subject_id) [] in
    let ctx2 = insert (ascii "subject.type") (text c.subject_type) ctx1 in
    let ctx3 = insert (ascii "resource.id") (text c.resource_id) ctx2 in
    let ctx4 = insert (ascii "resource.type") (text c.resource_type) ctx3 in
    let ctx5 = insert (ascii "action") (text c.action) ctx4 in
    let ctx6 = insert_tenant c.tenant_id ctx5 in
    let ctx7 = insert (ascii "subject.roles") (array (texts c.subject_roles)) ctx6 in
    insert_all (ascii "env.") c.environment (insert_all (ascii "subject.") c.subject_attrs ctx7)
