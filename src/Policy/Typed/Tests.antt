-- ===== src/Policy/Typed/Tests.antt =====
-- Runs of the typed policies (crates/kms-core/src/policy.rs).
use gm_kms.Base.{none, some, [], ◌∷◌, bytes_Eq, ascii, refl, Bytes, true, ◌≡◌, Option, Bool}
use gm_kms.Policy.Engine.{PolicyEffect}
use gm_kms.Policy.Context.{PolicyContext}
use gm_kms.Policy.Json.{text}
use gm_kms.Policy.Typed.{Condition, Conditions, nil, cons, and, Policy, glob_match}
use gm_kms.Policy.Typed.Glob.{glob_match_agrees}

-- no regular expression compiles
abbrev no_regex : Bytes → Option (Bytes → Bool)
no_regex pattern = none

context : PolicyContext
context = (ascii "role", text (ascii "admin")) ∷ []

abbrev admins : Conditions
admins = cons (Condition.eq (ascii "role") (ascii "admin")) nil

for_admins : Policy
for_admins = record {
  effect = PolicyEffect.allow;
  condition = and admins;
  resources = ascii "*" ∷ [];
  subjects = ascii "*" ∷ [];
  enabled = true;
}

suffix_match : glob_match (ascii "*-prod") (ascii "db-prod") ≡ true
unfolding glob_match
suffix_match = refl

glob_match_agrees_example :
    gm_kms.Policy.Glob.glob_match (ascii "key-*-x") (ascii "key-1-x")
    ≡ some (glob_match (ascii "key-*-x") (ascii "key-1-x"))
glob_match_agrees_example = glob_match_agrees (ascii "key-*-x") (ascii "key-1-x") refl
