-- ===== src/Policy/Engine/Scope.antt =====
-- Tenants and new policies in the decisions of crates/kms-policy/src/engine.rs.
use mathlib.Core.List.{Memᴰ}
use gm_kms.Base.{
  refl, [], ◌∷◌, Option-cases, inl, inr, ℕ, nat_Eq, HashMap, get, Option, ◌≡◌, none, insert, Bool,
  some, any, true, values, arith, ◌||◌, List, ◌↔◌, all, not, count_if,
}
use gm_kms.Policy.Context.{AccessContext, with_tenant}
use gm_kms.Policy.Time.{Clocks}
use gm_kms.Policy.Engine.{
  PolicyEffect, Decision, Policy, PbacEngine, tenant_matches, applies, evaluate_locked,
  evaluate_if_configured, enabled_policy_count, add_policy,
}
use gm_kms.Policy.Engine.Decide.{denies, allows, breaks, evaluate_locked_lem, evaluate_locked_allow}

unscoped_applies :
    (ctx : AccessContext) (p : Policy)
    → ctx.tenant_id ≡ none
    → applies ctx p ≡ some true
    → p.tenant ≡ none
unfolding applies tenant_matches
unscoped_applies ctx p outside h = elim (Option-cases p.tenant) [
  | inl open_to_all ↦ open_to_all
  | inr (t, scoped) ↦ absurd (ground arith)
]

-- A request that carries no tenant, or an empty one, is allowed only by a policy without a tenant
-- constraint.
pub evaluate_locked_unscoped :
    (c : Clocks) (m : HashMap ℕ Policy) (ctx : AccessContext)
    → evaluate_locked c m (with_tenant [] ctx) ≡ some Decision.allow
    → (p : Policy) × Memᴰ p (values m) × (p.effect ≡ PolicyEffect.allow) × (p.tenant ≡ none)
unfolding with_tenant
evaluate_locked_unscoped c m ctx h =
    let (quiet, (p, there, on, effect, fits, holds)) =
      evaluate_locked_allow c m (with_tenant [] ctx) h in
    (p, there, effect, unscoped_applies (with_tenant [] ctx) p refl fits)

any-insert_fresh :
    (f : Policy → Bool) (k : ℕ) (p : Policy) (m : HashMap ℕ Policy)
    → get k m ≡ none
    → any f (values (insert k p m)) ≡ (any f (values m) || f p)
unfolding get insert
any-insert_fresh f k p [] h = ground arith
any-insert_fresh f k p ((j, q) ∷ m) h = ground (arith, any-insert_fresh f k p m)

-- A new deny policy turns no refusal into a permission: what is allowed with it was allowed before.
pub add_policy_deny :
    (saved : Option Bool) (p : Policy) (e : PbacEngine) (c : Clocks) (ctx : AccessContext)
    → p.effect ≡ PolicyEffect.deny
    → get p.id e.policies ≡ none
    → evaluate_locked c (add_policy saved p e).0.policies ctx ≡ some Decision.allow
    → evaluate_locked c e.policies ctx ≡ some Decision.allow
unfolding add_policy
add_policy_deny saved p e c ctx deny new h = ground (
  arith,
  any-insert_fresh (denies c ctx) p.id p e.policies new,
  any-insert_fresh (allows c ctx) p.id p e.policies new,
  any-insert_fresh (breaks ctx) p.id p e.policies new,
  evaluate_locked_lem c e.policies ctx,
  evaluate_locked_lem c (insert p.id p e.policies) ctx,
)

count_if-none :
    (ps : List Policy) → (all (λ p. not p.enabled) ps ≡ true) ↔ (count_if (λ p. p.enabled) ps ≡ 0)
count_if-none [] = (λ h. refl, λ h. refl)
count_if-none (p ∷ ps) =
    let rest = count_if-none ps in (λ h. ground (arith, rest), λ h. ground (arith, rest))

-- An engine has no opinion on a request exactly if none of its policies is enabled.
pub evaluate_if_configured_lem :
    (c : Clocks) (m : HashMap ℕ Policy) (ctx : AccessContext)
    → (evaluate_if_configured c m ctx ≡ some none) ↔ (enabled_policy_count m ≡ 0)
unfolding evaluate_if_configured enabled_policy_count
evaluate_if_configured_lem c m ctx =
    let none_on = count_if-none (values m) in
    (λ h. ground (arith, none_on), λ h. ground (arith, none_on))
