-- ===== src/Policy/Engine/Decide.antt =====
-- The decision of crates/kms-policy/src/engine.rs, without the order in which it is taken.
use mathlib.Core.List.{Memᴰ}
use gm_kms.Base.{
  ℕ, ◌≡◌, Bool, true, false, not, ◌&&◌, none, some, List, any, find_of_any, values, HashMap, filter,
  arith, if◌then◌else◌,
}
use gm_kms.Policy.Context.{AccessContext}
use gm_kms.Policy.Time.{Clocks}
use gm_kms.Policy.Engine.{
  PolicyEffect, Decision, Policy, is_deny, applies, deny_first, sort_by, holds, first_decision,
  evaluate_locked,
}
use gm_kms.Policy.Engine.Sorting.{
  passes, panics, filter?_lem, any-filter, any-sort_by, sort_by-IsDenyFirst, verdict,
  first_decision_lem,
}

-- the policy applies to the request, its condition holds, and it says so
abbrev pub denies : Clocks → AccessContext → Policy → Bool
denies c ctx p = passes (applies ctx p) && (holds c ctx p && is_deny p)

abbrev pub allows : Clocks → AccessContext → Policy → Bool
allows c ctx p = passes (applies ctx p) && (holds c ctx p && not (is_deny p))

abbrev pub breaks : AccessContext → Policy → Bool
breaks ctx p = panics (applies ctx p)

decided :
    (c : Clocks) (ctx : AccessContext) (ps : List Policy)
    → first_decision (holds c ctx) (sort_by deny_first (filter (λ p. passes (applies ctx p)) ps))
      ≡ verdict (denies c ctx) (allows c ctx) ps
decided c ctx ps =
    let chosen = filter (λ p. passes (applies ctx p)) ps in
    simp (
      first_decision_lem (holds c ctx) (sort_by deny_first chosen) (sort_by-IsDenyFirst chosen),
      any-sort_by,
      any-filter,
    )

-- The decision on a request: none if a pattern panics, else Deny if some applicable policy denies
-- it, else Allow if one allows it, else Deny. So it does not depend on the order of the policies.
pub evaluate_locked_lem :
    (c : Clocks) (m : HashMap ℕ Policy) (ctx : AccessContext)
    → evaluate_locked c m ctx ≡ (
        if any (breaks ctx) (values m)
        then none
        else some (verdict (denies c ctx) (allows c ctx) (values m)))
unfolding evaluate_locked
evaluate_locked_lem c m ctx =
    ground (arith, filter?_lem (applies ctx) (values m), decided c ctx (values m))

module _ (c : Clocks) (m : HashMap ℕ Policy) (ctx : AccessContext) where
  -- A request is allowed only by an enabled Allow policy of the set that applies to it and whose
  -- condition holds, and only if no applicable Deny policy's condition holds.
  pub evaluate_locked_allow :
      evaluate_locked c m ctx ≡ some Decision.allow
      → (any (denies c ctx) (values m) ≡ false)
        × ((p : Policy) × Memᴰ p (values m)
            × (p.enabled ≡ true)
            × (p.effect ≡ PolicyEffect.allow)
            × (applies ctx p ≡ some true)
            × (holds c ctx p ≡ true))
  unfolding applies
  evaluate_locked_allow h =
      let (p, there, q) =
        find_of_any (allows c ctx) (values m) (ground (arith, evaluate_locked_lem c m ctx)) in
      (
        ground (arith, evaluate_locked_lem c m ctx),
        (p, there, ground arith, ground arith, ground arith, ground arith),
      )
