-- ===== src/Policy/Typed/Logic.antt =====
-- The logic of the typed conditions and policies of crates/kms-core/src/policy.rs.
use gm_kms.Base.{
  none, [], ◌∷◌, inl, inr, bytes_Eq, ascii, refl, Bytes, List, Option, Bool, ◌≡◌, ◌⊎◌, any, not,
  false, arith,
}
use gm_kms.Policy.Context.{PolicyContext, get_str}
use gm_kms.Policy.Typed.{
  Conditions, nil, cons, is_not, and, or, evaluate, all_hold, any_holds, Policy, pattern_fits,
  policy_matches,
}

-- every condition of a list negated
abbrev pub negate_all : Conditions → Conditions
negate_all nil = nil
negate_all (cons c cs) = cons (is_not c) (negate_all cs)

any_fits-missing :
    (ctx : PolicyContext) (attr : Bytes) (patterns : List Bytes)
    → get_str attr ctx ≡ none
    → any (pattern_fits ctx attr) patterns ≡ false
any_fits-missing ctx attr [] missing = refl
any_fits-missing ctx attr (p ∷ patterns) missing =
    ground (arith, any_fits-missing ctx attr patterns missing)

module _ (regex : Bytes → Option (Bytes → Bool)) where
  not_all :
      (ctx : PolicyContext) (cs : Conditions)
      → not (all_hold regex ctx cs) ≡ any_holds regex ctx (negate_all cs)
  unfolding evaluate
  not_all ctx nil = refl
  not_all ctx (cons c cs) = ground (arith, not_all ctx cs)

  not_any :
      (ctx : PolicyContext) (cs : Conditions)
      → not (any_holds regex ctx cs) ≡ all_hold regex ctx (negate_all cs)
  unfolding evaluate
  not_any ctx nil = refl
  not_any ctx (cons c cs) = ground (arith, not_any ctx cs)

  -- A negated And is the Or of the negated conditions, and a negated Or is their And.
  pub evaluate_negated :
      (ctx : PolicyContext) (cs : Conditions)
      → (evaluate regex ctx (is_not (and cs)) ≡ evaluate regex ctx (or (negate_all cs)))
        × (evaluate regex ctx (is_not (or cs)) ≡ evaluate regex ctx (and (negate_all cs)))
  unfolding evaluate
  evaluate_negated ctx cs = (not_all ctx cs, not_any ctx cs)

  -- A policy matches no context that lacks the text of the subject's or of the resource's id.
  pub policy_matches_missing :
      (ctx : PolicyContext) (p : Policy)
      → (get_str (ascii "subject.id") ctx ≡ none) ⊎ (get_str (ascii "resource.id") ctx ≡ none)
      → policy_matches regex ctx p ≡ false
  unfolding policy_matches
  policy_matches_missing ctx p (inl missing) =
      ground (arith, any_fits-missing ctx (ascii "subject.id") p.subjects missing)
  policy_matches_missing ctx p (inr missing) =
      ground (arith, any_fits-missing ctx (ascii "resource.id") p.resources missing)
