-- ===== src/Policy/Condition.antt =====
-- crates/kms-policy/src/engine.rs: `evaluate_condition`. The source looks the operator up and then
-- calls itself on the arguments; here the verdicts on the elements of `args` and `value` are
-- computed with the object, and the operator takes the ones that it asks for.
use mathlib.Core.Option
use gm_kms.Base.{
  ℕ, Bool, true, false, ◌||◌, Option, none, some, List, [], ◌∷◌, any, all, ltb, Bytes, bytes_Eq,
  ascii, split, ◌==◌, if◌then◌else◌,
}
use gm_kms.Policy.Json.{
  ℤ, pos, negsuc, Value, boolean, object, array, Items, nil, item, Members, end, member, as_str,
  field,
}
use gm_kms.Policy.Context.{PolicyContext, get_str, get_i64}
use gm_kms.Policy.Time.{Clocks, evaluate_time_range}

abbrev pub or_else {ℓ} : {A : Type ℓ} → Option A → Option A → Option A
or_else none b = b
or_else (some a) b = some a

-- `ctx.get_str(attr) == Some(val)`, where both are there
abbrev pub attribute_is : PolicyContext → Option Bytes → Option Bytes → Bool
attribute_is ctx none v = false
attribute_is ctx (some attr) none = false
attribute_is ctx (some attr) (some v) = elim (get_str attr ctx) [ none ↦ false | some w ↦ w == v ]

abbrev pub any_text : Bytes → Items → Bool
any_text w nil = false
any_text w (item v xs) = elim (as_str v) [ none ↦ any_text w xs | some s ↦ s == w || any_text w xs ]

abbrev pub member_of : Option Bytes → Option Value → Bool
member_of (some w) (some (array xs)) = any_text w xs
member_of _ _ = false

abbrev pub all_of : Option (List Bool) → Bool
all_of none = false
all_of (some bs) = all (λ b. b) bs

abbrev pub any_of : Option (List Bool) → Bool
any_of none = false
any_of (some bs) = any (λ b. b) bs

abbrev pub in_time : Clocks → Option Bytes → Option Bytes → Bool
in_time c (some s) (some e) = evaluate_time_range c s e
in_time c _ _ = false

abbrev pub in_time_parts : Clocks → List Bytes → Bool
in_time_parts c (s ∷ e ∷ []) = evaluate_time_range c s e
in_time_parts c _ = false

-- a timestamp after the system clock's reading
abbrev pub after : ℕ → Option ℤ → Bool
after now none = false
after now (some (pos t)) = ltb now t
after now (some (negsuc t)) = false

-- the `match operator`
unfoldable pub by_operator : Clocks → PolicyContext → Members → Option (List Bool) → Bytes → Bool
by_operator c ctx m verdicts operator =
    let args = or_else (field (ascii "args") m) (field (ascii "value") m) in
    let attribute = Option.bind (field (ascii "attribute") m) as_str in
    let arg_text = Option.bind args as_str in
    if operator == ascii "always"
    then true
    else if operator == ascii "never"
    then false
    else if operator == ascii "eq" || operator == ascii "=="
    then attribute_is ctx attribute arg_text
    else if operator == ascii "in"
    then member_of (Option.bind attribute (λ a. get_str a ctx)) args
    else if operator == ascii "and"
    then all_of verdicts
    else if operator == ascii "or"
    then any_of verdicts
    else if operator == ascii "time_range"
    then in_time c (Option.bind (field (ascii "start") m) as_str)
        (Option.bind (field (ascii "end") m) as_str)
    else if operator == ascii "time_between"
    then elim arg_text [ none ↦ false | some s ↦ in_time_parts c (split b'-' s) ]
    else if operator == ascii "not_expired"
    then after c.system (Option.bind attribute (λ a. get_i64 a ctx))
    else false

unfoldable mutual
  unfolding by_operator

  pub evaluate_condition : Clocks → PolicyContext → Value → Bool
  evaluate_condition c ctx (boolean b) = b
  evaluate_condition c ctx (object m) = elim (Option.bind (field (ascii "operator") m) as_str) [
    | none ↦ false
    | some operator ↦
        by_operator c ctx m
          (Option.bind
            (or_else (verdicts c ctx (ascii "args") m) (verdicts c ctx (ascii "value") m)) (λ x. x))
          operator
  ]
  evaluate_condition c ctx _ = false

  -- the verdicts on the elements of the array under a key; the inner `none` is a value of another
  -- kind there
  pub verdicts : Clocks → PolicyContext → Bytes → Members → Option (Option (List Bool))
  verdicts c ctx k end = none
  verdicts c ctx k (member j v m) =
      let here = element_verdicts c ctx v in
      let later = verdicts c ctx k m in if j == k then some here else later

  pub element_verdicts : Clocks → PolicyContext → Value → Option (List Bool)
  element_verdicts c ctx (array xs) = some (verdict_list c ctx xs)
  element_verdicts c ctx _ = none

  pub verdict_list : Clocks → PolicyContext → Items → List Bool
  verdict_list c ctx nil = []
  verdict_list c ctx (item v xs) = evaluate_condition c ctx v ∷ verdict_list c ctx xs
