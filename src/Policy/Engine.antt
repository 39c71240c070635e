-- ===== src/Policy/Engine.antt =====
-- crates/kms-policy/src/engine.rs: `PBACEngine`, its policy set and its decision. What an attached
-- repository answers is an argument of the call; a policy's key is its id, whose text is unique.
pub mod Sorting
pub mod Decide
pub mod Scope
pub mod Skew
use Prim.Native.Nat.{Ordering, ◌+◌}
use gm_kms.Base.{
  ℕ, Bool, true, false, not, ◌&&◌, Option, none, some, List, [], ◌∷◌, push, length, all, count_if,
  ltb, HashMap, insert, values, nat_Eq, ◌==◌, Bytes, Result, ok, err, if◌then◌else◌, ◌++◌, remove,
}
use gm_kms.Policy.Json.{ℤ, Value}
use gm_kms.Policy.Context.{AccessContext, to_policy_context}
use gm_kms.Policy.Condition.{evaluate_condition}
use gm_kms.Policy.Glob.{glob_match}
use gm_kms.Policy.Time.{Clocks, TimeSkewStatus, check_skew, skew_secs}

pub data PolicyEffect : Type 0 where
  allow deny : PolicyEffect

pub data Decision : Type 0 where
  allow deny : Decision

pub record Policy : Type 0 where
  pub id : ℕ
  pub name : Bytes
  pub effect : PolicyEffect
  pub condition : Value
  pub resources : List Bytes
  pub subjects : List Bytes
  pub tenant : Option Bytes
  pub enabled : Bool

abbrev pub is_deny : Policy → Bool
is_deny p = elim p.effect [ PolicyEffect.deny ↦ true | PolicyEffect.allow ↦ false ]

-- `iter().any` and `filter` with a closure that can panic
unfoldable pub any? {ℓ} : {A : Type ℓ} → (A → Option Bool) → List A → Option Bool
any? p [] = some false
any? p (x ∷ xs) = elim (p x) [
  | none ↦ none
  | some found ↦ elim found [ true ↦ some true | false ↦ any? p xs ]
]

abbrev keep_if {ℓ} : {A : Type ℓ} → Bool → A → Option (List A) → Option (List A)
keep_if b x none = none
keep_if b x (some xs) = some (if b then x ∷ xs else xs)

unfoldable pub filter? {ℓ} : {A : Type ℓ} → (A → Option Bool) → List A → Option (List A)
filter? p [] = some []
filter? p (x ∷ xs) = elim (p x) [ none ↦ none | some b ↦ keep_if b x (filter? p xs) ]

unfoldable pub tenant_matches : Policy → AccessContext → Option Bool
tenant_matches p ctx = elim p.tenant [
  | none ↦ some true
  | some pattern ↦ elim ctx.tenant_id [ none ↦ some false | some t ↦ glob_match pattern t ]
]

-- `a && b` of two tests that can panic
abbrev pub and? : Option Bool → Option Bool → Option Bool
and? none b = none
and? (some true) b = b
and? (some false) b = some false

unfoldable pub applies : AccessContext → Policy → Option Bool
unfolding any? tenant_matches
applies ctx p =
    if not p.enabled
    then some false
    else and? (any? (λ s. glob_match s ctx.subject_id) p.subjects)
        (and? (tenant_matches p ctx) (any? (λ r. glob_match r ctx.resource_id) p.resources))

-- the comparator of the sort
unfoldable pub deny_first : Policy → Policy → Ordering
deny_first a b =
    if is_deny a && not (is_deny b)
    then Ordering.lt
    else if not (is_deny a) && is_deny b
    then Ordering.gt
    else Ordering.eq

-- the stable `sort_by`
unfoldable pub insert_by {ℓ} : {A : Type ℓ} → (A → A → Ordering) → A → List A → List A
insert_by cmp x [] = x ∷ []
insert_by cmp x (y ∷ ys) = elim (cmp x y) [ Ordering.gt ↦ y ∷ insert_by cmp x ys | _ ↦ x ∷ y ∷ ys ]

unfoldable pub sort_by {ℓ} : {A : Type ℓ} → (A → A → Ordering) → List A → List A
unfolding insert_by
sort_by cmp [] = []
sort_by cmp (x ∷ xs) = insert_by cmp x (sort_by cmp xs)

abbrev pub decision_of : PolicyEffect → Decision
decision_of PolicyEffect.allow = Decision.allow
decision_of PolicyEffect.deny = Decision.deny

-- the loop over the matching policies
unfoldable pub first_decision : (Policy → Bool) → List Policy → Decision
first_decision holds [] = Decision.deny
first_decision holds (p ∷ ps) =
    let rest = first_decision holds ps in if holds p then decision_of p.effect else rest

abbrev pub holds : Clocks → AccessContext → Policy → Bool
holds c ctx p = evaluate_condition c (to_policy_context ctx) p.condition

-- `none` is a panic in a pattern
unfoldable pub evaluate_locked : Clocks → HashMap ℕ Policy → AccessContext → Option Decision
unfolding applies filter? sort_by deny_first first_decision
evaluate_locked c policies ctx = elim (filter? (applies ctx) (values policies)) [
  | none ↦ none
  | some matching ↦ some (first_decision (holds c ctx) (sort_by deny_first matching))
]

unfoldable pub evaluate_if_configured :
    Clocks → HashMap ℕ Policy → AccessContext → Option (Option Decision)
unfolding evaluate_locked
evaluate_if_configured c policies ctx =
    if all (λ p. not p.enabled) (values policies)
    then some none
    else elim (evaluate_locked c policies ctx) [ none ↦ none | some d ↦ some (some d) ]

unfoldable pub enabled_policy_count : HashMap ℕ Policy → ℕ
enabled_policy_count policies = count_if (λ p. p.enabled) (values policies)

pub record TimeSkewAlert : Type 0 where
  pub timestamp : ℕ
  pub skew_seconds : ℕ
  pub severity : TimeSkewStatus

pub record PbacEngine : Type 0 where
  pub policies : HashMap ℕ Policy
  pub time_skew_alerts : List TimeSkewAlert

pub data EngineError : Type 0 where
  persist_policy delete_policy no_repository load_policies : EngineError

abbrev pub failed : Option Bool → Bool
failed none = false
failed (some stored) = not stored

-- `saved` is what the repository answered: `none` with none attached, `some false` for an error
unfoldable pub add_policy :
    Option Bool → Policy → PbacEngine → PbacEngine × Result EngineError (Unit {0})
add_policy saved p e =
    if failed saved
    then (e, err persist_policy)
    else (record e { policies = insert p.id p e.policies }, ok tt)

unfoldable pub remove_policy :
    Option Bool → ℕ → PbacEngine → PbacEngine × Result EngineError (Unit {0})
unfolding remove
remove_policy deleted id e =
    if failed deleted
    then (e, err delete_policy)
    else (record e { policies = remove id e.policies }, ok tt)

unfoldable pub collect : List Policy → HashMap ℕ Policy → HashMap ℕ Policy
collect [] m = m
collect (p ∷ ps) m = collect ps (insert p.id p m)

unfoldable pub replace_all : List Policy → PbacEngine → PbacEngine
unfolding collect
replace_all ps e = record e { policies = collect ps [] }

-- The outer `none` is an engine with no repository, the inner one a store that cannot be read.
unfoldable pub load_from_repository :
    Option (Option (List Policy)) → PbacEngine → PbacEngine × Result EngineError ℕ
unfolding replace_all
load_from_repository none e = (e, err no_repository)
load_from_repository (some none) e = (e, err load_policies)
load_from_repository (some (some ps)) e = (replace_all ps e, ok (length ps))

abbrev pub drop_oldest : List TimeSkewAlert → List TimeSkewAlert
drop_oldest [] = []
drop_oldest (a ∷ alerts) = if ltb 100 (length (a ∷ alerts)) then alerts else a ∷ alerts

unfoldable pub log_alert : ℕ → TimeSkewStatus → PbacEngine → Option ℕ → PbacEngine
log_alert stamp status e none = e
log_alert stamp status e (some s) = record e {
  time_skew_alerts =
      drop_oldest (
        push e.time_skew_alerts
          (record { timestamp = stamp; skew_seconds = s; severity = status }));
}

-- `check_time_skew`, with the readings of the system clock, of the trusted source, which can fail,
-- and of the system clock again for the alert; the status stands for the alert's severity
unfoldable pub check_time_skew : ℕ → Option ℤ → ℕ → PbacEngine → PbacEngine × Option TimeSkewStatus
unfolding check_skew log_alert
check_time_skew system none stamp e = (e, none)
check_time_skew system (some trusted) stamp e =
    let status = check_skew system trusted in
    (log_alert stamp status e (skew_secs status), some status)
