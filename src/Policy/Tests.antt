-- ===== src/Policy/Tests.antt =====
-- Runs of the policy engine (crates/kms-policy): two policies on the keys of a team, patterns and
-- times of day.
use mathlib.Core.Option
use gm_kms.Policy.Time.Cyclic.{since, evaluate_time_range_cyclic}
use gm_kms.Policy.Engine.Sorting.{verdict}
use mathlib.Core.List.{Memᴰ}
use gm_kms.Base.{
  ℕ, refl, ascii, [], ◌∷◌, nat_Eq, bytes_Eq, none, HashMap, Bytes, ◌≡◌, true, some, any, values,
  insert, false, if◌then◌else◌, leb,
}
use gm_kms.Policy.Json.{member, end, text, object}
use gm_kms.Policy.Context.{AccessContext, new_context, with_tenant}
use gm_kms.Policy.Time.{Clocks, parse_time, evaluate_time_range, minute_of_day, current_time}
use gm_kms.Policy.Glob.{glob_match}
use gm_kms.Policy.Glob.Sound.{Matches, glob_match_sound}
use gm_kms.Policy.Engine.{
  PolicyEffect, Decision, Policy, PbacEngine, add_policy, evaluate_locked, applies, holds,
}
use gm_kms.Policy.Engine.Decide.{denies, allows, breaks, evaluate_locked_lem, evaluate_locked_allow}

readers : Policy
readers = record {
  id = 1;
  name = ascii "readers";
  effect = PolicyEffect.allow;
  condition = object (member (ascii "operator") (text (ascii "always")) end);
  resources = ascii "team-*" ∷ [];
  subjects = ascii "*" ∷ [];
  tenant = none;
  enabled = true;
}

blocked : Policy
unfolding readers
blocked = record readers { id = 2; effect = PolicyEffect.deny; subjects = ascii "mallory" ∷ [] }

clocks : Clocks
clocks = record { trusted = none; system = 82800 }

policies : HashMap ℕ Policy
unfolding readers blocked
policies = (1, readers) ∷ (2, blocked) ∷ []

request : Bytes → AccessContext
unfolding new_context
request subject = new_context subject (ascii "sign") (ascii "team-key")

alice_allowed : evaluate_locked clocks policies (request (ascii "alice")) ≡ some Decision.allow
unfolding request policies clocks evaluate_locked glob_match
    gm_kms.Policy.Condition.evaluate_condition mathlib.Core.Option.bind
alice_allowed = refl

mallory_denied : evaluate_locked clocks policies (request (ascii "mallory")) ≡ some Decision.deny
unfolding request policies clocks evaluate_locked glob_match
    gm_kms.Policy.Condition.evaluate_condition mathlib.Core.Option.bind
mallory_denied = refl

evaluate_locked_lem_example : evaluate_locked clocks policies (request (ascii "alice")) ≡ (
    if any (breaks (request (ascii "alice"))) (values policies)
    then none
    else some (
        verdict
          (denies clocks (request (ascii "alice")))
          (allows clocks (request (ascii "alice")))
          (values policies)))
evaluate_locked_lem_example = evaluate_locked_lem clocks policies (request (ascii "alice"))

evaluate_locked_allow_example :
    (any (denies clocks (request (ascii "alice"))) (values policies) ≡ false)
    × ((p : Policy) × Memᴰ p (values policies)
        × (p.enabled ≡ true)
        × (p.effect ≡ PolicyEffect.allow)
        × (applies (request (ascii "alice")) p ≡ some true)
        × (holds clocks (request (ascii "alice")) p ≡ true))
evaluate_locked_allow_example =
    evaluate_locked_allow clocks policies (request (ascii "alice")) alice_allowed

outside_allowed :
    evaluate_locked clocks policies (with_tenant [] (request (ascii "alice"))) ≡ some Decision.allow
unfolding request policies clocks evaluate_locked with_tenant glob_match
    gm_kms.Policy.Condition.evaluate_condition mathlib.Core.Option.bind
outside_allowed = refl

one_policy : PbacEngine
unfolding readers
one_policy = record { policies = (1, readers) ∷ []; time_skew_alerts = [] }

still_allowed :
    evaluate_locked clocks
      (add_policy (some true) blocked one_policy).0.policies
      (request (ascii "alice"))
    ≡ some Decision.allow
unfolding request one_policy blocked clocks evaluate_locked add_policy insert glob_match
    gm_kms.Policy.Condition.evaluate_condition mathlib.Core.Option.bind
still_allowed = refl

middle_match : glob_match (ascii "key-*-x") (ascii "key-1-x") ≡ some true
unfolding glob_match
middle_match = refl

-- only the first occurrence of the last part is tried
middle_miss : glob_match (ascii "key-*-x") (ascii "key-1-x-x") ≡ some false
unfolding glob_match
middle_miss = refl

glob_match_sound_example : Matches (ascii "key-*-x") (ascii "key-1-x")
glob_match_sound_example = glob_match_sound (ascii "key-*-x") (ascii "key-1-x") middle_match

late : parse_time (ascii "22:00") ≡ some 1320
unfolding parse_time
late = refl

early : parse_time (ascii "06:00") ≡ some 360
unfolding parse_time
early = refl

evaluate_time_range_cyclic_example :
    evaluate_time_range clocks (ascii "22:00") (ascii "06:00")
    ≡ leb (since 1320 (minute_of_day (current_time clocks))) (since 1320 360)
evaluate_time_range_cyclic_example =
    evaluate_time_range_cyclic clocks (ascii "22:00") (ascii "06:00") late early

in_team : AccessContext
unfolding request with_tenant
in_team = with_tenant (ascii "team") (request (ascii "alice"))
