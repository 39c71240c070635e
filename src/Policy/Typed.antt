-- ===== src/Policy/Typed.antt =====
-- crates/kms-core/src/policy.rs: the typed conditions and policies, and their glob matching. The
-- compiler of regular expressions is a parameter; what it returns tests a text.
pub mod Glob
pub mod Logic
mod Tests
use mathlib.Core.Option
use gm_kms.Base.{
  ℕ, zero, suc, none, some, [], ◌∷◌, bytes_Eq, ascii, ◌-◌, ◌+◌, Bytes, Bool, Option, List, ltb,
  false, leb, get, if◌then◌else◌, ◌==◌, true, length, find, ◌||◌, ◌&&◌, drop, nat_eq, not,
  has_prefix, split, any,
}
use gm_kms.Policy.Json.{ℤ, pos, negsuc}
use gm_kms.Policy.Context.{PolicyContext, get_str, get_i64}
use gm_kms.Policy.Glob.{star, starts_with_star}
use gm_kms.Policy.Engine.{PolicyEffect}

mutual
  pub data Condition : Type 0 where
    eq neq : Bytes → Bytes → Condition
    gt gte lt lte : Bytes → ℤ → Condition
    contains starts_with ends_with matches : Bytes → Bytes → Condition
    is_in not_in : Bytes → List Bytes → Condition
    between outside : Bytes → Bytes → Bytes → Condition
    exists not_exists : Bytes → Condition
    and or : Conditions → Condition
    is_not : Condition → Condition

  pub data Conditions : Type 0 where
    nil : Conditions
    cons : Condition → Conditions → Conditions

-- `<` on `i64`, and on texts, byte by byte
abbrev pub int_lt : ℤ → ℤ → Bool
int_lt (pos m) (pos n) = ltb m n
int_lt (pos m) (negsuc n) = false
int_lt (negsuc m) (pos n) = true
int_lt (negsuc m) (negsuc n) = ltb n m

abbrev pub text_lt : Bytes → Bytes → Bool
text_lt [] [] = false
text_lt [] (d ∷ t) = true
text_lt (c ∷ s) [] = false
text_lt (c ∷ s) (d ∷ t) = ltb c d || (nat_eq c d && text_lt s t)

abbrev pub has_suffix : Bytes → Bytes → Bool
has_suffix p t = leb (length p) (length t) && (drop (length t - length p) t == p)

abbrev pub is_some {ℓ} : {A : Type ℓ} → Option A → Bool
is_some none = false
is_some (some a) = true

-- `map(p).unwrap_or(false)`
abbrev pub holds_of {ℓ} : {A : Type ℓ} → Option A → (A → Bool) → Bool
holds_of none p = false
holds_of (some a) p = p a

-- `ctx.get_str(attr) == Some(value)`
abbrev pub is_text : Option Bytes → Bytes → Bool
is_text none v = false
is_text (some s) v = s == v

module _ (regex : Bytes → Option (Bytes → Bool)) where
  unfoldable mutual
    unfolding get

    pub evaluate : PolicyContext → Condition → Bool
    evaluate ctx (eq attr v) = is_text (get_str attr ctx) v
    evaluate ctx (neq attr v) = not (is_text (get_str attr ctx) v)
    evaluate ctx (gt attr n) = holds_of (get_i64 attr ctx) (λ v. int_lt n v)
    evaluate ctx (gte attr n) = holds_of (get_i64 attr ctx) (λ v. not (int_lt v n))
    evaluate ctx (lt attr n) = holds_of (get_i64 attr ctx) (λ v. int_lt v n)
    evaluate ctx (lte attr n) = holds_of (get_i64 attr ctx) (λ v. not (int_lt n v))
    evaluate ctx (contains attr v) = holds_of (get_str attr ctx) (λ s. is_some (find v s))
    evaluate ctx (starts_with attr v) = holds_of (get_str attr ctx) (λ s. has_prefix v s)
    evaluate ctx (ends_with attr v) = holds_of (get_str attr ctx) (λ s. has_suffix v s)
    evaluate ctx (matches attr pattern) =
        holds_of (get_str attr ctx) (λ s. holds_of (regex pattern) (λ r. r s))
    evaluate ctx (is_in attr vs) = holds_of (get_str attr ctx) (λ s. any (λ v. v == s) vs)
    evaluate ctx (not_in attr vs) = holds_of (get_str attr ctx) (λ s. not (any (λ v. v == s) vs))
    evaluate ctx (between attr start end) =
        holds_of (get_str attr ctx) (λ s. not (text_lt s start) && not (text_lt end s))
    evaluate ctx (outside attr start end) =
        holds_of (get_str attr ctx) (λ s. text_lt s start || text_lt end s)
    evaluate ctx (exists attr) = is_some (get attr ctx)
    evaluate ctx (not_exists attr) = not (is_some (get attr ctx))
    evaluate ctx (and cs) = all_hold ctx cs
    evaluate ctx (or cs) = any_holds ctx cs
    evaluate ctx (is_not c) = not (evaluate ctx c)

    pub all_hold : PolicyContext → Conditions → Bool
    all_hold ctx nil = true
    all_hold ctx (cons c cs) = evaluate ctx c && all_hold ctx cs

    pub any_holds : PolicyContext → Conditions → Bool
    any_holds ctx nil = false
    any_holds ctx (cons c cs) = evaluate ctx c || any_holds ctx cs

-- The loop of `glob_match` over the parts from a position; `first` says that the part has to stand
-- at the start. `none` is `return false`.
unfoldable pub match_parts : Bool → List Bytes → Bytes → ℕ → Option ℕ
match_parts first [] text at_byte = some at_byte
match_parts first ([] ∷ parts) text at_byte = match_parts false parts text at_byte
match_parts first ((c ∷ part) ∷ parts) text at_byte = elim (find (c ∷ part) (drop at_byte text)) [
  | none ↦ none
  | some i ↦
      let rest = match_parts false parts text (at_byte + (i + length (c ∷ part))) in
      if first && not (nat_eq i 0) then none else rest
]

unfoldable pub at_end : Bytes → Bytes → Option ℕ → Bool
at_end pattern text none = false
at_end pattern text (some at_byte) =
    if gm_kms.Base.ends_with star pattern then true else nat_eq at_byte (length text)

unfoldable pub glob_match : Bytes → Bytes → Bool
unfolding match_parts at_end
glob_match pattern text =
    if pattern == (star ∷ [])
    then true
    else at_end pattern text
        (match_parts (not (starts_with_star pattern)) (split star pattern) text 0)

pub record Policy : Type 0 where
  pub effect : PolicyEffect
  pub condition : Condition
  pub resources : List Bytes
  pub subjects : List Bytes
  pub enabled : Bool

-- the test of one pattern against an attribute of the context
abbrev pub pattern_fits : PolicyContext → Bytes → Bytes → Bool
pattern_fits ctx attr pattern = holds_of (get_str attr ctx) (λ id. glob_match pattern id)

module _ (regex : Bytes → Option (Bytes → Bool)) where
  unfoldable pub policy_matches : PolicyContext → Policy → Bool
  unfolding glob_match
  policy_matches ctx p =
      if not p.enabled
      then false
      else if not (any (pattern_fits ctx (ascii "subject.id")) p.subjects)
      then false
      else any (pattern_fits ctx (ascii "resource.id")) p.resources
        && evaluate regex ctx p.condition
