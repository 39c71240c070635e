-- ===== src/Policy/Engine/Sorting.antt =====
-- The filter and the sort inside `evaluate_locked` of crates/kms-policy/src/engine.rs.
use Prim.Native.Nat.{Ordering}
use gm_kms.Base.{
  ◌≡◌, refl, Bool, true, false, not, ◌&&◌, ◌||◌, Option, none, some, List, [], ◌∷◌, any, filter,
  arith, if◌then◌else◌,
}
use gm_kms.Policy.Engine.{
  Decision, Policy, is_deny, filter?, deny_first, insert_by, sort_by, first_decision,
}

-- a test that passes, and one that panics
abbrev pub passes : Option Bool → Bool
passes (some true) = true
passes _ = false

abbrev pub panics : Option Bool → Bool
panics none = true
panics (some b) = false

pub filter?_lem {ℓ} :
    {A : Type ℓ} (p : A → Option Bool) (xs : List A)
    → filter? p xs
      ≡ (if any (λ x. panics (p x)) xs then none else some (filter (λ x. passes (p x)) xs))
unfolding filter?
filter?_lem p [] = refl
filter?_lem p (x ∷ xs) = ground (arith, filter?_lem p xs)

pub any-filter {ℓ} :
    {A : Type ℓ} (f g : A → Bool) (xs : List A) → any f (filter g xs) ≡ any (λ x. g x && f x) xs
any-filter f g [] = refl
any-filter f g (x ∷ xs) = ground (arith, any-filter f g xs)

any-insert_by {ℓ} :
    {A : Type ℓ} (f : A → Bool) (cmp : A → A → Ordering) (x : A) (ys : List A)
    → any f (insert_by cmp x ys) ≡ (f x || any f ys)
unfolding insert_by
any-insert_by f cmp x [] = refl
any-insert_by f cmp x (y ∷ ys) = ground (arith, any-insert_by f cmp x ys)

-- Sorting changes no answer of a search.
pub any-sort_by {ℓ} :
    {A : Type ℓ} (f : A → Bool) (cmp : A → A → Ordering) (xs : List A)
    → any f (sort_by cmp xs) ≡ any f xs
unfolding sort_by
any-sort_by f cmp [] = refl
any-sort_by f cmp (x ∷ xs) =
    ground (arith, any-insert_by f cmp x (sort_by cmp xs), any-sort_by f cmp xs)

-- Every deny stands before every allow.
abbrev pub IsDenyFirst : List Policy → Type 0
IsDenyFirst [] = Unit
IsDenyFirst (p ∷ ps) = ((is_deny p || not (any is_deny ps)) ≡ true) × IsDenyFirst ps

insert_by-IsDenyFirst :
    (p : Policy) (ps : List Policy) → IsDenyFirst ps → IsDenyFirst (insert_by deny_first p ps)
unfolding insert_by deny_first
insert_by-IsDenyFirst p [] h = ground arith
insert_by-IsDenyFirst p (q ∷ ps) h =
    ground (arith, insert_by-IsDenyFirst p ps h.1, any-insert_by is_deny deny_first p ps)

pub sort_by-IsDenyFirst : (ps : List Policy) → IsDenyFirst (sort_by deny_first ps)
unfolding sort_by
sort_by-IsDenyFirst [] = tt
sort_by-IsDenyFirst (p ∷ ps) =
    insert_by-IsDenyFirst p (sort_by deny_first ps) (sort_by-IsDenyFirst ps)

-- what a set of policies says, whatever their order
abbrev pub verdict : (Policy → Bool) → (Policy → Bool) → List Policy → Decision
verdict denies allows ps =
    if any denies ps then Decision.deny else if any allows ps then Decision.allow else Decision.deny

denies-le :
    (h : Policy → Bool) (ps : List Policy)
    → any is_deny ps ≡ false
    → any (λ p. h p && is_deny p) ps ≡ false
denies-le h [] q = refl
denies-le h (p ∷ ps) q = ground (arith, denies-le h ps)

pub first_decision_lem :
    (h : Policy → Bool) (ps : List Policy)
    → IsDenyFirst ps
    → first_decision h ps ≡ verdict (λ p. h p && is_deny p) (λ p. h p && not (is_deny p)) ps
unfolding first_decision
first_decision_lem h [] s = refl
first_decision_lem h (p ∷ ps) s = ground (arith, first_decision_lem h ps s.1, denies-le h ps)
