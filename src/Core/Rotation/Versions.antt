-- ===== src/Core/Rotation/Versions.antt =====
-- The lists of versions of crates/kms-core/src/secret_rotation.rs: trimming, and how many are active.
use gm_kms.Base.{
  none, some, [], ◌∷◌, zero, suc, inl, inr, refl, ℕ, ◌+◌, ◌≤◌, ◌<◌, ◌≡◌, List, Option, Bool, true,
  false, length, map, count_if, arith, ap, Option-cases, Bool-cases, nat_eq, sym, ltb, ◌∙◌, ltb→lt,
  if◌then◌else◌,
}
use gm_kms.Core.Rotation.{
  SecretVersion, deactivate, pop, trim_turns, trim, find_version, is_current, reactivate,
  is_expired,
}

-- the first of a list
abbrev pub take {ℓ} : {A : Type ℓ} → ℕ → List A → List A
take zero vs = []
take (suc n) [] = []
take (suc n) (v ∷ vs) = v ∷ take n vs

pub take-length {ℓ} : {A : Type ℓ} (n : ℕ) (vs : List A) → length vs ≤ n → take n vs ≡ vs
take-length zero [] h = refl
take-length zero (v ∷ vs) h = absurd (ground arith)
take-length (suc n) [] h = refl
take-length (suc n) (v ∷ vs) h = ap (λ ws. v ∷ ws) (take-length n vs (omega arith))

pub length-take {ℓ} : {A : Type ℓ} (n : ℕ) (vs : List A) → length (take n vs) ≤ n
length-take zero vs = omega arith
length-take (suc n) [] = omega arith
length-take (suc n) (v ∷ vs) = omega (arith, length-take n vs)

take_nil : (n : ℕ) → take {A = SecretVersion} n [] ≡ []
take_nil zero = refl
take_nil (suc n) = refl

length-pop : (v : SecretVersion) (vs : List SecretVersion) → length (pop (v ∷ vs)) ≡ length vs
length-pop v [] = refl
length-pop v (w ∷ vs) = omega (arith, length-pop w vs)

take-pop : (n : ℕ) (vs : List SecretVersion) → n < length vs → take n (pop vs) ≡ take n vs
take-pop zero vs h = refl
take-pop (suc n) [] h = absurd (ground arith)
take-pop (suc n) (v ∷ []) h = absurd (ground arith)
take-pop (suc n) (v ∷ w ∷ vs) h = ap (λ ws. v ∷ ws) (take-pop n (w ∷ vs) (omega arith))

not-ltb_zero : (n : ℕ) → ltb n 0 ≡ false
not-ltb_zero n = ground arith

trim_turns-take :
    (turns keep : ℕ) (vs : List SecretVersion)
    → length vs ≤ turns + keep
    → trim_turns turns keep vs ≡ take keep vs
unfolding trim_turns
trim_turns-take zero keep vs h = sym (take-length keep vs (ground arith))
trim_turns-take (suc turns) keep [] h = rw (not-ltb_zero keep) (sym (take_nil keep))
trim_turns-take (suc turns) keep (v ∷ vs) h = elim (Bool-cases (ltb keep (suc (length vs)))) [
  | inl more ↦ rw more (
      trim_turns-take turns keep (pop (v ∷ vs)) (ground (arith, length-pop v vs))
      ∙ take-pop keep (v ∷ vs) (ltb→lt _ _ more))
  | inr done ↦ rw done (sym (take-length keep (v ∷ vs) (ground arith)))
]

-- The loop that pops keeps the newest versions, as many as asked for.
pub trim-take : (keep : ℕ) (vs : List SecretVersion) → trim keep vs ≡ take keep vs
unfolding trim
trim-take keep vs = trim_turns-take (length vs) keep vs (omega arith)

abbrev pub count_active : List SecretVersion → ℕ
count_active vs = count_if (λ (v : SecretVersion). v.active) vs

pub count_active-map_deactivate : (vs : List SecretVersion) → count_active (map deactivate vs) ≡ 0
count_active-map_deactivate [] = refl
count_active-map_deactivate (v ∷ vs) = count_active-map_deactivate vs

pub count_active-take :
    (n : ℕ) (vs : List SecretVersion) → count_active (take n vs) ≤ count_active vs
count_active-take zero vs = omega arith
count_active-take (suc n) [] = omega arith
count_active-take (suc n) (v ∷ vs) = ground (arith, count_active-take n vs)

pub length-map {ℓ κ} :
    {A : Type ℓ} {B : Type κ} (f : A → B) (vs : List A) → length (map f vs) ≡ length vs
length-map f [] = refl
length-map f (v ∷ vs) = ap suc (length-map f vs)

-- none of the versions that were deactivated is found
pub find_version-inactive :
    (now : ℕ) (vs : List SecretVersion)
    → count_active vs ≡ 0
    → find_version (is_current now) vs ≡ none
find_version-inactive now [] h = refl
find_version-inactive now (v ∷ vs) h = ground (arith, find_version-inactive now vs)

-- the first of a version
abbrev pub has_version : ℕ → SecretVersion → Bool
has_version version v = nat_eq v.version version

-- what a rollback makes of the versions
abbrev pub Reactivated : ℕ → List SecretVersion → Option (List SecretVersion) → Type 0
Reactivated version vs none = find_version (has_version version) vs ≡ none
Reactivated version vs (some ws) =
    (count_active ws ≡ 1)
    × (length ws ≡ length vs)
    × (target : SecretVersion) × (find_version (has_version version) vs ≡ some target)
    × ((now : ℕ)
        → find_version (is_current now) ws
          ≡ (if is_expired now target then none else some (record target { active = true })))

pub reactivate-Reactivated :
    (version : ℕ) (vs : List SecretVersion) → Reactivated version vs (reactivate version vs)
unfolding reactivate
reactivate-Reactivated version [] = refl
reactivate-Reactivated version (v ∷ vs) = elim (Bool-cases (nat_eq v.version version)) [
  | inl here ↦
      rw (here, reactivate)
        (
          ap suc (count_active-map_deactivate vs),
          ap suc (length-map deactivate vs),
          v,
          rw here refl,
          λ now. ground (
            arith,
            find_version-inactive now (map deactivate vs) (count_active-map_deactivate vs),
          ),
        )
  | inr other ↦ elim (Option-cases (reactivate version vs)) [
    | inl missing ↦
        rw (other, reactivate, missing)
          (rw other (rw missing at (reactivate-Reactivated version vs)))
    | inr (ws, found) ↦
        let (one, same, target, first, active) = rw found at (reactivate-Reactivated version vs) in
        rw (other, reactivate, found) (one, ap suc same, target, rw other first, active)
  ]
]

-- one active version in front of inactive ones, trimmed
pub newest_found :
    (keep now : ℕ) (v : SecretVersion) (vs : List SecretVersion)
    → 1 ≤ keep
    → v.active ≡ true
    → count_active vs ≡ 0
    → find_version (is_current now) (take keep (v ∷ vs))
      ≡ (if is_expired now v then none else some v)
newest_found zero now v vs few active quiet = absurd (ground arith)
newest_found (suc n) now v vs few active quiet =
    ground (arith, find_version-inactive now (take n vs) (omega (arith, count_active-take n vs)))
