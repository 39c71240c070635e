-- ===== src/Core/Shamir/Points.antt =====
-- crates/kms-core/src/shamir.rs: the points of the shares, and the shares at some of them.
use gm_kms.Base.{
  ℕ, zero, suc, [], ◌∷◌, ◌+◌, ◌<◌, ◌≤◌, ◌≡◌, ◌≢◌, Bool, List, All, All-imp, length, arith, refl,
  map, filter, Bool-cases, inl, inr,
}
use gm_kms.Core.Shamir.{Share, share_at}
use gm_kms.Core.Shamir.Recovery.{AllDistinct}
use gm_kms.Core.Shamir.Shares.{range_from}

-- the points of a range
pub range_from-All :
    (first count : ℕ) → All (λ x. (first ≤ x) × (x < first + count)) (range_from first count)
range_from-All first zero = tt
range_from-All first (suc count) = (
  (omega arith, omega arith),
  All-imp (λ x h. (omega (arith, h.0), omega (arith, h.1))) (range_from (first + 1) count)
      (range_from-All (first + 1) count),
)

pub range_from-AllDistinct : (first count : ℕ) → AllDistinct (range_from first count)
range_from-AllDistinct first zero = tt
range_from-AllDistinct first (suc count) = (
  All-imp (λ x h e. absurd (omega (arith, h.0, e))) (range_from (first + 1) count)
      (range_from-All (first + 1) count),
  range_from-AllDistinct (first + 1) count,
)

pub length-range_from : (first count : ℕ) → length (range_from first count) ≡ count
length-range_from first zero = refl
length-range_from first (suc count) =
    let e = length-range_from (first + 1) count in omega (arith, e)

module _ (p : ℕ → Bool) where
  pub filter-All : (P : ℕ → Type 0) (xs : List ℕ) → All P xs → All P (filter p xs)
  filter-All P [] h = tt
  filter-All P (x ∷ xs) (here, h) = elim (Bool-cases (p x)) [
    | inl kept ↦ rw kept (here, filter-All P xs h)
    | inr left ↦ rw left (filter-All P xs h)
  ]

  pub filter-AllDistinct : (xs : List ℕ) → AllDistinct xs → AllDistinct (filter p xs)
  filter-AllDistinct [] h = tt
  filter-AllDistinct (x ∷ xs) (here, h) = elim (Bool-cases (p x)) [
    | inl kept ↦ rw kept (filter-All (λ y. x ≢ y) xs here, filter-AllDistinct xs h)
    | inr left ↦ rw left (filter-AllDistinct xs h)
  ]

  -- the shares at the chosen points of a block
  pub filter-map :
      (prime b : ℕ) (cs xs : List ℕ)
      → filter (λ (s : Share). p s.x) (map (share_at prime b cs) xs)
        ≡ map (share_at prime b cs) (filter p xs)
  filter-map prime b cs [] = refl
  filter-map prime b cs (x ∷ xs) = elim (Bool-cases (p x)) [
    | inl kept ↦ rw (kept, filter-map prime b cs xs) refl
    | inr left ↦ rw left (filter-map prime b cs xs)
  ]
