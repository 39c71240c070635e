-- ===== src/Core/Shamir/Coefficients.antt =====
-- crates/kms-core/src/shamir.rs: the Lagrange coefficients of an interpolation are products of inverses.
use gm_kms.Base.{
  ℕ, suc, [], ◌∷◌, ◌++◌, ◌*◌, ◌%◌, ◌^◌, ◌<◌, ◌≡◌, List, All, map, length, refl, arith, ap, sym, ◌∙◌,
}
use native.Mathlib.Nat.{mod-eq_of_lt}
use native.Mathlib.Decide.{dec_lt}
use gm_kms.Core.Shamir.{mul_mod, inv_mod, fraction, share_at}
use gm_kms.Core.Shamir.Differences.{◌~◌, diff, by_multiples, mul_cong, product, IsInverse, weight}
use gm_kms.Core.Shamir.Field.{IsField, mul_mod_lem, inverse}
use gm_kms.Core.Shamir.Fractions.{itself, AllBelow, fraction_lem}

-- n is the prime less one
module _ (n : ℕ) where
  pub product_inverse :
      (v : ℕ → ℕ → ℕ) (x : ℕ) (ys : List ℕ)
      → All (λ y. IsInverse n v y x) ys
      → (◌~◌) n (product n (λ y. diff n y x) ys * weight n v x ys) 1
  product_inverse v x [] h = by_multiples n (1 * 1) 1 0 0 (omega arith)
  product_inverse v x (y ∷ ys) (p, h) =
      ap (λ k. k % suc n)
        (paired (diff n y x) (product n (λ y. diff n y x) ys) (v y x) (weight n v x ys))
      ∙ (mul_cong n _ 1 _ 1 p (product_inverse v x ys h)
          ∙ by_multiples n (1 * 1) 1 0 0 (omega arith))
    where
      paired : (a b c d : ℕ) → a * b * (c * d) ≡ a * c * (b * d)
      paired a b c d = omega arith

  -- the product of two products with their inverses
  pub product_inverse_both :
      (a b u w : ℕ) → (◌~◌) n (a * u) 1 → (◌~◌) n (b * w) 1 → (◌~◌) n (a * b * (u * w)) 1
  product_inverse_both a b u w p q =
      ap (λ k. k % suc n) paired
      ∙ (mul_cong n (a * u) 1 (b * w) 1 p q ∙ by_multiples n (1 * 1) 1 0 0 (omega arith))
    where
      paired : a * b * (u * w) ≡ a * u * (b * w)
      paired = omega arith

  module _ (small : suc n < 2 ^ 63) (more : 1 < suc n) (field : IsField (suc n)) where
    invertible_positive : (d w : ℕ) → (◌~◌) n (d * w) 1 → 0 < d
    invertible_positive d w h = elim (dec_lt 0 d) [
      | yes p ↦ p
      | no p ↦
          let none : d * w ≡ 0 = ground arith in
          let e : 1 % suc n ≡ 1 = mod-eq_of_lt more in
          let z : 0 % suc n ≡ 0 = mod-eq_of_lt (omega arith) in
          absurd (ground (arith, h, none, e, z))
    ]

    -- an inverse of a residue is the one that the code computes
    inv_mod_unique :
        (d e w : ℕ) → d < suc n → (◌~◌) n d e → (◌~◌) n (e * w) 1 → (◌~◌) n (inv_mod (suc n) d) w
    inv_mod_unique d e w below same h =
        let known : (◌~◌) n (d * w) 1 = mul_cong n d e w w same refl ∙ h in
        let own = field d (invertible_positive d w known) below in
        let unit : (◌~◌) n (d * inv_mod (suc n) d) 1 =
          sym (mul_mod_lem n small d (inv_mod (suc n) d)) ∙ ap (λ k. k % suc n) own in
        ap (λ k. k % suc n) (times_one (inv_mod (suc n) d))
        ∙ (mul_cong n _ _ 1 (d * w) refl (sym known)
            ∙ (ap (λ k. k % suc n) (turned (inv_mod (suc n) d))
                ∙ (mul_cong n _ 1 w w unit refl ∙ by_multiples n (1 * w) w 0 0 (omega arith))))
      where
        times_one : (i : ℕ) → i ≡ i * 1
        times_one i = omega arith

        turned : (i : ℕ) → i * (d * w) ≡ d * i * w
        turned i = omega arith

    -- the coefficient of x among the shares before and after it
    pub coefficient_lem :
        (cs : List ℕ) (x : ℕ) (pre post : List ℕ)
        → x < suc n
        → AllBelow n small pre
        → AllBelow n small post
        → All (λ y. IsInverse n (inverse n small) y x) pre
        → All (λ y. IsInverse n (inverse n small) y x) post
        → let v = inverse n small in
          let f =
            fraction
              (suc n)
              x
              (length pre)
              0
              (map (share_at (suc n) 0 cs) (pre ++ x ∷ post))
              (1, 1) in
          (◌~◌) n (mul_mod (suc n) f.0 (inv_mod (suc n) f.1)) (
            product n (itself n small) pre
            * product n (itself n small) post
            * (weight n v x pre * weight n v x post))
    coefficient_lem cs x pre post hx hpre hpost ipre ipost =
        let v = inverse n small in
        let (p, q, below) = fraction_lem n small cs x pre post hx more hpre hpost in
        mul_mod_lem n small _ _
        ∙ mul_cong n _ _ _ (weight n v x pre * weight n v x post) p (
            inv_mod_unique _ _ _ below q (
              product_inverse_both _ _ (weight n v x pre) (weight n v x post)
                (product_inverse v x pre ipre) (product_inverse v x post ipost)))
