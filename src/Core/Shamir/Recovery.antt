-- ===== src/Core/Shamir/Recovery.antt =====
-- crates/kms-core/src/shamir.rs: shares of a polynomial, as many as it has coefficients, give back its
-- constant coefficient.
use gm_kms.Base.{
  ℕ, suc, [], ◌∷◌, ◌+◌, ◌*◌, ◌%◌, ◌^◌, ◌<◌, ◌≤◌, ◌≡◌, ◌≢◌, List, All, All-imp, map, length, refl,
  arith, ap, sym, ◌∙◌,
}
use native.Mathlib.Nat.{mod-eq_of_lt}
use gm_kms.Core.Shamir.{fraction, interpolate_from, interpolate, share_at}
use gm_kms.Core.Shamir.Differences.{
  ◌~◌, diff, by_multiples, add_cong, mul_cong, product, IsInverse, IsDistinct, weight, difference,
  difference_ext, difference_scale, difference_value, value,
}
use gm_kms.Core.Shamir.Field.{IsField, inverse_lem}
use gm_kms.Core.Shamir.Fractions.{itself, AllBelow}
use gm_kms.Core.Shamir.Coefficients.{product_inverse}
use gm_kms.Core.Shamir.Interpolation.{v, summand, sum_lem}

-- no two of the numbers are equal
abbrev pub AllDistinct : List ℕ → Type 0
AllDistinct [] = Unit
AllDistinct (y ∷ ys) = All (λ x. y ≢ x) ys × AllDistinct ys

-- the index of the block has no part in its interpolation
module _ (prime block_index : ℕ) (cs : List ℕ) where
  fraction_block :
      (xi i j : ℕ) (xs : List ℕ) (acc : ℕ × ℕ)
      → fraction prime xi i j (map (share_at prime block_index cs) xs) acc
        ≡ fraction prime xi i j (map (share_at prime 0 cs) xs) acc
  unfolding fraction
  fraction_block xi i j [] acc = refl
  fraction_block xi i j (x ∷ xs) acc = fraction_block xi i (j + 1) xs _

  interpolate_from_block :
      (xs : List ℕ) (i : ℕ) (rest : List ℕ) (acc : ℕ)
      → interpolate_from prime
          (map (share_at prime block_index cs) xs)
          i
          (map (share_at prime block_index cs) rest)
          acc
        ≡ interpolate_from prime
            (map (share_at prime 0 cs) xs)
            i
            (map (share_at prime 0 cs) rest)
            acc
  unfolding interpolate_from
  interpolate_from_block xs i [] acc = refl
  interpolate_from_block xs i (x ∷ rest) acc =
      rw (interpolate_from, fraction_block x i 0 xs (1, 1))
        (interpolate_from_block xs (i + 1) rest _)

  interpolate_block :
      (xs : List ℕ)
      → interpolate prime (map (share_at prime block_index cs) xs)
        ≡ interpolate_from prime (map (share_at prime 0 cs) xs) 0 (map (share_at prime 0 cs) xs) 0
  unfolding interpolate
  interpolate_block xs = interpolate_from_block xs 0 xs 0

-- n is the prime less one
module _ (n : ℕ) (small : suc n < 2 ^ 63) (more : 1 < suc n) (field : IsField (suc n)) where
  inverses :
      (y : ℕ) (ys : List ℕ)
      → y < suc n
      → AllBelow n small ys
      → All (λ x. y ≢ x) ys
      → All
          (λ x. IsInverse n (v n small more field) y x × IsInverse n (v n small more field) x y)
          ys
  inverses y [] hy h d = tt
  inverses y (x ∷ ys) hy (hx, h) (d, ds) = (
    (
      inverse_lem n small y x field more hy hx d,
      inverse_lem n small x y field more hx hy (λ e. d (sym e)),
    ),
    inverses y ys hy h ds,
  )

  AllDistinct-IsDistinct :
      (ys : List ℕ) → AllBelow n small ys → AllDistinct ys → IsDistinct n (v n small more field) ys
  AllDistinct-IsDistinct [] h d = tt
  AllDistinct-IsDistinct (y ∷ ys) (hy, h) (d, ds) =
      (inverses y ys hy h d, AllDistinct-IsDistinct ys h ds)

  -- solving a * w + d ~ 0
  solved : (p w a d : ℕ) → (◌~◌) n (p * w) 1 → (◌~◌) n (a * w + d) 0 → (◌~◌) n (p * n * d) a
  solved p w a d unit vanishes =
      by_multiples n (p * n * d) (p * (n * (a * w + d)) + a * (p * w)) (p * a * w) 0 (omega arith)
      ∙ (add_cong n _ (p * (n * 0)) _ (a * 1)
            (mul_cong n p p _ (n * 0) refl (mul_cong n n n _ 0 refl vanishes))
            (mul_cong n a a _ 1 refl unit)
          ∙ by_multiples n (p * (n * 0) + a * 1) a 0 0 (omega arith))

  -- the product of the x has the product of the inverses of x - 0 as its inverse
  numerators :
      (xs : List ℕ)
      → All (λ x. IsInverse n (v n small more field) x 0) xs
      → (◌~◌) n (product n (itself n small) xs * weight n (v n small more field) 0 xs) 1
  numerators xs h = rw (sym (same xs)) (product_inverse n (v n small more field) 0 xs h)
    where
      same : (ys : List ℕ) → product n (λ y. diff n y 0) ys ≡ product n (itself n small) ys
      same [] = refl
      same (y ∷ ys) = rw (same ys) (ap (λ k. k * product n (itself n small) ys) (omega arith))

  gathered :
      (cs xs : List ℕ) (p : ℕ)
      → difference n (v n small more field) (λ x. summand n small more field cs p x * 1) xs
        ≡ p
          * n
          * difference n
              (v n small more field)
              (λ x. value n (v n small more field) cs x * v n small more field 0 x)
              xs
  gathered cs xs p =
      difference_ext n (v n small more field) _
        (λ x. p * n * (value n (v n small more field) cs x * v n small more field 0 x)) xs
        (λ x. turned (value n (v n small more field) cs x) (v n small more field 0 x))
      ∙ difference_scale n (v n small more field) (p * n) _ xs
    where
      turned : (g w : ℕ) → g * (p * (n * w)) * 1 ≡ p * n * (g * w)
      turned g w = omega arith

  -- Modulo a number between 2 and 2^63 where the code's inverse of a residue other than zero inverts it,
  -- the shares of a polynomial at distinct nonzero points below the modulus, at least as many as the
  -- polynomial has coefficients, interpolate at zero to its constant coefficient, whichever block they
  -- are of.
  pub interpolate-evaluate_polynomial :
      (block_index secret : ℕ) (coefficients xs : List ℕ)
      → suc (length coefficients) ≤ length xs
      → AllBelow n small xs
      → AllDistinct (0 ∷ xs)
      → interpolate (suc n) (map (share_at (suc n) block_index (secret ∷ coefficients)) xs)
        ≡ secret % suc n
  interpolate-evaluate_polynomial block_index secret coefficients xs enough below
        (nonzero, distinct) =
      let cs = secret ∷ coefficients in
      let zero_below : 0 < suc n = omega arith in
      let pairs = inverses 0 xs zero_below below nonzero in
      let p = product n (itself n small) xs in
      let apart = AllDistinct-IsDistinct xs below distinct in
      let (sum, small_sum) =
        sum_lem n small more field cs [] xs p 0 xs 0 refl refl (one_mul p) zero_below tt below
          (All-imp (λ x h. h.0) xs pairs) (nothing xs) apart in
      let vanishes =
        difference_value n (v n small more field) cs (0 ∷ xs) (omega arith) (pairs, apart) in
      interpolate_block (suc n) block_index cs xs
      ∙ (sym (mod-eq_of_lt small_sum)
          ∙ (sum
              ∙ (ap (λ k. k % suc n) (zero_add _ ∙ gathered cs xs p)
                  ∙ (solved p (weight n (v n small more field) 0 xs) _ _
                        (numerators xs (All-imp (λ x h. h.1) xs pairs)) vanishes
                      ∙ ap (λ k. k % suc n)
                          (constant (value n (v n small more field) coefficients 0))))))
    where
      zero_add : (k : ℕ) → 0 + k ≡ k
      zero_add k = omega arith

      one_mul : (k : ℕ) → 1 * k ≡ k
      one_mul k = omega arith

      constant : (k : ℕ) → secret + 0 * k ≡ secret
      constant k = omega arith

      nothing : (ys : List ℕ) → All (λ x. All (λ y. IsInverse n (v n small more field) y x) []) ys
      nothing [] = tt
      nothing (y ∷ ys) = (tt, nothing ys)
