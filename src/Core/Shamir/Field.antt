-- ===== src/Core/Shamir/Field.antt =====
-- crates/kms-core/src/shamir.rs: the arithmetic of the field, against the arithmetic of numbers modulo
-- the prime.
use gm_kms.Base.{
  ℕ, suc, [], ◌∷◌, ◌+◌, ◌-◌, ◌*◌, ◌%◌, ◌^◌, ◌<◌, ◌≡◌, ◌≢◌, List, refl, arith, ap, sym, ◌∙◌,
}
use native.Mathlib.Nat.{mod-mod, mod-lt, mod-eq_of_lt, add-mod_right}
use native.Mathlib.Decide.{dec_lt}
use gm_kms.Core.Shamir.{add_mod, sub_mod, mul_mod, inv_mod, evaluate_from, evaluate_polynomial}
use gm_kms.Core.Shamir.Differences.{◌~◌, diff, by_multiples, add_cong, mul_cong, value, IsInverse}

-- What Fermat's little theorem says of the inverse that the code computes.
abbrev pub IsField : ℕ → Type 0
IsField prime = (a : ℕ) → 0 < a → a < prime → mul_mod prime a (inv_mod prime a) ≡ 1

-- n is the prime less one
module _ (n : ℕ) (small : suc n < 2 ^ 63) where
  pub reduced : (a : ℕ) → a % suc n < suc n
  reduced a = mod-lt a (omega arith)

  pub add_mod_lem : (a b : ℕ) → a < suc n → b < suc n → (◌~◌) n (add_mod (suc n) a b) (a + b)
  add_mod_lem a b ha hb = mod-mod _ (suc n) ∙ ap (λ k. k % suc n) no_wrap
    where
      no_wrap : (a + b) % 2 ^ 64 ≡ a + b
      no_wrap = omega arith

  pub mul_mod_lem : (a b : ℕ) → (◌~◌) n (mul_mod (suc n) a b) (a * b)
  mul_mod_lem a b = mod-mod (a * b) (suc n)

  difference_lem : (a b : ℕ) → a < suc n → b < suc n → sub_mod (suc n) a b ≡ (a + suc n - b) % suc n
  difference_lem a b ha hb = ap (λ k. k % suc n) no_wrap
    where
      no_wrap : ((a + suc n) % 2 ^ 64 + 2 ^ 64 - b) % 2 ^ 64 ≡ a + suc n - b
      no_wrap = omega arith

  pub sub_mod_lem : (a b : ℕ) → a < suc n → b < suc n → (◌~◌) n (sub_mod (suc n) a b) (diff n a b)
  sub_mod_lem a b ha hb =
      ap (λ k. k % suc n) (difference_lem a b ha hb)
      ∙ (mod-mod _ (suc n) ∙ by_multiples n (a + suc n - b) (diff n a b) b 1 (omega arith))

  pub sub_mod_positive : (a b : ℕ) → a < suc n → b < suc n → a ≢ b → 0 < sub_mod (suc n) a b
  sub_mod_positive a b ha hb differ = elim (dec_lt a b) [
    | yes less ↦
        let e = difference_lem a b ha hb in
        let q : (a + suc n - b) % suc n ≡ a + suc n - b = mod-eq_of_lt (omega arith) in
        omega (arith, e, q)
    | no more ↦
        let e = difference_lem a b ha hb in
        let q : (a - b + suc n) % suc n ≡ (a - b) % suc n = add-mod_right (a - b) (suc n) in
        let r : (a - b) % suc n ≡ a - b = mod-eq_of_lt (omega arith) in
        let t : a - b + suc n ≡ a + suc n - b = omega arith in
        let u : (a + suc n - b) % suc n ≡ a - b = rw t at (q ∙ r) in ground (arith, e, u, differ)
  ]

  -- the inverse of a difference
  abbrev pub inverse : ℕ → ℕ → ℕ
  inverse y x = inv_mod (suc n) (sub_mod (suc n) y x)

  pub inverse_lem :
      (a b : ℕ)
      → IsField (suc n)
      → 1 < suc n
      → a < suc n
      → b < suc n
      → a ≢ b
      → IsInverse n inverse a b
  inverse_lem a b field more ha hb differ =
      mul_cong n (diff n a b) (sub_mod (suc n) a b) (inverse a b) (inverse a b)
        (sym (sub_mod_lem a b ha hb)) refl
      ∙ (field (sub_mod (suc n) a b) (sub_mod_positive a b ha hb differ) (reduced _)
          ∙ sym (mod-eq_of_lt more))

  -- The loop adds the value of the rest of the polynomial.
  evaluate_from_lem :
      (x r power : ℕ) (cs : List ℕ)
      → r < suc n
      → ((◌~◌) n (evaluate_from (suc n) x r power cs) (r + power * value n inverse cs x))
        × (evaluate_from (suc n) x r power cs < suc n)
  unfolding evaluate_from
  evaluate_from_lem x r power [] h = (by_multiples n r (r + power * 0) 0 0 (omega arith), h)
  evaluate_from_lem x r power (c ∷ cs) h =
      let (rest, below) =
        evaluate_from_lem x (add_mod (suc n) r (mul_mod (suc n) c power)) (mul_mod (suc n) power x)
          cs (reduced _) in
      (
        rest
            ∙ (add_cong n _ (r + c * power) _ (power * x * value n inverse cs x)
                  (add_mod_lem r (mul_mod (suc n) c power) h (reduced _)
                    ∙ add_cong n r r _ (c * power) refl (mul_mod_lem c power))
                  (mul_cong n _ (power * x) (value n inverse cs x) (value n inverse cs x)
                    (mul_mod_lem power x) refl)
                ∙ ap (λ k. k % suc n) (gathered (value n inverse cs x))),
        below,
      )
    where
      gathered : (g : ℕ) → r + c * power + power * x * g ≡ r + power * (c + x * g)
      gathered g = omega arith

  pub evaluate_polynomial_lem :
      (cs : List ℕ) (x : ℕ)
      → ((◌~◌) n (evaluate_polynomial (suc n) cs x) (value n inverse cs x))
        × (evaluate_polynomial (suc n) cs x < suc n)
  unfolding evaluate_polynomial
  evaluate_polynomial_lem cs x =
      let (e, below) = evaluate_from_lem x 0 1 cs (omega arith) in
      (e ∙ ap (λ k. k % suc n) (units (value n inverse cs x)), below)
    where
      units : (g : ℕ) → 0 + 1 * g ≡ g
      units g = omega arith
