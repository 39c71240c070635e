-- ===== src/Core/Shamir.antt =====
-- crates/kms-core/src/shamir.rs: secret sharing over a prime field. Values are u64; a product is taken in
-- u128. The draws of the coefficients, ids and instants are arguments.
pub mod Differences
pub mod Field
pub mod Fractions
pub mod Coefficients
pub mod Interpolation
pub mod Recovery
pub mod Shares
pub mod Commitments
pub mod Blocks
pub mod Committed
pub mod Points
pub mod Reconstruction
pub mod RoundTrip
mod Tests
use gm_kms.Base.{
  ℕ, zero, suc, none, some, [], ◌∷◌, ◌++◌, ◌+◌, ◌-◌, ◌*◌, ◌/◌, ◌%◌, ◌^◌, Bytes, Bool, Option, List,
  if◌then◌else◌, nat_eq, ltb, leb, length,
}

pub record Share : Type 0 where
  pub x : ℕ
  pub y : ℕ
  pub block_index : ℕ

abbrev pub field_prime : ℕ
field_prime = 2305843009213693951

-- the methods of a ShamirSecretSharing with this prime
module _ (prime : ℕ) where
  abbrev pub add_mod : ℕ → ℕ → ℕ
  add_mod a b = (a + b) % 2 ^ 64 % prime

  abbrev pub sub_mod : ℕ → ℕ → ℕ
  sub_mod a b = ((a + prime) % 2 ^ 64 + 2 ^ 64 - b) % 2 ^ 64 % prime

  abbrev pub mul_mod : ℕ → ℕ → ℕ
  mul_mod a b = a * b % prime

  -- the loop of `pow_mod`, which halves the exponent: a u64 is zero after 64 turns
  unfoldable pub pow_loop : ℕ → ℕ → ℕ → ℕ → ℕ
  pow_loop zero result base exp = result
  pow_loop (suc turns) result base exp =
      let next = if nat_eq (exp % 2) 1 then mul_mod result base else result in
      let rest = pow_loop turns next (mul_mod base base) (exp / 2) in
      if ltb 0 exp then rest else result

  unfoldable pub pow_mod : ℕ → ℕ → ℕ
  unfolding pow_loop
  pow_mod base exp = if nat_eq exp 0 then 1 else pow_loop 64 1 (base % prime) exp

  unfoldable pub inv_mod : ℕ → ℕ
  unfolding pow_mod
  inv_mod a = pow_mod a ((prime + 2 ^ 64 - 2) % 2 ^ 64)

  -- the loop of `evaluate_polynomial`: the result and the power of x so far
  unfoldable pub evaluate_from : ℕ → ℕ → ℕ → List ℕ → ℕ
  evaluate_from x result x_power [] = result
  evaluate_from x result x_power (c ∷ coefficients) =
      evaluate_from x (add_mod result (mul_mod c x_power)) (mul_mod x_power x) coefficients

  unfoldable pub evaluate_polynomial : List ℕ → ℕ → ℕ
  unfolding evaluate_from
  evaluate_polynomial coefficients x = evaluate_from x 0 1 coefficients

  -- the share of a block at x
  abbrev pub share_at : ℕ → List ℕ → ℕ → Share
  share_at block_index coefficients x = record {
    x = x;
    y = evaluate_polynomial coefficients x;
    block_index = block_index;
  }

  -- the inner loop of an interpolation, at index i of the shares: numerator and denominator
  unfoldable pub fraction : ℕ → ℕ → ℕ → List Share → ℕ × ℕ → ℕ × ℕ
  fraction xi i j [] acc = acc
  fraction xi i j (s ∷ rest) acc =
      fraction xi i (j + 1) rest
        (if nat_eq i j then acc else (mul_mod acc.0 s.x, mul_mod acc.1 (sub_mod s.x xi)))

  -- the outer loop, from index i on, over all the shares of the block
  unfoldable pub interpolate_from : List Share → ℕ → List Share → ℕ → ℕ
  unfolding fraction inv_mod
  interpolate_from block_shares i [] secret_value = secret_value
  interpolate_from block_shares i (s ∷ rest) secret_value =
      let f = fraction s.x i 0 block_shares (1, 1) in
      let lagrange_coeff = mul_mod f.0 (inv_mod f.1) in
      interpolate_from block_shares (i + 1) rest (add_mod secret_value (mul_mod s.y lagrange_coeff))

  unfoldable pub interpolate : List Share → ℕ
  unfolding interpolate_from
  interpolate block_shares = interpolate_from block_shares 0 block_shares 0
