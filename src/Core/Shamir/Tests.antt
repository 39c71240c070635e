-- ===== src/Core/Shamir/Tests.antt =====
-- Runs of the secret sharing of crates/kms-core/src/shamir.rs, in the field of eleven members and in the
-- field of the source.
use gm_kms.Base.{
  ℕ, zero, suc, [], ◌∷◌, ◌++◌, some, ◌<◌, ◌≡◌, ◌&&◌, ◌||◌, Bool, true, nat_eq, refl, Bytes,
  if◌then◌else◌, false, ok, filter, length, ◌*◌, ◌+◌, ◌%◌, ◌^◌, map, arith,
}
use mathlib.Core.Path.{subst}
use native.Mathlib.Decide.{dec_lt}
use gm_kms.Core.Shamir.{interpolate, mul_mod, inv_mod, field_prime, share_at, evaluate_polynomial}
use gm_kms.Core.Shamir.Field.{IsField}
use gm_kms.Core.Shamir.Recovery.{interpolate-evaluate_polynomial}
use gm_kms.Core.Shamir.Shares.{
  Shares, Commitment, split, reconstruct_with_metadata, generate_commitments_for_block,
}
use gm_kms.Core.Shamir.Commitments.{is_valid, verify_coefficients_against_commitments}
use gm_kms.Core.Shamir.Committed.{verify_coefficients-generated}
use gm_kms.Core.Shamir.Reconstruction.{recovered}
use gm_kms.Core.Shamir.RoundTrip.{reconstruct_with_metadata-split}

-- a test of the numbers below a bound
abbrev check_below : (ℕ → Bool) → ℕ → Bool
check_below p zero = true
check_below p (suc n) = p n && check_below p n

check_below_lem : (p : ℕ → Bool) (n : ℕ) → check_below p n ≡ true → (a : ℕ) → a < n → p a ≡ true
check_below_lem p zero h a below = absurd (omega arith)
check_below_lem p (suc n) h a below = elim (dec_lt a n) [
  | yes less ↦ check_below_lem p n (ground arith) a less
  | no more ↦ let last : n ≡ a = omega arith in subst (λ k. p k ≡ true) last (ground arith)
]

-- the code's inverse is one
abbrev inverts : ℕ → ℕ → Bool
inverts prime a = nat_eq a 0 || nat_eq (mul_mod prime a (inv_mod prime a)) 1

inverts_11 : check_below (inverts 11) 11 ≡ true
unfolding inv_mod
inverts_11 = refl

IsField-11 : IsField 11
IsField-11 a positive below =
    let h = check_below_lem (inverts 11) 11 inverts_11 a below in ground arith

interpolate-evaluate_polynomial_example :
    interpolate 11 (map (share_at 11 4 (7 ∷ 3 ∷ 5 ∷ [])) (1 ∷ 4 ∷ 2 ∷ [])) ≡ 7
interpolate-evaluate_polynomial_example =
    interpolate-evaluate_polynomial 10 (omega arith) (omega arith) IsField-11 4 7 (3 ∷ 5 ∷ [])
      (1 ∷ 4 ∷ 2 ∷ []) (omega arith) (omega arith, (omega arith, (omega arith, tt)))
      (
        (ground arith, (ground arith, (ground arith, tt))),
        ((ground arith, (ground arith, tt)), ((ground arith, tt), (tt, tt))),
      )

-- the field of the source
interpolate_run :
    interpolate field_prime
      (map (share_at field_prime 0 (115 ∷ 2305843009213693900 ∷ 77 ∷ [])) (5 ∷ 1 ∷ 3 ∷ []))
    ≡ 115
unfolding interpolate evaluate_polynomial
interpolate_run = refl

-- a secret of two blocks, with toys for the hash and its digits, shared among three for any two
abbrev secret : Bytes
secret = 0 ∷ 0 ∷ 0 ∷ 0 ∷ 0 ∷ 0 ∷ 9 ∷ 0 ∷ 0 ∷ 0 ∷ 0 ∷ 0 ∷ 0 ∷ []

abbrev itself : Bytes → Bytes
itself text = text

abbrev raw : ℕ → ℕ → ℕ
raw block i = 23 * block + 5

abbrev not_second : ℕ → Bool
not_second x = if nat_eq x 2 then false else true

reconstruct_with_metadata-split_example :
    (r : Shares) × (split 11 itself itself raw 2 3 (1 ∷ []) 1700 secret true ≡ ok r)
    × (let brought = filter (λ s. not_second s.x) r.shares in
        reconstruct_with_metadata 11 itself itself brought r.metadata
        ≡ recovered 11 itself itself secret (length brought % 2 ^ 32))
reconstruct_with_metadata-split_example =
    reconstruct_with_metadata-split 10 (omega arith) (omega arith) IsField-11 itself itself raw 2 3
      (omega arith) not_second (1 ∷ []) 1700 secret true (omega arith) (omega arith) (omega arith)
      (omega arith) (ground arith) (omega arith, (omega arith, tt))

abbrev of_another : Commitment
of_another = record { block_index = 4; index = 0; value = 77 }

verify_coefficients-generated_example :
    verify_coefficients_against_commitments 11 itself itself
      (7 ∷ 3 ∷ [])
      (of_another ∷ (generate_commitments_for_block 11 itself itself (7 ∷ 3 ∷ []) 2 0 ++ []))
      2
    ≡ some (is_valid 0)
verify_coefficients-generated_example =
    verify_coefficients-generated 11 itself itself 2 (7 ∷ 3 ∷ []) (of_another ∷ []) [] (omega arith)
      (refl, tt) tt
