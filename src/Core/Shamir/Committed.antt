-- ===== src/Core/Shamir/Committed.antt =====
-- crates/kms-core/src/shamir.rs: coefficients are verified against the commitments generated for them.
use gm_kms.Base.{
  ℕ, some, [], ◌∷◌, ◌++◌, ◌+◌, ◌<◌, ◌≡◌, Bytes, false, List, All, nat_eq, length, arith, refl, ap,
  ◌∙◌, true,
}
use mathlib.Core.List.{append-nil}
use gm_kms.Core.Shamir.Shares.{Commitment, first_of, generate_commitments_for_block}
use gm_kms.Core.Shamir.Commitments.{
  of_block, is_valid, committed, verify_from, verify_coefficients_against_commitments,
}
use gm_kms.Core.Shamir.Blocks.{filter-append}

-- a commitment of another block
abbrev pub IsOther : ℕ → Commitment → Type 0
IsOther block_index c = nat_eq c.block_index block_index ≡ false

of_block-IsOther :
    (block_index : ℕ) (cs : List Commitment)
    → All (IsOther block_index) cs
    → of_block block_index cs ≡ []
of_block-IsOther block_index [] h = refl
of_block-IsOther block_index (c ∷ cs) (p, h) = rw p (of_block-IsOther block_index cs h)

module _ (prime : ℕ) (sha256 hex_encode : Bytes → Bytes) (block_index : ℕ) where
  abbrev generated : List ℕ → ℕ → List Commitment
  generated coefficients i =
      generate_commitments_for_block prime sha256 hex_encode coefficients block_index i

  of_block-generated :
      (coefficients : List ℕ) (i : ℕ)
      → of_block block_index (generated coefficients i) ≡ generated coefficients i
  of_block-generated [] i = refl
  of_block-generated (c ∷ coefficients) i =
      let same : nat_eq block_index block_index ≡ true = ground arith in
      rw same (
        ap (λ k. first_of 1 (generated (c ∷ coefficients) i) ++ k)
          (of_block-generated coefficients (i + 1)))

  verify_from-generated :
      (coefficients : List ℕ) (i : ℕ)
      → verify_from prime sha256 hex_encode block_index i coefficients (generated coefficients i)
        ≡ some (is_valid 0)
  unfolding verify_from
  verify_from-generated [] i = refl
  verify_from-generated (c ∷ coefficients) i =
      let v = committed prime sha256 hex_encode block_index i c in
      let same : nat_eq v v ≡ true = ground arith in
      rw same (verify_from-generated coefficients (i + 1))

  -- Any coefficients, at least one, are verified against commitments that contain, between those of other
  -- blocks, the ones generated for them.
  pub verify_coefficients-generated :
      (coefficients : List ℕ) (before after : List Commitment)
      → 0 < length coefficients
      → All (IsOther block_index) before
      → All (IsOther block_index) after
      → verify_coefficients_against_commitments prime sha256 hex_encode coefficients
          (before
            ++ (generate_commitments_for_block prime sha256 hex_encode coefficients block_index 0
                ++ after))
          block_index
        ≡ some (is_valid 0)
  unfolding verify_coefficients_against_commitments
  verify_coefficients-generated coefficients before after nonempty hb ha =
      let kept : of_block block_index (before ++ (generated coefficients 0 ++ after))
          ≡ generated coefficients 0 =
        filter-append _ before _
        ∙ (rw (of_block-IsOther block_index before hb) (
            filter-append _ (generated coefficients 0) after
            ∙ (rw (of_block-IsOther block_index after ha) (append-nil _)
                ∙ of_block-generated coefficients 0))) in
      let some_of : nat_eq (length (generated coefficients 0)) 0 ≡ false =
        positive coefficients nonempty in
      rw (kept, some_of) (verify_from-generated coefficients 0)
    where
      positive : (cs : List ℕ) → 0 < length cs → nat_eq (length (generated cs 0)) 0 ≡ false
      positive [] h = absurd (omega arith)
      positive (c ∷ cs) h = ground arith
