-- ===== src/Core/Shamir/Reconstruction.antt =====
-- crates/kms-core/src/shamir.rs: a reconstruction with the metadata of a split.
use native.Mathlib.Nat.{le-mul_of_pos_right, mul-mod_right, mul-div_right}
use gm_kms.Base.{
  ℕ, some, none, ◌*◌, ◌/◌, ◌%◌, ◌^◌, ◌<◌, ◌≤◌, ◌≡◌, Bytes, true, false, List, length, arith, refl,
  ap, ◌∙◌, nat_eq, ltb, leb, bytes_Eq, ==_refl,
}
use gm_kms.Core.Shamir.{Share}
use gm_kms.Core.Shamir.Shares.{
  first_of, reconstruct_blocks, reconstruct_with_metadata, ReconstructionResult, SharesMetadata,
}

-- a reconstruction of k blocks of c shares each
module _ (prime : ℕ) (sha256 hex_encode : Bytes → Bytes) where
  abbrev pub recovered : Bytes → ℕ → ReconstructionResult
  recovered secret used = record {
    success = true;
    secret = some secret;
    secret_hash = some (hex_encode (sha256 secret));
    shares_used = used;
    error = none;
  }

  pub reconstruct_blocks_lem :
      (metadata : SharesMetadata) (shares : List Share) (k c : ℕ) (secret padded : Bytes)
      → metadata.num_blocks ≡ some k
      → metadata.original_len ≡ some (length secret)
      → metadata.secret_hash ≡ some (hex_encode (sha256 secret))
      → length shares ≡ k * c
      → 0 < k
      → 0 < c
      → reconstruct_blocks prime sha256 hex_encode c k shares ≡ padded
      → first_of (length secret) padded ≡ secret
      → length secret ≤ length padded
      → reconstruct_with_metadata prime sha256 hex_encode shares metadata
        ≡ recovered secret (length shares % 2 ^ 32)
  unfolding reconstruct_with_metadata
  reconstruct_blocks_lem metadata shares k c secret padded hb hl hh count hk hc blocks prefix fits =
      let some_share : k ≤ k * c = le-mul_of_pos_right k hc in
      let t1 : nat_eq (length shares) 0 ≡ false = ground arith in
      let t2 : ltb (length shares) k ≡ false = ground arith in
      let m : length shares % k ≡ 0 = ap (λ j. j % k) count ∙ mul-mod_right k c in
      let q : length shares / k ≡ c = ap (λ j. j / k) count ∙ mul-div_right c hk in
      let t3 : nat_eq k 0 ≡ false = ground arith in
      let t4 : nat_eq (length shares % k) 0 ≡ true = ground (arith, m) in
      let t5 : leb (length secret) (length padded) ≡ true = ground arith in
      rw (hb, hl, hh, t1, t2, t3, t4, q, blocks, t5, prefix, ==_refl (hex_encode (sha256 secret)))
        refl
