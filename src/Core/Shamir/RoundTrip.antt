-- ===== src/Core/Shamir/RoundTrip.antt =====
-- crates/kms-core/src/shamir.rs: enough shares of a secret give the secret back.
use gm_kms.Base.{
  ℕ, zero, suc, [], ◌∷◌, ◌++◌, ◌+◌, ◌-◌, ◌*◌, ◌/◌, ◌%◌, ◌^◌, ◌<◌, ◌≤◌, ◌≡◌, Bytes, Bool, false,
  List, All-imp, length, arith, refl, ap, ◌∙◌, map, filter, count_if, count_if-le-length, ok,
  bytes_Eq, nat_eq, ltb,
}
use mathlib.Core.Path.{ap₂, subst}
use native.Mathlib.Nat.{mod-eq_of_lt}
use gm_kms.Core.Aad.{be_bytes}
use gm_kms.Core.Shamir.{Share, share_at, interpolate}
use gm_kms.Core.Shamir.Field.{IsField}
use gm_kms.Core.Shamir.Recovery.{interpolate-evaluate_polynomial}
use gm_kms.Core.Shamir.Shares.{
  first_of, rest_of, be_from, range_from, padding, padded_len, random_elements, coefficients_of,
  split_blocks, reconstruct_blocks, split, new_shares, reconstruct_with_metadata, Shares,
}
use gm_kms.Core.Shamir.Reconstruction.{recovered, reconstruct_blocks_lem}
use gm_kms.Core.Shamir.Points.{
  range_from-All, range_from-AllDistinct, length-range_from, filter-All, filter-AllDistinct,
  filter-map,
}
use gm_kms.Core.Shamir.Blocks.{
  IsBytes, BlocksFit, be_bytes-be_from, first_of-append, rest_of-append, first-rest,
  length-first_of, length-rest_of, All-first_rest, length-append, length-map, filter-append,
  length-filter, padded_len_lem, length-padding, padding-IsBytes,
}

-- n is the prime less one; p picks the points whose shares are brought
module _ (n : ℕ) (small : suc n < 2 ^ 63) (more : 1 < suc n) (field : IsField (suc n))
    (sha256 hex_encode : Bytes → Bytes) (raw : ℕ → ℕ → ℕ) (threshold total_shares : ℕ)
    (below : total_shares < suc n) (p : ℕ → Bool) where
  abbrev chosen : List ℕ
  chosen = filter p (range_from 1 total_shares)

  module _ (some_of : 1 ≤ threshold) (enough : threshold ≤ length chosen) where
    length-random_elements :
        (f : ℕ → ℕ) (i count : ℕ)
        → length (random_elements (suc n) sha256 hex_encode f i count) ≡ count
    length-random_elements f i zero = refl
    length-random_elements f i (suc count) =
        let e = length-random_elements f (i + 1) count in omega (arith, e)

    -- one block
    block_lem :
        (b : ℕ) (bytes : Bytes)
        → length bytes ≡ 7
        → IsBytes bytes
        → be_from 0 bytes < suc n
        → rest_of 1 (
            be_bytes 8 (
              interpolate (suc n) (
                map
                  (share_at
                    (suc n)
                    b
                    (coefficients_of (suc n) sha256 hex_encode raw threshold total_shares b bytes))
                  chosen)))
          ≡ bytes
    block_lem b bytes seven h fits =
        let (digits, bound) = be_bytes-be_from bytes seven h in
        let all = range_from-All 1 total_shares in
        let kept =
          filter-All p (λ x. (1 ≤ x) × (x < 1 + total_shares)) (range_from 1 total_shares) all in
        let l = length-random_elements (raw b) 0 (threshold - 1) in
        let secret =
          interpolate-evaluate_polynomial n small more field b (be_from 0 bytes)
            (random_elements (suc n) sha256 hex_encode (raw b) 0 (threshold - 1)) chosen
            (omega (arith, l)) (All-imp (λ x q. omega (arith, q.1)) chosen kept)
            (
              All-imp (λ x q e. absurd (omega (arith, q.0, e))) chosen kept,
              filter-AllDistinct p (range_from 1 total_shares)
                  (range_from-AllDistinct 1 total_shares),
            ) in
        ap (λ k. rest_of 1 (be_bytes 8 k)) (secret ∙ mod-eq_of_lt fits) ∙ digits

    abbrev picked : List Share → List Share
    picked shares = filter (λ s. p s.x) shares

    abbrev blocks_from : ℕ → ℕ → Bytes → List Share
    blocks_from count b padded =
        split_blocks (suc n) sha256 hex_encode raw threshold total_shares count b padded

    abbrev picked_of : ℕ → Bytes → List Share
    picked_of b bytes =
        map
          (share_at (suc n) b
            (coefficients_of (suc n) sha256 hex_encode raw threshold total_shares b bytes))
          chosen

    picked_blocks :
        (count b : ℕ) (padded : Bytes)
        → picked (blocks_from (suc count) b padded)
          ≡ picked_of b (first_of 7 padded) ++ picked (blocks_from count (b + 1) (rest_of 7 padded))
    unfolding split_blocks
    picked_blocks count b padded =
        filter-append (λ (s : Share). p s.x) _ _
        ∙ ap (λ k. k ++ picked (blocks_from count (b + 1) (rest_of 7 padded)))
            (filter-map p (suc n) b _ (range_from 1 total_shares))

    length-picked_of : (b : ℕ) (bytes : Bytes) → length (picked_of b bytes) ≡ length chosen
    length-picked_of b bytes = length-map _ chosen

    length-picked :
        (count b : ℕ) (padded : Bytes)
        → length (picked (blocks_from count b padded)) ≡ count * length chosen
    unfolding split_blocks
    length-picked zero b padded = omega arith
    length-picked (suc count) b padded =
        let e = length-picked count (b + 1) (rest_of 7 padded) in
        let l =
          length-append (picked_of b (first_of 7 padded))
            (picked (blocks_from count (b + 1) (rest_of 7 padded))) in
        let k = length-picked_of b (first_of 7 padded) in
        ap length (picked_blocks count b padded) ∙ omega (arith, e, l, k)

    reconstruct_blocks-split_blocks :
        (count b : ℕ) (padded : Bytes)
        → length padded ≡ count * 7
        → IsBytes padded
        → BlocksFit (suc n) count padded
        → reconstruct_blocks
            (suc n)
            sha256
            hex_encode
            (length chosen)
            count
            (picked (blocks_from count b padded))
          ≡ padded
    unfolding reconstruct_blocks split_blocks
    reconstruct_blocks-split_blocks zero b [] h bytes fit = refl
    reconstruct_blocks-split_blocks zero b (c ∷ padded) h bytes fit = absurd (omega arith)
    reconstruct_blocks-split_blocks (suc count) b padded h bytes fit =
        let head = first_of 7 padded in
        let tail = rest_of 7 padded in
        let (byte_head, byte_tail) = All-first_rest (λ d. d < 256) 7 padded bytes in
        let l = length-rest_of 7 padded in
        let later = picked (blocks_from count (b + 1) tail) in
        let here = picked_of b head in
        let ih =
          reconstruct_blocks-split_blocks count (b + 1) tail (omega (arith, l)) byte_tail fit.1 in
        ap (λ k. reconstruct_blocks (suc n) sha256 hex_encode (length chosen) (suc count) k)
          (picked_blocks count b padded)
        ∙ rw
            (
              first_of-append (length chosen) here later (length-picked_of b head),
              rest_of-append (length chosen) here later (length-picked_of b head),
            )
            (ap₂ ◌++◌ (block_lem b head (length-first_of 7 padded (omega arith)) byte_head fit.0) ih
              ∙ first-rest 7 padded)

    reconstruct_with_metadata-new_shares :
        (id : Bytes) (created_at : ℕ) (secret : Bytes) (verifiable : Bool)
        → length secret + 7 < 2 ^ 32 * 7
        → IsBytes secret
        → BlocksFit (suc n) (padded_len (length secret) / 7) (padding secret)
        → let r =
            new_shares
              (suc n)
              sha256
              hex_encode
              raw
              threshold
              total_shares
              id
              created_at
              secret
              verifiable in
          reconstruct_with_metadata (suc n) sha256 hex_encode (picked r.shares) r.metadata
          ≡ recovered (suc n) sha256 hex_encode secret (length (picked r.shares) % 2 ^ 32)
    reconstruct_with_metadata-new_shares id created_at secret verifiable short bytes fit =
        let (more, whole, most) = padded_len_lem (length secret) in
        let k = padded_len (length secret) / 7 % 2 ^ 32 in
        let no_wrap : k * 7 ≡ padded_len (length secret) = omega arith in
        let same : padded_len (length secret) / 7 ≡ k = omega arith in
        let l = length-padding secret in
        reconstruct_blocks_lem (suc n) sha256 hex_encode
          (new_shares (suc n) sha256 hex_encode raw threshold total_shares id created_at secret
            verifiable).metadata
          _ k (length chosen) secret (padding secret) refl refl refl
          (length-picked k 0 (padding secret)) (omega arith) (omega arith)
          (reconstruct_blocks-split_blocks k 0 (padding secret) (omega arith)
            (padding-IsBytes secret bytes)
            (subst (λ j. BlocksFit (suc n) j (padding secret)) same fit))
          (first_of-append (length secret) secret _ refl) (omega arith)

  -- Modulo a number between 2 and 2^63 where the code's inverse of a residue other than zero inverts it,
  -- and with fewer shares than that, a split of a non-empty secret whose blocks are below the modulus,
  -- and which is shorter than 7 * 2^32 - 7 bytes, succeeds for a threshold of at least two, and the shares
  -- of any points, as many as the threshold at least, reconstruct the secret, with its hash.
  pub reconstruct_with_metadata-split :
      (id : Bytes) (created_at : ℕ) (secret : Bytes) (verifiable : Bool)
      → 2 ≤ threshold
      → threshold ≤ count_if p (range_from 1 total_shares)
      → 0 < length secret
      → length secret + 7 < 2 ^ 32 * 7
      → IsBytes secret
      → BlocksFit (suc n) (padded_len (length secret) / 7) (padding secret)
      → (r : Shares) × (split
            (suc n)
            sha256
            hex_encode
            raw
            threshold
            total_shares
            id
            created_at
            secret
            verifiable
          ≡ ok r)
        × (let brought = filter (λ s. p s.x) r.shares in
            reconstruct_with_metadata (suc n) sha256 hex_encode brought r.metadata
            ≡ recovered (suc n) sha256 hex_encode secret (length brought % 2 ^ 32))
  unfolding split
  reconstruct_with_metadata-split id created_at secret verifiable two enough nonempty short bytes
        fit =
      let l = length-filter p (range_from 1 total_shares) in
      let c = count_if-le-length p (range_from 1 total_shares) in
      let r = length-range_from 1 total_shares in
      let t1 : ltb threshold 2 ≡ false = ground arith in
      let t2 : ltb total_shares threshold ≡ false = ground (arith, c, r) in
      let t3 : nat_eq (length secret) 0 ≡ false = ground arith in
      (
        new_shares (suc n) sha256 hex_encode raw threshold total_shares id created_at secret
            verifiable,
        rw (t1, t2, t3) refl,
        reconstruct_with_metadata-new_shares (omega arith) (omega (arith, l)) id created_at secret
            verifiable short bytes fit,
      )
