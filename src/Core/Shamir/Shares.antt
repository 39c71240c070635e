-- ===== src/Core/Shamir/Shares.antt =====
-- crates/kms-core/src/shamir.rs: the shares of a secret of any length, block by block, and the secret that
-- they give back. SHA-256, hexadecimal digits, the draws, ids and instants are parameters.
use gm_kms.Base.{
  ℕ, zero, suc, none, some, [], ◌∷◌, ◌++◌, ◌+◌, ◌-◌, ◌*◌, ◌/◌, ◌%◌, ◌^◌, ◌&&◌, Bytes, Bool, true,
  false, Option, List, Result, ok, err, if◌then◌else◌, nat_eq, ltb, leb, length, map, all, ascii,
  bytes_Eq, ◌==◌,
}
use gm_kms.Core.Aad.{be_bytes}
use gm_kms.Audit.Entry.{le_bytes}
use gm_kms.Core.Shamir.{Share, share_at, interpolate}

pub record Commitment : Type 0 where
  pub block_index : ℕ
  pub index : ℕ
  pub value : ℕ

pub record SharesMetadata : Type 0 where
  pub id : Bytes
  pub version : ℕ
  pub created_at : ℕ
  pub is_verifiable : Bool
  pub secret_hash : Option Bytes
  pub original_len : Option ℕ
  pub num_blocks : Option ℕ

pub record Shares : Type 0 where
  pub total_shares : ℕ
  pub threshold : ℕ
  pub shares : List Share
  pub commitments : Option (List Commitment)
  pub metadata : SharesMetadata

-- the messages of a reconstruction that fails
pub data ReconstructionError : Type 0 where
  no_shares hash_mismatch : ReconstructionError
  too_few : (num_blocks count : ℕ) → ReconstructionError
  not_divisible : (count num_blocks : ℕ) → ReconstructionError

pub record ReconstructionResult : Type 0 where
  pub success : Bool
  pub secret : Option Bytes
  pub secret_hash : Option Bytes
  pub shares_used : ℕ
  pub error : Option ReconstructionError

-- `xs[..n]` and `xs[n..]`
abbrev pub first_of {ℓ} : {A : Type ℓ} → ℕ → List A → List A
first_of zero xs = []
first_of (suc n) [] = []
first_of (suc n) (x ∷ xs) = x ∷ first_of n xs

abbrev pub rest_of {ℓ} : {A : Type ℓ} → ℕ → List A → List A
rest_of zero xs = xs
rest_of (suc n) [] = []
rest_of (suc n) (x ∷ xs) = rest_of n xs

-- `from_be_bytes` and `from_le_bytes`
abbrev pub be_from : ℕ → Bytes → ℕ
be_from value [] = value
be_from value (b ∷ t) = be_from (value * 256 + b) t

abbrev pub le_value : Bytes → ℕ
le_value [] = 0
le_value (b ∷ t) = b + 256 * le_value t

abbrev pub repeated : ℕ → ℕ → Bytes
repeated zero b = []
repeated (suc n) b = b ∷ repeated n b

-- `first..first + count`
abbrev pub range_from : ℕ → ℕ → List ℕ
range_from first zero = []
range_from first (suc count) = first ∷ range_from (first + 1) count

abbrev pub is_multiple_of : ℕ → ℕ → Bool
is_multiple_of a b = if nat_eq b 0 then nat_eq a 0 else nat_eq (a % b) 0

abbrev block_size : ℕ
block_size = 7

abbrev pub padded_len : ℕ → ℕ
padded_len original_len =
    if is_multiple_of original_len block_size
    then original_len + block_size
    else (original_len / block_size + 1) * block_size

-- PKCS#7
abbrev pub padding : Bytes → Bytes
padding secret =
    let missing = padded_len (length secret) - length secret in
    secret ++ repeated missing (missing % 256)

-- the padding taken off without the original length
abbrev pub unpad : Bytes → Bytes
unpad blocks =
    let pad_byte = last_byte blocks in
    let kept = length blocks - pad_byte in
    if ltb 0 pad_byte
      && (leb pad_byte 8
          && (leb pad_byte (length blocks) && all (λ b. nat_eq b pad_byte) (rest_of kept blocks)))
    then first_of kept blocks
    else blocks
  where
    last_byte : Bytes → ℕ
    last_byte [] = 0
    last_byte (b ∷ []) = b
    last_byte (b ∷ c ∷ t) = last_byte (c ∷ t)

abbrev pub no_secret : ℕ → ReconstructionError → ReconstructionResult
no_secret used e = record {
  success = false;
  secret = none;
  secret_hash = none;
  shares_used = used;
  error = some e;
}

module _ (prime : ℕ) (sha256 hex_encode : Bytes → Bytes) where
  -- a draw of eight bytes, read as a number
  abbrev pub random_field_element : ℕ → ℕ
  random_field_element raw = let value = raw % prime in if nat_eq value 0 then 1 else value

  -- the draws of a block, from one on
  abbrev pub random_elements : (ℕ → ℕ) → ℕ → ℕ → List ℕ
  random_elements raw i zero = []
  random_elements raw i (suc count) =
      random_field_element (raw i) ∷ random_elements raw (i + 1) count

  -- the coefficients of a block, from index i on
  abbrev pub generate_commitments_for_block : List ℕ → ℕ → ℕ → List Commitment
  generate_commitments_for_block [] block_index i = []
  generate_commitments_for_block (coeff ∷ coefficients) block_index i =
      record {
        block_index = block_index;
        index = i % 2 ^ 32;
        value = le_value (
            first_of 8
              (sha256 (le_bytes 4 block_index ++ (le_bytes 4 (i % 2 ^ 32) ++ le_bytes 8 coeff))));
      }
      ∷ generate_commitments_for_block coefficients block_index (i + 1)

  module _ (raw : ℕ → ℕ → ℕ) (threshold total_shares : ℕ) where
    abbrev pub coefficients_of : ℕ → Bytes → List ℕ
    coefficients_of block_idx block_bytes =
        be_from 0 block_bytes ∷ random_elements (raw block_idx) 0 (threshold - 1)

    abbrev pub shares_of_block : ℕ → Bytes → List Share
    shares_of_block block_idx block_bytes =
        map (share_at prime block_idx (coefficients_of block_idx block_bytes))
          (range_from 1 total_shares)

    -- the loop over the blocks, from one on: its shares
    unfoldable pub split_blocks : ℕ → ℕ → Bytes → List Share
    split_blocks zero block_idx padded = []
    split_blocks (suc count) block_idx padded =
        shares_of_block block_idx (first_of block_size padded)
        ++ split_blocks count (block_idx + 1) (rest_of block_size padded)

    -- its commitments
    abbrev commit_blocks : ℕ → ℕ → Bytes → List Commitment
    commit_blocks zero block_idx padded = []
    commit_blocks (suc count) block_idx padded =
        generate_commitments_for_block (coefficients_of block_idx (first_of block_size padded))
          block_idx 0
        ++ commit_blocks count (block_idx + 1) (rest_of block_size padded)

    -- what a split returns
    abbrev pub new_shares : Bytes → ℕ → Bytes → Bool → Shares
    new_shares id created_at secret verifiable =
        let blocks = padded_len (length secret) / block_size % 2 ^ 32 in
        let commitments = if verifiable then commit_blocks blocks 0 (padding secret) else [] in
        let has_commitments = verifiable && ltb 0 (length commitments) in
        record {
          total_shares = total_shares;
          threshold = threshold;
          shares = split_blocks blocks 0 (padding secret);
          commitments = if has_commitments then some commitments else none;
          metadata = record {
            id = id;
            version = 2;
            created_at = created_at;
            is_verifiable = has_commitments;
            secret_hash = some (hex_encode (sha256 secret));
            original_len = some (length secret);
            num_blocks = some blocks;
          };
        }

    unfoldable pub split : Bytes → ℕ → Bytes → Bool → Result Bytes Shares
    unfolding split_blocks
    split id created_at secret verifiable =
        if ltb threshold 2
        then err (ascii "Threshold must be at least 2")
        else if ltb total_shares threshold
        then err (ascii "Total shares must be >= threshold")
        else if ltb total_shares threshold
        then err (ascii "Threshold cannot exceed total shares")
        else if nat_eq (length secret) 0
        then err (ascii "Secret cannot be empty")
        else ok (new_shares id created_at secret verifiable)

  -- the loop of a reconstruction over the blocks
  unfoldable pub reconstruct_blocks : ℕ → ℕ → List Share → Bytes
  unfolding be_bytes
  reconstruct_blocks shares_per_block zero shares = []
  reconstruct_blocks shares_per_block (suc count) shares =
      rest_of 1 (be_bytes 8 (interpolate prime (first_of shares_per_block shares)))
      ++ reconstruct_blocks shares_per_block count (rest_of shares_per_block shares)

  abbrev pub without_padding : Option ℕ → Bytes → Bytes
  without_padding none blocks = unpad blocks
  without_padding (some original_len) blocks =
      if leb original_len (length blocks) then first_of original_len blocks else blocks

  -- the comparison with the secret's hash
  abbrev pub with_hash : Option Bytes → ℕ → Bytes → ReconstructionResult
  with_hash none used secret = record {
    success = true;
    secret = some secret;
    secret_hash = none;
    shares_used = used;
    error = none;
  }
  with_hash (some expected_hash) used secret =
      let computed = hex_encode (sha256 secret) in
      if computed == expected_hash
      then record {
        success = true;
        secret = some secret;
        secret_hash = some computed;
        shares_used = used;
        error = none;
      }
      else no_secret used hash_mismatch

  abbrev blocks_of : Option ℕ → ℕ
  blocks_of none = 1
  blocks_of (some num_blocks) = num_blocks

  unfoldable pub reconstruct_with_metadata : List Share → SharesMetadata → ReconstructionResult
  unfolding reconstruct_blocks
  reconstruct_with_metadata shares metadata =
      let num_blocks = blocks_of metadata.num_blocks in
      let count = length shares in
      let blocks = reconstruct_blocks (count / num_blocks) num_blocks shares in
      if nat_eq count 0
      then no_secret 0 no_shares
      else if ltb count num_blocks
      then no_secret 0 (too_few num_blocks count)
      else if is_multiple_of count num_blocks
      then with_hash metadata.secret_hash (count % 2 ^ 32)
          (without_padding metadata.original_len blocks)
      else no_secret 0 (not_divisible count num_blocks)

  -- the legacy call without metadata, with a nil id
  unfoldable pub reconstruct : Bytes → ℕ → List Share → ReconstructionResult
  unfolding reconstruct_with_metadata
  reconstruct nil now shares = reconstruct_with_metadata shares (record {
    id = nil;
    version = 1;
    created_at = now;
    is_verifiable = false;
    secret_hash = none;
    original_len = none;
    num_blocks = some 1;
  })
