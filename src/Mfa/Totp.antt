-- ===== src/Mfa/Totp.antt =====
-- crates/kms-mfa/src/totp.rs: time-based one-time passwords. The hash functions and base32 are
-- parameters, and instants are seconds. An index past the end of the tag is a panic, the `none` of an
-- Option.
pub mod Window
pub mod Codes
use Prim.Native.Nat.{bit_and, bit_or, bit_xor}
use gm_kms.Base.{
  ℕ, zero, suc, none, some, [], ◌∷◌, ◌++◌, ◌+◌, ◌-◌, ◌*◌, ◌/◌, ◌%◌, ◌^◌, ok, err, Bytes, Bool, true,
  false, Option, bytes_Eq, ◌==◌, ◌>>=◌, if◌then◌else◌, List, Result, nat_eq, ltb, leb, length,
  ascii, ◌||◌, ◌≡◌,
}
use gm_kms.Core.Aad.{be_bytes}
use gm_kms.Mfa.BackupCodes.{MfaError, invalid_secret, invalid_config}
use gm_kms.Policy.Json.{ℤ, pos, negsuc}
use mathlib.Core.Option

pub data TotpAlgorithm : Type 0 where
  sha1 sha256 sha512 : TotpAlgorithm

pub record TotpConfig : Type 0 where
  pub secret : Bytes
  pub time_step : ℕ
  pub digits : ℕ
  pub algorithm : TotpAlgorithm
  pub window : ℕ

pub record TotpCode : Type 0 where
  pub code : Bytes
  pub generated_at : ℕ
  pub expires_at : ℕ
  pub period : ℕ

abbrev pub default_config : TotpConfig
default_config = record { secret = []; time_step = 30; digits = 6; algorithm = sha1; window = 1 }

-- `a as i64 - b as i64`
abbrev pub minus : ℕ → ℕ → ℤ
minus a b = if ltb a b then negsuc (b - a - 1) else pos (a - b)

unfoldable pub remaining_seconds : ℕ → TotpCode → ℤ
remaining_seconds now c = minus c.expires_at now

unfoldable pub is_valid : ℕ → TotpCode → Bool
unfolding remaining_seconds
is_valid now c = elim (remaining_seconds now c) [ pos n ↦ ltb 0 n | negsuc _ ↦ false ]

unfoldable pub new : TotpConfig → Result MfaError TotpConfig
new config =
    if nat_eq (length config.secret) 0
    then err invalid_secret
    else if ltb config.digits 6 || ltb 8 config.digits
    then err (invalid_config (ascii "digits must be between 6 and 8"))
    else if nat_eq config.time_step 0
    then err (invalid_config (ascii "time_step must be non-zero"))
    else ok config

unfoldable pub with_secret : Bytes → Result MfaError TotpConfig
unfolding new
with_secret secret = new (record default_config { secret = secret })

-- `resize(n, 0)`
unfoldable pub resize : ℕ → Bytes → Bytes
resize zero t = []
resize (suc n) [] = 0 ∷ resize n []
resize (suc n) (b ∷ t) = b ∷ resize n t

abbrev pub xor_all : ℕ → Bytes → Bytes
xor_all b [] = []
xor_all b (c ∷ t) = bit_xor b c ∷ xor_all b t

-- the three HMAC functions, which differ in the hash and its block size
unfoldable pub hmac_by : ℕ → (Bytes → Bytes) → Bytes → Bytes → Bytes
unfolding resize
hmac_by block hash key message =
    let padded = resize block (if ltb block (length key) then hash key else key) in
    hash (xor_all 0x5c padded ++ hash (xor_all 0x36 padded ++ message))

abbrev pub at : ℕ → Bytes → Option ℕ
at i [] = none
at zero (b ∷ t) = some b
at (suc i) (b ∷ t) = at i t

abbrev pub last : Bytes → Option ℕ
last [] = none
last (b ∷ []) = some b
last (b ∷ c ∷ t) = last (c ∷ t)

abbrev pub join_bytes : ℕ → ℕ → ℕ → ℕ → ℕ
join_bytes a b c d = bit_or (bit_or (bit_or (a % 128 * 2 ^ 24) (b * 2 ^ 16)) (c * 2 ^ 8)) d

-- the bytes of the tag at the offset that its last byte names
unfoldable pub truncate : Bytes → Option ℕ
truncate tag = do
  final ← last tag
  a ← at (final % 16) tag
  b ← at (final % 16 + 1) tag
  c ← at (final % 16 + 2) tag
  d ← at (final % 16 + 3) tag
  some (join_bytes a b c d)

-- `to_string` of a number, with a turn for every digit: a u64 has 20 at most
unfoldable pub decimal_turns : ℕ → ℕ → Bytes → Bytes
decimal_turns zero n t = t
decimal_turns (suc turns) n t =
    let more = decimal_turns turns (n / 10) ((48 + n % 10) ∷ t) in
    if ltb n 10 then (48 + n) ∷ t else more

unfoldable pub decimal : ℕ → Bytes
unfolding decimal_turns
decimal n = decimal_turns 20 n []

abbrev pub zeros : ℕ → Bytes
zeros zero = []
zeros (suc n) = 48 ∷ zeros n

-- `{otp:0>width$}`, which fills up with zeros and takes nothing away
unfoldable pub padded_decimal : ℕ → ℕ → Bytes
unfolding decimal
padded_decimal width n = let t = decimal n in zeros (width - length t) ++ t

-- the `sha1` and `sha2` crates, with the lengths of their digests
pub record Hashes : Type 0 where
  pub sha1_digest : Bytes → Bytes
  pub sha256_digest : Bytes → Bytes
  pub sha512_digest : Bytes → Bytes
  pub sha1_length : (t : Bytes) → length (sha1_digest t) ≡ 20
  pub sha256_length : (t : Bytes) → length (sha256_digest t) ≡ 32
  pub sha512_length : (t : Bytes) → length (sha512_digest t) ≡ 64

module _ (hashes : Hashes) where
  unfoldable pub hmac_sha1 : Bytes → Bytes → Bytes
  unfolding hmac_by
  hmac_sha1 key message = hmac_by 64 hashes.sha1_digest key message

  unfoldable pub hmac_sha256 : Bytes → Bytes → Bytes
  unfolding hmac_by
  hmac_sha256 key message = hmac_by 64 hashes.sha256_digest key message

  unfoldable pub hmac_sha512 : Bytes → Bytes → Bytes
  unfolding hmac_by
  hmac_sha512 key message = hmac_by 128 hashes.sha512_digest key message

  unfoldable pub hmac : TotpAlgorithm → Bytes → Bytes → Bytes
  unfolding hmac_sha1 hmac_sha256 hmac_sha512
  hmac sha1 key message = hmac_sha1 key message
  hmac sha256 key message = hmac_sha256 key message
  hmac sha512 key message = hmac_sha512 key message

  -- `10_u32.pow(digits)`, which wraps in a release build
  abbrev pub modulus : TotpConfig → ℕ
  modulus config = 10 ^ config.digits % 2 ^ 32

  -- A remainder by zero is a panic.
  unfoldable pub compute_hotp : TotpConfig → ℕ → Option Bytes
  unfolding hmac truncate padded_decimal be_bytes
  compute_hotp config counter =
      truncate (hmac config.algorithm config.secret (be_bytes 8 counter)) >>= λ binary.
      if nat_eq (modulus config) 0
      then none
      else some (padded_decimal config.digits (binary % modulus config))

  unfoldable pub generate_at_timestamp : ℕ → TotpConfig → Option TotpCode
  unfolding compute_hotp
  generate_at_timestamp timestamp config =
      let counter = timestamp / config.time_step in
      Option.map
        (λ code. record {
          code = code;
          generated_at = timestamp;
          expires_at = (counter + 1) * config.time_step % 2 ^ 64;
          period = config.time_step;
        })
        (compute_hotp config counter)

  -- the loop over the deltas, from one on, for so many turns
  unfoldable pub validate_deltas : TotpConfig → Bytes → ℕ → ℕ → ℕ → Option Bool
  unfolding compute_hotp
  validate_deltas config code counter delta zero = some false
  validate_deltas config code counter delta (suc turns) =
      let later = validate_deltas config code counter (delta + 1) turns in
      compute_hotp config ((counter + delta) % 2 ^ 64) >>= λ forward.
      if forward == code
      then some true
      else if leb delta counter
      then (compute_hotp config (counter - delta) >>= λ backward.
          if backward == code then some true else later)
      else later

  unfoldable pub validate_at_timestamp : Bytes → ℕ → TotpConfig → Option Bool
  unfolding validate_deltas
  validate_at_timestamp code timestamp config =
      validate_deltas config code (timestamp / config.time_step) 0 (config.window + 1)

unfoldable pub get_provisioning_uri : (Bytes → Bytes) → Bytes → Bytes → TotpConfig → Bytes
unfolding decimal
get_provisioning_uri base32 account_name issuer config =
    ascii "otpauth://totp/"
    ++ (issuer
        ++ (ascii ":"
            ++ (account_name
                ++ (ascii "?secret="
                    ++ (base32 config.secret
                        ++ (ascii "&issuer="
                            ++ (issuer
                                ++ (ascii "&algorithm=SHA1&digits="
                                    ++ (decimal config.digits
                                        ++ (ascii "&period=" ++ decimal config.time_step))))))))))
