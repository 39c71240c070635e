-- ===== src/Mfa/Tests.antt =====
-- Runs of the recovery codes (crates/kms-mfa). The hash is the text itself, or a constant of 64
-- characters.
use gm_kms.Base.{
  zero, suc, refl, none, some, [], ◌∷◌, ascii, Bytes, is_ok, length, ◌≡◌, false, err, ok, arith,
  true, ◌↔◌, ℕ, ◌≤◌, ◌+◌, ◌/◌, ◌%◌, ◌^◌, All,
}
use gm_kms.Mfa.Totp.{
  Hashes, TotpConfig, TotpCode, default_config, new, compute_hotp, generate_at_timestamp,
  validate_at_timestamp,
}
use gm_kms.Mfa.Totp.Codes.{compute_hotp-digits, tag_number, value, IsDigit}
use gm_kms.Mfa.Totp.Window.{validate_at_timestamp_iff, validate_at_timestamp-generate_at_timestamp}
use gm_kms.Mfa.BackupCodes.{
  BackupCodeGenerator, hash_code, generate, fresh_code, backup_code_locked, consume_code,
}
use gm_kms.Mfa.BackupCodes.Outcomes.{Attempt, attempt, attempts, consume_code_once}
use gm_kms.Mfa.BackupCodes.Lockout.{consume_code_locked}

abbrev plain : Bytes → Bytes
plain t = t

abbrev constant : Bytes → Bytes
constant t = ascii "0000000000000000000000000000000000000000000000000000000000000000"

issued : BackupCodeGenerator
issued = record {
  codes = ascii "00000001" ∷ ascii "00000002" ∷ [];
  remaining = 2;
  failed_attempts = 0;
  lockout_until = none;
}

abbrev right : Attempt
right = record { checked = 10; now = 10; code = ascii " 00000001 " }

abbrev wrong : Attempt
wrong = record { checked = 20; now = 20; code = ascii "guess" }

two_drawn :
    generate plain (1 ∷ 1 ∷ 2 ∷ []) 2
    ≡ some (issued, fresh_code (ascii "00000001") ∷ fresh_code (ascii "00000002") ∷ [])
unfolding generate issued
two_drawn = refl

consume_code_once_example :
    is_ok (attempt plain right (attempts plain (wrong ∷ []) (attempt plain right issued).0)).1
    ≡ false
unfolding issued consume_code
consume_code_once_example = consume_code_once plain right right (wrong ∷ []) issued refl refl

consume_code_locked_example :
    (attempt plain
      (record right { checked = 100 })
      (attempts plain
        (record wrong { checked = 50 } ∷ record right { checked = 60 } ∷ [])
        (attempt plain wrong (attempts plain (wrong ∷ wrong ∷ wrong ∷ wrong ∷ []) issued)).0)).1
    ≡ err (backup_code_locked 220)
unfolding issued hash_code
consume_code_locked_example =
    consume_code_locked plain issued (wrong ∷ wrong ∷ wrong ∷ wrong ∷ [])
      (record wrong { checked = 50 } ∷ record right { checked = 60 } ∷ []) wrong
      (record right { checked = 100 }) refl refl refl refl refl (omega arith, (omega arith, tt))
      (omega arith)

one_drawn :
    generate constant (1 ∷ []) 1
    ≡ some (
      record { codes = constant [] ∷ []; remaining = 1; failed_attempts = 0; lockout_until = none },
      fresh_code (ascii "00000001") ∷ [],
    )
unfolding generate
one_drawn = refl

abbrev zeros : ℕ → Bytes
zeros zero = []
zeros (suc n) = 7 ∷ zeros n

abbrev toy_hashes : Hashes
toy_hashes = record {
  sha1_digest = λ t. zeros 20;
  sha256_digest = λ t. zeros 32;
  sha512_digest = λ t. zeros 64;
  sha1_length = λ t. refl;
  sha256_length = λ t. refl;
  sha512_length = λ t. refl;
}

abbrev totp : TotpConfig
totp = record default_config { secret = ascii "s" }

shown_code : TotpCode
shown_code = record { code = ascii "901063"; generated_at = 59; expires_at = 60; period = 30 }

shown_at : generate_at_timestamp toy_hashes 59 totp ≡ some shown_code
unfolding generate_at_timestamp shown_code
shown_at = refl

totp_accepted : new totp ≡ ok totp
unfolding new
totp_accepted = refl

compute_hotp-digits_example :
    (code : Bytes) × (binary : ℕ) × (compute_hotp toy_hashes totp 1 ≡ some code)
    × (length code ≡ 6)
    × All IsDigit code
    × (tag_number toy_hashes totp 1 ≡ some binary)
    × (value 0 code ≡ binary % 10 ^ 6)
compute_hotp-digits_example = compute_hotp-digits toy_hashes totp 1 totp_accepted

validate_at_timestamp_iff_example :
    (validate_at_timestamp toy_hashes (ascii "000000") 59 totp ≡ some true) ↔ (
      (k : ℕ) × (k ≤ 59 / 30 + 1)
      × (59 / 30 ≤ k + 1)
      × (compute_hotp toy_hashes totp k ≡ some (ascii "000000")))
validate_at_timestamp_iff_example =
    validate_at_timestamp_iff toy_hashes (ascii "000000") 59 totp (omega arith)

validate_at_timestamp-generate_at_timestamp_example :
    validate_at_timestamp toy_hashes (shown_code.code) 89 totp ≡ some true
validate_at_timestamp-generate_at_timestamp_example =
    validate_at_timestamp-generate_at_timestamp toy_hashes 59 89 totp shown_code shown_at
      (omega arith) (omega arith) (omega arith)
