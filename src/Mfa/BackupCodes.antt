-- ===== src/Mfa/BackupCodes.antt =====
-- crates/kms-mfa/src/backup_codes.rs: recovery codes. SHA-256 with its hex text is a parameter, and so
-- are the draws of the random generator and the readings of the clock, in seconds. Codes are ASCII
-- texts: trimming and upper case are those of ASCII.
pub mod Outcomes
pub mod Lockout
pub mod Generated
use gm_kms.Base.{
  ℕ, zero, suc, bytes_Eq, none, some, [], ◌∷◌, ◌-◌, ◌%◌, ◌/◌, ◌^◌, Bytes, List, Bool, Option,
  Result, ◌+◌, any, filter, leb, false, err, ltb, if◌then◌else◌, ◌==◌, ◌&&◌, push, not, length,
  ◌||◌, nat_eq, ok,
}

pub record BackupCode : Type 0 where
  pub code : Bytes
  pub used : Bool
  pub used_at : Option ℕ

-- The set of hashes is a list.
pub record BackupCodeGenerator : Type 0 where
  pub codes : List Bytes
  pub remaining : ℕ
  pub failed_attempts : ℕ
  pub lockout_until : Option ℕ

pub data MfaError : Type 0 where
  not_enabled invalid_code code_expired window_exceeded invalid_secret backup_code_used : MfaError
  no_backup_codes : MfaError
  backup_code_locked : ℕ → MfaError
  verification_required : MfaError
  operation_not_permitted : Bytes → MfaError
  invalid_config : Bytes → MfaError
  secret_generation_failed : Bytes → MfaError

abbrev pub max_failed_attempts : ℕ
max_failed_attempts = 5

abbrev pub lockout_duration_secs : ℕ
lockout_duration_secs = 300

-- `HashSet::contains`, `insert` and `remove`
abbrev pub contains : List Bytes → Bytes → Bool
contains codes h = any (λ c. c == h) codes

abbrev pub add : Bytes → List Bytes → List Bytes
add h codes = if contains codes h then codes else push codes h

abbrev pub discard : Bytes → List Bytes → List Bytes
discard h codes = filter (λ c. not (c == h)) codes

abbrev pub is_space : ℕ → Bool
is_space b = (leb 9 b && leb b 13) || nat_eq b 32

unfoldable pub trim_start : Bytes → Bytes
trim_start [] = []
trim_start (b ∷ t) = let rest = trim_start t in if is_space b then rest else b ∷ t

unfoldable pub trim_end : Bytes → Bytes
trim_end [] = []
trim_end (b ∷ t) = elim (trim_end t) [ [] ↦ if is_space b then [] else b ∷ [] | c ∷ s ↦ b ∷ c ∷ s ]

unfoldable pub to_uppercase : Bytes → Bytes
to_uppercase [] = []
to_uppercase (b ∷ t) = (if leb b'a' b && leb b b'z' then b - 32 else b) ∷ to_uppercase t

-- `format!("{value:08}")` of the value below 10^8
unfoldable pub single_code : ℕ → Bytes
single_code draw =
    let value = draw % 100000000 in
    (b'0' + value / 10000000 % 10)
    ∷ (b'0' + value / 1000000 % 10)
    ∷ (b'0' + value / 100000 % 10)
    ∷ (b'0' + value / 10000 % 10)
    ∷ (b'0' + value / 1000 % 10)
    ∷ (b'0' + value / 100 % 10)
    ∷ (b'0' + value / 10 % 10)
    ∷ (b'0' + value % 10)
    ∷ []

unfoldable pub is_locked_out : ℕ → BackupCodeGenerator → Option ℕ
is_locked_out now g = elim g.lockout_until [
  | none ↦ none
  | some until ↦ if ltb now until then some (until - now) else none
]

-- the branch for a code that is not in the set
unfoldable pub fail_attempt :
    ℕ → BackupCodeGenerator → BackupCodeGenerator × Result MfaError (Unit {0})
fail_attempt now g =
    let failed = (g.failed_attempts + 1) % 2 ^ 32 in
    if leb max_failed_attempts failed
    then (
      record g { failed_attempts = failed; lockout_until = some (now + lockout_duration_secs) },
      err (backup_code_locked lockout_duration_secs),
    )
    else (record g { failed_attempts = failed }, err invalid_code)

unfoldable pub load_codes : List BackupCode → List Bytes → ℕ → BackupCodeGenerator
load_codes [] codes remaining = record {
  codes = codes;
  remaining = remaining;
  failed_attempts = 0;
  lockout_until = none;
}
load_codes (b ∷ bs) codes remaining =
    if b.used
    then load_codes bs codes remaining
    else load_codes bs (add b.code codes) (remaining + 1)

unfoldable pub load : List BackupCode → BackupCodeGenerator
unfolding load_codes
load codes = load_codes codes [] 0

abbrev pub fresh_code : Bytes → BackupCode
fresh_code code = record { code = code; used = false; used_at = none }

module _ (sha256_hex : Bytes → Bytes) where
  unfoldable pub hash_code : Bytes → Bytes
  unfolding trim_start trim_end to_uppercase
  hash_code code = sha256_hex (to_uppercase (trim_end (trim_start code)))

  -- the loop of `generate`; `none` where the draws run out before it ends
  unfoldable pub draw_codes :
      List ℕ → ℕ → List Bytes → List BackupCode → Option (List Bytes × List BackupCode)
  unfolding single_code hash_code
  draw_codes [] count codes shown = if ltb (length codes) count then none else some (codes, shown)
  draw_codes (draw ∷ draws) count codes shown =
      let hash = hash_code (single_code draw) in
      let skip = draw_codes draws count codes shown in
      let next =
        draw_codes draws count (push codes hash) (push shown (fresh_code (single_code draw))) in
      if ltb (length codes) count
      then if contains codes hash then skip else next
      else some (codes, shown)

  unfoldable pub generate : List ℕ → ℕ → Option (BackupCodeGenerator × List BackupCode)
  unfolding draw_codes
  generate draws count = elim (draw_codes draws count [] []) [
    | none ↦ none
    | some made ↦ some (
      record { codes = made.0; remaining = count; failed_attempts = 0; lockout_until = none },
      made.1,
    )
  ]

  -- two readings of the clock: of the check of the lockout, and of a new lockout
  unfoldable pub consume_code :
      ℕ → ℕ → Bytes → BackupCodeGenerator → BackupCodeGenerator × Result MfaError (Unit {0})
  unfolding is_locked_out fail_attempt hash_code
  consume_code checked now code g = elim (is_locked_out checked g) [
    | some retry_after ↦ (g, err (backup_code_locked retry_after))
    | none ↦
        if not (contains g.codes (hash_code code))
        then fail_attempt now g
        else if nat_eq g.remaining 0
        then (g, err no_backup_codes)
        else (
          record {
            codes = discard (hash_code code) g.codes;
            remaining = g.remaining - 1;
            failed_attempts = 0;
            lockout_until = none;
          },
          ok tt,
        )
  ]

  unfoldable pub is_valid_code : Bytes → BackupCodeGenerator → Bool
  unfolding hash_code
  is_valid_code code g = contains g.codes (hash_code code)

abbrev pub has_codes : BackupCodeGenerator → Bool
has_codes g = ltb 0 g.remaining
