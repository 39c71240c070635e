-- ===== src/Mfa/BackupCodes/Outcomes.antt =====
-- Which recovery codes `consume_code` of crates/kms-mfa/src/backup_codes.rs accepts, and how often.
use gm_kms.Base.{
  ℕ, refl, none, some, [], ◌∷◌, bytes_Eq, Bytes, Bool, false, List, Result, is_ok, ◌≡◌, true, arith,
  not, ◌&&◌, nat_eq,
}
use gm_kms.Mfa.BackupCodes.{
  BackupCodeGenerator, contains, discard, is_locked_out, fail_attempt, hash_code, consume_code,
  MfaError,
}

-- one call of `consume_code`: the readings of its clock, and the code
pub record Attempt : Type 0 where
  pub checked : ℕ
  pub now : ℕ
  pub code : Bytes

abbrev pub is_locked : ℕ → BackupCodeGenerator → Bool
is_locked now g = elim (is_locked_out now g) [ none ↦ false | some _ ↦ true ]

contains-discard :
    (h c : Bytes) (codes : List Bytes)
    → contains codes h ≡ false
    → contains (discard c codes) h ≡ false
contains-discard h c [] e = refl
contains-discard h c (d ∷ codes) e = ground (arith, contains-discard h c codes)

discard-gone : (h : Bytes) (codes : List Bytes) → contains (discard h codes) h ≡ false
discard-gone h [] = refl
discard-gone h (d ∷ codes) = ground (arith, discard-gone h codes)

module _ (sha256_hex : Bytes → Bytes) where
  abbrev pub attempt :
      Attempt → BackupCodeGenerator → BackupCodeGenerator × Result MfaError (Unit {0})
  attempt a g = consume_code sha256_hex a.checked a.now a.code g

  abbrev pub attempts : List Attempt → BackupCodeGenerator → BackupCodeGenerator
  attempts [] g = g
  attempts (a ∷ as') g = attempts as' (attempt a g).0

  -- A code is accepted exactly if the generator is not locked, holds the code's hash and counts a
  -- remaining code.
  pub is_ok-consume_code :
      (a : Attempt) (g : BackupCodeGenerator)
      → is_ok (attempt a g).1 ≡ (
          not (is_locked a.checked g)
          && (contains g.codes (hash_code sha256_hex a.code) && not (nat_eq g.remaining 0)))
  unfolding consume_code fail_attempt
  is_ok-consume_code a g = ground arith

  contains-consume_code :
      (h : Bytes) (a : Attempt) (g : BackupCodeGenerator)
      → contains g.codes h ≡ false
      → contains (attempt a g).0.codes h ≡ false
  unfolding consume_code fail_attempt
  contains-consume_code h a g e =
      ground (arith, contains-discard h (hash_code sha256_hex a.code) g.codes e)

  contains-attempts :
      (h : Bytes) (tries : List Attempt) (g : BackupCodeGenerator)
      → contains g.codes h ≡ false
      → contains (attempts tries g).codes h ≡ false
  contains-attempts h [] g e = e
  contains-attempts h (a ∷ tries) g e =
      contains-attempts h tries (attempt a g).0 (contains-consume_code h a g e)

  gone :
      (a : Attempt) (g : BackupCodeGenerator)
      → is_ok (attempt a g).1 ≡ true
      → contains (attempt a g).0.codes (hash_code sha256_hex a.code) ≡ false
  unfolding consume_code fail_attempt
  gone a g h = ground (arith, discard-gone (hash_code sha256_hex a.code) g.codes)

  -- A code that was accepted is never accepted again, whatever is tried in between.
  pub consume_code_once :
      (first again : Attempt) (between : List Attempt) (g : BackupCodeGenerator)
      → is_ok (attempt first g).1 ≡ true
      → hash_code sha256_hex again.code ≡ hash_code sha256_hex first.code
      → is_ok (attempt again (attempts between (attempt first g).0)).1 ≡ false
  consume_code_once first again between g h same = ground (
    arith,
    is_ok-consume_code again (attempts between (attempt first g).0),
    contains-attempts (hash_code sha256_hex first.code) between (attempt first g).0
        (gone first g h),
  )
