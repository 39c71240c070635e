-- ===== src/Mfa/BackupCodes/Lockout.antt =====
-- The lockout of crates/kms-mfa/src/backup_codes.rs after five wrong codes.
use gm_kms.Base.{
  ℕ, refl, none, some, [], ◌∷◌, bytes_Eq, ◌+◌, ◌<◌, Bytes, Bool, List, ◌≡◌, not, true, length, err,
  ◌≤◌, ◌-◌, arith, all, All, &&-eq-true, ap, ◌∙◌,
}
use gm_kms.Mfa.BackupCodes.{
  BackupCodeGenerator, contains, is_locked_out, fail_attempt, hash_code, consume_code,
  backup_code_locked,
}
use gm_kms.Mfa.BackupCodes.Outcomes.{Attempt, attempt, attempts}

module _ (sha256_hex : Bytes → Bytes) where
  -- the code is not one of the generator's
  abbrev pub is_wrong : BackupCodeGenerator → Attempt → Bool
  is_wrong g a = not (contains g.codes (hash_code sha256_hex a.code))

  counted :
      (g : BackupCodeGenerator) (a : Attempt)
      → g.lockout_until ≡ none
      → g.failed_attempts < 4
      → is_wrong g a ≡ true
      → (attempt sha256_hex a g).0 ≡ record g { failed_attempts = g.failed_attempts + 1 }
  unfolding consume_code fail_attempt is_locked_out
  counted g a unlocked few wrong = ground arith

  locks :
      (g : BackupCodeGenerator) (a : Attempt)
      → g.lockout_until ≡ none
      → g.failed_attempts ≡ 4
      → is_wrong g a ≡ true
      → (attempt sha256_hex a g).0
        ≡ record g { failed_attempts = 5; lockout_until = some (a.now + 300) }
  unfolding consume_code fail_attempt is_locked_out
  locks g a unlocked few wrong = ground arith

  run :
      (g : BackupCodeGenerator) (tries : List Attempt)
      → g.lockout_until ≡ none
      → g.failed_attempts + length tries ≤ 4
      → all (is_wrong g) tries ≡ true
      → attempts sha256_hex tries g
        ≡ record g { failed_attempts = g.failed_attempts + length tries }
  run g [] unlocked few wrong = ground arith
  run g (a ∷ tries) unlocked few wrong =
      let both = &&-eq-true _ _ wrong in
      let next : BackupCodeGenerator = record g { failed_attempts = g.failed_attempts + 1 } in
      rw (counted g a unlocked (omega arith) both.0) (
        run next tries unlocked (omega arith) both.1
        ∙ ap (λ n. record g { failed_attempts = n }) (omega arith))

  refuses :
      (g : BackupCodeGenerator) (a : Attempt) {until : ℕ}
      → g.lockout_until ≡ some until
      → a.checked < until
      → attempt sha256_hex a g ≡ (g, err (backup_code_locked (until - a.checked)))
  unfolding consume_code is_locked_out
  refuses g a locked early = ground arith

  refuses_all :
      (g : BackupCodeGenerator) (tries : List Attempt) {until : ℕ}
      → g.lockout_until ≡ some until
      → All (λ a. a.checked < until) tries
      → attempts sha256_hex tries g ≡ g
  refuses_all g [] locked early = refl
  refuses_all g (a ∷ tries) locked (now_early, early) =
      rw (refuses g a locked now_early) (refuses_all g tries locked early)

  -- After a fifth wrong code in a row a generator that was not locked, and had counted no wrong code
  -- before them, refuses every code, the right ones too, however often one is tried, until 300 seconds
  -- after the fifth, and says how long is left.
  pub consume_code_locked :
      (g : BackupCodeGenerator) (tries between : List Attempt) (fifth later : Attempt)
      → g.lockout_until ≡ none
      → g.failed_attempts ≡ 0
      → length tries ≡ 4
      → all (is_wrong g) tries ≡ true
      → is_wrong g fifth ≡ true
      → All (λ a. a.checked < fifth.now + 300) between
      → later.checked < fifth.now + 300
      → (attempt sha256_hex later (
          attempts sha256_hex between (attempt sha256_hex fifth (attempts sha256_hex tries g)).0)).1
        ≡ err (backup_code_locked (fifth.now + 300 - later.checked))
  consume_code_locked g tries between fifth later unlocked zero_yet four wrong fifth_wrong all_early
        early =
      rw
        (
          run g tries unlocked (omega arith) wrong,
          locks four_failed fifth unlocked (omega arith) fifth_wrong,
          refuses_all shut between refl all_early,
        )
        (ap (λ r. r.1) (refuses shut later refl early))
    where
      four_failed : BackupCodeGenerator
      four_failed = record g { failed_attempts = g.failed_attempts + length tries }

      shut : BackupCodeGenerator
      shut = record g { failed_attempts = 5; lockout_until = some (fifth.now + 300) }
