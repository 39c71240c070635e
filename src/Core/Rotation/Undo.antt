-- ===== src/Core/Rotation/Undo.antt =====
-- A rotation followed by a rollback, crates/kms-core/src/secret_rotation.rs.
use gm_kms.Base.{
  none, some, ◌∷◌, zero, suc, refl, ok, bytes_Eq, ℕ, ◌+◌, ◌≤◌, ◌<◌, ◌≡◌, List, true, false, map,
  arith, ap, nat_eq, get, Bytes, ◌∙◌, ◌^◌, &&-eq-true,
}
use gm_kms.Core.Rotation.{
  SecretVersion, SecretRotationManager, RotationConfig, deactivate, or_default, rotate, rollback,
  get_active, seconds, find_version, is_current,
}
use gm_kms.Core.Rotation.Versions.{take, has_version}
use mathlib.Core.Option
use gm_kms.Core.Rotation.Outcomes.{rotated, rotate-versions, target_of, active_again, rollback_lem}

-- the second version of the list, where the first has another number
second_found :
    (keep version : ℕ) (v w : SecretVersion) (ws vs : List SecretVersion)
    → ws ≡ w ∷ vs
    → 2 ≤ keep
    → nat_eq v.version version ≡ false
    → w.version ≡ version
    → find_version (has_version version) (take keep (v ∷ ws)) ≡ some w
second_found zero version v w ws vs e h other same = absurd (ground arith)
second_found (suc zero) version v w ws vs e h other same = absurd (ground arith)
second_found (suc (suc n)) version v w ws vs e h other same = rw e (ground arith)

rotated_other :
    (checked now : ℕ) (config : RotationConfig) (secret name : Bytes) (m : SecretRotationManager)
    (old : SecretVersion) (vs : List SecretVersion)
    → get name m.secrets ≡ some (old ∷ vs)
    → is_current checked old ≡ true
    → old.version + 1 < 2 ^ 32
    → nat_eq (rotated checked now config secret name m).version old.version ≡ false
unfolding get_active Option.bind
rotated_other checked now config secret name m old vs stored current small =
    rw (stored, current) (ground arith)

-- where the version before a rotation is afterwards
old_target :
    (checked now done id : ℕ) (secret name : Bytes) (m : SecretRotationManager)
    {config : RotationConfig} (old : SecretVersion) (vs : List SecretVersion)
    → get name m.configs ≡ some config
    → get name m.secrets ≡ some (old ∷ vs)
    → is_current checked old ≡ true
    → 2 ≤ config.keep_versions
    → old.version + 1 < 2 ^ 32
    → target_of old.version name (rotate checked now done id (ok secret) name m).0
      ≡ some (deactivate old)
unfolding get_active Option.bind
old_target checked now done id secret name m {config} old vs known stored current keeps small =
    rw (rotate-versions checked now done id secret name m known) (
      second_found config.keep_versions old.version (rotated checked now config secret name m)
        (deactivate old) (map deactivate (or_default (get name m.secrets))) (map deactivate vs)
        (ap (λ o. map deactivate (or_default o)) stored) keeps
        (rotated_other checked now config secret name m old vs stored current small) refl)

restored :
    (later : ℕ) (old : SecretVersion)
    → old.active ≡ true
    → later ≤ old.expires_at
    → active_again later (deactivate old) ≡ some old
restored later old active early = ground arith

-- A rollback undoes a rotation: where the current version stood first and the configuration keeps
-- two versions, a rollback to its number makes it the active version again, with its secret, until
-- it expires.
pub rollback-rotate :
    (checked now done id again id' later : ℕ) (secret name : Bytes) (m : SecretRotationManager)
    {config : RotationConfig} (old : SecretVersion) (vs : List SecretVersion)
    → get name m.configs ≡ some config
    → get name m.secrets ≡ some (old ∷ vs)
    → is_current checked old ≡ true
    → 2 ≤ config.keep_versions
    → old.version + 1 < 2 ^ 32
    → later ≤ old.expires_at
    → get_active later name
        (rollback again id' name old.version (rotate checked now done id (ok secret) name m).0).0
      ≡ some old
rollback-rotate checked now done id again id' later secret name m old vs known stored current keeps
      small early =
    let rolled =
      rw (old_target checked now done id secret name m old vs known stored current keeps small) at (
        rollback_lem again id' later name old.version
          (rotate checked now done id (ok secret) name m).0) in
    rolled.1 ∙ restored later old (&&-eq-true _ _ current).0 early

first_found :
    (keep version : ℕ) (v : SecretVersion) (vs : List SecretVersion)
    → 1 ≤ keep
    → v.version ≡ version
    → find_version (has_version version) (take keep (v ∷ vs)) ≡ some v
first_found zero version v vs h same = absurd (ground arith)
first_found (suc n) version v vs h same = ground arith

restarts :
    (checked now : ℕ) (config : RotationConfig) (secret name : Bytes) (m : SecretRotationManager)
    → get_active checked name m ≡ none
    → (rotated checked now config secret name m).version ≡ 1
restarts checked now config secret name m gone = rw gone refl

new_target :
    (checked now done id : ℕ) (secret name : Bytes) (m : SecretRotationManager)
    {config : RotationConfig}
    → get name m.configs ≡ some config
    → (rotated checked now config secret name m).version ≡ 1
    → 1 ≤ config.keep_versions
    → target_of 1 name (rotate checked now done id (ok secret) name m).0
      ≡ some (rotated checked now config secret name m)
unfolding Option.bind
new_target checked now done id secret name m {config} known one keeps =
    rw (rotate-versions checked now done id secret name m known) (
      first_found config.keep_versions 1 (rotated checked now config secret name m)
        (map deactivate (or_default (get name m.secrets))) keeps one)

again_active :
    (later : ℕ) (v : SecretVersion)
    → v.active ≡ true
    → later ≤ v.expires_at
    → active_again later v ≡ some v
again_active later v active early = ground arith

-- Where no version is active any more, the versions of a rotation count from 1 again, and a rollback
-- to version 1 afterwards activates the new secret, whatever an earlier version 1 was.
pub rotate_restarts :
    (checked now done id again id' later : ℕ) (secret name : Bytes) (m : SecretRotationManager)
    {config : RotationConfig}
    → get name m.configs ≡ some config
    → get_active checked name m ≡ none
    → 1 ≤ config.keep_versions
    → later ≤ now + seconds config.ttl_seconds
    → ((rotated checked now config secret name m).version ≡ 1)
      × (get_active later name
            (rollback again id' name 1 (rotate checked now done id (ok secret) name m).0).0
          ≡ some (rotated checked now config secret name m))
rotate_restarts checked now done id again id' later secret name m {config} known gone keeps early =
    let one = restarts checked now config secret name m gone in
    let rolled =
      rw (new_target checked now done id secret name m known one keeps) at
        (rollback_lem again id' later name 1 (rotate checked now done id (ok secret) name m).0) in
    (one, rolled.1 ∙ again_active later (rotated checked now config secret name m) refl early)
