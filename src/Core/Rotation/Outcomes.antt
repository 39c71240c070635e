-- ===== src/Core/Rotation/Outcomes.antt =====
-- What a rotation and a rollback of crates/kms-core/src/secret_rotation.rs leave active.
use gm_kms.Base.{
  none, some, ◌∷◌, inl, inr, refl, ok, err, bytes_Eq, ℕ, ◌+◌, ◌≤◌, ◌≡◌, List, Option, true, false,
  map, arith, ap, Option-cases, get, Bytes, Result, leb, if◌then◌else◌, get-insert_self, is_ok, ◌∙◌,
  ltb, Bool-cases,
}
use gm_kms.Core.Rotation.{
  SecretVersion, SecretRotationManager, RotationConfig, deactivate, update_versions, or_default,
  install_version, rotate, rollback, reactivate, get_active, next_version, seconds, find_version,
  is_current, is_expired, RotationError, SecretRotation, needs_rotation,
}
use gm_kms.Core.Rotation.Versions.{
  trim-take, count_active-map_deactivate, reactivate-Reactivated, take, find_version-inactive,
  has_version, newest_found,
}
use gm_kms.Core.Rotation.Invariant.{deactivated, update_versions-configs}
use mathlib.Core.Option

-- what the outcome of a rotation with a drawn secret is made of
abbrev pub rotated : ℕ → ℕ → RotationConfig → Bytes → Bytes → SecretRotationManager → SecretVersion
rotated checked now config secret name m = record {
  version =
      next_version (Option.map (λ (v : SecretVersion). v.version) (get_active checked name m));
  secret = secret;
  created_at = now;
  expires_at = now + seconds config.ttl_seconds;
  active = true;
}

pub rotate-versions :
    (checked now done id : ℕ) (secret name : Bytes) (m : SecretRotationManager)
    {config : RotationConfig}
    → get name m.configs ≡ some config
    → get name (rotate checked now done id (ok secret) name m).0.secrets
      ≡ some (
          take config.keep_versions (
            rotated checked now config secret name m
            ∷ map deactivate (or_default (get name m.secrets))))
unfolding rotate install_version
rotate-versions checked now done id secret name m {config} found =
    rw (found, rotate)
      (rw
        (
          deactivated name m,
          trim-take config.keep_versions (
              rotated checked now config secret name m
              ∷ map deactivate (or_default (get name m.secrets))),
        )
        (get-insert_self name _ (update_versions (map deactivate) name m).secrets))

-- A rotation of a registered secret whose configuration keeps a version makes the new secret the
-- active one until its lifetime has passed, and after that no version is active.
pub rotate_active :
    (checked now done id later : ℕ) (secret name : Bytes) (m : SecretRotationManager)
    {config : RotationConfig}
    → get name m.configs ≡ some config
    → 1 ≤ config.keep_versions
    → get_active later name (rotate checked now done id (ok secret) name m).0 ≡ (
        if leb later (now + seconds config.ttl_seconds)
        then some (rotated checked now config secret name m)
        else none)
unfolding get_active Option.bind
rotate_active checked now done id later secret name m {config} found keeps =
    rw (rotate-versions checked now done id secret name m found) (
      newest_found config.keep_versions later (rotated checked now config secret name m)
        (map deactivate (or_default (get name m.secrets))) keeps refl
        (count_active-map_deactivate (or_default (get name m.secrets)))
      ∙ unexpired (now + seconds config.ttl_seconds) _)
  where
    unexpired :
        (until : ℕ) (v : Option SecretVersion)
        → (if ltb until later then none else v) ≡ (if leb later until then v else none)
    unexpired until v = ground arith

find_or_default :
    (later : ℕ) (o : Option (List SecretVersion))
    → Option.bind o (find_version (is_current later))
      ≡ find_version (is_current later) (or_default o)
unfolding Option.bind
find_or_default later none = refl
find_or_default later (some vs) = refl

-- A rotation of a registered secret whose draw fails is refused, and leaves the secret without an
-- active version.
pub rotate_undrawn :
    (checked now done id later : ℕ) (e name : Bytes) (m : SecretRotationManager)
    {config : RotationConfig}
    → get name m.configs ≡ some config
    → (is_ok (rotate checked now done id (err e) name m).1 ≡ false)
      × (get_active later name (rotate checked now done id (err e) name m).0 ≡ none)
unfolding rotate get_active
rotate_undrawn checked now done id later e name m found =
    rw (found, rotate)
      (
        refl,
        find_or_default later (get name (update_versions (map deactivate) name m).secrets)
            ∙ (ap (find_version (is_current later)) (deactivated name m)
                ∙ find_version-inactive later (map deactivate (or_default (get name m.secrets)))
                    (count_active-map_deactivate (or_default (get name m.secrets)))),
      )

-- the newest version of a number
abbrev pub target_of : ℕ → Bytes → SecretRotationManager → Option SecretVersion
target_of version name m = Option.bind (get name m.secrets) (find_version (has_version version))

-- what is active after a rollback to a version
abbrev pub active_again : ℕ → SecretVersion → Option SecretVersion
active_again later v = if is_expired later v then none else some (record v { active = true })

abbrev pub RolledBack :
    ℕ
    → Bytes
    → SecretRotationManager
    → SecretRotationManager × Result RotationError SecretRotation
    → Option SecretVersion
    → Type 0
RolledBack later name m outcome none = (outcome.0 ≡ m) × (is_ok outcome.1 ≡ false)
RolledBack later name m outcome (some v) =
    (is_ok outcome.1 ≡ true) × (get_active later name outcome.0 ≡ active_again later v)

-- A rollback succeeds if the secret has a version of the number, and then makes the newest of them
-- the active one, unless it is expired: then no version is active. Otherwise it changes nothing.
pub rollback_lem :
    (now id later : ℕ) (name : Bytes) (version : ℕ) (m : SecretRotationManager)
    → RolledBack later name m (rollback now id name version m) (target_of version name m)
unfolding rollback get_active Option.bind
rollback_lem now id later name version m = elim (Option-cases (get name m.secrets)) [
  | inl missing ↦ rw (missing, rollback) (refl, refl)
  | inr (vs, found) ↦ elim (Option-cases (reactivate version vs)) [
    | inl absent ↦
        let nowhere = rw absent at (reactivate-Reactivated version vs) in
        rw (found, rollback, absent) (rw (nowhere, Option.bind) (refl, refl))
    | inr (ws, changed) ↦
        let (one, same, target, first, active) =
          rw changed at (reactivate-Reactivated version vs) in
        rw (found, rollback, changed, first)
          (refl, rw (get-insert_self name ws m.secrets) (active later))
  ]
]

rotate-configs :
    (checked now done id : ℕ) (secret name : Bytes) (m : SecretRotationManager)
    {config : RotationConfig}
    → get name m.configs ≡ some config
    → (rotate checked now done id (ok secret) name m).0.configs ≡ m.configs
unfolding rotate install_version
rotate-configs checked now done id secret name m known =
    rw (known, rotate) (update_versions-configs (map deactivate) name m)

needs_rotation_within :
    (looked later until : ℕ) (name : Bytes) (m : SecretRotationManager) {config : RotationConfig}
    (v : SecretVersion)
    → get name m.configs ≡ some config
    → get_active looked name m ≡ (if leb looked until then some v else none)
    → v.expires_at ≡ until
    → looked ≤ later
    → needs_rotation looked later name m ≡ leb until (later + seconds config.grace_period_seconds)
unfolding needs_rotation
needs_rotation_within looked later until name m {config} v known active same order =
    elim (Bool-cases (leb looked until)) [
      | inl early ↦ rw (needs_rotation, known, (rw early at active)) (ground arith)
      | inr late ↦ rw (needs_rotation, known, (rw late at active)) (ground arith)
    ]

-- After a rotation that keeps the new version, the secret needs no other one until the grace period
-- before the new version's expiry begins, and needs one from then on.
pub needs_rotation-rotate :
    (checked now done id looked later : ℕ) (secret name : Bytes) (m : SecretRotationManager)
    {config : RotationConfig}
    → get name m.configs ≡ some config
    → 1 ≤ config.keep_versions
    → looked ≤ later
    → needs_rotation looked later name (rotate checked now done id (ok secret) name m).0
      ≡ leb (now + seconds config.ttl_seconds) (later + seconds config.grace_period_seconds)
needs_rotation-rotate checked now done id looked later secret name m {config} known keeps order =
    needs_rotation_within looked later (now + seconds config.ttl_seconds) name
      (rotate checked now done id (ok secret) name m).0 (rotated checked now config secret name m)
      (ap (get name) (rotate-configs checked now done id secret name m known) ∙ known)
      (rotate_active checked now done id looked secret name m known keeps) refl order
