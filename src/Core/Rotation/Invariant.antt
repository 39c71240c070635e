-- ===== src/Core/Rotation/Invariant.antt =====
-- What every call on the manager of crates/kms-core/src/secret_rotation.rs keeps.
use gm_kms.Base.{
  none, some, ◌∷◌, inl, inr, refl, ok, err, bytes_Eq, ℕ, ◌≤◌, ◌≡◌, List, Option, length, map, arith,
  ap, Option-cases, get, insert, HashMap, Bytes, Result, leb, if◌then◌else◌, get-insert, if-cases,
  ◌==◌, get-insert_self, ◌∙◌,
}
use gm_kms.Core.Rotation.{
  SecretVersion, SecretRotationManager, RotationConfig, deactivate, update_versions, or_default,
  install_version, new, register, rotate, rollback, reactivate, trim,
}
use gm_kms.Core.Rotation.Versions.{
  count_active, trim-take, count_active-take, length-take, count_active-map_deactivate, length-map,
  reactivate-Reactivated,
}

-- the number of versions that a configuration allows, and the one that registration makes
abbrev pub most_versions : RotationConfig → ℕ
most_versions config = if leb 1 config.keep_versions then config.keep_versions else 1

abbrev pub Allowed : Option RotationConfig → Option (List SecretVersion) → Type 0
Allowed found none = Unit
Allowed found (some versions) =
    (count_active versions ≤ 1)
    × (config : RotationConfig) × (found ≡ some config)
    × (length versions ≤ most_versions config)

abbrev pub Kept : HashMap Bytes (List SecretVersion) → HashMap Bytes RotationConfig → Type 0
Kept secrets configs = (name : Bytes) → Allowed (get name configs) (get name secrets)

abbrev pub IsWellFormed : SecretRotationManager → Type 0
IsWellFormed m = Kept m.secrets m.configs

insert-Kept :
    (name : Bytes) (versions : List SecretVersion) (secrets : HashMap Bytes (List SecretVersion))
    (configs : HashMap Bytes RotationConfig)
    → Kept secrets configs
    → Allowed (get name configs) (some versions)
    → Kept (insert name versions secrets) configs
insert-Kept name versions secrets configs h new other =
    rw (get-insert name other versions secrets) (
      if-cases (λ (o : Option (List SecretVersion)). Allowed (get other configs) o) (name == other)
        (λ same. rw (← (bytes_Eq.test_iff name other).0 same) new) (λ differ. h other))

pub update_versions-configs :
    (f : List SecretVersion → List SecretVersion) (name : Bytes) (m : SecretRotationManager)
    → (update_versions f name m).configs ≡ m.configs
unfolding update_versions
update_versions-configs f name m = elim (Option-cases (get name m.secrets)) [
  | inl missing ↦ rw (missing, update_versions) refl
  | inr (vs, found) ↦ rw (found, update_versions) refl
]

-- what the deactivation leaves under the name
pub deactivated :
    (name : Bytes) (m : SecretRotationManager)
    → or_default (get name (update_versions (map deactivate) name m).secrets)
      ≡ map deactivate (or_default (get name m.secrets))
unfolding update_versions
deactivated name m = elim (Option-cases (get name m.secrets)) [
  | inl missing ↦ rw (missing, update_versions, missing) refl
  | inr (vs, found) ↦
      rw (found, update_versions, get-insert_self name (map deactivate vs) m.secrets) refl
]

update_versions-IsWellFormed :
    (name : Bytes) (m : SecretRotationManager)
    → IsWellFormed m
    → IsWellFormed (update_versions (map deactivate) name m)
unfolding update_versions
update_versions-IsWellFormed name m h = elim (Option-cases (get name m.secrets)) [
  | inl missing ↦ rw (missing, update_versions) h
  | inr (vs, found) ↦
      let (one, config, known, short) = rw found at (h name) in
      rw (found, update_versions)
        (insert-Kept name (map deactivate vs) m.secrets m.configs h (
          omega (arith, count_active-map_deactivate vs),
          config,
          known,
          omega (arith, length-map deactivate vs),
        ))
]

-- one active version in front of inactive ones, trimmed
trim-few :
    (config : RotationConfig) (v : SecretVersion) (vs : List SecretVersion)
    → count_active vs ≡ 0
    → (count_active (trim config.keep_versions (v ∷ vs)) ≤ 1)
      × (length (trim config.keep_versions (v ∷ vs)) ≤ most_versions config)
trim-few config v vs quiet = rw (trim-take config.keep_versions (v ∷ vs)) (
  ground (arith, count_active-take config.keep_versions (v ∷ vs)),
  ground (arith, length-take config.keep_versions (v ∷ vs)),
)

install_version-IsWellFormed :
    (now done id : ℕ) (name : Bytes) (config : RotationConfig) (old : Option ℕ) (secret : Bytes)
    (m : SecretRotationManager)
    → IsWellFormed m
    → get name m.configs ≡ some config
    → count_active (or_default (get name m.secrets)) ≡ 0
    → IsWellFormed (install_version now done id name config old secret m).0
unfolding install_version
install_version-IsWellFormed now done id name config old secret m h known quiet =
    let few = trim-few config _ (or_default (get name m.secrets)) quiet in
    insert-Kept name _ m.secrets m.configs h (few.0, config, known, few.1)

rotate-IsWellFormed :
    (checked now done id : ℕ) (draw : Result Bytes Bytes) (name : Bytes) (m : SecretRotationManager)
    → IsWellFormed m
    → IsWellFormed (rotate checked now done id draw name m).0
unfolding rotate
rotate-IsWellFormed checked now done id (err e) name m h =
    elim (Option-cases (get name m.configs)) [
      | inl missing ↦ rw (missing, rotate) h
      | inr (config, found) ↦ rw (found, rotate) (update_versions-IsWellFormed name m h)
    ]
rotate-IsWellFormed checked now done id (ok secret) name m h =
    elim (Option-cases (get name m.configs)) [
      | inl missing ↦ rw (missing, rotate) h
      | inr (config, found) ↦
          rw (found, rotate)
            (install_version-IsWellFormed now done id name config _ secret
              (update_versions (map deactivate) name m) (update_versions-IsWellFormed name m h)
              (ap (get name) (update_versions-configs (map deactivate) name m) ∙ found)
              (ap count_active (deactivated name m)
                ∙ count_active-map_deactivate (or_default (get name m.secrets))))
    ]

rollback-IsWellFormed :
    (now id : ℕ) (name : Bytes) (version : ℕ) (m : SecretRotationManager)
    → IsWellFormed m
    → IsWellFormed (rollback now id name version m).0
unfolding rollback
rollback-IsWellFormed now id name version m h = elim (Option-cases (get name m.secrets)) [
  | inl missing ↦ rw (missing, rollback) h
  | inr (vs, found) ↦ elim (Option-cases (reactivate version vs)) [
    | inl absent ↦ rw (found, rollback, absent) h
    | inr (ws, changed) ↦
        let (few, config, known, short) = rw found at (h name) in
        let (one, same, target, first, active) =
          rw changed at (reactivate-Reactivated version vs) in
        rw (found, rollback, changed)
          (insert-Kept name ws m.secrets m.configs h (omega arith, config, known, omega arith))
  ]
]

register-IsWellFormed :
    (now : ℕ) (name secret : Bytes) (config : RotationConfig) (m : SecretRotationManager)
    → IsWellFormed m
    → IsWellFormed (register now name secret config m).0
unfolding register
register-IsWellFormed now name secret config m h other =
    rw (get-insert name other _ m.secrets, get-insert name other config m.configs)
      (if-cases
        (λ (o : Option (List SecretVersion)).
          Allowed (if name == other then some config else get other m.configs) o)
        (name == other) (λ same. rw same (omega arith, config, refl, ground arith))
        (λ differ. rw differ (h other)))

-- the calls that change a manager
pub data Step : SecretRotationManager → SecretRotationManager → Type 0 where
  registers :
      {m : SecretRotationManager} (now : ℕ) (name initial_secret : Bytes) (config : RotationConfig)
      → Step m (register now name initial_secret config m).0
  rotates :
      {m : SecretRotationManager} (checked now done id : ℕ) (draw : Result Bytes Bytes)
      (name : Bytes)
      → Step m (rotate checked now done id draw name m).0
  rolls_back :
      {m : SecretRotationManager} (now id : ℕ) (name : Bytes) (version : ℕ)
      → Step m (rollback now id name version m).0

pub data Reach : SecretRotationManager → Type 0 where
  start : Reach new
  next : {m n : SecretRotationManager} → Reach m → Step m n → Reach n

Step-IsWellFormed : {m n : SecretRotationManager} → Step m n → IsWellFormed m → IsWellFormed n
Step-IsWellFormed (registers {m} now name secret config) h =
    register-IsWellFormed now name secret config m h
Step-IsWellFormed (rotates {m} checked now done id draw name) h =
    rotate-IsWellFormed checked now done id draw name m h
Step-IsWellFormed (rolls_back {m} now id name version) h =
    rollback-IsWellFormed now id name version m h

-- Whatever was called, a secret has at most one active version, and no more versions than its
-- configuration keeps, though one at least.
pub Reach-IsWellFormed : {m : SecretRotationManager} → Reach m → IsWellFormed m
unfolding new get
Reach-IsWellFormed start = λ name. tt
Reach-IsWellFormed (next r s) = Step-IsWellFormed s (Reach-IsWellFormed r)
