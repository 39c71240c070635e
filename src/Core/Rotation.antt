-- ===== src/Core/Rotation.antt =====
-- crates/kms-core/src/secret_rotation.rs: versioned secrets. Instants are nanoseconds, and every
-- reading of the clock is an argument, as are the outcome of the random generator and the ids. At
-- most one version is active, so that a search for it reads the clock once at most. Lengths of time
-- are within what `Duration::seconds` takes.
pub mod Versions
pub mod Invariant
pub mod Outcomes
pub mod Undo
use gm_kms.Base.{
  none, some, [], ◌∷◌, zero, suc, bytes_Eq, ℕ, ◌+◌, ◌*◌, ◌%◌, ◌^◌, List, Option, Bool, Bytes,
  HashMap, Result, ok, err, true, false, length, push, get, insert, map, filter, ltb, leb, not,
  ◌&&◌, ◌==◌, if◌then◌else◌, nat_eq, ascii,
}
use mathlib.Core.Option

pub data SecretType : Type 0 where
  database_credential api_key tls_certificate generic_secret : SecretType

pub record SecretVersion : Type 0 where
  pub version : ℕ
  pub secret : Bytes
  pub created_at : ℕ
  pub expires_at : ℕ
  pub active : Bool

pub record RotationConfig : Type 0 where
  pub secret_type : SecretType
  pub ttl_seconds : ℕ
  pub grace_period_seconds : ℕ
  pub keep_versions : ℕ
  pub pre_validate : Option Bytes
  pub post_validate : Option Bytes

abbrev pub default_config : RotationConfig
default_config = record {
  secret_type = generic_secret;
  ttl_seconds = 86400;
  grace_period_seconds = 3600;
  keep_versions = 3;
  pre_validate = none;
  post_validate = none;
}

pub data RotationState : Type 0 where
  idle pending rotating validating rolling_back completed failed : RotationState

pub record SecretRotation : Type 0 where
  pub id : ℕ
  pub secret_name : Bytes
  pub tenant_id : Bytes
  pub state : RotationState
  pub old_version : Option ℕ
  pub new_version : Option ℕ
  pub error : Option Bytes
  pub started_at : ℕ
  pub completed_at : Option ℕ

pub record SecretRotationManager : Type 0 where
  pub secrets : HashMap Bytes (List SecretVersion)
  pub configs : HashMap Bytes RotationConfig
  pub rotations : List SecretRotation

-- the texts of `Error::Internal`, by their format strings
pub data RotationError : Type 0 where
  secret_not_found : Bytes → RotationError
  version_not_found : ℕ → RotationError
  csprng_failure : Bytes → RotationError

abbrev pub seconds : ℕ → ℕ
seconds n = n * 1000000000

abbrev pub is_expired : ℕ → SecretVersion → Bool
is_expired now v = ltb v.expires_at now

-- `iter().find`
abbrev pub find_version : (SecretVersion → Bool) → List SecretVersion → Option SecretVersion
find_version p [] = none
find_version p (v ∷ vs) = let rest = find_version p vs in if p v then some v else rest

abbrev pub deactivate : SecretVersion → SecretVersion
deactivate v = record v { active = false }

-- `versions.pop()`
abbrev pub pop : List SecretVersion → List SecretVersion
pop [] = []
pop (v ∷ []) = []
pop (v ∷ w ∷ vs) = v ∷ pop (w ∷ vs)

-- `while versions.len() > keep { versions.pop(); }`, with a turn for every version
unfoldable pub trim_turns : ℕ → ℕ → List SecretVersion → List SecretVersion
trim_turns zero keep vs = vs
trim_turns (suc turns) keep vs =
    let rest = trim_turns turns keep (pop vs) in if ltb keep (length vs) then rest else vs

unfoldable pub trim : ℕ → List SecretVersion → List SecretVersion
unfolding trim_turns
trim keep vs = trim_turns (length vs) keep vs

unfoldable pub new : SecretRotationManager
new = record { secrets = []; configs = []; rotations = [] }

unfoldable pub register :
    ℕ → Bytes → Bytes → RotationConfig → SecretRotationManager → SecretRotationManager × ℕ
unfolding insert
register now name initial_secret config m = (
  record m {
    secrets =
        insert name
          (record {
            version = 1;
            secret = initial_secret;
            created_at = now;
            expires_at = now + seconds config.ttl_seconds;
            active = true;
          }
            ∷ [])
          m.secrets;
    configs = insert name config m.configs;
  },
  1,
)

abbrev pub is_current : ℕ → SecretVersion → Bool
is_current now v = v.active && not (is_expired now v)

unfoldable pub get_active : ℕ → Bytes → SecretRotationManager → Option SecretVersion
unfolding get
get_active now name m = Option.bind (get name m.secrets) (find_version (is_current now))

unfoldable pub needs_rotation : ℕ → ℕ → Bytes → SecretRotationManager → Bool
unfolding get get_active
needs_rotation checked now name m = elim (get name m.configs) [
  | none ↦ true
  | some config ↦ elim (get_active checked name m) [
    | none ↦ true
    | some active ↦ leb active.expires_at (now + seconds config.grace_period_seconds)
  ]
]

-- `if let Some(versions) = self.secrets.get_mut(name) { … }`
unfoldable pub update_versions :
    (List SecretVersion → List SecretVersion)
    → Bytes
    → SecretRotationManager
    → SecretRotationManager
unfolding get insert
update_versions f name m = elim (get name m.secrets) [
  | none ↦ m
  | some versions ↦ record m { secrets = insert name (f versions) m.secrets }
]

abbrev pub or_default : Option (List SecretVersion) → List SecretVersion
or_default none = []
or_default (some versions) = versions

abbrev pub next_version : Option ℕ → ℕ
next_version none = 1
next_version (some old) = (old + 1) % 2 ^ 32

-- the part of `rotate` after the draw of the new secret
unfoldable pub install_version :
    ℕ
    → ℕ
    → ℕ
    → Bytes
    → RotationConfig
    → Option ℕ
    → Bytes
    → SecretRotationManager
    → SecretRotationManager × SecretRotation
unfolding get insert trim
install_version now done id name config old_version new_secret m =
    let new_version : SecretVersion = record {
      version = next_version old_version;
      secret = new_secret;
      created_at = now;
      expires_at = now + seconds config.ttl_seconds;
      active = true;
    } in
    let rotation : SecretRotation = record {
      id = id;
      secret_name = name;
      tenant_id = ascii "default";
      state = completed;
      old_version = old_version;
      new_version = some (next_version old_version);
      error = none;
      started_at = now;
      completed_at = some done;
    } in
    (
      record m {
        secrets =
            insert name (trim config.keep_versions (new_version ∷ or_default (get name m.secrets)))
              m.secrets;
        rotations = push m.rotations rotation;
      },
      rotation,
    )

-- The draw is `random_bytes(32)`. A failed draw comes after the deactivation.
unfoldable pub rotate :
    ℕ
    → ℕ
    → ℕ
    → ℕ
    → Result Bytes Bytes
    → Bytes
    → SecretRotationManager
    → SecretRotationManager × Result RotationError SecretRotation
unfolding get get_active update_versions install_version
rotate checked now done id draw name m = elim (get name m.configs) [
  | none ↦ (m, err (secret_not_found name))
  | some config ↦
      let old_version = Option.map (λ (v : SecretVersion). v.version) (get_active checked name m) in
      let quiet = update_versions (map deactivate) name m in
      elim draw [
        | err e ↦ (quiet, err (csprng_failure e))
        | ok new_secret ↦
            let made = install_version now done id name config old_version new_secret quiet in
            (made.0, ok made.1)
      ]
]

unfoldable pub get_history : Bytes → SecretRotationManager → List SecretRotation
get_history name m = filter (λ r. r.secret_name == name) m.rotations

-- Deactivates all, and reactivates the first of the version; `none` where there is none.
unfoldable pub reactivate : ℕ → List SecretVersion → Option (List SecretVersion)
reactivate version [] = none
reactivate version (v ∷ vs) =
    let rest = Option.map (λ ws. deactivate v ∷ ws) (reactivate version vs) in
    if nat_eq v.version version then some (record v { active = true } ∷ map deactivate vs) else rest

abbrev pub is_other_active : ℕ → SecretVersion → Bool
is_other_active version v = v.active && not (nat_eq v.version version)

unfoldable pub rollback :
    ℕ
    → ℕ
    → Bytes
    → ℕ
    → SecretRotationManager
    → SecretRotationManager × Result RotationError SecretRotation
unfolding get insert reactivate
rollback now id name version m = elim (get name m.secrets) [
  | none ↦ (m, err (secret_not_found name))
  | some versions ↦ elim (reactivate version versions) [
    | none ↦ (m, err (version_not_found version))
    | some changed ↦
        let rotation : SecretRotation = record {
          id = id;
          secret_name = name;
          tenant_id = ascii "default";
          state = completed;
          old_version =
              Option.map (λ (v : SecretVersion). v.version)
                (find_version (is_other_active version) changed);
          new_version = some version;
          error = none;
          started_at = now;
          completed_at = some now;
        } in
        (
          record m {
            secrets = insert name changed m.secrets;
            rotations = push m.rotations rotation;
          },
          ok rotation,
        )
  ]
]
