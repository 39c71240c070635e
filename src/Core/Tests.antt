-- ===== src/Core/Tests.antt =====
-- Runs of the core library's parts (crates/kms-core).
use gm_kms.Base.{
  bytes_Eq, none, some, [], ◌∷◌, ok, refl, ◌≡◌, Bytes, true, ascii, arith, get, leb, if◌then◌else◌,
  ◌+◌,
}
use gm_kms.Core.Rotation.{
  SecretVersion, SecretRotationManager, default_config, new, register, rotate, rollback, get_active,
  seconds,
}
use gm_kms.Core.Rotation.Invariant.{
  start, next, registers, rotates, IsWellFormed, Reach-IsWellFormed,
}
use gm_kms.Core.Rotation.Outcomes.{rotated, rotate_active}
use gm_kms.Core.Rotation.Undo.{rollback-rotate}

abbrev name : Bytes
name = ascii "db"

abbrev first_secret : SecretVersion
first_secret = record {
  version = 1;
  secret = ascii "old";
  created_at = 0;
  expires_at = 86400000000000;
  active = true;
}

abbrev registered : SecretRotationManager
registered = record {
  secrets = (name, first_secret ∷ []) ∷ [];
  configs = (name, default_config) ∷ [];
  rotations = [];
}

registers_it : (register 0 name (ascii "old") default_config new).0 ≡ registered
unfolding register new
registers_it = refl

configured : get name registered.configs ≡ some default_config
unfolding get
configured = refl

Reach-IsWellFormed_example :
    IsWellFormed
      (rotate 5 5 6 1
        (ok (ascii "new"))
        name
        (register 0 name (ascii "old") default_config new).0).0
Reach-IsWellFormed_example = Reach-IsWellFormed (
    next (next start (registers 0 name (ascii "old") default_config))
      (rotates 5 5 6 1 (ok (ascii "new")) name))

rotate_active_example : get_active 7 name (rotate 5 5 6 1 (ok (ascii "new")) name registered).0 ≡ (
    if leb 7 (5 + seconds 86400)
    then some (rotated 5 5 default_config (ascii "new") name registered)
    else none)
rotate_active_example =
    rotate_active 5 5 6 1 7 (ascii "new") name registered configured (omega arith)

rollback-rotate_example :
    get_active 9 name (rollback 8 2 name 1 (rotate 5 5 6 1 (ok (ascii "new")) name registered).0).0
    ≡ some first_secret
unfolding get
rollback-rotate_example =
    rollback-rotate 5 5 6 1 8 2 9 (ascii "new") name registered first_secret [] configured refl refl
      (omega arith) (omega arith) (omega arith)
