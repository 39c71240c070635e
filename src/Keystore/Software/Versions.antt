-- ===== src/Keystore/Software/Versions.antt =====
-- Which material the software key store (crates/kms-keystore/src/software/mod.rs) keeps for a version.
use gm_kms.Base.{
  ℕ, some, [], ◌∷◌, ◌+◌, ◌<◌, ◌%◌, ◌^◌, ◌≡◌, ok, inl, inr, Bytes, Option, List, nat_Eq, nat_eq,
  push, All, All-push, All-imp, arith, Bool-cases, if◌then◌else◌, nat_eq_iff,
}
use gm_kms.Keystore.Software.{KeyEntry, find_version}
use gm_kms.Keystore.Software.Lifecycle.{rotated_entry}
use gm_kms.Keystore.Software.Ciphers.{material_of}

-- the history holds older versions only
abbrev pub IsOrdered : KeyEntry → Type 0
IsOrdered e = All (λ (v : ℕ × Bytes). v.0 < e.meta.version) e.versions

find_version-push_new :
    (n : ℕ) (versions : List (ℕ × Bytes)) (material : Bytes)
    → All (λ (v : ℕ × Bytes). v.0 < n) versions
    → find_version n (push versions (n, material)) ≡ some material
find_version-push_new n [] material h = ground (arith, nat_eq_iff n n)
find_version-push_new n ((v, m) ∷ versions) material h =
    ground (arith, find_version-push_new n versions material h.1)

find_version-push_old :
    (n : ℕ) (versions : List (ℕ × Bytes)) (entry : ℕ × Bytes) (material : Bytes)
    → find_version n versions ≡ some material
    → find_version n (push versions entry) ≡ some material
find_version-push_old n [] entry material h = absurd (ground arith)
find_version-push_old n ((v, m) ∷ versions) entry material h =
    ground (arith, find_version-push_old n versions entry material)

find_version-lt :
    (n limit : ℕ) (versions : List (ℕ × Bytes)) (material : Bytes)
    → All (λ (v : ℕ × Bytes). v.0 < limit) versions
    → find_version n versions ≡ some material
    → n < limit
find_version-lt n limit [] material h found = absurd (ground arith)
find_version-lt n limit ((v, m) ∷ versions) material h found =
    ground (arith, find_version-lt n limit versions material h.1, h.0)

-- what the entry holds for a version
abbrev pub holds : ℕ → KeyEntry → Option Bytes
holds version e =
    if nat_eq version e.meta.version then some e.material else find_version version e.versions

pub material_of-holds :
    (key_id version : ℕ) (e : KeyEntry) {material : Bytes}
    → holds version e ≡ some material
    → material_of key_id version e ≡ ok material
unfolding material_of
material_of-holds key_id version e h = ground arith

-- A rotation keeps the material of every version.
pub rotated_entry-holds :
    (now version : ℕ) (fresh : Bytes) (e : KeyEntry) {material : Bytes}
    → IsOrdered e
    → e.meta.version + 1 < 2 ^ 32
    → holds version e ≡ some material
    → holds version (rotated_entry now fresh e) ≡ some material
rotated_entry-holds now version fresh e {material} ordered small h =
    elim (Bool-cases (nat_eq version e.meta.version)) [
      | inl current ↦ ground (
        arith,
        find_version-push_new e.meta.version e.versions e.material ordered,
        (nat_eq_iff version e.meta.version).0 current,
      )
      | inr older ↦ ground (
        arith,
        find_version-push_old version e.versions (e.meta.version, e.material) material,
        find_version-lt version e.meta.version e.versions material ordered,
      )
    ]

pub rotated_entry-IsOrdered :
    (now : ℕ) (fresh : Bytes) (e : KeyEntry)
    → IsOrdered e
    → e.meta.version + 1 < 2 ^ 32
    → IsOrdered (rotated_entry now fresh e)
rotated_entry-IsOrdered now fresh e ordered small =
    All-push (λ (v : ℕ × Bytes). v.0 < (e.meta.version + 1) % 2 ^ 32) e.versions
      (e.meta.version, e.material) (All-imp (λ v older. omega arith) e.versions ordered)
      (omega arith)
