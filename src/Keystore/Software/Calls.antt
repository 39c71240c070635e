-- ===== src/Keystore/Software/Calls.antt =====
-- Runs of calls on one key of the software key store (crates/kms-keystore/src/software/mod.rs).
use gm_kms.Base.{
  ℕ, suc, some, [], ◌∷◌, ◌+◌, ◌<◌, ◌^◌, ◌≡◌, ok, inl, inr, refl, Bytes, true, false, List, nat_Eq,
  bytes_Eq, ==_refl, get, insert, get-insert_self, length, All, arith, ap, sym, ◌∙◌, Bool-cases,
  nat_eq_iff,
}
use mathlib.Core.Path.{subst}
use gm_kms.Core.Key.{
  KeySpec, Ciphertext, KeyStatus, can_decrypt, can_rotate, status_eq, active, pending_deletion,
}
use gm_kms.Keystore.Software.{
  KeyEntry, Keys, Crypto, Generator, random_bytes, sm2_scalar, generator_of, generate_material,
  Draw, find_entry,
}
use gm_kms.Keystore.Software.Lifecycle.{rotate_key, rotate_entry, rotated_entry, delete_key}
use gm_kms.Keystore.Software.Ciphers.{encrypt, encrypt_by, decrypt, decrypt_by, material_of}
use gm_kms.Keystore.Software.Versions.{
  IsOrdered, holds, material_of-holds, rotated_entry-holds, rotated_entry-IsOrdered,
}
use gm_kms.Keystore.Software.RoundTrip.{IsGenerated, opened}

pub data Call : Type 0 where
  rotating : ℕ → Draw → Call
  deleting : Call

-- the generator of the scalars does not fail
abbrev pub IsDrawn : Call → Type 0
IsDrawn (rotating now draw) = (s : Bytes) × (draw.scalar ≡ ok s)
IsDrawn deleting = Unit

module _ (key_id : ℕ) (tenant_id : Bytes) where
  abbrev pub call : Call → Keys → Keys
  call (rotating now draw) keys = (rotate_key now draw key_id tenant_id keys).0
  call deleting keys = (delete_key key_id tenant_id keys).0

  abbrev pub calls : List Call → Keys → Keys
  calls [] keys = keys
  calls (a ∷ rest) keys = calls rest (call a keys)

  pub find_entry-get :
      (keys : Keys) (e : KeyEntry)
      → get key_id keys ≡ some e
      → e.meta.tenant_id ≡ tenant_id
      → find_entry key_id tenant_id keys ≡ ok e
  unfolding find_entry
  find_entry-get keys e there owner =
      rw (there, owner, find_entry) (ground (arith, ==_refl tenant_id))

  -- The key is there, with the material of the version, and may be rotated so many times.
  abbrev Keeps : KeySpec → ℕ → Bytes → ℕ → Keys → Type 0
  Keeps spec version material turns keys =
      (e : KeyEntry) × (get key_id keys ≡ some e)
      × (e.meta.tenant_id ≡ tenant_id)
      × (e.meta.spec ≡ spec)
      × IsOrdered e
      × (holds version e ≡ some material)
      × (can_decrypt e.meta.status ≡ true)
      × (e.meta.version + turns < 2 ^ 32)

  generated :
      (draw : Draw) (g : Generator)
      → (s : Bytes) × (draw.scalar ≡ ok s)
      → (material : Bytes) × (generate_material draw g ≡ ok material)
  generated draw (random_bytes n) (s, made) = (draw.bytes n, refl)
  generated draw sm2_scalar (s, made) = (s, rw made refl)

  pub rotate_key_done :
      (now : ℕ) (draw : Draw) (keys : Keys) (e : KeyEntry) (g : Generator) (fresh : Bytes)
      → find_entry key_id tenant_id keys ≡ ok e
      → can_rotate e.meta.status ≡ true
      → generator_of e.meta.spec ≡ some g
      → generate_material draw g ≡ ok fresh
      → (rotate_key now draw key_id tenant_id keys).0
        ≡ insert key_id (rotated_entry now fresh e) keys
  unfolding rotate_key rotate_entry
  rotate_key_done now draw keys e g fresh found may made generates =
      rw (rotate_key, found, may, rotate_entry, made, generates) refl

  rotate_key_refused :
      (now : ℕ) (draw : Draw) (keys : Keys) (e : KeyEntry)
      → find_entry key_id tenant_id keys ≡ ok e
      → can_rotate e.meta.status ≡ false
      → (rotate_key now draw key_id tenant_id keys).0 ≡ keys
  unfolding rotate_key
  rotate_key_refused now draw keys e found may_not = rw (rotate_key, found, may_not) refl

  pub delete_key_done :
      (keys : Keys) (e : KeyEntry)
      → find_entry key_id tenant_id keys ≡ ok e
      → delete_key key_id tenant_id keys ≡ (
        insert key_id (record e { meta = record e.meta { status = pending_deletion } }) keys,
        ok tt,
      )
  unfolding delete_key
  delete_key_done keys e found = rw (delete_key, found) refl

  call-Keeps :
      (spec : KeySpec) (version : ℕ) (material : Bytes) (turns : ℕ) (a : Call) (keys : Keys)
      → IsGenerated spec
      → IsDrawn a
      → Keeps spec version material (suc turns) keys
      → Keeps spec version material turns (call a keys)
  call-Keeps spec version material turns (rotating now draw) keys (g, made) drawn
        (e, there, owner, kind, ordered, kept, readable, small) =
      elim (Bool-cases (can_rotate e.meta.status)) [
        | inl may ↦
            let (fresh, generates) = generated draw g drawn in
            subst (Keeps spec version material turns)
              (sym (
                rotate_key_done now draw keys e g fresh (find_entry-get keys e there owner) may
                  (ap generator_of kind ∙ made) generates))
              (
                rotated_entry now fresh e,
                get-insert_self key_id (rotated_entry now fresh e) keys,
                owner,
                kind,
                rotated_entry-IsOrdered now fresh e ordered (omega arith),
                rotated_entry-holds now version fresh e ordered (omega arith) kept,
                refl,
                omega arith,
              )
        | inr may_not ↦
            subst (Keeps spec version material turns)
              (sym (rotate_key_refused now draw keys e (find_entry-get keys e there owner) may_not))
              (e, there, owner, kind, ordered, kept, readable, omega arith)
      ]
  call-Keeps spec version material turns deleting keys (g, made) drawn
        (e, there, owner, kind, ordered, kept, readable, small) =
      subst (Keeps spec version material turns)
        (sym (ap (λ r. r.0) (delete_key_done keys e (find_entry-get keys e there owner))))
        (
          record e { meta = record e.meta { status = pending_deletion } },
          get-insert_self key_id (record e { meta = record e.meta { status = pending_deletion } })
              keys,
          owner,
          kind,
          ordered,
          kept,
          refl,
          omega arith,
        )

  calls-Keeps :
      (spec : KeySpec) (version : ℕ) (material : Bytes) (rest : List Call) (keys : Keys)
      → IsGenerated spec
      → All IsDrawn rest
      → Keeps spec version material (length rest) keys
      → Keeps spec version material 0 (calls rest keys)
  calls-Keeps spec version material [] keys made drawn kept = kept
  calls-Keeps spec version material (a ∷ rest) keys made drawn kept =
      calls-Keeps spec version material rest (call a keys) made drawn.1
        (call-Keeps spec version material (length rest) a keys made drawn.0 kept)

  module _ (crypto : Crypto) where
    encrypted :
        (draw plain : Bytes) (keys : Keys) (e : KeyEntry) (c : Ciphertext)
        → find_entry key_id tenant_id keys ≡ ok e
        → encrypt crypto draw key_id plain tenant_id keys ≡ ok c
        → (status_eq e.meta.status active ≡ true)
          × (encrypt_by crypto e.meta.spec draw key_id e plain ≡ ok c)
    unfolding encrypt
    encrypted draw plain keys e c found h = elim (Bool-cases (status_eq e.meta.status active)) [
      | inl usable ↦ (usable, rw (encrypt, found, usable) at h)
      | inr unusable ↦ absurd (ground (arith, rw (encrypt, found, unusable) at h))
    ]

    held : (e : KeyEntry) → holds e.meta.version e ≡ some e.material
    held e = ground (arith, nat_eq_iff e.meta.version e.meta.version)

    readable_active : (s : KeyStatus) → status_eq s active ≡ true → can_decrypt s ≡ true
    readable_active s h = ground arith

    decrypted :
        (keys : Keys) (later : KeyEntry) (c : Ciphertext) (spec : KeySpec) (version : ℕ)
        (material plain : Bytes)
        → find_entry key_id tenant_id keys ≡ ok later
        → can_decrypt later.meta.status ≡ true
        → later.meta.spec ≡ spec
        → c.version ≡ version
        → material_of key_id version later ≡ ok material
        → decrypt_by crypto spec key_id later material c ≡ ok plain
        → decrypt crypto key_id c tenant_id keys ≡ ok plain
    unfolding decrypt
    decrypted keys later c spec version material plain found readable kind same kept opens =
        rw (decrypt, found, readable)
          (rw (ap (λ v. material_of key_id v later) same ∙ kept)
            (ap (λ k. decrypt_by crypto k key_id later material c) kind ∙ opens))

    -- What was encrypted with a key is decrypted to the same text after any number of rotations and
    -- deletions of the key, whose generator does not fail, as long as its version is a u32.
    pub decrypt-encrypt :
        (draw plain : Bytes) (keys : Keys) (e : KeyEntry) (c : Ciphertext) (rest : List Call)
        → get key_id keys ≡ some e
        → e.meta.tenant_id ≡ tenant_id
        → IsOrdered e
        → e.meta.version + length rest < 2 ^ 32
        → All IsDrawn rest
        → encrypt crypto draw key_id plain tenant_id keys ≡ ok c
        → decrypt crypto key_id c tenant_id (calls rest keys) ≡ ok plain
    decrypt-encrypt draw plain keys e c rest there owner ordered small drawn h =
        let (usable, made) = encrypted draw plain keys e c (find_entry-get keys e there owner) h in
        let generates = (opened crypto e.meta.spec draw key_id e e plain c refl made).0 in
        let (later, there', owner', kind, ordered', kept, readable, small') =
          calls-Keeps e.meta.spec e.meta.version e.material rest keys generates drawn
            (e, there, owner, refl, ordered, held e, readable_active e.meta.status usable, small) in
        let (same, opens) =
          (opened crypto e.meta.spec draw key_id e later plain c (owner' ∙ sym owner) made).1 in
        decrypted (calls rest keys) later c e.meta.spec e.meta.version e.material plain
          (find_entry-get (calls rest keys) later there' owner') readable kind same
          (material_of-holds key_id e.meta.version later kept) opens
