-- ===== src/Mfa/Totp/Window.antt =====
-- Which codes the validation of crates/kms-mfa/src/totp.rs accepts.
use gm_kms.Base.{
  ℕ, zero, suc, some, inl, inr, ◌+◌, ◌-◌, ◌<◌, ◌≤◌, ◌≡◌, ◌≢◌, ◌↔◌, ◌⊎◌, ◌^◌, ◌%◌, ◌/◌, Bytes, Bool,
  refl, arith, ap, true, Bool-cases, Option-cases, bytes_Eq, ◌==◌, leb, if◌then◌else◌, sym, ◌∙◌,
  nat_eq, leb→le, le→leb, nat_eq_iff,
}
use gm_kms.Mfa.Totp.{
  TotpConfig, Hashes, compute_hotp, validate_deltas, validate_at_timestamp, generate_at_timestamp,
  TotpCode, modulus,
}
use gm_kms.Mfa.Totp.Codes.{hotp, IsUsable, compute_hotp-hotp, compute_hotp-unusable}
use native.Mathlib.Nat.{mod-eq_of_lt}
use mathlib.Core.Option.{some-injective, none-ne-some}

either_true : (a : Bool) → (if a then some true else some true) ≡ some true
either_true a = ground arith

all_true :
    (a b c : Bool)
    → (if a then some true else if b then (if c then some true else some true) else some true)
      ≡ some true
all_true a b c = ground arith

module _ (hashes : Hashes) where
  -- the code of a counter that is no further away than the deltas that are left
  abbrev pub IsNear : TotpConfig → Bytes → ℕ → ℕ → ℕ → Type 0
  IsNear config code counter delta turns =
      (d : ℕ) × (delta ≤ d)
      × (d < delta + turns)
      × ((hotp hashes config (counter + d) ≡ code)
          ⊎ ((d ≤ counter) × (hotp hashes config (counter - d) ≡ code)))

  -- one turn of the loop, on the codes
  turn :
      (config : TotpConfig) (code : Bytes) (counter delta turns : ℕ)
      → IsUsable hashes config
      → counter + delta < 2 ^ 64
      → validate_deltas hashes config code counter delta (suc turns) ≡ (
          if hotp hashes config (counter + delta) == code
          then some true
          else if leb delta counter
          then (if hotp hashes config (counter - delta) == code
              then some true
              else validate_deltas hashes config code counter (delta + 1) turns)
          else validate_deltas hashes config code counter (delta + 1) turns)
  unfolding validate_deltas
  turn config code counter delta turns usable small =
      rw
        (
          validate_deltas,
          mod-eq_of_lt small,
          compute_hotp-hotp hashes config (counter + delta) usable,
          compute_hotp-hotp hashes config (counter - delta) usable,
        )
        refl

  IsNear-later :
      (config : TotpConfig) (code : Bytes) (counter delta turns : ℕ)
      → IsNear config code counter (delta + 1) turns
      → IsNear config code counter delta (suc turns)
  IsNear-later config code counter delta turns (d, low, high, found) =
      (d, omega arith, omega arith, found)

  -- the delta itself, or a later one
  IsNear-cases :
      (config : TotpConfig) (code : Bytes) (counter delta turns : ℕ)
      → IsNear config code counter delta (suc turns)
      → ((hotp hashes config (counter + delta) ≡ code)
          ⊎ ((delta ≤ counter) × (hotp hashes config (counter - delta) ≡ code)))
        ⊎ IsNear config code counter (delta + 1) turns
  IsNear-cases config code counter delta turns (d, low, high, found) =
      elim (Bool-cases (nat_eq d delta)) [
        | inl same ↦ inl (rw ((nat_eq_iff d delta).0 same) at found)
        | inr other ↦ inr (d, ground arith, omega arith, found)
      ]

  validate_deltas-IsNear :
      (config : TotpConfig) (code : Bytes) (counter delta turns : ℕ)
      → IsUsable hashes config
      → counter + delta + turns < 2 ^ 64
      → validate_deltas hashes config code counter delta turns ≡ some true
      → IsNear config code counter delta turns
  unfolding validate_deltas
  validate_deltas-IsNear config code counter delta zero usable small h = absurd (ground arith)
  validate_deltas-IsNear config code counter delta (suc turns) usable small h =
      let forward = bytes_Eq.test_iff (hotp hashes config (counter + delta)) code in
      let backward = bytes_Eq.test_iff (hotp hashes config (counter - delta)) code in
      let tested = sym (turn config code counter delta turns usable (omega arith)) ∙ h in
      let rest = IsNear-later config code counter delta turns in
      let later =
        validate_deltas-IsNear config code counter (delta + 1) turns usable (omega arith) in
      elim (Bool-cases (hotp hashes config (counter + delta) == code)) [
        | inl ahead ↦ (delta, omega arith, omega arith, inl (forward.0 ahead))
        | inr not_ahead ↦ elim (Bool-cases (leb delta counter)) [
          | inl within ↦ elim (Bool-cases (hotp hashes config (counter - delta) == code)) [
            | inl behind ↦
                (delta, omega arith, omega arith, inr (leb→le _ _ within, backward.0 behind))
            | inr not_behind ↦ rest (later (rw (not_ahead, within, not_behind) at tested))
          ]
          | inr start ↦ rest (later (rw (not_ahead, start) at tested))
        ]
      ]

  IsNear-validate_deltas :
      (config : TotpConfig) (code : Bytes) (counter delta turns : ℕ)
      → IsUsable hashes config
      → counter + delta + turns < 2 ^ 64
      → IsNear config code counter delta turns
      → validate_deltas hashes config code counter delta turns ≡ some true
  IsNear-validate_deltas config code counter delta zero usable small (d, low, high, found) =
      absurd (omega arith)
  IsNear-validate_deltas config code counter delta (suc turns) usable small near =
      let forward = bytes_Eq.test_iff (hotp hashes config (counter + delta)) code in
      let backward = bytes_Eq.test_iff (hotp hashes config (counter - delta)) code in
      turn config code counter delta turns usable (omega arith)
      ∙ elim (IsNear-cases config code counter delta turns near) [
        | inl (inl ahead) ↦ rw (forward.1 ahead) refl
        | inl (inr (within, behind)) ↦
            rw (le→leb delta counter within, backward.1 behind)
              (either_true (hotp hashes config (counter + delta) == code))
        | inr later ↦
            rw
              (IsNear-validate_deltas config code counter (delta + 1) turns usable (omega arith)
                later)
              (all_true (hotp hashes config (counter + delta) == code) (leb delta counter)
                (hotp hashes config (counter - delta) == code))
      ]

  -- a modulus that has wrapped to zero: every validation panics
  validate_deltas-none :
      (config : TotpConfig) (code : Bytes) (counter delta turns : ℕ)
      → nat_eq (modulus hashes config) 0 ≡ true
      → validate_deltas hashes config code counter delta turns ≢ some true
  unfolding validate_deltas
  validate_deltas-none config code counter delta zero wrapped h = absurd (ground arith)
  validate_deltas-none config code counter delta (suc turns) wrapped h =
      let panics = compute_hotp-unusable hashes config ((counter + delta) % 2 ^ 64) wrapped in
      none-ne-some _ (rw (validate_deltas, panics) at h)

  usable_iff :
      (code : Bytes) (timestamp : ℕ) (config : TotpConfig)
      → IsUsable hashes config
      → timestamp / config.time_step + config.window + 1 < 2 ^ 64
      → (validate_at_timestamp hashes code timestamp config ≡ some true) ↔ (
          (k : ℕ) × (k ≤ timestamp / config.time_step + config.window)
          × (timestamp / config.time_step ≤ k + config.window)
          × (compute_hotp hashes config k ≡ some code))
  unfolding validate_at_timestamp
  usable_iff code timestamp config usable small = (
    λ h. of_near (timestamp / config.time_step) (
        validate_deltas-IsNear config code (timestamp / config.time_step) 0 (config.window + 1)
          usable (omega arith) h),
    λ (k, low, high, found).
        IsNear-validate_deltas config code (timestamp / config.time_step) 0 (config.window + 1)
          usable (omega arith)
          (to_near (timestamp / config.time_step) k low high
            (some-injective _ _ (sym (compute_hotp-hotp hashes config k usable) ∙ found))),
  )
    where
      of_near :
          (counter : ℕ)
          → IsNear config code counter 0 (config.window + 1)
          → (k : ℕ) × (k ≤ counter + config.window)
            × (counter ≤ k + config.window)
            × (compute_hotp hashes config k ≡ some code)
      of_near counter (d, low, high, inl ahead) = (
        counter + d,
        omega arith,
        omega arith,
        compute_hotp-hotp hashes config (counter + d) usable ∙ ap some ahead,
      )
      of_near counter (d, low, high, inr (within, behind)) = (
        counter - d,
        omega arith,
        omega arith,
        compute_hotp-hotp hashes config (counter - d) usable ∙ ap some behind,
      )

      to_near :
          (counter k : ℕ)
          → k ≤ counter + config.window
          → counter ≤ k + config.window
          → hotp hashes config k ≡ code
          → IsNear config code counter 0 (config.window + 1)
      to_near counter k low high found = elim (Bool-cases (leb counter k)) [
        | inl ahead ↦ (
          k - counter,
          omega arith,
          omega arith,
          inl (ap (hotp hashes config) (ground arith) ∙ found),
        )
        | inr behind ↦ (
          counter - k,
          omega arith,
          ground arith,
          inr (omega arith, ap (hotp hashes config) (ground arith) ∙ found),
        )
      ]

  -- At an instant whose counter is far from the largest one, exactly the codes of the counters within
  -- the window are accepted, on both sides of the instant's own.
  pub validate_at_timestamp_iff :
      (code : Bytes) (timestamp : ℕ) (config : TotpConfig)
      → timestamp / config.time_step + config.window + 1 < 2 ^ 64
      → (validate_at_timestamp hashes code timestamp config ≡ some true) ↔ (
          (k : ℕ) × (k ≤ timestamp / config.time_step + config.window)
          × (timestamp / config.time_step ≤ k + config.window)
          × (compute_hotp hashes config k ≡ some code))
  unfolding validate_at_timestamp
  validate_at_timestamp_iff code timestamp config small =
      elim (Bool-cases (nat_eq (modulus hashes config) 0)) [
        | inl wrapped ↦ (
          λ h. absurd (validate_deltas-none config code _ 0 (config.window + 1) wrapped h),
          λ (k, low, high, found).
              absurd (none-ne-some _ (sym (compute_hotp-unusable hashes config k wrapped) ∙ found)),
        )
        | inr usable ↦ usable_iff code timestamp config usable small
      ]

  generated :
      (timestamp : ℕ) (config : TotpConfig) (c : TotpCode)
      → generate_at_timestamp hashes timestamp config ≡ some c
      → compute_hotp hashes config (timestamp / config.time_step) ≡ some c.code
  unfolding generate_at_timestamp
  generated timestamp config c h =
      elim (Option-cases (compute_hotp hashes config (timestamp / config.time_step))) [
        | inl missing ↦ absurd (none-ne-some _ (rw missing at h))
        | inr (code, e) ↦
            e ∙ ap (λ (made : TotpCode). some made.code) (some-injective _ _ (rw e at h))
      ]

  -- A code that was generated at one instant is accepted at every instant whose counter is within the
  -- window of that one's, as often as it is shown.
  pub validate_at_timestamp-generate_at_timestamp :
      (made shown : ℕ) (config : TotpConfig) (c : TotpCode)
      → generate_at_timestamp hashes made config ≡ some c
      → made / config.time_step ≤ shown / config.time_step + config.window
      → shown / config.time_step ≤ made / config.time_step + config.window
      → shown / config.time_step + config.window + 1 < 2 ^ 64
      → validate_at_timestamp hashes c.code shown config ≡ some true
  validate_at_timestamp-generate_at_timestamp made shown config c h low high small =
      (validate_at_timestamp_iff c.code shown config small).1
        (made / config.time_step, low, high, generated made config c h)
