-- ===== src/Mfa/Totp/Codes.antt =====
-- The codes of crates/kms-mfa/src/totp.rs: that there always is one, and which.
use Prim.Native.Nat.pow
use gm_kms.Base.{
  ℕ, zero, suc, none, some, ok, [], ◌⊎◌, sym, ◌∙◌, Option, ◌∷◌, ◌++◌, ◌-◌, nat_eq, ltb, Bool-cases,
  inl, inr, true, false, ◌+◌, ◌*◌, ◌<◌, ◌≤◌, ◌≡◌, ◌^◌, ◌%◌, ◌/◌, Bytes, refl, arith, ap, length,
  All,
}
use mathlib.Core.Path.{subst}
use gm_kms.Core.Aad.{be_bytes}
use gm_kms.Mfa.Totp.{
  TotpConfig, TotpAlgorithm, Hashes, sha1, sha256, sha512, hmac, hmac_by, hmac_sha1, hmac_sha256,
  hmac_sha512, at, last, truncate, modulus, zeros, decimal, decimal_turns, new, padded_decimal,
  compute_hotp, join_bytes,
}

at_within : (i : ℕ) (t : Bytes) → i < length t → (b : ℕ) × (at i t ≡ some b)
at_within i [] h = absurd (ground arith)
at_within zero (b ∷ t) h = (b, refl)
at_within (suc i) (b ∷ t) h = at_within i t (omega arith)

last_within : (b : ℕ) (t : Bytes) → (c : ℕ) × (last (b ∷ t) ≡ some c)
last_within b [] = (b, refl)
last_within b (c ∷ t) = last_within c t

truncate_within : (tag : Bytes) → 19 ≤ length tag → (n : ℕ) × (truncate tag ≡ some n)
unfolding truncate
truncate_within [] h = absurd (ground arith)
truncate_within (first ∷ t) h =
    let (final, e) = last_within first t in
    let (a, ea) = at_within (final % 16) (first ∷ t) (omega arith) in
    let (b, eb) = at_within (final % 16 + 1) (first ∷ t) (omega arith) in
    let (c, ec) = at_within (final % 16 + 2) (first ∷ t) (omega arith) in
    let (d, ed) = at_within (final % 16 + 3) (first ∷ t) (omega arith) in
    (join_bytes a b c d, rw (e, ea, eb, ec, ed) refl)

length-decimal_turns :
    (turns width n : ℕ) (t : Bytes)
    → n < 10 ^ suc width
    → length (decimal_turns turns n t) ≤ suc width + length t
unfolding decimal_turns
length-decimal_turns zero width n t small = omega arith
length-decimal_turns (suc turns) zero n t small =
    let last_digit : ltb n 10 ≡ true = ground (arith, pow.suc 10 zero) in
    rw last_digit (omega arith)
length-decimal_turns (suc turns) (suc width) n t small =
    let rest =
      length-decimal_turns turns width (n / 10) ((48 + n % 10) ∷ t)
        (omega (arith, pow.suc 10 (suc width))) in
    elim (Bool-cases (ltb n 10)) [
      | inl last_digit ↦ rw last_digit (omega arith)
      | inr more ↦ rw more (omega (arith, rest))
    ]

length-zeros : (n : ℕ) → length (zeros n) ≡ n
length-zeros zero = refl
length-zeros (suc n) = ap suc (length-zeros n)

length-append : (s t : Bytes) → length (s ++ t) ≡ length s + length t
length-append [] t = omega arith
length-append (c ∷ s) t = let e = length-append s t in omega (arith, e)

-- A number below 10^width fills the width.
pub length-padded_decimal :
    (width n : ℕ) → n < 10 ^ suc width → length (padded_decimal (suc width) n) ≡ suc width
unfolding padded_decimal decimal
length-padded_decimal width n small =
    let t = decimal_turns 20 n [] in
    let l = length-decimal_turns 20 width n [] small in
    let z = length-zeros (suc width - length t) in
    let e = length-append (zeros (suc width - length t)) t in omega (arith, e, z, l)

-- the number that decimal digits stand for, after those that were read
abbrev pub value : ℕ → Bytes → ℕ
value n [] = n
value n (c ∷ t) = value (n * 10 + (c - 48)) t

value-decimal_turns :
    (turns n : ℕ) (t : Bytes) → n < 10 ^ turns → value 0 (decimal_turns turns n t) ≡ value n t
unfolding decimal_turns
value-decimal_turns zero n t small = ap (λ m. value m t) (omega (arith, small))
value-decimal_turns (suc turns) n t small =
    let ih =
      value-decimal_turns turns (n / 10) ((48 + n % 10) ∷ t) (omega (arith, pow.suc 10 turns)) in
    elim (Bool-cases (ltb n 10)) [
      | inl last_digit ↦ rw last_digit (ap (λ m. value m t) (omega arith))
      | inr more ↦ rw more (ih ∙ ap (λ m. value m t) (omega arith))
    ]

value-zeros : (k : ℕ) (t : Bytes) → value 0 (zeros k ++ t) ≡ value 0 t
value-zeros zero t = refl
value-zeros (suc k) t = value-zeros k t

-- the characters from 0 to 9
abbrev pub IsDigit : ℕ → Type 0
IsDigit c = (48 ≤ c) × (c ≤ 57)

IsDigit-decimal_turns :
    (turns n : ℕ) (t : Bytes) → All IsDigit t → All IsDigit (decimal_turns turns n t)
unfolding decimal_turns
IsDigit-decimal_turns zero n t h = h
IsDigit-decimal_turns (suc turns) n t h =
    let rest =
      IsDigit-decimal_turns turns (n / 10) ((48 + n % 10) ∷ t) ((omega arith, omega arith), h) in
    elim (Bool-cases (ltb n 10)) [
      | inl last_digit ↦ rw last_digit ((omega arith, ground arith), h)
      | inr more ↦ rw more rest
    ]

IsDigit-zeros : (k : ℕ) (t : Bytes) → All IsDigit t → All IsDigit (zeros k ++ t)
IsDigit-zeros zero t h = h
IsDigit-zeros (suc k) t h = ((omega arith, omega arith), IsDigit-zeros k t h)

IsDigit-padded_decimal : (width n : ℕ) → All IsDigit (padded_decimal width n)
unfolding padded_decimal decimal
IsDigit-padded_decimal width n =
    let t = decimal_turns 20 n [] in
    IsDigit-zeros (width - length t) t (IsDigit-decimal_turns 20 n [] tt)

-- A padded number reads as itself.
value-padded_decimal : (width n : ℕ) → n < 2 ^ 32 → value 0 (padded_decimal width n) ≡ n
unfolding padded_decimal decimal
value-padded_decimal width n small =
    let t = decimal_turns 20 n [] in
    value-zeros (width - length t) t ∙ value-decimal_turns 20 n [] (omega arith)

abbrev IsSupported : ℕ → Type 0
IsSupported d = (d ≡ 6) ⊎ (d ≡ 7) ⊎ (d ≡ 8)

digits-cases : (config : TotpConfig) → new config ≡ ok config → IsSupported config.digits
unfolding new
digits-cases config accepted =
    let low : 6 ≤ config.digits = ground arith in
    let high : config.digits ≤ 8 = ground arith in
    elim (Bool-cases (nat_eq config.digits 6)) [
      | inl six ↦ inl (ground arith)
      | inr other ↦ elim (Bool-cases (nat_eq config.digits 7)) [
        | inl seven ↦ inr (inl (ground arith))
        | inr eight ↦ inr (inr (ground arith))
      ]
    ]

-- the modulus of the supported numbers of digits does not wrap
abbrev IsExact : ℕ → Type 0
IsExact d =
    (nat_eq (10 ^ d % 2 ^ 32) 0 ≡ false)
    × (10 ^ d % 2 ^ 32 ≡ 10 ^ d)
    × ((binary : ℕ) → length (padded_decimal d (binary % (10 ^ d % 2 ^ 32))) ≡ d)

exact : (d : ℕ) → IsSupported d → IsExact d
exact d (inl e) =
    subst IsExact (sym e)
      (refl, refl, λ binary. length-padded_decimal 5 (binary % 1000000) (omega arith))
exact d (inr (inl e)) =
    subst IsExact (sym e)
      (refl, refl, λ binary. length-padded_decimal 6 (binary % 10000000) (omega arith))
exact d (inr (inr e)) =
    subst IsExact (sym e)
      (refl, refl, λ binary. length-padded_decimal 7 (binary % 100000000) (omega arith))

below : (n w : ℕ) → nat_eq (w % 2 ^ 32) 0 ≡ false → n % (w % 2 ^ 32) < 2 ^ 32
below n w usable = grind arith

module _ (hashes : Hashes) where
  length-hmac :
      (algorithm : TotpAlgorithm) (key message : Bytes)
      → 19 ≤ length (hmac hashes algorithm key message)
  unfolding hmac hmac_by hmac_sha1 hmac_sha256 hmac_sha512
  length-hmac sha1 key message = rw (hashes.sha1_length _) (omega arith)
  length-hmac sha256 key message = rw (hashes.sha256_length _) (omega arith)
  length-hmac sha512 key message = rw (hashes.sha512_length _) (omega arith)

  -- what `compute_hotp` returns where it does not panic
  abbrev pub hotp : TotpConfig → ℕ → Bytes
  hotp config counter = elim (compute_hotp hashes config counter) [ none ↦ [] | some code ↦ code ]

  -- the number in the tag of a counter, by the dynamic truncation
  abbrev pub tag_number : TotpConfig → ℕ → Option ℕ
  tag_number config counter =
      truncate (hmac hashes config.algorithm config.secret (be_bytes 8 counter))

  module _ (config : TotpConfig) where
    -- the modulus has not wrapped to zero
    abbrev pub IsUsable : Type 0
    IsUsable = nat_eq (modulus hashes config) 0 ≡ false

    computed :
        (counter : ℕ)
        → IsUsable
        → (binary : ℕ) × (tag_number config counter ≡ some binary)
          × (compute_hotp hashes config counter
              ≡ some (padded_decimal config.digits (binary % modulus hashes config)))
    unfolding compute_hotp
    computed counter usable =
        let (binary, e) =
          truncate_within (hmac hashes config.algorithm config.secret (be_bytes 8 counter))
            (length-hmac config.algorithm config.secret (be_bytes 8 counter)) in
        (binary, e, rw (e, usable) refl)

    pub compute_hotp-hotp :
        (counter : ℕ) → IsUsable → compute_hotp hashes config counter ≡ some (hotp config counter)
    compute_hotp-hotp counter usable =
        let (binary, tagged, e) = computed counter usable in
        e ∙ ap (λ (o : Option Bytes). some (elim o [ none ↦ [] | some code ↦ code ])) (sym e)

    pub compute_hotp-unusable :
        (counter : ℕ)
        → nat_eq (modulus hashes config) 0 ≡ true
        → compute_hotp hashes config counter ≡ none
    unfolding compute_hotp
    compute_hotp-unusable counter wrapped =
        let (binary, e) =
          truncate_within (hmac hashes config.algorithm config.secret (be_bytes 8 counter))
            (length-hmac config.algorithm config.secret (be_bytes 8 counter)) in
        rw (e, wrapped) refl

  -- For every counter a generator whose configuration `new` accepts computes a code without a panic: it
  -- has as many decimal digits as configured, and nothing else, and reads as the number in the tag of
  -- the counter modulo that power of ten.
  pub compute_hotp-digits :
      (config : TotpConfig) (counter : ℕ)
      → new config ≡ ok config
      → (code : Bytes) × (binary : ℕ) × (compute_hotp hashes config counter ≡ some code)
        × (length code ≡ config.digits)
        × All IsDigit code
        × (tag_number config counter ≡ some binary)
        × (value 0 code ≡ binary % 10 ^ config.digits)
  compute_hotp-digits config counter accepted =
      let cases = digits-cases config accepted in
      let (usable, whole, filled) = exact config.digits cases in
      let (binary, tagged, e) = computed config counter usable in
      let n = binary % modulus hashes config in
      (
        padded_decimal config.digits n,
        binary,
        e,
        filled binary,
        IsDigit-padded_decimal config.digits n,
        tagged,
        value-padded_decimal config.digits n (below binary (10 ^ config.digits) usable)
            ∙ ap (λ m. binary % m) whole,
      )
