-- ===== src/Mfa/BackupCodes/Generated.antt =====
-- The recovery codes that `generate` of crates/kms-mfa/src/backup_codes.rs makes, and what `load`
-- makes of them.
use mathlib.Core.Path.{subst}
use mathlib.Core.Option.{some-injective}
use gm_kms.Base.{
  ℕ, refl, none, some, [], ◌∷◌, inl, inr, bytes_Eq, ◌+◌, ◌<◌, List, length, Bytes, ◌≤◌, push, ◌≡◌,
  ◌||◌, All, arith, ◌==◌, true, length-push, any-push, All-push, All-imp, ==_refl, ◌∙◌, Option,
  if-cases, Option-cases, false, ltb, Bool-cases, ltb→lt, ap, ◌≢◌, Bool, not, ◌&&◌,
}
use gm_kms.Mfa.BackupCodes.{
  BackupCode, BackupCodeGenerator, contains, add, single_code, load_codes, load, fresh_code,
  hash_code, draw_codes, generate, is_valid_code,
}

contains-push :
    (codes : List Bytes) (c h : Bytes) → contains (push codes c) h ≡ (contains codes h || (c == h))
contains-push codes c h = any-push (λ d. d == h) codes c

single_code-length : (draw : ℕ) → length (single_code draw) ≡ 8
unfolding single_code
single_code-length draw = refl

module _ (sha256_hex : Bytes → Bytes) where
  -- what the loop keeps
  pub record IsDrawn (count : ℕ) (codes : List Bytes) (shown : List BackupCode) : Type 0 where
    pub few : length codes ≤ count
    pub paired : length shown ≡ length codes
    pub valid : All (λ b. contains codes (hash_code sha256_hex b.code) ≡ true) shown
    pub eight : All (λ b. length b.code ≡ 8) shown

  push-IsDrawn :
      (draw count : ℕ) (codes : List Bytes) (shown : List BackupCode)
      → length codes < count
      → IsDrawn count codes shown
      → IsDrawn count
          (push codes (hash_code sha256_hex (single_code draw)))
          (push shown (fresh_code (single_code draw)))
  push-IsDrawn draw count codes shown room h = record {
    few = omega (arith, length-push codes (hash_code sha256_hex (single_code draw)));
    paired = omega (
      arith,
      h.paired,
      length-push codes (hash_code sha256_hex (single_code draw)),
      length-push shown (fresh_code (single_code draw)),
    );
    valid =
        All-push _ shown (fresh_code (single_code draw))
          (All-imp
            (λ b v. ground (
              arith,
              contains-push codes (hash_code sha256_hex (single_code draw))
                  (hash_code sha256_hex b.code),
            ))
            shown h.valid)
          (ground (
            arith,
            contains-push codes (hash_code sha256_hex (single_code draw))
                (hash_code sha256_hex (single_code draw)),
            ==_refl (hash_code sha256_hex (single_code draw)),
          ));
    eight = All-push _ shown (fresh_code (single_code draw)) h.eight (single_code-length draw);
  }

  abbrev AllDrawn : ℕ → Option (List Bytes × List BackupCode) → Type 0
  AllDrawn count none = Unit
  AllDrawn count (some made) = IsDrawn count made.0 made.1 × (length made.0 ≡ count)

  draw_codes-AllDrawn :
      (draws : List ℕ) (count : ℕ) (codes : List Bytes) (shown : List BackupCode)
      → IsDrawn count codes shown
      → AllDrawn count (draw_codes sha256_hex draws count codes shown)
  unfolding draw_codes
  draw_codes-AllDrawn [] count codes shown h =
      if-cases (AllDrawn count) (ltb (length codes) count) (λ short. tt)
        (λ full. (h, ground (arith, h.few)))
  draw_codes-AllDrawn (draw ∷ draws) count codes shown h =
      if-cases (AllDrawn count) (ltb (length codes) count)
        (λ short.
          if-cases (AllDrawn count) (contains codes (hash_code sha256_hex (single_code draw)))
            (λ again. draw_codes-AllDrawn draws count codes shown h)
            (λ new.
              draw_codes-AllDrawn draws count _ _
                (push-IsDrawn draw count codes shown (ltb→lt _ _ short) h)))
        (λ full. (h, ground (arith, h.few)))

  generated :
      (draws : List ℕ) (count : ℕ) {g : BackupCodeGenerator} {shown : List BackupCode}
      → generate sha256_hex draws count ≡ some (g, shown)
      → IsDrawn count g.codes shown × ((length g.codes ≡ count) × (g.remaining ≡ count))
  unfolding generate
  generated draws count {g} {shown} h =
      elim (Option-cases (draw_codes sha256_hex draws count [] [])) [
        | inl short ↦ absurd (ground arith)
        | inr (made, e) ↦
            let all_drawn : AllDrawn count (some made) = subst (AllDrawn count) e (
              draw_codes-AllDrawn draws count [] []
                (record { few = omega arith; paired = refl; valid = tt; eight = tt })) in
            subst
              (λ (r : BackupCodeGenerator × List BackupCode).
                IsDrawn count r.0.codes r.1
                × ((length r.0.codes ≡ count) × (r.0.remaining ≡ count)))
              (some-injective _ (g, shown) (rw (generate, e) at h))
              (all_drawn.0, (all_drawn.1, refl))
      ]

  -- Generation makes as many codes as asked for, counts them as remaining, and shows one text for
  -- each, which is valid.
  pub generate_lem :
      (draws : List ℕ) (count : ℕ) {g : BackupCodeGenerator} {shown : List BackupCode}
      → generate sha256_hex draws count ≡ some (g, shown)
      → (length g.codes ≡ count)
        × ((g.remaining ≡ count)
            × ((length shown ≡ count) × All (λ b. is_valid_code sha256_hex b.code g ≡ true) shown))
  unfolding is_valid_code
  generate_lem draws count h =
      let (drawn, (full, left)) = generated draws count h in
      (full, (left, (drawn.paired ∙ full, drawn.valid)))

  load_codes-eight :
      (shown : List BackupCode) (codes : List Bytes) (remaining : ℕ)
      → All (λ b. length b.code ≡ 8) shown
      → All (λ c. length c ≡ 8) codes
      → All (λ c. length c ≡ 8) (load_codes shown codes remaining).codes
  unfolding load_codes
  load_codes-eight [] codes remaining h hs = hs
  load_codes-eight (b ∷ shown) codes remaining h hs =
      if-cases (λ (g : BackupCodeGenerator). All (λ c. length c ≡ 8) g.codes) b.used
        (λ used. load_codes-eight shown codes remaining h.1 hs)
        (λ unused. load_codes-eight shown (add b.code codes) (remaining + 1) h.1 (
          if-cases (All (λ c. length c ≡ 8)) (contains codes b.code) (λ there. hs)
            (λ new. All-push _ codes b.code hs h.0)))

  too_long :
      (hash : Bytes) (codes : List Bytes)
      → length hash ≡ 64
      → All (λ c. length c ≡ 8) codes
      → contains codes hash ≡ false
  too_long hash [] l h = refl
  too_long hash (c ∷ codes) l h = elim (Bool-cases (c == hash)) [
    | inl same ↦ absurd (omega (arith, l, h.0, ap length ((bytes_Eq.test_iff c hash).0 same)))
    | inr other ↦ rw other (too_long hash codes l h.1)
  ]

  -- The texts that generation shows are not what loading reads: where a hash has 64 characters, a
  -- generator that is loaded from them accepts no code at all.
  pub load-generate :
      (draws : List ℕ) (count : ℕ) (code : Bytes) {g : BackupCodeGenerator}
      {shown : List BackupCode}
      → ((t : Bytes) → length (sha256_hex t) ≡ 64)
      → generate sha256_hex draws count ≡ some (g, shown)
      → is_valid_code sha256_hex code (load shown) ≡ false
  unfolding is_valid_code load hash_code
  load-generate draws count code {g} {shown} sixty_four h =
      let (drawn, rest) = generated draws count h in
      too_long (hash_code sha256_hex code) (load shown).codes (sixty_four _)
        (load_codes-eight shown [] 0 drawn.eight tt)

  -- no draw repeats a code that is there or was drawn before
  abbrev pub are_new : List ℕ → List Bytes → Bool
  are_new [] codes = true
  are_new (draw ∷ draws) codes =
      not (contains codes (hash_code sha256_hex (single_code draw)))
      && are_new draws (push codes (hash_code sha256_hex (single_code draw)))

  draw_codes_ends :
      (draws : List ℕ) (count : ℕ) (codes : List Bytes) (shown : List BackupCode)
      → are_new draws codes ≡ true
      → count ≤ length codes + length draws
      → draw_codes sha256_hex draws count codes shown ≢ none
  unfolding draw_codes
  draw_codes_ends [] count codes shown new enough e = ground arith
  draw_codes_ends (draw ∷ draws) count codes shown new enough e =
      let hash = hash_code sha256_hex (single_code draw) in
      ground (
        arith,
        length-push codes hash,
        draw_codes_ends draws count (push codes hash) (push shown (fresh_code (single_code draw))),
      )

  -- Generation ends as soon as it has drawn as many different codes as were asked for.
  pub generate_ends :
      (draws : List ℕ) (count : ℕ)
      → are_new draws [] ≡ true
      → count ≤ length draws
      → generate sha256_hex draws count ≢ none
  unfolding generate
  generate_ends draws count new enough =
      ground (arith, draw_codes_ends draws count [] [] new (omega arith))
