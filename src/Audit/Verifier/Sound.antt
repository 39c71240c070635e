-- ===== src/Audit/Verifier/Sound.antt =====
-- Which files the verifier of crates/kms-audit/src/verifier.rs accepts.
use gm_kms.Base.{
  Result-cases, ℕ, none, some, [], ◌∷◌, ok, inl, inr, ◌≡◌, ◌↔◌, ◌+◌, Bytes, true, false, Option,
  refl, arith, ap, length, ◌∙◌, Bool-cases, Option-cases, List, Result, bytes_Eq, if-cases,
}
use gm_kms.Audit.Types.{AuditEvent, SignedAuditEntry}
use gm_kms.Audit.Entry.{Hmac, verify}
use gm_kms.Audit.Verifier.{verify_lines, verify_content, is_unlinked, lines, VerificationReport}

-- The link that a file has to have: the first entry may carry any.
abbrev pub IsLinked : Option Bytes → SignedAuditEntry → Type 0
IsLinked none e = Unit
IsLinked (some expected) e = e.previous_signature ≡ some expected

abbrev pub valid_report : ℕ → VerificationReport
valid_report n = record {
  valid = true;
  entries_checked = n;
  first_invalid_index = none;
  error = none;
}

is_unlinked_iff :
    (prev : Option Bytes) (e : SignedAuditEntry) → (is_unlinked prev e ≡ false) ↔ IsLinked prev e
is_unlinked_iff none e = ground arith
is_unlinked_iff (some expected) e = elim (Option-cases e.previous_signature) [
  | inl missing ↦ rw missing (ground arith)
  | inr (previous, found) ↦
      let same = bytes_Eq.test_iff previous expected in rw found (ground (arith, same))
]

module _ (hmac : Hmac) (payload_json : AuditEvent → Bytes)
    (parse : Bytes → Result Bytes SignedAuditEntry) where
  -- Every line is an entry that is signed with the key and linked to the entry before.
  abbrev pub IsValidAfter : Bytes → Option Bytes → List Bytes → Type 0
  IsValidAfter key prev [] = Unit
  IsValidAfter key prev (line ∷ rest) =
      (e : SignedAuditEntry) × (parse line ≡ ok e)
      × IsLinked prev e
      × (verify hmac payload_json key e ≡ true)
      × IsValidAfter key (some e.signature) rest

  -- once an entry was unlinked, the report is not valid
  verify_lines-broken :
      (key : Bytes) (prev : Option Bytes) (j i : ℕ) (ls : List Bytes)
      → (verify_lines hmac payload_json parse key prev (some j) i ls).valid ≡ false
  unfolding verify_lines
  verify_lines-broken key prev j i [] = refl
  verify_lines-broken key prev j i (line ∷ rest) = elim (Result-cases (parse line)) [
    | inl (e, bad) ↦ rw (verify_lines, bad) refl
    | inr (e, read) ↦
        rw (verify_lines, read)
          (if-cases (λ (r : VerificationReport). r.valid ≡ false) (verify hmac payload_json key e)
            (λ signed.
              if-cases
                (λ (first : Option ℕ).
                  (verify_lines hmac payload_json parse key (some e.signature) first (i + 1)
                    rest).valid
                  ≡ false)
                (is_unlinked prev e)
                (λ _. verify_lines-broken key (some e.signature) j (i + 1) rest)
                (λ _. verify_lines-broken key (some e.signature) j (i + 1) rest))
            (λ forged. refl))
  ]

  pub verify_lines-IsValidAfter :
      (key : Bytes) (prev : Option Bytes) (i : ℕ) (ls : List Bytes)
      → IsValidAfter key prev ls
      → verify_lines hmac payload_json parse key prev none i ls ≡ valid_report (i + length ls)
  unfolding verify_lines
  verify_lines-IsValidAfter key prev i [] h = ap valid_report (omega arith)
  verify_lines-IsValidAfter key prev i (line ∷ rest) (e, read, linked, signed, h) =
      rw (verify_lines, read, signed, (is_unlinked_iff prev e).1 linked)
        (verify_lines-IsValidAfter key (some e.signature) (i + 1) rest h
          ∙ ap valid_report (omega arith))

  IsValidAfter-verify_lines :
      (key : Bytes) (prev : Option Bytes) (i : ℕ) (ls : List Bytes)
      → (verify_lines hmac payload_json parse key prev none i ls).valid ≡ true
      → IsValidAfter key prev ls
  unfolding verify_lines
  IsValidAfter-verify_lines key prev i [] h = tt
  IsValidAfter-verify_lines key prev i (line ∷ rest) h = elim (Result-cases (parse line)) [
    | inl (e, bad) ↦ absurd (ground (arith, rw (verify_lines, bad) at h))
    | inr (e, read) ↦ elim (Bool-cases (verify hmac payload_json key e)) [
      | inl signed ↦ elim (Bool-cases (is_unlinked prev e)) [
        | inl unlinked ↦ absurd (
            ground (
              arith,
              rw (verify_lines, read, signed, unlinked) at h,
              verify_lines-broken key (some e.signature) i (i + 1) rest,
            ))
        | inr linked ↦ (
          e,
          read,
          (is_unlinked_iff prev e).0 linked,
          signed,
          IsValidAfter-verify_lines key (some e.signature) (i + 1) rest
              (rw (verify_lines, read, signed, linked) at h),
        )
      ]
      | inr forged ↦ absurd (ground (arith, rw (verify_lines, read, forged) at h))
    ]
  ]

  -- The report on a text is valid exactly if every line is an entry that is signed with the key and
  -- linked to the entry before; the first entry may carry any link.
  pub verify_content_iff :
      (key content : Bytes)
      → ((verify_content hmac payload_json parse key content).valid ≡ true)
        ↔ IsValidAfter key none (lines content)
  unfolding verify_content
  verify_content_iff key content = (
    λ h. IsValidAfter-verify_lines key none 0 (lines content) h,
    λ h.
        ap (λ (r : VerificationReport). r.valid)
          (verify_lines-IsValidAfter key none 0 (lines content) h),
  )
