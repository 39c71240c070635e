-- ===== src/Audit/Verifier/Tamper.antt =====
-- What a file that the verifier of crates/kms-audit/src/verifier.rs accepts says about the entries
-- that were signed.
use gm_kms.Base.{
  append_injective, some, [], ◌∷◌, ◌++◌, inl, inr, ◌≡◌, ◌≢◌, ◌<◌, ◌^◌, ◌⊎◌, Bytes, true, Option,
  arith, ap, length, sym, ◌∙◌, Bool-cases, List, ◌==◌, bytes_Eq,
}
use gm_kms.Audit.Types.{AuditEvent, SignedAuditEntry}
use gm_kms.Audit.Entry.{Hmac, verify, signing_input, or_empty, le_bytes}
use gm_kms.Audit.Entry.Input.{length-le_bytes, le_bytes_injective}
use gm_kms.Audit.Verifier.Sound.{IsLinked}

-- the signature of the last entry
abbrev pub last_signature : Bytes → List SignedAuditEntry → Bytes
last_signature s [] = s
last_signature s (e ∷ es) = last_signature e.signature es

-- a sequence number is a u64
abbrev pub IsNumbered : SignedAuditEntry → Type 0
IsNumbered e = e.sequence < 2 ^ 64

module _ (hmac : Hmac) (payload_json : AuditEvent → Bytes) where
  -- what of an entry was signed
  abbrev pub input_of : SignedAuditEntry → Bytes
  input_of e = signing_input hmac payload_json e.sequence e.previous_signature e.payload

  -- what was signed of the two entries differs, and has one tag
  abbrev pub IsCollision : Bytes → SignedAuditEntry → SignedAuditEntry → Type 0
  IsCollision key e f =
      (input_of e ≢ input_of f) × (hmac.sign key (input_of e) ≡ hmac.sign key (input_of f))

  -- two entries at one place of the two lists
  abbrev pub Collision : Bytes → List SignedAuditEntry → List SignedAuditEntry → Type 0
  Collision key [] fs = ⊥
  Collision key (e ∷ es) [] = ⊥
  Collision key (e ∷ es) (f ∷ fs) = IsCollision key e f ⊎ Collision key es fs

  abbrev pub IsChain : Bytes → Option Bytes → List SignedAuditEntry → Type 0
  IsChain key prev [] = Unit
  IsChain key prev (e ∷ es) =
      IsLinked prev e × (verify hmac payload_json key e ≡ true) × IsChain key (some e.signature) es

  -- the entries after the first, with all that is signed of them
  abbrev pub SameRest : List SignedAuditEntry → List SignedAuditEntry → Type 0
  SameRest [] [] = Unit
  SameRest [] (f ∷ fs) = ⊥
  SameRest (e ∷ es) [] = ⊥
  SameRest (e ∷ es) (f ∷ fs) =
      (e.signature ≡ f.signature)
      × (e.sequence ≡ f.sequence)
      × (e.previous_signature ≡ f.previous_signature)
      × (payload_json e.payload ≡ payload_json f.payload)
      × SameRest es fs

  -- of the first entry the link and the event are signed as one text
  abbrev pub SameLog : List SignedAuditEntry → List SignedAuditEntry → Type 0
  SameLog [] [] = Unit
  SameLog [] (f ∷ fs) = ⊥
  SameLog (e ∷ es) [] = ⊥
  SameLog (e ∷ es) (f ∷ fs) =
      (e.signature ≡ f.signature)
      × (e.sequence ≡ f.sequence)
      × (or_empty e.previous_signature ++ payload_json e.payload
          ≡ or_empty f.previous_signature ++ payload_json f.payload)
      × SameRest es fs

  verified :
      (key : Bytes) (e : SignedAuditEntry)
      → verify hmac payload_json key e ≡ true
      → e.signature
        ≡ hmac.sign key (signing_input hmac payload_json e.sequence e.previous_signature e.payload)
  unfolding verify
  verified key e h = (hmac.verify_tag_iff key _ _).0 h

  pub verified_length :
      (key : Bytes) (e : SignedAuditEntry)
      → verify hmac payload_json key e ≡ true
      → length e.signature ≡ 32
  verified_length key e h = ap length (verified key e h) ∙ hmac.sign_length key _

  -- one signature of two entries: they were signed alike, or there is a collision
  pub same_signature :
      (key : Bytes) (e f : SignedAuditEntry)
      → verify hmac payload_json key e ≡ true
      → verify hmac payload_json key f ≡ true
      → e.signature ≡ f.signature
      → IsNumbered e
      → IsNumbered f
      → IsCollision key e f
        ⊎ ((e.sequence ≡ f.sequence)
            × (or_empty e.previous_signature ++ payload_json e.payload
                ≡ or_empty f.previous_signature ++ payload_json f.payload))
  unfolding signing_input
  same_signature key e f he hf same small small' = elim (Bool-cases (x == y)) [
    | inl alike ↦
        let parts =
          append_injective (le_bytes 8 e.sequence) (le_bytes 8 f.sequence) _ _
            (length-le_bytes 8 e.sequence ∙ sym (length-le_bytes 8 f.sequence))
            ((bytes_Eq.test_iff x y).0 alike) in
        inr (le_bytes_injective 8 e.sequence f.sequence small small' parts.0, parts.1)
    | inr differ ↦ inl (
      λ e. ground (arith, bytes_Eq.test_iff x y),
      sym (verified key e he) ∙ (same ∙ verified key f hf),
    )
  ]
    where
      x : Bytes
      x = input_of e

      y : Bytes
      y = input_of f
