-- ===== src/Audit/Worm/Startup.antt =====
-- The check at startup of crates/kms-audit/src/worm_writer.rs, on what the logger wrote.
use gm_kms.Base.{
  ℕ, none, some, [], ◌∷◌, inl, inr, ◌≡◌, ◌≢◌, ◌+◌, Bytes, true, false, Option, refl, arith, sym,
  Bool-cases, List, ◌==◌, bytes_Eq, ◌↔◌, Option-cases,
}
use gm_kms.Audit.Types.{AuditEvent, SignedAuditEntry}
use gm_kms.Audit.Entry.{Hmac, new, or_empty}
use gm_kms.Audit.Worm.{
  startup_verify_chain, verify_chain, find_break, compute_entry_hash, chain_new,
}
use gm_kms.Audit.Worm.RoundTrip.{signed}

differ-== : (h s : Bytes) → h ≢ s → (s == h) ≡ false
differ-== h s differ = elim (Bool-cases (s == h)) [
  | inl same ↦ absurd (differ (sym ((bytes_Eq.test_iff s h).0 same)))
  | inr other ↦ other
]

module _ (sha256 : Bytes → Bytes) (payload_json : AuditEvent → Bytes) where
  -- each entry names the hash of the entry before it; the first may name anything
  abbrev pub IsHashed : Option Bytes → List SignedAuditEntry → Type 0
  IsHashed prev [] = Unit
  IsHashed none (e ∷ es) = IsHashed (some (compute_entry_hash sha256 payload_json e)) es
  IsHashed (some h) (e ∷ es) =
      (or_empty e.previous_signature ≡ h)
      × IsHashed (some (compute_entry_hash sha256 payload_json e)) es

  find_break_iff :
      (prev : Option Bytes) (i : ℕ) (es : List SignedAuditEntry)
      → (find_break sha256 payload_json prev i es ≡ none) ↔ IsHashed prev es
  unfolding find_break
  find_break_iff prev i [] = (λ _. tt, λ _. refl)
  find_break_iff none i (e ∷ es) =
      find_break_iff (some (compute_entry_hash sha256 payload_json e)) (i + 1) es
  find_break_iff (some h) i (e ∷ es) = elim (Bool-cases (or_empty e.previous_signature == h)) [
    | inl same ↦
        let rest = find_break_iff (some (compute_entry_hash sha256 payload_json e)) (i + 1) es in
        rw (same, find_break)
          (
            λ q. ((bytes_Eq.test_iff (or_empty e.previous_signature) h).0 same, rest.0 q),
            λ q. rest.1 q.1,
          )
    | inr other ↦
        rw (other, find_break)
          (
            λ q. absurd (ground arith),
            λ q. absurd (ground (arith, bytes_Eq.test_iff (or_empty e.previous_signature) h)),
          )
  ]

  -- The check at startup accepts exactly the lists in which every entry after the first names the
  -- hash of the entry before it as its previous signature.
  pub startup_verify_chain_iff :
      (es : List SignedAuditEntry)
      → ((startup_verify_chain sha256 payload_json es).valid ≡ true) ↔ IsHashed none es
  unfolding startup_verify_chain verify_chain chain_new
  startup_verify_chain_iff [] = (λ _. tt, λ _. refl)
  startup_verify_chain_iff (e ∷ es) =
      let links = find_break_iff none 0 (e ∷ es) in
      elim (Option-cases (find_break sha256 payload_json none 0 (e ∷ es))) [
        | inl whole ↦ rw (startup_verify_chain, verify_chain, whole) (λ _. links.0 whole, λ _. refl)
        | inr (i, broken) ↦
            rw (startup_verify_chain, verify_chain, broken)
              (λ q. absurd (ground arith), λ q. absurd (ground (arith, links.1 q)))
      ]

  -- Each entry of the logger names the signature of the entry before it, and the check at startup
  -- looks for the entry's hash: it reports the second of the entries as broken, however many there
  -- are, unless the hash of the first entry is its signature.
  pub startup_verify_chain-signed :
      (hmac : Hmac) (key : Bytes) (first second : AuditEvent) (events : List AuditEvent)
      → compute_entry_hash sha256 payload_json (new hmac payload_json first 0 key none none)
        ≢ (new hmac payload_json first 0 key none none).signature
      → let report =
          startup_verify_chain sha256 payload_json
            (signed hmac payload_json key 0 none (first ∷ second ∷ events)) in
        (report.valid ≡ false) × (report.first_invalid_index ≡ some 1)
  unfolding startup_verify_chain verify_chain find_break new
  startup_verify_chain-signed hmac key first second events differ =
      rw
        (differ-==
          (compute_entry_hash sha256 payload_json (new hmac payload_json first 0 key none none))
          (new hmac payload_json first 0 key none none).signature differ)
        (refl, refl)
