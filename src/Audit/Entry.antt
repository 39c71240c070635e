-- ===== src/Audit/Entry.antt =====
-- crates/kms-audit/src/lib.rs: one signed entry. HMAC-SHA256 is the interface `Hmac`. The JSON text
-- of an event is a parameter, a function of the event with its metadata in the order in which this
-- instance of the HashMap goes through them; reading a text makes another instance (Reading).
pub mod Input
pub mod Reading
use gm_kms.Base.{
  ℕ, zero, suc, none, some, [], ◌∷◌, ◌++◌, ◌/◌, ◌%◌, ◌≡◌, ◌↔◌, Bytes, Bool, true, false, Option,
  bytes_Eq, ◌==◌, if◌then◌else◌, length,
}
use gm_kms.Audit.Types.{AuditEvent, TrustedTimestamp, SignedAuditEntry}

-- `ring::hmac` with HMAC_SHA256: a tag has 32 bytes, and only the tag of a message is accepted.
pub record Hmac : Type 0 where
  pub sign : Bytes → Bytes → Bytes
  pub verify_tag : Bytes → Bytes → Bytes → Bool
  pub sign_length : (key message : Bytes) → length (sign key message) ≡ 32
  pub verify_tag_iff :
      (key message tag : Bytes) → (verify_tag key message tag ≡ true) ↔ (tag ≡ sign key message)

-- `to_le_bytes`, in so many bytes
unfoldable pub le_bytes : ℕ → ℕ → Bytes
le_bytes zero n = []
le_bytes (suc w) n = n % 256 ∷ le_bytes w (n / 256)

-- the previous signature as it enters the signing input
abbrev pub or_empty : Option Bytes → Bytes
or_empty none = []
or_empty (some s) = s

module _ (hmac : Hmac) (payload_json : AuditEvent → Bytes) where
  unfoldable pub signing_input : ℕ → Option Bytes → AuditEvent → Bytes
  unfolding le_bytes
  signing_input sequence previous payload =
      le_bytes 8 sequence ++ (or_empty previous ++ payload_json payload)

  unfoldable pub new :
      AuditEvent → ℕ → Bytes → Option Bytes → Option TrustedTimestamp → SignedAuditEntry
  unfolding signing_input
  new payload sequence key previous timestamp = record {
    payload = payload;
    signature = hmac.sign key (signing_input sequence previous payload);
    sequence = sequence;
    previous_signature = previous;
    trusted_timestamp = timestamp;
  }

  unfoldable pub verify : Bytes → SignedAuditEntry → Bool
  unfolding signing_input
  verify key e =
      hmac.verify_tag key (signing_input e.sequence e.previous_signature e.payload) e.signature

  abbrev pub same_link : Option Bytes → Option Bytes → Bool
  same_link (some current) (some previous) = current == previous
  same_link none none = true
  same_link (some _) none = false
  same_link none (some _) = false

  unfoldable pub verify_chain : Bytes → Option Bytes → SignedAuditEntry → Bool
  unfolding verify
  verify_chain key previous e =
      if verify key e then same_link e.previous_signature previous else false
