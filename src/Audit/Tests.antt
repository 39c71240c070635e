-- ===== src/Audit/Tests.antt =====
-- Runs of the audit log (crates/kms-audit), with toys for the hash, the tag and the JSON texts: a tag
-- repeats the sum of the message.
use gm_kms.Base.{
  ℕ, zero, suc, none, some, [], ◌∷◌, ◌+◌, ok, err, inr, refl, ◌≡◌, ◌≢◌, ◌↔◌, ◌⊎◌, Bytes, true,
  false, List, Result, bytes_Eq, ◌==◌, if◌then◌else◌, ascii, All, arith,
}
use gm_kms.Audit.Types.{AuditEvent, SignedAuditEntry, key_created, key_rotated}
use gm_kms.Policy.Json.{null, pos}
use gm_kms.Audit.Entry.{Hmac, new}
use gm_kms.Audit.Verifier.{verify_content, lines}
use gm_kms.Audit.Verifier.Sound.{valid_report, verify_content_iff, IsValidAfter}
use gm_kms.Audit.Verifier.Tamper.{Collision, SameLog, IsNumbered}
use gm_kms.Audit.Entry.Reading.{IsReordered}
use gm_kms.Audit.Verifier.Chain.{verify_content_tamper, verify_content_truncated, entries_in}
use gm_kms.Audit.Worm.{logger_new, startup_verify_chain, compute_entry_hash}
use gm_kms.Audit.Worm.RoundTrip.{signed, log_all, IsRead, verify_content-log_all}
use gm_kms.Audit.Worm.Startup.{startup_verify_chain-signed}

abbrev repeat : ℕ → ℕ → Bytes
repeat zero b = []
repeat (suc n) b = b ∷ repeat n b

abbrev sum : Bytes → ℕ
sum [] = 0
sum (b ∷ t) = b + sum t

abbrev toy_sign : Bytes → Bytes → Bytes
toy_sign key message = repeat 32 (sum key + sum message)

abbrev toy : Hmac
toy = record {
  sign = toy_sign;
  verify_tag = λ key message tag. tag == toy_sign key message;
  sign_length = λ key message. refl;
  verify_tag_iff = λ key message tag. bytes_Eq.test_iff tag (toy_sign key message);
}

abbrev toy_hash : Bytes → Bytes
toy_hash t = repeat 32 0

abbrev created : AuditEvent
created = record {
  event_id = 1;
  timestamp = 0;
  event_type = key_created;
  actor_id = ascii "a";
  actor_type = ascii "user";
  action = ascii "create";
  resource_type = ascii "key";
  resource_id = none;
  result = ascii "ok";
  metadata = (ascii "spec", null) ∷ [];
}

abbrev rotated : AuditEvent
rotated = record created { event_id = 2; event_type = key_rotated; action = ascii "rotate" }

abbrev toy_payload : AuditEvent → Bytes
toy_payload e = e.action

abbrev secret : Bytes
secret = ascii "k"

abbrev toy_json : SignedAuditEntry → Bytes
toy_json e = (48 + e.sequence) ∷ []

abbrev log_entries : List SignedAuditEntry
log_entries = signed toy toy_payload secret 0 none (created ∷ rotated ∷ [])

abbrev first_entry : SignedAuditEntry
first_entry = new toy toy_payload created 0 secret none none

abbrev second_entry : SignedAuditEntry
second_entry = new toy toy_payload rotated 1 secret (some first_entry.signature) none

-- the first entry with a trusted timestamp, which is not signed
abbrev stamped_entry : SignedAuditEntry
stamped_entry = record first_entry {
  trusted_timestamp = some (record {
    raw_token = [];
    gen_time = pos 5;
    serial_number = [];
    policy = [];
    hash_algorithm = [];
    nonce = [];
    accuracy_millis = 0;
  });
}

abbrev toy_parse : Bytes → Result Bytes SignedAuditEntry
toy_parse t =
    if t == ascii "0"
    then ok first_entry
    else if t == ascii "1"
    then ok second_entry
    else if t == ascii "2"
    then ok stamped_entry
    else err (ascii "?")

abbrev toy_file : Bytes
toy_file =
    (log_all toy_json toy toy_hash toy_payload secret (created ∷ rotated ∷ [])
      (logger_new toy_hash 10)).file

itself-IsReordered : (e : SignedAuditEntry) → IsReordered e e
itself-IsReordered e = (e.payload.metadata, refl, (refl, λ key. refl))

both-IsRead : All (IsRead toy_json toy toy_hash toy_payload secret toy_parse) log_entries
unfolding new
both-IsRead = (
  (((refl, refl), tt), (first_entry, refl, itself-IsReordered first_entry)),
  ((((refl, refl), tt), (second_entry, refl, itself-IsReordered second_entry)), tt),
)

verify_content-log_all_example :
    verify_content toy toy_payload toy_parse secret toy_file ≡ valid_report 2
verify_content-log_all_example =
    verify_content-log_all toy_json toy toy_hash toy_payload secret toy_parse 10
      (created ∷ rotated ∷ []) both-IsRead (omega arith, (omega arith, tt))

accepted : (verify_content toy toy_payload toy_parse secret toy_file).valid ≡ true
accepted = rw verify_content-log_all_example refl

accepted_text : (verify_content toy toy_payload toy_parse secret (ascii "0\n1\n")).valid ≡ true
unfolding verify_content new
accepted_text = refl

verify_content_iff_example :
    ((verify_content toy toy_payload toy_parse secret (ascii "0\n1\n")).valid ≡ true)
    ↔ IsValidAfter toy toy_payload toy_parse secret none (lines (ascii "0\n1\n"))
verify_content_iff_example = verify_content_iff toy toy_payload toy_parse secret (ascii "0\n1\n")

numbered : All IsNumbered (entries_in toy toy_payload toy_parse (ascii "0\n1\n"))
unfolding new lines
numbered = (omega arith, (omega arith, tt))

stamped_text : (verify_content toy toy_payload toy_parse secret (ascii "2\n1\n")).valid ≡ true
unfolding verify_content new
stamped_text = refl

stamped-IsNumbered : All IsNumbered (entries_in toy toy_payload toy_parse (ascii "2\n1\n"))
unfolding new lines
stamped-IsNumbered = (omega arith, (omega arith, tt))

-- two texts that differ in a timestamp
verify_content_tamper_example :
    Collision toy toy_payload secret
      (entries_in toy toy_payload toy_parse (ascii "0\n1\n"))
      (entries_in toy toy_payload toy_parse (ascii "2\n1\n"))
    ⊎ SameLog toy toy_payload
        (entries_in toy toy_payload toy_parse (ascii "0\n1\n"))
        (entries_in toy toy_payload toy_parse (ascii "2\n1\n"))
unfolding lines
verify_content_tamper_example =
    verify_content_tamper toy toy_payload toy_parse toy_parse secret [] (ascii "0\n1\n")
      (ascii "2\n1\n") accepted_text stamped_text refl numbered stamped-IsNumbered refl

read_again :
    (line : Bytes) (e : SignedAuditEntry)
    → toy_parse line ≡ ok e
    → (f : SignedAuditEntry) × (toy_parse line ≡ ok f) × IsReordered e f
read_again line e read = (e, read, itself-IsReordered e)

verify_content_truncated_example :
    (verify_content toy toy_payload toy_parse secret (ascii "1\n")).valid ≡ true
unfolding lines new
verify_content_truncated_example =
    verify_content_truncated toy toy_payload toy_parse toy_parse read_again secret (ascii "0\n1\n")
      (ascii "1\n") (ascii "0" ∷ []) (ascii "1" ∷ []) accepted_text (omega arith, (omega arith, tt))
      refl (inr refl)

hash_differs : compute_entry_hash toy_hash toy_payload first_entry ≢ first_entry.signature
unfolding compute_entry_hash new
hash_differs e = ground (arith, e)

startup_verify_chain-signed_example :
    ((startup_verify_chain toy_hash toy_payload log_entries).valid ≡ false)
    × ((startup_verify_chain toy_hash toy_payload log_entries).first_invalid_index ≡ some 1)
startup_verify_chain-signed_example =
    startup_verify_chain-signed toy_hash toy_payload toy secret created rotated [] hash_differs
