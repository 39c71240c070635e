-- ===== src/Audit/Worm/RoundTrip.antt =====
-- The file that the logger of crates/kms-audit/src/worm_logger.rs writes, read by the verifier of
-- verifier.rs.
use gm_kms.Base.{
  ℕ, none, some, [], ◌∷◌, ◌++◌, ok, ◌≡◌, ◌≤◌, ◌+◌, ◌%◌, ◌^◌, Bytes, true, false, Option, refl,
  arith, ap, length, sym, ◌∙◌, List, Result, All, nat_eq, split, map, if-cases, prepend, leb, push,
  All-imp,
}
use mathlib.Core.List.{append-nil, append_assoc}
use gm_kms.Audit.Types.{AuditEvent, SignedAuditEntry}
use gm_kms.Audit.Entry.{Hmac, new}
use gm_kms.Audit.Entry.Input.{verify-new}
use gm_kms.Audit.Entry.Reading.{IsReordered, IsSingle, IsReordered-single}
use gm_kms.Audit.Verifier.{verify_lines, verify_content, lines, line_ends, strip_cr}
use gm_kms.Audit.Verifier.Sound.{IsLinked, IsValidAfter, verify_lines-IsValidAfter, valid_report}
use gm_kms.Audit.Worm.{WormLogger, log, logger_new, append, flush}

-- the metadata of an event has at most one key
abbrev pub HasOneKey : AuditEvent → Type 0
HasOneKey event = length event.metadata ≤ 1

-- a text without a line feed and a carriage return
abbrev pub IsLine : Bytes → Type 0
IsLine s = All (λ b. (nat_eq b 10 ≡ false) × (nat_eq b 13 ≡ false)) s

strip_cr-IsLine : (s : Bytes) → IsLine s → strip_cr s ≡ s
unfolding strip_cr
strip_cr-IsLine [] h = refl
strip_cr-IsLine (c ∷ []) h = ground arith
strip_cr-IsLine (c ∷ d ∷ t) h = ap (λ r. c ∷ r) (strip_cr-IsLine (d ∷ t) h.1)

split-line : (s t : Bytes) → IsLine s → split 10 (s ++ 10 ∷ t) ≡ s ∷ split 10 t
split-line [] t h = refl
split-line (c ∷ s) t h = rw (h.0.0, split-line s t h.1) refl

line_ends-prepend :
    (s : Bytes) (c : ℕ) (ps : List Bytes)
    → line_ends (s ∷ prepend c ps) ≡ strip_cr s ∷ line_ends (prepend c ps)
unfolding line_ends
line_ends-prepend s c [] = refl
line_ends-prepend s c (p ∷ ps) = refl

line_ends-split : (s t : Bytes) → line_ends (s ∷ split 10 t) ≡ strip_cr s ∷ line_ends (split 10 t)
unfolding line_ends
line_ends-split s [] = refl
line_ends-split s (c ∷ t) =
    if-cases (λ (ps : List Bytes). line_ends (s ∷ ps) ≡ strip_cr s ∷ line_ends ps) (nat_eq c 10)
      (λ feed. refl) (λ other. line_ends-prepend s c (split 10 t))

regroup : (a j t : Bytes) → (a ++ (j ++ 10 ∷ [])) ++ t ≡ a ++ (j ++ 10 ∷ t)
regroup a j t = append_assoc a (j ++ 10 ∷ []) t ∙ ap (λ u. a ++ u) (append_assoc j (10 ∷ []) t)

new-IsLinked :
    (hmac : Hmac) (payload_json : AuditEvent → Bytes) (event : AuditEvent) (sequence : ℕ)
    (key : Bytes) (prev : Option Bytes)
    → IsLinked prev (new hmac payload_json event sequence key prev none)
unfolding new
new-IsLinked hmac payload_json event sequence key none = tt
new-IsLinked hmac payload_json event sequence key (some p) = refl

module _ (hmac : Hmac) (payload_json : AuditEvent → Bytes) (key : Bytes) where
  -- the entries that the logger makes of a list of events
  abbrev pub signed : ℕ → Option Bytes → List AuditEvent → List SignedAuditEntry
  signed sequence prev [] = []
  signed sequence prev (event ∷ events) =
      let e = new hmac payload_json event sequence key prev none in
      e ∷ signed ((sequence + 1) % 2 ^ 64) (some e.signature) events

module _ (entry_json : SignedAuditEntry → Bytes) where
  abbrev pub text : List SignedAuditEntry → Bytes
  text [] = []
  text (e ∷ es) = entry_json e ++ 10 ∷ text es

  lines-text :
      (es : List SignedAuditEntry)
      → All (λ e. IsLine (entry_json e)) es
      → lines (text es) ≡ map entry_json es
  unfolding lines line_ends
  lines-text [] clean = refl
  lines-text (e ∷ es) clean =
      ap line_ends (split-line (entry_json e) (text es) clean.0)
      ∙ (line_ends-split (entry_json e) (text es)
          ∙ rw (strip_cr-IsLine (entry_json e) clean.0)
              (ap (λ ls. entry_json e ∷ ls) (lines-text es clean.1)))

  module _ (hmac : Hmac) (sha256 : Bytes → Bytes) (payload_json : AuditEvent → Bytes)
      (key : Bytes) where
    -- a run of the logger whose writes succeed
    abbrev pub log_all : List AuditEvent → WormLogger → WormLogger
    log_all [] l = l
    log_all (event ∷ events) l =
        log_all events (log sha256 payload_json hmac entry_json key true event l)

    length-signed :
        (sequence : ℕ) (prev : Option Bytes) (events : List AuditEvent)
        → 0 + length (map entry_json (signed hmac payload_json key sequence prev events))
          ≡ length events
    length-signed sequence prev [] = omega arith
    length-signed sequence prev (event ∷ events) = omega (
      arith,
      length-signed ((sequence + 1) % 2 ^ 64)
          (some (new hmac payload_json event sequence key prev none).signature) events,
    )

    -- the entry that the logger makes of an event
    abbrev made : AuditEvent → WormLogger → SignedAuditEntry
    made event l = new hmac payload_json event l.current_sequence key l.previous_signature none

    log_lem :
        (event : AuditEvent) (l : WormLogger)
        → ((log sha256 payload_json hmac entry_json key true event l).file
            ≡ l.file ++ (entry_json (made event l) ++ 10 ∷ []))
          × ((log sha256 payload_json hmac entry_json key true event l).current_sequence
              ≡ (l.current_sequence + 1) % 2 ^ 64)
          × ((log sha256 payload_json hmac entry_json key true event l).previous_signature
              ≡ some (made event l).signature)
    unfolding log append flush
    log_lem event l =
        if-cases
          (λ (m : WormLogger).
            (m.file ≡ l.file ++ (entry_json (made event l) ++ 10 ∷ []))
            × (m.current_sequence ≡ (l.current_sequence + 1) % 2 ^ 64)
            × (m.previous_signature ≡ some (made event l).signature))
          (leb l.buffer_size (length (push l.buffer (made event l)))) (λ full. (refl, refl, refl))
          (λ room. (refl, refl, refl))

    log_all-file :
        (events : List AuditEvent) (l : WormLogger)
        → (log_all events l).file
          ≡ l.file
            ++ text (signed hmac payload_json key l.current_sequence l.previous_signature events)
    log_all-file [] l = sym (append-nil l.file)
    log_all-file (event ∷ events) l =
        let (file, sequence, previous) = log_lem event l in
        log_all-file events (log sha256 payload_json hmac entry_json key true event l)
        ∙ rw (file, sequence, previous)
            (regroup l.file (entry_json (made event l)) (
              text (
                signed hmac payload_json key ((l.current_sequence + 1) % 2 ^ 64)
                  (some (made event l).signature) events)))

    module _ (parse : Bytes → Result Bytes SignedAuditEntry) where
      -- the JSON text of an entry has no line breaks, and reads back as the entry, up to the order of
      -- the metadata
      abbrev pub IsRead : SignedAuditEntry → Type 0
      IsRead e =
          IsLine (entry_json e)
          × ((f : SignedAuditEntry) × (parse (entry_json e) ≡ ok f) × IsReordered e f)

      read_back : (e : SignedAuditEntry) → IsRead e → IsSingle e → parse (entry_json e) ≡ ok e
      read_back e (line, (f, read, order)) single =
          read ∙ ap ok (IsReordered-single e f single order)

      new-IsSingle :
          (event : AuditEvent) (sequence : ℕ) (prev : Option Bytes)
          → HasOneKey event
          → IsSingle (new hmac payload_json event sequence key prev none)
      unfolding new
      new-IsSingle event sequence prev single = single

      signed-IsValidAfter :
          (sequence : ℕ) (prev : Option Bytes) (events : List AuditEvent)
          → All IsRead (signed hmac payload_json key sequence prev events)
          → All HasOneKey events
          → IsValidAfter hmac payload_json parse key prev
              (map entry_json (signed hmac payload_json key sequence prev events))
      signed-IsValidAfter sequence prev [] reads single = tt
      signed-IsValidAfter sequence prev (event ∷ events) reads single = (
        new hmac payload_json event sequence key prev none,
        read_back (new hmac payload_json event sequence key prev none) reads.0
            (new-IsSingle event sequence prev single.0),
        new-IsLinked hmac payload_json event sequence key prev,
        verify-new hmac payload_json event sequence key prev,
        signed-IsValidAfter ((sequence + 1) % 2 ^ 64)
            (some (new hmac payload_json event sequence key prev none).signature) events reads.1
            single.1,
      )

      -- The file of a new logger whose writes succeed is reported valid with as many entries as
      -- events were logged, where the events have at most one key of metadata, and the JSON texts of
      -- the entries have no line breaks and read back as the entries up to the order of the metadata.
      pub verify_content-log_all :
          (buffer_size : ℕ) (events : List AuditEvent)
          → All IsRead (signed hmac payload_json key 0 none events)
          → All HasOneKey events
          → verify_content hmac payload_json parse key
              (log_all events (logger_new sha256 buffer_size)).file
            ≡ valid_report (length events)
      unfolding verify_content logger_new
      verify_content-log_all buffer_size events reads single =
          ap (λ t. verify_lines hmac payload_json parse key none none 0 (lines t))
            (log_all-file events (logger_new sha256 buffer_size))
          ∙ (ap (verify_lines hmac payload_json parse key none none 0) (
                lines-text (signed hmac payload_json key 0 none events)
                  (All-imp (λ e r. r.0) (signed hmac payload_json key 0 none events) reads))
              ∙ (verify_lines-IsValidAfter hmac payload_json parse key none 0
                    (map entry_json (signed hmac payload_json key 0 none events))
                    (signed-IsValidAfter 0 none events reads single)
                  ∙ ap valid_report (length-signed 0 none events)))
