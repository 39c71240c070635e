-- ===== src/Audit/Verifier/Chain.antt =====
-- Two log files that the verifier of crates/kms-audit/src/verifier.rs accepts, and parts of one.
use gm_kms.Base.{
  append_injective, none, some, [], ◌∷◌, ◌++◌, ok, err, inl, inr, ◌≡◌, ◌⊎◌, Bytes, true, Option,
  arith, ap, length, sym, ◌∙◌, List, Result, bytes_Eq, All,
}
use gm_kms.Audit.Types.{AuditEvent, SignedAuditEntry}
use gm_kms.Audit.Entry.{Hmac}
use gm_kms.Audit.Entry.Reading.{IsReordered, IsSingle, IsReordered-single}
use gm_kms.Audit.Verifier.{verify_content, lines}
use gm_kms.Audit.Verifier.Sound.{IsValidAfter, verify_content_iff}
use gm_kms.Audit.Verifier.Tamper.{
  last_signature, IsNumbered, Collision, IsChain, SameRest, SameLog, verified_length,
  same_signature,
}

-- the entries of the lines that are entries
abbrev pub entries_of : (Bytes → Result Bytes SignedAuditEntry) → List Bytes → List SignedAuditEntry
entries_of parse [] = []
entries_of parse (line ∷ rest) = elim (parse line) [
  | err e ↦ entries_of parse rest
  | ok e ↦ e ∷ entries_of parse rest
]

module _ (hmac : Hmac) (payload_json : AuditEvent → Bytes) where
  same_rest :
      (key p q : Bytes) (es fs : List SignedAuditEntry)
      → length p ≡ 32
      → length q ≡ 32
      → length es ≡ length fs
      → IsChain hmac payload_json key (some p) es
      → IsChain hmac payload_json key (some q) fs
      → All IsNumbered es
      → All IsNumbered fs
      → last_signature p es ≡ last_signature q fs
      → Collision hmac payload_json key es fs ⊎ ((p ≡ q) × SameRest hmac payload_json es fs)
  same_rest key p q [] [] lp lq n ce cf be bf same = inr (same, tt)
  same_rest key p q [] (f ∷ fs) lp lq n ce cf be bf same = absurd (ground arith)
  same_rest key p q (e ∷ es) [] lp lq n ce cf be bf same = absurd (ground arith)
  same_rest key p q (e ∷ es) (f ∷ fs) lp lq n (le, ve, ce) (lf, vf, cf) be bf same =
      elim (same_rest key e.signature f.signature es fs (verified_length hmac payload_json key e ve)
        (verified_length hmac payload_json key f vf) (omega arith) ce cf be.1 bf.1 same) [
          | inl collision ↦ inl (inr collision)
          | inr (alike, rest) ↦
              elim (same_signature hmac payload_json key e f ve vf alike be.0 bf.0) [
                | inl collision ↦ inl (inl collision)
                | inr (sequence, text) ↦
                    let parts = append_injective p q _ _ (lp ∙ sym lq) (rw (le, lf) at text) in
                    inr (parts.0, (alike, sequence, le ∙ (ap some parts.0 ∙ sym lf), parts.1, rest))
              ]
        ]

  same_log :
      (key p : Bytes) (es fs : List SignedAuditEntry)
      → length es ≡ length fs
      → IsChain hmac payload_json key none es
      → IsChain hmac payload_json key none fs
      → All IsNumbered es
      → All IsNumbered fs
      → last_signature p es ≡ last_signature p fs
      → Collision hmac payload_json key es fs ⊎ SameLog hmac payload_json es fs
  same_log key p [] [] n ce cf be bf same = inr tt
  same_log key p [] (f ∷ fs) n ce cf be bf same = absurd (ground arith)
  same_log key p (e ∷ es) [] n ce cf be bf same = absurd (ground arith)
  same_log key p (e ∷ es) (f ∷ fs) n (le, ve, ce) (lf, vf, cf) be bf same =
      elim (same_rest key e.signature f.signature es fs (verified_length hmac payload_json key e ve)
        (verified_length hmac payload_json key f vf) (omega arith) ce cf be.1 bf.1 same) [
          | inl collision ↦ inl (inr collision)
          | inr (alike, rest) ↦
              elim (same_signature hmac payload_json key e f ve vf alike be.0 bf.0) [
                | inl collision ↦ inl (inl collision)
                | inr (sequence, text) ↦ inr (alike, sequence, text, rest)
              ]
        ]

  module _ (parse : Bytes → Result Bytes SignedAuditEntry) where
    IsValidAfter-IsChain :
        (key : Bytes) (prev : Option Bytes) (ls : List Bytes)
        → IsValidAfter hmac payload_json parse key prev ls
        → IsChain hmac payload_json key prev (entries_of parse ls)
    IsValidAfter-IsChain key prev [] h = tt
    IsValidAfter-IsChain key prev (line ∷ rest) (e, read, linked, signed, h) =
        rw (IsChain, entries_of, read)
          (linked, signed, IsValidAfter-IsChain key (some e.signature) rest h)

    abbrev pub entries_in : Bytes → List SignedAuditEntry
    entries_in content = entries_of parse (lines content)

    IsValidAfter-suffix :
        (key : Bytes) (prev : Option Bytes) (old young : List Bytes)
        → IsValidAfter hmac payload_json parse key prev (old ++ young)
        → IsValidAfter hmac payload_json parse key none young
    IsValidAfter-suffix key prev [] [] h = tt
    IsValidAfter-suffix key prev [] (line ∷ rest) (e, read, linked, signed, h) =
        (e, read, tt, signed, h)
    IsValidAfter-suffix key prev (line ∷ old) young (e, read, linked, signed, h) =
        IsValidAfter-suffix key (some e.signature) old young h

    IsValidAfter-prefix :
        (key : Bytes) (prev : Option Bytes) (old young : List Bytes)
        → IsValidAfter hmac payload_json parse key prev (old ++ young)
        → IsValidAfter hmac payload_json parse key prev old
    IsValidAfter-prefix key prev [] young h = tt
    IsValidAfter-prefix key prev (line ∷ old) young (e, read, linked, signed, h) =
        (e, read, linked, signed, IsValidAfter-prefix key (some e.signature) old young h)

  -- Two texts that are reported valid, each by a verification that reads its lines in its own way, with
  -- as many entries, whose sequence numbers are u64s, and the same last signature, have the same
  -- signatures, sequence numbers and signed texts, and after the first entry the same links and texts
  -- of events, unless at some place what was signed of the two logs differs and has one tag.
  pub verify_content_tamper :
      (parse parse_later : Bytes → Result Bytes SignedAuditEntry)
      (key before other_log this_log : Bytes)
      → (verify_content hmac payload_json parse key other_log).valid ≡ true
      → (verify_content hmac payload_json parse_later key this_log).valid ≡ true
      → length (entries_in parse other_log) ≡ length (entries_in parse_later this_log)
      → All IsNumbered (entries_in parse other_log)
      → All IsNumbered (entries_in parse_later this_log)
      → last_signature before (entries_in parse other_log)
        ≡ last_signature before (entries_in parse_later this_log)
      → Collision hmac payload_json key
          (entries_in parse other_log)
          (entries_in parse_later this_log)
        ⊎ SameLog hmac payload_json (entries_in parse other_log) (entries_in parse_later this_log)
  verify_content_tamper parse parse_later key before other_log this_log valid valid' n be bf same =
      same_log key before (entries_in parse other_log) (entries_in parse_later this_log) n
        (IsValidAfter-IsChain parse key none (lines other_log)
          ((verify_content_iff hmac payload_json parse key other_log).0 valid))
        (IsValidAfter-IsChain parse_later key none (lines this_log)
          ((verify_content_iff hmac payload_json parse_later key this_log).0 valid'))
        be bf same

  module _ (parse parse_later : Bytes → Result Bytes SignedAuditEntry)
      (reread : (line : Bytes) (e : SignedAuditEntry)
        → parse line ≡ ok e
        → (f : SignedAuditEntry) × (parse_later line ≡ ok f) × IsReordered e f) where
    IsValidAfter-later :
        (key : Bytes) (prev : Option Bytes) (ls : List Bytes)
        → IsValidAfter hmac payload_json parse key prev ls
        → All IsSingle (entries_of parse ls)
        → IsValidAfter hmac payload_json parse_later key prev ls
    IsValidAfter-later key prev [] h single = tt
    IsValidAfter-later key prev (line ∷ rest) (e, read, linked, signed, h) single =
        let both : IsSingle e × All IsSingle (entries_of parse rest) =
          rw (entries_of, read) at single in
        let (f, read_later, order) = reread line e read in
        (
          e,
          read_later ∙ ap ok (IsReordered-single e f both.0 order),
          linked,
          signed,
          IsValidAfter-later key (some e.signature) rest h both.1,
        )

    -- A text that is reported valid still is, by a later verification, when its first lines or its last
    -- lines are taken away, where the events have at most one key of metadata and a line that is read
    -- again gives its entry up to the order of the metadata.
    pub verify_content_truncated :
        (key content kept : Bytes) (old young : List Bytes)
        → (verify_content hmac payload_json parse key content).valid ≡ true
        → All IsSingle (entries_in parse content)
        → lines content ≡ old ++ young
        → (lines kept ≡ old) ⊎ (lines kept ≡ young)
        → (verify_content hmac payload_json parse_later key kept).valid ≡ true
    verify_content_truncated key content kept old young valid single parts side =
        let now = (verify_content_iff hmac payload_json parse key content).0 valid in
        let all_lines = rw parts at (IsValidAfter-later key none (lines content) now single) in
        (verify_content_iff hmac payload_json parse_later key kept).1 (elim side [
          | inl first ↦ rw first (IsValidAfter-prefix parse_later key none old young all_lines)
          | inr last ↦ rw last (IsValidAfter-suffix parse_later key none old young all_lines)
        ])
