-- ===== src/Audit/Verifier.antt =====
-- crates/kms-audit/src/verifier.rs: the verification of log files. The text of an entry is read by a
-- parameter, which stands for `serde_json::from_str`.
pub mod Sound
pub mod Tamper
pub mod Chain
use gm_kms.Base.{
  ℕ, none, some, [], ◌∷◌, ◌+◌, ok, err, Bytes, Bool, true, false, Option, bytes_Eq, ◌==◌,
  if◌then◌else◌, List, Result, nat_eq, split, not,
}
use gm_kms.Audit.Types.{AuditEvent, SignedAuditEntry}
use gm_kms.Audit.Entry.{Hmac, verify}

-- the texts of a report, by their format strings
pub data ReportError : Type 0 where
  parse_failed : ℕ → Bytes → ReportError
  signature_failed : ℕ → ReportError
  chain_broken : ℕ → ReportError
  read_failed : Bytes → Bytes → ReportError
  count_mismatch : ℕ → ℕ → ReportError
  unknown_error : ReportError
  in_file : ReportError → Bytes → ReportError

pub record VerificationReport : Type 0 where
  pub valid : Bool
  pub entries_checked : ℕ
  pub first_invalid_index : Option ℕ
  pub error : Option ReportError

-- `str::lines`: a line ends with a line feed, or a carriage return and a line feed
unfoldable pub strip_cr : Bytes → Bytes
strip_cr [] = []
strip_cr (c ∷ []) = if nat_eq c 13 then [] else c ∷ []
strip_cr (c ∷ d ∷ t) = c ∷ strip_cr (d ∷ t)

unfoldable pub line_ends : List Bytes → List Bytes
unfolding strip_cr
line_ends [] = []
line_ends ([] ∷ []) = []
line_ends ((c ∷ t) ∷ []) = (c ∷ t) ∷ []
line_ends (p ∷ q ∷ ps) = strip_cr p ∷ line_ends (q ∷ ps)

unfoldable pub lines : Bytes → List Bytes
unfolding line_ends
lines content = line_ends (split 10 content)

abbrev pub get_or_insert : Option ℕ → ℕ → Option ℕ
get_or_insert none i = some i
get_or_insert (some j) i = some j

-- `prev_signature` is there, and is not what the entry links to
abbrev pub is_unlinked : Option Bytes → SignedAuditEntry → Bool
is_unlinked none e = false
is_unlinked (some expected) e = elim e.previous_signature [
  | none ↦ true
  | some previous ↦ not (previous == expected)
]

module _ (hmac : Hmac) (payload_json : AuditEvent → Bytes)
    (parse : Bytes → Result Bytes SignedAuditEntry) where
  -- the loop of `verify_content`, from the i-th line on
  unfoldable pub verify_lines :
      Bytes → Option Bytes → Option ℕ → ℕ → List Bytes → VerificationReport
  unfolding verify
  verify_lines key prev first i [] = record {
    valid = elim first [ none ↦ true | some _ ↦ false ];
    entries_checked = i;
    first_invalid_index = first;
    error = elim first [ none ↦ none | some j ↦ some (chain_broken j) ];
  }
  verify_lines key prev first i (line ∷ rest) = elim (parse line) [
    | err e ↦ record {
      valid = false;
      entries_checked = i;
      first_invalid_index = some i;
      error = some (parse_failed i e);
    }
    | ok entry ↦
        let first' = if is_unlinked prev entry then get_or_insert first i else first in
        let next = verify_lines key (some entry.signature) first' (i + 1) rest in
        if verify hmac payload_json key entry then next else record {
          valid = false;
          entries_checked = i + 1;
          first_invalid_index = some i;
          error = some (signature_failed i);
        }
  ]

  unfoldable pub verify_content : Bytes → Bytes → VerificationReport
  unfolding verify_lines lines
  verify_content key content = verify_lines key none none 0 (lines content)

  abbrev pub error_of : VerificationReport → ReportError
  error_of r = elim r.error [ none ↦ unknown_error | some e ↦ e ]

  -- The loop of `verify` over the sorted files, each with its content or the error of reading it.
  unfoldable pub verify_files : Bytes → ℕ → List (Bytes × Result Bytes Bytes) → VerificationReport
  unfolding verify_content
  verify_files key total [] = record {
    valid = true;
    entries_checked = total;
    first_invalid_index = none;
    error = none;
  }
  verify_files key total ((path, content) ∷ rest) = elim content [
    | err e ↦ record {
      valid = false;
      entries_checked = total;
      first_invalid_index = none;
      error = some (in_file (read_failed path e) path);
    }
    | ok text ↦
        let report = verify_content key text in
        let next = verify_files key (total + report.entries_checked) rest in
        if report.valid then next else record {
          valid = false;
          entries_checked = total + report.entries_checked;
          first_invalid_index = none;
          error = some (in_file (error_of report) path);
        }
  ]
