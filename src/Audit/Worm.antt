-- ===== src/Audit/Worm.antt =====
-- crates/kms-audit/src/worm_logger.rs and worm_writer.rs: the logger with its file, and the check of
-- the chain at startup. SHA-256 and the JSON texts are parameters. Between two rotations there is one
-- file. Whether a write succeeds is an argument, and a write that fails leaves the file as it is.
pub mod RoundTrip
pub mod Startup
use gm_kms.Base.{
  ℕ, none, some, [], ◌∷◌, ◌++◌, ◌+◌, ◌-◌, ◌%◌, ◌^◌, Bytes, Bool, true, false, Option, bytes_Eq,
  ◌==◌, if◌then◌else◌, List, nat_eq, not, length, push, leb, ◌&&◌,
}
use gm_kms.Audit.Types.{AuditEvent, SignedAuditEntry}
use gm_kms.Audit.Entry.{Hmac, new, or_empty}
use gm_kms.Audit.Verifier.{VerificationReport, chain_broken, count_mismatch}

pub record HashChainState : Type 0 where
  pub running_hash : Bytes
  pub entry_count : ℕ

pub record WormLogger : Type 0 where
  pub buffer_size : ℕ
  pub buffer : List SignedAuditEntry
  pub flushed : List SignedAuditEntry
  pub current_sequence : ℕ
  pub previous_signature : Option Bytes
  pub file : Bytes
  pub hash_chain : HashChainState

unfoldable pub flush : WormLogger → WormLogger
flush l = record l { buffer = []; flushed = l.flushed ++ l.buffer }

module _ (sha256 : Bytes → Bytes) where
  unfoldable pub chain_new : HashChainState
  chain_new = record { running_hash = sha256 []; entry_count = 0 }

  unfoldable pub update : Bytes → HashChainState → HashChainState
  update entry_hash c = record {
    running_hash = sha256 (c.running_hash ++ entry_hash);
    entry_count = (c.entry_count + 1) % 2 ^ 64;
  }

  unfoldable pub logger_new : ℕ → WormLogger
  unfolding chain_new
  logger_new buffer_size = record {
    buffer_size = buffer_size;
    buffer = [];
    flushed = [];
    current_sequence = 0;
    previous_signature = none;
    file = [];
    hash_chain = chain_new;
  }

  module _ (payload_json : AuditEvent → Bytes) where
    unfoldable pub compute_entry_hash : SignedAuditEntry → Bytes
    compute_entry_hash e = sha256 (payload_json e.payload ++ e.signature)

    -- The loop of `verify_chain` from the i-th entry on: the index of the first entry that does not
    -- link to the hash of the entry before it.
    unfoldable pub find_break : Option Bytes → ℕ → List SignedAuditEntry → Option ℕ
    unfolding compute_entry_hash
    find_break prev i [] = none
    find_break prev i (e ∷ rest) =
        let next = find_break (some (compute_entry_hash e)) (i + 1) rest in
        elim prev [
          | none ↦ next
          | some expected ↦ if or_empty e.previous_signature == expected then next else some i
        ]

    unfoldable pub verify_chain : HashChainState → List SignedAuditEntry → VerificationReport
    unfolding find_break
    verify_chain chain entries = elim (find_break none 0 entries) [
      | some i ↦ record {
        valid = false;
        entries_checked = length entries;
        first_invalid_index = some i;
        error = some (chain_broken i);
      }
      | none ↦
          if leb 1 chain.entry_count && not (nat_eq (length entries) (chain.entry_count - 1))
          then record {
            valid = false;
            entries_checked = length entries;
            first_invalid_index = some 0;
            error = some (count_mismatch (chain.entry_count - 1) (length entries));
          }
          else record {
            valid = true;
            entries_checked = length entries;
            first_invalid_index = none;
            error = none;
          }
    ]

    -- on the entries that were read from the files, with a new writer
    unfoldable pub startup_verify_chain : List SignedAuditEntry → VerificationReport
    unfolding verify_chain chain_new
    startup_verify_chain [] = record {
      valid = true;
      entries_checked = 0;
      first_invalid_index = none;
      error = none;
    }
    startup_verify_chain (e ∷ rest) = verify_chain chain_new (e ∷ rest)

    module _ (hmac : Hmac) (entry_json : SignedAuditEntry → Bytes) where
      unfoldable pub append : SignedAuditEntry → WormLogger → WormLogger
      unfolding update compute_entry_hash
      append e l = record l {
        file = l.file ++ (entry_json e ++ 10 ∷ []);
        hash_chain = update (compute_entry_hash e) l.hash_chain;
      }

      unfoldable pub log : Bytes → Bool → AuditEvent → WormLogger → WormLogger
      unfolding new append flush
      log key stored event l =
          let entry =
            new hmac payload_json event l.current_sequence key l.previous_signature none in
          let taken : WormLogger = record l {
            current_sequence = (l.current_sequence + 1) % 2 ^ 64;
            previous_signature = some entry.signature;
          } in
          let written = if stored then append entry taken else taken in
          let buffered : WormLogger = record written { buffer = push written.buffer entry } in
          if leb l.buffer_size (length buffered.buffer) then flush buffered else buffered
