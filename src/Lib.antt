-- ===== src/Lib.antt =====
-- gm-kms: a key management service in Rust (crates/kms-*). This library models the parts that decide
-- who may do what, that keep and rotate the keys and secrets, and that record what was done, as
-- functions that run, and proves what those parts promise.
--
-- Files, and the code that each one is about:
--   Base and its children: the shared names, HashMap as an association list, Result, equality as an
--     interface, texts as bytes with the methods of str, iterator adaptors.
--   Approval: crates/kms-approval. Approval/Types has the enumerations of workflow.rs and the roles of
--     approver.rs; Approval/Request one request and what approve, reject, cancel and the clean-up do
--     to it; Approval/BreakGlass the same for break-glass requests; Approval/Engine the two maps of
--     ApprovalEngine and all of its methods, and the step relation over them (Engine/Provenance where a
--     stored request comes from); Approval/Approvers the
--     registry of approver.rs.
--   Policy: crates/kms-policy. Policy/Glob has glob_match of engine.rs (Glob/Sound what it accepts,
--     Glob/Shapes what it does on the usual patterns); Policy/Json the values of a condition;
--     Policy/Context the attributes of a request (lib.rs; Context/Attributes what a condition sees);
--     Policy/Time the times of day and the clock's skew; Policy/Condition evaluate_condition;
--     Policy/Engine the policy set and the decision; Policy/Typed the typed conditions and policies
--     of crates/kms-core/src/policy.rs.
--   Core: crates/kms-core. Core/Key has the specifications, states and metadata of key.rs; Core/Aad
--     the authenticated data of aad.rs; Core/Rotation the SecretRotationManager of secret_rotation.rs
--     (Versions its list of versions, Invariant the step relation, Outcomes each call, Undo a
--     rotation and a rollback together); Core/Shamir the secret sharing of shamir.rs (Differences
--     divided differences, Field the arithmetic, Fractions, Coefficients and Interpolation the loops,
--     Recovery the interpolation; Shares the splitting and the reconstruction, Commitments the checks,
--     Committed the generated commitments, Blocks and Points the padding and the points, Reconstruction
--     the reconstruction with metadata, RoundTrip a secret split and reconstructed).
--   Keystore: crates/kms-keystore. Keystore/Software has the keys of software/mod.rs with generation,
--     import and export, Software/Lifecycle rotation, deletion, destruction and the list,
--     Software/Ciphers encryption and signatures (Versions and RoundTrip the history and the ciphers,
--     Calls sequences of calls, Access who reaches a key, Agreement the derivation of a shared secret,
--     with crates/kms-core/src/dh.rs); Keystore/KexSession the stored sessions of
--     sm2_kex_session.rs (History, Replay, Lifetime); Keystore/RateLimiter the windows of
--     rate_limiter.rs (Burst what is let through); Keystore/Cache bounded_cache.rs: Cache/Bounded
--     the step relation of its methods and the bound, Cache/Fifo which key goes and how the queue
--     grows.
--   Audit: crates/kms-audit. Audit/Types has the events (crates/kms-core/src/event.rs) and entries;
--     Audit/Entry the signing of an entry in lib.rs (Entry/Reading an entry that is written and read
--     again); Audit/Verifier the reports of verifier.rs
--     (Sound what is valid, Tamper and Chain two valid texts); Audit/Worm the logger of worm_logger.rs
--     with the file of worm_writer.rs (RoundTrip the logger's file and the verifier, Startup the check
--     at startup).
--   Mfa: crates/kms-mfa. Mfa/BackupCodes has backup_codes.rs: Outcomes which codes are accepted and
--     how often, Lockout the wrong ones, Generated what generate makes and load reads. Mfa/Totp has
--     totp.rs: Codes what is generated, Window what is accepted.
--
--   Api: crates/kms-api, the service layer. Api/Errors has the answers to failures (error.rs,
--     service/error.rs, service/mod.rs); Api/Quota the quotas of quota.rs (Bound what they let
--     through); Api/CryptoService the operations of service/crypto_service.rs (Access keys of others,
--     Counting what is recorded, Mac the MAC's input, RoundTrip a ciphertext through the service);
--     Api/KeyService service/key_service.rs (Quotas, Listing); Api/Rotation the automatic rotation of
--     rotation.rs (Repeat sweep after sweep).
--
-- How the parts interact: the service asks the policy engine for a decision and the approval engine for
-- an approved request before it runs an operation on a key; the key store runs it, with the tables of
-- Core/Key and the authenticated data of Core/Aad. The services of Api hold a key store: they check
-- the tenant's quota and the key's owner, call the store, and count what succeeded; the automatic
-- rotation reads that count and calls the store's rotation. The cache serves keys' entries; the logger writes an
-- event of each operation to a file, which the verifier reads. Except for that file, the parts share
-- no state.
--
-- How code becomes model: a method that takes &mut self, or locks a map of its own, returns the new
-- state beside its result; an early return is a branch of an if; Utc::now() is a reading of a clock that
-- the method is given (the n-th call within the method is the n-th reading, in the unit in which the
-- code compares it: seconds, milliseconds or nanoseconds); Uuid::new_v4, the draws of
-- a random generator and what a repository answers are arguments. SHA-1, SHA-256 and SHA-512, the HMAC
-- of the log, the ciphers and signature schemes, base32 and the JSON texts are functions that are
-- parameters, with their documented laws as hypotheses: what was encrypted with a key is decrypted
-- with it, what was written is read, up to the order of a HashMap's keys. That the modulus of the secret sharing is prime
-- enters as Fermat's little theorem for it. Redis is an interface: a value that was set with an
-- expiry is read until then, a counter answers with the next number, and a sorted set counts what was added. Logging by tracing leaves no trace. The order of a HashMap's values is the
-- order of the list, and no theorem fixes it; an entry of the log that is read again may have its
-- metadata in another order. A slice past the end of a text is a panic, the none of an
-- Option.
--
-- Bounds and fuel: the loop over the eviction queue ends with the queue, and the loop of generate with
-- the list of draws that it is given; the loop that trims a secret's versions has a turn for each
-- version, the printing of a number a turn for each of the 20 digits that a u64 has at most, the loop over the window of codes a turn for
-- each of its steps, the loop of pow_mod 64 turns, after which a u64 has been halved to zero; every other loop runs over a list. Machine integers: u32 counters, versions and
-- times of day and u64 counters wrap, as in a release build, or fail to parse as in the code, the products of the secret sharing are taken in u128, which
-- holds them; bytes of an integer are written
-- out in the code's order, i64 seconds are natural numbers, except the trusted time, which may be
-- negative.
--
-- Not modelled: the REST and gRPC services and their authentication, the command line, the
-- hardware modules, the PostgreSQL key store, the in-memory
-- key exchanges of the software key store, the rotation, names and permissions of the log's files,
-- its trusted timestamps and buffered loggers, the cluster's rate limiter and
-- those of the API, the cryptographic primitives, the SDKs, the operator and the Terraform
-- provider: input and output around the parts above, calls of cryptographic libraries that are not
-- part of the repository, or state that the parts above do not read.
pub mod Base
pub mod Approval
pub mod Policy
pub mod Keystore
pub mod Mfa
pub mod Core
pub mod Api
pub mod Audit
