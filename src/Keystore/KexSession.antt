-- ===== src/Keystore/KexSession.antt =====
-- crates/kms-keystore/src/sm2_kex_session.rs: the sessions of the SM2 key exchange. Redis is the
-- interface `Redis`, on a clock in milliseconds, which is also read by the manager; every reading is
-- an argument. Session ids are numbers, and a session stands for its JSON text. A connection that
-- fails is left out.
pub mod History
pub mod Replay
pub mod Lifetime
mod Tests
use gm_kms.Base.{
  ℕ, zero, suc, none, some, [], ◌∷◌, ◌+◌, ◌-◌, ◌*◌, ◌/◌, ◌%◌, ◌^◌, ◌<◌, ◌≤◌, ◌≡◌, ◌≢◌, ok, err,
  Bytes, Bool, true, false, Option, bytes_Eq, ◌==◌, if◌then◌else◌, List, Result, ltb, any, filter,
  push, length,
}

pub data SessionState : Type 0 where
  init wait_for_response wait_for_confirmation completed failed : SessionState

pub record Sm2KexSessionData : Type 0 where
  pub session_id : ℕ
  pub key_id : ℕ
  pub user_id : Bytes
  pub is_initiator : Bool
  pub state : SessionState
  pub nonce : ℕ
  pub created_at_ms : ℕ
  pub last_activity_ms : ℕ
  pub message_history : List (Bytes × ℕ)
  pub shared_secret : Option Bytes
  pub confirmation : Option Bytes

abbrev pub session_ttl_secs : ℕ
session_ttl_secs = 300

abbrev pub message_history_ttl_secs : ℕ
message_history_ttl_secs = 60

abbrev pub max_message_history_size : ℕ
max_message_history_size = 10

-- `GET`, `SETEX` and `DEL`: a value that was set is there until its seconds have passed.
pub record Redis (S : Type 0) : Type 0 where
  pub fetch : ℕ → ℕ → S → Option Sm2KexSessionData
  pub set_ex : ℕ → ℕ → Sm2KexSessionData → ℕ → S → S
  pub del : ℕ → S → S
  pub fetch-set_ex :
      (now later key : ℕ) (value : Sm2KexSessionData) (secs : ℕ) (s : S)
      → now ≤ later
      → fetch later key (set_ex now key value secs s)
        ≡ (if ltb later (now + secs * 1000) then some value else none)
  pub fetch-set_ex_other :
      (now later key other : ℕ) (value : Sm2KexSessionData) (secs : ℕ) (s : S)
      → key ≢ other
      → fetch later other (set_ex now key value secs s) ≡ fetch later other s
  pub fetch-del : (later key : ℕ) (s : S) → fetch later key (del key s) ≡ none
  pub fetch-del_other :
      (later key other : ℕ) (s : S)
      → key ≢ other
      → fetch later other (del key s) ≡ fetch later other s

pub data SessionError : Type 0 where
  key_not_found : ℕ → SessionError

-- a difference of u64
abbrev pub minus : ℕ → ℕ → ℕ
minus a b = (a + 2 ^ 64 - b) % 2 ^ 64

-- `retain` with the cutoff
unfoldable pub retain : ℕ → List (Bytes × ℕ) → List (Bytes × ℕ)
retain cutoff history = filter (λ m. ltb cutoff m.1) history

abbrev pub is_replay : Bytes → List (Bytes × ℕ) → Bool
is_replay msg_hash history = any (λ m. m.0 == msg_hash) history

-- `if len > MAX { remove(0) }`
abbrev pub limit_size : List (Bytes × ℕ) → List (Bytes × ℕ)
limit_size [] = []
limit_size (m ∷ rest) = if ltb max_message_history_size (length (m ∷ rest)) then rest else m ∷ rest

-- the history after a message that is new
unfoldable pub add_message : ℕ → Bytes → List (Bytes × ℕ) → List (Bytes × ℕ)
unfolding retain
add_message now msg_hash history =
    limit_size (push (retain (minus now (message_history_ttl_secs * 1000)) history) (msg_hash, now))

abbrev pub new_session : ℕ → ℕ → ℕ → Bytes → Bool → Sm2KexSessionData
new_session now session_id key_id user_id is_initiator = record {
  session_id = session_id;
  key_id = key_id;
  user_id = user_id;
  is_initiator = is_initiator;
  state = init;
  nonce = 0;
  created_at_ms = now;
  last_activity_ms = now;
  message_history = [];
  shared_secret = none;
  confirmation = none;
}

module _ {S : Type 0} (redis : Redis S) where
  unfoldable pub create_session : ℕ → ℕ → ℕ → ℕ → Bytes → Bool → S → S × Sm2KexSessionData
  create_session now stored session_id key_id user_id is_initiator s =
      let session = new_session now session_id key_id user_id is_initiator in
      (redis.set_ex stored session_id session session_ttl_secs s, session)

  unfoldable pub get_session : ℕ → ℕ → S → Option Sm2KexSessionData
  get_session looked session_id s = redis.fetch looked session_id s

  unfoldable pub save_session : ℕ → ℕ → Sm2KexSessionData → S → S
  save_session now stored session s =
      let remaining_ttl = session_ttl_secs - minus now session.created_at_ms / 1000 in
      if ltb 0 remaining_ttl
      then redis.set_ex stored session.session_id session remaining_ttl s
      else redis.del session.session_id s

  unfoldable pub update_state :
      ℕ → ℕ → ℕ → ℕ → ℕ → SessionState → S → S × Result SessionError (Unit {0})
  unfolding get_session save_session
  update_state looked now saved stored session_id new_state s =
      elim (get_session looked session_id s) [
        | none ↦ (s, err (key_not_found session_id))
        | some session ↦ (
          save_session saved stored (record session { state = new_state; last_activity_ms = now })
              s,
          ok tt,
        )
      ]

  -- The answer says whether the message is a replay; then nothing is saved.
  unfoldable pub check_and_add_message :
      ℕ → ℕ → ℕ → ℕ → ℕ → Bytes → S → S × Result SessionError Bool
  unfolding get_session save_session retain add_message
  check_and_add_message looked now saved stored session_id msg_hash s =
      elim (get_session looked session_id s) [
        | none ↦ (s, err (key_not_found session_id))
        | some session ↦
            if is_replay msg_hash
              (retain (minus now (message_history_ttl_secs * 1000)) session.message_history)
            then (s, ok true)
            else (
              save_session saved stored
                  (record session {
                    message_history = add_message now msg_hash session.message_history;
                    last_activity_ms = now;
                  })
                  s,
              ok false,
            )
      ]

  unfoldable pub complete_session :
      ℕ → ℕ → ℕ → ℕ → ℕ → Bytes → Option Bytes → S → S × Result SessionError (Unit {0})
  unfolding get_session save_session
  complete_session looked now saved stored session_id shared_secret confirmation s =
      elim (get_session looked session_id s) [
        | none ↦ (s, err (key_not_found session_id))
        | some session ↦ (
          save_session saved stored
              (record session {
                state = completed;
                shared_secret = some shared_secret;
                confirmation = confirmation;
                last_activity_ms = now;
              })
              s,
          ok tt,
        )
      ]

  unfoldable pub remove_session : ℕ → S → S
  remove_session session_id s = redis.del session_id s

  unfoldable pub is_session_expired : ℕ → ℕ → ℕ → S → Result SessionError Bool
  unfolding get_session
  is_session_expired looked now session_id s = elim (get_session looked session_id s) [
    | none ↦ err (key_not_found session_id)
    | some session ↦ ok (ltb session_ttl_secs (minus now session.created_at_ms / 1000))
  ]
