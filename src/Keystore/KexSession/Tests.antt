-- ===== src/Keystore/KexSession/Tests.antt =====
-- Runs of the key exchange sessions (crates/kms-keystore), on a store that is a function of the
-- instant and the id.
use gm_kms.Base.{
  ℕ, none, some, [], ◌∷◌, ◌+◌, ◌*◌, ◌≡◌, ◌⊎◌, ok, err, true, false, Option, refl, arith, ascii,
  if◌then◌else◌, ltb, nat_eq, nat_eq_iff,
}
use gm_kms.Keystore.KexSession.{
  Redis, Sm2KexSessionData, create_session, new_session, key_not_found, save_session, get_session,
  check_and_add_message,
}
use gm_kms.Keystore.KexSession.Lifetime.{save_session_bounded}
use gm_kms.Keystore.KexSession.Replay.{Message, check, checks, check_and_add_message_replay}

abbrev Table : Type 0
Table = ℕ → ℕ → Option Sm2KexSessionData

abbrev set : ℕ → ℕ → Sm2KexSessionData → ℕ → Table → Table
set now key value secs t later k =
    if nat_eq k key then (if ltb later (now + secs * 1000) then some value else none) else t later k

abbrev unset : ℕ → Table → Table
unset key t later k = if nat_eq k key then none else t later k

abbrev table : Redis Table
table = record {
  fetch = λ later key t. t later key;
  set_ex = set;
  del = unset;
  fetch-set_ex = λ now later key value secs t order. ground (arith, nat_eq_iff key key);
  fetch-set_ex_other =
      λ now later key other value secs t differ. ground (arith, nat_eq_iff other key);
  fetch-del = λ later key t. ground (arith, nat_eq_iff key key);
  fetch-del_other = λ later key other t differ. ground (arith, nat_eq_iff other key);
}

abbrev empty : Table
empty later k = none

abbrev session : Sm2KexSessionData
session = new_session 1000000 7 1 (ascii "alice") true

abbrev opened : Table
opened = (create_session table 1000000 1000000 7 1 (ascii "alice") true empty).0

abbrev message : ℕ → ℕ → Message
message at n = record { looked = at; now = at; saved = at; stored = at; msg_hash = n ∷ [] }

is_accepted : (check table 7 (message 1001000 1) opened).1 ≡ ok false
unfolding create_session check_and_add_message get_session
is_accepted = refl

check_and_add_message_replay_example :
    ((check table 7
        (message 1003000 1)
        (checks table 7 (message 1002000 2 ∷ []) (check table 7 (message 1001000 1) opened).0)).1
      ≡ ok true)
    ⊎ ((check table 7
          (message 1003000 1)
          (checks table 7 (message 1002000 2 ∷ []) (check table 7 (message 1001000 1) opened).0)).1
        ≡ err (key_not_found 7))
unfolding create_session get_session
check_and_add_message_replay_example =
    check_and_add_message_replay table 7 (message 1001000 1) (message 1003000 1)
      (message 1002000 2 ∷ []) session opened refl refl (omega arith) (omega arith) (omega arith)
      is_accepted ((omega arith, omega arith, omega arith, omega arith, omega arith), tt)
      (omega arith) (omega arith) (omega arith) refl

-- ten other messages within the minute, and the first one is accepted again
forgotten :
    (check table 7 (message 1001020 1) (
      checks table 7
        (message 1001010 2
          ∷ message 1001011 3
          ∷ message 1001012 4
          ∷ message 1001013 5
          ∷ message 1001014 6
          ∷ message 1001015 7
          ∷ message 1001016 8
          ∷ message 1001017 9
          ∷ message 1001018 10
          ∷ message 1001019 11
          ∷ [])
        (check table 7 (message 1001000 1) opened).0)).1
    ≡ ok false
unfolding create_session check_and_add_message get_session save_session
forgotten = refl

save_session_bounded_example :
    get_session table 1301000 7 (save_session table 1200000 1200000 session opened) ≡ none
save_session_bounded_example =
    save_session_bounded table 1200000 1200000 1301000 session opened (omega arith) (omega arith)
      (omega arith) (omega arith) (omega arith)
