-- ===== src/Keystore/KexSession/Replay.antt =====
-- The replay check of crates/kms-keystore/src/sm2_kex_session.rs, over runs of messages.
use gm_kms.Base.{
  ℕ, none, some, [], ◌∷◌, ◌+◌, ◌-◌, ◌/◌, ◌<◌, ◌≤◌, ◌≡◌, ◌*◌, ◌^◌, ◌⊎◌, ok, err, Bytes, Bool, true,
  false, refl, arith, if◌then◌else◌, ltb, Bool-cases, inl, inr, Result, if-cases, List, length,
}
use mathlib.Core.Path.{subst}
use gm_kms.Keystore.KexSession.{
  Redis, Sm2KexSessionData, SessionError, key_not_found, save_session, minus, get_session,
  check_and_add_message, is_replay, retain, add_message,
}
use gm_kms.Keystore.KexSession.History.{
  IsRecent, add_message-IsRecent, add_message-new, is_replay-IsRecent,
}
use gm_kms.Keystore.KexSession.Lifetime.{fetch-save_session}

-- a message with the readings of the clock while it is checked
pub record Message : Type 0 where
  pub looked : ℕ
  pub now : ℕ
  pub saved : ℕ
  pub stored : ℕ
  pub msg_hash : Bytes

abbrev pub cutoff : Message → ℕ
cutoff m = minus m.now 60000

-- the readings are in order, and what was noted at an instant is within the last minute
abbrev pub IsTimely : ℕ → ℕ → Message → Type 0
IsTimely at from m =
    (from ≤ m.looked)
    × (m.looked ≤ m.saved)
    × (m.saved ≤ m.stored)
    × (m.saved < 2 ^ 64)
    × (cutoff m < at)

abbrev pub AreTimely : ℕ → ℕ → List Message → Type 0
AreTimely at from [] = Unit
AreTimely at from (m ∷ ms) = IsTimely at from m × AreTimely at m.stored ms

module _ {S : Type 0} (redis : Redis S) (session_id : ℕ) where
  abbrev pub check : Message → S → S × Result SessionError Bool
  check m s = check_and_add_message redis m.looked m.now m.saved m.stored session_id m.msg_hash s

  abbrev pub checks : List Message → S → S
  checks [] s = s
  checks (m ∷ ms) s = checks ms (check m s).0

  -- a session that has the message in its history
  abbrev pub IsNoting : Bytes → ℕ → ℕ → ℕ → Sm2KexSessionData → Type 0
  IsNoting msg_hash at newer from session =
      (session.session_id ≡ session_id)
      × (session.created_at_ms ≤ from)
      × IsRecent msg_hash at newer session.message_history

  abbrev Knows : Bytes → ℕ → ℕ → ℕ → S → Type 0
  Knows msg_hash at newer from s =
      (later : ℕ)
      → from ≤ later
      → (redis.fetch later session_id s ≡ none)
        ⊎ ((session : Sm2KexSessionData) × (redis.fetch later session_id s ≡ some session)
            × IsNoting msg_hash at newer from session)

  weaken :
      (msg_hash : Bytes) (at newer newer' from from' : ℕ) (s : S)
      → newer ≤ newer'
      → from ≤ from'
      → Knows msg_hash at newer from s
      → Knows msg_hash at newer' from' s
  weaken msg_hash at newer newer' from from' s le order h later after =
      elim (h later (omega arith)) [
        | inl gone ↦ inl gone
        | inr (session, there, (same, old, (front, young, parts, few))) ↦
            inr (session, there, (same, omega arith, (front, young, parts, omega arith)))
      ]

  -- a saved session with the message
  saved_Knows :
      (msg_hash : Bytes) (at newer : ℕ) (m : Message) (session : Sm2KexSessionData) (s : S)
      → IsNoting msg_hash at newer m.saved session
      → m.saved ≤ m.stored
      → m.saved < 2 ^ 64
      → Knows msg_hash at newer m.stored (save_session redis m.saved m.stored session s)
  saved_Knows msg_hash at newer m session s (same, old, recent) order small later after =
      elim (Bool-cases
        (ltb later (m.stored + (300 - (m.saved - session.created_at_ms) / 1000) * 1000))) [
          | inl there ↦ inr (
            session,
            subst
                (λ i.
                  redis.fetch later i (save_session redis m.saved m.stored session s)
                  ≡ some session)
                same (rw there at kept),
            (same, omega arith, recent),
          )
          | inr gone ↦ inl (
              subst
                (λ i. redis.fetch later i (save_session redis m.saved m.stored session s) ≡ none)
                same (rw gone at kept))
        ]
    where
      kept :
          redis.fetch later session.session_id (save_session redis m.saved m.stored session s) ≡ (
            if ltb later (m.stored + (300 - (m.saved - session.created_at_ms) / 1000) * 1000)
            then some session
            else none)
      kept = fetch-save_session redis m.saved m.stored later session s old small after

  check-Knows :
      (msg_hash : Bytes) (at newer from : ℕ) (m : Message) (s : S)
      → IsTimely at from m
      → newer + 1 ≤ 9
      → Knows msg_hash at newer from s
      → Knows msg_hash at (newer + 1) m.stored (check m s).0
  unfolding check_and_add_message get_session
  check-Knows msg_hash at newer from m s (after, order, order', small, late) few h =
      elim (h m.looked after) [
        | inl gone ↦
            rw (check_and_add_message, get_session, gone)
              (weaken msg_hash at newer (newer + 1) from m.stored s (omega arith) (omega arith) h)
        | inr (session, there, (same, old, recent)) ↦
            rw (check_and_add_message, get_session, there)
              (if-cases
                (λ (r : S × Result SessionError Bool). Knows msg_hash at (newer + 1) m.stored r.0)
                (is_replay m.msg_hash (retain (cutoff m) session.message_history))
                (λ again.
                  weaken msg_hash at newer (newer + 1) from m.stored s (omega arith) (omega arith)
                    h)
                (λ new.
                  saved_Knows msg_hash at (newer + 1) m
                    (record session {
                      message_history = add_message m.now m.msg_hash session.message_history;
                      last_activity_ms = m.now;
                    })
                    s
                    (
                      same,
                      omega arith,
                      add_message-IsRecent m.now m.msg_hash msg_hash at newer
                          session.message_history late few recent,
                    )
                    order' small))
      ]

  -- the instant of the last store
  abbrev pub ends : ℕ → List Message → ℕ
  ends from [] = from
  ends from (m ∷ ms) = ends m.stored ms

  checks-Knows :
      (msg_hash : Bytes) (at newer from : ℕ) (ms : List Message) (s : S)
      → AreTimely at from ms
      → newer + length ms ≤ 9
      → Knows msg_hash at newer from s
      → Knows msg_hash at 9 (ends from ms) (checks ms s)
  checks-Knows msg_hash at newer from [] s timely few h =
      weaken msg_hash at newer 9 from from s (omega arith) (omega arith) h
  checks-Knows msg_hash at newer from (m ∷ ms) s (first, timely) few h =
      checks-Knows msg_hash at (newer + 1) m.stored ms (check m s).0 timely (omega arith)
        (check-Knows msg_hash at newer from m s first (omega arith) h)

  accepted-Knows :
      (m : Message) (session : Sm2KexSessionData) (s : S)
      → get_session redis m.looked session_id s ≡ some session
      → session.session_id ≡ session_id
      → session.created_at_ms ≤ m.saved
      → m.saved ≤ m.stored
      → m.saved < 2 ^ 64
      → (check m s).1 ≡ ok false
      → Knows m.msg_hash m.now 0 m.stored (check m s).0
  unfolding check_and_add_message
  accepted-Knows m session s there same old order small accepted =
      elim (Bool-cases (is_replay m.msg_hash (retain (cutoff m) session.message_history))) [
        | inl again ↦ absurd (ground (arith, rw (check_and_add_message, there, again) at accepted))
        | inr fresh ↦
            rw (check_and_add_message, there, fresh)
              (saved_Knows m.msg_hash m.now 0 m
                (record session {
                  message_history = add_message m.now m.msg_hash session.message_history;
                  last_activity_ms = m.now;
                })
                s (same, old, add_message-new m.now m.msg_hash session.message_history) order small)
      ]

  refused :
      (at newer from : ℕ) (m : Message) (s : S)
      → from ≤ m.looked
      → cutoff m < at
      → Knows m.msg_hash at newer from s
      → ((check m s).1 ≡ ok true) ⊎ ((check m s).1 ≡ err (key_not_found session_id))
  unfolding check_and_add_message get_session
  refused at newer from m s after late h = elim (h m.looked after) [
    | inl gone ↦ inr (rw (check_and_add_message, get_session, gone) refl)
    | inr (session, there, (same, old, recent)) ↦ inl (
        rw
          (
            check_and_add_message,
            get_session,
            there,
            is_replay-IsRecent (cutoff m) m.msg_hash at newer session.message_history late recent,
          )
          refl)
  ]

  -- A message that was accepted is reported as a replay when it comes again within the minute, with
  -- nine other messages of the session in between at most, unless the session is gone by then.
  pub check_and_add_message_replay :
      (first again : Message) (others : List Message) (session : Sm2KexSessionData) (s : S)
      → get_session redis first.looked session_id s ≡ some session
      → session.session_id ≡ session_id
      → session.created_at_ms ≤ first.saved
      → first.saved ≤ first.stored
      → first.saved < 2 ^ 64
      → (check first s).1 ≡ ok false
      → AreTimely first.now first.stored others
      → length others ≤ 9
      → ends first.stored others ≤ again.looked
      → cutoff again < first.now
      → again.msg_hash ≡ first.msg_hash
      → ((check again (checks others (check first s).0)).1 ≡ ok true)
        ⊎ ((check again (checks others (check first s).0)).1 ≡ err (key_not_found session_id))
  check_and_add_message_replay first again others session s there same old order small accepted
        timely few after late repeated =
      refused first.now 9 (ends first.stored others) again (checks others (check first s).0) after
        late
        (rw repeated (
          checks-Knows first.msg_hash first.now 0 first.stored others (check first s).0 timely
            (omega arith) (accepted-Knows first session s there same old order small accepted)))
