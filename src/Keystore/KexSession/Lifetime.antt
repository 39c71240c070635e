-- ===== src/Keystore/KexSession/Lifetime.antt =====
-- How long a session of crates/kms-keystore/src/sm2_kex_session.rs lasts.
use gm_kms.Base.{
  ℕ, none, some, ◌+◌, ◌-◌, ◌/◌, ◌<◌, ◌≤◌, ◌≡◌, ◌≢◌, ◌*◌, ◌^◌, ok, Bool, true, arith, ap,
  if◌then◌else◌, ltb, Bool-cases, inl, inr, sym, ◌∙◌, Result, if-cases, ltb→lt,
}
use gm_kms.Keystore.KexSession.{
  Redis, Sm2KexSessionData, save_session, minus, is_session_expired, get_session, session_ttl_secs,
  SessionError,
}

pub minus_le : (a b : ℕ) → b ≤ a → a < 2 ^ 64 → minus a b ≡ a - b
minus_le a b le small = omega arith

not_older : (age : ℕ) → age < 301000 → ltb 300 (age / 1000) ≡ true → ⊥
not_older age young h = ground arith

-- what is answered of a session that is found
abbrev found_answer : Bool → Result SessionError Bool
found_answer b = ok b

ok_injective : (a b : Bool) → found_answer a ≡ found_answer b → a ≡ b
ok_injective a b h = ground (arith, h)

not_old :
    (created saved later : ℕ)
    → created ≤ saved
    → saved ≤ later
    → later < 2 ^ 64
    → later < saved + (300 - (saved - created) / 1000) * 1000
    → found_answer (ltb session_ttl_secs (minus later created / 1000)) ≢ found_answer true
not_old created saved later old order small there e = not_older (later - created) (omega arith) (
    ap (λ n. ltb 300 (n / 1000)) (sym (minus_le later created (omega arith) small))
    ∙ ok_injective (ltb session_ttl_secs (minus later created / 1000)) true e)

module _ {S : Type 0} (redis : Redis S) where
  -- what is under the id after a save
  pub fetch-save_session :
      (saved stored later : ℕ) (session : Sm2KexSessionData) (s : S)
      → session.created_at_ms ≤ saved
      → saved < 2 ^ 64
      → stored ≤ later
      → redis.fetch later session.session_id (save_session redis saved stored session s) ≡ (
          if ltb later (stored + (300 - (saved - session.created_at_ms) / 1000) * 1000)
          then some session
          else none)
  unfolding save_session
  fetch-save_session saved stored later session s old small order =
      rw (minus_le saved session.created_at_ms old small) (
        if-cases
          (λ (t : S). redis.fetch later session.session_id t ≡ (
            if ltb later (stored + (300 - (saved - session.created_at_ms) / 1000) * 1000)
            then some session
            else none))
          (ltb 0 (300 - (saved - session.created_at_ms) / 1000))
          (λ left. redis.fetch-set_ex stored later session.session_id session _ s order)
          (λ over. redis.fetch-del later session.session_id s ∙ ground arith))

  -- A save never prolongs the life of a session: 301 seconds after its creation, and what passed
  -- between the reading of the clock and the storing, it is gone, however often it was saved.
  pub save_session_bounded :
      (saved stored later : ℕ) (session : Sm2KexSessionData) (s : S)
      → session.created_at_ms ≤ saved
      → saved < 2 ^ 64
      → saved ≤ stored
      → session.created_at_ms + 301000 + (stored - saved) ≤ later
      → stored ≤ later
      → get_session redis later session.session_id (save_session redis saved stored session s)
        ≡ none
  unfolding get_session
  save_session_bounded saved stored later session s old small lag late order =
      fetch-save_session saved stored later session s old small order ∙ ground arith

  -- A session that is still stored is not reported as expired: the report is an age of more than 300
  -- seconds, and the store has dropped the session by then.
  pub is_session_expired_never :
      (saved later : ℕ) (session : Sm2KexSessionData) (s : S)
      → session.created_at_ms ≤ saved
      → saved ≤ later
      → later < 2 ^ 64
      → is_session_expired redis later later session.session_id
          (save_session redis saved saved session s)
        ≢ ok true
  unfolding is_session_expired get_session
  is_session_expired_never saved later session s old order small expired =
      elim (Bool-cases
        (ltb later (saved + (300 - (saved - session.created_at_ms) / 1000) * 1000))) [
          | inl there ↦
              not_old session.created_at_ms saved later old order small (ltb→lt _ _ there) (
                rw
                  (
                    is_session_expired,
                    get_session,
                    fetch-save_session saved saved later session s old (omega arith) order,
                    there,
                  )
                  at expired)
          | inr gone ↦ absurd (
              ground (
                arith,
                rw
                    (
                      is_session_expired,
                      get_session,
                      fetch-save_session saved saved later session s old (omega arith) order,
                      gone,
                    )
                    at expired,
              ))
        ]
