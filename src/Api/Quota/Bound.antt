-- ===== src/Api/Quota/Bound.antt =====
-- crates/kms-api/src/quota.rs: how many requests the quotas of a minute and of a day let through, on
-- counters that answer.
use native.Mathlib.Decide.{dec_lt}
use gm_kms.Base.{
  ℕ, zero, suc, some, ◌-◌, ◌≤◌, ◌≡◌, ◌≢◌, Bytes, if◌then◌else◌, is_ok, refl, arith, true, ◌<◌,
  ascii, false, not, ltb, ◌∙◌, err, sym, ok, ap,
}
use gm_kms.Api.Quota.{
  QuotaConfig, Counters, QuotaKey, minute_of, day_of, minute_key, day_key, Readings, count_request,
  record_request,
}

-- Counters that answer: `value` is what `GET` would read, 0 for a key that is not there. No key
-- expires while the calls last.
pub record IsCounting {S : Type 0} (redis : Counters S) : Type 0 where
  pub value : QuotaKey → S → ℕ
  pub incr_answer : (key : QuotaKey) (s : S) → (redis.incr key s).1 ≡ some (suc (value key s))
  pub incr_same : (key : QuotaKey) (s : S) → value key (redis.incr key s).0 ≡ suc (value key s)
  pub incr_other :
      (key other : QuotaKey) (s : S)
      → key ≢ other
      → value other (redis.incr key s).0 ≡ value other s
  pub expire_keeps :
      (key other : QuotaKey) (secs : ℕ) (s : S)
      → value other (redis.expire key secs s).0 ≡ value other s

minute-day : (t u : Bytes) (m d : ℕ) → minute_of t m ≢ day_of u d
minute-day t u m d = cc

module _ {S : Type 0} (redis : Counters S) (counting : IsCounting redis)
    (config : QuotaConfig) where
  -- one account: the request counts, and is refused when the count is above the limit
  count_request_answer :
      (key : QuotaKey) (secs : ℕ) (resource : Bytes) (limit : ℕ) (s : S)
      → (count_request redis config key secs resource limit s).1 ≡ (
          if ltb limit (suc (counting.value key s))
          then err
              (record { resource = resource; current = suc (counting.value key s); limit = limit })
          else ok true)
  unfolding count_request
  count_request_answer key secs resource limit s =
      rw (count_request, counting.incr_answer key s) refl

  count_request_same :
      (key : QuotaKey) (secs : ℕ) (resource : Bytes) (limit : ℕ) (s : S)
      → counting.value key (count_request redis config key secs resource limit s).0
        ≡ suc (counting.value key s)
  unfolding count_request
  count_request_same key secs resource limit s =
      rw (count_request, counting.incr_answer key s)
        (counting.expire_keeps key key secs _ ∙ counting.incr_same key s)

  count_request_other :
      (key other : QuotaKey) (secs : ℕ) (resource : Bytes) (limit : ℕ) (s : S)
      → key ≢ other
      → counting.value other (count_request redis config key secs resource limit s).0
        ≡ counting.value other s
  unfolding count_request
  count_request_other key other secs resource limit s differ =
      rw (count_request, counting.incr_answer key s)
        (counting.expire_keeps key other secs _ ∙ counting.incr_other key other s differ)

  module _ (at : Readings) (tenant_id : Bytes) where
    -- how many of so many requests are let through
    unfoldable pub admitted : ℕ → S → ℕ
    unfolding record_request
    admitted zero s = 0
    admitted (suc n) s =
        let (next, answer) = record_request redis config at tenant_id s in
        let rest = admitted n next in if is_ok answer then suc rest else rest

    abbrev this_minute : S → ℕ
    this_minute s = counting.value (minute_key tenant_id at.first) s

    abbrev today : S → ℕ
    today s = counting.value (day_key tenant_id at.second) s

    -- the state after the first account, and after both
    abbrev first_account : S → S
    first_account s =
        (count_request redis config (minute_key tenant_id at.first) 120
          (ascii "requests_per_minute") config.max_requests_per_minute s).0

    abbrev second_account : S → S
    second_account s =
        (count_request redis config (day_key tenant_id at.second) 86400 (ascii "requests_per_day")
          config.max_requests_per_day (first_account s)).0

    first_account_lem :
        (s : S)
        → (this_minute (first_account s) ≡ suc (this_minute s))
          × (today (first_account s) ≡ today s)
    first_account_lem s = (
      count_request_same _ 120 _ _ s,
      count_request_other _ _ 120 _ _ s (minute-day tenant_id tenant_id _ _),
    )

    second_account_lem :
        (s : S)
        → (this_minute (second_account s) ≡ suc (this_minute s))
          × (today (second_account s) ≡ suc (today s))
    second_account_lem s = (
      count_request_other _ _ 86400 _ _ _ (λ p. minute-day tenant_id tenant_id _ _ (sym p))
          ∙ (first_account_lem s).0,
      count_request_same _ 86400 _ _ _ ∙ ap suc (first_account_lem s).1,
    )

    refused_early :
        (s : S)
        → config.max_requests_per_minute ≤ this_minute s
        → (is_ok (record_request redis config at tenant_id s).1 ≡ false)
          × ((record_request redis config at tenant_id s).0 ≡ first_account s)
    unfolding record_request
    refused_early s h =
        rw
          (
            record_request,
            count_request_answer (minute_key tenant_id at.first) 120 (ascii "requests_per_minute")
                config.max_requests_per_minute s,
            above,
          )
          (refl, refl)
      where
        above : ltb config.max_requests_per_minute (suc (this_minute s)) ≡ true
        above = ground arith

    counted_twice :
        (s : S)
        → this_minute s < config.max_requests_per_minute
        → (is_ok (record_request redis config at tenant_id s).1
            ≡ not (ltb config.max_requests_per_day (suc (today s))))
          × ((record_request redis config at tenant_id s).0 ≡ second_account s)
    unfolding record_request
    counted_twice s h =
        rw
          (
            record_request,
            count_request_answer (minute_key tenant_id at.first) 120 (ascii "requests_per_minute")
                config.max_requests_per_minute s,
            below,
            count_request_answer (day_key tenant_id at.second) 86400 (ascii "requests_per_day")
                config.max_requests_per_day (first_account s),
            (first_account_lem s).1,
          )
          (ground arith, ground arith)
      where
        below : ltb config.max_requests_per_minute (suc (this_minute s)) ≡ false
        below = ground arith

    -- Of the requests of a tenant within a minute of a day, on counters that answer, no more are let
    -- through than what the quota of the minute and the quota of the day had left.
    pub admitted_bounded :
        (n : ℕ) (s : S)
        → (admitted n s ≤ config.max_requests_per_minute - this_minute s)
          × (admitted n s ≤ config.max_requests_per_day - today s)
    unfolding admitted
    admitted_bounded zero s = (omega arith, omega arith)
    admitted_bounded (suc n) s = elim (dec_lt (this_minute s) config.max_requests_per_minute) [
      | no h ↦
          let (refused, next) = refused_early s (omega arith) in
          let (l, r) = admitted_bounded n (first_account s) in
          let (lm, lt) = first_account_lem s in
          rw (admitted, refused, next) (omega arith, omega arith)
      | yes h ↦
          let (answered, next) = counted_twice s h in
          let (l, r) = admitted_bounded n (second_account s) in
          let (lm, lt) = second_account_lem s in
          rw (admitted, answered, next) (ground arith, ground arith)
    ]
