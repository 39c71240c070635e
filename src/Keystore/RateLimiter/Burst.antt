-- ===== src/Keystore/RateLimiter/Burst.antt =====
-- crates/kms-keystore/src/rate_limiter.rs: which requests check_rate_limit lets through.
use mathlib.Core.Option
use native.Mathlib.Nat.{div-add-mod'}
use gm_kms.Base.{
  refl, ℕ, some, [], ◌∷◌, ◌*◌, ◌/◌, ◌%◌, ◌^◌, ◌<◌, ◌≡◌, Bytes, Bool, true, Option, ltb, List, map,
  ◌>>=◌, ◌∙◌, arith, ap,
}
use gm_kms.Keystore.RateLimiter.{
  RateLimitConfig, RedisCounts, start_of, end_of, check_sliding, check_rate_limit, allowed_result,
}

module _ {S : Type 0} (redis : RedisCounts S) (config : RateLimitConfig) where
  -- In a sliding window of one second at least, a request is allowed exactly if fewer requests than
  -- the limit are counted after the first second of the window.
  pub check_rate_limit_sliding :
      (now : ℕ) (id tenant : Bytes) (s : S)
      → 0 < config.window_secs
      → config.sliding_window ≡ true
      → Option.map (λ r. r.1.allowed) (check_rate_limit redis config now id tenant s)
        ≡ some (
            ltb
              (redis.count_above now (tenant, now / config.window_secs) (start_of config now) s)
              config.max_requests)
  unfolding check_rate_limit check_sliding
  check_rate_limit_sliding now id tenant s positive sliding = ground (
    arith,
    redis.zcard-zrembyscore now (tenant, now / config.window_secs) (start_of config now) s,
  )

  -- the answers to requests of a tenant at one instant
  unfoldable pub answers : ℕ → Bytes → List Bytes → S → Option (List Bool)
  unfolding check_rate_limit
  answers now tenant [] s = some []
  answers now tenant (id ∷ ids) s = check_rate_limit redis config now id tenant s >>= λ r.
      Option.map (λ bs. r.1.allowed ∷ bs) (answers now tenant ids r.0)

  module _ (now : ℕ) (tenant : Bytes) (positive : 0 < config.window_secs)
      (sliding : config.sliding_window ≡ true) (first : now % config.window_secs ≡ 0)
      (some_allowed : 0 < config.max_requests) where
    abbrev key : Bytes × ℕ
    key = (tenant, now / config.window_secs)

    starts : start_of config now ≡ now
    starts = let q = div-add-mod' now config.window_secs in omega arith

    abbrev kept : S → S
    kept s = redis.zrembyscore now key (start_of config now) s

    -- what is left of the set counts nothing, before and after the request is added
    uncounted : (s : S) → redis.count_above now key now s ≡ 0 → redis.zcard now key (kept s) ≡ 0
    uncounted s h =
        redis.zcard-zrembyscore now key (start_of config now) s
        ∙ (ap (λ x. redis.count_above now key x s) starts ∙ h)

    abbrev next : Bytes → S → S
    next id s =
        redis.expire now key (config.window_secs * 2 % 2 ^ 64) (redis.zadd now key id now (kept s))

    still_uncounted :
        (id : Bytes) (s : S)
        → redis.count_above now key now s ≡ 0
        → redis.count_above now key now (next id s) ≡ 0
    still_uncounted id s h =
        let added = redis.count_above-zadd now key id now now (kept s) (omega arith) in
        let left =
          redis.count_above-zrembyscore now key now (start_of config now) s
            (omega (arith, starts)) in
        let expired =
          redis.count_above-expire now key (config.window_secs * 2 % 2 ^ 64) now
            (redis.zadd now key id now (kept s)) in
        omega arith

    lets_through :
        (id : Bytes) (s : S)
        → redis.count_above now key now s ≡ 0
        → check_rate_limit redis config now id tenant s
          ≡ some (next id s, allowed_result 1 config.max_requests (end_of config now))
    unfolding check_rate_limit check_sliding
    lets_through id s h = let none_counted = uncounted s h in ground (arith, none_counted)

    -- In the first second of a sliding window of one second at least, with a limit of one request
    -- at least and no request of a later second counted, every request is allowed, however many
    -- there are.
    pub answers_first_second :
        (ids : List Bytes) (s : S)
        → redis.count_above now key now s ≡ 0
        → answers now tenant ids s ≡ some (map (λ id. true) ids)
    unfolding answers
    answers_first_second [] s h = refl
    answers_first_second (id ∷ ids) s h =
        rw (lets_through id s h, answers_first_second ids (next id s) (still_uncounted id s h)) refl
