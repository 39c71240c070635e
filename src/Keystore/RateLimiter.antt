-- ===== src/Keystore/RateLimiter.antt =====
-- crates/kms-keystore/src/rate_limiter.rs: the sliding window rate limiter. Redis is the interface
-- `RedisCounts`, on a clock in seconds, whose reading is an argument. The key
-- `rate_limit:{tenant}:{window}` is the pair of both; scores are the clock's readings, which are
-- exact as f64 and i64. A division by a window of zero seconds is a panic, the none of an Option.
-- A connection that fails is left out.
pub mod Burst
mod Tests
use gm_kms.Base.{
  ℕ, zero, suc, none, some, ◌+◌, ◌-◌, ◌*◌, ◌/◌, ◌%◌, ◌^◌, ◌<◌, ◌≤◌, ◌≡◌, Bytes, Bool, true, false,
  Option, if◌then◌else◌, ltb, leb, nat_eq,
}
use gm_kms.Keystore.KexSession.{minus}

pub record RateLimitConfig : Type 0 where
  pub max_requests : ℕ
  pub window_secs : ℕ
  pub sliding_window : Bool

abbrev pub default_config : RateLimitConfig
default_config = record { max_requests = 1000; window_secs = 60; sliding_window = true }

pub record RateLimitResult : Type 0 where
  pub allowed : Bool
  pub current : ℕ
  pub limit : ℕ
  pub remaining : ℕ
  pub reset_at : ℕ
  pub retry_after_secs : Option ℕ

abbrev pub allowed_result : ℕ → ℕ → ℕ → RateLimitResult
allowed_result current limit reset_at = record {
  allowed = true;
  current = current;
  limit = limit;
  remaining = limit - current;
  reset_at = reset_at;
  retry_after_secs = none;
}

abbrev pub rate_limited : ℕ → ℕ → ℕ → ℕ → RateLimitResult
rate_limited current limit reset_at retry_after = record {
  allowed = false;
  current = current;
  limit = limit;
  remaining = 0;
  reset_at = reset_at;
  retry_after_secs = some retry_after;
}

-- `ZREMRANGEBYSCORE key 0 max`, `ZCARD`, `ZADD`, `EXPIRE`, `INCR`, `GET` and `DEL`, each at an
-- instant. `count_above` is `ZCOUNT key (min +inf`, by which the laws describe the sorted sets.
pub record RedisCounts (S : Type 0) : Type 0 where
  pub zrembyscore : ℕ → Bytes × ℕ → ℕ → S → S
  pub zcard : ℕ → Bytes × ℕ → S → ℕ
  pub zadd : ℕ → Bytes × ℕ → Bytes → ℕ → S → S
  pub expire : ℕ → Bytes × ℕ → ℕ → S → S
  pub incr : ℕ → Bytes × ℕ → S → S × ℕ
  pub read : ℕ → Bytes × ℕ → S → Option ℕ
  pub del : Bytes × ℕ → S → S
  pub count_above : ℕ → Bytes × ℕ → ℕ → S → ℕ
  pub zcard-zrembyscore :
      (now : ℕ) (key : Bytes × ℕ) (max : ℕ) (s : S)
      → zcard now key (zrembyscore now key max s) ≡ count_above now key max s
  pub count_above-zrembyscore :
      (now : ℕ) (key : Bytes × ℕ) (min max : ℕ) (s : S)
      → max ≤ min
      → count_above now key min (zrembyscore now key max s) ≡ count_above now key min s
  pub count_above-zadd :
      (now : ℕ) (key : Bytes × ℕ) (id : Bytes) (score min : ℕ) (s : S)
      → score ≤ min
      → count_above now key min (zadd now key id score s) ≤ count_above now key min s
  pub count_above-expire :
      (now : ℕ) (key : Bytes × ℕ) (secs min : ℕ) (s : S)
      → count_above now key min (expire now key secs s) ≤ count_above now key min s

-- the start of the window that an instant lies in, and its end
abbrev pub start_of : RateLimitConfig → ℕ → ℕ
start_of config now = now / config.window_secs * config.window_secs

abbrev pub end_of : RateLimitConfig → ℕ → ℕ
end_of config now = (start_of config now + config.window_secs) % 2 ^ 64

-- `unwrap_or(0)` of the counter that was read
abbrev pub or_zero : Option ℕ → ℕ
or_zero none = 0
or_zero (some n) = n

module _ {S : Type 0} (redis : RedisCounts S) where
  -- the branch of the sliding window
  unfoldable pub check_sliding : RateLimitConfig → ℕ → Bytes → Bytes × ℕ → S → S × RateLimitResult
  check_sliding config now request_id key s =
      let kept = redis.zrembyscore now key (start_of config now) s in
      let current = redis.zcard now key kept in
      if leb config.max_requests current
      then (
        kept,
        rate_limited current config.max_requests (end_of config now)
            (minus (end_of config now) now),
      )
      else (
        redis.expire now key (config.window_secs * 2 % 2 ^ 64)
            (redis.zadd now key request_id now kept),
        allowed_result (current + 1) config.max_requests (end_of config now),
      )

  -- the branch of the fixed window
  unfoldable pub check_fixed : RateLimitConfig → ℕ → Bytes × ℕ → S → S × RateLimitResult
  check_fixed config now key s =
      let (counted, current) = redis.incr now key s in
      (
        (if nat_eq current 1 then redis.expire now key config.window_secs counted else counted),
        (if ltb config.max_requests current
            then rate_limited current config.max_requests (end_of config now)
                (minus (end_of config now) now)
            else allowed_result current config.max_requests (end_of config now)),
      )

  unfoldable pub check_rate_limit :
      RateLimitConfig → ℕ → Bytes → Bytes → S → Option (S × RateLimitResult)
  unfolding check_sliding check_fixed
  check_rate_limit config now request_id tenant_id s =
      if nat_eq config.window_secs 0
      then none
      else if config.sliding_window
      then some (check_sliding config now request_id (tenant_id, now / config.window_secs) s)
      else some (check_fixed config now (tenant_id, now / config.window_secs) s)

  -- what `get_status` reports on a count
  abbrev pub status_of : RateLimitConfig → ℕ → ℕ → RateLimitResult
  status_of config now current = record {
    allowed = ltb current config.max_requests;
    current = current;
    limit = config.max_requests;
    remaining = config.max_requests - current;
    reset_at = end_of config now;
    retry_after_secs =
        (if leb config.max_requests current then some (minus (end_of config now) now) else none);
  }

  unfoldable pub get_status : RateLimitConfig → ℕ → Bytes → S → Option (S × RateLimitResult)
  get_status config now tenant_id s =
      let key : Bytes × ℕ = (tenant_id, now / config.window_secs) in
      let kept = redis.zrembyscore now key (start_of config now) s in
      if nat_eq config.window_secs 0
      then none
      else if config.sliding_window
      then some (kept, status_of config now (redis.zcard now key kept))
      else some (s, status_of config now (or_zero (redis.read now key s)))

  unfoldable pub reset : RateLimitConfig → ℕ → Bytes → S → Option S
  reset config now tenant_id s =
      if nat_eq config.window_secs 0
      then none
      else some (redis.del (tenant_id, now / config.window_secs) s)
