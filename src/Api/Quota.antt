-- ===== src/Api/Quota.antt =====
-- crates/kms-api/src/quota.rs: the quotas of a tenant. Redis is the interface `Counters`; a key of it
-- names the tenant and the minute or day, which are those of a reading of the clock in seconds. The
-- passing of time is the store's own.
pub mod Bound
use gm_kms.Base.{
  ℕ, none, some, ◌+◌, ◌*◌, ◌/◌, ◌≡◌, ◌≢◌, ok, err, Bytes, Bool, true, Option, if◌then◌else◌, Result,
  ltb, leb, ascii, suc, false, ◌>>=◌,
}

pub record QuotaConfig : Type 0 where
  pub max_keys : ℕ
  pub max_requests_per_minute : ℕ
  pub max_requests_per_day : ℕ

abbrev pub default_config : QuotaConfig
default_config = record {
  max_keys = 1000;
  max_requests_per_minute = 5000;
  max_requests_per_day = 1000000;
}

pub record QuotaUsage : Type 0 where
  pub tenant_id : Bytes
  pub key_count : ℕ
  pub requests_this_minute : ℕ
  pub requests_today : ℕ

pub record QuotaExceeded : Type 0 where
  pub resource : Bytes
  pub current : ℕ
  pub limit : ℕ

pub data QuotaKey : Type 0 where
  keys_of : Bytes → QuotaKey
  minute_of day_of : Bytes → ℕ → QuotaKey

-- `INCR`, `DECR`, `GET`, `SET` and `EXPIRE`. The `none` of an answer is a failed connection, or a key
-- that is not there.
pub record Counters (S : Type 0) : Type 0 where
  pub incr : QuotaKey → S → S × Option ℕ
  pub decr : QuotaKey → S → S × Option ℕ
  pub read : QuotaKey → S → Option ℕ
  pub write : QuotaKey → ℕ → S → S × Bool
  pub expire : QuotaKey → ℕ → S → S × Bool

-- the two readings of the clock in `record_request`
pub record Readings : Type 0 where
  pub first : ℕ
  pub second : ℕ

abbrev pub minute_key : Bytes → ℕ → QuotaKey
minute_key tenant_id now = minute_of tenant_id (now / 60)

abbrev pub day_key : Bytes → ℕ → QuotaKey
day_key tenant_id now = day_of tenant_id (now / 86400)

abbrev pub or_zero : Option ℕ → ℕ
or_zero none = 0
or_zero (some n) = n

module _ {S : Type 0} (redis : Counters S) (config : QuotaConfig) where
  unfoldable pub can_create_key : Bytes → S → Result QuotaExceeded Bool
  can_create_key tenant_id s =
      let current = or_zero (redis.read (keys_of tenant_id) s) in
      if leb config.max_keys current
      then err (record { resource = ascii "keys"; current = current; limit = config.max_keys })
      else ok true

  -- The `none` is an error of the storage.
  unfoldable pub increment_key_count : Bytes → S → S × Option ℕ
  increment_key_count tenant_id s =
      let (counted, answer) = redis.incr (keys_of tenant_id) s in
      elim answer [
        | none ↦ (counted, none)
        | some n ↦
            let (kept, done) = redis.expire (keys_of tenant_id) (60 * 60 * 24 * 30) counted in
            (kept, (if done then some n else none))
      ]

  unfoldable pub decrement_key_count : Bytes → S → S × Option ℕ
  decrement_key_count tenant_id s =
      let (counted, answer) = redis.decr (keys_of tenant_id) s in
      elim answer [
        | none ↦ (counted, none)
        | some n ↦
            if ltb config.max_keys n
            then (let (stored, done) = redis.write (keys_of tenant_id) 0 counted in
                (stored, (if done then some 0 else none)))
            else (counted, some n)
      ]

  -- one of the two accounts of `record_request`; the `true` is a request that is still to be counted
  -- in the other one
  unfoldable pub count_request : QuotaKey → ℕ → Bytes → ℕ → S → S × Result QuotaExceeded Bool
  count_request key secs resource limit s =
      let (counted, answer) = redis.incr key s in
      elim answer [
        | none ↦ (counted, ok false)
        | some n ↦ (
          (redis.expire key secs counted).0,
          (if ltb limit n
              then err (record { resource = resource; current = n; limit = limit })
              else ok true),
        )
      ]

  unfoldable pub record_request : Readings → Bytes → S → S × Result QuotaExceeded (Unit {0})
  unfolding count_request
  record_request at tenant_id s =
      let (s1, minute) =
        count_request (minute_key tenant_id at.first) 120 (ascii "requests_per_minute")
          config.max_requests_per_minute s in
      let (s2, day) =
        count_request (day_key tenant_id at.second) 86400 (ascii "requests_per_day")
          config.max_requests_per_day s1 in
      elim minute [
        | err e ↦ (s1, err e)
        | ok false ↦ (s1, ok tt)
        | ok true ↦ elim day [ err e ↦ (s2, err e) | ok counted ↦ (s2, ok tt) ]
      ]

  unfoldable pub get_usage : Readings → Bytes → S → Option QuotaUsage
  get_usage at tenant_id s = redis.read (keys_of tenant_id) s >>= λ key_count.
      redis.read (minute_key tenant_id at.first) s >>= λ requests_this_minute.
      redis.read (day_key tenant_id at.second) s >>= λ requests_today. some (record {
        tenant_id = tenant_id;
        key_count = key_count;
        requests_this_minute = requests_this_minute;
        requests_today = requests_today;
      })
