-- ===== src/Policy/Time.antt =====
-- crates/kms-policy/src/engine.rs: the time of day, `evaluate_time_range` and the check of the
-- clock's skew. The trusted time source and the system clock are arguments.
pub mod Cyclic
use gm_kms.Base.{
  ℕ, ◌+◌, ◌-◌, ◌*◌, ◌/◌, ◌%◌, ◌^◌, Bool, true, false, ◌&&◌, ◌||◌, Option, none, some, List, [], ◌∷◌,
  ltb, leb, nat_eq, Bytes, split, if◌then◌else◌,
}
use gm_kms.Policy.Json.{ℤ, pos, negsuc}

-- `t as u64`
abbrev pub as_u64 : ℤ → ℕ
as_u64 (pos n) = n
as_u64 (negsuc n) = 2 ^ 64 - 1 - n

-- the readings of one evaluation: the trusted source, which can fail, and the system clock
pub record Clocks : Type 0 where
  pub trusted : Option ℤ
  pub system : ℕ

abbrev pub current_time : Clocks → ℕ
current_time c = elim c.trusted [ some t ↦ as_u64 t | none ↦ c.system ]

unfoldable pub minute_of_day : ℕ → ℕ
minute_of_day t = (t % 86400) / 3600 * 60 + (t % 3600) / 60

abbrev pub is_digit : ℕ → Bool
is_digit b = leb b'0' b && leb b b'9'

-- the digits of `str::parse::<u32>`, which fails on any other byte and on overflow
unfoldable pub parse_digits : Bytes → ℕ → Option ℕ
parse_digits [] acc = some acc
parse_digits (b ∷ t) acc =
    let next = acc * 10 + (b - b'0') in
    let rest = parse_digits t next in if is_digit b && ltb next (2 ^ 32) then rest else none

unfoldable pub parse_u32 : Bytes → Option ℕ
unfolding parse_digits
parse_u32 [] = none
parse_u32 (b ∷ []) = parse_digits (b ∷ []) 0
parse_u32 (b ∷ d ∷ t) = if nat_eq b b'+' then parse_digits (d ∷ t) 0 else parse_digits (b ∷ d ∷ t) 0

unfoldable pub clock_time : Option ℕ → Option ℕ → Option ℕ
clock_time none m = none
clock_time (some h) none = none
clock_time (some h) (some m) = if ltb h 24 && ltb m 60 then some (h * 60 + m) else none

abbrev pub two_parts : List Bytes → Option ℕ
two_parts (h ∷ m ∷ []) = clock_time (parse_u32 h) (parse_u32 m)
two_parts _ = none

unfoldable pub parse_time : Bytes → Option ℕ
unfolding parse_u32 clock_time
parse_time s = two_parts (split b':' s)

unfoldable pub in_range : ℕ → ℕ → ℕ → Bool
in_range start end now =
    if leb start end then leb start now && leb now end else leb start now || leb now end

abbrev pub between : Option ℕ → Option ℕ → ℕ → Bool
between none e now = false
between (some s) none now = false
between (some s) (some e) now = in_range s e now

unfoldable pub evaluate_time_range : Clocks → Bytes → Bytes → Bool
unfolding parse_time minute_of_day in_range
evaluate_time_range c start end =
    between (parse_time start) (parse_time end) (minute_of_day (current_time c))

pub data TimeSkewStatus : Type 0 where
  in_sync : TimeSkewStatus
  warning : ℕ → TimeSkewStatus
  critical : ℕ → TimeSkewStatus

abbrev pub max_time_skew_secs : ℕ
max_time_skew_secs = 30

abbrev pub time_skew_warning_secs : ℕ
time_skew_warning_secs = 10

-- `(system_time - trusted_time).abs()`
abbrev pub skew : ℕ → ℤ → ℕ
skew system (pos t) = (system - t) + (t - system)
skew system (negsuc t) = system + t + 1

unfoldable pub check_skew : ℕ → ℤ → TimeSkewStatus
check_skew system trusted =
    let s = skew system trusted in
    if ltb max_time_skew_secs s
    then critical s
    else if ltb time_skew_warning_secs s
    then warning s
    else in_sync

abbrev pub is_healthy : TimeSkewStatus → Bool
is_healthy in_sync = true
is_healthy _ = false

abbrev pub skew_secs : TimeSkewStatus → Option ℕ
skew_secs in_sync = none
skew_secs (warning s) = some s
skew_secs (critical s) = some s
