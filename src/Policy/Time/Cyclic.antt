-- ===== src/Policy/Time/Cyclic.antt =====
-- The time range of crates/kms-policy/src/engine.rs as an interval of the day, which may pass
-- midnight.
use gm_kms.Base.{
  ℕ, ◌+◌, ◌-◌, ◌*◌, ◌/◌, ◌%◌, ◌<◌, ◌≡◌, Option, none, some, List, [], ◌∷◌, Bytes, leb, arith, split,
}
use gm_kms.Policy.Time.{
  Clocks, current_time, minute_of_day, parse_u32, clock_time, parse_time, in_range,
  evaluate_time_range, two_parts,
}

minute_of_day-lt : (t : ℕ) → minute_of_day t < 1440
unfolding minute_of_day
minute_of_day-lt t = omega arith

clock_time-lt : (h m : Option ℕ) {t : ℕ} → clock_time h m ≡ some t → t < 1440
unfolding clock_time
clock_time-lt none m e = cc
clock_time-lt (some h) none e = cc
clock_time-lt (some h) (some m) e = ground arith

parse_time-lt : (s : Bytes) {t : ℕ} → parse_time s ≡ some t → t < 1440
unfolding parse_time
parse_time-lt s {t} e = parts (split b':' s) e
  where
    parts : (ps : List Bytes) → two_parts ps ≡ some t → t < 1440
    parts [] q = cc
    parts (h ∷ []) q = cc
    parts (h ∷ m ∷ []) q = clock_time-lt (parse_u32 h) (parse_u32 m) q
    parts (h ∷ m ∷ x ∷ ps) q = cc

-- minutes after `start`, around midnight
abbrev pub since : ℕ → ℕ → ℕ
since start t = (t + 1440 - start) % 1440

in_range_lem :
    (s e now : ℕ)
    → s < 1440
    → e < 1440
    → now < 1440
    → in_range s e now ≡ leb (since s now) (since s e)
unfolding in_range
in_range_lem s e now hs he hn = ground arith

-- A time range is the interval of the day that runs from its start to its end, over midnight where
-- the end comes first, both ends included.
pub evaluate_time_range_cyclic :
    (c : Clocks) (start end : Bytes) {s e : ℕ}
    → parse_time start ≡ some s
    → parse_time end ≡ some e
    → evaluate_time_range c start end ≡ leb (since s (minute_of_day (current_time c))) (since s e)
unfolding evaluate_time_range
evaluate_time_range_cyclic c start end {s} {e} p q =
    rw (p, q)
      (in_range_lem s e (minute_of_day (current_time c)) (parse_time-lt start p)
        (parse_time-lt end q) (minute_of_day-lt (current_time c)))

-- the text `HH:MM` of a time of day
abbrev pub clock_text : ℕ → ℕ → Bytes
clock_text h m = (b'0' + h / 10) ∷ (b'0' + h % 10) ∷ b':' ∷ (b'0' + m / 10) ∷ (b'0' + m % 10) ∷ []

-- The text `HH:MM` of every time of day is read back.
pub parse_time-clock_text :
    (h m : ℕ) → h < 24 → m < 60 → parse_time (clock_text h m) ≡ some (h * 60 + m)
unfolding parse_time
parse_time-clock_text h m p q = ground arith
