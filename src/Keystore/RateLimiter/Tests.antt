-- ===== src/Keystore/RateLimiter/Tests.antt =====
-- Runs of the rate limiter (crates/kms-keystore), on a store of scores that never drops a key.
use gm_kms.Base.{
  bytes_Eq, ℕ, suc, none, some, [], ◌∷◌, ◌+◌, ◌≡◌, ◌≤◌, true, false, refl, arith, ascii, List,
  if◌then◌else◌, ltb, leb, nat_eq, Bytes, Bool, filter, not, ◌&&◌, ◌==◌,
}
use gm_kms.Keystore.RateLimiter.{RedisCounts, RateLimitConfig}
use gm_kms.Keystore.RateLimiter.Burst.{answers, answers_first_second}

abbrev Key : Type 0
Key = Bytes × ℕ

abbrev same_key : Key → Key → Bool
same_key k l = k.0 == l.0 && nat_eq k.1 l.1

record Store : Type 0 where
  scores : List (Key × ℕ)
  counters : Key → ℕ

unfoldable count : Key → (ℕ → Bool) → List (Key × ℕ) → ℕ
count key p [] = 0
count key p (m ∷ rest) =
    let found = count key p rest in if same_key m.0 key && p m.1 then suc found else found

abbrev remove : Key → ℕ → List (Key × ℕ) → List (Key × ℕ)
remove key max xs = filter (λ m. not (same_key m.0 key && leb m.1 max)) xs

count_removed :
    (key : Key) (max : ℕ) (xs : List (Key × ℕ))
    → count key (λ x. true) (remove key max xs) ≡ count key (λ x. ltb max x) xs
unfolding count
count_removed key max [] = refl
count_removed key max (m ∷ rest) = ground (arith, count_removed key max rest)

count_above_removed :
    (key : Key) (min max : ℕ) (xs : List (Key × ℕ))
    → max ≤ min
    → count key (λ x. ltb min x) (remove key max xs) ≡ count key (λ x. ltb min x) xs
unfolding count
count_above_removed key min max [] h = refl
count_above_removed key min max (m ∷ rest) h =
    ground (arith, count_above_removed key min max rest h)

count_added :
    (key : Key) (min score : ℕ) (xs : List (Key × ℕ))
    → score ≤ min
    → count key (λ x. ltb min x) ((key, score) ∷ xs) ≤ count key (λ x. ltb min x) xs
unfolding count
count_added key min score xs h = ground arith

abbrev store : RedisCounts Store
store = record {
  zrembyscore = λ now key max s. record s { scores = remove key max s.scores };
  zcard = λ now key s. count key (λ x. true) s.scores;
  zadd = λ now key id score s. record s { scores = (key, score) ∷ s.scores };
  expire = λ now key secs s. s;
  incr = λ now key s. (
    record s { counters = (λ k. if same_key k key then s.counters key + 1 else s.counters k) },
    s.counters key + 1,
  );
  read = λ now key s. if nat_eq (s.counters key) 0 then none else some (s.counters key);
  del = λ key s. record s {
    scores = filter (λ m. not (same_key m.0 key)) s.scores;
    counters = (λ k. if same_key k key then 0 else s.counters k);
  };
  count_above = λ now key min s. count key (λ x. ltb min x) s.scores;
  zcard-zrembyscore = λ now key max s. count_removed key max s.scores;
  count_above-zrembyscore = λ now key min max s h. count_above_removed key min max s.scores h;
  count_above-zadd = λ now key id score min s h. count_added key min score s.scores h;
  count_above-expire = λ now key secs min s. omega arith;
}

abbrev config : RateLimitConfig
config = record { max_requests = 2; window_secs = 60; sliding_window = true }

abbrev empty : Store
empty = record { scores = []; counters = (λ k. 0) }

abbrev three : List Bytes
three = ascii "a" ∷ ascii "b" ∷ ascii "c" ∷ []

-- three requests in the first second of a window whose limit is two
answers_first_second_example :
    answers store config 1200 (ascii "tenant") three empty ≡ some (true ∷ true ∷ true ∷ [])
unfolding count
answers_first_second_example =
    answers_first_second store config 1200 (ascii "tenant") (omega arith) refl refl (omega arith)
      three empty refl

-- a second later the third is refused
refused_later :
    answers store config 1201 (ascii "tenant") three empty ≡ some (true ∷ true ∷ false ∷ [])
unfolding answers count
refused_later = refl
