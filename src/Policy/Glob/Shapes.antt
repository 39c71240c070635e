-- ===== src/Policy/Glob/Shapes.antt =====
-- `glob_match` of crates/kms-policy/src/engine.rs on the usual shapes of a pattern.
use mathlib.Core.Option.{some-injective}
use gm_kms.Base.{
  bytes_Eq, zero, suc, ℕ, refl, any, slice_from, ◌==◌, ◌≤◌, if◌then◌else◌, ◌++◌, has_prefix,
  bytes_eq, split, nat_eq, ◌&&◌, inl, inr, Bool-cases, Bytes, ◌∷◌, Bool, ends_with, length, ◌≡◌,
  false, [], some, ◌<◌, arith, true, none, ltb, ltb→lt, ◌+◌, find, ◌≢◌, at_boundary, Option-cases,
}
use gm_kms.Policy.Glob.{
  star, starts_with_star, first_nonempty, leading_start, anchored_start, match_rest, finish,
  from_start, glob_match,
}

abbrev pub has_star : Bytes → Bool
has_star q = any (λ c. nat_eq c star) q

split-plain : (q : Bytes) → has_star q ≡ false → split star q ≡ q ∷ []
split-plain [] h = refl
split-plain (c ∷ q) h = ground (arith, split-plain q)

split-prefix : (q : Bytes) → has_star q ≡ false → split star (q ++ (star ∷ [])) ≡ q ∷ [] ∷ []
split-prefix [] h = refl
split-prefix (c ∷ q) h = ground (arith, split-prefix q)

ends_with-plain : (q : Bytes) → has_star q ≡ false → ends_with star q ≡ false
ends_with-plain [] h = refl
ends_with-plain (c ∷ []) h = ground arith
ends_with-plain (c ∷ d ∷ q) h = ends_with-plain (d ∷ q) (ground arith)

ends_with-prefix : (q : Bytes) → ends_with star (q ++ (star ∷ [])) ≡ true
ends_with-prefix [] = refl
ends_with-prefix (c ∷ []) = refl
ends_with-prefix (c ∷ d ∷ q) = ends_with-prefix (d ∷ q)

bytes_eq-prefix : (q t : Bytes) → bytes_eq q t ≡ (has_prefix q t && nat_eq (length q) (length t))
bytes_eq-prefix [] [] = refl
bytes_eq-prefix [] (d ∷ t) = ground arith
bytes_eq-prefix (c ∷ q) [] = refl
bytes_eq-prefix (c ∷ q) (d ∷ t) = ground (arith, bytes_eq-prefix q t)

not_lone : (q : Bytes) → has_star q ≡ false → bytes_eq q (star ∷ []) ≡ false
not_lone [] h = refl
not_lone (c ∷ q) h = ground arith

not_leading : (q : Bytes) → has_star q ≡ false → starts_with_star q ≡ false
not_leading [] h = refl
not_leading (c ∷ q) h = ground arith

-- A pattern without a star matches the text that it is, and no other.
pub glob_match_literal : (q t : Bytes) → has_star q ≡ false → glob_match q t ≡ some (q == t)
unfolding glob_match from_start anchored_start match_rest finish
glob_match_literal q t h = ground (
  arith,
  not_lone q h,
  not_leading q h,
  split-plain q h,
  ends_with-plain q h,
  bytes_eq-prefix q t,
)

-- A pattern whose only star is its last character matches the texts that start with the rest of it.
pub glob_match_prefix :
    (q t : Bytes) → has_star q ≡ false → glob_match (q ++ (star ∷ [])) t ≡ some (has_prefix q t)
unfolding glob_match from_start anchored_start match_rest finish
glob_match_prefix [] t h = refl
glob_match_prefix (c ∷ q) t h = ground (arith, split-prefix (c ∷ q) h, ends_with-prefix (c ∷ q))

slice_past : (n : ℕ) (t : Bytes) → length t < n → slice_from n t ≡ none
slice_past zero t h = absurd (omega arith)
slice_past (suc n) [] h = refl
slice_past (suc zero) (d ∷ t) h = absurd (omega arith)
slice_past (suc (suc n)) (d ∷ t) h = slice_past (suc n) t (omega arith)

slice_all : (n : ℕ) (t : Bytes) → length t ≡ n → slice_from n t ≡ some []
slice_all zero [] h = refl
slice_all zero (d ∷ t) h = absurd (omega arith)
slice_all (suc n) [] h = absurd (omega arith)
slice_all (suc zero) (d ∷ []) h = refl
slice_all (suc zero) (d ∷ e ∷ t) h = absurd (omega arith)
slice_all (suc (suc n)) (d ∷ t) h = slice_all (suc n) t (omega arith)

-- A pattern of a star and a plain part panics on a text shorter than the part, and refuses a text
-- of the part's own length, the part itself included.
pub glob_match_suffix :
    (c : ℕ) (q t : Bytes)
    → has_star (c ∷ q) ≡ false
    → length t ≤ length (c ∷ q)
    → glob_match (star ∷ c ∷ q) t ≡ (if ltb (length t) (length (c ∷ q)) then none else some false)
unfolding glob_match from_start leading_start first_nonempty
glob_match_suffix c q t h short = elim (Bool-cases (ltb (length t) (length (c ∷ q)))) [
  | inl less ↦
      ground (arith, split-plain (c ∷ q) h, slice_past (length (c ∷ q)) t (ltb→lt _ _ less))
  | inr same ↦ ground (arith, split-plain (c ∷ q) h, slice_all (length (c ∷ q)) t (ground arith))
]

length-slice_from :
    (n : ℕ) (t : Bytes) {s : Bytes} → slice_from n t ≡ some s → length s + n ≡ length t
length-slice_from zero t h = ground (arith, some-injective t _ h)
length-slice_from (suc n) [] h = absurd (ground arith)
length-slice_from (suc zero) (d ∷ t) {s} h = elim (Bool-cases (at_boundary t)) [
  | inl whole ↦ ground (arith, some-injective t s (rw (whole, slice_from) at h))
  | inr cut ↦ absurd (ground arith)
]
length-slice_from (suc (suc n)) (d ∷ t) h = omega (arith, length-slice_from (suc n) t h)

has_prefix-length : (p t : Bytes) → has_prefix p t ≡ true → length p ≤ length t
has_prefix-length [] t h = omega arith
has_prefix-length (c ∷ p) [] h = absurd (ground arith)
has_prefix-length (c ∷ p) (d ∷ t) h = ground (arith, has_prefix-length p t)

find-short : (p t : Bytes) → length t < length p → find p t ≡ none
find-short p [] h = ground (arith, has_prefix-length p [])
find-short p (d ∷ t) h = ground (arith, has_prefix-length p (d ∷ t), find-short p t)

-- A pattern of a star and a plain part accepts no text shorter than twice the part.
pub glob_match_suffix_short :
    (c : ℕ) (q t : Bytes)
    → length t < length (c ∷ q) + length (c ∷ q)
    → has_star (c ∷ q) ≡ false
    → glob_match (star ∷ c ∷ q) t ≢ some true
unfolding glob_match from_start leading_start first_nonempty
glob_match_suffix_short c q t short h found = elim (Option-cases (slice_from (length (c ∷ q)) t)) [
  | inl cut ↦ ground (arith, split-plain (c ∷ q) h)
  | inr (s, rest) ↦ ground (
    arith,
    split-plain (c ∷ q) h,
    find-short (c ∷ q) s (omega (arith, length-slice_from (length (c ∷ q)) t rest)),
  )
]
