-- ===== src/Core/Shamir/Blocks.antt =====
-- crates/kms-core/src/shamir.rs: the bytes of a block, the blocks of a secret and its padding.
use gm_kms.Base.{
  ℕ, zero, suc, [], ◌∷◌, ◌++◌, ◌+◌, ◌-◌, ◌*◌, ◌/◌, ◌%◌, ◌^◌, ◌<◌, ◌≤◌, ◌≡◌, Bytes, Bool, List, All,
  length, arith, refl, ap, map, filter, count_if, Bool-cases, inl, inr, nat_eq,
}
use gm_kms.Core.Aad.{be_bytes}
use gm_kms.Core.Shamir.Shares.{first_of, rest_of, be_from, repeated, padded_len, padding}

abbrev pub IsBytes : Bytes → Type 0
IsBytes bs = All (λ b. b < 256) bs

-- seven bytes are the digits of their number
seven_bytes :
    (a b c d e f g : ℕ)
    → a < 256
    → b < 256
    → c < 256
    → d < 256
    → e < 256
    → f < 256
    → g < 256
    → let n = be_from 0 (a ∷ b ∷ c ∷ d ∷ e ∷ f ∷ g ∷ []) in
      (be_bytes 7 n ≡ a ∷ b ∷ c ∷ d ∷ e ∷ f ∷ g ∷ []) × (n < 2 ^ 56)
unfolding be_bytes
seven_bytes a b c d e f g ha hb hc hd he hf hg = (ground arith, omega arith)

pub be_bytes-be_from :
    (bs : Bytes)
    → length bs ≡ 7
    → IsBytes bs
    → (rest_of 1 (be_bytes 8 (be_from 0 bs)) ≡ bs) × (be_from 0 bs < 2 ^ 56)
unfolding be_bytes
be_bytes-be_from (a ∷ b ∷ c ∷ d ∷ e ∷ f ∷ g ∷ []) h (ha, (hb, (hc, (hd, (he, (hf, (hg, tail))))))) =
    seven_bytes a b c d e f g ha hb hc hd he hf hg
be_bytes-be_from [] h k = absurd (omega arith)
be_bytes-be_from (a ∷ []) h k = absurd (omega arith)
be_bytes-be_from (a ∷ b ∷ []) h k = absurd (omega arith)
be_bytes-be_from (a ∷ b ∷ c ∷ []) h k = absurd (omega arith)
be_bytes-be_from (a ∷ b ∷ c ∷ d ∷ []) h k = absurd (omega arith)
be_bytes-be_from (a ∷ b ∷ c ∷ d ∷ e ∷ []) h k = absurd (omega arith)
be_bytes-be_from (a ∷ b ∷ c ∷ d ∷ e ∷ f ∷ []) h k = absurd (omega arith)
be_bytes-be_from (a ∷ b ∷ c ∷ d ∷ e ∷ f ∷ g ∷ i ∷ t) h k = absurd (omega arith)

-- The number of each block is below the modulus.
abbrev pub BlocksFit : ℕ → ℕ → Bytes → Type 0
BlocksFit prime zero padded = Unit
BlocksFit prime (suc count) padded =
    (be_from 0 (first_of 7 padded) < prime) × BlocksFit prime count (rest_of 7 padded)

module _ {ℓ} {A : Type ℓ} where
  pub first_of-append : (n : ℕ) (xs ys : List A) → length xs ≡ n → first_of n (xs ++ ys) ≡ xs
  first_of-append zero [] ys h = refl
  first_of-append zero (x ∷ xs) ys h = absurd (omega arith)
  first_of-append (suc n) [] ys h = absurd (omega arith)
  first_of-append (suc n) (x ∷ xs) ys h = ap (λ t. x ∷ t) (first_of-append n xs ys (omega arith))

  pub rest_of-append : (n : ℕ) (xs ys : List A) → length xs ≡ n → rest_of n (xs ++ ys) ≡ ys
  rest_of-append zero [] ys h = refl
  rest_of-append zero (x ∷ xs) ys h = absurd (omega arith)
  rest_of-append (suc n) [] ys h = absurd (omega arith)
  rest_of-append (suc n) (x ∷ xs) ys h = rest_of-append n xs ys (omega arith)

  pub first-rest : (n : ℕ) (xs : List A) → first_of n xs ++ rest_of n xs ≡ xs
  first-rest zero xs = refl
  first-rest (suc n) [] = refl
  first-rest (suc n) (x ∷ xs) = ap (λ t. x ∷ t) (first-rest n xs)

  pub length-first_of : (n : ℕ) (xs : List A) → n ≤ length xs → length (first_of n xs) ≡ n
  length-first_of zero xs h = refl
  length-first_of (suc n) [] h = absurd (omega arith)
  length-first_of (suc n) (x ∷ xs) h =
      let e = length-first_of n xs (omega arith) in omega (arith, e)

  pub length-rest_of : (n : ℕ) (xs : List A) → length (rest_of n xs) ≡ length xs - n
  length-rest_of zero xs = omega arith
  length-rest_of (suc n) [] = omega arith
  length-rest_of (suc n) (x ∷ xs) = let e = length-rest_of n xs in omega (arith, e)

  pub All-first_rest {κ} :
      (P : A → Type κ) (n : ℕ) (xs : List A)
      → All P xs
      → All P (first_of n xs) × All P (rest_of n xs)
  All-first_rest P zero xs h = (tt, h)
  All-first_rest P (suc n) [] h = (tt, tt)
  All-first_rest P (suc n) (x ∷ xs) (p, h) = let (a, b) = All-first_rest P n xs h in ((p, a), b)

  pub length-append : (xs ys : List A) → length (xs ++ ys) ≡ length xs + length ys
  length-append [] ys = omega arith
  length-append (x ∷ xs) ys = let e = length-append xs ys in omega (arith, e)

  pub All-append {κ} : (P : A → Type κ) (xs ys : List A) → All P xs → All P ys → All P (xs ++ ys)
  All-append P [] ys h k = k
  All-append P (x ∷ xs) ys (p, h) k = (p, All-append P xs ys h k)

  pub filter-append :
      (p : A → Bool) (xs ys : List A) → filter p (xs ++ ys) ≡ filter p xs ++ filter p ys
  filter-append p [] ys = refl
  filter-append p (x ∷ xs) ys = elim (Bool-cases (p x)) [
    | inl yes_here ↦ rw yes_here (ap (λ t. x ∷ t) (filter-append p xs ys))
    | inr not_here ↦ rw not_here (filter-append p xs ys)
  ]

  pub length-filter : (p : A → Bool) (xs : List A) → length (filter p xs) ≡ count_if p xs
  length-filter p [] = refl
  length-filter p (x ∷ xs) = let e = length-filter p xs in ground (arith, e)

pub length-map {ℓ κ} :
    {A : Type ℓ} {B : Type κ} (f : A → B) (xs : List A) → length (map f xs) ≡ length xs
length-map f [] = refl
length-map f (x ∷ xs) = let e = length-map f xs in omega (arith, e)

length-repeated : (n b : ℕ) → length (repeated n b) ≡ n
length-repeated zero b = refl
length-repeated (suc n) b = let e = length-repeated n b in omega (arith, e)

repeated-IsBytes : (n b : ℕ) → b < 256 → IsBytes (repeated n b)
repeated-IsBytes zero b h = tt
repeated-IsBytes (suc n) b h = (h, repeated-IsBytes n b h)

-- The padding fills whole blocks, at least one.
pub padded_len_lem :
    (l : ℕ) → (l < padded_len l) × (padded_len l ≡ padded_len l / 7 * 7) × (padded_len l ≤ l + 7)
padded_len_lem l = elim (Bool-cases (nat_eq (l % 7) 0)) [
  | inl full ↦
      let e : l % 7 ≡ 0 = ground arith in rw full (omega arith, omega (arith, e), omega arith)
  | inr part ↦ rw part (omega arith, omega arith, omega arith)
]

pub length-padding : (secret : Bytes) → length (padding secret) ≡ padded_len (length secret)
length-padding secret =
    let missing = padded_len (length secret) - length secret in
    let (more, whole, most) = padded_len_lem (length secret) in
    let e = length-append secret (repeated missing (missing % 256)) in
    let r = length-repeated missing (missing % 256) in omega (arith, e, r)

pub padding-IsBytes : (secret : Bytes) → IsBytes secret → IsBytes (padding secret)
padding-IsBytes secret h =
    let missing = padded_len (length secret) - length secret in
    All-append (λ b. b < 256) secret (repeated missing (missing % 256)) h
      (repeated-IsBytes missing (missing % 256) (omega arith))

-- Where the modulus is 2^56 at least, each block fits, whatever the secret is.
pub IsBytes-BlocksFit :
    (prime count : ℕ) (padded : Bytes)
    → 2 ^ 56 ≤ prime
    → length padded ≡ count * 7
    → IsBytes padded
    → BlocksFit prime count padded
IsBytes-BlocksFit prime zero padded large whole h = tt
IsBytes-BlocksFit prime (suc count) padded large whole h =
    let (head, tail) = All-first_rest (λ b. b < 256) 7 padded h in
    let (digits, bound) =
      be_bytes-be_from (first_of 7 padded) (length-first_of 7 padded (omega arith)) head in
    let l = length-rest_of 7 padded in
    (
      omega (arith, bound),
      IsBytes-BlocksFit prime count (rest_of 7 padded) large (omega (arith, l)) tail,
    )
