-- ===== src/Base/Lists.antt =====
-- Lists measured by native numbers, and the iterator adaptors of the source.
use Prim.Native.Nat.{ℕ, suc, ◌≤◌}
use mathlib.Core.Path.{◌≡◌, refl, sym, subst}
use mathlib.Core.Bool.{Bool, true, false, ◌&&◌, ◌||◌}
use mathlib.Core.List.{List, [], ◌∷◌, ◌++◌, Memᴰ}
use native.Mathlib.Omega.{arith}
use mathlib.Core.Logic.{inl, inr}
use gm_kms.Base.Tests.{Bool-cases, if◌then◌else◌}

module _ {ℓ} {A : Type ℓ} where
  abbrev pub length : List A → ℕ
  length [] = 0
  length (x ∷ xs) = suc (length xs)

  -- `Vec::push`
  abbrev pub push : List A → A → List A
  push xs x = xs ++ x ∷ []

  -- `iter().any`, `iter().all` and `filter` with a Boolean closure
  abbrev pub any : (A → Bool) → List A → Bool
  any p [] = false
  any p (x ∷ xs) = p x || any p xs

  abbrev pub all : (A → Bool) → List A → Bool
  all p [] = true
  all p (x ∷ xs) = p x && all p xs

  abbrev pub filter : (A → Bool) → List A → List A
  filter p [] = []
  filter p (x ∷ xs) = let rest = filter p xs in if p x then x ∷ rest else rest

  -- how many elements pass the test
  abbrev pub count_if : (A → Bool) → List A → ℕ
  count_if p [] = 0
  count_if p (x ∷ xs) = let rest = count_if p xs in if p x then suc rest else rest

  pub length-push : (xs : List A) (x : A) → length (push xs x) ≡ suc (length xs)
  length-push [] x = refl
  length-push (y ∷ ys) x = omega (arith, length-push ys x)

module _ {ℓ} {A : Type ℓ} where
  -- a predicate at every element
  abbrev pub All {κ} : (A → Type κ) → List A → Type κ
  All P [] = Unit
  All P (x ∷ xs) = P x × All P xs

  pub All-imp {κ μ} :
      {P : A → Type κ} {Q : A → Type μ}
      → ((x : A) → P x → Q x)
      → (xs : List A) → All P xs
      → All Q xs
  All-imp f [] h = tt
  All-imp f (x ∷ xs) h = (f x h.0, All-imp f xs h.1)

  pub All-push {κ} : (P : A → Type κ) (xs : List A) (x : A) → All P xs → P x → All P (push xs x)
  All-push P [] x h p = (p, tt)
  All-push P (y ∷ ys) x h p = (h.0, All-push P ys x h.1 p)

  pub any-push : (p : A → Bool) (xs : List A) (x : A) → any p (push xs x) ≡ (any p xs || p x)
  any-push p [] x = ground arith
  any-push p (y ∷ ys) x = ground (arith, any-push p ys x)

  pub All-of_any-false : (p : A → Bool) (xs : List A) → any p xs ≡ false → All (λ x. p x ≡ false) xs
  All-of_any-false p [] h = tt
  All-of_any-false p (x ∷ xs) h = ground (arith, All-of_any-false p xs)

  -- what a successful search finds
  pub find_of_any :
      (p : A → Bool) (xs : List A) → any p xs ≡ true → (x : A) × Memᴰ x xs × (p x ≡ true)
  find_of_any p [] h = cc
  find_of_any p (x ∷ xs) h = elim (Bool-cases (p x)) [
    | inl here ↦ (x, Memᴰ.head refl, here)
    | inr other ↦ let (y, m, q) = find_of_any p xs (ground arith) in (y, Memᴰ.tail m, q)
  ]

  pub All_at {κ} : (P : A → Type κ) {x : A} {xs : List A} → All P xs → Memᴰ x xs → P x
  All_at P h (Memᴰ.head e) = subst P (sym e) h.0
  All_at P h (Memᴰ.tail m) = All_at P h.1 m

  -- a filter and a count that agree on every element agree
  pub count_if-le-length : (p : A → Bool) (xs : List A) → count_if p xs ≤ length xs
  count_if-le-length p [] = omega arith
  count_if-le-length p (x ∷ xs) = ground (arith, count_if-le-length p xs)

-- two lists that start alike by parts of one length
pub append_injective {ℓ} :
    {A : Type ℓ} (a b s t : List A) → length a ≡ length b → a ++ s ≡ b ++ t → (a ≡ b) × (s ≡ t)
append_injective [] [] s t same e = (refl, e)
append_injective [] (d ∷ b) s t same e = absurd (ground arith)
append_injective (c ∷ a) [] s t same e = absurd (ground arith)
append_injective (c ∷ a) (d ∷ b) s t same e = ground (arith, append_injective a b s t)
