-- ===== src/Base/Maps.antt =====
-- `HashMap` as an association list. The list's order stands for the unspecified order of
-- `values()`; keys are compared by the interface `PartialEq`.
use mathlib.Core.Path.{◌≡◌, refl, subst}
use mathlib.Core.Logic.{inl, inr}
use mathlib.Core.Bool.{Bool, true, false}
use mathlib.Core.Option.{Option, none, some, some-injective}
use mathlib.Core.List.{List, [], ◌∷◌}
use native.Mathlib.Omega.{arith}
use gm_kms.Base.Tests.{if◌then◌else◌, Bool-cases}
use gm_kms.Base.Equal.{PartialEq, ◌==◌, ==_refl}
use gm_kms.Base.Lists.{All, any}
use mathlib.Core.Option

abbrev pub HashMap {ℓ κ} : Type ℓ → Type κ → Type (ℓ ⊔ κ)
HashMap K V = List (K × V)

-- `for v in map.values_mut()`
abbrev pub map_values {ℓ κ} : {K : Type ℓ} {V : Type κ} → (V → V) → HashMap K V → HashMap K V
map_values f [] = []
map_values f ((k, v) ∷ m) = (k, f v) ∷ map_values f m

-- `values()`
abbrev pub keys {ℓ κ} : {K : Type ℓ} {V : Type κ} → HashMap K V → List K
keys [] = []
keys ((k, v) ∷ m) = k ∷ keys m

abbrev pub values {ℓ κ} : {K : Type ℓ} {V : Type κ} → HashMap K V → List V
values [] = []
values ((k, v) ∷ m) = v ∷ values m

module _ {ℓ κ} {K : Type ℓ} {V : Type κ} ⦃e : PartialEq K⦄ where
  unfoldable pub get : K → HashMap K V → Option V
  get key [] = none
  get key ((k, v) ∷ rest) = if k == key then some v else get key rest

  -- replaces the value under a key that is there, and adds a new key at the end
  unfoldable pub insert : K → V → HashMap K V → HashMap K V
  insert key new [] = (key, new) ∷ []
  insert key new ((k, v) ∷ rest) =
      if k == key then (key, new) ∷ rest else (k, v) ∷ insert key new rest

  unfoldable pub contains_key : K → HashMap K V → Bool
  unfolding get
  contains_key k m = elim (get k m) [ none ↦ false | some _ ↦ true ]

  unfoldable pub remove : K → HashMap K V → HashMap K V
  remove k [] = []
  remove k ((j, v) ∷ m) = let rest = remove k m in if j == k then rest else (j, v) ∷ rest

  pub get-remove :
      (k other : K) (m : HashMap K V)
      → get other (remove k m) ≡ (if k == other then none else get other m)
  unfolding get remove
  get-remove k other [] = ground arith
  get-remove k other ((j, v) ∷ m) =
      ground (arith, get-remove k other m, e.test_iff j k, e.test_iff j other, e.test_iff k other)

  pub get-insert :
      (key other : K) (new : V) (m : HashMap K V)
      → get other (insert key new m) ≡ (if key == other then some new else get other m)
  unfolding get insert
  get-insert key other new [] = refl
  get-insert key other new ((k, v) ∷ rest) = ground (
    arith,
    get-insert key other new rest,
    e.test_iff k key,
    e.test_iff k other,
    e.test_iff key other,
  )

  pub get-insert_self : (k : K) (v : V) (m : HashMap K V) → get k (insert k v m) ≡ some v
  get-insert_self k v m = ground (arith, get-insert k k v m, ==_refl k)

  -- a predicate of every stored value survives an insertion of a value that has it
  pub All-insert {μ} :
      (P : V → Type μ) (k : K) (v : V) (m : HashMap K V)
      → P v
      → All P (values m)
      → All P (values (insert k v m))
  unfolding insert
  All-insert P k v [] p h = (p, tt)
  All-insert P k v ((j, w) ∷ m) p h = elim (Bool-cases (j == k)) [
    | inl same ↦ rw (same, insert) (p, h.1)
    | inr other ↦ rw (other, insert) (h.0, All-insert P k v m p h.1)
  ]

  pub All-get {μ} :
      (P : V → Type μ) (k : K) (m : HashMap K V) {v : V} → All P (values m) → get k m ≡ some v → P v
  unfolding get
  All-get P k [] h q = cc
  All-get P k ((j, w) ∷ m) {v} h q = elim (Bool-cases (j == k)) [
    | inl same ↦ subst P (some-injective w v (rw (same, get) at q)) h.0
    | inr other ↦ All-get P k m h.1 (rw (other, get) at q)
  ]

  pub get-map_values :
      (k : K) (f : V → V) (m : HashMap K V) → get k (map_values f m) ≡ Option.map f (get k m)
  unfolding get
  get-map_values k f [] = refl
  get-map_values k f ((j, w) ∷ m) = elim (Bool-cases (j == k)) [
    | inl same ↦ rw (same, get) refl
    | inr other ↦ rw (other, get) (get-map_values k f m)
  ]

  -- what was just inserted is found by a search through the values
  pub any-insert :
      (p : V → Bool) (k : K) (v : V) (m : HashMap K V)
      → p v ≡ true
      → any p (values (insert k v m)) ≡ true
  unfolding insert
  any-insert p k v [] h = rw h
  any-insert p k v ((j, w) ∷ m) h = ground (arith, any-insert p k v m h)

module _ {ℓ κ} {K : Type ℓ} {V : Type κ} where
  pub All-map_values {μ} :
      (P : V → Type μ) (f : V → V) (m : HashMap K V)
      → ((v : V) → P v → P (f v))
      → All P (values m)
      → All P (values (map_values f m))
  All-map_values P f [] keep h = tt
  All-map_values P f ((k, v) ∷ m) keep h = (keep v h.0, All-map_values P f m keep h.1)
