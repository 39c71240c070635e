-- ===== src/Keystore/Cache/Bounded.antt =====
-- The bound on the cache of crates/kms-keystore/src/bounded_cache.rs, kept by all of its methods.
use gm_kms.Base.{
  none, some, [], ◌∷◌, inl, inr, get, insert, ℕ, nat_Eq, refl, List, HashMap, Option, remove,
  Option-cases, ◌≡◌, Bool, All, length, true, All-imp, push, arith, any, keys, if-cases, nat_eq_iff,
  any-push, Bool-cases, ◌≤◌, leb, leb→le, ◌==◌, false, ap, ==_refl, suc,
}
use gm_kms.Keystore.Cache.{
  BoundedKeyCache, Eviction, remove_first, new, mutate, evict, evict_over, insert_with_eviction,
  insert_entries, mutate_and_insert, remove_key, clear,
}

-- `order.contains(k)`
abbrev pub is_queued : List ℕ → ℕ → Bool
is_queued order k = any (λ j. j == k) order

-- every key of the map is in the queue
abbrev pub IsTracked {ℓ} : {V : Type ℓ} → HashMap ℕ V → List ℕ → Type 0
IsTracked m order = All (λ k. is_queued order k ≡ true) (keys m)

abbrev pub IsWithin {ℓ} : {V : Type ℓ} → Option ℕ → HashMap ℕ V → Type 0
IsWithin none m = Unit
IsWithin (some limit) m = length m ≤ limit

abbrev pub IsBounded {ℓ} : {V : Type ℓ} → BoundedKeyCache V → Type 0
IsBounded c = IsTracked c.map c.order × IsWithin c.capacity c.map

is_queued-remove_first :
    (key k : ℕ) (order : List ℕ)
    → k == key ≡ false
    → is_queued order k ≡ true
    → is_queued (remove_first key order) k ≡ true
unfolding remove_first
is_queued-remove_first key k [] other h = h
is_queued-remove_first key k (j ∷ order) other h = ground (
  arith,
  is_queued-remove_first key k order other,
  nat_eq_iff j key,
  nat_eq_iff j k,
  nat_eq_iff k key,
)

module _ {ℓ} {V : Type ℓ} where
  insert-IsTracked :
      (key : ℕ) (v : V) (m : HashMap ℕ V) (order : List ℕ)
      → is_queued order key ≡ true
      → IsTracked m order
      → IsTracked (insert key v m) order
  unfolding insert
  insert-IsTracked key v [] order q h = (q, tt)
  insert-IsTracked key v ((k, w) ∷ m) order q h =
      if-cases (λ (m' : HashMap ℕ V). IsTracked m' order) (k == key) (λ e. (q, h.1))
        (λ e. (h.0, insert-IsTracked key v m order q h.1))

  remove-All {κ} :
      (P : ℕ → Type κ) (key : ℕ) (m : HashMap ℕ V)
      → All P (keys m)
      → All (λ k. P k × (k == key ≡ false)) (keys (remove key m))
  unfolding remove
  remove-All P key [] h = tt
  remove-All P key ((k, w) ∷ m) h =
      if-cases (λ (m' : HashMap ℕ V). All (λ j. P j × (j == key ≡ false)) (keys m')) (k == key)
        (λ e. remove-All P key m h.1) (λ e. ((h.0, e), remove-All P key m h.1))

  pub length-remove : (key : ℕ) (m : HashMap ℕ V) → length (remove key m) ≤ length m
  unfolding remove
  length-remove key [] = omega arith
  length-remove key ((k, w) ∷ m) = ground (arith, length-remove key m)

  pub length-insert_old :
      (key : ℕ) (v : V) (m : HashMap ℕ V) {w : V}
      → get key m ≡ some w
      → length (insert key v m) ≡ length m
  unfolding get insert
  length-insert_old key v [] h = absurd (ground arith)
  length-insert_old key v ((k, w) ∷ m) {w = u} h = elim (Bool-cases (k == key)) [
    | inl same ↦ rw (same, insert) refl
    | inr other ↦ rw (other, insert) (ap suc (length-insert_old key v m (rw (other, get) at h)))
  ]

  -- a queue that has lost its front still tracks what is left
  pop-IsTracked :
      (victim : ℕ) (order : List ℕ) (m : HashMap ℕ V)
      → IsTracked m (victim ∷ order)
      → IsTracked (remove victim m) order
  pop-IsTracked victim order m h =
      All-imp (λ k both. ground (arith, both.0, both.1, nat_eq_iff victim k, nat_eq_iff k victim))
        (keys (remove victim m)) (remove-All (λ k. is_queued (victim ∷ order) k ≡ true) victim m h)

  evict-IsBounded :
      (limit : ℕ) (m : HashMap ℕ V) (order : List ℕ) (n : ℕ)
      → IsTracked m order
      → IsTracked (evict limit m order n).kept (evict limit m order n).queue
        × (length (evict limit m order n).kept ≤ limit)
  unfolding evict
  evict-IsBounded limit [] [] n h = (h, omega arith)
  evict-IsBounded limit ((k, v) ∷ m) [] n h = absurd (ground arith)
  evict-IsBounded limit m (victim ∷ order) n h =
      if-cases (λ (e : Eviction V). IsTracked e.kept e.queue × (length e.kept ≤ limit))
        (leb (length m) limit) (λ few. (h, leb→le _ _ few))
        (λ many. evict-IsBounded limit (remove victim m) order _ (pop-IsTracked victim order m h))

  insert_with_eviction-IsBounded :
      (key : ℕ) (v : V) (c : BoundedKeyCache V)
      → IsBounded c
      → IsBounded (insert_with_eviction key v c)
  unfolding insert_with_eviction evict_over
  insert_with_eviction-IsBounded key v c h = bounded c.capacity
    where
      m : HashMap ℕ V
      m = insert key v c.map

      queue : List ℕ
      queue = push c.order key

      tracked : IsTracked m queue
      tracked =
          insert-IsTracked key v c.map queue
            (ground (arith, any-push (λ j. j == key) c.order key, ==_refl key))
            (All-imp (λ k q. ground (arith, any-push (λ j. j == k) c.order key)) (keys c.map) h.0)

      bounded :
          (limit : Option ℕ)
          → IsTracked
              (evict_over limit m queue c.evictions).kept
              (evict_over limit m queue c.evictions).queue
            × IsWithin limit (evict_over limit m queue c.evictions).kept
      bounded none = (tracked, tt)
      bounded (some most) = evict-IsBounded most m queue c.evictions tracked

  insert_entries-IsBounded :
      (new : HashMap ℕ V) (c : BoundedKeyCache V) → IsBounded c → IsBounded (insert_entries new c)
  unfolding insert_entries
  insert_entries-IsBounded [] c h = h
  insert_entries-IsBounded ((k, v) ∷ new) c h =
      insert_entries-IsBounded new (insert_with_eviction k v c)
        (insert_with_eviction-IsBounded k v c h)

  IsWithin-length :
      (limit : Option ℕ) (m m' : HashMap ℕ V)
      → length m' ≤ length m
      → IsWithin limit m
      → IsWithin limit m'
  IsWithin-length none m m' le h = tt
  IsWithin-length (some limit) m m' le h = omega arith

  get-IsTracked :
      (key : ℕ) (m : HashMap ℕ V) (order : List ℕ) {w : V}
      → get key m ≡ some w
      → IsTracked m order
      → is_queued order key ≡ true
  unfolding get
  get-IsTracked key [] order q t = absurd (ground arith)
  get-IsTracked key ((k, v) ∷ m) order q t = elim (Bool-cases (k == key)) [
    | inl same ↦ rw (← (nat_Eq.test_iff k key).0 same) t.0
    | inr other ↦ get-IsTracked key m order (rw (get, other) at q) t.1
  ]

  -- an entry in place of one that is there
  replace-IsBounded :
      (key : ℕ) (v : V) (c : BoundedKeyCache V) {w : V}
      → get key c.map ≡ some w
      → IsBounded c
      → IsBounded (record c { map = insert key v c.map })
  replace-IsBounded key v c found h = (
    insert-IsTracked key v c.map c.order (get-IsTracked key c.map c.order found h.0) h.0,
    IsWithin-length c.capacity c.map (insert key v c.map)
        (omega (arith, length-insert_old key v c.map found)) h.1,
  )

  remove_key-IsBounded :
      (key : ℕ) (c : BoundedKeyCache V) → IsBounded c → IsBounded (remove_key key c).0
  unfolding remove_key
  remove_key-IsBounded key c h = elim (Option-cases (get key c.map)) [
    | inl missing ↦ rw (missing, remove_key) h
    | inr (v, found) ↦
        rw (found, remove_key)
          (
            All-imp (λ k both. is_queued-remove_first key k c.order both.1 both.0)
                (keys (remove key c.map))
                (remove-All (λ k. is_queued c.order k ≡ true) key c.map h.0),
            IsWithin-length c.capacity c.map (remove key c.map) (length-remove key c.map) h.1,
          )
  ]

-- the calls that change a cache
pub data Step {V : Type 0} : BoundedKeyCache V → BoundedKeyCache V → Type 1 where
  inserting :
      {c : BoundedKeyCache V} (key : ℕ) (entry : V) → Step c (insert_with_eviction key entry c)
  mutating :
      {c : BoundedKeyCache V} {R : Type 0} (key : ℕ) (f : V → V × R) → Step c (mutate key f c).0
  rotating :
      {c : BoundedKeyCache V} {R : Type 0} (key : ℕ) (f : V → V × (R × HashMap ℕ V))
      → Step c (mutate_and_insert key f c).0
  removing : {c : BoundedKeyCache V} (key : ℕ) → Step c (remove_key key c).0
  clearing : {c : BoundedKeyCache V} → Step c (clear c)

module _ {V : Type 0} where
  -- Every call keeps every cached key in the eviction queue, and keeps the number of entries within
  -- the capacity.
  pub Step-IsBounded : {c d : BoundedKeyCache V} → Step c d → IsBounded c → IsBounded d
  unfolding mutate mutate_and_insert clear
  Step-IsBounded (inserting {c} key entry) h = insert_with_eviction-IsBounded key entry c h
  Step-IsBounded (mutating {c} key f) h = elim (Option-cases (get key c.map)) [
    | inl missing ↦ rw (missing, mutate) h
    | inr (v, found) ↦ rw (found, mutate) (replace-IsBounded key (f v).0 c found h)
  ]
  Step-IsBounded (rotating {c} key f) h = elim (Option-cases (get key c.map)) [
    | inl missing ↦ rw (missing, mutate_and_insert) h
    | inr (v, found) ↦
        rw (found, mutate_and_insert)
          (insert_entries-IsBounded (f v).1.1 (record c { map = insert key (f v).0 c.map })
            (replace-IsBounded key (f v).0 c found h))
  ]
  Step-IsBounded (removing {c} key) h = remove_key-IsBounded key c h
  Step-IsBounded (clearing {c}) h = (tt, IsWithin-length c.capacity c.map [] (omega arith) h.1)
