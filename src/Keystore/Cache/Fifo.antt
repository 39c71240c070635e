-- ===== src/Keystore/Cache/Fifo.antt =====
-- What the cache of crates/kms-keystore/src/bounded_cache.rs evicts, and how its queue grows.
use mathlib.Core.Path.{subst}
use gm_kms.Base.{
  sym, if◌then◌else◌, zero, suc, ℕ, nat_Eq, refl, none, some, [], ◌∷◌, inl, inr, get, insert,
  remove, contains_key, ◌==◌, ◌≤◌, HashMap, List, length, ◌≡◌, ◌<◌, ◌+◌, Bool-cases, le→leb, arith,
  ap, push, get-insert, ==_refl, length-push, get-remove,
}
use gm_kms.Keystore.Cache.{BoundedKeyCache, new, evict, evict_over, insert_with_eviction}
use gm_kms.Keystore.Cache.Bounded.{length-remove}

module _ {ℓ} {V : Type ℓ} where
  length-insert_new :
      (key : ℕ) (v : V) (m : HashMap ℕ V)
      → get key m ≡ none
      → length (insert key v m) ≡ suc (length m)
  unfolding get insert
  length-insert_new key v [] h = refl
  length-insert_new key v ((k, w) ∷ m) h = elim (Bool-cases (k == key)) [
    | inl same ↦ absurd (ground arith)
    | inr other ↦ rw (other, insert) (ap suc (length-insert_new key v m (rw (other, get) at h)))
  ]

  length-remove_old :
      (key : ℕ) (m : HashMap ℕ V) {w : V} → get key m ≡ some w → length (remove key m) < length m
  unfolding get remove
  length-remove_old key [] h = absurd (ground arith)
  length-remove_old key ((k, v) ∷ m) {w = u} h = elim (Bool-cases (k == key)) [
    | inl same ↦ rw (same, remove) (omega (arith, length-remove key m))
    | inr other ↦ rw (other, remove) (omega (arith, length-remove_old key m (rw (other, get) at h)))
  ]

  -- the loop ends at once within the capacity
  evict-within :
      (limit : ℕ) (m : HashMap ℕ V) (order : List ℕ) (n : ℕ)
      → length m ≤ limit
      → evict limit m order n ≡ record { kept = m; queue = order; count = n }
  unfolding evict
  evict-within limit m [] n h = refl
  evict-within limit m (k ∷ order) n h = rw (le→leb (length m) limit h)

  -- one turn of the loop is enough for one entry too many
  evict-one :
      (limit : ℕ) (m : HashMap ℕ V) (oldest : ℕ) (order : List ℕ) (n : ℕ) {v : V}
      → length m ≡ suc limit
      → get oldest m ≡ some v
      → evict limit m (oldest ∷ order) n
        ≡ record { kept = remove oldest m; queue = order; count = n + 1 }
  unfolding evict contains_key
  evict-one limit m oldest order n h found = ground (
    arith,
    evict-within limit (remove oldest m) order (n + 1)
        (omega (arith, length-remove_old oldest m found)),
  )

  -- A new key in a full cache takes the place of the key at the front of the queue: that one is
  -- gone, the new one is there, every other key has the entry that it had, and one more eviction
  -- is counted.
  pub insert_with_eviction_full :
      (key : ℕ) (entry : V) (c : BoundedKeyCache V) (oldest : ℕ) (rest : List ℕ) {v : V} (k : ℕ)
      → c.capacity ≡ some (length c.map)
      → get key c.map ≡ none
      → c.order ≡ oldest ∷ rest
      → get oldest c.map ≡ some v
      → (get k (insert_with_eviction key entry c).map
          ≡ (if oldest == k then none else if key == k then some entry else get k c.map))
        × ((insert_with_eviction key entry c).evictions ≡ c.evictions + 1)
  unfolding insert_with_eviction evict_over
  insert_with_eviction_full key entry c oldest rest {v} k full fresh front old =
      rw (full, front, evict_over, one)
        (
          ground
              (arith, get-remove oldest k (insert key entry c.map), get-insert key k entry c.map),
          refl,
        )
    where
      old_kept : get oldest (insert key entry c.map) ≡ some v
      old_kept = ground (arith, get-insert key oldest entry c.map, nat_Eq.test_iff key oldest)

      one :
          evict (length c.map) (insert key entry c.map) (oldest ∷ push rest key) c.evictions
          ≡ record {
            kept = remove oldest (insert key entry c.map);
            queue = push rest key;
            count = c.evictions + 1;
          }
      one =
          evict-one (length c.map) (insert key entry c.map) oldest (push rest key) c.evictions
            (length-insert_new key entry c.map fresh) old_kept

  -- the same entry inserted again and again
  abbrev pub insert_times : ℕ → ℕ → V → BoundedKeyCache V → BoundedKeyCache V
  insert_times zero key entry c = c
  insert_times (suc n) key entry c = insert_times n key entry (insert_with_eviction key entry c)

  -- a cache with one entry, and any queue
  abbrev single : ℕ → V → ℕ → List ℕ → BoundedKeyCache V
  single key entry limit order = record {
    map = (key, entry) ∷ [];
    order = order;
    capacity = some limit;
    evictions = 0;
  }

  insert-single :
      (key : ℕ) (entry : V) (limit : ℕ) (order : List ℕ)
      → 1 ≤ limit
      → insert_with_eviction key entry (single key entry limit order)
        ≡ single key entry limit (push order key)
  unfolding insert_with_eviction evict_over insert
  insert-single key entry limit order h =
      rw (==_refl key, evict-within limit ((key, entry) ∷ []) (push order key) 0 h)

  -- `n` more keys in the queue, and one entry
  abbrev IsGrown : ℕ → BoundedKeyCache V → Type 0
  IsGrown n c = (length c.order ≡ n) × (length c.map ≡ 1)

  insert_times-IsGrown :
      (n key : ℕ) (entry : V) (limit : ℕ) (order : List ℕ)
      → 1 ≤ limit
      → IsGrown (n + length order) (insert_times n key entry (single key entry limit order))
  insert_times-IsGrown zero key entry limit order h = (ground arith, refl)
  insert_times-IsGrown (suc n) key entry limit order h =
      let rest = insert_times-IsGrown n key entry limit (push order key) h in
      subst (λ c. IsGrown (suc n + length order) (insert_times n key entry c))
        (sym (insert-single key entry limit order h))
        (omega (arith, rest.0, length-push order key), rest.1)

  insert-new :
      (key : ℕ) (entry : V) (limit : ℕ)
      → 1 ≤ limit
      → insert_with_eviction key entry (new (some limit)) ≡ single key entry limit (key ∷ [])
  unfolding new insert_with_eviction evict_over insert
  insert-new key entry limit h = rw (evict-within limit ((key, entry) ∷ []) (key ∷ []) 0 h)

  -- The queue is not bounded by the capacity: n + 1 insertions of one key leave one entry and a
  -- queue of n + 1.
  pub insert_times_queue :
      (n key : ℕ) (entry : V) (limit : ℕ)
      → 1 ≤ limit
      → (length (insert_times (suc n) key entry (new (some limit))).order ≡ n + 1)
        × (length (insert_times (suc n) key entry (new (some limit))).map ≡ 1)
  insert_times_queue n key entry limit h =
      subst (λ c. IsGrown (n + 1) (insert_times n key entry c)) (sym (insert-new key entry limit h))
        (insert_times-IsGrown n key entry limit (key ∷ []) h)
