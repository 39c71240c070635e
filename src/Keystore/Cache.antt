-- ===== src/Keystore/Cache.antt =====
-- crates/kms-keystore/src/bounded_cache.rs: the key cache with first-in-first-out eviction. An entry
-- is any value, and a key is the number of a Uuid. Each method is one step: the locks that it takes
-- and drops in its phases are not told apart.
pub mod Bounded
pub mod Fifo
use gm_kms.Base.{
  none, some, [], ◌∷◌, ℕ, nat_Eq, HashMap, List, Option, get, remove, insert, contains_key, push,
  if◌then◌else◌, ◌==◌, ◌+◌, leb, length,
}

pub record BoundedKeyCache {ℓ} (V : Type ℓ) : Type ℓ where
  pub map : HashMap ℕ V
  pub order : List ℕ
  pub capacity : Option ℕ
  pub evictions : ℕ

-- `order.remove(order.iter().position(|k| k == key))`
unfoldable pub remove_first : ℕ → List ℕ → List ℕ
remove_first key [] = []
remove_first key (k ∷ ks) = let rest = remove_first key ks in if k == key then ks else k ∷ rest

-- what the eviction loop changes
pub record Eviction {ℓ} (V : Type ℓ) : Type ℓ where
  pub kept : HashMap ℕ V
  pub queue : List ℕ
  pub count : ℕ

module _ {ℓ} {V : Type ℓ} where
  unfoldable pub new : Option ℕ → BoundedKeyCache V
  new capacity = record { map = []; order = []; capacity = capacity; evictions = 0 }

  unfoldable pub get_cloned : ℕ → BoundedKeyCache V → Option V
  unfolding get
  get_cloned key c = get key c.map

  unfoldable pub mutate {κ} :
      {R : Type κ} → ℕ → (V → V × R) → BoundedKeyCache V → BoundedKeyCache V × Option R
  unfolding get insert
  mutate key f c = elim (get key c.map) [
    | none ↦ (c, none)
    | some entry ↦ (record c { map = insert key (f entry).0 c.map }, some (f entry).1)
  ]

  -- the eviction loop; each turn takes a victim from the queue or ends the loop
  unfoldable pub evict : ℕ → HashMap ℕ V → List ℕ → ℕ → Eviction V
  unfolding remove contains_key
  evict limit m [] n = record { kept = m; queue = []; count = n }
  evict limit m (victim ∷ order) n =
      let next = evict limit (remove victim m) order (if contains_key victim m then n + 1 else n) in
      if leb (length m) limit then record { kept = m; queue = victim ∷ order; count = n } else next

  unfoldable pub evict_over : Option ℕ → HashMap ℕ V → List ℕ → ℕ → Eviction V
  unfolding evict
  evict_over none m order n = record { kept = m; queue = order; count = n }
  evict_over (some limit) m order n = evict limit m order n

  unfoldable pub insert_with_eviction : ℕ → V → BoundedKeyCache V → BoundedKeyCache V
  unfolding evict_over insert
  insert_with_eviction key entry c =
      let done = evict_over c.capacity (insert key entry c.map) (push c.order key) c.evictions in
      record c { map = done.kept; order = done.queue; evictions = done.count }

  unfoldable pub insert_entries : HashMap ℕ V → BoundedKeyCache V → BoundedKeyCache V
  unfolding insert_with_eviction
  insert_entries [] c = c
  insert_entries ((key, entry) ∷ more) c = insert_entries more (insert_with_eviction key entry c)

  unfoldable pub mutate_and_insert {κ} :
      {R : Type κ}
      → ℕ
      → (V → V × (R × HashMap ℕ V))
      → BoundedKeyCache V
      → BoundedKeyCache V × Option R
  unfolding get insert insert_entries
  mutate_and_insert key f c = elim (get key c.map) [
    | none ↦ (c, none)
    | some entry ↦ (
      insert_entries (f entry).1.1 (record c { map = insert key (f entry).0 c.map }),
      some (f entry).1.0,
    )
  ]

  unfoldable pub remove_key : ℕ → BoundedKeyCache V → BoundedKeyCache V × Option V
  unfolding get remove remove_first
  remove_key key c = elim (get key c.map) [
    | none ↦ (c, none)
    | some entry ↦
        (record c { map = remove key c.map; order = remove_first key c.order }, some entry)
  ]

  unfoldable pub clear : BoundedKeyCache V → BoundedKeyCache V
  clear c = record c { map = []; order = [] }
