-- ===== src/Keystore/Tests.antt =====
-- Runs of the key cache (crates/kms-keystore), with numbers for the entries.
use gm_kms.Base.{ℕ, refl, none, some, [], ◌∷◌, get, nat_Eq, arith, ◌≡◌, if◌then◌else◌, ◌+◌, nat_eq}
use gm_kms.Keystore.Cache.{BoundedKeyCache, new, insert_with_eviction}
use gm_kms.Keystore.Cache.Bounded.{IsBounded, Step, Step-IsBounded}
use gm_kms.Keystore.Cache.Fifo.{insert_with_eviction_full}

full_cache : BoundedKeyCache ℕ
full_cache = record {
  map = (1, 10) ∷ (2, 20) ∷ [];
  order = 1 ∷ 2 ∷ [];
  capacity = some 2;
  evictions = 0;
}

-- the cache that two insertions make
full_cache_made : insert_with_eviction 2 20 (insert_with_eviction 1 10 (new (some 2))) ≡ full_cache
unfolding full_cache new insert_with_eviction
full_cache_made = refl

-- A key that is inserted again keeps its old place in the queue: it is the next one to go.
inserted_again_goes_first :
    get 1 (insert_with_eviction 3 30 (insert_with_eviction 1 11 full_cache)).map ≡ none
unfolding full_cache insert_with_eviction get
inserted_again_goes_first = refl

Step-IsBounded_example : IsBounded (insert_with_eviction 3 30 full_cache)
unfolding full_cache
Step-IsBounded_example = Step-IsBounded (Step.inserting 3 30) ((refl, (refl, tt)), omega arith)

insert_with_eviction_full_example :
    (get 1 (insert_with_eviction 3 30 full_cache).map
      ≡ (if nat_eq 1 1 then none else if nat_eq 3 1 then some 30 else get 1 full_cache.map))
    × ((insert_with_eviction 3 30 full_cache).evictions ≡ full_cache.evictions + 1)
unfolding full_cache get
insert_with_eviction_full_example =
    insert_with_eviction_full 3 30 full_cache 1 (2 ∷ []) 1 refl refl refl refl

abbrev seventy : ℕ
seventy = 70
