-- ===== src/Query/Cache/Tests.antt =====
-- A cache for one entry, and the theorems at concrete inputs.
use chono_db.Prelude.{ℕ, ◌≡◌, refl, arith, true, some, length}
use chono_db.Prelude.Assoc.{text_key, number_key, lookup, insert, remove}
use chono_db.Query.Cache.{
  CacheEntry, new_entry, CacheConfig, QueryCache, new, get, set, put, make_room, evict_first,
  get_found, is_expired,
}
use chono_db.Query.Cache.Latest.{get-set}

abbrev small : CacheConfig
small = record { max_size = 1; ttl = 10; enabled = true; max_bytes = 100 }

-- A cache that was full with another key.
abbrev with_one : QueryCache ℕ ℕ
with_one = set 0 7 70 (new small)

abbrev small_two : QueryCache ℕ ℕ
small_two = new (record small { max_size = 2 })

abbrev entry_7 : CacheEntry ℕ
entry_7 = record { value = 70; created_at = 0; ttl = 10; access_count = 0 }

-- A full cache of two, whose older key is read and stays.
abbrev full : QueryCache ℕ ℕ
full = set 1 9 90 (set 0 7 70 small_two)

get-set_example :
    ((get 8 8 (set 5 8 80 (get 5 7 full).1)).0 ≡ some 80)
    × ((get 8 7 (set 5 8 80 (get 5 7 full).1)).0 ≡ some 70)
unfolding set put make_room new insert lookup new_entry
get-set_example =
    get-set 5 8 8 7 80 entry_7 full refl (omega arith) (omega arith) (omega arith) refl
      (omega arith) (λ e. cc e)

-- The key of an entry that `get` found expired stays the oldest one; its eviction frees no place.
grows : length (set 22 9 90 (set 21 8 80 (get 20 7 with_one).1)).cache ≡ 2
unfolding set put make_room new get get_found is_expired evict_first remove insert lookup
grows = refl
