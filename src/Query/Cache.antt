-- ===== src/Query/Cache.antt =====
-- storage/src/query/cache.rs: `QueryCache`. Instants and durations are numbers of milliseconds, and
-- what reads the clock takes its reading; a duration since a later instant is 0, as of `elapsed`.
use chono_db.Prelude.{
  ℕ, ◌+◌, ◌-◌, ◌*◌, ◌%◌, ◌^◌, String, Bool, true, false, not, Option, none, some, is_some, List, [],
  ◌∷◌, ◌++◌, filter, length, leb, ltb, if◌then◌else◌,
}
use chono_db.Prelude.Assoc.{Key, Assoc, lookup, insert, remove}
use chono_db.Prelude.Int.{ℤ}
pub mod Latest
mod Tests

pub record CacheKey : Type 0 where
  pub query : String
  pub start_time : ℤ
  pub end_time : ℤ
  pub step : ℤ

pub record CacheEntry {ℓ} (V : Type ℓ) : Type ℓ where
  pub value : V
  pub created_at : ℕ
  pub ttl : ℕ
  pub access_count : ℕ

module _ {ℓ} {V : Type ℓ} where
  unfoldable pub new_entry : ℕ → V → ℕ → CacheEntry V
  new_entry now v lifetime = record {
    value = v;
    created_at = now;
    ttl = lifetime;
    access_count = 0;
  }

  unfoldable pub is_expired : ℕ → CacheEntry V → Bool
  is_expired now entry = ltb entry.ttl (now - entry.created_at)

  unfoldable pub access : CacheEntry V → CacheEntry V
  access entry = record entry { access_count = (entry.access_count + 1) % 2 ^ 64 }

pub record CacheStats : Type 0 where
  pub hits : ℕ
  pub misses : ℕ
  pub evictions : ℕ
  pub size : ℕ
  pub entry_count : ℕ

abbrev pub no_stats : CacheStats
no_stats = record { hits = 0; misses = 0; evictions = 0; size = 0; entry_count = 0 }

unfoldable pub hit : CacheStats → CacheStats
hit s = record s { hits = (s.hits + 1) % 2 ^ 64 }

unfoldable pub miss : CacheStats → CacheStats
miss s = record s { misses = (s.misses + 1) % 2 ^ 64 }

unfoldable pub evicted : CacheStats → CacheStats
evicted s = record s { evictions = (s.evictions + 1) % 2 ^ 64 }

unfoldable pub sized : ℕ → CacheStats → CacheStats
sized n s = record s { size = n; entry_count = n }

pub record CacheConfig : Type 0 where
  pub max_size : ℕ
  pub ttl : ℕ
  pub enabled : Bool
  pub max_bytes : ℕ

abbrev pub default_config : CacheConfig
default_config = record { max_size = 1000; ttl = 300000; enabled = true; max_bytes = 104857600 }

-- `CacheConfig::new`
unfoldable pub new_config : ℕ → ℕ → ℕ → CacheConfig
new_config entry_limit bytes ttl_secs = record {
  max_size = entry_limit;
  ttl = ttl_secs * 1000;
  enabled = true;
  max_bytes = bytes;
}

-- `access_order` has the keys in the order of their last use, but for those that `set` pushes once
-- more and those that `get` leaves there.
pub record QueryCache {ℓ κ} (K : Type ℓ) (V : Type κ) : Type (ℓ ⊔ κ) where
  pub cache : Assoc K (CacheEntry V)
  pub config : CacheConfig
  pub stats : CacheStats
  pub access_order : List K

-- `access_order.retain(|k| k != key)`
abbrev pub retain {ℓ} : {K : Type ℓ} ⦃key : Key K⦄ → K → List K → List K
retain ⦃key⦄ k order = filter (λ j. not (key.same j k)) order

module _ {ℓ κ} {K : Type ℓ} {V : Type κ} ⦃key : Key K⦄ where
  unfoldable pub new : CacheConfig → QueryCache K V
  new c = record { cache = []; config = c; stats = no_stats; access_order = [] }

  unfoldable pub get_found :
      ℕ → K → QueryCache K V → Option (CacheEntry V) → Option V × QueryCache K V
  unfolding is_expired access hit miss evicted
  get_found now k s none = (none, record s { stats = miss s.stats })
  get_found now k s (some entry) =
      if is_expired now entry
      then (none, record s { cache = remove k s.cache; stats = evicted (miss s.stats) })
      else (
        some entry.value,
        record s {
          cache = insert k (access entry) s.cache;
          stats = hit s.stats;
          access_order = retain k s.access_order ++ k ∷ [];
        },
      )

  unfoldable pub get : ℕ → K → QueryCache K V → Option V × QueryCache K V
  unfolding get_found
  get now k s = if s.config.enabled then get_found now k s (lookup k s.cache) else (none, s)

  unfoldable pub evict_first : QueryCache K V → List K → QueryCache K V
  unfolding evicted
  evict_first s [] = s
  evict_first s (k ∷ rest) = record s {
    cache = remove k s.cache;
    access_order = rest;
    stats = evicted s.stats;
  }

  -- The state in which `set` puts its entry.
  unfoldable pub make_room : QueryCache K V → QueryCache K V
  unfolding evict_first
  make_room s = if leb s.config.max_size (length s.cache) then evict_first s s.access_order else s

  unfoldable pub put : ℕ → K → V → QueryCache K V → QueryCache K V
  unfolding new_entry sized
  put now k v s =
      let entries = insert k (new_entry now v s.config.ttl) s.cache in
      record s {
        cache = entries;
        access_order = s.access_order ++ k ∷ [];
        stats = sized (length entries) s.stats;
      }

  unfoldable pub set : ℕ → K → V → QueryCache K V → QueryCache K V
  unfolding make_room put
  set now k v s = if s.config.enabled then put now k v (make_room s) else s

  unfoldable pub remove_key : K → QueryCache K V → QueryCache K V
  unfolding sized
  remove_key k s =
      if is_some (lookup k s.cache)
      then (let entries = remove k s.cache in
          record s {
            cache = entries;
            access_order = retain k s.access_order;
            stats = sized (length entries) s.stats;
          })
      else s

  unfoldable pub clear : QueryCache K V → QueryCache K V
  unfolding sized
  clear s = record s { cache = []; access_order = []; stats = sized 0 s.stats }

  unfoldable pub expired_keys : ℕ → Assoc K (CacheEntry V) → List K
  unfolding is_expired
  expired_keys now [] = []
  expired_keys now ((k, entry) ∷ entries) =
      let rest = expired_keys now entries in if is_expired now entry then k ∷ rest else rest

  unfoldable pub drop_each : List K → QueryCache K V → QueryCache K V
  unfolding evicted
  drop_each [] s = s
  drop_each (k ∷ ks) s = drop_each ks (record s {
    cache = remove k s.cache;
    access_order = retain k s.access_order;
    stats = evicted s.stats;
  })

  unfoldable pub cleanup_expired : ℕ → QueryCache K V → QueryCache K V
  unfolding expired_keys drop_each sized
  cleanup_expired now s =
      let s' = drop_each (expired_keys now s.cache) s in
      record s' { stats = sized (length s'.cache) s'.stats }
