-- ===== src/Query/Cache/Latest.antt =====
-- What a cache gives back after a `set`.
use chono_db.Prelude.{
  ◌++◌, ℕ, ◌+◌, ◌≤◌, ◌≡◌, ◌≢◌, refl, ◌∙◌, ap, arith, true, false, Option, none, some, List, [], ◌∷◌,
  Bool-cases, inl, inr, length, leb, if◌then◌else◌,
}
use chono_db.Prelude.Assoc.{Key, lookup, insert, lookup-insert, lookup-remove, same_self, same_ne}
use chono_db.Query.Cache.{
  CacheEntry, CacheConfig, QueryCache, new_entry, is_expired, access, hit, retain, get, get_found,
  set, put, make_room, evict_first,
}

-- The first key of `access_order`, which `set` evicts.
abbrev pub oldest {ℓ} : {K : Type ℓ} → List K → Option K
oldest [] = none
oldest (k ∷ rest) = some k

new_entry_lives {ℓ} :
    {V : Type ℓ} (now later : ℕ) (v : V) (lifetime : ℕ)
    → later ≤ now + lifetime
    → is_expired later (new_entry now v lifetime) ≡ false
unfolding is_expired new_entry
new_entry_lives now later v lifetime soon = ground arith

oldest-retain {ℓ} :
    {K : Type ℓ} ⦃key : Key K⦄ (j : K) (order rest : List K)
    → retain j order ≢ []
    → oldest (retain j order ++ rest) ≢ some j
oldest-retain j [] rest some_left = absurd (some_left refl)
oldest-retain ⦃key⦄ j (x ∷ xs) rest some_left = elim (Bool-cases (key.same x j)) [
  | inl e ↦ rw e (oldest-retain j xs rest (λ none_left. some_left (rw e none_left)))
  | inr e ↦ rw e (λ h. let same = same_self j in cc (h, e, same))
]

lives {ℓ} :
    {V : Type ℓ} (later : ℕ) (entry : CacheEntry V)
    → later ≤ entry.created_at + entry.ttl
    → is_expired later entry ≡ false
unfolding is_expired
lives later entry h = ground arith

module _ {ℓ κ} {K : Type ℓ} {V : Type κ} ⦃key : Key K⦄ where
  evict_first_config :
      (s : QueryCache K V) (order : List K) → (evict_first s order).config ≡ s.config
  unfolding evict_first
  evict_first_config s [] = refl
  evict_first_config s (k ∷ rest) = refl

  make_room_config : (s : QueryCache K V) → (make_room s).config ≡ s.config
  unfolding make_room
  make_room_config s = elim (Bool-cases (leb s.config.max_size (length s.cache))) [
    | inl e ↦ rw e (evict_first_config s s.access_order)
    | inr e ↦ rw e refl
  ]

  evict_first_keeps :
      (j : K) (s : QueryCache K V) (order : List K)
      → oldest order ≢ some j
      → lookup j (evict_first s order).cache ≡ lookup j s.cache
  unfolding evict_first
  evict_first_keeps j s [] h = refl
  evict_first_keeps j s (k ∷ rest) h =
      rw (lookup-remove k j s.cache, same_ne k j (λ e. h (ap (λ x. some x) e))) refl

  make_room_keeps :
      (j : K) (s : QueryCache K V)
      → oldest s.access_order ≢ some j
      → lookup j (make_room s).cache ≡ lookup j s.cache
  unfolding make_room
  make_room_keeps j s h = elim (Bool-cases (leb s.config.max_size (length s.cache))) [
    | inl e ↦ rw e (evict_first_keeps j s s.access_order h)
    | inr e ↦ rw e refl
  ]

  set_enabled :
      (now : ℕ) (k : K) (v : V) (s : QueryCache K V)
      → s.config.enabled ≡ true
      → set now k v s ≡ put now k v (make_room s)
  unfolding set
  set_enabled now k v s on = ap (λ b. if b then put now k v (make_room s) else s) on

  get_enabled :
      (now : ℕ) (k : K) (s : QueryCache K V)
      → s.config.enabled ≡ true
      → get now k s ≡ get_found now k s (lookup k s.cache)
  unfolding get
  get_enabled now k s on =
      ap (λ b. if b then get_found now k s (lookup k s.cache) else (none, s)) on

  get_found-live :
      (now : ℕ) (k : K) (s : QueryCache K V) (entry : CacheEntry V)
      → is_expired now entry ≡ false
      → (get_found now k s (some entry)).0 ≡ some entry.value
  unfolding get_found
  get_found-live now k s entry live = rw live refl

  get-put :
      (now later : ℕ) (k : K) (v : V) (s : QueryCache K V)
      → s.config.enabled ≡ true
      → later ≤ now + s.config.ttl
      → (get later k (put now k v s)).0 ≡ some v
  unfolding put
  get-put now later k v s on soon =
      rw
        (
          get_enabled later k (put now k v s) on,
          lookup-insert k k (new_entry now v s.config.ttl) s.cache,
          same_self k,
        )
        (get_found-live later k (put now k v s) (new_entry now v s.config.ttl)
            (new_entry_lives now later v s.config.ttl soon)
          ∙ (unfold new_entry in refl))

  -- The set value is read within its lifetime, and of the other keys only the first one may go.
  stored_and_others :
      (now later : ℕ) (k : K) (v : V) (s : QueryCache K V)
      → s.config.enabled ≡ true
      → later ≤ now + s.config.ttl
      → ((get later k (set now k v s)).0 ≡ some v)
        × ((j : K)
            → k ≢ j
            → oldest s.access_order ≢ some j
            → lookup j (set now k v s).cache ≡ lookup j s.cache)
  unfolding put
  stored_and_others now later k v s on soon = rw (set_enabled now k v s on) (
    get-put now later k v (make_room s) (rw (make_room_config s) on) (rw (make_room_config s) soon),
    λ j other young.
        rw
          (
            lookup-insert k j (new_entry now v (make_room s).config.ttl) (make_room s).cache,
            same_ne k j other,
          )
          (make_room_keeps j s young),
  )

  set_config :
      (now : ℕ) (k : K) (v : V) (s : QueryCache K V)
      → s.config.enabled ≡ true
      → (set now k v s).config ≡ s.config
  unfolding put
  set_config now k v s on =
      ap (λ (q : QueryCache K V). q.config) (set_enabled now k v s on) ∙ make_room_config s

  -- The state after a `get` that found its key.
  abbrev used : K → CacheEntry V → QueryCache K V → QueryCache K V
  used j entry s = record s {
    cache = insert j (access entry) s.cache;
    stats = hit s.stats;
    access_order = retain j s.access_order ++ j ∷ [];
  }

  get-used :
      (now : ℕ) (j : K) (entry : CacheEntry V) (s : QueryCache K V)
      → s.config.enabled ≡ true
      → lookup j s.cache ≡ some entry
      → is_expired now entry ≡ false
      → get now j s ≡ (some entry.value, used j entry s)
  unfolding get_found
  get-used now j entry s on found live = rw (get_enabled now j s on, found) (rw live refl)

  get-set-used :
      (now later : ℕ) (k j : K) (v : V) (entry : CacheEntry V) (s : QueryCache K V)
      → s.config.enabled ≡ true
      → k ≢ j
      → later ≤ now + s.config.ttl
      → later ≤ entry.created_at + entry.ttl
      → retain j s.access_order ≢ []
      → (get later j (set now k v (used j entry s))).0 ≡ some entry.value
  unfolding access
  get-set-used now later k j v entry s on other soon young some_left =
      let s' = used j entry s in
      let kept =
        (stored_and_others now later k v s' on soon).1 j other
          (oldest-retain j s.access_order (j ∷ []) some_left) in
      let found : lookup j (set now k v s').cache ≡ some (access entry) =
        kept ∙ lookup-insert j j (access entry) s.cache ∙ rw (same_self j) refl in
      let still_on : (set now k v s').config.enabled ≡ true =
        ap (λ (c : CacheConfig). c.enabled) (set_config now k v s' on) ∙ on in
      ap (λ (r : Option V × QueryCache K V). r.0)
        (get-used later j (access entry) (set now k v s') still_on found
          (lives later (access entry) young))

  -- In an enabled cache, let `get` read the live entry of a key, where `access_order` has any other key
  -- too, and then another key be set, however full the cache is: until their lifetimes are over, a
  -- later `get` of the set key returns its value, and one of the key that was read its value, which
  -- was not evicted.
  pub get-set :
      (now later : ℕ) (k j : K) (v : V) (entry : CacheEntry V) (s : QueryCache K V)
      → s.config.enabled ≡ true
      → now ≤ later
      → later ≤ now + s.config.ttl
      → k ≢ j
      → lookup j s.cache ≡ some entry
      → later ≤ entry.created_at + entry.ttl
      → retain j s.access_order ≢ []
      → ((get later k (set now k v (get now j s).1)).0 ≡ some v)
        × ((get later j (set now k v (get now j s).1)).0 ≡ some entry.value)
  get-set now later k j v entry s on order soon other found young some_left =
      let read = get-used now j entry s on found (lives now entry (omega arith)) in
      rw read (
        (stored_and_others now later k v (used j entry s) on soon).0,
        get-set-used now later k j v entry s on other soon young some_left,
      )
