-- ===== src/PlatformConfig/Runtime/Capacity.antt =====
-- How many tenants the cache tracks (`evictIfFull`, `refresh` and `getConfig` of
-- web-server/src/platform-config/runtime-config.service.ts).
use multi_academy_backend.Prelude.{
  ℕ, ◌+◌, ◌≤◌, ◌<◌, String, ◌≡◌, ◌≢◌, ◌⊎◌, inl, inr, refl, true, false, Option, none, some, [], ◌∷◌,
  arith, length, ltb, ◌==◌, eq_iff, Bool-cases,
}
use multi_academy_backend.Prelude.Dict.{Dict, lookup, has, insert, length-insert, length-remove_lt}
use multi_academy_backend.PlatformConfig.Config.{TenantRuntimeConfig}
use multi_academy_backend.PlatformConfig.Runtime.{
  RuntimeState, CacheEntry, Task, max_tracked_tenants, oldest_from, evict_if_full, finish_refresh,
  is_current, store, clear_slot, Settings, get_config,
}

-- The key that the loop finds is the best so far or one of the entries.
oldest_from-has :
    (id : String) (at : ℕ) (d : Dict CacheEntry)
    → (key : String) × (oldest_from (some (id, at)) d ≡ some key)
      × ((key ≡ id) ⊎ (has key d ≡ true))
oldest_from-has id at [] = (id, refl, inl refl)
oldest_from-has id at ((id', e) ∷ d) = elim (Bool-cases (ltb e.fetched_at at)) [
  | inl older ↦
      let (key, found, where_found) = oldest_from-has id' e.fetched_at d in
      (key, rw (older, oldest_from) found, ground (arith, eq_iff id' key))
  | inr newer ↦
      let (key, found, where_found) = oldest_from-has id at d in
      (key, rw (newer, oldest_from) found, ground (arith, eq_iff id' key))
]

oldest-has :
    (d : Dict CacheEntry)
    → 0 < length d
    → (key : String) × (oldest_from none d ≡ some key) × (has key d ≡ true)
oldest-has [] h = absurd (omega arith)
oldest-has ((id, e) ∷ d) h =
    let (key, found, where_found) = oldest_from-has id e.fetched_at d in
    (key, found, ground (arith, eq_iff id key))

has-named :
    (key : String) (d : Dict CacheEntry) → has "" d ≡ false → has key d ≡ true → (key == "") ≡ false
has-named key d named present = elim (Bool-cases (key == "")) [
  | inl e ↦ let same : key ≡ "" = (eq_iff key "").0 e in cc (rw same at present)
  | inr e ↦ e
]

evict_if_full-lt :
    (s : RuntimeState)
    → has "" s.cache ≡ false
    → length s.cache ≤ max_tracked_tenants
    → length (evict_if_full s).cache < max_tracked_tenants
unfolding evict_if_full
evict_if_full-lt s named h = elim (Bool-cases (ltb (length s.cache) max_tracked_tenants)) [
  | inl room ↦ rw room (ground arith)
  | inr full ↦
      let (key, found, present) = oldest-has s.cache (ground arith) in
      rw (full, found, has-named key s.cache named present)
        (omega (arith, length-remove_lt key s.cache present))
]

length-clear_slot : (s : RuntimeState) (t : Task) → (clear_slot s t).cache ≡ s.cache
length-clear_slot s t = ground arith

abbrev entry : TenantRuntimeConfig → ℕ → CacheEntry
entry config now = record { config = config; fetched_at = now }

length-insert_of_lt :
    (id : String) (e : CacheEntry) (d : Dict CacheEntry) (n : ℕ)
    → length d < n
    → length (insert id e d) ≤ n
length-insert_of_lt id e d n h = ground (arith, length-insert id e d)

-- A finished refresh leaves at most 500 tenants in a cache that had at most 500, evicting the
-- oldest entry where it has to.
pub finish_refresh_capacity :
    (s : RuntimeState) (t : Task) (pulled : Option TenantRuntimeConfig) (now : ℕ)
    → has "" s.cache ≡ false
    → length s.cache ≤ max_tracked_tenants
    → length (finish_refresh s t pulled now).cache ≤ max_tracked_tenants
unfolding finish_refresh
finish_refresh_capacity s t none now named h = rw (length-clear_slot s t) h
finish_refresh_capacity s t (some config) now named h = elim (Bool-cases (is_current s t)) [
  | inl current ↦
      rw (current, length-clear_slot (store (evict_if_full s) t config now) t)
        (length-insert_of_lt t.tenant_id (entry config now) (evict_if_full s).cache
          max_tracked_tenants (evict_if_full-lt s named h))
  | inr stale ↦ rw (stale, length-clear_slot s t) h
]

-- Reading an entry from Redis adds a tenant to the cache, however many it tracks already: this
-- path evicts nothing.
pub get_config-redis_grows :
    (settings : Settings) (s : RuntimeState) (tenant_id : String) (now : ℕ) (e : CacheEntry)
    (pulled : Option TenantRuntimeConfig)
    → tenant_id ≢ ""
    → lookup tenant_id s.cache ≡ none
    → length (get_config settings s tenant_id false now (some e) pulled).0.cache
      ≡ length s.cache + 1
unfolding get_config
get_config-redis_grows settings s tenant_id now e pulled named missing =
    ground (arith, eq_iff tenant_id "", length-insert tenant_id e s.cache)
