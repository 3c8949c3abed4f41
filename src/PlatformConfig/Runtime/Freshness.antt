-- ===== src/PlatformConfig/Runtime/Freshness.antt =====
-- How old a served configuration can be (`getConfig` of
-- web-server/src/platform-config/runtime-config.service.ts).
use multi_academy_backend.Prelude.{ℕ, ◌-◌, ◌<◌, ◌≡◌, Bool, false, Option, none, some, arith}
use multi_academy_backend.PlatformConfig.Runtime.{
  Settings, CacheEntry, serve, serve_and_refresh, decide,
}

-- Whatever the settings, an entry is served as fresh for less than a minute, and served stale,
-- with a refresh behind it, for less than fifteen; a forced call serves no entry.
pub decide_age :
    (settings : Settings) (force : Bool) (now : ℕ) (cached : Option CacheEntry) {e : CacheEntry}
    → (decide settings force now cached ≡ serve e
        → (force ≡ false) × (cached ≡ some e) × (now - e.fetched_at < 60000))
      × (decide settings force now cached ≡ serve_and_refresh e
          → (force ≡ false) × (cached ≡ some e) × (now - e.fetched_at < 900000))
unfolding decide
decide_age settings force now none = ground arith
decide_age settings force now (some c) = ground arith
