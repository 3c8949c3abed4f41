-- ===== src/PlatformConfig/Runtime.antt =====
-- The cache of tenant configurations (`RuntimeConfigService` of
-- web-server/src/platform-config/runtime-config.service.ts). A refresh is two events: its start,
-- which books a task, and its end, with what the control plane answered. Times are in
-- milliseconds. The audit log and the copy written to Redis leave no trace in this state; the providers'
-- fingerprint, which the audit alone writes, is only ever removed. What Redis holds is read in one
-- step with the call: an invalidation while that read is awaited is not a step of the model.
pub mod FailClosed
pub mod Freshness
pub mod Generations
pub mod Capacity
use Prim.Native.Nat.{min, max}
use multi_academy_backend.Prelude.{
  ℕ, zero, suc, ◌+◌, ◌-◌, ◌*◌, String, Bool, true, false, not, ◌&&◌, Option, none, some, List, [],
  ◌∷◌, ◌==◌, eqb, ltb, leb, if◌then◌else◌, length,
}
use multi_academy_backend.Prelude.Dict.{Dict, lookup, lookup_or, insert, remove}
use multi_academy_backend.PlatformConfig.Config.{
  TenantRuntimeConfig, Enforcement, active, fail_closed_features,
}

abbrev pub max_tracked_tenants : ℕ
max_tracked_tenants = 500

pub record CacheEntry : Type 0 where
  pub config : TenantRuntimeConfig
  pub fetched_at : ℕ

pub record RuntimeState : Type 0 where
  pub cache : Dict CacheEntry
  pub last_version : Dict ℕ
  pub last_providers : Dict String
  -- The task of the running refresh of a tenant.
  pub in_flight : Dict ℕ
  pub generation : Dict ℕ
  pub global_generation : ℕ

-- What a refresh remembers from its start.
pub record Task : Type 0 where
  pub tenant_id : String
  pub task : ℕ
  pub gen : ℕ
  pub global_gen : ℕ

-- The settings: two durations in seconds, and whether a control plane is configured.
pub record Settings : Type 0 where
  pub ttl_seconds : ℕ
  pub stale_ceiling_seconds : ℕ
  pub is_configured : Bool

unfoldable pub peek_cached : RuntimeState → String → Option TenantRuntimeConfig
peek_cached s tenant_id =
    if tenant_id == ""
    then none
    else elim (lookup tenant_id s.cache) [ none ↦ none | some e ↦ some e.config ]

abbrev pub default_ttl_ms : Settings → ℕ
default_ttl_ms settings = max 5 (min settings.ttl_seconds 60) * 1000

abbrev pub stale_ceiling_ms : Settings → ℕ
stale_ceiling_ms settings = max 30 (min settings.stale_ceiling_seconds 900) * 1000

abbrev no_blocks : Enforcement
no_blocks = record {
  school_blacklisted = false;
  blocked_user_ids = [];
  blocked_emails = [];
  blocked_ip_cidrs = [];
  capability_freezes = [];
  deny_login = false;
  message = none;
}

unfoldable pub local_fallback : String → TenantRuntimeConfig
local_fallback tenant_id = record {
  tenant_id = tenant_id;
  status = active;
  features = [];
  providers = [];
  enforcement = no_blocks;
  kill_switches = [];
  ttl_seconds = none;
  config_version = 0;
}

abbrev pub all_off : List String → Dict Bool → Dict Bool
all_off [] d = d
all_off (k ∷ ks) d = all_off ks (insert k false d)

abbrev shut_down : TenantRuntimeConfig → TenantRuntimeConfig
shut_down base = record base {
  features = all_off fail_closed_features base.features;
  providers = [];
}

unfoldable pub fail_closed_config : String → Option TenantRuntimeConfig → TenantRuntimeConfig
unfolding local_fallback
fail_closed_config tenant_id none = shut_down (local_fallback tenant_id)
fail_closed_config tenant_id (some stale) = shut_down stale

-- The loop of `evictIfFull`: the first of the entries with the least time.
abbrev pub oldest_from : Option (String × ℕ) → Dict CacheEntry → Option String
oldest_from none [] = none
oldest_from (some (id, at)) [] = some id
oldest_from none ((id, e) ∷ d) = oldest_from (some (id, e.fetched_at)) d
oldest_from (some (id, at)) ((id', e) ∷ d) =
    oldest_from (if ltb e.fetched_at at then some (id', e.fetched_at) else some (id, at)) d

abbrev pub drop_tenant : RuntimeState → Option String → RuntimeState
drop_tenant s none = s
drop_tenant s (some id) = if id == "" then s else record s {
  cache = remove id s.cache;
  last_version = remove id s.last_version;
  last_providers = remove id s.last_providers;
}

unfoldable pub evict_if_full : RuntimeState → RuntimeState
evict_if_full s =
    if ltb (length s.cache) max_tracked_tenants then s else drop_tenant s (oldest_from none s.cache)

-- `refresh`, up to the call of the control plane: the running task, or a new one.
unfoldable pub start_refresh : RuntimeState → String → ℕ → RuntimeState × Option Task
start_refresh s tenant_id task = elim (lookup tenant_id s.in_flight) [
  | some running ↦ (s, none)
  | none ↦ (
    record s { in_flight = insert tenant_id task s.in_flight },
    some (record {
      tenant_id = tenant_id;
      task = task;
      gen = lookup_or 0 tenant_id s.generation;
      global_gen = s.global_generation;
    }),
  )
]

abbrev pub is_current : RuntimeState → Task → Bool
is_current s t =
    eqb (lookup_or 0 t.tenant_id s.generation) t.gen && eqb s.global_generation t.global_gen

abbrev pub store : RuntimeState → Task → TenantRuntimeConfig → ℕ → RuntimeState
store s t config now = record s {
  cache = insert t.tenant_id (record { config = config; fetched_at = now }) s.cache;
  last_version = insert t.tenant_id config.config_version s.last_version;
}

-- The `finally`: only the task's own slot is cleared.
abbrev pub clear_slot : RuntimeState → Task → RuntimeState
clear_slot s t = elim (lookup t.tenant_id s.in_flight) [
  | none ↦ s
  | some running ↦
      if eqb running t.task then record s { in_flight = remove t.tenant_id s.in_flight } else s
]

-- The rest of `refresh`, with the answer of the control plane, none where the call threw.
unfoldable pub finish_refresh : RuntimeState → Task → Option TenantRuntimeConfig → ℕ → RuntimeState
unfolding evict_if_full
finish_refresh s t none now = clear_slot s t
finish_refresh s t (some config) now =
    if is_current s t then clear_slot (store (evict_if_full s) t config now) t else clear_slot s t

-- `invalidate(tenantId)`; no tenant, or an empty one, flushes all.
unfoldable pub invalidate : RuntimeState → Option String → RuntimeState
invalidate s none = record s {
  cache = [];
  last_providers = [];
  in_flight = [];
  global_generation = s.global_generation + 1;
}
invalidate s (some id) =
    if id == ""
    then record s {
      cache = [];
      last_providers = [];
      in_flight = [];
      global_generation = s.global_generation + 1;
    }
    else record s {
      cache = remove id s.cache;
      last_providers = remove id s.last_providers;
      in_flight = remove id s.in_flight;
      generation = insert id (lookup_or 0 id s.generation + 1) s.generation;
    }

-- What `getConfig` decides before it waits for anything but Redis.
pub data Decision : Type 0 where
  serve serve_and_refresh : CacheEntry → Decision
  fall_back : Decision
  await_refresh : Option CacheEntry → Decision

-- The cache, with an entry that is only in Redis read through.
abbrev pub read_through : RuntimeState → String → Bool → Option CacheEntry → RuntimeState
read_through s tenant_id force none = s
read_through s tenant_id force (some e) = if force then s else elim (lookup tenant_id s.cache) [
  | some _ ↦ s
  | none ↦ record s { cache = insert tenant_id e s.cache }
]

abbrev pub ttl_of : Settings → Option ℕ → ℕ
ttl_of settings none = default_ttl_ms settings
ttl_of settings (some zero) = default_ttl_ms settings
ttl_of settings (some (suc n)) = min (suc n) 60 * 1000

abbrev decide_entry : Settings → Bool → ℕ → CacheEntry → Decision
decide_entry settings force now e =
    let age = now - e.fetched_at in
    if not force && ltb age (ttl_of settings e.config.ttl_seconds)
    then serve e
    else if not settings.is_configured
    then fall_back
    else if not force && ltb age (stale_ceiling_ms settings)
    then serve_and_refresh e
    else await_refresh (some e)

unfoldable pub decide : Settings → Bool → ℕ → Option CacheEntry → Decision
decide settings force now none =
    if not settings.is_configured then fall_back else await_refresh none
decide settings force now (some e) = decide_entry settings force now e

abbrev pub pulled_or_closed :
    String → Option CacheEntry → Option TenantRuntimeConfig → TenantRuntimeConfig
pulled_or_closed tenant_id cached (some config) = config
pulled_or_closed tenant_id (some e) none = fail_closed_config tenant_id (some e.config)
pulled_or_closed tenant_id none none = fail_closed_config tenant_id none

abbrev pub answer : String → Option TenantRuntimeConfig → Decision → TenantRuntimeConfig
answer tenant_id pulled (serve e) = e.config
answer tenant_id pulled (serve_and_refresh e) = e.config
answer tenant_id pulled fall_back = local_fallback tenant_id
answer tenant_id pulled (await_refresh cached) = pulled_or_closed tenant_id cached pulled

-- `getConfig`: the state after the read of Redis, and the configuration; `pulled` is what a refresh
-- answers that the call has to wait for, none where it throws.
unfoldable pub get_config :
    Settings
    → RuntimeState
    → String
    → Bool
    → ℕ
    → Option CacheEntry
    → Option TenantRuntimeConfig
    → RuntimeState × TenantRuntimeConfig
get_config settings s tenant_id force now redis pulled =
    if tenant_id == ""
    then (s, local_fallback "unknown")
    else (let s' = read_through s tenant_id force redis in
        (s', answer tenant_id pulled (decide settings force now (lookup tenant_id s'.cache))))
