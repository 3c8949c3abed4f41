-- ===== src/PlatformConfig/Tests.antt =====
-- Runs of the configuration modules on a small school.
use multi_academy_backend.Prelude.{
  ℕ, ◌-◌, ◌/◌, ◌^◌, ◌≤◌, String, ◌≡◌, ◌↔◌, refl, inl, true, false, Option, none, some, [], ◌∷◌,
  if◌then◌else◌, ◌==◌, split,
}
use multi_academy_backend.Http.{ok, err, forbidden}
use multi_academy_backend.PlatformConfig.Config.{TenantRuntimeConfig, active, Enforcement}
use multi_academy_backend.PlatformConfig.Foundation.{foundation_defaults_on}
use multi_academy_backend.PlatformConfig.Flags.{
  ends_with_star, without_last, resolve_from_config, effective_features,
}
use multi_academy_backend.PlatformConfig.Flags.Resolution.{
  IsPermitted, IsGranted, resolve_from_config_iff,
}
use multi_academy_backend.PlatformConfig.Flags.Effective.{is_on, effective_features-eq-resolve}
use multi_academy_backend.PlatformConfig.Enforcement.{
  Caller, to_int, ipv4_in_cidr, assert_from_config,
}
use multi_academy_backend.PlatformConfig.Enforcement.Network.{ipv4_in_cidr_iff}
use multi_academy_backend.PlatformConfig.Enforcement.Blocks.{IsAllowed, assert_from_config_iff}
use multi_academy_backend.PlatformConfig.Runtime.{
  Settings, RuntimeState, CacheEntry, Task, start_refresh, finish_refresh, invalidate, decide,
  get_config,
}
use multi_academy_backend.PlatformConfig.Runtime.FailClosed.{get_config_fails_closed}
use multi_academy_backend.PlatformConfig.Runtime.Generations.{Later, invalidated_refresh_not_stored}

abbrev blocks : Enforcement
blocks = record {
  school_blacklisted = false;
  blocked_user_ids = "eve" ∷ [];
  blocked_emails = [];
  blocked_ip_cidrs = "10.1.0.0/16" ∷ [];
  capability_freezes = "ai.*" ∷ [];
  deny_login = false;
  message = none;
}

abbrev school : TenantRuntimeConfig
school = record {
  tenant_id = "t1";
  status = active;
  features = ("fees.gateway", true) ∷ ("ai.tutor", true) ∷ ("portal.parent", false) ∷ [];
  providers = ("payment", "paystack") ∷ [];
  enforcement = blocks;
  kill_switches = "comms.inbox" ∷ [];
  ttl_seconds = none;
  config_version = 3;
}

resolve_runs :
    (resolve_from_config school "fees.gateway" ≡ true)
    × (resolve_from_config school "ai.tutor" ≡ false)
    × (resolve_from_config school "portal.parent" ≡ false)
    × (resolve_from_config school "auth.login" ≡ true)
    × (resolve_from_config school "comms.inbox" ≡ false)
unfolding resolve_from_config foundation_defaults_on ends_with_star without_last
resolve_runs = (refl, refl, refl, refl, refl)

resolve_from_config_iff_example :
    (resolve_from_config school "fees.gateway" ≡ true)
    ↔ (IsPermitted school "fees.gateway" × IsGranted school "fees.gateway")
resolve_from_config_iff_example = resolve_from_config_iff school "fees.gateway"

effective_features-eq-resolve_example :
    is_on "ai.tutor" (effective_features school) ≡ resolve_from_config school "ai.tutor"
effective_features-eq-resolve_example = effective_features-eq-resolve school "ai.tutor"

-- `Number` on the texts of the tests.
abbrev number : String → Option ℕ
number s =
    if s == "10"
    then some 10
    else if s == "1"
    then some 1
    else if s == "0"
    then some 0
    else if s == "16"
    then some 16
    else none

ipv4_in_cidr_iff_example :
    (ipv4_in_cidr number "10.1.0.16" "10.1.0.0/16" ≡ true)
    ↔ ((16 ≤ 32) × (167837712 / 2 ^ (32 - 16) ≡ 167837696 / 2 ^ (32 - 16)))
unfolding split to_int
ipv4_in_cidr_iff_example =
    ipv4_in_cidr_iff number "10.1.0.16" "10.1.0.0/16" "10.1.0.0" "16" [] 16 167837712 167837696 refl
      refl refl refl

abbrev eve : Caller
eve = record { user_id = some "eve"; email = none; ip = none }

assert_run :
    assert_from_config number (λ s. s) school eve ≡ err (forbidden "Your account has been blocked.")
unfolding assert_from_config
assert_run = refl

assert_from_config_iff_example :
    (assert_from_config number (λ s. s) school eve ≡ ok tt) ↔ IsAllowed number (λ s. s) school eve
assert_from_config_iff_example = assert_from_config_iff number (λ s. s) school eve

abbrev settings : Settings
settings = record { ttl_seconds = 60; stale_ceiling_seconds = 300; is_configured = true }

abbrev empty : RuntimeState
empty = record {
  cache = [];
  last_version = [];
  last_providers = [];
  in_flight = [];
  generation = [];
  global_generation = 0;
}

abbrev first_task : Task
first_task = record { tenant_id = "t1"; task = 1; gen = 0; global_gen = 0 }

abbrev pulled_entry : CacheEntry
pulled_entry = record { config = school; fetched_at = 1000 }

abbrev with_school : RuntimeState
with_school = record empty { cache = ("t1", pulled_entry) ∷ [] }

get_config_fails_closed_example :
    resolve_from_config
      (get_config settings with_school "t1" false 2000000 none none).1
      "fees.gateway"
    ≡ false
unfolding decide
get_config_fails_closed_example =
    get_config_fails_closed settings with_school "t1" false 2000000 none "fees.gateway" (inl refl)
      tt

invalidated_refresh_not_stored_example :
    let v = invalidate (start_refresh empty "t1" 1).0 (some "t1") in
    ((finish_refresh v first_task (some school) 5).cache ≡ v.cache)
    × ((finish_refresh v first_task (some school) 5).last_version ≡ v.last_version)
unfolding start_refresh
invalidated_refresh_not_stored_example =
    invalidated_refresh_not_stored empty _ _ "t1" 1 first_task (some "t1") (some school) 5 refl
      Later.now refl Later.now
