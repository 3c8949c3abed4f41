-- ===== src/PlatformConfig/Runtime/FailClosed.antt =====
-- Gated features while the control plane cannot be reached (`getConfig` and
-- `failClosedConfig` of web-server/src/platform-config/runtime-config.service.ts).
use multi_academy_backend.Prelude.{
  ℕ, String, ◌≡◌, inl, inr, refl, Bool, true, false, not, ◌&&◌, Option, none, some, List, [], ◌∷◌,
  arith, all, includes, includes_iff, In, if◌then◌else◌, ◌==◌, eq_iff, Bool-cases,
}
use multi_academy_backend.Prelude.Dict.{Dict, lookup, insert, lookup-insert}
use multi_academy_backend.PlatformConfig.Config.{TenantRuntimeConfig, fail_closed_features}
use multi_academy_backend.PlatformConfig.Foundation.{foundation_defaults_on}
use multi_academy_backend.PlatformConfig.Flags.{resolve_from_config}
use multi_academy_backend.PlatformConfig.Runtime.{
  Settings, RuntimeState, CacheEntry, Decision, fall_back, await_refresh, serve, serve_and_refresh,
  all_off, shut_down, local_fallback, fail_closed_config, answer, decide, get_config, read_through,
}

lookup-all_off :
    (key : String) (keys : List String) (d : Dict Bool)
    → lookup key (all_off keys d) ≡ (if includes keys key then some false else lookup key d)
lookup-all_off key [] d = refl
lookup-all_off key (k ∷ keys) d =
    ground (arith, lookup-all_off key keys (insert k false d), lookup-insert k key false d)

shut_down-resolve :
    (base : TenantRuntimeConfig) (key : String)
    → includes fail_closed_features key ≡ true
    → resolve_from_config (shut_down base) key ≡ false
unfolding resolve_from_config
shut_down-resolve base key gated =
    let off : lookup key (all_off fail_closed_features base.features) ≡ some false =
      rw (lookup-all_off key fail_closed_features base.features, gated) in
    rw off (ground arith)

fail_closed-resolve :
    (tenant_id : String) (stale : Option TenantRuntimeConfig) (key : String)
    → includes fail_closed_features key ≡ true
    → resolve_from_config (fail_closed_config tenant_id stale) key ≡ false
unfolding fail_closed_config
fail_closed-resolve tenant_id none key gated =
    shut_down-resolve (local_fallback tenant_id) key gated
fail_closed-resolve tenant_id (some stale) key gated = shut_down-resolve stale key gated

-- No gated feature is a foundation feature.
apart :
    (keys : List String)
    → all (λ k. not (includes foundation_defaults_on k)) keys ≡ true
    → (key : String) → includes keys key ≡ true
    → includes foundation_defaults_on key ≡ false
apart [] h key m = cc
apart (k ∷ keys) h key m = elim (Bool-cases (k == key)) [
  | inl e ↦ let same : k ≡ key = (eq_iff k key).0 e in rw same at (off k keys h)
  | inr e ↦ apart keys (ground arith) key (rw e at m)
]
  where
    off :
        (k : String) (keys : List String)
        → (not (includes foundation_defaults_on k)
            && all (λ k. not (includes foundation_defaults_on k)) keys)
          ≡ true
        → includes foundation_defaults_on k ≡ false
    off k keys h = ground arith

gated_apart : all (λ k. not (includes foundation_defaults_on k)) fail_closed_features ≡ true
unfolding foundation_defaults_on
gated_apart = refl

local_fallback-resolve :
    (tenant_id key : String)
    → includes fail_closed_features key ≡ true
    → resolve_from_config (local_fallback tenant_id) key ≡ false
unfolding resolve_from_config local_fallback
local_fallback-resolve tenant_id key gated = rw (apart fail_closed_features gated_apart key gated)

-- Neither a fresh entry nor one that may be served stale decides the call.
abbrev pub HasNoServedEntry : Decision → Type 0
HasNoServedEntry (serve _) = ⊥
HasNoServedEntry (serve_and_refresh _) = ⊥
HasNoServedEntry fall_back = Unit
HasNoServedEntry (await_refresh _) = Unit

answer-closed :
    (tenant_id key : String) (d : Decision)
    → includes fail_closed_features key ≡ true
    → HasNoServedEntry d
    → resolve_from_config (answer tenant_id none d) key ≡ false
answer-closed tenant_id key (serve _) gated h = absurd h
answer-closed tenant_id key (serve_and_refresh _) gated h = absurd h
answer-closed tenant_id key fall_back gated h = local_fallback-resolve tenant_id key gated
answer-closed tenant_id key (await_refresh none) gated h =
    fail_closed-resolve tenant_id none key gated
answer-closed tenant_id key (await_refresh (some e)) gated h =
    fail_closed-resolve tenant_id (some e.config) key gated

-- When the control plane gives no configuration and no cached entry may be served, every feature
-- of the fail-closed list is off in what `getConfig` answers, whatever the stale entry says.
pub get_config_fails_closed :
    (settings : Settings) (s : RuntimeState) (tenant_id : String) (force : Bool) (now : ℕ)
    (redis : Option CacheEntry) (key : String)
    → In key fail_closed_features
    → HasNoServedEntry
        (decide settings force now (lookup tenant_id (read_through s tenant_id force redis).cache))
    → resolve_from_config (get_config settings s tenant_id force now redis none).1 key ≡ false
unfolding get_config
get_config_fails_closed settings s tenant_id force now redis key m h =
    let gated = (includes_iff fail_closed_features key).1 m in
    elim (Bool-cases (tenant_id == "")) [
      | inl e ↦ rw e (local_fallback-resolve "unknown" key gated)
      | inr e ↦ rw e (answer-closed tenant_id key _ gated h)
    ]
