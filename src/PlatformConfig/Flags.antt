-- ===== src/PlatformConfig/Flags.antt =====
-- Feature flags (`FeatureFlagService` of web-server/src/platform-config/feature-flag.service.ts).
pub mod Resolution
pub mod Effective
use Prim.Native.Char.{code}
use Prim.Native.String
use text.Mathlib.Text.{starts_with}
use multi_academy_backend.Prelude.{
  String, Bool, true, false, not, ◌&&◌, Option, none, some, List, [], ◌∷◌, map, ◌==◌, eqb, any,
  includes, if◌then◌else◌,
}
use multi_academy_backend.Prelude.Dict.{Dict, lookup, insert}
use multi_academy_backend.PlatformConfig.Config.{TenantRuntimeConfig, Enforcement}
use multi_academy_backend.PlatformConfig.Foundation.{foundation_defaults_on}

-- `s.endsWith('*')`.
unfoldable pub ends_with_star : String → Bool
ends_with_star String.[] = false
ends_with_star (String.◌∷◌ c s) =
    let later = ends_with_star s in if s == "" then eqb (code c) b'*' else later

-- `s.slice(0, -1)`.
unfoldable pub without_last : String → String
without_last String.[] = ""
without_last (String.◌∷◌ c s) =
    let rest = String.◌∷◌ c (without_last s) in if s == "" then "" else rest

-- Is the feature under a freeze with a wildcard?
abbrev pub freeze_covers : String → String → Bool
freeze_covers key freeze = ends_with_star freeze && starts_with key (without_last freeze)

unfoldable pub resolve_from_config : TenantRuntimeConfig → String → Bool
resolve_from_config config key =
    if includes config.kill_switches key
    then false
    else if includes config.enforcement.capability_freezes key
    then false
    else if any (freeze_covers key) config.enforcement.capability_freezes
    then false
    else elim (lookup key config.features) [
      | some on ↦ on
      | none ↦ includes foundation_defaults_on key
    ]

-- `{ ...d, ...overrides }`.
abbrev pub overlay : Dict Bool → Dict Bool → Dict Bool
overlay [] d = d
overlay ((k, v) ∷ overrides) d = insert k v (overlay overrides d)

abbrev pub switch_off : List String → Dict Bool → Dict Bool
switch_off [] d = d
switch_off (k ∷ ks) d = switch_off ks (insert k false d)

-- `for (const k of Object.keys(features)) if (k.startsWith(prefix)) features[k] = false;`
abbrev pub switch_off_prefix : String → Dict Bool → Dict Bool
switch_off_prefix prefix [] = []
switch_off_prefix prefix ((k, v) ∷ d) =
    (k, (if starts_with k prefix then false else v)) ∷ switch_off_prefix prefix d

abbrev pub apply_freeze : String → Dict Bool → Dict Bool
apply_freeze freeze d =
    if ends_with_star freeze
    then switch_off_prefix (without_last freeze) d
    else insert freeze false d

abbrev pub apply_freezes : List String → Dict Bool → Dict Bool
apply_freezes [] d = d
apply_freezes (f ∷ fs) d = apply_freezes fs (apply_freeze f d)

-- The field `features` of `getEffectiveFeatures`; its other fields are copied from the
-- configuration.
unfoldable pub effective_features : TenantRuntimeConfig → Dict Bool
effective_features config = apply_freezes config.enforcement.capability_freezes (
    switch_off config.kill_switches
      (overlay config.features (map (λ k. (k, true)) foundation_defaults_on)))
