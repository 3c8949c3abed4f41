-- ===== src/PlatformConfig/Flags/Effective.antt =====
-- The map of effective features beside a single resolution
-- (`getEffectiveFeatures` and `resolveFromConfig` of
-- web-server/src/platform-config/feature-flag.service.ts).

use Prim.Native.String.append
use text.Mathlib.Text.{starts_with}
use text.Mathlib.TextBridge.{IsPrefix}
use text.Mathlib.TextPositions.{starts_with_of_prefix}
use multi_academy_backend.Prelude.{
  String, ◌≡◌, ◌∙◌, inl, inr, refl, ap, Bool, true, false, ◌||◌, none, some, List, [], ◌∷◌, map,
  ◌==◌, any, arith, includes, if◌then◌else◌, eq_iff, Bool-cases,
}
use multi_academy_backend.Prelude.Dict.{Dict, lookup, lookup_or, insert, lookup-insert}
use multi_academy_backend.PlatformConfig.Config.{TenantRuntimeConfig}
use multi_academy_backend.PlatformConfig.Foundation.{foundation_defaults_on}
use multi_academy_backend.PlatformConfig.Flags.{
  without_last, freeze_covers, resolve_from_config, overlay, switch_off, switch_off_prefix,
  apply_freeze, apply_freezes, effective_features,
}

-- `features[key]`, read as a condition: a missing key is off.
abbrev pub is_on : String → Dict Bool → Bool
is_on = lookup_or false

without_last-IsPrefix : (s : String) → IsPrefix (without_last s) s
unfolding without_last
without_last-IsPrefix String.[] = ("", append.nil "")
without_last-IsPrefix (String.◌∷◌ c s) = elim (Bool-cases (s == "")) [
  | inl e ↦ rw e (String.◌∷◌ c s, append.nil (String.◌∷◌ c s))
  | inr e ↦
      let (u, p) = without_last-IsPrefix s in
      rw e (u, append.cons c (without_last s) u ∙ ap (String.◌∷◌ c) p)
]

starts_with-without_last : (s : String) → starts_with s (without_last s) ≡ true
starts_with-without_last s = starts_with_of_prefix (without_last s) s (without_last-IsPrefix s)

lookup-overlay :
    (key : String) (overrides d : Dict Bool)
    → lookup key (overlay overrides d)
      ≡ elim (lookup key overrides) [ some v ↦ some v | none ↦ lookup key d ]
lookup-overlay key [] d = refl
lookup-overlay key ((k, v) ∷ overrides) d =
    ground (arith, lookup-insert k key v (overlay overrides d), lookup-overlay key overrides d)

is_on-defaults :
    (key : String) (keys : List String) → is_on key (map (λ k. (k, true)) keys) ≡ includes keys key
is_on-defaults key [] = refl
is_on-defaults key (k ∷ keys) = ground (arith, is_on-defaults key keys)

is_on-switch_off :
    (key : String) (keys : List String) (d : Dict Bool)
    → is_on key (switch_off keys d) ≡ (if includes keys key then false else is_on key d)
is_on-switch_off key [] d = refl
is_on-switch_off key (k ∷ keys) d =
    ground (arith, is_on-switch_off key keys (insert k false d), lookup-insert k key false d)

is_on-switch_off_prefix :
    (key prefix : String) (d : Dict Bool)
    → is_on key (switch_off_prefix prefix d)
      ≡ (if starts_with key prefix then false else is_on key d)
is_on-switch_off_prefix key prefix [] = ground arith
is_on-switch_off_prefix key prefix ((k, v) ∷ d) =
    ground (arith, eq_iff k key, same_prefix k, is_on-switch_off_prefix key prefix d)
  where
    same_prefix : (k : String) → k ≡ key → starts_with k prefix ≡ starts_with key prefix
    same_prefix k e = rw e

is_on-apply_freeze :
    (key freeze : String) (d : Dict Bool)
    → is_on key (apply_freeze freeze d)
      ≡ (if freeze == key || freeze_covers key freeze then false else is_on key d)
is_on-apply_freeze key freeze d = elim (Bool-cases (freeze == key)) [
  | inl e ↦
      let same : freeze ≡ key = (eq_iff freeze key).0 e in
      ground (
        arith,
        same,
        is_on-switch_off_prefix key (without_last freeze) d,
        lookup-insert freeze key false d,
        starts_with-without_last key,
        ap without_last same,
      )
  | inr e ↦
      ground (
        arith,
        is_on-switch_off_prefix key (without_last freeze) d,
        lookup-insert freeze key false d,
      )
]

is_on-apply_freezes :
    (key : String) (freezes : List String) (d : Dict Bool)
    → is_on key (apply_freezes freezes d) ≡ (
        if includes freezes key
        then false
        else if any (freeze_covers key) freezes
        then false
        else is_on key d)
is_on-apply_freezes key [] d = refl
is_on-apply_freezes key (f ∷ freezes) d =
    ground (arith, is_on-apply_freezes key freezes (apply_freeze f d), is_on-apply_freeze key f d)

-- For every feature, the effective map that the clients are sent holds `true` exactly when the
-- resolution that guards the requests says that the feature is on.
pub effective_features-eq-resolve :
    (config : TenantRuntimeConfig) (key : String)
    → is_on key (effective_features config) ≡ resolve_from_config config key
unfolding effective_features resolve_from_config
effective_features-eq-resolve config key =
    let defaults : Dict Bool = map (λ k. (k, true)) foundation_defaults_on in
    let base : Dict Bool = overlay config.features defaults in
    ground (
      arith,
      is_on-apply_freezes key config.enforcement.capability_freezes
          (switch_off config.kill_switches base),
      is_on-switch_off key config.kill_switches base,
      lookup-overlay key config.features defaults,
      is_on-defaults key foundation_defaults_on,
    )
