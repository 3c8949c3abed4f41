-- ===== src/PlatformConfig/Flags/Resolution.antt =====
-- When a feature is on (`resolveFromConfig` of
-- web-server/src/platform-config/feature-flag.service.ts).
use multi_academy_backend.Prelude.{
  String, ◌≡◌, ◌↔◌, ◌⊎◌, true, false, none, some, arith, any, In, includes_iff,
}
use multi_academy_backend.Prelude.Dict.{lookup}
use multi_academy_backend.PlatformConfig.Config.{TenantRuntimeConfig}
use multi_academy_backend.PlatformConfig.Foundation.{foundation_defaults_on}
use multi_academy_backend.PlatformConfig.Flags.{freeze_covers, resolve_from_config}

-- Is a feature allowed by the switches and the freezes of the control plane?
pub record IsPermitted (config : TenantRuntimeConfig) (key : String) : Type 0 where
  pub not_killed : ¬ In key config.kill_switches
  pub not_frozen : ¬ In key config.enforcement.capability_freezes
  pub not_covered : any (freeze_covers key) config.enforcement.capability_freezes ≡ false

abbrev pub IsGranted : TenantRuntimeConfig → String → Type 0
IsGranted config key =
    (lookup key config.features ≡ some true)
    ⊎ ((lookup key config.features ≡ none) × In key foundation_defaults_on)

-- A feature is on exactly when it is neither killed nor frozen, by name or by a wildcard, and the
-- configuration turns it on or is silent on a foundation feature.
pub resolve_from_config_iff :
    (config : TenantRuntimeConfig) (key : String)
    → (resolve_from_config config key ≡ true) ↔ (IsPermitted config key × IsGranted config key)
unfolding resolve_from_config
resolve_from_config_iff config key = (to, from)
  where
    to : resolve_from_config config key ≡ true → IsPermitted config key × IsGranted config key
    to h = (
      record {
        not_killed = λ m. ground (arith, (includes_iff config.kill_switches key).1 m);
        not_frozen =
            λ m. ground (arith, (includes_iff config.enforcement.capability_freezes key).1 m);
        not_covered = ground arith;
      },
      ground (arith, (includes_iff foundation_defaults_on key)),
    )

    from : IsPermitted config key × IsGranted config key → resolve_from_config config key ≡ true
    from (p, g) = ground (
      arith,
      p.not_killed,
      p.not_frozen,
      includes_iff config.kill_switches key,
      includes_iff config.enforcement.capability_freezes key,
      includes_iff foundation_defaults_on key,
    )
