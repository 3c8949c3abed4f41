-- ===== src/PlatformConfig/Snapshot.antt =====
-- The digest of a configuration that a token carries
-- (web-server/src/platform-config/policy-snapshot.util.ts). The SHA-256 of the version and the
-- enabled features is a parameter.
use multi_academy_backend.Prelude.{
  ℕ, String, Bool, false, ◌&&◌, Option, none, some, List, map, ◌==◌, eqb, filter_by, if◌then◌else◌,
  sort_by, text_le, zero, suc,
}
use multi_academy_backend.PlatformConfig.Config.{TenantRuntimeConfig, TenantStatus}

pub record PolicySnapshot : Type 0 where
  pub config_version : ℕ
  pub tenant_status : TenantStatus
  pub features_digest : String

-- What a token claims: its version (none where it is no finite number), and its digest, "" if none.
pub record Claims : Type 0 where
  pub config_version : Option ℕ
  pub features_digest : String

module _ (sha256 : ℕ → List String → String) where
  pub enabled_features : TenantRuntimeConfig → List String
  enabled_features config = sort_by text_le (map (λ f. f.0) (filter_by (λ f. f.1) config.features))

  pub build_policy_snapshot : TenantRuntimeConfig → PolicySnapshot
  build_policy_snapshot config = record {
    config_version = config.config_version;
    tenant_status = config.status;
    features_digest = sha256 config.config_version (enabled_features config);
  }

  -- The test for a version that is a number; a version of 0 never matches.
  abbrev version_matches : TenantRuntimeConfig → ℕ → String → Bool
  version_matches peek zero digest = false
  version_matches peek (suc v) digest =
      if digest == ""
      then eqb peek.config_version (suc v)
      else (let expected = build_policy_snapshot peek in
          eqb expected.config_version (suc v) && expected.features_digest == digest)

  abbrev claim_matches : TenantRuntimeConfig → Option ℕ → String → Bool
  claim_matches peek none digest = false
  claim_matches peek (some v) digest = version_matches peek v digest

  unfoldable pub policy_snapshot_matches : Option TenantRuntimeConfig → Claims → Bool
  unfolding build_policy_snapshot
  policy_snapshot_matches none claims = false
  policy_snapshot_matches (some peek) claims =
      claim_matches peek claims.config_version claims.features_digest
