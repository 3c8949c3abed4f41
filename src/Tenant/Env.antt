-- ===== src/Tenant/Env.antt =====
-- What every tenant service does first: it asserts a feature flag and opens the tenant's database
-- (web-server/src/platform-config/feature-flag.service.ts, and `getTenantDs` of each service).
-- The environment is the interface to the rest of the server: the flags, the control plane's list
-- of tenants, and three functions of the JavaScript runtime.
use multi_academy_backend.Prelude.{String, Bool, List}
use multi_academy_backend.Http.{Action, forbidden, not_found, require, ◌>>◌}
use Prim.Native.String

-- What `JSON.parse` makes of a text: it throws, or the value is an array (of texts, here), or not.
pub data Parsed : Type 0 where
  throws other : Parsed
  items : List String → Parsed

pub record Environment : Type 0 where
  -- `FeatureFlagService.resolve`, for one tenant's configuration.
  pub resolve : String → String → Bool
  -- Does `ControlPlaneService.getTenantById` find the tenant?
  pub tenant_exists : String → Bool
  -- `String.prototype.toLowerCase`.
  pub to_lower_case : String → String
  -- `String.prototype.toUpperCase`.
  pub to_upper_case : String → String
  -- `JSON.parse` of a column that holds an array of texts.
  pub parse_json : String → Parsed

module _ {S : Type 0} (env : Environment) (tenant_id : String) where
  -- `FeatureFlagService.assertEnabled`.
  unfoldable pub assert_enabled : String → Action S (Unit {0})
  assert_enabled feature =
      require (env.resolve tenant_id feature) (forbidden (String.◌++◌ "Feature disabled: " feature))

  -- `getTenantDs`: the rest of the method runs on the tenant's own database.
  unfoldable pub get_tenant_ds : Action S (Unit {0})
  get_tenant_ds = require (env.tenant_exists tenant_id) (not_found "Tenant not found")

  unfoldable pub enter : String → Action S (Unit {0})
  unfolding assert_enabled get_tenant_ds
  enter feature = assert_enabled feature >> get_tenant_ds
