-- ===== src/Tenant/Example.antt =====
-- An environment for the tests: every feature is on, the tenant exists, a text has one case.
use multi_academy_backend.Prelude.{true}
use multi_academy_backend.Tenant.Env.{Environment, other}

abbrev pub open_school : Environment
open_school = record {
  resolve = λ _ _. true;
  tenant_exists = λ _. true;
  to_lower_case = λ s. s;
  to_upper_case = λ s. s;
  parse_json = λ _. other;
}
