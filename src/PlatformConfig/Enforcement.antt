-- ===== src/PlatformConfig/Enforcement.antt =====
-- Blocks that the control plane puts on a tenant, a user or a network (`EnforcementService` of
-- web-server/src/platform-config/enforcement.service.ts). `Number` of a text is a parameter: the
-- number that the text stands for where that is a natural number, none where it is NaN, negative
-- or a fraction. So is `toLowerCase`.
mod Bits
pub mod Network
pub mod Blocks
use Prim.Native.Nat.{bit_and}
use multi_academy_backend.Prelude.{
  ℕ, ◌+◌, ◌-◌, ◌*◌, ◌^◌, String, Bool, true, false, ◌&&◌, ◌||◌, Option, none, some, List, [], ◌∷◌,
  map, ◌==◌, eqb, leb, if◌then◌else◌, any, includes, split, truthy, or_default,
}
use multi_academy_backend.Http.{Result, ok, err, forbidden}
use multi_academy_backend.PlatformConfig.Config.{
  TenantStatus, active, suspended, restricted, blacklisted, provisioning, archived, Enforcement,
  TenantRuntimeConfig,
}
use multi_academy_backend.PlatformConfig.Snapshot.{Claims, policy_snapshot_matches}

-- Who asks, as far as is known.
pub record Caller : Type 0 where
  pub user_id : Option String
  pub email : Option String
  pub ip : Option String

-- `bits === 0 ? 0 : (~0 << (32 - bits)) >>> 0`.
pub mask : ℕ → ℕ
mask bits = if eqb bits 0 then 0 else 2 ^ 32 - 2 ^ (32 - bits)

-- The test on two addresses as numbers of 32 bits.
pub same_network : ℕ → ℕ → ℕ → Bool
unfolding mask
same_network bits a b = eqb (bit_and a (mask bits)) (bit_and b (mask bits))

-- The address, from its four parts.
abbrev pub from_bytes : List (Option ℕ) → Option ℕ
from_bytes (some a ∷ some b ∷ some c ∷ some d ∷ []) = some (a * 2 ^ 24 + b * 2 ^ 16 + c * 2 ^ 8 + d)
from_bytes _ = none

abbrev pub in_range : Option ℕ → Option ℕ → Option ℕ → Bool
in_range (some ip) (some range) (some bits) =
    if leb bits 32 then same_network bits ip range else false
in_range _ _ _ = false

abbrev pub is_blacklisted : TenantStatus → Bool
is_blacklisted blacklisted = true
is_blacklisted _ = false

abbrev pub is_stopped : TenantStatus → Bool
is_stopped suspended = true
is_stopped restricted = true
is_stopped _ = false

abbrev stopped_message : TenantStatus → String
stopped_message restricted = "This school is restricted. Contact support."
stopped_message _ = "This school is suspended. Contact support."

-- Is the field given, and in the list?
abbrev pub given_and : Option String → (String → Bool) → Bool
given_and none p = false
given_and (some s) p = if s == "" then false else p s

module _ (number : String → Option ℕ) where
  -- One part of a dotted address.
  abbrev pub byte : String → Option ℕ
  byte s = elim (number s) [ none ↦ none | some n ↦ if leb n 255 then some n else none ]

  unfoldable pub to_int : String → Option ℕ
  to_int value = from_bytes (map byte (split b'.' value))

  abbrev pub in_parts : String → List String → Bool
  in_parts ip (range ∷ bits ∷ _) = in_range (to_int ip) (to_int range) (number bits)
  in_parts ip _ = false

  pub ipv4_in_cidr : String → String → Bool
  ipv4_in_cidr ip cidr = in_parts ip (split b'/' cidr)

  pub ip_blocked : List String → String → Bool
  ip_blocked cidrs ip = if includes cidrs ip then true else any (ipv4_in_cidr ip) cidrs

  module _ (to_lower_case : String → String) where
    abbrev pub email_blocked : List String → String → Bool
    email_blocked emails email = includes (map to_lower_case emails) (to_lower_case email)

    unfoldable pub assert_from_config : TenantRuntimeConfig → Caller → Result (Unit {0})
    assert_from_config config caller =
        let enf = config.enforcement in
        if is_blacklisted config.status || enf.school_blacklisted
        then err (
            forbidden (
              or_default enf.message
                "This school has been blocked from the platform. Contact support."))
        else if is_stopped config.status || enf.deny_login
        then err (forbidden (or_default enf.message (stopped_message config.status)))
        else if given_and caller.user_id (includes enf.blocked_user_ids)
        then err (forbidden "Your account has been blocked.")
        else if given_and caller.email (email_blocked enf.blocked_emails)
        then err (forbidden "Your account has been blocked.")
        else if given_and caller.ip (ip_blocked enf.blocked_ip_cidrs)
        then err (forbidden "Access denied from this network.")
        else ok tt

    -- `assertTenantAllowed`: the cached configuration decides where the token's snapshot matches
    -- it, and the one that `getConfig` answers otherwise.
    unfoldable pub assert_tenant_allowed :
        (ℕ → List String → String)
        → Option TenantRuntimeConfig
        → TenantRuntimeConfig
        → Caller
        → Claims
        → Result (Unit {0})
    assert_tenant_allowed sha256 none fetched caller claims = assert_from_config fetched caller
    assert_tenant_allowed sha256 (some peek) fetched caller claims =
        if policy_snapshot_matches sha256 (some peek) claims
        then assert_from_config peek caller
        else assert_from_config fetched caller
