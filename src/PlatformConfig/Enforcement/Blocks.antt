-- ===== src/PlatformConfig/Enforcement/Blocks.antt =====
-- Who gets past the blocks (`assertFromConfig` of
-- web-server/src/platform-config/enforcement.service.ts).
use multi_academy_backend.Prelude.{
  ℕ, String, ◌≡◌, ◌↔◌, ◌≢◌, Bool, false, Option, none, some, List, arith, includes, includes_iff,
  In, map, eq_iff, refl, Bool-cases, inl, inr,
}
use multi_academy_backend.Http.{ok}
use multi_academy_backend.PlatformConfig.Config.{
  TenantRuntimeConfig, suspended, restricted, blacklisted,
}
use multi_academy_backend.PlatformConfig.Enforcement.{
  Caller, given_and, email_blocked, ip_blocked, assert_from_config,
}

given_and_iff :
    (o : Option String) (p : String → Bool)
    → (given_and o p ≡ false) ↔ ((s : String) → o ≡ some s → s ≢ "" → p s ≡ false)
given_and_iff none p = (λ _ s e. cc, λ _. refl)
given_and_iff (some t) p = (
  λ h s e full. given (cc) (ground (arith, eq_iff t "")),
  λ all. ground (arith, eq_iff t "", all t refl),
)
  where
    given : {s : String} → t ≡ s → p t ≡ false → p s ≡ false
    given e h = rw e at h

not_In : (xs : List String) (a : String) → includes xs a ≡ false → ¬ In a xs
not_In xs a e m = ground (arith, (includes_iff xs a).1 m)

not_includes : (xs : List String) (a : String) → ¬ In a xs → includes xs a ≡ false
not_includes xs a free = elim (Bool-cases (includes xs a)) [
  | inl e ↦ absurd (free ((includes_iff xs a).0 e))
  | inr e ↦ e
]

module _ (number : String → Option ℕ) (to_lower_case : String → String) where
  -- A caller whom nothing blocks: not the school as a whole, and none of what is known of the caller.
  pub record IsAllowed (config : TenantRuntimeConfig) (caller : Caller) : Type 0 where
    pub not_blacklisted : config.status ≢ blacklisted
    pub not_suspended : config.status ≢ suspended
    pub not_restricted : config.status ≢ restricted
    pub school_free : config.enforcement.school_blacklisted ≡ false
    pub login_free : config.enforcement.deny_login ≡ false
    pub user_free :
        (user : String)
        → caller.user_id ≡ some user
        → user ≢ ""
        → ¬ In user config.enforcement.blocked_user_ids
    pub email_free :
        (email : String)
        → caller.email ≡ some email
        → email ≢ ""
        → ¬ In (to_lower_case email) (map to_lower_case config.enforcement.blocked_emails)
    pub network_free :
        (ip : String)
        → caller.ip ≡ some ip
        → ip ≢ ""
        → ip_blocked number config.enforcement.blocked_ip_cidrs ip ≡ false

  -- A call is let through exactly when the school is neither blacklisted, suspended, restricted
  -- nor denied login, and neither the user, the address of the user nor the network is blocked.
  pub assert_from_config_iff :
      (config : TenantRuntimeConfig) (caller : Caller)
      → (assert_from_config number to_lower_case config caller ≡ ok tt) ↔ IsAllowed config caller
  unfolding assert_from_config
  assert_from_config_iff config caller = (to, from)
    where
      emails : List String
      emails = map to_lower_case config.enforcement.blocked_emails

      to : assert_from_config number to_lower_case config caller ≡ ok tt → IsAllowed config caller
      to e = record {
        not_blacklisted = ground arith;
        not_suspended = ground arith;
        not_restricted = ground arith;
        school_free = ground arith;
        login_free = ground arith;
        user_free = λ user known full. not_In _ user (
            (given_and_iff caller.user_id (includes config.enforcement.blocked_user_ids)).0
              (ground arith) user known full);
        email_free = λ email known full. not_In emails (to_lower_case email) (
            (given_and_iff caller.email
                (email_blocked number to_lower_case config.enforcement.blocked_emails)).0
              (ground arith) email known full);
        network_free =
            (given_and_iff caller.ip (ip_blocked number config.enforcement.blocked_ip_cidrs)).0
              (ground arith);
      }

      from : IsAllowed config caller → assert_from_config number to_lower_case config caller ≡ ok tt
      from h = ground (
        arith,
        (given_and_iff caller.user_id (includes config.enforcement.blocked_user_ids)).1
            (λ s e full. not_includes _ s (h.user_free s e full)),
        (given_and_iff caller.email
              (email_blocked number to_lower_case config.enforcement.blocked_emails)).1
            (λ s e full. not_includes emails (to_lower_case s) (h.email_free s e full)),
        (given_and_iff caller.ip (ip_blocked number config.enforcement.blocked_ip_cidrs)).1
            h.network_free,
      )
